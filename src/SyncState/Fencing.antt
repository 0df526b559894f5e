-- ===== src/SyncState/Fencing.antt =====
-- The lease: one holder at a time, and nothing written by a run that lost it.
use mathlib.Core.Bool.{false≢true}
use bank_email_fetcher.Prelude.{
  ℕ, ◌+◌, ◌*◌, ◌≤◌, String, Bool, true, false, Option, none, some, List, All, ◌≡◌, ◌≢◌, refl, sym,
  ◌∙◌, inl, inr, arith, str_eq_ne, Bool-cases, Option-cases,
}
use bank_email_fetcher.SyncState.Table.{
  Instant, ExtensionSyncState, SyncTable, set, set_self, seed, update_where-none,
  update_where-false, update_where-true, read_sync_state,
}
use bank_email_fetcher.SyncState.Backoff.{second}
use bank_email_fetcher.SyncState.Lease.{
  held, lease_free, holds, lease_token_for, grant, extend, clear_lease, claim_lease, release_lease,
}
use bank_email_fetcher.SyncState.Completion.{
  publish, catch_up, settle, note_state, arm, miss, healthy, accepted, fatal, unknown, other,
}
use bank_email_fetcher.SyncState.Admin.{flag_reload, rewind}
use bank_email_fetcher.SyncState.Dirty.{bump}
use bank_email_fetcher.SyncState.Run.{
  Completion, published_hash, hash_noop, guard_caught_up, accepted_post, diagnosis,
  pre_post_failure, Op, claim, run_completion, run,
}
use bank_email_fetcher.SyncState.Guards.{IsStale}
use bank_email_fetcher.SyncState.Effects.{effect, refusal, run_completion_stale}
use bank_email_fetcher.SyncState.Rows.{AllRows, Laws, run-AllRows}

module _ (eid stale : String) where
  -- the row of `eid` does not store the token `stale`
  abbrev pub IsFenced : String → ExtensionSyncState → Type 0
  IsFenced k row = k ≡ eid → holds stale row ≡ false

  -- a step that does not claim the lease of `eid` with the token `stale`
  abbrev pub ClaimsOther : String → Op → Type 0
  ClaimsOther k (claim owner given minted ttl) = lease_token_for given minted ≢ stale
  ClaimsOther k _ = Unit

  holds-catch_up :
      (target : ℕ) (remote_hash : Option String) (now : Instant) (row : ExtensionSyncState)
      → holds stale (catch_up target remote_hash now row) ≡ holds stale row
  unfolding catch_up
  holds-catch_up target none now row = ground arith
  holds-catch_up target (some hash) now row = ground arith

  holds-effect :
      (now : Instant) (c : Completion) (row : ExtensionSyncState)
      → holds stale (effect now c row) ≡ holds stale row
  unfolding publish settle note_state arm miss
  holds-effect now (published_hash hash) row = refl
  holds-effect now (hash_noop target) row = holds-catch_up target none now row
  holds-effect now (guard_caught_up target) row = holds-catch_up target none now row
  holds-effect now (accepted_post target hash) row = holds-catch_up target (some hash) now row
  holds-effect now (diagnosis healthy hash minutes) row = refl
  holds-effect now (diagnosis accepted hash minutes) row = refl
  holds-effect now (diagnosis unknown hash minutes) row = refl
  holds-effect now (diagnosis fatal hash minutes) row = refl
  holds-effect now (diagnosis (other state) hash minutes) row = refl
  holds-effect now (pre_post_failure minutes) row = refl

  holds-bump :
      (reset_backoff : Bool) (now : Instant) (row : ExtensionSyncState)
      → holds stale (bump reset_backoff now row) ≡ holds stale row
  unfolding bump
  holds-bump true now row = refl
  holds-bump false now row = refl

  IsFenced-laws : Laws IsFenced ClaimsOther
  unfolding seed grant extend clear_lease flag_reload rewind
  IsFenced-laws = record {
    on_seed = λ k flag now e. refl;
    on_grant = λ k owner given minted ttl now row other_token h e.
        str_eq_ne (lease_token_for given minted) stale other_token;
    on_extend = λ k token expires now row g h e. h e;
    on_clear = λ k now row h e. refl;
    on_flag = λ k flag now row h e. h e;
    on_rewind = λ k now row h e. refl;
    on_bump = λ k reset_backoff now row h e. rw (holds-bump reset_backoff now row) (h e);
    on_effect = λ k now c row h e. rw (holds-effect now c row) (h e);
  }

  IsStale-of : (t : SyncTable) → AllRows IsFenced t → IsStale eid stale t
  IsStale-of t h = elim (Option-cases (t eid)) [
    | inl e ↦ rw e
    | inr (row, e) ↦ rw e (h eid row e refl)
  ]

  AllRows-of : (t : SyncTable) → IsStale eid stale t → AllRows IsFenced t
  AllRows-of t h k row e same = let at_eid : t eid ≡ some row = rw (← same) e in rw at_eid at h

  -- A token that the row does not store stays out of it, however many operations run, if no claim
  -- is made with it.
  pub IsStale-run :
      (steps : List (String × Instant × Op)) (t : SyncTable)
      → All (λ s. ClaimsOther s.0 s.2) steps
      → IsStale eid stale t
      → IsStale eid stale (run steps t)
  IsStale-run steps t a h =
      IsStale-of (run steps t) (run-AllRows IsFenced-laws steps t a (AllRows-of t h))

module _ (owner : String) (given : Option String) (minted eid : String) (ttl now : ℕ)
    (t : SyncTable) where
  -- the table after a claim that is granted
  abbrev pub granted : ExtensionSyncState → SyncTable
  granted row = set eid (grant owner (lease_token_for given minted) (now + ttl * second) now row) t

  pub claim_lease_free :
      (row : ExtensionSyncState)
      → t eid ≡ some row
      → lease_free now row ≡ true
      → ((claim_lease owner given minted eid ttl now t).0.claimed ≡ true)
        × ((claim_lease owner given minted eid ttl now t).1 ≡ granted row)
  unfolding claim_lease
  claim_lease_free row e free =
      let w =
        update_where-true eid (lease_free now)
          (grant owner (lease_token_for given minted) (now + ttl * second) now) t row e free in
      (rw w, rw w)

  pub claim_lease_held :
      (row : ExtensionSyncState)
      → t eid ≡ some row
      → lease_free now row ≡ false
      → ((claim_lease owner given minted eid ttl now t).0.claimed ≡ false)
        × ((claim_lease owner given minted eid ttl now t).0.reason ≡ held)
        × ((claim_lease owner given minted eid ttl now t).1 ≡ t)
  unfolding claim_lease read_sync_state
  claim_lease_held row e busy =
      let w =
        update_where-false eid (lease_free now)
          (grant owner (lease_token_for given minted) (now + ttl * second) now) t row e busy in
      (rw w (rw e), rw w (rw e), rw w)

  -- A claim succeeds only on a row whose lease was free.
  pub claimed_row :
      (claim_lease owner given minted eid ttl now t).0.claimed ≡ true
      → (row : ExtensionSyncState) × (t eid ≡ some row) × (lease_free now row ≡ true)
  unfolding claim_lease read_sync_state
  claimed_row c = elim (Option-cases (t eid)) [
    | inl e ↦
        let w =
          update_where-none eid (lease_free now)
            (grant owner (lease_token_for given minted) (now + ttl * second) now) t e in
        absurd (false≢true (rw e at (rw w at c)))
    | inr (row, e) ↦ elim (Bool-cases (lease_free now row)) [
      | inl free ↦ (row, e, free)
      | inr busy ↦ absurd (false≢true (sym (claim_lease_held row e busy).0 ∙ c))
    ]
  ]

-- Of two claims by any two coordinators, where the second comes before the lease of the first has
-- expired, the second is told that the lease is held, and changes nothing.
pub claim_lease-exclusive :
    (owner owner' : String) (given given' : Option String) (minted minted' eid : String)
    (ttl ttl' now now' : ℕ) (t : SyncTable)
    → (claim_lease owner given minted eid ttl now t).0.claimed ≡ true
    → now' ≤ now + ttl * second
    → let t' = (claim_lease owner given minted eid ttl now t).1 in
      let (second_claim, t'') = claim_lease owner' given' minted' eid ttl' now' t' in
      (second_claim.claimed ≡ false) × (second_claim.reason ≡ held) × (t'' ≡ t')
claim_lease-exclusive owner owner' given given' minted minted' eid ttl ttl' now now' t c before =
    let (row, e, free) = claimed_row owner given minted eid ttl now t c in
    let g = grant owner (lease_token_for given minted) (now + ttl * second) now row in
    let after = (claim_lease_free owner given minted eid ttl now t row e free).1 in
    let busy : lease_free now' g ≡ false = unfold grant in ground arith in
    rw after
      (claim_lease_held owner' given' minted' eid ttl' now' (set eid g t) g (set_self eid g t) busy)

-- Once another coordinator has been granted the lease under another token, every completion of the
-- run that lost it is refused and leaves the table as it is, whatever operations have run since, as
-- long as none of them claims the lease with the lost token.
pub takeover-fences :
    (owner : String) (given : Option String) (minted eid lost : String) (ttl now : ℕ)
    (t : SyncTable) (steps : List (String × Instant × Op)) (now' : Instant) (c : Completion)
    → (claim_lease owner given minted eid ttl now t).0.claimed ≡ true
    → lease_token_for given minted ≢ lost
    → All (λ s. ClaimsOther eid lost s.0 s.2) steps
    → let t' = run steps (claim_lease owner given minted eid ttl now t).1 in
      run_completion eid lost now' c t' ≡ (refusal eid lost c, t')
takeover-fences owner given minted eid lost ttl now t steps now' c claimed ne others =
    let (row, e, free) = claimed_row owner given minted eid ttl now t claimed in
    let g = grant owner (lease_token_for given minted) (now + ttl * second) now row in
    let after = (claim_lease_free owner given minted eid ttl now t row e free).1 in
    let stale : IsStale eid lost (set eid g t) =
      rw (set_self eid g t) (unfold grant in str_eq_ne (lease_token_for given minted) lost ne) in
    rw after (
      run_completion_stale eid lost now' (run steps (set eid g t)) c
        (IsStale-run eid lost steps (set eid g t) others stale))

-- A run that releases its lease hands it on at once: the release succeeds, and the next claim, by
-- anybody and at any instant, is granted.
pub release_lease-claim :
    (eid token owner : String) (given : Option String) (minted : String) (ttl now now' : ℕ)
    (t : SyncTable) (row : ExtensionSyncState)
    → t eid ≡ some row
    → holds token row ≡ true
    → let (released, t') = release_lease token eid now t in
      (released ≡ true) × ((claim_lease owner given minted eid ttl now' t').0.claimed ≡ true)
unfolding release_lease
release_lease-claim eid token owner given minted ttl now now' t row e g =
    let w = update_where-true eid (holds token) (clear_lease now) t row e g in
    let freed = clear_lease now row in
    (
      rw (w, release_lease),
      rw (w, release_lease)
          (claim_lease_free owner given minted eid ttl now' (set eid freed t) freed
            (set_self eid freed t) refl).0,
    )
