-- ===== src/SyncState/Rows.antt =====
-- Properties of every row of the table, and how each operation of `Run` keeps them, given what the
-- single rows keep.
use text.Mathlib.Text.{◌==◌}
use mathlib.Core.Path.{subst}
use bank_email_fetcher.Prelude.{
  ℕ, ◌+◌, ◌*◌, String, Bool, true, false, Option, some, List, [], ◌∷◌, All, ◌≡◌, refl, inl, inr,
  arith, eq_iff, Bool-cases, Option-cases,
}
use bank_email_fetcher.SyncState.Table.{
  Instant, ExtensionSyncState, SyncTable, set, update_where, update_where-none, update_where-false,
  update_where-true, insert_found, ensure_sync_state, seed,
}
use bank_email_fetcher.SyncState.Backoff.{second}
use bank_email_fetcher.SyncState.Lease.{
  lease_free, holds, lease_token_for, grant, extend, clear_lease, claim_lease, heartbeat_lease,
  release_lease,
}
use bank_email_fetcher.SyncState.Completion.{other}
use bank_email_fetcher.SyncState.Admin.{
  flag_reload, rewind, set_force_reload, reset_sync_state, capture_target, always,
}
use bank_email_fetcher.SyncState.Dirty.{Write, settings, paisa, bump, is_paisa_key, fire, every_row}
use bank_email_fetcher.SyncState.Run.{
  Completion, published_hash, diagnosis, Op, write, ensure, claim, heartbeat, release, capture,
  complete, force, reset, run_completion, run_op, run,
}
use bank_email_fetcher.SyncState.Guards.{IsHeld-cases}
use bank_email_fetcher.SyncState.Effects.{
  effect, written, run_completion_stale, run_completion_held,
}

module _ (P : String → ExtensionSyncState → Type 0) where
  abbrev pub AllRows : SyncTable → Type 0
  AllRows t = (k : String) (row : ExtensionSyncState) → t k ≡ some row → P k row

  pub set-AllRows :
      (eid : String) (row : ExtensionSyncState) (t : SyncTable)
      → AllRows t
      → P eid row
      → AllRows (set eid row t)
  set-AllRows eid row t h p k r e = elim (Bool-cases (eid == k)) [
    | inl same ↦ subst (λ j. P j r) ((eq_iff eid k).0 same) (subst (P eid) (ground arith) p)
    | inr differ ↦ h k r (ground arith)
  ]

  pub update_where-AllRows :
      (eid : String) (guard : ExtensionSyncState → Bool)
      (f : ExtensionSyncState → ExtensionSyncState) (t : SyncTable)
      → ((row : ExtensionSyncState)
          → t eid ≡ some row
          → guard row ≡ true
          → P eid row
          → P eid (f row))
      → AllRows t
      → AllRows (update_where eid guard f t).1
  update_where-AllRows eid guard f t keep h = elim (Option-cases (t eid)) [
    | inl e ↦ rw (update_where-none eid guard f t e) h
    | inr (row, e) ↦ elim (Bool-cases (guard row)) [
      | inl g ↦
          rw (update_where-true eid guard f t row e g)
            (set-AllRows eid (f row) t h (keep row e g (h eid row e)))
      | inr g ↦ rw (update_where-false eid guard f t row e g) h
    ]
  ]

  pub ensure_sync_state-AllRows :
      (eid : String) (now : Instant) (t : SyncTable)
      → P eid (seed eid true now)
      → AllRows t
      → AllRows (ensure_sync_state eid now t).1
  unfolding ensure_sync_state
  ensure_sync_state-AllRows eid now t p h = elim (Option-cases (t eid)) [
    | inl e ↦ rw (e, insert_found) (set-AllRows eid (seed eid true now) t h p)
    | inr (row, e) ↦ rw (e, insert_found) h
  ]

-- What single rows keep, for the operations that are allowed.
pub record Laws (P : String → ExtensionSyncState → Type 0) (Allowed : String → Op → Type 0)
    : Type 0 where
  pub on_seed : (eid : String) (flag : Bool) (now : Instant) → P eid (seed eid flag now)
  pub on_grant :
      (eid owner : String) (given : Option String) (minted : String) (ttl now : ℕ)
      (row : ExtensionSyncState)
      → Allowed eid (claim owner given minted ttl)
      → P eid row
      → P eid (grant owner (lease_token_for given minted) (now + ttl * second) now row)
  pub on_extend :
      (eid token : String) (expires now : Instant) (row : ExtensionSyncState)
      → holds token row ≡ true
      → P eid row
      → P eid (extend expires now row)
  pub on_clear :
      (eid : String) (now : Instant) (row : ExtensionSyncState)
      → P eid row
      → P eid (clear_lease now row)
  pub on_flag :
      (eid : String) (flag : Bool) (now : Instant) (row : ExtensionSyncState)
      → P eid row
      → P eid (flag_reload flag now row)
  pub on_rewind :
      (eid : String) (now : Instant) (row : ExtensionSyncState) → P eid row → P eid (rewind now row)
  pub on_bump :
      (eid : String) (reset_backoff : Bool) (now : Instant) (row : ExtensionSyncState)
      → P eid row
      → P eid (bump reset_backoff now row)
  pub on_effect :
      (eid : String) (now : Instant) (c : Completion) (row : ExtensionSyncState)
      → P eid row
      → P eid (effect now c row)

module _ {P : String → ExtensionSyncState → Type 0} {Allowed : String → Op → Type 0}
    (laws : Laws P Allowed) where
  written-AllRows :
      (eid : String) (c : Completion) (row : ExtensionSyncState) (t : SyncTable)
      → P eid row
      → AllRows P t
      → AllRows P (written eid c row t)
  written-AllRows eid (diagnosis (other state) hash minutes) row t p h = h
  written-AllRows eid (published_hash hash) row t p h = set-AllRows P eid row t h p
  written-AllRows eid _ row t p h = set-AllRows P eid row t h p

  run_completion-AllRows :
      (eid token : String) (now : Instant) (c : Completion) (t : SyncTable)
      → AllRows P t
      → AllRows P (run_completion eid token now c t).1
  run_completion-AllRows eid token now c t h = elim (IsHeld-cases eid token t) [
    | inl (row, e, g) ↦
        rw (run_completion_held eid token now t row e g c) (
          written-AllRows eid c (effect now c row) t (laws.on_effect eid now c row (h eid row e)) h)
    | inr stale ↦ rw (run_completion_stale eid token now t c stale) h
  ]

  fire-AllRows :
      (w : Write) (now : Instant) (t : SyncTable) → AllRows P t → AllRows P (fire w now t)
  unfolding fire
  fire-AllRows (settings key) now t h = elim (Bool-cases (is_paisa_key key)) [
    | inl paisa_key ↦ rw paisa_key (
        update_where-AllRows P paisa every_row (bump true now) t
          (λ row _ _. laws.on_bump paisa true now row) h)
    | inr other_key ↦ rw other_key h
  ]
  fire-AllRows _ now t h =
      update_where-AllRows P paisa every_row (bump false now) t
        (λ row _ _. laws.on_bump paisa false now row) h

  capture_target-AllRows :
      (eid : String) (now : Instant) (t : SyncTable)
      → AllRows P t
      → AllRows P (capture_target eid now t).1
  unfolding capture_target
  capture_target-AllRows eid now t h = elim (Option-cases (t eid)) [
    | inl e ↦
        rw (e, capture_target) (ensure_sync_state-AllRows P eid now t (laws.on_seed eid true now) h)
    | inr (row, e) ↦ rw (e, capture_target) h
  ]

  set_force_reload-AllRows :
      (eid : String) (now : Instant) (enabled : Bool) (t : SyncTable)
      → AllRows P t
      → AllRows P (set_force_reload enabled eid now t).1
  unfolding set_force_reload
  set_force_reload-AllRows eid now enabled t h = elim (Option-cases (t eid)) [
    | inl e ↦
        rw (update_where-none eid always (flag_reload enabled now) t e, set_force_reload)
          (set-AllRows P eid (seed eid enabled now) t h (laws.on_seed eid enabled now))
    | inr (row, e) ↦
        rw (update_where-true eid always (flag_reload enabled now) t row e refl, set_force_reload)
          (set-AllRows P eid (flag_reload enabled now row) t h
            (laws.on_flag eid enabled now row (h eid row e)))
  ]

  reset_sync_state-AllRows :
      (eid : String) (now : Instant) (t : SyncTable)
      → AllRows P t
      → AllRows P (reset_sync_state eid now t).1
  unfolding reset_sync_state
  reset_sync_state-AllRows eid now t h = elim (Option-cases (t eid)) [
    | inl e ↦
        rw (update_where-none eid always (rewind now) t e, reset_sync_state)
          (ensure_sync_state-AllRows P eid now t (laws.on_seed eid true now) h)
    | inr (row, e) ↦
        rw (update_where-true eid always (rewind now) t row e refl, reset_sync_state)
          (set-AllRows P eid (rewind now row) t h (laws.on_rewind eid now row (h eid row e)))
  ]

  pub run_op-AllRows :
      (eid : String) (now : Instant) (op : Op) (t : SyncTable)
      → Allowed eid op
      → AllRows P t
      → AllRows P (run_op eid now op t)
  unfolding run_op claim_lease heartbeat_lease release_lease
  run_op-AllRows eid now (write w) t a h = fire-AllRows w now t h
  run_op-AllRows eid now ensure t a h =
      ensure_sync_state-AllRows P eid now t (laws.on_seed eid true now) h
  run_op-AllRows eid now (claim owner given minted ttl) t a h =
      update_where-AllRows P eid (lease_free now)
        (grant owner (lease_token_for given minted) (now + ttl * second) now) t
        (λ row _ _. laws.on_grant eid owner given minted ttl now row a) h
  run_op-AllRows eid now (heartbeat token ttl) t a h =
      update_where-AllRows P eid (holds token) (extend (now + ttl * second) now) t
        (λ row _ g. laws.on_extend eid token (now + ttl * second) now row g) h
  run_op-AllRows eid now (release token) t a h =
      update_where-AllRows P eid (holds token) (clear_lease now) t
        (λ row _ _. laws.on_clear eid now row) h
  run_op-AllRows eid now capture t a h = capture_target-AllRows eid now t h
  run_op-AllRows eid now (complete token c) t a h = run_completion-AllRows eid token now c t h
  run_op-AllRows eid now (force enabled) t a h = set_force_reload-AllRows eid now enabled t h
  run_op-AllRows eid now reset t a h = reset_sync_state-AllRows eid now t h

  pub run-AllRows :
      (steps : List (String × Instant × Op)) (t : SyncTable)
      → All (λ s. Allowed s.0 s.2) steps
      → AllRows P t
      → AllRows P (run steps t)
  unfolding run
  run-AllRows [] t a h = h
  run-AllRows ((eid, now, op) ∷ steps) t a h =
      run-AllRows steps (run_op eid now op t) a.1 (run_op-AllRows eid now op t a.0 h)
