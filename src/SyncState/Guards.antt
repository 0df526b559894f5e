-- ===== src/SyncState/Guards.antt =====
-- The token guard of the completion statements: what each does for the holder of the lease, and for
-- anyone else.
use bank_email_fetcher.Prelude.{
  ℕ, ◌+◌, String, Bool, true, false, Option, none, some, List, ◌≡◌, ◌⊎◌, refl, inl, inr, Bool-cases,
  Option-cases,
}
use bank_email_fetcher.SyncState.Table.{
  Instant, ExtensionSyncState, SyncTable, done, lease_stale, set, update_where-none,
  update_where-false, update_where-true,
}
use bank_email_fetcher.SyncState.Backoff.{backoff_delta}
use bank_email_fetcher.SyncState.Lease.{holds, update_guarded, fetch_guarded}
use bank_email_fetcher.SyncState.Completion.{record_fatal, record_pre_post_failure, arm, miss}

module _ (eid token : String) where
  -- the row is there and the token is the one it stores
  abbrev pub held_row : Option ExtensionSyncState → Bool
  held_row none = false
  held_row (some row) = holds token row

  abbrev pub IsHeld : SyncTable → Type 0
  IsHeld t = (row : ExtensionSyncState) × (t eid ≡ some row) × (holds token row ≡ true)

  abbrev pub IsStale : SyncTable → Type 0
  IsStale t = held_row (t eid) ≡ false

module _ (eid token : String) (t : SyncTable) where
  IsHeld-cases_of :
      (o : Option ExtensionSyncState)
      → ((row : ExtensionSyncState) × (o ≡ some row) × (holds token row ≡ true))
        ⊎ (held_row eid token o ≡ false)
  IsHeld-cases_of none = inr refl
  IsHeld-cases_of (some row) = elim (Bool-cases (holds token row)) [
    | inl h ↦ inl (row, refl, h)
    | inr h ↦ inr h
  ]

  pub IsHeld-cases : IsHeld eid token t ⊎ IsStale eid token t
  IsHeld-cases = IsHeld-cases_of (t eid)

  pub update_guarded_stale :
      (f : ExtensionSyncState → ExtensionSyncState)
      → IsStale eid token t
      → update_guarded eid token f t ≡ (lease_stale eid token, t)
  unfolding update_guarded
  update_guarded_stale f h = elim (Option-cases (t eid)) [
    | inl e ↦ rw (update_where-none eid (holds token) f t e)
    | inr (row, e) ↦ rw (update_where-false eid (holds token) f t row e (rw e at h))
  ]

  pub fetch_guarded_stale : IsStale eid token t → fetch_guarded eid token t ≡ lease_stale eid token
  unfolding fetch_guarded
  fetch_guarded_stale h = elim (Option-cases (t eid)) [
    | inl e ↦ rw (e, fetch_guarded)
    | inr (row, e) ↦ let g : holds token row ≡ false = rw e at h in rw (e, fetch_guarded) (rw g)
  ]

  module _ (row : ExtensionSyncState) (e : t eid ≡ some row) (g : holds token row ≡ true) where
    pub update_guarded_held :
        (f : ExtensionSyncState → ExtensionSyncState)
        → update_guarded eid token f t ≡ (done (f row).columns, set eid (f row) t)
    unfolding update_guarded
    update_guarded_held f = rw (update_where-true eid (holds token) f t row e g)

    pub fetch_guarded_held : fetch_guarded eid token t ≡ done row.columns
    unfolding fetch_guarded
    fetch_guarded_held = rw (e, fetch_guarded) (rw g)

-- The two completions that read before they write, for the holder and for anyone else.
module _ (eid token : String) (now : Instant) (minutes : List ℕ) (t : SyncTable) where
  pub record_fatal_stale :
      IsStale eid token t → record_fatal token eid now minutes t ≡ (lease_stale eid token, t)
  unfolding record_fatal
  record_fatal_stale h = rw (fetch_guarded_stale eid token t h)

  pub record_pre_post_failure_stale :
      IsStale eid token t
      → record_pre_post_failure token eid now minutes t ≡ (lease_stale eid token, t)
  unfolding record_pre_post_failure
  record_pre_post_failure_stale h = rw (fetch_guarded_stale eid token t h)

  module _ (row : ExtensionSyncState) (e : t eid ≡ some row) (g : holds token row ≡ true) where
    pub record_fatal_held :
        let failures = row.failure_count + 1 in
        let row' = arm "fatal" failures (now + backoff_delta failures minutes) now row in
        record_fatal token eid now minutes t ≡ (done row'.columns, set eid row' t)
    unfolding record_fatal
    record_fatal_held = rw (fetch_guarded_held eid token t row e g) (
        update_guarded_held eid token t row e g (
          arm "fatal" (row.failure_count + 1) (now + backoff_delta (row.failure_count + 1) minutes)
            now))

    pub record_pre_post_failure_held :
        let failures = row.failure_count + 1 in
        let row' = miss failures (now + backoff_delta failures minutes) now row in
        record_pre_post_failure token eid now minutes t ≡ (done row'.columns, set eid row' t)
    unfolding record_pre_post_failure
    record_pre_post_failure_held = rw (fetch_guarded_held eid token t row e g) (
        update_guarded_held eid token t row e g
          (miss (row.failure_count + 1) (now + backoff_delta (row.failure_count + 1) minutes) now))
