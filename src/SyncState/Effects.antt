-- ===== src/SyncState/Effects.antt =====
-- The completions as compare-and-set steps: what the holder's call does to the row, and what a call
-- with any other token returns.
use bank_email_fetcher.Prelude.{
  ◌+◌, String, true, Option, none, some, ◌≡◌, refl, inl, inr, Bool-cases, Option-cases,
  if◌then◌else◌,
}
use bank_email_fetcher.SyncState.Table.{
  Instant, SyncStateSnapshot, ExtensionSyncState, SyncTable, Outcome, done, lease_stale,
  unknown_state, set,
}
use bank_email_fetcher.SyncState.Backoff.{backoff_delta}
use bank_email_fetcher.SyncState.Lease.{holds}
use bank_email_fetcher.SyncState.Completion.{
  publish, catch_up, settle, note_state, arm, miss, healthy, accepted, fatal, unknown, other,
  record_published_hash, record_hash_noop, record_guard_caught_up, record_accepted_post,
  record_diagnosis,
}
use bank_email_fetcher.SyncState.Guards.{
  IsStale, update_guarded_stale, update_guarded_held, record_fatal_stale, record_fatal_held,
  record_pre_post_failure_stale, record_pre_post_failure_held,
}
use bank_email_fetcher.SyncState.Run.{
  Completion, published_hash, hash_noop, guard_caught_up, accepted_post, diagnosis,
  pre_post_failure, run_completion,
}

-- the row that the holder's call writes
abbrev pub effect : Instant → Completion → ExtensionSyncState → ExtensionSyncState
effect now (published_hash hash) row = publish hash now row
effect now (hash_noop target) row = catch_up target none now row
effect now (guard_caught_up target) row = catch_up target none now row
effect now (accepted_post target hash) row = catch_up target (some hash) now row
effect now (diagnosis healthy hash minutes) row = settle "healthy" hash now row
effect now (diagnosis accepted hash minutes) row = settle "accepted" hash now row
effect now (diagnosis unknown hash minutes) row = note_state "unknown" now row
effect now (diagnosis fatal hash minutes) row =
    arm "fatal" (row.failure_count + 1) (now + backoff_delta (row.failure_count + 1) minutes) now
      row
effect now (diagnosis (other state) hash minutes) row = row
effect now (pre_post_failure minutes) row =
    miss (row.failure_count + 1) (now + backoff_delta (row.failure_count + 1) minutes) now row

-- what the call raises for anyone else
abbrev pub refusal : String → String → Completion → Outcome SyncStateSnapshot
refusal eid token (diagnosis (other state) hash minutes) = unknown_state state
refusal eid token c = lease_stale eid token

-- what the call returns to the holder
abbrev pub result : Completion → ExtensionSyncState → Outcome SyncStateSnapshot
result (diagnosis (other state) hash minutes) row = unknown_state state
result c row = done row.columns

-- the table after the holder's call: an unknown state raises before any statement
abbrev pub written : String → Completion → ExtensionSyncState → SyncTable → SyncTable
written eid (diagnosis (other state) hash minutes) row t = t
written eid c row t = set eid row t

module _ (eid token : String) (now : Instant) (t : SyncTable) where
  pub run_completion_stale :
      (c : Completion)
      → IsStale eid token t
      → run_completion eid token now c t ≡ (refusal eid token c, t)
  unfolding run_completion record_published_hash record_hash_noop record_guard_caught_up
      record_accepted_post record_diagnosis
  run_completion_stale (published_hash hash) h =
      update_guarded_stale eid token t (publish hash now) h
  run_completion_stale (hash_noop target) h =
      rw (update_guarded_stale eid token t (catch_up target none now) h)
  run_completion_stale (guard_caught_up target) h =
      rw (update_guarded_stale eid token t (catch_up target none now) h)
  run_completion_stale (accepted_post target hash) h =
      rw (update_guarded_stale eid token t (catch_up target (some hash) now) h)
  run_completion_stale (diagnosis healthy hash minutes) h =
      update_guarded_stale eid token t (settle "healthy" hash now) h
  run_completion_stale (diagnosis accepted hash minutes) h =
      update_guarded_stale eid token t (settle "accepted" hash now) h
  run_completion_stale (diagnosis unknown hash minutes) h =
      update_guarded_stale eid token t (note_state "unknown" now) h
  run_completion_stale (diagnosis fatal hash minutes) h =
      record_fatal_stale eid token now minutes t h
  run_completion_stale (diagnosis (other state) hash minutes) h = refl
  run_completion_stale (pre_post_failure minutes) h =
      record_pre_post_failure_stale eid token now minutes t h

  module _ (row : ExtensionSyncState) (e : t eid ≡ some row) (g : holds token row ≡ true) where
    pub run_completion_held :
        (c : Completion)
        → run_completion eid token now c t
          ≡ (result c (effect now c row), written eid c (effect now c row) t)
    unfolding run_completion record_published_hash record_hash_noop record_guard_caught_up
        record_accepted_post record_diagnosis
    run_completion_held (published_hash hash) =
        update_guarded_held eid token t row e g (publish hash now)
    run_completion_held (hash_noop target) =
        rw (update_guarded_held eid token t row e g (catch_up target none now))
    run_completion_held (guard_caught_up target) =
        rw (update_guarded_held eid token t row e g (catch_up target none now))
    run_completion_held (accepted_post target hash) =
        rw (update_guarded_held eid token t row e g (catch_up target (some hash) now))
    run_completion_held (diagnosis healthy hash minutes) =
        update_guarded_held eid token t row e g (settle "healthy" hash now)
    run_completion_held (diagnosis accepted hash minutes) =
        update_guarded_held eid token t row e g (settle "accepted" hash now)
    run_completion_held (diagnosis unknown hash minutes) =
        update_guarded_held eid token t row e g (note_state "unknown" now)
    run_completion_held (diagnosis fatal hash minutes) =
        record_fatal_held eid token now minutes t row e g
    run_completion_held (diagnosis (other state) hash minutes) = refl
    run_completion_held (pre_post_failure minutes) =
        record_pre_post_failure_held eid token now minutes t row e g

-- A completion as one atomic compare-and-set on the row of the extension.
abbrev pub compare_and_set :
    String
    → String
    → Instant
    → Completion
    → SyncTable
    → Option ExtensionSyncState
    → Outcome SyncStateSnapshot × SyncTable
compare_and_set eid token now c t none = (refusal eid token c, t)
compare_and_set eid token now c t (some row) =
    if holds token row
    then (result c (effect now c row), written eid c (effect now c row) t)
    else (refusal eid token c, t)

-- Every completion is one compare-and-set: where the row stores the caller's token, it writes the
-- row that `effect` names and returns it; where the row is missing or stores another token or none,
-- it raises and writes nothing. An unknown diagnosis state raises before any statement.
pub run_completion-compare_and_set :
    (eid token : String) (now : Instant) (c : Completion) (t : SyncTable)
    → run_completion eid token now c t ≡ compare_and_set eid token now c t (t eid)
run_completion-compare_and_set eid token now c t = elim (Option-cases (t eid)) [
  | inl e ↦ rw e (run_completion_stale eid token now t c (rw e))
  | inr (row, e) ↦ elim (Bool-cases (holds token row)) [
    | inl g ↦ rw e (rw g (run_completion_held eid token now t row e g c))
    | inr g ↦ rw e (rw g (run_completion_stale eid token now t c (rw e g)))
  ]
]
