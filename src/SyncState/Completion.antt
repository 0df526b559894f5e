-- ===== src/SyncState/Completion.antt =====
-- The token-guarded completion statements of financial_dashboard/services/paisa/sync_state.py.
use bank_email_fetcher.Prelude.{
  ℕ, ◌+◌, String, Bool, false, Option, none, some, List, ltb, leb, if◌then◌else◌,
}
use bank_email_fetcher.SyncState.Table.{
  Instant, SyncStateSnapshot, ExtensionSyncState, SyncTable, Outcome, done, lease_stale,
  unknown_state,
}
use bank_email_fetcher.SyncState.Backoff.{backoff_delta}
use bank_email_fetcher.SyncState.Lease.{update_guarded, fetch_guarded}

unfoldable pub publish : String → Instant → ExtensionSyncState → ExtensionSyncState
publish body_hash now row = record row {
  columns = record (row.columns) { last_published_hash = some body_hash };
  updated_at = now;
}

unfoldable pub record_published_hash :
    String → String → String → Instant → SyncTable → Outcome SyncStateSnapshot × SyncTable
unfolding publish
record_published_hash body_hash token eid now = update_guarded eid token (publish body_hash now)

-- the columns that `set_remote_hash=True` adds to the SET clause
abbrev pub remote_columns : Option String → Instant → SyncStateSnapshot → SyncStateSnapshot
remote_columns none now s = s
remote_columns (some remote_hash) now s = record s {
  last_remote_hash = some remote_hash;
  last_remote_attempt_at = some now;
  failure_count = 0;
  next_attempt_at = none;
}

-- The CASE expressions read the row as it is when the UPDATE runs.
abbrev pub advance_columns : ℕ → SyncStateSnapshot → SyncStateSnapshot
advance_columns target s =
    if ltb target s.desired_revision then record s { applied_revision = target } else record s {
      applied_revision = s.desired_revision;
      force_reload = false;
      first_dirty_at = none;
      last_dirty_at = none;
    }

unfoldable pub catch_up : ℕ → Option String → Instant → ExtensionSyncState → ExtensionSyncState
catch_up target remote_hash now row = record row {
  columns = advance_columns target (remote_columns remote_hash now row.columns);
  updated_at = now;
}

-- `AppliedUpdate`; `cleared_dirty` is `caught_up` and the revisions are those of the snapshot
pub record AppliedUpdate : Type 0 where
  pub target_revision : ℕ
  pub caught_up : Bool
  pub remote_hash : Option String
  pub snapshot : SyncStateSnapshot

abbrev pub applied_update : ℕ → SyncStateSnapshot → AppliedUpdate
applied_update target s = record {
  target_revision = target;
  caught_up = leb s.desired_revision s.applied_revision;
  remote_hash = s.last_remote_hash;
  snapshot = s;
}

abbrev pub on_done : {A B : Type 0} → (A → B) → Outcome A × SyncTable → Outcome B × SyncTable
on_done f (done a, t) = (done (f a), t)
on_done f (lease_stale eid token, t) = (lease_stale eid token, t)
on_done f (unknown_state state, t) = (unknown_state state, t)

-- `_apply_caught_up`; a remote hash is given exactly where `set_remote_hash` is true
unfoldable pub apply_caught_up :
    ℕ → String → String → Instant → Option String → SyncTable → Outcome AppliedUpdate × SyncTable
unfolding catch_up
apply_caught_up target token eid now remote_hash t =
    on_done (applied_update target) (update_guarded eid token (catch_up target remote_hash now) t)

unfoldable pub record_hash_noop :
    ℕ → String → String → Instant → SyncTable → Outcome AppliedUpdate × SyncTable
unfolding apply_caught_up
record_hash_noop target token eid now = apply_caught_up target token eid now none

unfoldable pub record_guard_caught_up :
    ℕ → String → String → Instant → SyncTable → Outcome AppliedUpdate × SyncTable
unfolding apply_caught_up
record_guard_caught_up target token eid now = apply_caught_up target token eid now none

unfoldable pub record_accepted_post :
    ℕ → String → String → String → Instant → SyncTable → Outcome AppliedUpdate × SyncTable
unfolding apply_caught_up
record_accepted_post target remote_hash token eid now =
    apply_caught_up target token eid now (some remote_hash)

-- the members of `_DIAGNOSIS_STATES`; `state` of another text raises
pub data Diagnosis : Type 0 where
  healthy accepted fatal unknown : Diagnosis
  other : String → Diagnosis

abbrev pub diagnosis_text : Diagnosis → String
diagnosis_text healthy = "healthy"
diagnosis_text accepted = "accepted"
diagnosis_text fatal = "fatal"
diagnosis_text unknown = "unknown"
diagnosis_text (other state) = state

-- COALESCE(:hh, last_healthy_hash)
abbrev pub coalesce {ℓ} : {A : Type ℓ} → Option A → Option A → Option A
coalesce none b = b
coalesce (some a) b = some a

unfoldable pub settle : String → Option String → Instant → ExtensionSyncState → ExtensionSyncState
settle state healthy_hash now row = record row {
  columns = record (row.columns) {
    diagnosis_state = some state;
    last_healthy_hash = coalesce healthy_hash row.last_healthy_hash;
    failure_count = 0;
    next_attempt_at = none;
  };
  updated_at = now;
}

unfoldable pub note_state : String → Instant → ExtensionSyncState → ExtensionSyncState
note_state state now row = record row {
  columns = record (row.columns) { diagnosis_state = some state };
  updated_at = now;
}

-- the UPDATE of the fatal branch, with the count and the instant computed from the earlier read
unfoldable pub arm : String → ℕ → Instant → Instant → ExtensionSyncState → ExtensionSyncState
arm state failures next now row = record row {
  columns = record (row.columns) {
    diagnosis_state = some state;
    failure_count = failures;
    next_attempt_at = some next;
  };
  updated_at = now;
}

-- The read and the write stand in one transaction, so nothing comes between them.
abbrev pub after_fetch :
    {A : Type 0}
    → Outcome SyncStateSnapshot
    → (SyncStateSnapshot → Outcome A × SyncTable)
    → SyncTable
    → Outcome A × SyncTable
after_fetch (done pre) k t = k pre
after_fetch (lease_stale eid token) k t = (lease_stale eid token, t)
after_fetch (unknown_state state) k t = (unknown_state state, t)

unfoldable pub record_fatal :
    String → String → Instant → List ℕ → SyncTable → Outcome SyncStateSnapshot × SyncTable
unfolding arm
record_fatal token eid now backoff_minutes t =
    after_fetch (fetch_guarded eid token t)
      (λ pre.
        let failures = pre.failure_count + 1 in
        update_guarded eid token
          (arm "fatal" failures (now + backoff_delta failures backoff_minutes) now) t)
      t

unfoldable pub record_diagnosis :
    Diagnosis
    → String
    → Option String
    → String
    → Instant
    → List ℕ
    → SyncTable
    → Outcome SyncStateSnapshot × SyncTable
unfolding record_fatal settle note_state
record_diagnosis (other state) token hh eid now minutes t = (unknown_state state, t)
record_diagnosis fatal token hh eid now minutes t = record_fatal token eid now minutes t
record_diagnosis unknown token hh eid now minutes t =
    update_guarded eid token (note_state "unknown" now) t
record_diagnosis healthy token hh eid now minutes t =
    update_guarded eid token (settle "healthy" hh now) t
record_diagnosis accepted token hh eid now minutes t =
    update_guarded eid token (settle "accepted" hh now) t

unfoldable pub miss : ℕ → Instant → Instant → ExtensionSyncState → ExtensionSyncState
miss failures next now row = record row {
  columns = record (row.columns) {
    failure_count = failures;
    next_attempt_at = some next;
    last_remote_attempt_at = some now;
  };
  updated_at = now;
}

unfoldable pub record_pre_post_failure :
    String → String → Instant → List ℕ → SyncTable → Outcome SyncStateSnapshot × SyncTable
unfolding miss
record_pre_post_failure token eid now backoff_minutes t =
    after_fetch (fetch_guarded eid token t)
      (λ pre.
        let failures = pre.failure_count + 1 in
        update_guarded eid token (miss failures (now + backoff_delta failures backoff_minutes) now)
          t)
      t
