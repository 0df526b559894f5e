-- ===== src/SyncState/Admin.antt =====
-- The operator statements of financial_dashboard/services/paisa/sync_state.py, and `capture_target`.
use bank_email_fetcher.Prelude.{ℕ, String, Bool, true, Option, none, some}
use bank_email_fetcher.SyncState.Table.{
  Instant, SyncStateSnapshot, ExtensionSyncState, SyncTable, set, update_where, read_sync_state,
  seed, ensure_sync_state,
}

abbrev pub always : ExtensionSyncState → Bool
always row = true

unfoldable pub flag_reload : Bool → Instant → ExtensionSyncState → ExtensionSyncState
flag_reload flag now row = record row {
  columns = record (row.columns) { force_reload = flag };
  updated_at = now;
}

abbrev pub or_insert :
    String
    → ExtensionSyncState
    → Option SyncStateSnapshot × SyncTable
    → SyncStateSnapshot × SyncTable
or_insert eid row (some s, t) = (s, t)
or_insert eid row (none, t) = (row.columns, set eid row t)

-- Where the UPDATE finds no row there is none, so the INSERT meets no conflict.
unfoldable pub set_force_reload :
    Bool → String → Instant → SyncTable → SyncStateSnapshot × SyncTable
unfolding flag_reload seed
set_force_reload enabled eid now t =
    or_insert eid (seed eid enabled now) (update_where eid always (flag_reload enabled now) t)

unfoldable pub rewind : Instant → ExtensionSyncState → ExtensionSyncState
rewind now row = record row {
  columns = record (row.columns) {
    desired_revision = 1;
    applied_revision = 0;
    first_dirty_at = some now;
    last_dirty_at = some now;
    last_published_hash = none;
    last_remote_hash = none;
    last_healthy_hash = none;
    last_remote_attempt_at = none;
    next_attempt_at = none;
    failure_count = 0;
    diagnosis_state = none;
    force_reload = true;
    lease_owner = none;
    lease_token = none;
    lease_expires_at = none;
  };
  updated_at = now;
}

abbrev pub or_ensure :
    String → Instant → Option SyncStateSnapshot × SyncTable → Option SyncStateSnapshot × SyncTable
or_ensure eid now (some s, t) = (some s, t)
or_ensure eid now (none, t) = ensure_sync_state eid now t

unfoldable pub reset_sync_state :
    String → Instant → SyncTable → Option SyncStateSnapshot × SyncTable
unfolding rewind
reset_sync_state eid now t = or_ensure eid now (update_where eid always (rewind now) t)

abbrev pub target_of :
    String
    → Instant
    → Option SyncStateSnapshot
    → SyncTable
    → Option (ℕ × SyncStateSnapshot) × SyncTable
target_of eid now (some s) t = (some (s.desired_revision, s), t)
target_of eid now none t =
    let (o, t') = ensure_sync_state eid now t in
    (elim o [ none ↦ none | some s ↦ some (s.desired_revision, s) ], t')

-- `capture_target`: the target revision and the snapshot
unfoldable pub capture_target :
    String → Instant → SyncTable → Option (ℕ × SyncStateSnapshot) × SyncTable
unfolding read_sync_state
capture_target eid now t = target_of eid now (read_sync_state eid t) t
