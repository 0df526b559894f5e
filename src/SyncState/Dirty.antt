-- ===== src/SyncState/Dirty.antt =====
-- The row triggers that financial_dashboard/db/init_db.py installs on the tables the projection
-- reads and on `settings`. A trigger runs in the transaction of the write that fires it, so one
-- committed write is one call of `fire`.
use bank_email_fetcher.Prelude.{
  ◌+◌, String, Bool, true, false, none, some, codes, begins_with_ci, if◌then◌else◌,
}
use bank_email_fetcher.SyncState.Table.{
  Instant, SyncStateSnapshot, ExtensionSyncState, SyncTable, update_where,
}
use bank_email_fetcher.SyncState.Completion.{coalesce}

-- `EXTENSION_PAISA`
abbrev pub paisa : String
paisa = "paisa"

-- `_EXTENSION_SYNC_TRIGGER_TABLES`, and `settings` with the key of the row written
pub data Write : Type 0 where
  transactions accounts cards balance_snapshots investment_lots cas_uploads : Write
  settings : String → Write

abbrev dirty_columns : Instant → SyncStateSnapshot → SyncStateSnapshot
dirty_columns now s = record s {
  desired_revision = s.desired_revision + 1;
  first_dirty_at = coalesce s.first_dirty_at (some now);
  last_dirty_at = some now;
}

abbrev clear_retry : SyncStateSnapshot → SyncStateSnapshot
clear_retry s = record s {
  failure_count = 0;
  next_attempt_at = none;
  last_remote_attempt_at = none;
}

-- `_extension_sync_bump_body`
unfoldable pub bump : Bool → Instant → ExtensionSyncState → ExtensionSyncState
bump reset_backoff now row = record row {
  columns =
      (if reset_backoff
        then clear_retry (dirty_columns now row.columns)
        else dirty_columns now row.columns);
  updated_at = now;
}

abbrev pub every_row : ExtensionSyncState → Bool
every_row row = true

-- `key LIKE 'paisa.%'`: SQLite compares ASCII letters without their case
unfoldable pub is_paisa_key : String → Bool
is_paisa_key key = begins_with_ci (codes "paisa.") (codes key)

-- the triggers of `_build_extension_sync_state_trigger_ddl`, fired by one row written
unfoldable pub fire : Write → Instant → SyncTable → SyncTable
unfolding bump
fire (settings key) now t =
    if is_paisa_key key then (update_where paisa every_row (bump true now) t).1 else t
fire transactions now t = (update_where paisa every_row (bump false now) t).1
fire accounts now t = (update_where paisa every_row (bump false now) t).1
fire cards now t = (update_where paisa every_row (bump false now) t).1
fire balance_snapshots now t = (update_where paisa every_row (bump false now) t).1
fire investment_lots now t = (update_where paisa every_row (bump false now) t).1
fire cas_uploads now t = (update_where paisa every_row (bump false now) t).1
