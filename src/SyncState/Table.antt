-- ===== src/SyncState/Table.antt =====
-- The table `extension_sync_state`: its row (financial_dashboard/db/models.py), the snapshot that
-- every statement returns, and the three statement forms that sync_state.py issues.
-- A table is a function from the primary key. Instants are microseconds since the epoch, in UTC:
-- the conversions between naive and aware values (`to_utc`, `_now_utc`, `_store`) change nothing
-- of such a number. SQLite compares the stored ISO texts, whose order is that of the instants.
use text.Mathlib.Text.{◌==◌}
use bank_email_fetcher.Prelude.{
  ℕ, String, Bool, true, false, Option, none, some, ◌≡◌, ◌≢◌, arith, eq_iff, if◌then◌else◌,
}

abbrev pub Instant : Type 0
Instant = ℕ

-- `SyncStateSnapshot`: the columns of `_RETURNING_SQL`
pub record SyncStateSnapshot : Type 0 where
  pub extension_id : String
  pub desired_revision : ℕ
  pub applied_revision : ℕ
  pub first_dirty_at : Option Instant
  pub last_dirty_at : Option Instant
  pub last_published_hash : Option String
  pub last_remote_hash : Option String
  pub last_healthy_hash : Option String
  pub last_remote_attempt_at : Option Instant
  pub next_attempt_at : Option Instant
  pub failure_count : ℕ
  pub diagnosis_state : Option String
  pub force_reload : Bool
  pub lease_owner : Option String
  pub lease_token : Option String
  pub lease_expires_at : Option Instant

-- `ExtensionSyncState`: those columns and the bookkeeping
pub record ExtensionSyncState : Type 0 where
  pub columns : SyncStateSnapshot
  pub open columns use *
  pub created_at : Instant
  pub updated_at : Instant

abbrev pub SyncTable : Type 0
SyncTable = String → Option ExtensionSyncState

-- `_row_to_snapshot`
unfoldable pub row_to_snapshot : ExtensionSyncState → SyncStateSnapshot
row_to_snapshot row = row.columns

abbrev pub snapshot_of : Option ExtensionSyncState → Option SyncStateSnapshot
snapshot_of none = none
snapshot_of (some row) = some row.columns

abbrev pub set : String → ExtensionSyncState → SyncTable → SyncTable
set k row t j = if k == j then some row else t j

-- What an operation returns, or the exception that it raises.
pub data Outcome (A : Type 0) : Type 0 where
  done : A → Outcome A
  -- `LeaseStaleError`, with its extension id and its token
  lease_stale : String → String → Outcome A
  -- the `ValueError` of `record_diagnosis`
  unknown_state : String → Outcome A

-- UPDATE ... WHERE extension_id = :eid AND guard RETURNING ...
pub update_found :
    String
    → (ExtensionSyncState → Bool)
    → (ExtensionSyncState → ExtensionSyncState)
    → SyncTable
    → Option ExtensionSyncState
    → Option SyncStateSnapshot × SyncTable
update_found eid guard f t none = (none, t)
update_found eid guard f t (some row) =
    if guard row then (some (row_to_snapshot (f row)), set eid (f row) t) else (none, t)

unfoldable pub update_where :
    String
    → (ExtensionSyncState → Bool)
    → (ExtensionSyncState → ExtensionSyncState)
    → SyncTable
    → Option SyncStateSnapshot × SyncTable
unfolding update_found row_to_snapshot
update_where eid guard f t = update_found eid guard f t (t eid)

-- INSERT ... ON CONFLICT DO NOTHING
pub insert_found : String → ExtensionSyncState → SyncTable → Option ExtensionSyncState → SyncTable
insert_found eid row t none = set eid row t
insert_found eid row t (some _) = t

unfoldable pub insert_or_ignore : String → ExtensionSyncState → SyncTable → SyncTable
unfolding insert_found
insert_or_ignore eid row t = insert_found eid row t (t eid)

-- `read_sync_state`: the SELECT; it takes no lock and writes nothing
unfoldable pub read_sync_state : String → SyncTable → Option SyncStateSnapshot
read_sync_state eid t = snapshot_of (t eid)

-- the row that `ensure_sync_state` and `set_force_reload` insert
unfoldable pub seed : String → Bool → Instant → ExtensionSyncState
seed eid flag now = record {
  columns = record {
    extension_id = eid;
    desired_revision = 1;
    applied_revision = 0;
    first_dirty_at = some now;
    last_dirty_at = some now;
    last_published_hash = none;
    last_remote_hash = none;
    last_healthy_hash = none;
    last_remote_attempt_at = none;
    next_attempt_at = none;
    failure_count = 0;
    diagnosis_state = none;
    force_reload = flag;
    lease_owner = none;
    lease_token = none;
    lease_expires_at = none;
  };
  created_at = now;
  updated_at = now;
}

-- `ensure_sync_state`; the row that it reads back is there
unfoldable pub ensure_sync_state :
    String → Instant → SyncTable → Option SyncStateSnapshot × SyncTable
unfolding insert_or_ignore read_sync_state seed
ensure_sync_state eid now t =
    let t' = insert_or_ignore eid (seed eid true now) t in (read_sync_state eid t', t')

-- The row under its own key after a write, and the rows under the others.
pub set_self : (k : String) (row : ExtensionSyncState) (t : SyncTable) → set k row t k ≡ some row
set_self k row t = ground (arith, eq_iff k k)

pub set_ne : (k j : String) (row : ExtensionSyncState) (t : SyncTable) → k ≢ j → set k row t j ≡ t j
set_ne k j row t h = ground (arith, eq_iff k j)

-- An UPDATE whose guard fails, or that finds no row, writes nothing.
pub update_where-none :
    (eid : String) (guard : ExtensionSyncState → Bool) (f : ExtensionSyncState → ExtensionSyncState)
    (t : SyncTable)
    → t eid ≡ none
    → update_where eid guard f t ≡ (none, t)
unfolding update_where
update_where-none eid guard f t h = rw (h, update_found)

pub update_where-false :
    (eid : String) (guard : ExtensionSyncState → Bool) (f : ExtensionSyncState → ExtensionSyncState)
    (t : SyncTable) (row : ExtensionSyncState)
    → t eid ≡ some row
    → guard row ≡ false
    → update_where eid guard f t ≡ (none, t)
unfolding update_where
update_where-false eid guard f t row h g = rw (h, update_found) (rw g)

pub update_where-true :
    (eid : String) (guard : ExtensionSyncState → Bool) (f : ExtensionSyncState → ExtensionSyncState)
    (t : SyncTable) (row : ExtensionSyncState)
    → t eid ≡ some row
    → guard row ≡ true
    → update_where eid guard f t ≡ (some (f row).columns, set eid (f row) t)
unfolding update_where
update_where-true eid guard f t row h g = rw (h, update_found) (rw g)

-- An UPDATE leaves every other row alone.
pub update_where_ne :
    (eid j : String) (guard : ExtensionSyncState → Bool)
    (f : ExtensionSyncState → ExtensionSyncState) (t : SyncTable)
    → eid ≢ j
    → (update_where eid guard f t).1 j ≡ t j
unfolding update_where
update_where_ne eid j guard f t h = ground (arith, eq_iff eid j)
