-- ===== src/SyncState/Lease.antt =====
-- The lease of financial_dashboard/services/paisa/sync_state.py: claim, heartbeat, release, and the
-- token guard that the completion statements share.
use text.Mathlib.Text.{◌==◌}
use bank_email_fetcher.Prelude.{
  ℕ, ◌+◌, ◌*◌, String, Bool, true, false, Option, none, some, ltb, if◌then◌else◌,
}
use bank_email_fetcher.SyncState.Table.{
  Instant, SyncStateSnapshot, ExtensionSyncState, SyncTable, Outcome, done, lease_stale,
  update_where, read_sync_state,
}
use bank_email_fetcher.SyncState.Backoff.{second}

pub data ClaimReason : Type 0 where
  claimed no_row held : ClaimReason

pub record LeaseClaim : Type 0 where
  pub claimed : Bool
  pub owner : String
  pub token : String
  pub expires_at : Option Instant
  pub reason : ClaimReason
  pub snapshot : Option SyncStateSnapshot

-- `LeaseHeartbeat`; its reason is "renewed" or "stale_token" as `renewed` says
pub record LeaseHeartbeat : Type 0 where
  pub renewed : Bool
  pub token : String
  pub expires_at : Option Instant

-- lease_expires_at IS NULL OR lease_expires_at < :now
abbrev pub lease_free : Instant → ExtensionSyncState → Bool
lease_free now row = elim row.lease_expires_at [ none ↦ true | some e ↦ ltb e now ]

-- lease_token = :token, which is not true of NULL
abbrev pub holds : String → ExtensionSyncState → Bool
holds token row = elim row.lease_token [ none ↦ false | some held_by ↦ held_by == token ]

-- `token or new_lease_token()`: the empty text is replaced too. `minted` is what
-- `secrets.token_urlsafe` returns.
unfoldable pub lease_token_for : Option String → String → String
lease_token_for none minted = minted
lease_token_for (some token) minted = if token == "" then minted else token

unfoldable pub grant : String → String → Instant → Instant → ExtensionSyncState → ExtensionSyncState
grant owner token expires now row = record row {
  columns = record (row.columns) {
    lease_owner = some owner;
    lease_token = some token;
    lease_expires_at = some expires;
  };
  updated_at = now;
}

unfoldable pub claim_result :
    String → String → Instant → Option SyncStateSnapshot → Option SyncStateSnapshot → LeaseClaim
claim_result owner token expires (some row) existing = record {
  claimed = true;
  owner = owner;
  token = token;
  expires_at = some expires;
  reason = ClaimReason.claimed;
  snapshot = some row;
}
claim_result owner token expires none none = record {
  claimed = false;
  owner = owner;
  token = token;
  expires_at = none;
  reason = no_row;
  snapshot = none;
}
claim_result owner token expires none (some existing) = record {
  claimed = false;
  owner = owner;
  token = token;
  expires_at = existing.lease_expires_at;
  reason = held;
  snapshot = some existing;
}

unfoldable pub claim_lease :
    String → Option String → String → String → ℕ → Instant → SyncTable → LeaseClaim × SyncTable
unfolding grant claim_result lease_token_for
claim_lease owner token minted eid ttl_seconds now t =
    let lease_token = lease_token_for token minted in
    let expires_at = now + ttl_seconds * second in
    let (row, t') = update_where eid (lease_free now) (grant owner lease_token expires_at now) t in
    (claim_result owner lease_token expires_at row (read_sync_state eid t'), t')

unfoldable pub extend : Instant → Instant → ExtensionSyncState → ExtensionSyncState
extend expires now row = record row {
  columns = record (row.columns) { lease_expires_at = some expires };
  updated_at = now;
}

unfoldable pub heartbeat_result : String → Instant → Option SyncStateSnapshot → LeaseHeartbeat
heartbeat_result token expires none = record { renewed = false; token = token; expires_at = none }
heartbeat_result token expires (some row) = record {
  renewed = true;
  token = token;
  expires_at = some expires;
}

unfoldable pub heartbeat_lease :
    String → ℕ → String → Instant → SyncTable → LeaseHeartbeat × SyncTable
unfolding extend heartbeat_result
heartbeat_lease token ttl_seconds eid now t =
    let expires_at = now + ttl_seconds * second in
    let (row, t') = update_where eid (holds token) (extend expires_at now) t in
    (heartbeat_result token expires_at row, t')

unfoldable pub clear_lease : Instant → ExtensionSyncState → ExtensionSyncState
clear_lease now row = record row {
  columns = record (row.columns) {
    lease_owner = none;
    lease_token = none;
    lease_expires_at = none;
  };
  updated_at = now;
}

-- `LeaseRelease`: whether the lease was released
unfoldable pub release_lease : String → String → Instant → SyncTable → Bool × SyncTable
unfolding clear_lease
release_lease token eid now t =
    let (row, t') = update_where eid (holds token) (clear_lease now) t in
    (elim row [ none ↦ false | some _ ↦ true ], t')

-- An UPDATE ... WHERE lease_token = :token RETURNING ..., and the raise when no row comes back.
abbrev pub guarded_result :
    String → String → Option SyncStateSnapshot × SyncTable → Outcome SyncStateSnapshot × SyncTable
guarded_result eid token (none, t) = (lease_stale eid token, t)
guarded_result eid token (some row, t) = (done row, t)

unfoldable pub update_guarded :
    String
    → String
    → (ExtensionSyncState → ExtensionSyncState)
    → SyncTable
    → Outcome SyncStateSnapshot × SyncTable
update_guarded eid token f t = guarded_result eid token (update_where eid (holds token) f t)

-- `_fetch_guarded`
unfoldable pub fetch_guarded : String → String → SyncTable → Outcome SyncStateSnapshot
fetch_guarded eid token t = elim (t eid) [
  | none ↦ lease_stale eid token
  | some row ↦ if holds token row then done row.columns else lease_stale eid token
]
