-- ===== src/Coordinator/Calm.antt =====
-- A tick that nothing gets in the way of, up to its stages: the row it works on, and its release.
use bank_email_fetcher.Prelude.{
  ℕ, ◌+◌, ◌*◌, String, Bool, true, Option, some, none, [], ◌≡◌, refl, arith, eq_iff,
}
use bank_email_fetcher.SyncState.Table.{
  Instant, ExtensionSyncState, SyncTable, set, read_sync_state, update_where-true,
}
use bank_email_fetcher.SyncState.Backoff.{second, default_lease_ttl_seconds}
use bank_email_fetcher.SyncState.Lease.{
  lease_free, holds, grant, clear_lease, claim_lease, release_lease,
}
use bank_email_fetcher.SyncState.Completion.{catch_up}
use bank_email_fetcher.SyncState.Dirty.{paisa}
use bank_email_fetcher.SyncState.Run.{run}
use bank_email_fetcher.Coordinator.World.{RemoteSyncReport, Reply, answered, World}
use bank_email_fetcher.Coordinator.Stages.{run_attempt_stages}
use bank_email_fetcher.Coordinator.Tick.{Config, wants_attempt, stages_and_release, attempt, tick}

-- No other session commits anything, and the release of the lease commits; the preflight passes, and a ledger of `emitted` entries is
-- published under `hash`.
abbrev pub calm : String → ℕ → Reply RemoteSyncReport → World
calm hash emitted remote = record {
  before_claim = [];
  during_preflight = [];
  preflight = answered (record { ok = true; outcome = none; reason = none });
  during_generate = [];
  generate =
      answered (record { ok = true; report = some emitted; publish = some hash; reason = none });
  before_read = [];
  during_remote = [];
  sync_remote = remote;
  before_diagnosis = [];
  before_release = [];
  release_commits = true;
}

pub holds-catch_up :
    (token : String) (target : ℕ) (hash : Option String) (now : Instant) (row : ExtensionSyncState)
    → holds token row ≡ true
    → holds token (catch_up target hash now row) ≡ true
unfolding catch_up
holds-catch_up token target none now row h = ground arith
holds-catch_up token target (some hash) now row h = ground arith

pub release_lease-held :
    (token : String) (at : Instant) (t : SyncTable) (row : ExtensionSyncState)
    → t paisa ≡ some row
    → holds token row ≡ true
    → (release_lease token paisa at t).1 ≡ set paisa (clear_lease at row) t
unfolding release_lease
release_lease-held token at t row found ours =
    rw (update_where-true paisa (holds token) (clear_lease at) t row found ours) refl

module _ (config : Config) (owner minted : String) (now at_release : Instant) (t : SyncTable)
    (row : ExtensionSyncState) (force : Bool) (found : t paisa ≡ some row)
    (free : lease_free now row ≡ true)
    (wanted : wants_attempt config now row.columns ≡ some force) where
  abbrev pub granted_row : ExtensionSyncState
  granted_row = grant owner minted (now + default_lease_ttl_seconds * second) now row

  pub holds-granted_row : holds minted granted_row ≡ true
  unfolding grant
  holds-granted_row = (eq_iff minted minted).1 refl

  pub tick-attempt :
      (w : World)
      → tick config owner minted (record w { before_claim = [] }) now at_release t ≡ (
          let (result, t') =
            stages_and_release minted force row.desired_revision
              (record w { before_claim = [] })
              now
              at_release
              (set paisa granted_row t) in
          (some result, t'))
  unfolding tick attempt claim_lease read_sync_state run_attempt_stages release_lease run
  tick-attempt w = rw found (
      rw wanted (
        rw
          (update_where-true paisa (lease_free now)
            (grant owner minted (now + default_lease_ttl_seconds * second) now) t row found free)
          refl))
