-- ===== src/Coordinator/Tick.antt =====
-- `_tick` and `_attempt` of financial_dashboard/services/paisa/coordinator.py.
use Prim.Native.Nat.{max}
use bank_email_fetcher.Prelude.{
  ℕ, ◌+◌, ◌*◌, String, Bool, true, false, not, ◌&&◌, ◌||◌, Option, none, some, leb, if◌then◌else◌,
}
use bank_email_fetcher.SyncState.Table.{
  Instant, SyncStateSnapshot, SyncTable, read_sync_state, ensure_sync_state,
}
use bank_email_fetcher.SyncState.Backoff.{minute, default_lease_ttl_seconds}
use bank_email_fetcher.SyncState.Eligibility.{
  Reason, periodic_reload, max_latency, dirty, reconcile_eligibility,
}
use bank_email_fetcher.SyncState.Lease.{LeaseClaim, claim_lease, release_lease}
use bank_email_fetcher.SyncState.Dirty.{paisa}
use bank_email_fetcher.SyncState.Run.{run}
use bank_email_fetcher.Coordinator.World.{World}
use bank_email_fetcher.Coordinator.Results.{
  AttemptResult, Ending, finished, stale_lease, exception, timeout, skipped_result, failed_result,
}
use bank_email_fetcher.Coordinator.Stages.{run_attempt_stages}

-- `config.can_project`, and the settings that the tick reads
pub record Config : Type 0 where
  pub can_project : Bool
  pub auto_sync_enabled : Bool
  pub min_interval_minutes : ℕ

-- `_remote_floor_satisfied`
unfoldable pub remote_floor_satisfied : SyncStateSnapshot → Instant → ℕ → Bool
remote_floor_satisfied s now min_interval_minutes = elim s.last_remote_attempt_at [
  | none ↦ true
  | some last ↦ leb (last + max 1 min_interval_minutes * minute) now
]

abbrev pub is_throttled : Reason → Bool
is_throttled dirty = true
is_throttled max_latency = true
is_throttled why = false

abbrev pub is_periodic : Reason → Bool
is_periodic periodic_reload = true
is_periodic why = false

-- The gates of the tick: none where it returns before the attempt, and else `force_remote`.
unfoldable pub wants_attempt : Config → Instant → SyncStateSnapshot → Option Bool
wants_attempt config now s =
    let eligibility = reconcile_eligibility now s in
    if not (config.can_project && config.auto_sync_enabled)
    then none
    else if not eligibility.due
    then none
    else if is_throttled eligibility.reason
        && not s.force_reload
        && not (remote_floor_satisfied s now config.min_interval_minutes)
    then none
    else some (s.force_reload || is_periodic eligibility.reason)

-- the result that the audit row is written from
abbrev pub result_of : Ending → AttemptResult
result_of (finished result) = result
result_of stale_lease = skipped_result "stale_lease"
result_of exception = failed_result "error" none true
result_of timeout = failed_result "error" (some "attempt timed out") true

-- the release; where it or its commit raises, that is logged only, and the row keeps its lease
abbrev pub release_if : Bool → String → Instant → SyncTable → SyncTable
release_if true token at_release t = (release_lease token paisa at_release t).1
release_if false token at_release t = t

-- the stages, and the release that always follows
abbrev pub stages_and_release :
    String → Bool → ℕ → World → Instant → Instant → SyncTable → AttemptResult × SyncTable
stages_and_release token force_remote guard_target w now at_release t =
    let (ending, t') = run_attempt_stages token now force_remote guard_target w t in
    (result_of ending, release_if w.release_commits token at_release (run w.before_release t'))

abbrev pub if_claimed :
    Bool → ℕ → World → Instant → Instant → LeaseClaim × SyncTable → Option AttemptResult × SyncTable
if_claimed force_remote guard_target w now at_release (claim, t) =
    if claim.claimed
    then (let (result, t') =
          stages_and_release claim.token force_remote guard_target w now at_release t in
        (some result, t'))
    else (none, t)

-- `_attempt`, up to the audit row: nothing where another coordinator holds the lease
unfoldable pub attempt :
    String
    → String
    → Bool
    → ℕ
    → World
    → Instant
    → Instant
    → SyncTable
    → Option AttemptResult × SyncTable
attempt owner minted force_remote guard_target w now at_release t =
    if_claimed force_remote guard_target w now at_release
      (claim_lease owner none minted paisa default_lease_ttl_seconds now t)

abbrev pub read_or_seed :
    Instant → SyncTable → Option SyncStateSnapshot → Option SyncStateSnapshot × SyncTable
read_or_seed now t (some s) = (some s, t)
read_or_seed now t none = ensure_sync_state paisa now t

abbrev pub if_wanted :
    String
    → String
    → World
    → Instant
    → Instant
    → SyncStateSnapshot
    → SyncTable
    → Option Bool
    → Option AttemptResult × SyncTable
if_wanted owner minted w now at_release s t none = (none, t)
if_wanted owner minted w now at_release s t (some force_remote) =
    attempt owner minted force_remote s.desired_revision w now at_release (run w.before_claim t)

abbrev pub on_snapshot :
    Config
    → String
    → String
    → World
    → Instant
    → Instant
    → Option SyncStateSnapshot × SyncTable
    → Option AttemptResult × SyncTable
on_snapshot config owner minted w now at_release (none, t) = (none, t)
on_snapshot config owner minted w now at_release (some s, t) =
    if_wanted owner minted w now at_release s t (wants_attempt config now s)

-- `_tick`: the result of its attempt, if it made one. `now` is what the clock shows throughout the
-- stages, and `at_release` what it shows at the end.
unfoldable pub tick :
    Config
    → String
    → String
    → World
    → Instant
    → Instant
    → SyncTable
    → Option AttemptResult × SyncTable
tick config owner minted w now at_release t =
    on_snapshot config owner minted w now at_release (read_or_seed now t (read_sync_state paisa t))
