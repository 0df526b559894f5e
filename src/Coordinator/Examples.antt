-- ===== src/Coordinator/Examples.antt =====
-- The theorems of the coordinator at concrete rows and worlds, and tests of its functions.
use bank_email_fetcher.Prelude.{◌*◌, true, false, some, none, [], ◌∷◌, ◌≡◌, refl, arith, lower}
use bank_email_fetcher.SyncState.Table.{
  ExtensionSyncState, SyncTable, set, update_where, read_sync_state,
}
use bank_email_fetcher.SyncState.Backoff.{minute}
use bank_email_fetcher.SyncState.Eligibility.{reconcile_eligibility, should_skip_remote_post}
use bank_email_fetcher.SyncState.Lease.{claim_lease}
use bank_email_fetcher.SyncState.Completion.{fatal}
use bank_email_fetcher.SyncState.Dirty.{paisa, bump, is_paisa_key, fire, settings}
use bank_email_fetcher.SyncState.Admin.{capture_target}
use bank_email_fetcher.SyncState.Guards.{IsStale}
use bank_email_fetcher.SyncState.Run.{write, run_op, run}
use bank_email_fetcher.SyncState.Delivery.{After}
use bank_email_fetcher.Coordinator.World.{answered, raised, World, is_guard, classify_diagnosis}
use bank_email_fetcher.Coordinator.Results.{guard_outcome_token, failed_result}
use bank_email_fetcher.Coordinator.Stages.{remote_result, run_attempt_stages}
use bank_email_fetcher.Coordinator.Tick.{
  Config, remote_floor_satisfied, wants_attempt, attempt, tick,
}
use bank_email_fetcher.Coordinator.Calm.{calm}
use bank_email_fetcher.Coordinator.Guard.{refusing, KeepsFix, guard-KeepsFix}
use bank_email_fetcher.Coordinator.Fenced.{IsAbandoned, run_attempt_stages-IsAbandoned}
use bank_email_fetcher.Coordinator.Delivery.{healthy_remote, IsDelivered, tick-IsDelivered}
use bank_email_fetcher.Coordinator.Gates.{tick-IsStale}

abbrev config : Config
config = record { can_project = true; auto_sync_enabled = true; min_interval_minutes = 1 }

abbrev no_rows : SyncTable
no_rows k = none

-- a row that was first dirtied at 0, and the same where the remote holds "h1" since then
abbrev dirty_row : ExtensionSyncState
dirty_row = record {
  columns = record {
    extension_id = "paisa";
    desired_revision = 1;
    applied_revision = 0;
    first_dirty_at = some 0;
    last_dirty_at = some 0;
    last_published_hash = none;
    last_remote_hash = none;
    last_healthy_hash = none;
    last_remote_attempt_at = none;
    next_attempt_at = none;
    failure_count = 0;
    diagnosis_state = none;
    force_reload = false;
    lease_owner = none;
    lease_token = none;
    lease_expires_at = none;
  };
  created_at = 0;
  updated_at = 0;
}

abbrev known_row : ExtensionSyncState
known_row = record dirty_row {
  columns = record (dirty_row.columns) {
    last_remote_hash = some "h1";
    last_remote_attempt_at = some 0;
  };
}

-- the row under the lease of a running attempt
abbrev running_row : ExtensionSyncState
running_row = record known_row {
  columns = record (known_row.columns) {
    lease_owner = some "c1";
    lease_token = some "t1";
    lease_expires_at = some (2 * minute);
  };
}

abbrev fixed_row : ExtensionSyncState
fixed_row = record running_row {
  columns = record (running_row.columns) {
    desired_revision = 2;
    last_dirty_at = some minute;
    last_remote_attempt_at = none;
  };
  updated_at = minute;
}

abbrev world : World
world = calm "h1" 12 (answered healthy_remote)

-- the same world, in which an operator changes a setting during the preflight
abbrev repaired : World
repaired = record world { during_preflight = (paisa, minute, write (settings "paisa.mode")) ∷ [] }

guard-KeepsFix_example :
    After paisa
      (run_attempt_stages "t1" minute false 1
        (refusing (some "disabled") none repaired)
        (set paisa running_row no_rows)).1
      (KeepsFix fixed_row)
guard-KeepsFix_example =
    guard-KeepsFix "t1" minute false 1 repaired (some "disabled") none
      (set paisa running_row no_rows) fixed_row (unfold is_guard in refl)
      (unfold run run_op fire is_paisa_key bump update_where in refl) refl (omega arith)

tick-IsDelivered_example :
    let (result, t') =
      tick config "c1" "t1" world (10 * minute) (11 * minute) (set paisa dirty_row no_rows) in
    (result ≡ some (remote_result "t1" (10 * minute) healthy_remote true "h1" 12))
    × After paisa t' (IsDelivered 1 "h1" (20 * minute))
tick-IsDelivered_example =
    tick-IsDelivered config "c1" "t1" "h1" 12 (10 * minute) (11 * minute)
      (set paisa dirty_row no_rows) dirty_row false refl refl
      (unfold wants_attempt reconcile_eligibility remote_floor_satisfied in refl)
      (unfold should_skip_remote_post in refl) (20 * minute) (omega arith)

-- the generator raises in this one
abbrev broken : World
broken = record world { generate = raised }

tick-IsStale_example :
    IsStale paisa "t1"
      (tick config "c1" "t1" broken (10 * minute) (11 * minute) (set paisa dirty_row no_rows)).1
tick-IsStale_example =
    tick-IsStale config "c1" "t1" broken (10 * minute) (11 * minute) (set paisa dirty_row no_rows)
      (failed_result "error" none true) refl
      (unfold tick read_sync_state wants_attempt reconcile_eligibility remote_floor_satisfied run
          attempt claim_lease update_where run_attempt_stages capture_target in
        refl)

guard_outcome_token_test : guard_outcome_token (some "Cutover is NOT set") ≡ some "not_configured"
unfolding guard_outcome_token lower
guard_outcome_token_test = refl

classify_diagnosis_test :
    classify_diagnosis (record healthy_remote { diagnosis_ok = some false }) "h1" ≡ (fatal, none)
unfolding classify_diagnosis
classify_diagnosis_test = refl

-- an attempt under "t0", which has lost the row to "t1"
run_attempt_stages-IsAbandoned_example :
    IsAbandoned "t0"
      (run_attempt_stages "t0" minute false 1 repaired (set paisa running_row no_rows))
run_attempt_stages-IsAbandoned_example =
    run_attempt_stages-IsAbandoned "t0" minute false 1 repaired tt (set paisa running_row no_rows)
      (tt, tt) refl
