-- ===== src/Coordinator/Guard.antt =====
-- What a blocked preflight does to the row, where the configuration is repaired meanwhile and where
-- it is not.
use bank_email_fetcher.Prelude.{
  ℕ, ◌<◌, ◌≤◌, ◌+◌, String, Bool, true, false, Option, some, none, ◌≡◌, arith,
}
use bank_email_fetcher.SyncState.Table.{Instant, ExtensionSyncState, SyncTable, set_self}
use bank_email_fetcher.SyncState.Lease.{holds}
use bank_email_fetcher.SyncState.Completion.{catch_up}
use bank_email_fetcher.SyncState.Dirty.{paisa}
use bank_email_fetcher.SyncState.Run.{guard_caught_up, run}
use bank_email_fetcher.SyncState.Effects.{run_completion_held}
use bank_email_fetcher.SyncState.Delivery.{After, is_due}
use bank_email_fetcher.SyncState.Backoff.{default_force_reload_interval}
use bank_email_fetcher.SyncState.Eligibility.{reconcile_eligibility}
use bank_email_fetcher.Coordinator.World.{answered, World, is_guard}
use bank_email_fetcher.Coordinator.Results.{or_error}
use bank_email_fetcher.Coordinator.Stages.{record_preflight_outcome, run_attempt_stages}

-- the world in which the preflight refuses
abbrev pub refusing : Option String → Option String → World → World
refusing outcome reason w = record w {
  preflight = answered (record { ok = false; outcome = outcome; reason = reason });
}

-- still behind `row`, with its dirty window as it was
abbrev pub KeepsFix : ExtensionSyncState → ExtensionSyncState → Type 0
KeepsFix row left =
    (left.desired_revision ≡ row.desired_revision)
    × (left.applied_revision < left.desired_revision)
    × (left.first_dirty_at ≡ row.first_dirty_at)
    × (left.last_dirty_at ≡ row.last_dirty_at)
    × (left.last_remote_attempt_at ≡ row.last_remote_attempt_at)
    × (left.next_attempt_at ≡ row.next_attempt_at)

module _ (token : String) (now : Instant) (force : Bool) (guard_target : ℕ) (w : World)
    (outcome reason : Option String) (t : SyncTable) (row : ExtensionSyncState)
    (guarded : is_guard (or_error outcome) ≡ true)
    (found : run w.during_preflight t paisa ≡ some row) (ours : holds token row ≡ true) where
  guarded-row :
      (run_attempt_stages token now force guard_target (refusing outcome reason w) t).1 paisa
      ≡ some (catch_up guard_target none now row)
  unfolding run_attempt_stages record_preflight_outcome
  guarded-row = rw guarded (
      rw
        (run_completion_held paisa token now (run w.during_preflight t) row found ours
          (guard_caught_up guard_target))
        (set_self paisa (catch_up guard_target none now row) (run w.during_preflight t)))

  -- A mode or readiness guard that stops the preflight takes no later change with it: where the row
  -- has been dirtied past the revision that the tick started from, it stays behind, and its dirty
  -- window, its remote attempt and its backoff are as the change left them.
  pub guard-KeepsFix :
      guard_target < row.desired_revision
      → After paisa
          (run_attempt_stages token now force guard_target (refusing outcome reason w) t).1
          (KeepsFix row)
  guard-KeepsFix later =
      (catch_up guard_target none now row, guarded-row, unfold catch_up in ground arith)

  -- Where nothing has been dirtied since the tick started, a guard that stops the preflight ends the
  -- wait: the row is caught up with no forcing flag, and no tick is due before the six hours of the
  -- periodic reload are over.
  pub guard-consumes :
      (last later : Instant)
      → row.desired_revision ≤ guard_target
      → row.last_remote_attempt_at ≡ some last
      → later < last + default_force_reload_interval
      → After paisa
          (run_attempt_stages token now force guard_target (refusing outcome reason w) t).1
          (λ left.
            (left.applied_revision ≡ row.desired_revision)
            × (left.desired_revision ≡ row.desired_revision)
            × (left.force_reload ≡ false)
            × (is_due later left ≡ false))
  guard-consumes last later reached attempted early = (
    catch_up guard_target none now row,
    guarded-row,
    unfold catch_up reconcile_eligibility in ground arith,
  )
