-- ===== src/SyncState/Eligibility.antt =====
-- When a coordinator is due: `reconcile_eligibility` and `should_skip_remote_post` of
-- financial_dashboard/services/paisa/sync_state.py. A difference of instants is compared with a
-- delay by adding the delay to the earlier instant, since `-` on ℕ stops at 0.
use text.Mathlib.Text.{◌==◌}
use bank_email_fetcher.Prelude.{
  ℕ, ◌+◌, String, Bool, true, false, Option, none, some, ltb, leb, if◌then◌else◌,
}
use bank_email_fetcher.SyncState.Table.{Instant, SyncStateSnapshot}
use bank_email_fetcher.SyncState.Backoff.{
  default_quiet_debounce, default_max_dirty_latency, default_force_reload_interval,
}

-- the texts that the source puts into `reason`
pub data Reason : Type 0 where
  backoff force_reload periodic_reload caught_up max_latency debounce dirty : Reason

pub record ReconcileEligibility : Type 0 where
  pub due : Bool
  pub reason : Reason
  pub eligible_at : Option Instant

-- `x is not None and now < x`
abbrev pub still_before : Instant → Option Instant → Bool
still_before now none = false
still_before now (some x) = ltb now x

-- `x is not None and now - x >= delay`
abbrev pub elapsed : Instant → ℕ → Option Instant → Bool
elapsed now delay none = false
elapsed now delay (some x) = leb (x + delay) now

-- `x is not None and now - x < delay`
abbrev pub within : Instant → ℕ → Option Instant → Bool
within now delay none = false
within now delay (some x) = ltb now (x + delay)

abbrev plus : ℕ → Option Instant → Option Instant
plus delay none = none
plus delay (some x) = some (x + delay)

abbrev due_now : Reason → Instant → ReconcileEligibility
due_now why now = record { due = true; reason = why; eligible_at = some now }

abbrev wait_until : Reason → Option Instant → ReconcileEligibility
wait_until why at = record { due = false; reason = why; eligible_at = at }

module _ (quiet_debounce max_dirty_latency force_reload_interval : ℕ) where
  unfoldable pub reconcile_eligibility_at : Instant → SyncStateSnapshot → ReconcileEligibility
  reconcile_eligibility_at now s =
      if still_before now s.next_attempt_at
      then wait_until backoff s.next_attempt_at
      else if s.force_reload
      then due_now force_reload now
      else if elapsed now force_reload_interval s.last_remote_attempt_at
      then due_now periodic_reload now
      else if leb s.desired_revision s.applied_revision
      then wait_until caught_up none
      else if elapsed now max_dirty_latency s.first_dirty_at
      then due_now max_latency now
      else if within now quiet_debounce s.last_dirty_at
      then wait_until debounce (plus quiet_debounce s.last_dirty_at)
      else due_now dirty now

-- with the delays that the runtime always passes
unfoldable pub reconcile_eligibility : Instant → SyncStateSnapshot → ReconcileEligibility
unfolding reconcile_eligibility_at
reconcile_eligibility =
    reconcile_eligibility_at default_quiet_debounce default_max_dirty_latency
      default_force_reload_interval

unfoldable pub should_skip_remote_post : Option String → SyncStateSnapshot → Bool
should_skip_remote_post none s = false
should_skip_remote_post (some published) s = elim s.last_remote_hash [
  | none ↦ false
  | some remote ↦ remote == published
]
