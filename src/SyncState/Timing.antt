-- ===== src/SyncState/Timing.antt =====
-- When a coordinator is due: what `reconcile_eligibility` decides on one snapshot as time passes.
use bank_email_fetcher.Prelude.{◌+◌, ◌≤◌, ◌<◌, true, false, some, ◌≡◌, arith}
use bank_email_fetcher.SyncState.Table.{Instant, SyncStateSnapshot}
use bank_email_fetcher.SyncState.Backoff.{default_max_dirty_latency}
use bank_email_fetcher.SyncState.Eligibility.{
  backoff, debounce, reconcile_eligibility, still_before,
}

-- Once a snapshot is due it stays due for as long as it is not written: no gate closes again.
pub due_mono :
    (s : SyncStateSnapshot) (now later : Instant)
    → now ≤ later
    → (reconcile_eligibility now s).due ≡ true
    → (reconcile_eligibility later s).due ≡ true
unfolding reconcile_eligibility
due_mono s now later le h = ground arith

-- A snapshot that is behind is due by the maximum latency after the change that first dirtied it,
-- however many changes followed, unless a failure has put the next attempt later.
pub due_by_max_latency :
    (s : SyncStateSnapshot) (first now : Instant)
    → s.applied_revision < s.desired_revision
    → s.first_dirty_at ≡ some first
    → first + default_max_dirty_latency ≤ now
    → still_before now s.next_attempt_at ≡ false
    → (reconcile_eligibility now s).due ≡ true
unfolding reconcile_eligibility
due_by_max_latency s first now behind e late no_backoff = ground arith

-- No attempt is made before the instant that a failure has set, whatever else the row says.
pub backoff_holds :
    (s : SyncStateSnapshot) (next now : Instant)
    → s.next_attempt_at ≡ some next
    → now < next
    → ((reconcile_eligibility now s).due ≡ false)
      × ((reconcile_eligibility now s).reason ≡ backoff)
      × ((reconcile_eligibility now s).eligible_at ≡ some next)
unfolding reconcile_eligibility
backoff_holds s next now e h = (ground arith, ground arith, ground arith)

-- A snapshot that waits out the debounce is due at the instant that the answer names.
pub debounce-due :
    (s : SyncStateSnapshot) (now at : Instant)
    → (reconcile_eligibility now s).reason ≡ debounce
    → (reconcile_eligibility now s).eligible_at ≡ some at
    → (now < at) × ((reconcile_eligibility at s).due ≡ true)
unfolding reconcile_eligibility
debounce-due s now at r e = (ground arith, ground arith)

-- A snapshot that is due names the present instant as the one at which it is eligible.
pub due-eligible_at :
    (s : SyncStateSnapshot) (now : Instant)
    → (reconcile_eligibility now s).due ≡ true
    → (reconcile_eligibility now s).eligible_at ≡ some now
unfolding reconcile_eligibility
due-eligible_at s now h = ground arith
