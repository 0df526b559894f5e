-- ===== src/SyncState/Delivery.antt =====
-- What a reconcile leaves behind: nothing to do after a delivery, work to do after a change that
-- came too late for it or after a failure.
use Prim.Native.Nat.{min}
use bank_email_fetcher.Prelude.{
  ℕ, ◌+◌, ◌*◌, ◌≤◌, ◌<◌, String, Bool, true, false, Option, none, some, ◌≡◌, refl, ap, arith,
}
use bank_email_fetcher.SyncState.Table.{
  Instant, ExtensionSyncState, SyncTable, set, set_self, update_where-true,
}
use bank_email_fetcher.SyncState.Backoff.{
  minute, backoff_minutes, backoff_delta_bounds, default_max_dirty_latency,
  default_force_reload_interval,
}
use bank_email_fetcher.SyncState.Eligibility.{reconcile_eligibility}
use bank_email_fetcher.SyncState.Lease.{holds}
use bank_email_fetcher.SyncState.Completion.{coalesce, catch_up, arm, miss, fatal}
use bank_email_fetcher.SyncState.Dirty.{paisa, bump, every_row, transactions, fire}
use bank_email_fetcher.SyncState.Run.{
  Completion, hash_noop, accepted_post, diagnosis, pre_post_failure, run_completion, write, run_op,
}
use bank_email_fetcher.SyncState.Effects.{effect, run_completion_held}

-- the row that the table now has for an extension
abbrev pub After : String → SyncTable → (ExtensionSyncState → Type 0) → Type 0
After eid t P = (row : ExtensionSyncState) × (t eid ≡ some row) × P row

abbrev pub is_due : Instant → ExtensionSyncState → Bool
is_due now row = (reconcile_eligibility now row.columns).due

-- delivered up to `desired` with the bytes `hash`, clean, and not due at `later`
abbrev pub IsSettled : ℕ → String → Instant → ExtensionSyncState → Type 0
IsSettled desired hash later row =
    (row.applied_revision ≡ desired)
    × (row.desired_revision ≡ desired)
    × (row.last_remote_hash ≡ some hash)
    × (row.first_dirty_at ≡ none)
    × (row.last_dirty_at ≡ none)
    × (row.force_reload ≡ false)
    × (row.failure_count ≡ 0)
    × (is_due later row ≡ false)

-- one failure more than `before`, still clean, and not due at `later`
abbrev pub IsQuiet : ExtensionSyncState → Instant → ExtensionSyncState → Type 0
IsQuiet before later row =
    (row.failure_count ≡ before.failure_count + 1)
    × (row.applied_revision ≡ row.desired_revision)
    × (row.force_reload ≡ false)
    × (is_due later row ≡ false)

-- as far behind as `before`, not due at `soon` and due at `later`
abbrev pub IsPostponed : ExtensionSyncState → Instant → Instant → ExtensionSyncState → Type 0
IsPostponed before soon later row =
    (row.applied_revision ≡ before.applied_revision)
    × (row.desired_revision ≡ before.desired_revision)
    × (row.first_dirty_at ≡ before.first_dirty_at)
    × (row.force_reload ≡ before.force_reload)
    × (is_due soon row ≡ false)
    × (is_due later row ≡ true)

-- advanced to `target` at most, with the remote and retry columns of `before`
abbrev pub KeepsRemote : ExtensionSyncState → ℕ → ExtensionSyncState → Type 0
KeepsRemote before target row =
    (row.applied_revision ≡ min target before.desired_revision)
    × (row.last_remote_hash ≡ before.last_remote_hash)
    × (row.last_remote_attempt_at ≡ before.last_remote_attempt_at)
    × (row.next_attempt_at ≡ before.next_attempt_at)
    × (row.failure_count ≡ before.failure_count)

-- one revision behind, with a window open since `opened`, and due at `later`
abbrev pub IsBehind : ℕ → Instant → Instant → ExtensionSyncState → Type 0
IsBehind applied opened later row =
    (row.applied_revision ≡ applied)
    × (row.desired_revision ≡ applied + 1)
    × (row.first_dirty_at ≡ some opened)
    × (is_due later row ≡ true)

module _ (eid token : String) (now : Instant) (t : SyncTable) (row : ExtensionSyncState)
    (e : t eid ≡ some row) (g : holds token row ≡ true) where
  stored :
      (c : Completion)
      → (run_completion eid token now c t).1 ≡ set eid (effect now c row) t
      → (run_completion eid token now c t).1 eid ≡ some (effect now c row)
  stored c w = rw w (set_self eid (effect now c row) t)

  -- When the holder of the lease records an accepted POST for the revision that is still the
  -- desired one, the row has the remote hash, is clean, with no forcing flag and no failure left,
  -- and no coordinator is due at any instant before the six hours of the periodic reload are over.
  pub accepted_post-settles :
      (hash : String) (later : Instant)
      → later < now + default_force_reload_interval
      → After eid
          (run_completion eid token now (accepted_post row.desired_revision hash) t).1
          (IsSettled row.desired_revision hash later)
  unfolding catch_up reconcile_eligibility
  accepted_post-settles hash later soon =
      let c = accepted_post row.desired_revision hash in
      (
        effect now c row,
        stored c (ap (λ p. p.1) (run_completion_held eid token now t row e g c)),
        ground arith,
      )

  -- When the holder records a fatal diagnosis on a row that is caught up and not forced, no reload
  -- loop starts: the failure is counted, the row stays caught up, and no coordinator is due before
  -- six hours after the last remote attempt.
  pub fatal-IsQuiet :
      (hash : Option String) (last later : Instant)
      → row.applied_revision ≡ row.desired_revision
      → row.force_reload ≡ false
      → row.last_remote_attempt_at ≡ some last
      → later < last + default_force_reload_interval
      → After eid
          (run_completion eid token now (diagnosis fatal hash backoff_minutes) t).1
          (IsQuiet row later)
  unfolding arm reconcile_eligibility
  fatal-IsQuiet hash last later settled no_force attempt soon =
      let c = diagnosis fatal hash backoff_minutes in
      (
        effect now c row,
        stored c (ap (λ p. p.1) (run_completion_held eid token now t row e g c)),
        ground arith,
      )

  -- When the holder records a failure before the POST on a row that is behind, nothing is lost: the
  -- revisions, the dirty window and the forcing flag are as before; no coordinator is due within
  -- the next minute; and one is due at any instant that is fifteen minutes on and past the maximum
  -- latency of the window.
  pub pre_post_failure-retries :
      (first soon later : Instant)
      → row.applied_revision < row.desired_revision
      → row.first_dirty_at ≡ some first
      → soon < now + minute
      → now + 15 * minute ≤ later
      → first + default_max_dirty_latency ≤ later
      → After eid
          (run_completion eid token now (pre_post_failure backoff_minutes) t).1
          (IsPostponed row soon later)
  unfolding miss reconcile_eligibility
  pre_post_failure-retries first soon later behind window early late waited =
      let c = pre_post_failure backoff_minutes in
      let bounds = backoff_delta_bounds (row.failure_count + 1) in
      (
        effect now c row,
        stored c (ap (λ p. p.1) (run_completion_held eid token now t row e g c)),
        ground (arith, bounds),
      )

  -- When the holder records a hash no-op, the applied revision becomes the target, capped by the
  -- desired revision, and neither the remote columns nor the retry columns change, so that the
  -- periodic reload and a pending backoff run on.
  pub hash_noop-KeepsRemote :
      (target : ℕ)
      → After eid (run_completion eid token now (hash_noop target) t).1 (KeepsRemote row target)
  unfolding catch_up
  hash_noop-KeepsRemote target =
      let c = hash_noop target in
      (
        effect now c row,
        stored c (ap (λ p. p.1) (run_completion_held eid token now t row e g c)),
        ground arith,
      )

write_fires :
    (at : Instant) (t : SyncTable) (row : ExtensionSyncState)
    → t paisa ≡ some row
    → run_op paisa at (write transactions) t ≡ set paisa (bump false at row) t
unfolding run_op fire
write_fires at t row e =
    ap (λ p. p.1) (update_where-true paisa every_row (bump false at) t row e refl)

-- A write to the transactions that commits after the holder of the lease has captured its target
-- and before it records the accepted POST is not lost: afterwards the row is one revision behind,
-- its dirty window is open since that write or since an earlier one, and a coordinator is due once
-- the maximum latency of the window has passed.
pub late_write-due :
    (token hash : String) (at now opened later : Instant) (t : SyncTable) (row : ExtensionSyncState)
    → t paisa ≡ some row
    → holds token row ≡ true
    → coalesce row.first_dirty_at (some at) ≡ some opened
    → opened + default_max_dirty_latency ≤ later
    → After paisa
        (run_completion paisa token now
          (accepted_post row.desired_revision hash)
          (run_op paisa at (write transactions) t)).1
        (IsBehind row.desired_revision opened later)
unfolding catch_up bump reconcile_eligibility
late_write-due token hash at now opened later t row e g since late =
    let dirtied = bump false at row in
    let c = accepted_post row.desired_revision hash in
    let t' = set paisa dirtied t in
    let at_key = set_self paisa dirtied t in
    (
      effect now c dirtied,
      rw (write_fires at t row e) (
          stored paisa token now t' dirtied at_key g c
            (ap (λ p. p.1) (run_completion_held paisa token now t' dirtied at_key g c))),
      ground arith,
    )

-- An accepted POST, a hash no-op or a blocked preflight never moves the applied revision of a valid
-- row back when its target is at least the applied revision.
pub catch_up-applied_mono :
    (target : ℕ) (hash : Option String) (now : Instant) (row : ExtensionSyncState)
    → row.applied_revision ≤ target
    → row.applied_revision ≤ row.desired_revision
    → row.applied_revision ≤ (catch_up target hash now row).applied_revision
unfolding catch_up
catch_up-applied_mono target none now row le capped = ground arith
catch_up-applied_mono target (some hash) now row le capped = ground arith
