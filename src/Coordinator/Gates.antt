-- ===== src/Coordinator/Gates.antt =====
-- When a tick makes an attempt at all, and that the attempt gives its lease back.
use Prim.Native.Nat.{max}
use mathlib.Core.Path.{subst}
use bank_email_fetcher.Prelude.{
  ℕ, ◌<◌, ◌≤◌, ◌+◌, ◌*◌, String, Bool, true, false, Option, some, none, ◌≡◌, refl, arith, is_none,
  inl, inr, Bool-cases, Option-cases,
}
use bank_email_fetcher.SyncState.Table.{
  Instant, SyncStateSnapshot, SyncTable, read_sync_state, update_where-none, update_where-false,
  update_where-true,
}
use bank_email_fetcher.SyncState.Backoff.{
  minute, default_max_dirty_latency, default_lease_ttl_seconds,
}
use bank_email_fetcher.SyncState.Eligibility.{still_before, reconcile_eligibility}
use bank_email_fetcher.SyncState.Lease.{
  LeaseClaim, holds, lease_token_for, claim_result, claim_lease, clear_lease, release_lease,
}
use bank_email_fetcher.SyncState.Dirty.{paisa}
use bank_email_fetcher.SyncState.Guards.{IsStale}
use bank_email_fetcher.SyncState.Run.{run}
use bank_email_fetcher.Coordinator.World.{World}
use bank_email_fetcher.Coordinator.Results.{AttemptResult}
use bank_email_fetcher.Coordinator.Stages.{run_attempt_stages}
use bank_email_fetcher.Coordinator.Tick.{
  release_if, Config, remote_floor_satisfied, wants_attempt, if_claimed, attempt, read_or_seed,
  if_wanted, on_snapshot, tick,
}

-- Where the automatic sync is on and the row has been behind for the maximum latency, with no
-- backoff pending, the tick wants an attempt as soon as the minimum interval since the last remote
-- attempt is over, however many changes follow.
pub wants_attempt_by :
    (min_minutes : ℕ) (now first : Instant) (s : SyncStateSnapshot)
    → s.applied_revision < s.desired_revision
    → s.first_dirty_at ≡ some first
    → first + default_max_dirty_latency ≤ now
    → still_before now s.next_attempt_at ≡ false
    → remote_floor_satisfied s now min_minutes ≡ true
    → is_none (
        wants_attempt
          (record {
            can_project = true;
            auto_sync_enabled = true;
            min_interval_minutes = min_minutes;
          })
          now
          s)
      ≡ false
unfolding wants_attempt reconcile_eligibility remote_floor_satisfied
wants_attempt_by min_minutes now first s behind dirty late ready floor = ground arith

-- An attempt that may skip the POST is made only where the minimum interval since the last remote
-- attempt, of one minute at least, is over.
pub wants_attempt-floor :
    (config : Config) (now last : Instant) (s : SyncStateSnapshot)
    → wants_attempt config now s ≡ some false
    → s.last_remote_attempt_at ≡ some last
    → last + max 1 config.min_interval_minutes * minute ≤ now
unfolding wants_attempt reconcile_eligibility remote_floor_satisfied
wants_attempt-floor config now last s wanted attempted = ground arith

release_lease-IsStale :
    (token : String) (at : Instant) (t : SyncTable)
    → IsStale paisa token (release_lease token paisa at t).1
unfolding release_lease
release_lease-IsStale token at t = elim (Option-cases (t paisa)) [
  | inl e ↦ rw (update_where-none paisa (holds token) (clear_lease at) t e) (rw e refl)
  | inr (row, e) ↦ elim (Bool-cases (holds token row)) [
    | inl g ↦
        rw (update_where-true paisa (holds token) (clear_lease at) t row e g)
          (unfold clear_lease in refl)
    | inr g ↦ rw (update_where-false paisa (holds token) (clear_lease at) t row e g) (rw e g)
  ]
]

release_if-IsStale :
    (commits : Bool) (token : String) (at : Instant) (t : SyncTable)
    → commits ≡ true
    → IsStale paisa token (release_if commits token at t)
release_if-IsStale true token at t h = release_lease-IsStale token at t
release_if-IsStale false token at t h = cc

claim_result-token :
    (owner token : String) (expires : Instant) (row existing : Option SyncStateSnapshot)
    → (claim_result owner token expires row existing).token ≡ token
unfolding claim_result
claim_result-token owner token expires (some row) existing = refl
claim_result-token owner token expires none none = refl
claim_result-token owner token expires none (some existing) = refl

if_claimed-releases :
    (force : Bool) (guard_target : ℕ) (w : World) (now at_release : Instant) (claim : LeaseClaim)
    (t : SyncTable) (result : AttemptResult)
    → w.release_commits ≡ true
    → (if_claimed force guard_target w now at_release (claim, t)).0 ≡ some result
    → IsStale paisa claim.token (if_claimed force guard_target w now at_release (claim, t)).1
if_claimed-releases force guard_target w now at_release claim t result commits h =
    elim (Bool-cases claim.claimed) [
      | inr lost ↦ let never : none ≡ some result = rw lost at h in cc
      | inl won ↦ rw won (
          release_if-IsStale w.release_commits claim.token at_release
            (run w.before_release (run_attempt_stages claim.token now force guard_target w t).1)
            commits)
    ]

if_wanted-releases :
    (owner minted : String) (w : World) (now at_release : Instant) (s : SyncStateSnapshot)
    (t : SyncTable) (wanted : Option Bool) (result : AttemptResult)
    → w.release_commits ≡ true
    → (if_wanted owner minted w now at_release s t wanted).0 ≡ some result
    → IsStale paisa minted (if_wanted owner minted w now at_release s t wanted).1
unfolding attempt claim_lease lease_token_for
if_wanted-releases owner minted w now at_release s t none result commits h = cc
if_wanted-releases owner minted w now at_release s t (some force) result commits h =
    let r =
      claim_lease owner none minted paisa default_lease_ttl_seconds now (run w.before_claim t) in
    subst (λ token. IsStale paisa token (if_claimed force s.desired_revision w now at_release r).1)
      (claim_result-token owner minted _ _ _)
      (if_claimed-releases force s.desired_revision w now at_release r.0 r.1 result commits h)

on_snapshot-releases :
    (config : Config) (owner minted : String) (w : World) (now at_release : Instant)
    (r : Option SyncStateSnapshot × SyncTable) (result : AttemptResult)
    → w.release_commits ≡ true
    → (on_snapshot config owner minted w now at_release r).0 ≡ some result
    → IsStale paisa minted (on_snapshot config owner minted w now at_release r).1
on_snapshot-releases config owner minted w now at_release (none, t) result commits h = cc
on_snapshot-releases config owner minted w now at_release (some s, t) result commits h =
    if_wanted-releases owner minted w now at_release s t (wants_attempt config now s) result commits
      h

-- Where the release itself commits, a tick that made an attempt gives its lease back, however the
-- attempt ended: with a result, with a stale lease, with an exception or with a timeout, and whatever
-- other sessions committed, the row no longer stores the token that the tick claimed. Where the
-- release raises, nothing is said: the row may keep the token until the lease expires.
pub tick-IsStale :
    (config : Config) (owner minted : String) (w : World) (now at_release : Instant) (t : SyncTable)
    (result : AttemptResult)
    → w.release_commits ≡ true
    → (tick config owner minted w now at_release t).0 ≡ some result
    → IsStale paisa minted (tick config owner minted w now at_release t).1
unfolding tick
tick-IsStale config owner minted w now at_release t result commits h =
    on_snapshot-releases config owner minted w now at_release
      (read_or_seed now t (read_sync_state paisa t)) result commits h
