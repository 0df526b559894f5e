-- ===== src/Coordinator/TickKeeps.antt =====
-- What every operation of the sync state keeps, a tick keeps, with its claim and its release.
use bank_email_fetcher.Prelude.{
  true, false, ℕ, String, Bool, Option, none, some, inl, inr, Bool-cases,
}
use bank_email_fetcher.SyncState.Table.{Instant, SyncStateSnapshot, SyncTable, read_sync_state}
use bank_email_fetcher.SyncState.Backoff.{default_lease_ttl_seconds}
use bank_email_fetcher.SyncState.Lease.{LeaseClaim, claim_lease}
use bank_email_fetcher.SyncState.Dirty.{paisa}
use bank_email_fetcher.SyncState.Run.{Op, ensure, claim, release, run_op, run}
use bank_email_fetcher.Coordinator.World.{World}
use bank_email_fetcher.Coordinator.Stages.{run_attempt_stages}
use bank_email_fetcher.Coordinator.Tick.{
  Config, wants_attempt, release_if, stages_and_release, if_claimed, attempt, read_or_seed,
  if_wanted, on_snapshot, tick,
}
use bank_email_fetcher.Coordinator.Keeps.{run-keeps, run_attempt_stages-keeps}

module _ (Q : SyncTable → Type 0)
    (keep : (eid : String) (now : Instant) (op : Op) (t : SyncTable)
      → Q t
      → Q (run_op eid now op t)) where
  module _ (token : String) (now : Instant) where
    release_if-keeps :
        (commits : Bool) (at_release : Instant) (t : SyncTable)
        → Q t
        → Q (release_if commits token at_release t)
    release_if-keeps true at_release t q =
        unfold run_op in keep paisa at_release (release token) t q
    release_if-keeps false at_release t q = q

    stages_and_release-keeps :
        (force : Bool) (guard_target : ℕ) (w : World) (at_release : Instant) (t : SyncTable)
        → Q t
        → Q (stages_and_release token force guard_target w now at_release t).1
    stages_and_release-keeps force guard_target w at_release t q =
        let t' = (run_attempt_stages token now force guard_target w t).1 in
        release_if-keeps w.release_commits at_release (run w.before_release t') (
          run-keeps Q keep w.before_release t'
            (run_attempt_stages-keeps Q keep token now force guard_target w t q))

  if_claimed-keeps :
      (force : Bool) (guard_target : ℕ) (w : World) (now at_release : Instant)
      (r : LeaseClaim × SyncTable)
      → Q r.1
      → Q (if_claimed force guard_target w now at_release r).1
  if_claimed-keeps force guard_target w now at_release (c, t) q = elim (Bool-cases c.claimed) [
    | inl won ↦ rw won (stages_and_release-keeps c.token now force guard_target w at_release t q)
    | inr lost ↦ rw lost q
  ]

  attempt-keeps :
      (owner minted : String) (force : Bool) (guard_target : ℕ) (w : World)
      (now at_release : Instant) (t : SyncTable)
      → Q t
      → Q (attempt owner minted force guard_target w now at_release t).1
  unfolding attempt
  attempt-keeps owner minted force guard_target w now at_release t q =
      if_claimed-keeps force guard_target w now at_release
        (claim_lease owner none minted paisa default_lease_ttl_seconds now t)
        (unfold run_op in keep paisa now (claim owner none minted default_lease_ttl_seconds) t q)

  read_or_seed-keeps :
      (now : Instant) (t : SyncTable) (s : Option SyncStateSnapshot)
      → Q t
      → Q (read_or_seed now t s).1
  read_or_seed-keeps now t (some s) q = q
  read_or_seed-keeps now t none q = unfold run_op in keep paisa now ensure t q

  if_wanted-keeps :
      (owner minted : String) (w : World) (now at_release : Instant) (s : SyncStateSnapshot)
      (t : SyncTable) (wanted : Option Bool)
      → Q t
      → Q (if_wanted owner minted w now at_release s t wanted).1
  if_wanted-keeps owner minted w now at_release s t none q = q
  if_wanted-keeps owner minted w now at_release s t (some force) q =
      attempt-keeps owner minted force s.desired_revision w now at_release (run w.before_claim t)
        (run-keeps Q keep w.before_claim t q)

  on_snapshot-keeps :
      (config : Config) (owner minted : String) (w : World) (now at_release : Instant)
      (r : Option SyncStateSnapshot × SyncTable)
      → Q r.1
      → Q (on_snapshot config owner minted w now at_release r).1
  on_snapshot-keeps config owner minted w now at_release (none, t) q = q
  on_snapshot-keeps config owner minted w now at_release (some s, t) q =
      if_wanted-keeps owner minted w now at_release s t (wants_attempt config now s) q

  pub tick-keeps :
      (config : Config) (owner minted : String) (w : World) (now at_release : Instant)
      (t : SyncTable)
      → Q t
      → Q (tick config owner minted w now at_release t).1
  unfolding tick
  tick-keeps config owner minted w now at_release t q =
      on_snapshot-keeps config owner minted w now at_release
        (read_or_seed now t (read_sync_state paisa t))
        (read_or_seed-keeps now t (read_sync_state paisa t) q)
