-- ===== src/Coordinator/Delivery.antt =====
-- A tick that finds something new and delivers it.
use bank_email_fetcher.Prelude.{
  ℕ, ◌<◌, ◌+◌, String, Bool, true, false, not, ◌&&◌, some, none, ◌≡◌, refl, ◌∙◌, arith,
}
use bank_email_fetcher.SyncState.Table.{Instant, ExtensionSyncState, SyncTable, set, set_self}
use bank_email_fetcher.SyncState.Backoff.{backoff_minutes, default_force_reload_interval}
use bank_email_fetcher.SyncState.Eligibility.{reconcile_eligibility, should_skip_remote_post}
use bank_email_fetcher.SyncState.Lease.{lease_free, holds, grant, clear_lease}
use bank_email_fetcher.SyncState.Completion.{publish, catch_up, settle, healthy}
use bank_email_fetcher.SyncState.Admin.{capture_target}
use bank_email_fetcher.SyncState.Dirty.{paisa}
use bank_email_fetcher.SyncState.Run.{published_hash, accepted_post, diagnosis, run}
use bank_email_fetcher.SyncState.Effects.{run_completion_held}
use bank_email_fetcher.SyncState.Delivery.{After, is_due}
use bank_email_fetcher.Coordinator.World.{RemoteSyncReport, answered, classify_diagnosis}
use bank_email_fetcher.Coordinator.Results.{finished, published_of}
use bank_email_fetcher.Coordinator.Stages.{
  record_remote_outcome, decide_remote, checkpoint, publish_generated, remote_result,
  run_attempt_stages,
}
use bank_email_fetcher.Coordinator.Tick.{Config, wants_attempt, tick}
use bank_email_fetcher.Coordinator.Calm.{
  calm, holds-catch_up, release_lease-held, granted_row, holds-granted_row, tick-attempt,
}

-- the remote takes the POST and finds nothing wrong
abbrev pub healthy_remote : RemoteSyncReport
healthy_remote = record {
  ok = true;
  outcome = "success";
  post_accepted = true;
  diagnosis_ok = some true;
  diagnosis_accepted = some 0;
  reason = none;
}

-- the lease released, the row caught up at `desired`, and not due at `later`
abbrev pub IsDelivered : ℕ → String → Instant → ExtensionSyncState → Type 0
IsDelivered desired hash later row =
    (row.desired_revision ≡ desired)
    × (row.applied_revision ≡ desired)
    × (row.last_published_hash ≡ some hash)
    × (row.last_remote_hash ≡ some hash)
    × (row.first_dirty_at ≡ none)
    × (row.force_reload ≡ false)
    × (row.lease_token ≡ none)
    × (is_due later row ≡ false)

module _ (token : String) (now : Instant) (hash : String) (emitted : ℕ) where
  module _ (t : SyncTable) (row : ExtensionSyncState) (found : t paisa ≡ some row)
      (ours : holds token row ≡ true) where
    record_remote_outcome-healthy :
        (target : ℕ)
        → let r = catch_up target (some hash) now row in
          record_remote_outcome token now healthy_remote hash emitted target
            (calm hash emitted (answered healthy_remote))
            t
          ≡ (
            finished (remote_result token now healthy_remote true hash emitted),
            set paisa (settle "healthy" (some hash) now r) (set paisa r t),
          )
    unfolding record_remote_outcome classify_diagnosis run
    record_remote_outcome-healthy target =
        let r = catch_up target (some hash) now row in
        rw (run_completion_held paisa token now t row found ours (accepted_post target hash)) (
          rw
            (run_completion_held paisa token now (set paisa r t) r (set_self paisa r t)
              (holds-catch_up token target (some hash) now row ours)
              (diagnosis healthy (some hash) backoff_minutes))
            refl)

  module _ (force : Bool) (t : SyncTable) (row : ExtensionSyncState) (found : t paisa ≡ some row)
      (ours : holds token row ≡ true)
      (post : (not force && should_skip_remote_post (some hash) row.columns) ≡ false) where
    abbrev published : ExtensionSyncState
    published = publish hash now row

    decide_remote-posts :
        (target : ℕ)
        → decide_remote token now force hash emitted target
            (calm hash emitted (answered healthy_remote))
            (some published.columns)
            (set paisa published t)
          ≡ record_remote_outcome token now healthy_remote hash emitted target
              (calm hash emitted (answered healthy_remote))
              (set paisa published t)
    unfolding decide_remote publish run should_skip_remote_post
    decide_remote-posts target = rw post refl

    run_attempt_stages-posts :
        (guard_target : ℕ)
        → let r = catch_up row.desired_revision (some hash) now published in
          run_attempt_stages token now force guard_target
            (calm hash emitted (answered healthy_remote))
            t
          ≡ (
            finished (remote_result token now healthy_remote true hash emitted),
            set paisa (settle "healthy" (some hash) now r) (set paisa r (set paisa published t)),
          )
    unfolding run_attempt_stages capture_target publish_generated published_of checkpoint run
    run_attempt_stages-posts guard_target = rw found (
        rw (run_completion_held paisa token now t row found ours (published_hash hash)) (
          decide_remote-posts row.desired_revision
          ∙ record_remote_outcome-healthy (set paisa published t) published
              (set_self paisa published t) (unfold publish in ours) row.desired_revision))

module _ (config : Config) (owner minted hash : String) (emitted : ℕ) (now at_release : Instant)
    (t : SyncTable) (row : ExtensionSyncState) (force : Bool) (found : t paisa ≡ some row)
    (free : lease_free now row ≡ true) (wanted : wants_attempt config now row.columns ≡ some force)
    (post : (not force && should_skip_remote_post (some hash) row.columns) ≡ false) where
  abbrev granted : ExtensionSyncState
  granted = granted_row config owner minted now at_release t row force found free wanted

  own : holds minted granted ≡ true
  own = holds-granted_row config owner minted now at_release t row force found free wanted

  abbrev delivered_row : ExtensionSyncState
  delivered_row =
      settle "healthy" (some hash) now
        (catch_up granted.desired_revision (some hash) now (publish hash now granted))

  still_posts : (not force && should_skip_remote_post (some hash) granted.columns) ≡ false
  unfolding grant should_skip_remote_post
  still_posts = post

  holds-delivered_row : holds minted delivered_row ≡ true
  unfolding settle publish
  holds-delivered_row =
      holds-catch_up minted granted.desired_revision (some hash) now (publish hash now granted) own

  -- Where the tick wants an attempt, the lease is free, no other session commits anything meanwhile,
  -- the release of the lease commits, the bytes are new to the remote or the reload is forced, and the remote takes the POST and finds
  -- it healthy, the tick succeeds: the row is caught up with the revision that the tick found, holds
  -- the new hash as published and as remote, is clean, not forced, with its lease released, and no
  -- tick is due before the six hours of the periodic reload are over.
  pub tick-IsDelivered :
      (later : Instant)
      → later < now + default_force_reload_interval
      → let (result, t') =
          tick config owner minted (calm hash emitted (answered healthy_remote)) now at_release t in
        (result ≡ some (remote_result minted now healthy_remote true hash emitted))
        × After paisa t' (IsDelivered row.desired_revision hash later)
  unfolding run
  tick-IsDelivered later early =
      let r = catch_up granted.desired_revision (some hash) now (publish hash now granted) in
      let t1 = set paisa granted t in
      let t2 = set paisa r (set paisa (publish hash now granted) t1) in
      let t3 = set paisa delivered_row t2 in
      rw
        (tick-attempt config owner minted now at_release t row force found free wanted
          (calm hash emitted (answered healthy_remote)))
        (rw
          (run_attempt_stages-posts minted now hash emitted force t1 granted
            (set_self paisa granted t) own still_posts row.desired_revision)
          (rw
            (release_lease-held minted at_release t3 delivered_row (set_self paisa delivered_row t2)
              holds-delivered_row)
            (
              refl,
              (
                clear_lease at_release delivered_row,
                set_self paisa (clear_lease at_release delivered_row) t3,
                unfold clear_lease settle catch_up publish grant reconcile_eligibility in
                    ground arith,
              ),
            )))
