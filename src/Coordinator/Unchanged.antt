-- ===== src/Coordinator/Unchanged.antt =====
-- A tick that finds the remote up to date.
use bank_email_fetcher.Prelude.{ℕ, String, true, false, some, none, ◌≡◌, refl, arith}
use bank_email_fetcher.SyncState.Table.{Instant, ExtensionSyncState, SyncTable, set, set_self}
use bank_email_fetcher.SyncState.Eligibility.{should_skip_remote_post}
use bank_email_fetcher.SyncState.Lease.{lease_free, holds, grant, clear_lease}
use bank_email_fetcher.SyncState.Completion.{publish, catch_up}
use bank_email_fetcher.SyncState.Admin.{capture_target}
use bank_email_fetcher.SyncState.Dirty.{paisa}
use bank_email_fetcher.SyncState.Run.{published_hash, hash_noop, run}
use bank_email_fetcher.SyncState.Effects.{run_completion_held}
use bank_email_fetcher.SyncState.Delivery.{After}
use bank_email_fetcher.Coordinator.World.{RemoteSyncReport, Reply}
use bank_email_fetcher.Coordinator.Results.{finished, published_of}
use bank_email_fetcher.Coordinator.Stages.{
  decide_remote, checkpoint, publish_generated, unchanged_result, run_attempt_stages,
}
use bank_email_fetcher.Coordinator.Tick.{Config, wants_attempt, tick}
use bank_email_fetcher.Coordinator.Calm.{
  calm, holds-catch_up, release_lease-held, granted_row, holds-granted_row, tick-attempt,
}

module _ (config : Config) (owner minted hash : String) (emitted : ℕ) (now at_release : Instant)
    (remote : Reply RemoteSyncReport) (t : SyncTable) (row : ExtensionSyncState)
    (found : t paisa ≡ some row) (free : lease_free now row ≡ true)
    (wanted : wants_attempt config now row.columns ≡ some false)
    (same : should_skip_remote_post (some hash) row.columns ≡ true) where
  abbrev claimed_row : ExtensionSyncState
  claimed_row = granted_row config owner minted now at_release t row false found free wanted

  abbrev skipped_row : ExtensionSyncState
  skipped_row = catch_up claimed_row.desired_revision none now (publish hash now claimed_row)

  holds-claimed_row : holds minted claimed_row ≡ true
  holds-claimed_row =
      holds-granted_row config owner minted now at_release t row false found free wanted

  holds-skipped_row : holds minted skipped_row ≡ true
  unfolding publish
  holds-skipped_row =
      holds-catch_up minted claimed_row.desired_revision none now (publish hash now claimed_row)
        holds-claimed_row

  same_claimed : should_skip_remote_post (some hash) claimed_row.columns ≡ true
  unfolding grant should_skip_remote_post
  same_claimed = same

  decide_remote-skips :
      (t' : SyncTable)
      → decide_remote minted now false hash emitted claimed_row.desired_revision
          (calm hash emitted remote)
          (some (publish hash now claimed_row).columns)
          (set paisa (publish hash now claimed_row) t')
        ≡ (
          finished (unchanged_result minted now hash emitted),
          set paisa skipped_row (set paisa (publish hash now claimed_row) t'),
        )
  unfolding decide_remote publish should_skip_remote_post
  decide_remote-skips t' = rw same_claimed (
      rw
        (run_completion_held paisa minted now (set paisa (publish hash now claimed_row) t')
          (publish hash now claimed_row) refl holds-claimed_row
          (hash_noop claimed_row.desired_revision))
        refl)

  run_attempt_stages-skips :
      (guard_target : ℕ)
      → run_attempt_stages minted now false guard_target
          (calm hash emitted remote)
          (set paisa claimed_row t)
        ≡ (
          finished (unchanged_result minted now hash emitted),
          set paisa skipped_row
              (set paisa (publish hash now claimed_row) (set paisa claimed_row t)),
        )
  unfolding run_attempt_stages capture_target publish_generated published_of checkpoint run
  run_attempt_stages-skips guard_target =
      rw
        (run_completion_held paisa minted now (set paisa claimed_row t) claimed_row refl
          holds-claimed_row (published_hash hash))
        (decide_remote-skips (set paisa claimed_row t))

  -- Where the bytes are those that the remote holds and no reload is forced, the tick succeeds
  -- without the remote, whatever that would answer: the row is caught up and clean with its lease
  -- released, and its remote columns and its failures are as they were.
  pub tick-IsUnchanged :
      let (result, t') = tick config owner minted (calm hash emitted remote) now at_release t in
      (result ≡ some (unchanged_result minted now hash emitted))
      × After paisa t' (λ left.
        (left.applied_revision ≡ row.desired_revision)
        × (left.desired_revision ≡ row.desired_revision)
        × (left.first_dirty_at ≡ none)
        × (left.last_remote_hash ≡ row.last_remote_hash)
        × (left.last_remote_attempt_at ≡ row.last_remote_attempt_at)
        × (left.failure_count ≡ row.failure_count)
        × (left.lease_token ≡ none))
  unfolding run
  tick-IsUnchanged =
      let t1 = set paisa (publish hash now claimed_row) (set paisa claimed_row t) in
      let t2 = set paisa skipped_row t1 in
      rw
        (tick-attempt config owner minted now at_release t row false found free wanted
          (calm hash emitted remote))
        (rw (run_attempt_stages-skips row.desired_revision) (
          rw
            (release_lease-held minted at_release t2 skipped_row (set_self paisa skipped_row t1)
              holds-skipped_row)
            (
              refl,
              (
                clear_lease at_release skipped_row,
                set_self paisa (clear_lease at_release skipped_row) t2,
                unfold clear_lease catch_up publish grant in ground arith,
              ),
            )))
