-- ===== src/Coordinator/Stages.antt =====
-- `_run_attempt_stages` of financial_dashboard/services/paisa/coordinator.py and the functions that
-- record its outcomes.
use bank_email_fetcher.Prelude.{
  ℕ, String, Bool, true, false, not, ◌&&◌, Option, none, some, if◌then◌else◌,
}
use bank_email_fetcher.SyncState.Table.{Instant, SyncStateSnapshot, SyncTable, read_sync_state}
use bank_email_fetcher.SyncState.Backoff.{backoff_minutes}
use bank_email_fetcher.SyncState.Eligibility.{should_skip_remote_post}
use bank_email_fetcher.SyncState.Admin.{capture_target}
use bank_email_fetcher.SyncState.Dirty.{paisa}
use bank_email_fetcher.SyncState.Run.{
  Completion, published_hash, hash_noop, guard_caught_up, accepted_post, diagnosis,
  pre_post_failure, run_completion, run,
}
use bank_email_fetcher.Coordinator.World.{
  PreflightReport, GenerateResult, RemoteSyncReport, Reply, answered, raised, timed_out, World,
  is_guard, is_failure, classify_diagnosis,
}
use bank_email_fetcher.Coordinator.Results.{
  success, skipped, failure, finished, exception, timeout, AttemptResult, Ending, record_then,
  or_error, guard_outcome_token, skipped_result, failed_result, published_of, passes,
}

module _ (token : String) (now : Instant) where
  abbrev pub record_as :
      Completion → SyncTable → (SyncTable → Ending × SyncTable) → Ending × SyncTable
  record_as c t next = record_then (run_completion paisa token now c t) next

  -- `_record_preflight_outcome`
  unfoldable pub record_preflight_outcome : PreflightReport → ℕ → SyncTable → Ending × SyncTable
  record_preflight_outcome pre guard_target_revision t =
      let outcome = or_error pre.outcome in
      if is_guard outcome
      then record_as (guard_caught_up guard_target_revision) t
          (λ t'. (finished (skipped_result outcome), t'))
      else record_as (pre_post_failure backoff_minutes) t
          (λ t'. (finished (failed_result outcome pre.reason (is_failure outcome)), t'))

  -- `_record_generate_outcome`
  unfoldable pub record_generate_outcome : GenerateResult → ℕ → SyncTable → Ending × SyncTable
  record_generate_outcome generated guard_target_revision t =
      elim (guard_outcome_token generated.reason) [
        | some guard ↦
            record_as (guard_caught_up guard_target_revision) t
              (λ t'. (finished (skipped_result guard), t'))
        | none ↦
            record_as (pre_post_failure backoff_minutes) t
              (λ t'. (finished (failed_result "generate_failed" generated.reason true), t'))
      ]

  abbrev pub remote_result : RemoteSyncReport → Bool → String → ℕ → AttemptResult
  remote_result remote ok body_hash emitted = record {
    status = (if ok then success else failure);
    outcome = remote.outcome;
    output_hash = some body_hash;
    emitted_count = some emitted;
    error = (if ok then none else remote.reason);
    notify_failure = not ok && is_failure remote.outcome;
  }

  -- `_record_remote_outcome`
  unfoldable pub record_remote_outcome :
      RemoteSyncReport → String → ℕ → ℕ → World → SyncTable → Ending × SyncTable
  record_remote_outcome remote body_hash emitted target_revision w t =
      if remote.post_accepted
      then record_as (accepted_post target_revision body_hash) t (λ t'.
        let (state, healthy_hash) = classify_diagnosis remote body_hash in
        record_as (diagnosis state healthy_hash backoff_minutes) (run w.before_diagnosis t') (λ t''.
          (finished (remote_result remote (remote.ok && passes state) body_hash emitted), t'')))
      else record_as (pre_post_failure backoff_minutes) t
          (λ t'. (finished (remote_result remote false body_hash emitted), t'))

  abbrev pub unchanged_result : String → ℕ → AttemptResult
  unchanged_result body_hash emitted = record {
    status = success;
    outcome = "skipped_unchanged";
    output_hash = some body_hash;
    emitted_count = some emitted;
    error = none;
    notify_failure = false;
  }

  abbrev pub no_state_result : String → ℕ → AttemptResult
  no_state_result body_hash emitted = record {
    status = skipped;
    outcome = "no_state";
    output_hash = some body_hash;
    emitted_count = some emitted;
    error = none;
    notify_failure = false;
  }

  -- step 6, the POST and what its report leads to
  abbrev pub after_remote :
      Reply RemoteSyncReport → String → ℕ → ℕ → World → SyncTable → Ending × SyncTable
  after_remote (answered remote) body_hash emitted target w t =
      record_remote_outcome remote body_hash emitted target w t
  after_remote raised body_hash emitted target w t = (exception, t)
  after_remote timed_out body_hash emitted target w t = (timeout, t)

  -- step 5, on the row that is read back
  unfoldable pub decide_remote :
      Bool → String → ℕ → ℕ → World → Option SyncStateSnapshot → SyncTable → Ending × SyncTable
  decide_remote force_remote body_hash emitted target w none t =
      (finished (no_state_result body_hash emitted), t)
  decide_remote force_remote body_hash emitted target w (some snap) t =
      if not force_remote && should_skip_remote_post (some body_hash) snap
      then record_as (hash_noop target) t
          (λ t'. (finished (unchanged_result body_hash emitted), t'))
      else after_remote w.sync_remote body_hash emitted target w (run w.during_remote t)

  -- step 4, the checkpoint of the published hash
  unfoldable pub checkpoint : Bool → String → ℕ → ℕ → World → SyncTable → Ending × SyncTable
  checkpoint force_remote body_hash emitted target w t =
      record_as (published_hash body_hash) t (λ t'.
        let t'' = run w.before_read t' in
        decide_remote force_remote body_hash emitted target w (read_sync_state paisa t'') t'')

  -- step 3
  unfoldable pub publish_generated :
      Bool → ℕ → ℕ → World → GenerateResult → SyncTable → Ending × SyncTable
  publish_generated force_remote guard_target target w generated t = elim (published_of generated) [
    | none ↦ record_generate_outcome generated guard_target t
    | some (body_hash, emitted) ↦ checkpoint force_remote body_hash emitted target w t
  ]

  abbrev pub after_generate :
      Bool → ℕ → ℕ → World → Reply GenerateResult → SyncTable → Ending × SyncTable
  after_generate force_remote guard_target target w (answered generated) t =
      publish_generated force_remote guard_target target w generated t
  after_generate force_remote guard_target target w raised t = (exception, t)
  after_generate force_remote guard_target target w timed_out t = (timeout, t)

  -- steps 2 and 3; the row that `capture_target` returns is there, since it seeds a missing one
  abbrev pub after_capture :
      Bool → ℕ → World → Option (ℕ × SyncStateSnapshot) × SyncTable → Ending × SyncTable
  after_capture force_remote guard_target w (none, t) = (exception, t)
  after_capture force_remote guard_target w (some (target, s), t) =
      after_generate force_remote guard_target target w w.generate (run w.during_generate t)

  abbrev pub after_preflight :
      Bool → ℕ → World → Reply PreflightReport → SyncTable → Ending × SyncTable
  after_preflight force_remote guard_target w (answered pre) t =
      if pre.ok
      then after_capture force_remote guard_target w (capture_target paisa now t)
      else record_preflight_outcome pre guard_target t
  after_preflight force_remote guard_target w raised t = (exception, t)
  after_preflight force_remote guard_target w timed_out t = (timeout, t)

  -- `_run_attempt_stages`
  unfoldable pub run_attempt_stages : Bool → ℕ → World → SyncTable → Ending × SyncTable
  run_attempt_stages force_remote guard_target w t =
      after_preflight force_remote guard_target w w.preflight (run w.during_preflight t)
