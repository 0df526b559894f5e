-- ===== src/Coordinator/Keeps.antt =====
-- A tick does nothing to the table but operations of the sync state, its own and those of others:
-- what every operation keeps, a tick keeps.
use bank_email_fetcher.Prelude.{
  ℕ, String, Bool, true, false, not, ◌&&◌, Option, none, some, [], ◌∷◌, inl, inr, Option-cases,
  if◌then◌else◌,
}
use bank_email_fetcher.SyncState.Table.{
  Instant, SyncStateSnapshot, SyncTable, Outcome, done, lease_stale, unknown_state,
}
use bank_email_fetcher.SyncState.Eligibility.{should_skip_remote_post}
use bank_email_fetcher.SyncState.Admin.{capture_target}
use bank_email_fetcher.SyncState.Dirty.{paisa}
use bank_email_fetcher.SyncState.Run.{
  Completion, guard_caught_up, accepted_post, diagnosis, pre_post_failure, published_hash,
  hash_noop, Op, capture, complete, run_completion, run_op, run,
}
use bank_email_fetcher.Coordinator.World.{
  PreflightReport, GenerateResult, RemoteSyncReport, Reply, answered, raised, timed_out, Steps,
  World, is_guard,
}
use bank_email_fetcher.Coordinator.Results.{
  Ending, record_then, or_error, guard_outcome_token, published_of,
}
use bank_email_fetcher.Coordinator.Stages.{
  record_as, record_preflight_outcome, record_generate_outcome, record_remote_outcome, after_remote,
  decide_remote, checkpoint, publish_generated, after_generate, after_capture, after_preflight,
  run_attempt_stages,
}

module _ (Q : SyncTable → Type 0)
    (keep : (eid : String) (now : Instant) (op : Op) (t : SyncTable)
      → Q t
      → Q (run_op eid now op t)) where
  pub run-keeps : (steps : Steps) (t : SyncTable) → Q t → Q (run steps t)
  unfolding run
  run-keeps [] t q = q
  run-keeps ((eid, now, op) ∷ steps) t q =
      run-keeps steps (run_op eid now op t) (keep eid now op t q)

  record_then-keeps :
      (r : Outcome SyncStateSnapshot × SyncTable) (next : SyncTable → Ending × SyncTable)
      → Q r.1
      → ((t : SyncTable) → Q t → Q (next t).1)
      → Q (record_then r next).1
  record_then-keeps (done s, t) next q go = go t q
  record_then-keeps (lease_stale eid token, t) next q go = q
  record_then-keeps (unknown_state state, t) next q go = q

  if-keeps : (b : Bool) (x y : Ending × SyncTable) → Q x.1 → Q y.1 → Q (if b then x else y).1
  if-keeps true x y p q = p
  if-keeps false x y p q = q

  module _ (token : String) (now : Instant) where
    record_as-keeps :
        (c : Completion) (t : SyncTable) (next : SyncTable → Ending × SyncTable)
        → Q t
        → ((t' : SyncTable) → Q t' → Q (next t').1)
        → Q (record_as token now c t next).1
    record_as-keeps c t next q go =
        record_then-keeps (run_completion paisa token now c t) next
          (unfold run_op in keep paisa now (complete token c) t q) go

    record_preflight_outcome-keeps :
        (pre : PreflightReport) (guard_target : ℕ) (t : SyncTable)
        → Q t
        → Q (record_preflight_outcome token now pre guard_target t).1
    unfolding record_preflight_outcome
    record_preflight_outcome-keeps pre guard_target t q =
        if-keeps (is_guard (or_error pre.outcome)) _ _
          (record_as-keeps (guard_caught_up guard_target) t _ q (λ t' q'. q'))
          (record_as-keeps (pre_post_failure _) t _ q (λ t' q'. q'))

    record_generate_outcome-keeps :
        (generated : GenerateResult) (guard_target : ℕ) (t : SyncTable)
        → Q t
        → Q (record_generate_outcome token now generated guard_target t).1
    unfolding record_generate_outcome
    record_generate_outcome-keeps generated guard_target t q =
        elim (Option-cases (guard_outcome_token generated.reason)) [
          | inl e ↦
              rw (e, record_generate_outcome)
                (record_as-keeps (pre_post_failure _) t _ q (λ t' q'. q'))
          | inr (g, e) ↦
              rw (e, record_generate_outcome)
                (record_as-keeps (guard_caught_up guard_target) t _ q (λ t' q'. q'))
        ]

    record_remote_outcome-keeps :
        (remote : RemoteSyncReport) (hash : String) (emitted target : ℕ) (w : World) (t : SyncTable)
        → Q t
        → Q (record_remote_outcome token now remote hash emitted target w t).1
    unfolding record_remote_outcome
    record_remote_outcome-keeps remote hash emitted target w t q =
        if-keeps remote.post_accepted _ _
          (record_as-keeps (accepted_post target hash) t _ q (λ t' q'.
            record_as-keeps (diagnosis _ _ _) (run w.before_diagnosis t') _
              (run-keeps w.before_diagnosis t' q') (λ t'' q''. q'')))
          (record_as-keeps (pre_post_failure _) t _ q (λ t' q'. q'))

    after_remote-keeps :
        (r : Reply RemoteSyncReport) (hash : String) (emitted target : ℕ) (w : World)
        (t : SyncTable)
        → Q t
        → Q (after_remote token now r hash emitted target w t).1
    after_remote-keeps (answered remote) hash emitted target w t q =
        record_remote_outcome-keeps remote hash emitted target w t q
    after_remote-keeps raised hash emitted target w t q = q
    after_remote-keeps timed_out hash emitted target w t q = q

    decide_remote-keeps :
        (force : Bool) (hash : String) (emitted target : ℕ) (w : World)
        (snap : Option SyncStateSnapshot) (t : SyncTable)
        → Q t
        → Q (decide_remote token now force hash emitted target w snap t).1
    unfolding decide_remote
    decide_remote-keeps force hash emitted target w none t q = q
    decide_remote-keeps force hash emitted target w (some snap) t q =
        if-keeps (not force && should_skip_remote_post (some hash) snap) _ _
          (record_as-keeps (hash_noop target) t _ q (λ t' q'. q'))
          (after_remote-keeps w.sync_remote hash emitted target w (run w.during_remote t)
            (run-keeps w.during_remote t q))

    checkpoint-keeps :
        (force : Bool) (hash : String) (emitted target : ℕ) (w : World) (t : SyncTable)
        → Q t
        → Q (checkpoint token now force hash emitted target w t).1
    unfolding checkpoint
    checkpoint-keeps force hash emitted target w t q =
        record_as-keeps (published_hash hash) t _ q (λ t' q'.
          decide_remote-keeps force hash emitted target w _ (run w.before_read t')
            (run-keeps w.before_read t' q'))

    publish_generated-keeps :
        (force : Bool) (guard_target target : ℕ) (w : World) (generated : GenerateResult)
        (t : SyncTable)
        → Q t
        → Q (publish_generated token now force guard_target target w generated t).1
    unfolding publish_generated
    publish_generated-keeps force guard_target target w generated t q =
        elim (Option-cases (published_of generated)) [
          | inl e ↦
              rw (e, publish_generated) (record_generate_outcome-keeps generated guard_target t q)
          | inr ((hash, emitted), e) ↦
              rw (e, publish_generated) (checkpoint-keeps force hash emitted target w t q)
        ]

    after_generate-keeps :
        (force : Bool) (guard_target target : ℕ) (w : World) (r : Reply GenerateResult)
        (t : SyncTable)
        → Q t
        → Q (after_generate token now force guard_target target w r t).1
    after_generate-keeps force guard_target target w (answered generated) t q =
        publish_generated-keeps force guard_target target w generated t q
    after_generate-keeps force guard_target target w raised t q = q
    after_generate-keeps force guard_target target w timed_out t q = q

    after_capture-keeps :
        (force : Bool) (guard_target : ℕ) (w : World)
        (r : Option (ℕ × SyncStateSnapshot) × SyncTable)
        → Q r.1
        → Q (after_capture token now force guard_target w r).1
    after_capture-keeps force guard_target w (none, t) q = q
    after_capture-keeps force guard_target w (some (target, s), t) q =
        after_generate-keeps force guard_target target w w.generate (run w.during_generate t)
          (run-keeps w.during_generate t q)

    after_preflight-keeps :
        (force : Bool) (guard_target : ℕ) (w : World) (r : Reply PreflightReport) (t : SyncTable)
        → Q t
        → Q (after_preflight token now force guard_target w r t).1
    after_preflight-keeps force guard_target w (answered pre) t q =
        if-keeps pre.ok _ _
          (after_capture-keeps force guard_target w (capture_target paisa now t)
            (unfold run_op in keep paisa now capture t q))
          (record_preflight_outcome-keeps pre guard_target t q)
    after_preflight-keeps force guard_target w raised t q = q
    after_preflight-keeps force guard_target w timed_out t q = q

    pub run_attempt_stages-keeps :
        (force : Bool) (guard_target : ℕ) (w : World) (t : SyncTable)
        → Q t
        → Q (run_attempt_stages token now force guard_target w t).1
    unfolding run_attempt_stages
    run_attempt_stages-keeps force guard_target w t q =
        after_preflight-keeps force guard_target w w.preflight (run w.during_preflight t)
          (run-keeps w.during_preflight t q)
