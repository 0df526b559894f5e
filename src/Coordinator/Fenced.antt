-- ===== src/Coordinator/Fenced.antt =====
-- An attempt of the coordinator that has lost its lease.
use bank_email_fetcher.Prelude.{
  ℕ, String, Bool, true, false, Option, none, some, [], ◌∷◌, ◌≡◌, refl, inl, inr, All, Option-cases,
  if◌then◌else◌,
}
use bank_email_fetcher.SyncState.Table.{Instant, SyncStateSnapshot, SyncTable}
use bank_email_fetcher.SyncState.Backoff.{backoff_minutes}
use bank_email_fetcher.SyncState.Admin.{capture_target}
use bank_email_fetcher.SyncState.Dirty.{paisa}
use bank_email_fetcher.SyncState.Guards.{IsStale}
use bank_email_fetcher.SyncState.Run.{
  published_hash, guard_caught_up, pre_post_failure, capture, run_op, run,
}
use bank_email_fetcher.SyncState.Effects.{run_completion_stale}
use bank_email_fetcher.SyncState.Fencing.{ClaimsOther, IsStale-run}
use bank_email_fetcher.Coordinator.World.{
  PreflightReport, GenerateResult, Reply, answered, raised, timed_out, Steps, World, is_guard,
}
use bank_email_fetcher.Coordinator.Results.{
  Ending, finished, or_error, guard_outcome_token, published_of,
}
use bank_email_fetcher.Coordinator.Stages.{
  record_preflight_outcome, record_generate_outcome, checkpoint, publish_generated, after_generate,
  after_capture, after_preflight, run_attempt_stages,
}

abbrev pub is_finished : Ending → Bool
is_finished (finished result) = true
is_finished ending = false

-- no result, and a table in which the token is still stale
abbrev pub IsAbandoned : String → Ending × SyncTable → Type 0
IsAbandoned token (ending, t) = (is_finished ending ≡ false) × IsStale paisa token t

-- none of the steps claims the lease with the token
abbrev pub ClaimOthers : String → Steps → Type 0
ClaimOthers token = All (λ s. ClaimsOther paisa token s.0 s.2)

if-IsAbandoned :
    (token : String) (b : Bool) (x y : Ending × SyncTable)
    → IsAbandoned token x
    → IsAbandoned token y
    → IsAbandoned token (if b then x else y)
if-IsAbandoned token true x y p q = p
if-IsAbandoned token false x y p q = q

module _ (token : String) (now : Instant) where
  record_preflight_outcome-IsAbandoned :
      (pre : PreflightReport) (guard_target : ℕ) (t : SyncTable)
      → IsStale paisa token t
      → IsAbandoned token (record_preflight_outcome token now pre guard_target t)
  unfolding record_preflight_outcome
  record_preflight_outcome-IsAbandoned pre guard_target t h =
      if-IsAbandoned token (is_guard (or_error pre.outcome)) _ _
        (rw (run_completion_stale paisa token now t (guard_caught_up guard_target) h) (refl, h))
        (rw (run_completion_stale paisa token now t (pre_post_failure backoff_minutes) h) (refl, h))

  record_generate_outcome-IsAbandoned :
      (generated : GenerateResult) (guard_target : ℕ) (t : SyncTable)
      → IsStale paisa token t
      → IsAbandoned token (record_generate_outcome token now generated guard_target t)
  unfolding record_generate_outcome
  record_generate_outcome-IsAbandoned generated guard_target t h =
      elim (Option-cases (guard_outcome_token generated.reason)) [
        | inl e ↦
            rw (e, record_generate_outcome)
              (rw (run_completion_stale paisa token now t (pre_post_failure backoff_minutes) h)
                (refl, h))
        | inr (g, e) ↦
            rw (e, record_generate_outcome)
              (rw (run_completion_stale paisa token now t (guard_caught_up guard_target) h)
                (refl, h))
      ]

  publish_generated-IsAbandoned :
      (force : Bool) (guard_target target : ℕ) (w : World) (generated : GenerateResult)
      (t : SyncTable)
      → IsStale paisa token t
      → IsAbandoned token (publish_generated token now force guard_target target w generated t)
  unfolding publish_generated checkpoint
  publish_generated-IsAbandoned force guard_target target w generated t h =
      elim (Option-cases (published_of generated)) [
        | inl e ↦
            rw (e, publish_generated)
              (record_generate_outcome-IsAbandoned generated guard_target t h)
        | inr ((hash, emitted), e) ↦
            rw (e, publish_generated)
              (rw (run_completion_stale paisa token now t (published_hash hash) h) (refl, h))
      ]

  after_generate-IsAbandoned :
      (force : Bool) (guard_target target : ℕ) (w : World) (r : Reply GenerateResult)
      (t : SyncTable)
      → IsStale paisa token t
      → IsAbandoned token (after_generate token now force guard_target target w r t)
  after_generate-IsAbandoned force guard_target target w (answered generated) t h =
      publish_generated-IsAbandoned force guard_target target w generated t h
  after_generate-IsAbandoned force guard_target target w raised t h = (refl, h)
  after_generate-IsAbandoned force guard_target target w timed_out t h = (refl, h)

  module _ (force : Bool) (guard_target : ℕ) (w : World)
      (generating : ClaimOthers token w.during_generate) where
    after_capture-IsAbandoned :
        (r : Option (ℕ × SyncStateSnapshot) × SyncTable)
        → IsStale paisa token r.1
        → IsAbandoned token (after_capture token now force guard_target w r)
    after_capture-IsAbandoned (none, t) h = (refl, h)
    after_capture-IsAbandoned (some (target, s), t) h =
        after_generate-IsAbandoned force guard_target target w w.generate (run w.during_generate t)
          (IsStale-run paisa token w.during_generate t generating h)

    capture_target-IsStale :
        (t : SyncTable) → IsStale paisa token t → IsStale paisa token (capture_target paisa now t).1
    unfolding run run_op
    capture_target-IsStale t h = IsStale-run paisa token ((paisa, now, capture) ∷ []) t (tt, tt) h

    after_preflight-IsAbandoned :
        (r : Reply PreflightReport) (t : SyncTable)
        → IsStale paisa token t
        → IsAbandoned token (after_preflight token now force guard_target w r t)
    after_preflight-IsAbandoned (answered pre) t h =
        if-IsAbandoned token pre.ok _ _
          (after_capture-IsAbandoned (capture_target paisa now t) (capture_target-IsStale t h))
          (record_preflight_outcome-IsAbandoned pre guard_target t h)
    after_preflight-IsAbandoned raised t h = (refl, h)
    after_preflight-IsAbandoned timed_out t h = (refl, h)

    -- An attempt whose token the row does not store, and which no other session claims meanwhile, comes
    -- to no result: whatever the preflight and the generator answer, it ends with a stale lease, an
    -- exception or a timeout, and the row does not get its token back.
    pub run_attempt_stages-IsAbandoned :
        (t : SyncTable)
        → ClaimOthers token w.during_preflight
        → IsStale paisa token t
        → IsAbandoned token (run_attempt_stages token now force guard_target w t)
    unfolding run_attempt_stages
    run_attempt_stages-IsAbandoned t checking h =
        after_preflight-IsAbandoned w.preflight (run w.during_preflight t)
          (IsStale-run paisa token w.during_preflight t checking h)
