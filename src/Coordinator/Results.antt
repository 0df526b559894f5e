-- ===== src/Coordinator/Results.antt =====
-- The results of an attempt of financial_dashboard/services/paisa/coordinator.py, and how its reports
-- are read.
use text.Mathlib.Text.{◌==◌}
use bank_email_fetcher.Prelude.{
  ℕ, String, Bool, true, false, ◌||◌, Option, none, some, codes, contains, lower, is_empty,
  if◌then◌else◌,
}
use bank_email_fetcher.SyncState.Table.{
  SyncStateSnapshot, SyncTable, Outcome, done, lease_stale, unknown_state,
}
use bank_email_fetcher.SyncState.Completion.{Diagnosis, healthy, accepted}
use bank_email_fetcher.Coordinator.World.{GenerateResult}

pub data Status : Type 0 where
  success skipped failure : Status

-- `AttemptResult`: `attempted` is true in every result, and `details` is for the reader of the
-- audit row. `error` is the text before `sanitize_error` masks its secrets.
pub record AttemptResult : Type 0 where
  pub status : Status
  pub outcome : String
  pub output_hash : Option String
  pub emitted_count : Option ℕ
  pub error : Option String
  pub notify_failure : Bool

-- How the stages end: with a result, with a LeaseStaleError, with another exception, or cut off.
pub data Ending : Type 0 where
  finished : AttemptResult → Ending
  stale_lease exception timeout : Ending

-- A completion in a transaction of its own, and what follows where it does not raise.
abbrev pub record_then :
    Outcome SyncStateSnapshot × SyncTable → (SyncTable → Ending × SyncTable) → Ending × SyncTable
record_then (done s, t) next = next t
record_then (lease_stale eid token, t) next = (stale_lease, t)
record_then (unknown_state state, t) next = (exception, t)

-- `outcome or "error"`, which replaces the empty text too
abbrev pub or_error : Option String → String
or_error none = "error"
or_error (some outcome) = if outcome == "" then "error" else outcome

abbrev pub text_or_empty : Option String → String
text_or_empty none = ""
text_or_empty (some text) = text

-- `_guard_outcome_token`
unfoldable pub guard_outcome_token : Option String → Option String
guard_outcome_token reason =
    let text = lower (codes (text_or_empty reason)) in
    if is_empty text
    then none
    else if contains (codes "disabled") text
    then some "disabled"
    else if contains (codes "connect_only") text
    then some "connect_only"
    else if contains (codes "not_configured") text
        || contains (codes "generated_path") text
        || contains (codes "cutover") text
        || contains (codes "selected account") text
    then some "not_configured"
    else none

abbrev pub skipped_result : String → AttemptResult
skipped_result outcome = record {
  status = skipped;
  outcome = outcome;
  output_hash = none;
  emitted_count = none;
  error = none;
  notify_failure = false;
}

abbrev pub failed_result : String → Option String → Bool → AttemptResult
failed_result outcome reason notify = record {
  status = failure;
  outcome = outcome;
  output_hash = none;
  emitted_count = none;
  error = reason;
  notify_failure = notify;
}

abbrev pub both : Option String → Option ℕ → Option (String × ℕ)
both (some body_hash) (some emitted) = some (body_hash, emitted)
both none report = none
both (some body_hash) none = none

-- the hash and the count, unless `not generated.ok or generated.report is None or
-- generated.publish is None`
unfoldable pub published_of : GenerateResult → Option (String × ℕ)
published_of generated = if generated.ok then both generated.publish generated.report else none

abbrev pub passes : Diagnosis → Bool
passes healthy = true
passes accepted = true
passes state = false
