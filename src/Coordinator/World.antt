-- ===== src/Coordinator/World.antt =====
-- What one attempt of financial_dashboard/services/paisa/coordinator.py meets: the answers of the
-- three seams, and the steps of other sessions.
use text.Mathlib.Text.{◌==◌}
use bank_email_fetcher.Prelude.{
  ℕ, String, Bool, true, false, ◌||◌, Option, none, some, List, ltb, if◌then◌else◌,
}
use bank_email_fetcher.SyncState.Table.{Instant}
use bank_email_fetcher.SyncState.Completion.{Diagnosis, healthy, accepted, fatal, unknown}
use bank_email_fetcher.SyncState.Run.{Op}

-- `PreflightReport`; its outcome is one of the texts of `SyncOutcome`
pub record PreflightReport : Type 0 where
  pub ok : Bool
  pub outcome : Option String
  pub reason : Option String

-- `GenerateResult`: of the projection report its `emitted_count`, of the publish result its
-- `body_hash`
pub record GenerateResult : Type 0 where
  pub ok : Bool
  pub report : Option ℕ
  pub publish : Option String
  pub reason : Option String

pub record RemoteSyncReport : Type 0 where
  pub ok : Bool
  pub outcome : String
  pub post_accepted : Bool
  pub diagnosis_ok : Option Bool
  pub diagnosis_accepted : Option ℕ
  pub reason : Option String

-- What a call of a seam comes to: it returns, it raises, or the attempt times out in it.
pub data Reply (A : Type 0) : Type 0 where
  answered : A → Reply A
  raised : Reply A
  timed_out : Reply A

abbrev pub Steps : Type 0
Steps = List (String × Instant × Op)

-- The steps are those that commit after the own transaction before them, and before the next one.
-- A heartbeat of the attempt itself is such a step. The release of the lease commits, or it raises
-- and is rolled back.
pub record World : Type 0 where
  pub before_claim : Steps
  pub during_preflight : Steps
  pub preflight : Reply PreflightReport
  pub during_generate : Steps
  pub generate : Reply GenerateResult
  pub before_read : Steps
  pub during_remote : Steps
  pub sync_remote : Reply RemoteSyncReport
  pub before_diagnosis : Steps
  pub before_release : Steps
  pub release_commits : Bool

-- `outcome in GUARD_OUTCOMES`
unfoldable pub is_guard : String → Bool
is_guard outcome = outcome == "disabled" || outcome == "connect_only" || outcome == "not_configured"

-- `outcome in FAILURE_OUTCOMES`
unfoldable pub is_failure : String → Bool
is_failure outcome =
    outcome == "unreachable"
    || outcome == "readonly"
    || outcome == "unsupported_backend"
    || outcome == "publish_failed"
    || outcome == "sync_rejected"
    || outcome == "diagnosis_failed"
    || outcome == "generate_failed"
    || outcome == "error"

-- `(remote.diagnosis_accepted or 0) > 0`
abbrev pub some_accepted : Option ℕ → Bool
some_accepted none = false
some_accepted (some n) = ltb 0 n

-- `_classify_diagnosis`
unfoldable pub classify_diagnosis : RemoteSyncReport → String → Diagnosis × Option String
classify_diagnosis remote body_hash = elim remote.diagnosis_ok [
  | some true ↦
      (if some_accepted remote.diagnosis_accepted then accepted else healthy, some body_hash)
  | some false ↦ (fatal, none)
  | none ↦ (unknown, none)
]
