-- ===== src/SyncState/Run.antt =====
-- One call of an operation of financial_dashboard/services/paisa/sync_state.py, or one write that
-- fires the triggers of financial_dashboard/db/init_db.py, as a step on the table; and runs of such
-- steps in any order, by any number of coordinators.
use bank_email_fetcher.Prelude.{ℕ, String, Bool, Option, List, [], ◌∷◌}
use bank_email_fetcher.SyncState.Table.{
  Instant, SyncStateSnapshot, SyncTable, Outcome, ensure_sync_state,
}
use bank_email_fetcher.SyncState.Lease.{claim_lease, heartbeat_lease, release_lease}
use bank_email_fetcher.SyncState.Completion.{
  Diagnosis, on_done, record_published_hash, record_hash_noop, record_guard_caught_up,
  record_accepted_post, record_diagnosis, record_pre_post_failure,
}
use bank_email_fetcher.SyncState.Admin.{set_force_reload, reset_sync_state, capture_target}
use bank_email_fetcher.SyncState.Dirty.{Write, fire}

-- the completions: what a run may write, under the token that it claimed
pub data Completion : Type 0 where
  published_hash : String → Completion
  hash_noop : ℕ → Completion
  guard_caught_up : ℕ → Completion
  accepted_post : ℕ → String → Completion
  diagnosis : Diagnosis → Option String → List ℕ → Completion
  pre_post_failure : List ℕ → Completion

pub data Op : Type 0 where
  write : Write → Op
  ensure : Op
  -- owner, token given, token minted, seconds to live
  claim : String → Option String → String → ℕ → Op
  heartbeat : String → ℕ → Op
  release : String → Op
  capture : Op
  complete : String → Completion → Op
  force : Bool → Op
  reset : Op

unfoldable pub run_completion :
    String → String → Instant → Completion → SyncTable → Outcome SyncStateSnapshot × SyncTable
run_completion eid token now (published_hash hash) t = record_published_hash hash token eid now t
run_completion eid token now (hash_noop target) t =
    on_done (λ a. a.snapshot) (record_hash_noop target token eid now t)
run_completion eid token now (guard_caught_up target) t =
    on_done (λ a. a.snapshot) (record_guard_caught_up target token eid now t)
run_completion eid token now (accepted_post target hash) t =
    on_done (λ a. a.snapshot) (record_accepted_post target hash token eid now t)
run_completion eid token now (diagnosis state hash minutes) t =
    record_diagnosis state token hash eid now minutes t
run_completion eid token now (pre_post_failure minutes) t =
    record_pre_post_failure token eid now minutes t

unfoldable pub run_op : String → Instant → Op → SyncTable → SyncTable
run_op eid now (write w) t = fire w now t
run_op eid now ensure t = (ensure_sync_state eid now t).1
run_op eid now (claim owner token minted ttl) t = (claim_lease owner token minted eid ttl now t).1
run_op eid now (heartbeat token ttl) t = (heartbeat_lease token ttl eid now t).1
run_op eid now (release token) t = (release_lease token eid now t).1
run_op eid now capture t = (capture_target eid now t).1
run_op eid now (complete token c) t = (run_completion eid token now c t).1
run_op eid now (force enabled) t = (set_force_reload enabled eid now t).1
run_op eid now reset t = (reset_sync_state eid now t).1

-- A run: each step with the extension it is about and the instant at which it runs.
unfoldable pub run : List (String × Instant × Op) → SyncTable → SyncTable
run [] t = t
run ((eid, now, op) ∷ ops) t = run ops (run_op eid now op t)
