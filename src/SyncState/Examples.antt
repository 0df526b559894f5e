-- ===== src/SyncState/Examples.antt =====
-- The theorems of the sync-state row at concrete inputs, and tests of its operations.
use bank_email_fetcher.Prelude.{
  String, true, false, none, some, List, [], ◌∷◌, ◌≡◌, ◌≢◌, refl, arith, eq_iff,
}
use bank_email_fetcher.SyncState.Table.{
  Instant, ExtensionSyncState, SyncTable, set, seed, lease_stale, update_where,
}
use bank_email_fetcher.SyncState.Backoff.{backoff_minutes}
use bank_email_fetcher.SyncState.Eligibility.{should_skip_remote_post}
use bank_email_fetcher.SyncState.Lease.{lease_token_for, claim_lease, held}
use bank_email_fetcher.SyncState.Completion.{catch_up}
use bank_email_fetcher.SyncState.Dirty.{paisa, transactions, is_paisa_key}
use bank_email_fetcher.SyncState.Run.{
  hash_noop, accepted_post, pre_post_failure, Op, write, claim, complete, release, run_completion,
  run_op, run,
}
use bank_email_fetcher.SyncState.Effects.{compare_and_set, run_completion-compare_and_set}
use bank_email_fetcher.SyncState.Rows.{AllRows, set-AllRows}
use bank_email_fetcher.SyncState.Invariant.{IsSound, seed-IsValid, run-IsSound}
use bank_email_fetcher.SyncState.Fencing.{claim_lease-exclusive, takeover-fences}
use bank_email_fetcher.SyncState.Delivery.{
  After, IsSettled, IsPostponed, IsBehind, accepted_post-settles, pre_post_failure-retries,
  late_write-due,
}

abbrev no_rows : SyncTable
no_rows k = none

-- a row that the coordinator "c1" holds under the token "t1", three revisions in, two applied
abbrev busy : ExtensionSyncState
busy = record {
  columns = record {
    extension_id = "paisa";
    desired_revision = 3;
    applied_revision = 2;
    first_dirty_at = some 1000;
    last_dirty_at = some 2000;
    last_published_hash = some "h0";
    last_remote_hash = some "h0";
    last_healthy_hash = none;
    last_remote_attempt_at = some 500;
    next_attempt_at = none;
    failure_count = 0;
    diagnosis_state = none;
    force_reload = false;
    lease_owner = some "c1";
    lease_token = some "t1";
    lease_expires_at = some 90000000;
  };
  created_at = 0;
  updated_at = 2000;
}

-- the same, caught up
abbrev settled : ExtensionSyncState
settled = record busy {
  columns = record (busy.columns) {
    applied_revision = 3;
    first_dirty_at = none;
    last_dirty_at = none;
  };
}

abbrev board : SyncTable
board = set paisa busy no_rows

abbrev quiet_board : SyncTable
quiet_board = set paisa settled no_rows

abbrev fresh : SyncTable
fresh = set paisa (seed paisa true 0) no_rows

fresh-IsSound : AllRows IsSound fresh
unfolding seed
fresh-IsSound =
    set-AllRows IsSound paisa (seed paisa true 0) no_rows (λ k row e. cc)
      (refl, seed-IsValid paisa true 0)

abbrev steps : List (String × Instant × Op)
steps =
    (paisa, 10, claim "c1" none "t1" 90)
    ∷ (paisa, 20, write transactions)
    ∷ (paisa, 30, complete "t1" (accepted_post 1 "h1"))
    ∷ (paisa, 40, release "t1")
    ∷ []

run-IsSound_example : AllRows IsSound (run steps fresh)
run-IsSound_example = run-IsSound steps fresh fresh-IsSound

run_completion-compare_and_set_example :
    run_completion paisa "t2" 50 (hash_noop 3) board
    ≡ compare_and_set paisa "t2" 50 (hash_noop 3) board (board paisa)
run_completion-compare_and_set_example =
    run_completion-compare_and_set paisa "t2" 50 (hash_noop 3) board

claimed_fresh : (claim_lease "c1" none "t1" paisa 90 10 fresh).0.claimed ≡ true
unfolding claim_lease update_where seed
claimed_fresh = refl

claim_lease-exclusive_example :
    let t' = (claim_lease "c1" none "t1" paisa 90 10 fresh).1 in
    let (second_claim, t'') = claim_lease "c2" none "t2" paisa 90 5000000 t' in
    (second_claim.claimed ≡ false) × (second_claim.reason ≡ held) × (t'' ≡ t')
claim_lease-exclusive_example =
    claim_lease-exclusive "c1" "c2" none none "t1" "t2" paisa 90 90 10 5000000 fresh claimed_fresh
      (omega arith)

taken_over : (claim_lease "c2" none "t2" paisa 90 90000001 board).0.claimed ≡ true
unfolding claim_lease update_where
taken_over = refl

t2_is_new : ◌≢◌ {A = String} "t2" "t1"
t2_is_new = ground (arith, eq_iff "t2" "t1")

takeover-fences_example :
    let t' =
      run
        ((paisa, 90000002, write transactions) ∷ [])
        (claim_lease "c2" none "t2" paisa 90 90000001 board).1 in
    run_completion paisa "t1" 90000003 (accepted_post 3 "h1") t' ≡ (lease_stale paisa "t1", t')
unfolding lease_token_for
takeover-fences_example =
    takeover-fences "c2" none "t2" paisa "t1" 90 90000001 board
      ((paisa, 90000002, write transactions) ∷ []) 90000003 (accepted_post 3 "h1") taken_over
      t2_is_new (tt, tt)

accepted_post-settles_example :
    After paisa
      (run_completion paisa "t1" 60 (accepted_post 3 "h1") board).1
      (IsSettled 3 "h1" 1000000)
accepted_post-settles_example =
    accepted_post-settles paisa "t1" 60 board busy refl refl "h1" 1000000 (omega arith)

pre_post_failure-retries_example :
    After paisa
      (run_completion paisa "t1" 60 (pre_post_failure backoff_minutes) board).1
      (IsPostponed busy 59000000 900000060)
pre_post_failure-retries_example =
    pre_post_failure-retries paisa "t1" 60 board busy refl refl 1000 59000000 900000060
      (omega arith) refl (omega arith) (omega arith) (omega arith)

late_write-due_example :
    After paisa
      (run_completion paisa "t1" 3000
        (accepted_post 3 "h1")
        (run_op paisa 2500 (write transactions) board)).1
      (IsBehind 3 1000 31000000)
late_write-due_example =
    late_write-due "t1" "h1" 2500 3000 1000 31000000 board busy refl refl refl (omega arith)

-- The source keeps `applied_revision` from passing the desired one, not from falling: a target
-- older than the row moves it back.
old_target_moves_back : (catch_up 1 none 60 busy).applied_revision ≡ 1
unfolding catch_up
old_target_moves_back = refl

settings_keys :
    (is_paisa_key "paisa.mode" ≡ true)
    × (is_paisa_key "Paisa.mode" ≡ true)
    × (is_paisa_key "paisa_mode" ≡ false)
unfolding is_paisa_key
settings_keys = (refl, refl, refl)

skips_same_bytes :
    (should_skip_remote_post (some "h0") busy.columns ≡ true)
    × (should_skip_remote_post none busy.columns ≡ false)
unfolding should_skip_remote_post
skips_same_bytes = (refl, refl)
