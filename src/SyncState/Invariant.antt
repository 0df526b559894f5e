-- ===== src/SyncState/Invariant.antt =====
-- What holds of every row of the table, whatever the coordinators, the operators and the writes to
-- the core tables do, and in whatever order.
use bank_email_fetcher.Prelude.{
  ℕ, ◌+◌, ◌*◌, ◌≤◌, String, All, ◌∙◌, Bool, true, false, Option, none, some, List, [], ◌∷◌, ◌≡◌,
  refl, arith, is_none, ◌||◌, ltb, eqb,
}
use bank_email_fetcher.SyncState.Table.{Instant, ExtensionSyncState, SyncTable, seed}
use bank_email_fetcher.SyncState.Backoff.{second}
use bank_email_fetcher.SyncState.Lease.{lease_token_for, grant, extend, clear_lease, holds}
use bank_email_fetcher.SyncState.Completion.{
  publish, catch_up, settle, note_state, arm, miss, healthy, accepted, fatal, unknown, other,
}
use bank_email_fetcher.SyncState.Admin.{flag_reload, rewind}
use bank_email_fetcher.SyncState.Dirty.{bump}
use bank_email_fetcher.SyncState.Run.{
  Completion, published_hash, hash_noop, guard_caught_up, accepted_post, diagnosis,
  pre_post_failure, Op, run,
}
use bank_email_fetcher.SyncState.Effects.{effect}
use bank_email_fetcher.SyncState.Rows.{AllRows, Laws, run-AllRows}

-- The applied revision never passes the desired one (the CHECK constraint of the table); an open
-- dirty window means that it is behind; the two ends of the window, the three lease columns and the
-- two retry columns are set and cleared together.
pub record IsValid (row : ExtensionSyncState) : Type 0 where
  pub applied_capped : row.applied_revision ≤ row.desired_revision
  pub window_is_behind :
      (is_none row.first_dirty_at || ltb row.applied_revision row.desired_revision) ≡ true
  pub window_whole : is_none row.first_dirty_at ≡ is_none row.last_dirty_at
  pub owner_with_token : is_none row.lease_owner ≡ is_none row.lease_token
  pub expiry_with_token : is_none row.lease_expires_at ≡ is_none row.lease_token
  pub retry_with_count : is_none row.next_attempt_at ≡ eqb row.failure_count 0

pub seed-IsValid : (eid : String) (flag : Bool) (now : Instant) → IsValid (seed eid flag now)
unfolding seed
seed-IsValid eid flag now = ground arith

pub grant-IsValid :
    (owner token : String) (expires now : Instant) (row : ExtensionSyncState)
    → IsValid row
    → IsValid (grant owner token expires now row)
unfolding grant
grant-IsValid owner token expires now row h = ground arith

pub extend-IsValid :
    (token : String) (expires now : Instant) (row : ExtensionSyncState)
    → holds token row ≡ true
    → IsValid row
    → IsValid (extend expires now row)
unfolding extend
extend-IsValid token expires now row g h = ground arith

pub clear_lease-IsValid :
    (now : Instant) (row : ExtensionSyncState) → IsValid row → IsValid (clear_lease now row)
unfolding clear_lease
clear_lease-IsValid now row h = ground arith

pub flag_reload-IsValid :
    (flag : Bool) (now : Instant) (row : ExtensionSyncState)
    → IsValid row
    → IsValid (flag_reload flag now row)
unfolding flag_reload
flag_reload-IsValid flag now row h = ground arith

pub rewind-IsValid : (now : Instant) (row : ExtensionSyncState) → IsValid (rewind now row)
unfolding rewind
rewind-IsValid now row = ground arith

pub bump-IsValid :
    (reset_backoff : Bool) (now : Instant) (row : ExtensionSyncState)
    → IsValid row
    → IsValid (bump reset_backoff now row)
unfolding bump
bump-IsValid true now row h = ground arith
bump-IsValid false now row h = ground arith

pub catch_up-IsValid :
    (target : ℕ) (remote_hash : Option String) (now : Instant) (row : ExtensionSyncState)
    → IsValid row
    → IsValid (catch_up target remote_hash now row)
unfolding catch_up
catch_up-IsValid target none now row h = ground arith
catch_up-IsValid target (some hash) now row h = ground arith

pub effect-IsValid :
    (now : Instant) (c : Completion) (row : ExtensionSyncState)
    → IsValid row
    → IsValid (effect now c row)
unfolding publish settle note_state arm miss
effect-IsValid now (published_hash hash) row h = ground arith
effect-IsValid now (hash_noop target) row h = catch_up-IsValid target none now row h
effect-IsValid now (guard_caught_up target) row h = catch_up-IsValid target none now row h
effect-IsValid now (accepted_post target hash) row h = catch_up-IsValid target (some hash) now row h
effect-IsValid now (diagnosis healthy hash minutes) row h = ground arith
effect-IsValid now (diagnosis accepted hash minutes) row h = ground arith
effect-IsValid now (diagnosis unknown hash minutes) row h = ground arith
effect-IsValid now (diagnosis fatal hash minutes) row h = ground arith
effect-IsValid now (diagnosis (other state) hash minutes) row h = h
effect-IsValid now (pre_post_failure minutes) row h = ground arith

-- The row stands under its own key, and is valid.
abbrev pub IsSound : String → ExtensionSyncState → Type 0
IsSound eid row = (row.extension_id ≡ eid) × IsValid row

abbrev AnyOp : String → Op → Type 0
AnyOp eid op = Unit

extension_id-catch_up :
    (target : ℕ) (remote_hash : Option String) (now : Instant) (row : ExtensionSyncState)
    → (catch_up target remote_hash now row).extension_id ≡ row.extension_id
unfolding catch_up
extension_id-catch_up target none now row = ground arith
extension_id-catch_up target (some hash) now row = ground arith

extension_id-effect :
    (now : Instant) (c : Completion) (row : ExtensionSyncState)
    → (effect now c row).extension_id ≡ row.extension_id
unfolding publish settle note_state arm miss
extension_id-effect now (published_hash hash) row = refl
extension_id-effect now (hash_noop target) row = extension_id-catch_up target none now row
extension_id-effect now (guard_caught_up target) row = extension_id-catch_up target none now row
extension_id-effect now (accepted_post target hash) row =
    extension_id-catch_up target (some hash) now row
extension_id-effect now (diagnosis healthy hash minutes) row = refl
extension_id-effect now (diagnosis accepted hash minutes) row = refl
extension_id-effect now (diagnosis unknown hash minutes) row = refl
extension_id-effect now (diagnosis fatal hash minutes) row = refl
extension_id-effect now (diagnosis (other state) hash minutes) row = refl
extension_id-effect now (pre_post_failure minutes) row = refl

extension_id-bump :
    (reset_backoff : Bool) (now : Instant) (row : ExtensionSyncState)
    → (bump reset_backoff now row).extension_id ≡ row.extension_id
unfolding bump
extension_id-bump true now row = refl
extension_id-bump false now row = refl

IsSound-laws : Laws IsSound AnyOp
unfolding seed grant extend clear_lease flag_reload rewind
IsSound-laws = record {
  on_seed = λ eid flag now. (refl, seed-IsValid eid flag now);
  on_grant = λ eid owner given minted ttl now row _ h.
      (h.0, grant-IsValid owner (lease_token_for given minted) (now + ttl * second) now row h.1);
  on_extend = λ eid token expires now row g h. (h.0, extend-IsValid token expires now row g h.1);
  on_clear = λ eid now row h. (h.0, clear_lease-IsValid now row h.1);
  on_flag = λ eid flag now row h. (h.0, flag_reload-IsValid flag now row h.1);
  on_rewind = λ eid now row h. (h.0, rewind-IsValid now row);
  on_bump = λ eid reset_backoff now row h.
      (extension_id-bump reset_backoff now row ∙ h.0, bump-IsValid reset_backoff now row h.1);
  on_effect =
      λ eid now c row h. (extension_id-effect now c row ∙ h.0, effect-IsValid now c row h.1);
}

All-allowed : (steps : List (String × Instant × Op)) → All (λ s. AnyOp s.0 s.2) steps
All-allowed [] = tt
All-allowed (s ∷ steps) = (tt, All-allowed steps)

-- Whatever operations run, on any extensions, in any order and at any instants, every row of the
-- table stands under its own key, its applied revision does not pass the desired one, an open dirty
-- window means that it is behind, and the dirty window, the lease columns and the retry columns are
-- each set and cleared together.
pub run-IsSound :
    (steps : List (String × Instant × Op)) (t : SyncTable)
    → AllRows IsSound t
    → AllRows IsSound (run steps t)
run-IsSound steps t h = run-AllRows IsSound-laws steps t (All-allowed steps) h
