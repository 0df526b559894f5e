-- ===== src/Cycle.antt =====
-- The billing cycles of a credit card: financial_dashboard/services/cc_cycle.py. A date is the number
-- of a day, and an instant one of microseconds, in UTC.
pub mod Order
pub mod Places
pub mod Rows
pub mod Partition
mod Examples
use text.Mathlib.Text.{◌==◌}
use Prim.Native.Nat.{◌/◌}
use bank_email_fetcher.Prelude.{
  ℕ, suc, ◌*◌, String, Bool, true, false, ◌&&◌, ◌||◌, Option, none, some, List, [], ◌∷◌, ltb, leb,
  eqb, if◌then◌else◌,
}

-- the columns of `StatementUpload` (financial_dashboard/db/models.py) that a window depends on
pub record StatementUpload : Type 0 where
  pub id : ℕ
  pub account_id : ℕ
  pub due_date : Option String
  pub created_at : Option ℕ

-- `CycleWindow`
pub record CycleWindow : Type 0 where
  pub start : ℕ
  pub end : Option ℕ

-- a row of `anchors`
pub record Anchor : Type 0 where
  pub due : ℕ
  pub id : ℕ
  pub created_at : Option ℕ

abbrev pub day : ℕ
day = 86400000000

-- .date()
abbrev pub date_of : ℕ → ℕ
date_of t = t / day

abbrev pub dates : Option ℕ → Option ℕ
dates none = none
dates (some t) = some (date_of t)

abbrev pub or_now : Option ℕ → ℕ → ℕ
or_now none now = now
or_now (some t) now = t

-- `_boundary`
unfoldable pub boundary : Option ℕ → Option ℕ → Option ℕ
boundary (some earlier_due) later_created = some (suc earlier_due)
boundary none later_created = dates later_created

-- key=lambda a: (a[0], a[1]), compared as Python compares tuples
unfoldable pub before : Anchor → Anchor → Bool
before a b = ltb a.due b.due || (eqb a.due b.due && leb a.id b.id)

-- anchors.sort: what a stable sort does
unfoldable pub insert : Anchor → List Anchor → List Anchor
insert a [] = a ∷ []
insert a (b ∷ bs) = let rest = insert a bs in if before a b then a ∷ b ∷ bs else b ∷ rest

unfoldable pub sort : List Anchor → List Anchor
sort [] = []
sort (a ∷ xs) = insert a (sort xs)

abbrev pub head : List Anchor → Option Anchor
head [] = none
head (a ∷ xs) = some a

-- anchors[idx - 1] and anchors[idx + 1] for the first anchor with this id, where there are such
unfoldable pub neighbours : ℕ → Option Anchor → List Anchor → Option (Option Anchor × Option Anchor)
neighbours id prev [] = none
neighbours id prev (a ∷ xs) =
    let rest = neighbours id (some a) xs in if eqb a.id id then some (prev, head xs) else rest

abbrev pub due_of : Option Anchor → Option ℕ
due_of none = none
due_of (some a) = some a.due

-- _boundary(this_due, next_created) if has_next else None
abbrev pub end_of : ℕ → Option Anchor → Option ℕ
end_of this_due none = none
end_of this_due (some next) = boundary (some this_due) next.created_at

abbrev pub window_between :
    ℕ → StatementUpload → ℕ → Option (Option Anchor × Option Anchor) → CycleWindow
window_between now upload this_due none = record {
  start = or_now (boundary none upload.created_at) (date_of (or_now upload.created_at now));
  end = none;
}
window_between now upload this_due (some (prev, next)) = record {
  start =
      or_now (boundary (due_of prev) upload.created_at) (date_of (or_now upload.created_at now));
  end = end_of this_due next;
}

-- the earlier of two instants, where there are such
abbrev pub earliest : ℕ → Option ℕ → Option ℕ
earliest t none = some t
earliest t (some u) = if leb t u then some t else some u

-- WHERE created_at > upload.created_at, which NULL is not
abbrev pub is_later : Option ℕ → Option ℕ → Bool
is_later (some t) (some u) = ltb u t
is_later none u = false
is_later (some t) none = false

-- the first `created_at` of the account that is later than the one given
unfoldable pub next_created : ℕ → Option ℕ → List StatementUpload → Option ℕ
next_created account created [] = none
next_created account created (row ∷ rows) =
    let rest = next_created account created rows in
    if eqb row.account_id account && is_later row.created_at created
    then earliest (or_now row.created_at 0) rest
    else rest

-- `parse_cc_date`: the date that a text reads as, where it reads as one. The reading is that of
-- the date parser, a package (python-dateutil, through core/dates.py).
module _ (parse_cc_date : String → Option ℕ) where
  -- `_due`
  unfoldable pub due : Option String → Option ℕ
  due none = none
  due (some due_text) = if due_text == "" then none else parse_cc_date due_text

  abbrev pub add_anchor : StatementUpload → Option ℕ → List Anchor → List Anchor
  add_anchor row none rest = rest
  add_anchor row (some due_on) rest =
      record { due = due_on; id = row.id; created_at = row.created_at } ∷ rest

  -- the anchors of the account, from the rows of the SELECT
  unfoldable pub anchors : ℕ → List StatementUpload → List Anchor
  anchors account [] = []
  anchors account (row ∷ rows) =
      let rest = anchors account rows in
      if eqb row.account_id account then add_anchor row (due row.due_date) rest else rest

  abbrev pub window_due : ℕ → List StatementUpload → StatementUpload → Option ℕ → CycleWindow
  window_due now uploads upload none = record {
    start = date_of (or_now upload.created_at now);
    end = dates (next_created upload.account_id upload.created_at uploads);
  }
  window_due now uploads upload (some this_due) =
      window_between now upload this_due
        (neighbours upload.id none (sort (anchors upload.account_id uploads)))

  unfoldable pub cc_cycle_window : ℕ → List StatementUpload → StatementUpload → CycleWindow
  cc_cycle_window now uploads upload = window_due now uploads upload (due upload.due_date)

abbrev pub is_below : ℕ → Option ℕ → Bool
is_below d none = true
is_below d (some e) = ltb d e

abbrev pub in_window : ℕ → CycleWindow → Bool
in_window d window = leb window.start d && is_below d window.end

abbrev pub starts : Option ℕ → Option ℕ
starts none = none
starts (some d) = some (d * day)

-- `transactions_in_cycle`, on the columns transaction_date and created_at of a row: the date-less
-- row is compared with the midnights of the two edges
unfoldable pub transactions_in_cycle : CycleWindow → Option ℕ → ℕ → Bool
transactions_in_cycle window (some transaction_date) created_at = in_window transaction_date window
transactions_in_cycle window none created_at =
    leb (window.start * day) created_at && is_below created_at (starts window.end)
