-- ===== src/Sms/Cards.antt =====
-- The search among the cards of a bank: financial_dashboard/services/cc_disambiguation.py, with
-- `latest_per_account` of reminders.py and `parse_cc_amount` of statements/cc.py beside it.
use Prim.Native.Nat.{◌^◌}
use bank_email_fetcher.Prelude.{
  ℕ, ◌+◌, ◌*◌, ◌-◌, String, Bool, true, false, ◌&&◌, ◌||◌, not, Option, none, some, List, [], ◌∷◌,
  codes, codes_eq, eqb, ltb, str_eq, is_digit, is_none, length, strip, if◌then◌else◌,
}
use bank_email_fetcher.Prelude.Int.{ℤ, pos, negsuc, ◌-ℤ◌, neg, abs}
use bank_email_fetcher.Linker.Context.{Account}
use bank_email_fetcher.Merge.Decimal.{Decimal, dec_eq}
use bank_email_fetcher.Merge.Row.{Text, Transaction}
use bank_email_fetcher.Sms.Accounts.{AccountChoice}

-- the columns of `StatementUpload` (financial_dashboard/db/models.py) that the search reads
pub record Upload : Type 0 where
  pub account_id : ℕ
  pub due_date : Option Text
  pub total_amount_due : Option Text
  pub payment_status : Option String
  pub payment_paid_amount : Option Decimal

-- `_load_cc_candidates`, the ids
unfoldable pub load_cc_candidates : Text → List Account → List ℕ
load_cc_candidates bank [] = []
load_cc_candidates bank (a ∷ accounts) =
    let rest = load_cc_candidates bank accounts in
    if codes_eq a.bank bank && codes_eq a.type (codes "credit_card") then a.id ∷ rest else rest

abbrev pub drop_commas : Text → Text
drop_commas [] = []
drop_commas (c ∷ s) = let rest = drop_commas s in if eqb c b',' then rest else c ∷ rest

-- the digits of a number, with at most one point: whether a point was read, whether a digit was, the
-- digits so far, and how many of them stand after the point
abbrev pub read_digits : Bool → Text → Bool → Bool → ℕ → ℕ → Option Decimal
read_digits negative [] point digit c n =
    if digit then some (record { negative = negative; coefficient = c; places = n }) else none
read_digits negative (x ∷ s) point digit c n =
    let after_digit =
      read_digits negative s point true (c * 10 + (x - b'0')) (if point then n + 1 else n) in
    let after_point = read_digits negative s true digit c n in
    if is_digit x then after_digit else if eqb x b'.' && not point then after_point else none

abbrev pub read_signed : Text → Option Decimal
read_signed [] = none
read_signed (x ∷ s) =
    if eqb x b'-'
    then read_digits true s false false 0 0
    else if eqb x b'+'
    then read_digits false s false false 0 0
    else read_digits false (x ∷ s) false false 0 0

-- `parse_cc_amount`: none where it raises. An amount in exponent form is not read.
unfoldable pub parse_cc_amount : Text → Option Decimal
parse_cc_amount s = read_signed (strip (drop_commas s))

-- a - b, exactly
abbrev pub scaled : Decimal → ℕ → ℤ
scaled a n = if a.negative then neg (pos (a.coefficient * 10 ^ n)) else pos (a.coefficient * 10 ^ n)

abbrev pub is_negative : ℤ → Bool
is_negative (pos n) = false
is_negative (negsuc n) = true

abbrev pub of_scaled : ℤ → ℕ → Decimal
of_scaled x n = record { negative = is_negative x; coefficient = abs x; places = n }

unfoldable pub dec_sub : Decimal → Decimal → Decimal
dec_sub a b = of_scaled (scaled a b.places -ℤ scaled b a.places) (a.places + b.places)

-- a > 0 and a <= b
abbrev pub is_positive : Decimal → Bool
is_positive a = not a.negative && not (eqb a.coefficient 0)

unfoldable pub dec_le : Decimal → Decimal → Bool
dec_le a b = not (is_positive (dec_sub a b))

abbrev pub zero_amount : Decimal
zero_amount = record { negative = false; coefficient = 0; places = 0 }

abbrev pub or_zero : Option Decimal → Decimal
or_zero none = zero_amount
or_zero (some a) = a

abbrev pub parsed_total : Option Text → Option Decimal
parsed_total none = none
parsed_total (some s) = parse_cc_amount s

abbrev pub less_paid : Option Decimal → Option Decimal → Option Decimal
less_paid none paid = none
less_paid (some due) paid = some (dec_sub due (or_zero paid))

-- `_parse_outstanding`
unfoldable pub parse_outstanding : Upload → Option Decimal
parse_outstanding u = less_paid (parsed_total u.total_amount_due) u.payment_paid_amount

abbrev pub member : ℕ → List ℕ → Bool
member id [] = false
member id (i ∷ is) = eqb i id || member id is

abbrev pub select_uploads : (Upload → Bool) → List Upload → List Upload
select_uploads p [] = []
select_uploads p (u ∷ us) = let rest = select_uploads p us in if p u then u ∷ rest else rest

-- the WHERE of `_latest_statements`, and `ACTIVE_STATUSES`
abbrev pub is_ranked : List ℕ → Upload → Bool
is_ranked ids u =
    member u.account_id ids && not (is_none u.due_date) && not (is_none u.total_amount_due)

abbrev pub is_active : Option String → Bool
is_active none = false
is_active (some s) = str_eq s "unpaid" || str_eq s "partially_paid" || str_eq s "late"

-- latest[account_id] = (due, upload), where it is later
abbrev pub put_later : ℕ → Upload → List (ℕ × Upload) → List (ℕ × Upload)
put_later due u [] = (due, u) ∷ []
put_later due u ((d, w) ∷ rest) =
    let after = put_later due u rest in
    if eqb w.account_id u.account_id
    then if ltb d due then (due, u) ∷ rest else (d, w) ∷ rest
    else (d, w) ∷ after

abbrev pub date_in : (Text → Option ℕ) → Option Text → Option ℕ
date_in parse_cc_date none = none
date_in parse_cc_date (some []) = none
date_in parse_cc_date (some (c ∷ s)) = parse_cc_date (c ∷ s)

abbrev pub put_dated : Option ℕ → Upload → List (ℕ × Upload) → List (ℕ × Upload)
put_dated none u latest = latest
put_dated (some due) u latest = put_later due u latest

abbrev pub uploads_of : List (ℕ × Upload) → List Upload
uploads_of [] = []
uploads_of ((d, u) ∷ rest) = u ∷ uploads_of rest

abbrev pub totals_match : Decimal → Upload → Bool
totals_match amount u = elim (parsed_total u.total_amount_due) [
  | none ↦ false
  | some due ↦ dec_eq due amount
]

abbrev pub is_untracked : Upload → Bool
is_untracked u = is_none u.payment_status || is_none (parse_outstanding u)

abbrev pub owes : Upload → Bool
owes u = elim (parse_outstanding u) [ none ↦ false | some a ↦ is_positive a ]

abbrev pub owes_exactly : Decimal → Upload → Bool
owes_exactly amount u = elim (parse_outstanding u) [ none ↦ false | some a ↦ dec_eq a amount ]

abbrev pub owes_at_least : Decimal → Upload → Bool
owes_at_least amount u = elim (parse_outstanding u) [ none ↦ false | some a ↦ dec_le amount a ]

abbrev pub only_account : List Upload → Option ℕ
only_account [] = none
only_account (u ∷ []) = some u.account_id
only_account (u ∷ w ∷ us) = none

abbrev pub all_covered : List Upload → List ℕ → Bool
all_covered us [] = true
all_covered us (id ∷ ids) = covers id us && all_covered us ids
  where
    covers : ℕ → List Upload → Bool
    covers id [] = false
    covers id (u ∷ us) = eqb u.account_id id || covers id us

abbrev pub any_upload : (Upload → Bool) → List Upload → Bool
any_upload p [] = false
any_upload p (u ∷ us) = p u || any_upload p us

abbrev pub all_among : List Upload → List ℕ → Bool
all_among [] ids = true
all_among (u ∷ us) ids = member u.account_id ids && all_among us ids

-- next(u for u in us if u.account_id == id)
abbrev pub upload_of : ℕ → List Upload → Option Upload
upload_of id [] = none
upload_of id (u ∷ us) = if eqb u.account_id id then some u else upload_of id us

abbrev pub prompt_for : List ℕ → AccountChoice
prompt_for ids = record { account_id = none; prompt = some ids }

abbrev pub resolved_to : ℕ → AccountChoice
resolved_to id = record { account_id = some id; prompt = none }

abbrev pub or_choice : Option ℕ → AccountChoice → AccountChoice
or_choice (some id) rest = resolved_to id
or_choice none rest = rest

abbrev pub if_at_least : Decimal → Option Upload → Option ℕ
if_at_least amount none = none
if_at_least amount (some u) = if owes_at_least amount u then some u.account_id else none

abbrev pub sole_of : Decimal → List Upload → Option ℕ → Option ℕ
sole_of amount latest none = none
sole_of amount latest (some id) = if_at_least amount (upload_of id latest)

-- the tiers on what is outstanding
unfoldable pub by_outstanding : Decimal → List ℕ → List Upload → AccountChoice
by_outstanding amount ids latest =
    if not (all_covered latest ids && all_among latest ids) || any_upload is_untracked latest
    then prompt_for ids
    else or_choice (only_account (select_uploads (owes_exactly amount) latest)) (
        or_choice (sole_of amount latest (only_account (select_uploads owes latest)))
          (prompt_for ids))

module _ (parse_cc_date : Text → Option ℕ) where
  abbrev pub latest_from : List (ℕ × Upload) → List Upload → List (ℕ × Upload)
  latest_from latest [] = latest
  latest_from latest (u ∷ us) =
      latest_from (put_dated (date_in parse_cc_date u.due_date) u latest) us

  -- `latest_per_account`
  unfoldable pub latest_per_account : List Upload → List Upload
  latest_per_account us = uploads_of (latest_from [] us)

  module _ (uploads : List Upload) where
    -- `_latest_statements`
    unfoldable pub latest_statements : List ℕ → List Upload
    latest_statements ids = latest_per_account (select_uploads (is_ranked ids) uploads)

    -- `find_cc_account_by_total_due`
    unfoldable pub find_cc_account_by_total_due : List ℕ → Decimal → Option ℕ
    find_cc_account_by_total_due ids amount =
        if ltb (length ids) 2
        then none
        else only_account (
            select_uploads (totals_match amount) (
              latest_per_account
                (select_uploads (λ u. is_ranked ids u && is_active u.payment_status) uploads)))

    -- the part of `resolve_cc_payment_account` after its gates
    unfoldable pub choose_among : List ℕ → Decimal → AccountChoice
    choose_among [] amount = record { account_id = none; prompt = none }
    choose_among (id ∷ []) amount = resolved_to id
    choose_among (id ∷ other ∷ ids) amount =
        or_choice (find_cc_account_by_total_due (id ∷ other ∷ ids) amount)
          (by_outstanding amount (id ∷ other ∷ ids) (latest_statements (id ∷ other ∷ ids)))

    unfoldable pub choose_account : List Account → Transaction → AccountChoice
    choose_account accounts r = choose_among (load_cc_candidates r.bank accounts) r.amount
