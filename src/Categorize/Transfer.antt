-- ===== src/Categorize/Transfer.antt =====
-- financial_dashboard/services/categorization/self_transfer.py, over the table of transactions.
use text.Mathlib.Text.{◌==◌}
use bank_email_fetcher.Prelude.{
  ℕ, String, Bool, true, false, ◌&&◌, ◌||◌, not, Option, none, some, List, [], ◌∷◌, ltb, eqb,
  length, codes_eq, strip, is_empty, reverse, begins_with, is_none, if◌then◌else◌,
}
use bank_email_fetcher.Masks.{mask_digits}
use bank_email_fetcher.Merge.Decimal.{Decimal}
use bank_email_fetcher.Categorize.Text.{text_or_empty}
use bank_email_fetcher.Categorize.Rules.{is_fd_counterparty}

-- the columns of `Transaction` that say what the money did; no code here writes them. An amount is the
-- numeral as the session holds it: 500 and 500.00 are two amounts, as `str` tells them apart.
pub record Details : Type 0 where
  pub reference_number : Option (List ℕ)
  pub direction : String
  pub amount : Decimal
  pub currency : Option (List ℕ)
  pub account_id : Option ℕ
  pub account_mask : Option (List ℕ)
  pub counterparty : Option (List ℕ)
  pub raw_description : Option (List ℕ)
  pub channel : Option (List ℕ)
  pub email_type : Option (List ℕ)
  pub bank : Option (List ℕ)

pub data Method : Type 0 where
  rule llm manual pending_llm : Method

pub data ReviewStatus : Type 0 where
  pending resolved : ReviewStatus

-- the columns that categorization writes
pub record Category : Type 0 where
  pub slug : Option String
  pub method : Option Method
  pub confidence : Option ℕ
  pub model : Option String
  pub input_hash : Option String
  pub vocab_version : Option ℕ
  pub categorized_at : Option ℕ
  pub review_status : Option ReviewStatus
  pub review_reason : Option String

pub record Transaction : Type 0 where
  pub id : ℕ
  pub details : Details
  pub open details use *
  pub category : Category

-- `_OPPOSITE_DIRECTION.get(direction)`
unfoldable pub opposite_direction : String → Option String
opposite_direction direction =
    if direction == "credit"
    then some "debit"
    else if direction == "debit"
    then some "credit"
    else none

-- first.endswith(second)
abbrev pub ends_with : List ℕ → List ℕ → Bool
ends_with first second = begins_with (reverse second) (reverse first)

unfoldable pub masks_differ : List ℕ → List ℕ → Bool
masks_differ first_digits second_digits =
    if ltb (length first_digits) 3 || ltb (length second_digits) 3
    then false
    else not (ends_with first_digits second_digits || ends_with second_digits first_digits)

abbrev pub accounts_differ : Option ℕ → Option ℕ → Bool → Bool
accounts_differ (some a) (some b) by_masks = not (eqb a b)
accounts_differ none b by_masks = by_masks
accounts_differ (some a) none by_masks = by_masks

-- `_different_accounts`
unfoldable pub different_accounts : Details → Details → Bool
different_accounts first second =
    accounts_differ first.account_id second.account_id
      (masks_differ (mask_digits first.account_mask) (mask_digits second.account_mask))

abbrev pub is_opposite : Option String → String → Bool
is_opposite none direction = false
is_opposite (some opposite) direction = direction == opposite

-- Transaction.reference_number == reference_number, which is not true of NULL
abbrev pub same_reference : Option (List ℕ) → Option (List ℕ) → Bool
same_reference (some a) (some b) = codes_eq a b
same_reference none b = false
same_reference (some a) none = false

abbrev pub is_fd : Details → Bool
is_fd d = is_fd_counterparty d.counterparty d.bank

-- the two guards on the row itself: no fixed deposit, and a reference number that is not blank
unfoldable pub may_pair : Details → Bool
may_pair d =
    not (is_fd d)
    && not (is_empty (strip (text_or_empty d.reference_number)))
    && not (is_none (opposite_direction d.direction))

-- whether the second row is among the `matches` of the first
unfoldable pub is_match : Details → Details → Bool
is_match d other =
    same_reference d.reference_number other.reference_number
    && is_opposite (opposite_direction d.direction) other.direction
    && different_accounts d other
    && not (is_fd other)

abbrev pub has_match : Details → List Transaction → Bool
has_match d [] = false
has_match d (r ∷ rows) = is_match d r.details || has_match d rows

abbrev pub opt_eq : Option String → String → Bool
opt_eq none s = false
opt_eq (some t) s = t == s

abbrev pub opt_eqb : Option ℕ → ℕ → Bool
opt_eqb none n = false
opt_eqb (some m) n = eqb m n

abbrev pub is_rule : Option Method → Bool
is_rule (some rule) = true
is_rule m = false

-- `REFERENCE_PAIR_RULESET_VERSION`
abbrev pub reference_pair_ruleset_version : String
reference_pair_ruleset_version = "reference-pair-v1"

-- of the row itself the session has the details `d`, and of every other those of the table
abbrev pub held_details : ℕ → Details → Transaction → Details
held_details id d r = if eqb r.id id then d else r.details

-- `build_input_payload` and `compute_input_hash`, a SHA-256 of the details, str(amount) among them, and
-- of the type of the account, which stays as it is
module _ (input_hash : Details → String) (vocab_version : ℕ) where
  -- for the details that the session holds of the row
  unfoldable pub already_current : Details → Category → Bool
  already_current d c =
      opt_eq c.slug "self_transfer"
      && is_rule c.method
      && opt_eqb c.confidence 1000000
      && opt_eq c.model reference_pair_ruleset_version
      && opt_eq c.input_hash (input_hash d)
      && opt_eqb c.vocab_version vocab_version
      && is_none c.review_status
      && is_none c.review_reason

  abbrev pub transfer_category : ℕ → Details → Category
  transfer_category now d = record {
    slug = some "self_transfer";
    method = some rule;
    confidence = some 1000000;
    model = some reference_pair_ruleset_version;
    input_hash = some (input_hash d);
    vocab_version = some vocab_version;
    categorized_at = some now;
    review_status = none;
    review_reason = none;
  }

  -- `_mark_self_transfer`
  unfoldable pub mark_self_transfer : ℕ → Details → Transaction → Transaction
  mark_self_transfer now d txn =
      if already_current d txn.category
      then txn
      else record { id = txn.id; details = txn.details; category = transfer_category now d }

  -- the row itself and its matches
  abbrev pub mark_pair : ℕ → ℕ → Details → List Transaction → List Transaction
  mark_pair now id d [] = []
  mark_pair now id d (r ∷ rows) =
      let rest = mark_pair now id d rows in
      if eqb r.id id || is_match d r.details
      then mark_self_transfer now (held_details id d r) r ∷ rest
      else r ∷ rest

  -- `apply_reference_self_transfer_rule` for the row with this id and these details
  unfoldable pub apply_reference_self_transfer_rule :
      ℕ → ℕ → Details → List Transaction → Bool × List Transaction
  apply_reference_self_transfer_rule now id d rows =
      if may_pair d && has_match d rows then (true, mark_pair now id d rows) else (false, rows)
