-- ===== src/Cashflow/Rows.antt =====
-- The rows that the cashflow report reads, and its predicates on them: the clauses of
-- financial_dashboard/services/cashflow/scope.py and report.py.
use bank_email_fetcher.Prelude.{
  ℕ, String, Bool, true, false, ◌&&◌, ◌||◌, not, Option, none, some, List, [], ◌∷◌, codes, str_eq,
  eqb, ltb, leb, if◌then◌else◌,
}
use bank_email_fetcher.Prelude.Int.{ℤ, neg}
use bank_email_fetcher.Cashflow.Buckets.{Scope, bank, card, unaccounted, bucket_by_slug}

pub record Date : Type 0 where
  pub year : ℕ
  pub month : ℕ
  pub day : ℕ

-- a <= b
unfoldable pub date_le : Date → Date → Bool
date_le a b =
    ltb a.year b.year
    || (eqb a.year b.year && (ltb a.month b.month || (eqb a.month b.month && leb a.day b.day)))

-- the columns of `Account`, and those of `Transaction` that the report reads; an amount is a number of
-- paise
pub record Account : Type 0 where
  pub id : ℕ
  pub type : String

pub record Row : Type 0 where
  pub account_id : Option ℕ
  pub direction : String
  pub amount : ℤ
  pub currency : Option String
  pub transaction_date : Option Date
  pub category : Option String
  pub counterparty : Option String
  pub exclude_from_cashflow : Option Bool

-- `_linked_to`: an account with the id of the row and one of the types
unfoldable pub linked_to : (String → Bool) → List Account → Option ℕ → Bool
linked_to types accounts none = false
linked_to types [] (some id) = false
linked_to types (a ∷ accounts) (some id) =
    (eqb a.id id && types a.type) || linked_to types accounts (some id)

-- `BANK_ACCOUNT_TYPES`, `CARD_ACCOUNT_TYPES` and `KNOWN_ACCOUNT_TYPES`
abbrev pub is_bank_type : String → Bool
is_bank_type type = str_eq type "bank_account" || str_eq type "debit_card"

abbrev pub is_card_type : String → Bool
is_card_type type = str_eq type "credit_card"

abbrev pub is_known_type : String → Bool
is_known_type type = is_bank_type type || is_card_type type

-- `SCOPE_PREDICATES`
unfoldable pub in_scope : List Account → Scope → Row → Bool
in_scope accounts bank r = linked_to is_bank_type accounts r.account_id
in_scope accounts card r = linked_to is_card_type accounts r.account_id
in_scope accounts unaccounted r = not (linked_to is_known_type accounts r.account_id)

-- `INR_OR_NULL`, `INCLUDED`
unfoldable pub inr_or_null : Row → Bool
inr_or_null r = elim r.currency [ none ↦ true | some c ↦ str_eq c "INR" ]

unfoldable pub included : Row → Bool
included r = elim r.exclude_from_cashflow [ some true ↦ false | some false ↦ true | none ↦ true ]

-- the summand of `SIGNED_FLOW`
unfoldable pub flow : Row → ℤ
flow r = if str_eq r.direction "credit" then r.amount else neg r.amount

-- transaction_date BETWEEN :date_from AND :date_to, which is not true of NULL
unfoldable pub in_range : Date → Date → Row → Bool
in_range date_from date_to r = elim r.transaction_date [
  | none ↦ false
  | some d ↦ date_le date_from d && date_le d date_to
]

-- `BLANK_CHARS`
abbrev pub is_blank_char : ℕ → Bool
is_blank_char c = eqb c 0x20 || (leb 0x9 c && leb c 0xd)

abbrev pub all_blank : List ℕ → Bool
all_blank [] = true
all_blank (c ∷ s) = is_blank_char c && all_blank s

-- `IS NULL OR trim(column, BLANK_CHARS) = ''`: the trimmed text is empty exactly if every character is
-- blank
abbrev pub is_blank : Option String → Bool
is_blank none = true
is_blank (some s) = all_blank (codes s)

-- `NORMALIZED_COUNTERPARTY` and `NORMALIZED_CATEGORY`
unfoldable pub normalized : Option String → Option String
normalized s = if is_blank s then none else s

abbrev pub unmapped_text : Option String → Bool
unmapped_text none = false
unmapped_text (some s) =
    str_eq s "unknown" || elim (bucket_by_slug s) [ none ↦ true | some b ↦ false ]

-- `UNCATEGORIZED`
unfoldable pub is_uncategorized : Option String → Bool
is_uncategorized category = is_blank category || unmapped_text category
