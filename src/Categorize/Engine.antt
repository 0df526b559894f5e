-- ===== src/Categorize/Engine.antt =====
-- `categorize_one` and `select_needs_work_stmt` of
-- financial_dashboard/services/categorization/engine.py.
use text.Mathlib.Text.{◌==◌}
use Prim.Native.Nat.{min}
use bank_email_fetcher.Prelude.{
  ℕ, String, Bool, true, false, ◌&&◌, ◌||◌, not, Option, none, some, List, [], ◌∷◌, ltb, eqb,
  is_falsy, if◌then◌else◌,
}
use bank_email_fetcher.Categorize.Polarity.{resolve_direction}
use bank_email_fetcher.Categorize.Rules.{Fields, RuleConfig, RuleResult, match_rules}
use bank_email_fetcher.Categorize.Transfer.{
  Details, rule, llm, manual, pending_llm, pending, Category, Transaction, opt_eq,
  apply_reference_self_transfer_rule,
}

-- `LlmResult`
pub record LlmResult : Type 0 where
  pub slug : String
  pub confidence : ℕ
  pub reason : String

-- What the call reads besides the row: settings, caches, the clock and the language model, which
-- returns none where its call raises.
pub record Surroundings : Type 0 where
  pub input_hash : Details → String
  pub vocab_version : ℕ
  pub now : ℕ
  pub account_type : Option ℕ → Option String
  pub rule_config : RuleConfig
  pub confidence_threshold : ℕ
  pub model_name : String
  pub llm_classify : Fields → Option LlmResult

-- `fields`
unfoldable pub fields_of : Details → Option String → Fields
fields_of d account_type = record {
  counterparty = d.counterparty;
  raw_description = d.raw_description;
  channel = d.channel;
  email_type = d.email_type;
  direction = d.direction;
  bank = d.bank;
  account_type = account_type;
}

module _ (s : Surroundings) (d : Details) where
  -- a rule hit
  abbrev pub rule_category : RuleResult → Category → Category
  rule_category hit old = record old {
    slug = some hit.slug;
    method = some rule;
    confidence = some hit.confidence;
    model = some "rules-v1";
    input_hash = some (s.input_hash d);
    vocab_version = some s.vocab_version;
    categorized_at = some s.now;
    review_status = none;
  }

  -- no rule hit, and no language model asked
  abbrev pub pending_category : Category → Category
  pending_category old = record old {
    method = some pending_llm;
    input_hash = some (s.input_hash d);
    vocab_version = some s.vocab_version;
  }

  abbrev pub empty_category : Category → Category
  empty_category old = record old {
    slug = some "unknown";
    method = some llm;
    confidence = some 0;
    model = some "empty-input";
    input_hash = some (s.input_hash d);
    vocab_version = some s.vocab_version;
    categorized_at = some s.now;
    review_status = none;
  }

  abbrev pub llm_columns : LlmResult → Category → Category
  llm_columns result old = record old {
    method = some llm;
    model = some s.model_name;
    confidence = some result.confidence;
    input_hash = some (s.input_hash d);
    vocab_version = some s.vocab_version;
    categorized_at = some s.now;
  }

  abbrev pub review : Option String → String → Category → Category
  review reason slug c = record c {
    slug = some slug;
    review_status = some pending;
    review_reason = reason;
  }

  -- the branch on whether the guard changed the model's slug; the text of the reason names the slug
  abbrev pub guarded : LlmResult → String × Bool → Category → Category
  guarded result (resolved, true) c = record c {
    slug = some resolved;
    confidence = some (min result.confidence 400000);
    review_status = some pending;
    review_reason = some result.slug;
  }
  guarded result (resolved, false) c = record c { slug = some resolved; review_status = none }

  abbrev pub llm_category : Option String → LlmResult → Category → Category
  llm_category account_type result old =
      if result.slug == "needs_review" || ltb result.confidence s.confidence_threshold
      then review (some result.reason) (resolve_direction "unknown" d.direction account_type).0
          (llm_columns result old)
      else guarded result (resolve_direction result.slug d.direction account_type)
          (llm_columns result old)

  abbrev pub after_llm : Option String → Option LlmResult → Category → Option (String × Category)
  after_llm account_type none old = none
  after_llm account_type (some result) old = some ("llm", llm_category account_type result old)

  abbrev pub after_rules :
      Bool → Option String → Option RuleResult → Category → Option (String × Category)
  after_rules use_llm account_type (some hit) old = some ("rule", rule_category hit old)
  after_rules use_llm account_type none old =
      if not use_llm
      then some ("skip", pending_category old)
      else if is_falsy d.counterparty && is_falsy d.raw_description
      then some ("llm", empty_category old)
      else after_llm account_type (s.llm_classify (fields_of d account_type)) old

  -- The part after the self-transfer rule: the answer and the columns; none where the model raises.
  unfoldable pub categorize_columns : Bool → Category → Option (String × Category)
  categorize_columns use_llm old =
      let account_type = s.account_type d.account_id in
      after_rules use_llm account_type (match_rules (fields_of d account_type) s.rule_config) old

abbrev pub set_category : ℕ → Category → List Transaction → List Transaction
set_category id c [] = []
set_category id c (r ∷ rows) =
    let rest = set_category id c rows in
    if eqb r.id id then record { id = r.id; details = r.details; category = c } ∷ rest else r ∷ rest

abbrev pub write_category :
    ℕ → List Transaction → Option (String × Category) → Option (String × List Transaction)
write_category id rows none = none
write_category id rows (some (answer, c)) = some (answer, set_category id c rows)

-- `categorize_one` for the row `txn` of the table
unfoldable pub categorize_one :
    Surroundings → Bool → Transaction → List Transaction → Option (String × List Transaction)
categorize_one s use_llm txn rows =
    let (paired, after) =
      apply_reference_self_transfer_rule s.input_hash s.vocab_version s.now txn.id txn.details
        rows in
    if paired
    then some ("rule", after)
    else write_category txn.id rows (categorize_columns s txn.details use_llm txn.category)

-- category_vocab_version IS NULL OR category_vocab_version < current_vocab
abbrev pub is_stale : Option ℕ → ℕ → Bool
is_stale none current = true
is_stale (some v) current = ltb v current

-- the WHERE of `select_needs_work_stmt`
unfoldable pub needs_work : Bool → ℕ → Category → Bool
needs_work for_llm current_vocab c = elim c.method [
  | none ↦ true
  | some pending_llm ↦ for_llm
  | some llm ↦ for_llm && opt_eq c.slug "unknown" && is_stale c.vocab_version current_vocab
  | some rule ↦ false
  | some manual ↦ false
]
