-- ===== src/Categorize/Work.antt =====
-- Categorization makes progress: what has been categorized leaves the work set.
use bank_email_fetcher.Prelude.{
  ℕ, String, Bool, true, false, ◌&&◌, ◌||◌, Option, none, some, List, [], ◌∷◌, ◌≡◌, refl, ap, arith,
  inl, inr, Bool-cases, is_falsy, ltb, eqb, All,
}
use text.Mathlib.Text.{◌==◌}
use bank_email_fetcher.Categorize.Polarity.{resolve_direction}
use bank_email_fetcher.Categorize.Rules.{Fields, RuleResult, match_rules}
use bank_email_fetcher.Categorize.Transfer.{
  Details, Category, Transaction, Method, rule, llm, manual, pending_llm, is_rule, may_pair,
  is_match, has_match, already_current, mark_self_transfer, held_details, mark_pair,
  apply_reference_self_transfer_rule,
}
use bank_email_fetcher.Categorize.Engine.{
  LlmResult, Surroundings, fields_of, llm_columns, guarded, llm_category, after_llm, after_rules,
  empty_category, categorize_columns, set_category, write_category, categorize_one, needs_work,
}

-- The answer of a pass: columns that are out of its work set; or none, and then the pass asked the
-- model, because no rule fired, and the call raised.
pub data IsDone (s : Surroundings) (d : Details) (use_llm : Bool) (o : Option (String × Category))
    : Type 0 where
  done :
      (answer : String) (c : Category)
      → o ≡ some (answer, c)
      → needs_work use_llm s.vocab_version c ≡ false
      → IsDone s d use_llm o
  model_raised :
      o ≡ none
      → use_llm ≡ true
      → match_rules (fields_of d (s.account_type d.account_id)) s.rule_config ≡ none
      → s.llm_classify (fields_of d (s.account_type d.account_id)) ≡ none
      → IsDone s d use_llm o

module _ (s : Surroundings) (d : Details) where
  guarded-done :
      (result : LlmResult) (r : String × Bool) (old : Category)
      → needs_work true s.vocab_version (guarded s d result r (llm_columns s d result old)) ≡ false
  unfolding needs_work
  guarded-done result (resolved, true) old = ground arith
  guarded-done result (resolved, false) old = ground arith

  llm_category-done :
      (account_type : Option String) (result : LlmResult) (old : Category)
      → needs_work true s.vocab_version (llm_category s d account_type result old) ≡ false
  unfolding needs_work
  llm_category-done account_type result old =
      elim (Bool-cases
        (result.slug == "needs_review" || ltb result.confidence s.confidence_threshold)) [
          | inl low ↦ rw low (ground arith)
          | inr sure ↦
              rw sure
                (guarded-done result (resolve_direction result.slug d.direction account_type) old)
        ]

  abbrev Fields_of_row : Fields
  Fields_of_row = fields_of d (s.account_type d.account_id)

  after_llm-IsDone :
      (result : Option LlmResult) (old : Category)
      → match_rules Fields_of_row s.rule_config ≡ none
      → s.llm_classify Fields_of_row ≡ result
      → IsDone s d true (after_llm s d (s.account_type d.account_id) result old)
  after_llm-IsDone none old quiet asked = IsDone.model_raised refl refl quiet asked
  after_llm-IsDone (some result) old quiet asked =
      IsDone.done "llm" _ refl (llm_category-done (s.account_type d.account_id) result old)

  after_rules-IsDone :
      (use_llm : Bool) (hit : Option RuleResult) (old : Category)
      → match_rules Fields_of_row s.rule_config ≡ hit
      → IsDone s d use_llm (after_rules s d use_llm (s.account_type d.account_id) hit old)
  unfolding needs_work
  after_rules-IsDone use_llm (some hit) old e = IsDone.done "rule" _ refl refl
  after_rules-IsDone false none old e = IsDone.done "skip" _ refl refl
  after_rules-IsDone true none old e =
      elim (Bool-cases (is_falsy d.counterparty && is_falsy d.raw_description)) [
        | inl empty ↦ rw empty (IsDone.done "llm" (empty_category s d old) refl (ground arith))
        | inr text ↦ rw text (after_llm-IsDone (s.llm_classify Fields_of_row) old e refl)
      ]

  pub categorize_columns-IsDone :
      (use_llm : Bool) (old : Category) → IsDone s d use_llm (categorize_columns s d use_llm old)
  unfolding categorize_columns
  categorize_columns-IsDone use_llm old =
      after_rules-IsDone use_llm (match_rules Fields_of_row s.rule_config) old refl

-- every row of the table with this id is out of the work set
abbrev pub RowsDone : Surroundings → Bool → ℕ → List Transaction → Type 0
RowsDone s use_llm id =
    All λ (r : Transaction). r.id ≡ id → needs_work use_llm s.vocab_version r.category ≡ false

module _ (s : Surroundings) (use_llm : Bool) (id : ℕ) where
  set_category-RowsDone :
      (c : Category) (rows : List Transaction)
      → needs_work use_llm s.vocab_version c ≡ false
      → RowsDone s use_llm id (set_category id c rows)
  set_category-RowsDone c [] h = tt
  set_category-RowsDone c (r ∷ rows) h = elim (Bool-cases (eqb r.id id)) [
    | inl mine ↦ rw mine ((λ e. h), set_category-RowsDone c rows h)
    | inr other ↦ rw other ((λ e. absurd (ground arith)), set_category-RowsDone c rows h)
  ]

  rule-done : (c : Category) → c.method ≡ some rule → needs_work use_llm s.vocab_version c ≡ false
  unfolding needs_work
  rule-done c h = rw h refl

  is_rule-rule : (m : Option Method) → is_rule m ≡ true → m ≡ some rule
  is_rule-rule (some rule) h = refl
  is_rule-rule (some llm) h = cc
  is_rule-rule (some manual) h = cc
  is_rule-rule (some pending_llm) h = cc
  is_rule-rule none h = cc

  marked-rule :
      (d : Details) (r : Transaction)
      → (mark_self_transfer s.input_hash s.vocab_version s.now d r).category.method ≡ some rule
  unfolding mark_self_transfer
  marked-rule d r = elim (Bool-cases (already_current s.input_hash s.vocab_version d r.category)) [
    | inl current ↦
        rw current (is_rule-rule r.category.method (unfold already_current in ground arith))
    | inr stale ↦ rw stale refl
  ]

  mark_pair-RowsDone :
      (d : Details) (rows : List Transaction)
      → RowsDone s use_llm id (mark_pair s.input_hash s.vocab_version s.now id d rows)
  mark_pair-RowsDone d [] = tt
  mark_pair-RowsDone d (r ∷ rows) = elim (Bool-cases (eqb r.id id || is_match d r.details)) [
    | inl hit ↦
        rw hit ((λ e. rule-done _ (marked-rule (held_details id d r) r)), mark_pair-RowsDone d rows)
    | inr miss ↦ rw miss ((λ e. absurd (ground arith)), mark_pair-RowsDone d rows)
  ]

-- What a pass over one row comes to: the row is out of the work set of the pass; or it returned
-- nothing, and then it asked the model, because neither the self-transfer rule nor any other rule
-- fired, and the call raised.
pub data Categorized (s : Surroundings) (use_llm : Bool) (txn : Transaction)
    (rows : List Transaction) (o : Option (String × List Transaction)) : Type 0 where
  categorized :
      (answer : String) (after : List Transaction)
      → o ≡ some (answer, after)
      → RowsDone s use_llm txn.id after
      → Categorized s use_llm txn rows o
  model_raised :
      o ≡ none
      → use_llm ≡ true
      → (may_pair txn.details && has_match txn.details rows) ≡ false
      → match_rules (fields_of txn.details (s.account_type txn.details.account_id)) s.rule_config
        ≡ none
      → s.llm_classify (fields_of txn.details (s.account_type txn.details.account_id)) ≡ none
      → Categorized s use_llm txn rows o

module _ (s : Surroundings) (use_llm : Bool) (txn : Transaction) (rows : List Transaction) where
  write_category-Categorized :
      (o : Option (String × Category))
      → (may_pair txn.details && has_match txn.details rows) ≡ false
      → IsDone s txn.details use_llm o
      → Categorized s use_llm txn rows (write_category txn.id rows o)
  write_category-Categorized o quiet (IsDone.done answer c e h) =
      Categorized.categorized answer (set_category txn.id c rows)
        (ap (write_category txn.id rows) e) (set_category-RowsDone s use_llm txn.id c rows h)
  write_category-Categorized o quiet (IsDone.model_raised e asked no_rule raised) =
      Categorized.model_raised (ap (write_category txn.id rows) e) asked quiet no_rule raised

  -- A pass over one row returns with a table in which that row, whether the self-transfer rule, another
  -- rule or the model categorized it or it was only handed on to the model, is out of the work set of
  -- the pass while the vocabulary stays as it is. It returns nothing only where it was to ask the
  -- model, no rule fired, and the call of the model raised; so the pass without the model always
  -- returns.
  pub categorize_one-Categorized :
      Categorized s use_llm txn rows (categorize_one s use_llm txn rows)
  unfolding categorize_one apply_reference_self_transfer_rule
  categorize_one-Categorized =
      elim (Bool-cases (may_pair txn.details && has_match txn.details rows)) [
        | inl paired ↦ rw paired (
            Categorized.categorized "rule"
              (mark_pair s.input_hash s.vocab_version s.now txn.id txn.details rows) refl
              (mark_pair-RowsDone s use_llm txn.id txn.details rows))
        | inr quiet ↦ rw quiet (
            write_category-Categorized (categorize_columns s txn.details use_llm txn.category) quiet
              (categorize_columns-IsDone s txn.details use_llm txn.category))
      ]
