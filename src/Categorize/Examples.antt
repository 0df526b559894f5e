-- ===== src/Categorize/Examples.antt =====
-- The theorems of categorization at concrete rows, and tests.
use bank_email_fetcher.Prelude.{
  ℕ, String, true, false, Option, none, some, List, [], ◌∷◌, ◌≡◌, refl, inl, inr, arith, In, codes,
  lower, strip, eqb, if◌then◌else◌,
}
use bank_email_fetcher.Categorize.Polarity.{is_impossible}
use bank_email_fetcher.Categorize.Text.{sub_punctuation, join_words, normalize_text}
use bank_email_fetcher.Categorize.Rules.{
  Fields, RuleConfig, is_fd_counterparty, has_marker, text_of, is_credit, is_debit, is_card_credit,
  channel_is, email_has, fd_rule, interest_rule, email_rule, fee_rule, card_rule, dividend_rule,
  is_passed_over, merchant_rule, match_rules,
}
use bank_email_fetcher.Categorize.Direction.{Gives, NoExpense, match_rules-NoExpense}
use bank_email_fetcher.Categorize.Transfer.{
  Details, Category, Transaction, opposite_direction, different_accounts, may_pair, is_match,
  apply_reference_self_transfer_rule, mark_self_transfer, already_current,
}
use bank_email_fetcher.Categorize.Legs.{pairs, pairs_comm}
use bank_email_fetcher.Categorize.Marks.{apply_reference_self_transfer_rule_idem}
use bank_email_fetcher.Categorize.Engine.{Surroundings, categorize_one}
use bank_email_fetcher.Categorize.Work.{Categorized, categorize_one-Categorized}

-- an IMPS transfer, out of one account and into another, and a fixed deposit with its reference
abbrev sent : Details
sent = record {
  reference_number = some (codes "412345678901");
  direction = "debit";
  amount = record { negative = false; coefficient = 50000; places = 2 };
  currency = some (codes "INR");
  account_id = some 1;
  account_mask = none;
  counterparty = some (codes "Self");
  raw_description = none;
  channel = some (codes "imps");
  email_type = none;
  bank = some (codes "hdfc");
}

abbrev received : Details
received = record sent { direction = "credit"; account_id = some 2; bank = some (codes "icici") }

abbrev deposit : Details
deposit = record received { account_id = some 3; counterparty = some (codes "ICICI FD") }

abbrev untouched : Category
untouched = record {
  slug = none;
  method = none;
  confidence = none;
  model = none;
  input_hash = none;
  vocab_version = none;
  categorized_at = none;
  review_status = none;
  review_reason = none;
}

abbrev rows : List Transaction
rows =
    record { id = 1; details = sent; category = untouched }
    ∷ record { id = 2; details = received; category = untouched }
    ∷ record { id = 3; details = deposit; category = untouched }
    ∷ []

abbrev hash : Details → String
hash d = "hash"

pairs_test : pairs sent received ≡ true
unfolding may_pair is_match is_fd_counterparty opposite_direction different_accounts lower strip
pairs_test = refl

deposit_test : pairs sent deposit ≡ false
unfolding may_pair is_match is_fd_counterparty opposite_direction different_accounts lower strip
deposit_test = refl

pairs_comm_example : pairs sent received ≡ pairs received sent
pairs_comm_example = pairs_comm sent received

apply_reference_self_transfer_rule_idem_example :
    let (fired, after) = apply_reference_self_transfer_rule hash 4 100 1 sent rows in
    apply_reference_self_transfer_rule hash 4 200 1 sent after ≡ (fired, after)
apply_reference_self_transfer_rule_idem_example =
    apply_reference_self_transfer_rule_idem hash 4 1 sent 100 200 rows

one_row : (r : Transaction) → In r rows → r.id ≡ 1 → r.details ≡ sent
one_row r (inl e) h = ground arith
one_row r (inr (inl e)) h = ground arith
one_row r (inr (inr (inl e))) h = ground arith
one_row r (inr (inr (inr i))) h = absurd i

-- money that a shop hands back to a card, under a merchant rule of its own
abbrev handed_back : Fields
handed_back = record {
  counterparty = some (codes "ACME Foods");
  raw_description = none;
  channel = none;
  email_type = none;
  direction = "credit";
  bank = some (codes "hdfc");
  account_type = some "credit_card";
}

abbrev foods : RuleConfig
foods = record {
  self_name_tokens = codes "self" ∷ [];
  merchant_rules = (codes "acme", "dining") ∷ [];
}

abbrev friends : RuleConfig
friends = record foods { merchant_rules = (codes "acme", "repayment") ∷ [] }

match_rules-NoExpense_example : Gives NoExpense (match_rules handed_back foods)
match_rules-NoExpense_example =
    match_rules-NoExpense handed_back (unfold is_credit lower in refl)
      (unfold has_marker text_of normalize_text sub_punctuation join_words lower in refl) foods

-- a configured merchant rule does give a card credit a slug that the direction guard rules out
card_repayment_test :
    match_rules handed_back friends ≡ some (record { slug = "repayment"; confidence = 900000 })
unfolding match_rules fd_rule interest_rule email_rule fee_rule card_rule dividend_rule
    merchant_rule is_passed_over is_credit is_debit is_card_credit channel_is email_has has_marker
    text_of normalize_text sub_punctuation join_words lower strip is_fd_counterparty
card_repayment_test = refl

card_repayment_impossible_test : is_impossible "repayment" "credit" (some "credit_card") ≡ true
unfolding is_impossible
card_repayment_impossible_test = refl

abbrev surroundings : Surroundings
surroundings = record {
  input_hash = hash;
  vocab_version = 4;
  now = 100;
  account_type = λ a. some "bank_account";
  rule_config = foods;
  confidence_threshold = 600000;
  model_name = "gemini";
  llm_classify = λ f. some (record { slug = "dining"; confidence = 900000; reason = "" });
}

categorize_one-Categorized_example :
    Categorized surroundings true
      (record { id = 3; details = deposit; category = untouched })
      rows
      (categorize_one surroundings true
        (record { id = 3; details = deposit; category = untouched })
        rows)
categorize_one-Categorized_example =
    categorize_one-Categorized surroundings true
      (record { id = 3; details = deposit; category = untouched }) rows

-- A hash that tells 500 from 500.00: a row that is marked while the session holds its amount as 500 is
-- marked again once the amount is read back as 500.00.
abbrev amount_hash : Details → String
amount_hash d = if eqb d.amount.places 2 then "500.00" else "500"

abbrev as_given : Details
as_given = record sent { amount = record { negative = false; coefficient = 500; places = 0 } }

second_time : List Transaction → Option ℕ
second_time [] = none
second_time (r ∷ rs) = r.category.categorized_at

read_back_test :
    second_time
      (apply_reference_self_transfer_rule amount_hash 4 200 1 sent
        (apply_reference_self_transfer_rule amount_hash 4 100 1 as_given rows).1).1
    ≡ some 200
unfolding apply_reference_self_transfer_rule may_pair is_match is_fd_counterparty opposite_direction
    different_accounts lower strip mark_self_transfer already_current second_time
read_back_test = refl
