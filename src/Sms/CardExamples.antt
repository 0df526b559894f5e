-- ===== src/Sms/CardExamples.antt =====
-- The theorem on the choice of a card at concrete statements, and tests.
use bank_email_fetcher.Prelude.{
  ℕ, String, Option, none, some, List, [], ◌∷◌, ◌≡◌, ◌⊎◌, ap, refl, codes, strip,
}
use bank_email_fetcher.Linker.Context.{Account}
use bank_email_fetcher.Merge.Decimal.{dec_eq}
use bank_email_fetcher.Merge.Row.{Text, Transaction}
use bank_email_fetcher.Sms.Accounts.{AccountChoice}
use bank_email_fetcher.Prelude.Int.{◌-ℤ◌, neg}
use bank_email_fetcher.Sms.Cards.{
  Upload, load_cc_candidates, parse_cc_amount, dec_sub, dec_le, parse_outstanding, by_outstanding,
  latest_per_account, latest_statements, find_cc_account_by_total_due, choose_among, choose_account,
}
use bank_email_fetcher.Sms.Chosen.{IsCard, Chosen, choose_account-Backed}
use bank_email_fetcher.Sms.Examples.{rupees, stored}

-- two cards of one bank, with a statement each
abbrev card : ℕ → Account
card id = record { id = id; bank = codes "hdfc"; type = codes "credit_card"; account_number = none }

abbrev cards : List Account
cards = card 1 ∷ card 2 ∷ []

abbrev statement : ℕ → String → Upload
statement account_id total = record {
  account_id = account_id;
  due_date = some (codes "05/02/2024");
  total_amount_due = some (codes total);
  payment_status = some "unpaid";
  payment_paid_amount = some (rupees 100);
}

abbrev statements : List Upload
statements = statement 1 "900.00" ∷ statement 2 "1,500.00" ∷ []

abbrev bill : ℕ → Transaction
bill paid = record stored { direction = "credit"; amount = rupees paid }

abbrev some_date : Text → Option ℕ
some_date s = some 738556

run_choose : List Account → List Upload → Transaction → AccountChoice
unfolding load_cc_candidates parse_cc_amount dec_sub dec_le parse_outstanding by_outstanding
    latest_per_account latest_statements find_cc_account_by_total_due choose_among choose_account
    dec_eq strip ◌-ℤ◌ neg
run_choose accounts uploads r = choose_account some_date uploads accounts r

-- the total of the second card, what is left of the first, and neither
total_test : run_choose cards statements (bill 1500) ≡ record { account_id = some 2; prompt = none }
unfolding run_choose
total_test = refl

remaining_test :
    run_choose cards statements (bill 800) ≡ record { account_id = some 1; prompt = none }
unfolding run_choose
remaining_test = refl

prompt_test :
    run_choose cards statements (bill 700)
    ≡ record { account_id = none; prompt = some (1 ∷ 2 ∷ []) }
unfolding run_choose
prompt_test = refl

choose_account-Backed_example :
    IsCard (codes "hdfc") cards 2
    × ((load_cc_candidates (codes "hdfc") cards ≡ 2 ∷ [])
        ⊎ Chosen statements (load_cc_candidates (codes "hdfc") cards) some_date (rupees 1500) 2)
choose_account-Backed_example =
    choose_account-Backed some_date statements cards (bill 1500) 2
      (unfold run_choose in ap (λ (c : AccountChoice). c.account_id) total_test)
