-- ===== src/Cycle/Examples.antt =====
-- The theorems of the billing cycles at concrete uploads, and tests.
use text.Mathlib.Text.{◌==◌}
use bank_email_fetcher.Prelude.{
  ℕ, ◌*◌, String, true, Option, none, some, List, [], ◌∷◌, ◌≡◌, refl, inl, arith, In, if◌then◌else◌,
}
use bank_email_fetcher.Cycle.{
  StatementUpload, day, boundary, before, insert, sort, neighbours, due, anchors, next_created,
  cc_cycle_window, in_window,
}
use bank_email_fetcher.Cycle.Rows.{HasKeys}
use bank_email_fetcher.Cycle.Partition.{cc_cycle_window_unique, cc_cycle_window_covers}

-- a parser that knows three dates
abbrev parse : String → Option ℕ
parse text =
    if text == "10/01/1970"
    then some 9
    else if text == "10/02/1970"
    then some 40
    else if text == "10/03/1970"
    then some 68
    else none

-- two bills ingested out of order, one that could not be read, and a bill sent twice
abbrev february : StatementUpload
february = record {
  id = 1;
  account_id = 5;
  due_date = some "10/02/1970";
  created_at = some (20 * day);
}

abbrev january : StatementUpload
january = record {
  id = 2;
  account_id = 5;
  due_date = some "10/01/1970";
  created_at = some (25 * day);
}

abbrev unread : StatementUpload
unread = record { id = 3; account_id = 5; due_date = none; created_at = some (30 * day) }

abbrev again : StatementUpload
again = record february { id = 4; created_at = some (50 * day) }

abbrev uploads : List StatementUpload
uploads = february ∷ january ∷ unread ∷ again ∷ []

keys : HasKeys uploads
keys = ground arith

february_test : cc_cycle_window parse 0 uploads february ≡ record { start = 10; end = some 41 }
unfolding cc_cycle_window due anchors sort insert before neighbours boundary
february_test = refl

again_test : cc_cycle_window parse 0 uploads again ≡ record { start = 41; end = none }
unfolding cc_cycle_window due anchors sort insert before neighbours boundary
again_test = refl

unread_test : cc_cycle_window parse 0 uploads unread ≡ record { start = 30; end = some 50 }
unfolding cc_cycle_window due next_created
unread_test = refl

cc_cycle_window_unique_example : february.id ≡ february.id
unfolding cc_cycle_window due anchors sort insert before neighbours boundary
cc_cycle_window_unique_example =
    cc_cycle_window_unique parse 0 uploads keys 30 40 40 february february (inl refl) (inl refl)
      refl refl refl refl refl

cc_cycle_window_covers_example :
    (v : StatementUpload) × In v uploads
    × (v.account_id ≡ 5)
    × (in_window 60 (cc_cycle_window parse 0 uploads v) ≡ true)
unfolding cc_cycle_window due anchors sort insert before neighbours boundary
cc_cycle_window_covers_example =
    cc_cycle_window_covers parse 0 uploads keys 60 40 february (inl refl) refl (omega arith)
