-- ===== src/Merge/Enrich.antt =====
-- `compute_enrichment_diff` and `compute_applied_enrichment_diff` of
-- financial_dashboard/services/txn_merge.py. The value of a field has the type of its column.
use bank_email_fetcher.Prelude.{
  ℕ, Bool, true, false, ◌&&◌, ◌||◌, not, Option, none, some, List, [], ◌∷◌, eqb, ltb, codes_eq,
  contains, is_empty, strip, length, if◌then◌else◌,
}
use bank_email_fetcher.Masks.{mask_digits}
use bank_email_fetcher.Merge.Decimal.{Decimal, dec_eq, quantize}
use bank_email_fetcher.Merge.Row.{Text, Channel, sms, email, Transaction, TxnData}
use bank_email_fetcher.Merge.Text.{normalize_counterparty, ends_with}
use bank_email_fetcher.Merge.Window.{combine}
use bank_email_fetcher.Merge.Match.{MatchKind, standard, am_pm_alias}

-- `_ENRICHMENT_FIELDS`
pub data Field : Type 0 where
  transaction_date transaction_time counterparty card_mask account_mask : Field
  reference_number channel balance raw_description : Field

abbrev pub enrichment_fields : List Field
enrichment_fields =
    transaction_date ∷ transaction_time ∷ counterparty ∷ card_mask ∷ account_mask ∷ reference_number
    ∷ channel ∷ balance ∷ raw_description ∷ []

abbrev pub FieldType : Field → Type 0
FieldType transaction_date = ℕ
FieldType transaction_time = ℕ
FieldType counterparty = Text
FieldType card_mask = Text
FieldType account_mask = Text
FieldType reference_number = Text
FieldType channel = Text
FieldType balance = Decimal
FieldType raw_description = Text

-- getattr(existing, f)
abbrev pub stored : (f : Field) → Transaction → Option (FieldType f)
stored transaction_date r = r.transaction_date
stored transaction_time r = r.transaction_time
stored counterparty r = r.counterparty
stored card_mask r = r.card_mask
stored account_mask r = r.account_mask
stored reference_number r = r.reference_number
stored channel r = r.channel
stored balance r = r.balance
stored raw_description r = r.raw_description

-- incoming.get(f)
abbrev pub incoming : (f : Field) → TxnData → Option (FieldType f)
incoming transaction_date d = d.transaction_date
incoming transaction_time d = d.transaction_time
incoming counterparty d = d.counterparty
incoming card_mask d = d.card_mask
incoming account_mask d = d.account_mask
incoming reference_number d = d.reference_number
incoming channel d = d.channel
incoming balance d = d.balance
incoming raw_description d = d.raw_description

-- the value as its column stores it
abbrev pub as_stored : (f : Field) → FieldType f → FieldType f
as_stored balance v = quantize v
as_stored f v = v

-- setattr(match, f, value), and the flush
abbrev pub set_field : (f : Field) → FieldType f → Transaction → Transaction
set_field transaction_date v r = record r { transaction_date = some v }
set_field transaction_time v r = record r { transaction_time = some v }
set_field counterparty v r = record r { counterparty = some v }
set_field card_mask v r = record r { card_mask = some v }
set_field account_mask v r = record r { account_mask = some v }
set_field reference_number v r = record r { reference_number = some v }
set_field channel v r = record r { channel = some v }
set_field balance v r = record r { balance = some (quantize v) }
set_field raw_description v r = record r { raw_description = some v }

-- old == new
abbrev pub same_value : (f : Field) → FieldType f → FieldType f → Bool
same_value transaction_date a b = eqb a b
same_value transaction_time a b = eqb a b
same_value counterparty a b = codes_eq a b
same_value card_mask a b = codes_eq a b
same_value account_mask a b = codes_eq a b
same_value reference_number a b = codes_eq a b
same_value channel a b = codes_eq a b
same_value balance a b = dec_eq a b
same_value raw_description a b = codes_eq a b

-- f in _MASK_FIELDS and the digits agree
abbrev pub same_digits : (f : Field) → FieldType f → FieldType f → Bool
same_digits card_mask a b = codes_eq (mask_digits (some a)) (mask_digits (some b))
same_digits account_mask a b = codes_eq (mask_digits (some a)) (mask_digits (some b))
same_digits f a b = false

abbrev pub is_part : Text → Text → Bool
is_part old new = not (is_empty new) && contains new old && not (codes_eq new old)

abbrev pub is_shorter_mask : Text → Text → Bool
is_shorter_mask old new = ltb (length new) (length old) && ends_with old new

-- `_is_information_downgrade`
unfoldable pub is_information_downgrade : (f : Field) → FieldType f → FieldType f → Bool
is_information_downgrade counterparty old new =
    is_part (normalize_counterparty (some old)) (normalize_counterparty (some new))
is_information_downgrade card_mask old new =
    is_shorter_mask (mask_digits (some old)) (mask_digits (some new))
is_information_downgrade account_mask old new =
    is_shorter_mask (mask_digits (some old)) (mask_digits (some new))
is_information_downgrade raw_description old new = is_part (strip old) (strip new)
is_information_downgrade f old new = false

abbrev pub or_stored : Option ℕ → Option ℕ → Option ℕ
or_stored (some d) stored_date = some d
or_stored none stored_date = stored_date

abbrev pub earlier_at : Option ℕ → Option ℕ → ℕ → ℕ → Bool
earlier_at (some existing_date) (some incoming_date) new_time old_time =
    ltb (combine incoming_date new_time) (combine existing_date old_time)
earlier_at none incoming_date new_time old_time = ltb new_time old_time
earlier_at (some existing_date) none new_time old_time = ltb new_time old_time

-- `_incoming_time_is_earlier`
unfoldable pub incoming_time_is_earlier : Transaction → TxnData → ℕ → ℕ → Bool
incoming_time_is_earlier r d new_time old_time =
    earlier_at r.transaction_date (or_stored d.transaction_date r.transaction_date) new_time
      old_time

-- the two tests on times and dates that keep the stored value
abbrev pub is_later : (f : Field) → Transaction → TxnData → FieldType f → FieldType f → Bool
is_later transaction_time r d old new = not (incoming_time_is_earlier r d new old)
is_later transaction_date r d old new = ltb old new
is_later f r d old new = false

-- What the loop does with one field.
pub data Change (f : Field) : Type 0 where
  kept : Change f
  fill : FieldType f → Change f
  overwrite : FieldType f → FieldType f → Change f

-- the branches on two values
unfoldable pub on_conflict :
    (f : Field) → Channel → Transaction → TxnData → FieldType f → FieldType f → Change f
on_conflict f sms r d old new = kept
on_conflict f email r d old new =
    if same_value f old new || same_digits f old new
    then kept
    else if is_later f r d old new || is_information_downgrade f old new
    then kept
    else overwrite old new

abbrev pub change_from :
    (f : Field)
    → Channel
    → Transaction
    → TxnData
    → Option (FieldType f)
    → Option (FieldType f)
    → Change f
change_from f ch r d old none = kept
change_from f ch r d none (some new) = fill new
change_from f ch r d (some old) (some new) = on_conflict f ch r d old new

-- one round of the loop
unfoldable pub change_of : Transaction → TxnData → Channel → (f : Field) → Change f
change_of r d ch f = change_from f ch r d (stored f r) (incoming f d)

pub record Filled : Type 0 where
  pub field : Field
  pub value : FieldType field

pub record Overwritten : Type 0 where
  pub field : Field
  pub old : Option (FieldType field)
  pub value : FieldType field

-- `EnrichmentDiff`, its dictionaries in the order of insertion
pub record EnrichmentDiff : Type 0 where
  pub filled : List Filled
  pub overwritten : List Overwritten

abbrev pub no_diff : EnrichmentDiff
no_diff = record { filled = []; overwritten = [] }

abbrev pub add_change : (f : Field) → Change f → EnrichmentDiff → EnrichmentDiff
add_change f kept diff = diff
add_change f (fill v) diff = record diff { filled = record { field = f; value = v } ∷ diff.filled }
add_change f (overwrite o v) diff = record diff {
  overwritten = record { field = f; old = some o; value = v } ∷ diff.overwritten;
}

abbrev pub diff_over : Transaction → TxnData → Channel → List Field → EnrichmentDiff
diff_over r d ch [] = no_diff
diff_over r d ch (f ∷ fs) = add_change f (change_of r d ch f) (diff_over r d ch fs)

-- `compute_enrichment_diff`
unfoldable pub compute_enrichment_diff : Transaction → TxnData → Channel → EnrichmentDiff
compute_enrichment_diff r d ch = diff_over r d ch enrichment_fields

abbrev pub is_time : Field → Bool
is_time transaction_time = true
is_time f = false

-- diff.overwritten["transaction_time"] = (old, new)
abbrev pub put_time : Option ℕ → ℕ → List Overwritten → List Overwritten
put_time old new [] = record { field = transaction_time; old = old; value = new } ∷ []
put_time old new (o ∷ os) =
    let rest = put_time old new os in
    if is_time o.field
    then record { field = transaction_time; old = old; value = new } ∷ os
    else o ∷ rest

abbrev pub time_differs : Option ℕ → ℕ → Bool
time_differs none new = true
time_differs (some old) new = not (eqb old new)

abbrev pub correct_time : Option ℕ → Option ℕ → EnrichmentDiff → EnrichmentDiff
correct_time old none diff = diff
correct_time old (some new) diff =
    if time_differs old new
    then record diff { overwritten = put_time old new diff.overwritten }
    else diff

-- `compute_applied_enrichment_diff`
unfoldable pub compute_applied_enrichment_diff :
    Transaction → TxnData → Channel → MatchKind → EnrichmentDiff
compute_applied_enrichment_diff r d ch standard = compute_enrichment_diff r d ch
compute_applied_enrichment_diff r d ch am_pm_alias =
    correct_time r.transaction_time d.transaction_time (compute_enrichment_diff r d ch)
