-- ===== src/Merge/Fields.antt =====
-- The columns of an enriched row: the two dictionaries of the diff, written one after the other, give
-- every field what the loop decided for it.
use bank_email_fetcher.Prelude.{
  Bool, true, false, ◌||◌, Option, none, some, List, [], ◌∷◌, ◌≡◌, ◌∙◌, refl, ap, if◌then◌else◌,
}
use bank_email_fetcher.Merge.Row.{Channel, Transaction, TxnData}
use bank_email_fetcher.Merge.Enrich.{
  Field, transaction_date, transaction_time, counterparty, card_mask, account_mask,
  reference_number, channel, balance, raw_description, enrichment_fields, FieldType, stored,
  as_stored, set_field, Change, kept, fill, overwrite, change_of, Filled, Overwritten,
  EnrichmentDiff, add_change, diff_over, compute_enrichment_diff,
}
use bank_email_fetcher.Merge.Run.{apply_filled, apply_overwritten, set_fields}

-- An option of `g` as one of `f`, where the two are one field.
unfoldable pub at_option : (f g : Field) → Option (FieldType g) → Option (FieldType f)
at_option transaction_date transaction_date o = o
at_option transaction_time transaction_time o = o
at_option counterparty counterparty o = o
at_option card_mask card_mask o = o
at_option account_mask account_mask o = o
at_option reference_number reference_number o = o
at_option channel channel o = o
at_option balance balance o = o
at_option raw_description raw_description o = o
at_option f g o = none

abbrev pub value_at : (f g : Field) → FieldType g → Option (FieldType f)
value_at f g v = at_option f g (some (as_stored g v))

abbrev pub or_else {ℓ} : {A : Type ℓ} → Option A → Option A → Option A
or_else none b = b
or_else (some a) b = some a

stored-set_field :
    (f g : Field) (v : FieldType g) (r : Transaction)
    → stored f (set_field g v r) ≡ or_else (value_at f g v) (stored f r)
unfolding at_option
stored-set_field transaction_date transaction_date v r = refl
stored-set_field transaction_time transaction_time v r = refl
stored-set_field counterparty counterparty v r = refl
stored-set_field card_mask card_mask v r = refl
stored-set_field account_mask account_mask v r = refl
stored-set_field reference_number reference_number v r = refl
stored-set_field channel channel v r = refl
stored-set_field balance balance v r = refl
stored-set_field raw_description raw_description v r = refl
stored-set_field f g v r = refl

-- The last value for `f` in each dictionary.
last_filled : (f : Field) → List Filled → Option (FieldType f)
last_filled f [] = none
last_filled f (c ∷ cs) = or_else (last_filled f cs) (value_at f c.field c.value)

unfoldable pub last_overwritten : (f : Field) → List Overwritten → Option (FieldType f)
last_overwritten f [] = none
last_overwritten f (c ∷ cs) = or_else (last_overwritten f cs) (value_at f c.field c.value)

or_else_assoc {ℓ} :
    {A : Type ℓ} (a b c : Option A) → or_else a (or_else b c) ≡ or_else (or_else a b) c
or_else_assoc none b c = refl
or_else_assoc (some a) b c = refl

stored-apply_filled :
    (f : Field) (cs : List Filled) (r : Transaction)
    → stored f (apply_filled cs r) ≡ or_else (last_filled f cs) (stored f r)
unfolding last_filled
stored-apply_filled f [] r = refl
stored-apply_filled f (c ∷ cs) r =
    stored-apply_filled f cs (set_field c.field c.value r)
    ∙ (ap (or_else (last_filled f cs)) (stored-set_field f c.field c.value r)
        ∙ or_else_assoc (last_filled f cs) (value_at f c.field c.value) (stored f r))

pub stored-apply_overwritten :
    (f : Field) (cs : List Overwritten) (r : Transaction)
    → stored f (apply_overwritten cs r) ≡ or_else (last_overwritten f cs) (stored f r)
unfolding last_overwritten
stored-apply_overwritten f [] r = refl
stored-apply_overwritten f (c ∷ cs) r =
    stored-apply_overwritten f cs (set_field c.field c.value r)
    ∙ (ap (or_else (last_overwritten f cs)) (stored-set_field f c.field c.value r)
        ∙ or_else_assoc (last_overwritten f cs) (value_at f c.field c.value) (stored f r))

-- what one change puts into each dictionary
abbrev fill_value : (g : Field) → Change g → Option (FieldType g)
fill_value g kept = none
fill_value g (fill v) = some (as_stored g v)
fill_value g (overwrite o v) = none

abbrev new_value : (g : Field) → Change g → Option (FieldType g)
new_value g kept = none
new_value g (fill v) = none
new_value g (overwrite o v) = some (as_stored g v)

at_option-none : (f g : Field) → at_option f g none ≡ none
unfolding at_option
at_option-none transaction_date transaction_date = refl
at_option-none transaction_time transaction_time = refl
at_option-none counterparty counterparty = refl
at_option-none card_mask card_mask = refl
at_option-none account_mask account_mask = refl
at_option-none reference_number reference_number = refl
at_option-none channel channel = refl
at_option-none balance balance = refl
at_option-none raw_description raw_description = refl
at_option-none f g = refl

abbrev same_field : Field → Field → Bool
same_field transaction_date transaction_date = true
same_field transaction_time transaction_time = true
same_field counterparty counterparty = true
same_field card_mask card_mask = true
same_field account_mask account_mask = true
same_field reference_number reference_number = true
same_field channel channel = true
same_field balance balance = true
same_field raw_description raw_description = true
same_field f g = false

at_option-same :
    (h : (f : Field) → Option (FieldType f)) (f g : Field)
    → at_option f g (h g) ≡ (if same_field f g then h f else none)
unfolding at_option
at_option-same h transaction_date transaction_date = refl
at_option-same h transaction_time transaction_time = refl
at_option-same h counterparty counterparty = refl
at_option-same h card_mask card_mask = refl
at_option-same h account_mask account_mask = refl
at_option-same h reference_number reference_number = refl
at_option-same h channel channel = refl
at_option-same h balance balance = refl
at_option-same h raw_description raw_description = refl
at_option-same h f g = refl

or_else-none {ℓ} : {A : Type ℓ} (a : Option A) → or_else a none ≡ a
or_else-none none = refl
or_else-none (some a) = refl

last_filled-add :
    (f g : Field) (c : Change g) (diff : EnrichmentDiff)
    → last_filled f (add_change g c diff).filled
      ≡ or_else (last_filled f diff.filled) (at_option f g (fill_value g c))
unfolding last_filled
last_filled-add f g kept diff = rw (at_option-none f g, or_else-none (last_filled f diff.filled))
last_filled-add f g (fill v) diff = refl
last_filled-add f g (overwrite o v) diff =
    rw (at_option-none f g, or_else-none (last_filled f diff.filled))

last_overwritten-add :
    (f g : Field) (c : Change g) (diff : EnrichmentDiff)
    → last_overwritten f (add_change g c diff).overwritten
      ≡ or_else (last_overwritten f diff.overwritten) (at_option f g (new_value g c))
unfolding last_overwritten
last_overwritten-add f g kept diff =
    rw (at_option-none f g, or_else-none (last_overwritten f diff.overwritten))
last_overwritten-add f g (fill v) diff =
    rw (at_option-none f g, or_else-none (last_overwritten f diff.overwritten))
last_overwritten-add f g (overwrite o v) diff = refl

abbrev mem_field : Field → List Field → Bool
mem_field f [] = false
mem_field f (g ∷ gs) = same_field f g || mem_field f gs

or_else-if {ℓ} :
    {A : Type ℓ} (b c : Bool) (x : Option A)
    → or_else (if c then x else none) (if b then x else none) ≡ (if b || c then x else none)
or_else-if true true none = refl
or_else-if true true (some a) = refl
or_else-if true false x = refl
or_else-if false true x = or_else-none x
or_else-if false false x = refl

module _ (r : Transaction) (d : TxnData) (ch : Channel) where
  last_filled-diff :
      (f : Field) (gs : List Field)
      → last_filled f (diff_over r d ch gs).filled
        ≡ (if mem_field f gs then fill_value f (change_of r d ch f) else none)
  unfolding last_filled
  last_filled-diff f [] = refl
  last_filled-diff f (g ∷ gs) =
      last_filled-add f g (change_of r d ch g) (diff_over r d ch gs)
      ∙ rw (last_filled-diff f gs, at_option-same (λ k. fill_value k (change_of r d ch k)) f g)
          (or_else-if (same_field f g) (mem_field f gs) (fill_value f (change_of r d ch f)))

  last_overwritten-diff :
      (f : Field) (gs : List Field)
      → last_overwritten f (diff_over r d ch gs).overwritten
        ≡ (if mem_field f gs then new_value f (change_of r d ch f) else none)
  unfolding last_overwritten
  last_overwritten-diff f [] = refl
  last_overwritten-diff f (g ∷ gs) =
      last_overwritten-add f g (change_of r d ch g) (diff_over r d ch gs)
      ∙ rw (last_overwritten-diff f gs, at_option-same (λ k. new_value k (change_of r d ch k)) f g)
          (or_else-if (same_field f g) (mem_field f gs) (new_value f (change_of r d ch f)))

all_fields : (f : Field) → mem_field f enrichment_fields ≡ true
all_fields transaction_date = refl
all_fields transaction_time = refl
all_fields counterparty = refl
all_fields card_mask = refl
all_fields account_mask = refl
all_fields reference_number = refl
all_fields channel = refl
all_fields balance = refl
all_fields raw_description = refl

-- what the loop leaves in a field
abbrev pub decided : (f : Field) → Change f → Option (FieldType f) → Option (FieldType f)
decided f kept old = old
decided f (fill v) old = some (as_stored f v)
decided f (overwrite o v) old = some (as_stored f v)

decided-dictionaries :
    (f : Field) (c : Change f) (old : Option (FieldType f))
    → or_else (new_value f c) (or_else (fill_value f c) old) ≡ decided f c old
decided-dictionaries f kept old = refl
decided-dictionaries f (fill v) old = refl
decided-dictionaries f (overwrite o v) old = refl

module _ (r s : Transaction) (d : TxnData) (ch : Channel) where
  -- The two dictionaries that the loop of `compute_enrichment_diff` builds from the row it read, set
  -- one after the other on the row as it is stored, give each of the nine fields what the loop decided
  -- for it: the incoming value, as its column stores it, where it fills or overwrites, and else the
  -- stored value.
  pub set_fields-decided :
      (f : Field)
      → stored f (set_fields (compute_enrichment_diff r d ch) s)
        ≡ decided f (change_of r d ch f) (stored f s)
  unfolding set_fields compute_enrichment_diff
  set_fields-decided f =
      let diff = diff_over r d ch enrichment_fields in
      stored-apply_overwritten f diff.overwritten (apply_filled diff.filled s)
      ∙ rw
          (
            stored-apply_filled f diff.filled s,
            last_filled-diff r d ch f enrichment_fields,
            last_overwritten-diff r d ch f enrichment_fields,
            all_fields f,
          )
          (decided-dictionaries f (change_of r d ch f) (stored f s))
