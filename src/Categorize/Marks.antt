-- ===== src/Categorize/Marks.antt =====
-- What the self-transfer rule writes into the table of transactions.
use bank_email_fetcher.Prelude.{
  ℕ, String, true, false, ◌&&◌, ◌||◌, List, [], ◌∷◌, ◌≡◌, refl, ◌∙◌, ap, arith, inl, inr, eq_iff,
  Bool-cases, eqb, In, if◌then◌else◌,
}
use bank_email_fetcher.Categorize.Transfer.{
  Details, Transaction, is_fd, may_pair, is_match, has_match, already_current, mark_self_transfer,
  held_details, mark_pair, apply_reference_self_transfer_rule,
}

-- the fixed-deposit rows, in order
abbrev pub fd_rows : List Transaction → List Transaction
fd_rows [] = []
fd_rows (r ∷ rows) = let rest = fd_rows rows in if is_fd r.details then r ∷ rest else rest

module _ (input_hash : Details → String) (vocab_version : ℕ) where
  mark_self_transfer-keeps :
      (now : ℕ) (d : Details) (r : Transaction)
      → let m = mark_self_transfer input_hash vocab_version now d r in
        (m.id ≡ r.id) × (m.details ≡ r.details)
  unfolding mark_self_transfer
  mark_self_transfer-keeps now d r =
      elim (Bool-cases (already_current input_hash vocab_version d r.category)) [
        | inl current ↦ rw current (refl, refl)
        | inr stale ↦ rw stale (refl, refl)
      ]

  already_current-marked :
      (now : ℕ) (d : Details) (r : Transaction)
      → already_current input_hash vocab_version d
          (mark_self_transfer input_hash vocab_version now d r).category
        ≡ true
  unfolding mark_self_transfer
  already_current-marked now d r =
      elim (Bool-cases (already_current input_hash vocab_version d r.category)) [
        | inl current ↦ rw current current
        | inr stale ↦
            rw stale
              (unfold already_current in ground (arith, eq_iff (input_hash d) (input_hash d)))
      ]

  mark_self_transfer_idem :
      (now later : ℕ) (d : Details) (r : Transaction)
      → let m = mark_self_transfer input_hash vocab_version now d r in
        mark_self_transfer input_hash vocab_version later d m ≡ m
  unfolding mark_self_transfer
  mark_self_transfer_idem now later d r = rw (already_current-marked now d r) refl

  module _ (id : ℕ) (d : Details) where
    has_match-mark_pair :
        (now : ℕ) (rows : List Transaction)
        → has_match d (mark_pair input_hash vocab_version now id d rows) ≡ has_match d rows
    has_match-mark_pair now [] = refl
    has_match-mark_pair now (r ∷ rows) = elim (Bool-cases (eqb r.id id || is_match d r.details)) [
      | inl hit ↦ rw hit (
          rw
            ((mark_self_transfer-keeps now (held_details id d r) r).1, has_match-mark_pair now rows)
            refl)
      | inr miss ↦ rw miss (rw (has_match-mark_pair now rows) refl)
    ]

    mark_pair_idem :
        (now later : ℕ) (rows : List Transaction)
        → let marked = mark_pair input_hash vocab_version now id d rows in
          mark_pair input_hash vocab_version later id d marked ≡ marked
    mark_pair_idem now later [] = refl
    mark_pair_idem now later (r ∷ rows) =
        let h = held_details id d r in
        let m = mark_self_transfer input_hash vocab_version now h r in
        let (same_id, same_details) = mark_self_transfer-keeps now h r in
        elim (Bool-cases (eqb r.id id || is_match d r.details)) [
          | inl hit ↦
              let again : (eqb m.id id || is_match d m.details) ≡ true =
                rw (same_id, same_details) hit in
              let held : held_details id d m ≡ h = rw (same_id, same_details) refl in
              rw hit (
                rw again (
                  rw (held, mark_self_transfer_idem now later h r, mark_pair_idem now later rows)
                    refl))
          | inr miss ↦ rw miss (rw miss (rw (mark_pair_idem now later rows) refl))
        ]

    -- Running the rule a second time, later, for the same row writes nothing, where the session holds
    -- the same columns of it as the first time, the digits of its amount among them, and the columns
    -- of the table, the vocabulary and the types of the accounts, which the hash reads, are as they
    -- were: the answer is the same and so is every row, with the time of its categorization.
    pub apply_reference_self_transfer_rule_idem :
        (now later : ℕ) (rows : List Transaction)
        → let (fired, after) =
            apply_reference_self_transfer_rule input_hash vocab_version now id d rows in
          apply_reference_self_transfer_rule input_hash vocab_version later id d after
          ≡ (fired, after)
    unfolding apply_reference_self_transfer_rule
    apply_reference_self_transfer_rule_idem now later rows =
        elim (Bool-cases (may_pair d && has_match d rows)) [
          | inl fires ↦
              let still : (may_pair d
                    && has_match d (mark_pair input_hash vocab_version now id d rows))
                  ≡ true =
                rw (has_match-mark_pair now rows) fires in
              rw fires (rw still (rw (mark_pair_idem now later rows) refl))
          | inr quiet ↦ rw quiet (rw quiet refl)
        ]

    fd_rows-mark_pair :
        (now : ℕ) (rows : List Transaction)
        → is_fd d ≡ false
        → ((r : Transaction) → In r rows → r.id ≡ id → r.details ≡ d)
        → fd_rows (mark_pair input_hash vocab_version now id d rows) ≡ fd_rows rows
    unfolding is_match
    fd_rows-mark_pair now [] free own = refl
    fd_rows-mark_pair now (r ∷ rows) free own =
        let rest = fd_rows-mark_pair now rows free (λ x i. own x (inr i)) in
        elim (Bool-cases (eqb r.id id || is_match d r.details)) [
          | inr miss ↦ rw miss (rw rest refl)
          | inl hit ↦
              let plain : is_fd r.details ≡ false = elim (Bool-cases (eqb r.id id)) [
                | inl mine ↦ ap is_fd (own r (inl refl) (ground arith)) ∙ free
                | inr other ↦ ground arith
              ] in
              rw hit (rw ((mark_self_transfer-keeps now (held_details id d r) r).1, plain) rest)
        ]

    -- The rule never writes to a fixed-deposit row, whichever row it runs for, provided that the id
    -- is that of the row with these details.
    pub apply_reference_self_transfer_rule-fd_rows :
        (now : ℕ) (rows : List Transaction)
        → ((r : Transaction) → In r rows → r.id ≡ id → r.details ≡ d)
        → fd_rows (apply_reference_self_transfer_rule input_hash vocab_version now id d rows).1
          ≡ fd_rows rows
    unfolding apply_reference_self_transfer_rule
    apply_reference_self_transfer_rule-fd_rows now rows own =
        elim (Bool-cases (may_pair d && has_match d rows)) [
          | inr quiet ↦ rw quiet refl
          | inl fires ↦
              let free : is_fd d ≡ false = unfold may_pair in ground arith in
              rw fires (fd_rows-mark_pair now rows free own)
        ]
