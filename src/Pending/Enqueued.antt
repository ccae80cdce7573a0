-- ===== src/Pending/Enqueued.antt =====
-- What a trigger does to the queue.
use Prim.Native.Nat.{max}
use quant_data_center_cn.Prelude.{
  ℕ, suc, ◌<◌, ◌≡◌, refl, sym, ap, ◌∙◌, String, List, [], ◌∷◌, ◌++◌, Bool, true, false, not, ◌==◌,
  string_eq, any, length, select, Bool-cases, inl, inr, arith, All, ok, err, ==_iff, ok-injective,
  Result-cases, subst,
}
use quant_data_center_cn.Prelude.Text.{strip}
use quant_data_center_cn.Pending.{
  PendingRow, is_retryable, is_active, replace_active, enqueue_row,
  enqueue_capital_structure_pending, triggered, normalize_trigger_code, normalize_akshare_code,
  without_exchange, all_digits, not_six_digits,
}

module _ (row : PendingRow) where
  abbrev pub mine : PendingRow → Bool
  mine = is_active row.code

  abbrev pub others : List PendingRow → List PendingRow
  others = select (λ r. not (mine r))

  -- The rows of the trigger's code that are to be tried are all the given row; there are as many of
  -- them as before, and at least one; and every other row stays, in its place among the others.
  pub record Enqueued (before after : List PendingRow) : Type 0 where
    pub all_new : All (λ r. r ≡ row) (select mine after)
    pub counted : length (select mine after) ≡ max 1 (length (select mine before))
    pub kept : others after ≡ others before

module _ (row : PendingRow) (active : is_active row.code row ≡ true) where
  replace-others : (rows : List PendingRow) → others row (replace_active row rows) ≡ others row rows
  unfolding replace_active
  replace-others [] = refl
  replace-others (r ∷ rows) = elim (Bool-cases (mine row r)) [
    | inl e ↦ rw (e, active) (replace-others rows)
    | inr e ↦ rw (e, e) (ap (◌∷◌ r) (replace-others rows))
  ]

  replace-mine :
      (rows : List PendingRow)
      → All (λ r. r ≡ row) (select (mine row) (replace_active row rows))
        × (length (select (mine row) (replace_active row rows)) ≡ length (select (mine row) rows))
  unfolding replace_active
  replace-mine [] = (tt, refl)
  replace-mine (r ∷ rows) = elim (Bool-cases (mine row r)) [
    | inl e ↦ rw (e, active) ((refl, (replace-mine rows).0), ap suc (replace-mine rows).1)
    | inr e ↦ rw (e, e) (replace-mine rows)
  ]

  any-select :
      (rows : List PendingRow) → any (mine row) rows ≡ true → 0 < length (select (mine row) rows)
  any-select [] h = ground arith
  any-select (r ∷ rows) h = elim (Bool-cases (mine row r)) [
    | inl e ↦ rw e (omega arith)
    | inr e ↦ rw e (any-select rows (rw e at h))
  ]

  no_mine :
      (rows : List PendingRow)
      → any (mine row) rows ≡ false
      → select (mine row) (rows ++ (row ∷ [])) ≡ row ∷ []
  no_mine [] h = rw active refl
  no_mine (r ∷ rows) h = elim (Bool-cases (mine row r)) [
    | inl e ↦ let k : true ≡ false = sym (rw e refl) ∙ h in cc
    | inr e ↦ rw e (no_mine rows (rw e at h))
  ]

  append-others : (rows : List PendingRow) → others row (rows ++ (row ∷ [])) ≡ others row rows
  append-others [] = rw active refl
  append-others (r ∷ rows) = elim (Bool-cases (mine row r)) [
    | inl e ↦ rw e (append-others rows)
    | inr e ↦ rw e (ap (◌∷◌ r) (append-others rows))
  ]

  none-select :
      (rows : List PendingRow) → any (mine row) rows ≡ false → length (select (mine row) rows) ≡ 0
  none-select [] h = refl
  none-select (r ∷ rows) h = elim (Bool-cases (mine row r)) [
    | inl e ↦ let k : true ≡ false = sym (rw e refl) ∙ h in cc
    | inr e ↦ rw e (none-select rows (rw e at h))
  ]

  enqueue_row-Enqueued : (rows : List PendingRow) → Enqueued row rows (enqueue_row row rows)
  unfolding enqueue_row
  enqueue_row-Enqueued rows = elim (Bool-cases (any (mine row) rows)) [
    | inl e ↦ rw e (record {
      all_new = (replace-mine rows).0;
      counted = (replace-mine rows).1 ∙ omega (arith, any-select rows e);
      kept = replace-others rows;
    })
    | inr e ↦ rw e (record {
      all_new = rw (no_mine rows e) (refl, tt);
      counted = rw (no_mine rows e, none-select rows e) refl;
      kept = append-others rows;
    })
  ]

normalized_digits :
    (is_decimal : ℕ → Bool) (code stock_code : String)
    → normalize_trigger_code is_decimal code ≡ ok stock_code
    → all_digits is_decimal 6 stock_code ≡ true
unfolding normalize_trigger_code normalize_akshare_code
normalized_digits is_decimal code stock_code h =
    let value = strip (without_exchange (strip code)) in
    elim (Bool-cases (all_digits is_decimal 6 value)) [
      | inl e ↦
          let same : value ≡ stock_code =
            ok-injective (sym (rw (normalize_akshare_code, e) refl) ∙ h) in
          rw (sym same) e
      | inr e ↦
          let refused : err (not_six_digits value) ≡ ok stock_code =
            sym (rw (normalize_akshare_code, e) refl) ∙ h in
          cc
    ]

triggered-active :
    (code dataset reason : String) (now : ℕ)
    → is_active code (triggered code dataset reason now) ≡ true
unfolding is_active is_retryable triggered
triggered-active code dataset reason now =
    let same : (code == code) ≡ true = (==_iff code code).1 refl in
    rw same (unfold string_eq in refl)

-- When a trigger is accepted, the code is stored without its exchange, as six digits; the rows of that
-- code that are to be tried are all the trigger's row, as many as before and at least one; and every
-- other row stays.
pub enqueue-Enqueued :
    (is_decimal : ℕ → Bool) (code dataset reason : String) (now : ℕ)
    (before after : List PendingRow)
    → enqueue_capital_structure_pending is_decimal code dataset reason now before ≡ ok after
    → (stock_code : String) × (normalize_trigger_code is_decimal code ≡ ok stock_code)
      × (all_digits is_decimal 6 stock_code ≡ true)
      × Enqueued (triggered stock_code dataset reason now) before after
unfolding enqueue_capital_structure_pending
enqueue-Enqueued is_decimal code dataset reason now before after h =
    elim (Result-cases (normalize_trigger_code is_decimal code)) [
      | inl (e, k) ↦
          let refused : err e ≡ ok after =
            sym (rw (enqueue_capital_structure_pending, k) refl) ∙ h in
          cc
      | inr (stock_code, k) ↦
          let row = triggered stock_code dataset reason now in
          let same : enqueue_row row before ≡ after =
            ok-injective (sym (rw (enqueue_capital_structure_pending, k) refl) ∙ h) in
          (
            stock_code,
            k,
            normalized_digits is_decimal code stock_code k,
            subst (Enqueued row before) same (
                enqueue_row-Enqueued row
                  (unfold triggered in triggered-active stock_code dataset reason now) before),
          )
    ]
