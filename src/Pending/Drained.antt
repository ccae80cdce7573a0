-- ===== src/Pending/Drained.antt =====
-- What a drain does to the queue.
use quant_data_center_cn.Prelude.{
  ℕ, suc, ◌≡◌, ◌⊎◌, refl, String, none, some, List, [], ◌∷◌, true, false, string_eq, Bool-cases,
  inl, inr, arith, All,
}
use quant_data_center_cn.Pending.{
  PendingRow, is_retryable, UpdateRecord, Update, returned, raised, has_failed, attempt_row,
  drain_rows, drain_capital_structure_pending,
}

-- A row before and after a drain at the given time: it is as it was, unless it was to be tried; then the
-- time is noted, and it is successful, or still to be tried.
pub record Settled (now : ℕ) (before after : PendingRow) : Type 0 where
  pub same_code : after.code ≡ before.code
  pub left : is_retryable before ≡ false → after ≡ before
  pub tried :
      is_retryable before ≡ true
      → (after.last_attempt_at ≡ some now)
        × ((after.status ≡ "success") ⊎ (is_retryable after ≡ true))

pub data AllSettled (now : ℕ) : List PendingRow → List PendingRow → Type 0 where
  no_rows : AllSettled now [] []
  row_then :
      {r q : PendingRow} {rows later : List PendingRow}
      → Settled now r q
      → AllSettled now rows later
      → AllSettled now (r ∷ rows) (q ∷ later)

module _ (updater : ℕ → String → Update) (trace : List UpdateRecord → String) (now : ℕ) where
  attempt-tried :
      (u : Update) (r : PendingRow)
      → ((attempt_row trace now u r).0.code ≡ r.code)
        × ((attempt_row trace now u r).0.last_attempt_at ≡ some now)
        × (((attempt_row trace now u r).0.status ≡ "success")
            ⊎ (is_retryable (attempt_row trace now u r).0 ≡ true))
  unfolding attempt_row
  attempt-tried (raised t) r = (refl, refl, inr (unfold is_retryable string_eq in refl))
  attempt-tried (returned records) r = elim (Bool-cases (has_failed records)) [
    | inl e ↦ rw e (refl, refl, inr (unfold is_retryable string_eq in refl))
    | inr e ↦ rw e (refl, refl, inl refl)
  ]

  drain_rows-AllSettled :
      (rows : List PendingRow) (n : ℕ) → AllSettled now rows (drain_rows updater trace now n rows).0
  unfolding drain_rows
  drain_rows-AllSettled [] n = no_rows
  drain_rows-AllSettled (r ∷ rows) n = elim (Bool-cases (is_retryable r)) [
    | inl e ↦
        rw (drain_rows, e)
          (row_then
            (record {
              same_code = (attempt-tried (updater n r.code) r).0;
              left = λ f. absurd (ground (arith, e, f));
              tried = λ _.
                  ((attempt-tried (updater n r.code) r).1, (attempt-tried (updater n r.code) r).2);
            })
            (drain_rows-AllSettled rows (suc n)))
    | inr e ↦
        rw (drain_rows, e)
          (row_then
            (record {
              same_code = refl;
              left = λ _. refl;
              tried = λ t. absurd (ground (arith, e, t));
            })
            (drain_rows-AllSettled rows n))
  ]

  -- The queue after a drain: an empty one is not written.
  abbrev pub queue_after : List PendingRow → List PendingRow
  queue_after rows = elim (drain_capital_structure_pending updater trace now rows).0 [
    | none ↦ rows
    | some written ↦ written
  ]

  -- A drain keeps the rows in their order, each with its code, and settles each: a row that is not to be
  -- tried is as it was, and one that is gets the time of the attempt and is successful or still to be
  -- tried.
  pub drain-AllSettled : (rows : List PendingRow) → AllSettled now rows (queue_after rows)
  unfolding drain_capital_structure_pending
  drain-AllSettled [] = no_rows
  drain-AllSettled (r ∷ rows) = drain_rows-AllSettled (r ∷ rows) 0

  -- Every call of the updater returns, with no record that has failed.
  abbrev pub Works : Type 0
  Works =
      (n : ℕ) (code : String)
      → (records : List UpdateRecord) × (updater n code ≡ returned records)
        × (has_failed records ≡ false)

  attempt_works :
      (u : Update) (r : PendingRow) (records : List UpdateRecord)
      → u ≡ returned records
      → has_failed records ≡ false
      → is_retryable (attempt_row trace now u r).0 ≡ false
  unfolding attempt_row is_retryable
  attempt_works u r records h f = rw (h, attempt_row, f) (unfold string_eq in refl)

  drain_rows_finish :
      Works
      → (rows : List PendingRow) (n : ℕ)
      → All (λ r. is_retryable r ≡ false) (drain_rows updater trace now n rows).0
  unfolding drain_rows
  drain_rows_finish works [] n = tt
  drain_rows_finish works (r ∷ rows) n = elim (Bool-cases (is_retryable r)) [
    | inl e ↦
        let (records, h, f) = works n r.code in
        rw (drain_rows, e)
          (attempt_works (updater n r.code) r records h f, drain_rows_finish works rows (suc n))
    | inr e ↦ rw (drain_rows, e) (e, drain_rows_finish works rows n)
  ]

  -- After a drain whose every call of the updater works, no row is to be tried.
  pub drain_finishes :
      Works → (rows : List PendingRow) → All (λ r. is_retryable r ≡ false) (queue_after rows)
  unfolding drain_capital_structure_pending
  drain_finishes works [] = tt
  drain_finishes works (r ∷ rows) = drain_rows_finish works (r ∷ rows) 0
