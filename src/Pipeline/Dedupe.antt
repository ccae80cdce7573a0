-- ===== src/Pipeline/Dedupe.antt =====
-- src/pipeline/lifecycle.py: `_dedupe_rows`, for any rows and any key of theirs. `latest` is the
-- independent description: the last row of a key.
use quant_data_center_cn.Prelude.{
  Eq, ◌==◌, ◌≡◌, refl, sym, ap, ◌∙◌, List, [], ◌∷◌, ◌++◌, Option, none, some, or_else, or_else-none,
  or_else_assoc, or_else-if, if◌then◌else◌, arith, false, Bool-cases, inl, inr, ==_iff, All, ◌≢◌,
}
use quant_data_center_cn.Prelude.Dict.{Dict, lookup, insert, lookup-insert}

module _ {ℓ κ} {R : Type ℓ} {K : Type κ} ⦃e : Eq K⦄ (key : R → K) where
  by_key : Dict K R → List R → Dict K R
  by_key d [] = d
  by_key d (row ∷ rows) = by_key (insert (key row) row d) rows

  values : Dict K R → List R
  values [] = []
  values ((k, row) ∷ d) = row ∷ values d

  -- Fewer than two rows stay as they are.
  unfoldable pub dedupe_rows : List R → List R
  unfolding by_key values
  dedupe_rows [] = []
  dedupe_rows (row ∷ []) = row ∷ []
  dedupe_rows (row ∷ next ∷ rows) = values (by_key [] (row ∷ next ∷ rows))

  abbrev pub latest : K → List R → Option R
  latest k [] = none
  latest k (row ∷ rows) = or_else (latest k rows) (if k == key row then some row else none)

  abbrev pub DistinctKeys : List R → Type κ
  DistinctKeys [] = Unit
  DistinctKeys (row ∷ rows) = All (λ (other : R). key other ≢ key row) rows × DistinctKeys rows

  -- Each entry stands under its row's key, and no key twice.
  Keyed : Dict K R → Type (ℓ ⊔ κ)
  Keyed [] = Unit
  Keyed ((k, row) ∷ d) = (k ≡ key row) × (lookup k d ≡ none) × Keyed d

  lookup-by_key :
      (k : K) (d : Dict K R) (rows : List R)
      → lookup k (by_key d rows) ≡ or_else (latest k rows) (lookup k d)
  unfolding by_key or_else
  lookup-by_key k d [] = refl
  lookup-by_key k d (row ∷ rows) =
      lookup-by_key k (insert (key row) row d) rows
      ∙ ap (or_else (latest k rows)) (lookup-insert k (key row) row d)
      ∙ or_else-if (latest k rows) (k == key row) row (lookup k d)

  insert-Keyed : (row : R) (d : Dict K R) → Keyed d → Keyed (insert (key row) row d)
  unfolding insert Keyed lookup
  insert-Keyed row [] h = (refl, refl, tt)
  insert-Keyed row ((j, w) ∷ d) h = elim (Bool-cases (key row == j)) [
    | inl t ↦ rw t (sym ((==_iff (key row) j).0 t), h.1, h.2)
    | inr t ↦
        let other : (j == key row) ≡ false = ground arith in
        rw t (h.0, lookup-insert j (key row) row d ∙ rw other h.1, insert-Keyed row d h.2)
  ]

  by_key-Keyed : (rows : List R) (d : Dict K R) → Keyed d → Keyed (by_key d rows)
  unfolding by_key
  by_key-Keyed [] d h = h
  by_key-Keyed (row ∷ rows) d h = by_key-Keyed rows (insert (key row) row d) (insert-Keyed row d h)

  latest-values : (k : K) (d : Dict K R) → Keyed d → latest k (values d) ≡ lookup k d
  unfolding values Keyed lookup or_else
  latest-values k [] h = refl
  latest-values k ((j, row) ∷ d) h = elim (Bool-cases (k == j)) [
    | inl t ↦
        let same : k ≡ j = (==_iff k j).0 t in
        let absent : lookup k d ≡ none = rw same h.1 in
        rw (sym h.0, t, latest-values k d h.2, absent) refl
    | inr t ↦ rw (sym h.0, t, latest-values k d h.2) (or_else-none (lookup k d))
  ]

  values-others :
      (k : K) (d : Dict K R) → Keyed d → lookup k d ≡ none → All (λ (o : R). key o ≢ k) (values d)
  unfolding values Keyed lookup
  values-others k [] h n = tt
  values-others k ((j, row) ∷ d) h n = elim (Bool-cases (k == j)) [
    | inl t ↦ let found : some row ≡ none = sym (rw t refl) ∙ n in cc
    | inr t ↦
        let later : lookup k d ≡ none = sym (rw t refl) ∙ n in
        let differ : key row ≢ k = λ same. ground (arith, h.0, same, t) in
        (differ, values-others k d h.2 later)
  ]

  values-DistinctKeys : (d : Dict K R) → Keyed d → DistinctKeys (values d)
  unfolding values Keyed
  values-DistinctKeys [] h = tt
  values-DistinctKeys ((k, row) ∷ d) h =
      (values-others (key row) d h.2 (rw (sym h.0) h.1), values-DistinctKeys d h.2)

  -- De-duplicated rows have distinct keys, and for each key the last row is the one that the rows
  -- had before.
  pub dedupe_rows-latest :
      (rows : List R)
      → DistinctKeys (dedupe_rows rows) × ((k : K) → latest k (dedupe_rows rows) ≡ latest k rows)
  unfolding dedupe_rows
  dedupe_rows-latest [] = (tt, λ k. refl)
  dedupe_rows-latest (row ∷ []) = ((tt, tt), λ k. refl)
  dedupe_rows-latest (row ∷ next ∷ rows) =
      let all = row ∷ next ∷ rows in
      let keyed : Keyed (by_key [] all) = by_key-Keyed all [] (unfold Keyed in tt) in
      (
        values-DistinctKeys (by_key [] all) keyed,
        λ k.
            latest-values k (by_key [] all) keyed
            ∙ lookup-by_key k [] all
            ∙ unfold lookup in or_else-none (latest k all),
      )

  -- The last row of a key in joined lists is the second list's, if it has one.
  pub latest-append :
      (k : K) (xs ys : List R) → latest k (xs ++ ys) ≡ or_else (latest k ys) (latest k xs)
  unfolding or_else
  latest-append k [] ys = sym (or_else-none (latest k ys))
  latest-append k (row ∷ xs) ys =
      ap (λ o. or_else o (if k == key row then some row else none)) (latest-append k xs ys)
      ∙ sym (or_else_assoc (latest k ys) (latest k xs) _)
