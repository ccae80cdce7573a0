-- ===== src/Pipeline/Frames/LastOf.antt =====
-- The last row of a code and date, in the rows that a merge keeps and in the rows of a window.
use quant_data_center_cn.Prelude.{
  ◌==◌, pair_eq, option_eq, string_eq, nat_eq, ==_iff, ◌≡◌, refl, sym, ap, ◌∙◌, subst, ℕ, String,
  Option, none, some, List, [], ◌∷◌, Bool, true, false, select, or_else, or_else-none, Bool-cases,
  Option-cases, inl, inr,
}
use quant_data_center_cn.Pipeline.Dedupe.{latest}
use quant_data_center_cn.Pipeline.KeepLast.{keep_last, has, latest-none, has-latest}
use quant_data_center_cn.Pipeline.Frames.{DailyRow, row_key, at_key}

module _ {V : Type 0} where
  abbrev pub last_of : String × Option ℕ → List (DailyRow V) → Option (DailyRow V)
  last_of = latest row_key

  -- A selection by date keeps the rows of a key or drops them all.
  pub last_of-select_kept :
      (p : Option ℕ → Bool) (k : String × Option ℕ) (rows : List (DailyRow V))
      → p k.1 ≡ true
      → last_of k (select (λ (r : DailyRow V). p r.date) rows) ≡ last_of k rows
  unfolding or_else
  last_of-select_kept p k [] h = refl
  last_of-select_kept p k (r ∷ rows) h = elim (Bool-cases (p r.date)) [
    | inl t ↦ rw (t, last_of-select_kept p k rows h) refl
    | inr f ↦ elim (Bool-cases (◌==◌ {A = String × Option ℕ} k (row_key r))) [
      | inl e ↦
          let same : k ≡ row_key r = (==_iff {A = String × Option ℕ} k (row_key r)).0 e in
          let kept : p r.date ≡ true = sym (ap (λ (j : String × Option ℕ). p j.1) same) ∙ h in cc
      | inr e ↦ rw (f, last_of-select_kept p k rows h, e) (sym (or_else-none (last_of k rows)))
    ]
  ]

  pub last_of-select_dropped :
      (p : Option ℕ → Bool) (k : String × Option ℕ) (rows : List (DailyRow V))
      → p k.1 ≡ false
      → last_of k (select (λ (r : DailyRow V). p r.date) rows) ≡ none
  unfolding or_else
  last_of-select_dropped p k [] h = refl
  last_of-select_dropped p k (r ∷ rows) h = elim (Bool-cases (p r.date)) [
    | inr f ↦ rw f (last_of-select_dropped p k rows h)
    | inl t ↦ elim (Bool-cases (◌==◌ {A = String × Option ℕ} k (row_key r))) [
      | inl e ↦
          let same : k ≡ row_key r = (==_iff {A = String × Option ℕ} k (row_key r)).0 e in
          let dropped : p r.date ≡ false = sym (ap (λ (j : String × Option ℕ). p j.1) same) ∙ h in
          cc
      | inr e ↦ rw (t, last_of-select_dropped p k rows h, e) refl
    ]
  ]

  pub at_key-keep_last :
      (k : String × Option ℕ) (rows : List (DailyRow V))
      → at_key k (keep_last row_key rows) ≡ last_of k rows
  unfolding or_else keep_last at_key
  at_key-keep_last k [] = refl
  at_key-keep_last k (r ∷ rows) = elim (Bool-cases (◌==◌ {A = String × Option ℕ} k (row_key r))) [
    | inr e ↦ elim (Bool-cases (has row_key (row_key r) rows)) [
      | inl t ↦ rw (t, e, at_key-keep_last k rows) (sym (or_else-none (last_of k rows)))
      | inr f ↦ rw (f, e, at_key-keep_last k rows) (sym (or_else-none (last_of k rows)))
    ]
    | inl e ↦
        let same : k ≡ row_key r = (==_iff {A = String × Option ℕ} k (row_key r)).0 e in
        elim (Option-cases (last_of k rows)) [
          | inl n ↦
              let absent : has row_key (row_key r) rows ≡ false =
                subst (λ j. has row_key j rows ≡ false) same (has-latest row_key k rows n) in
              rw (absent, e, n) refl
          | inr (s, n) ↦ elim (Bool-cases (has row_key (row_key r) rows)) [
            | inl t ↦ rw (t, at_key-keep_last k rows, n) refl
            | inr f ↦
                let none_here : last_of k rows ≡ none =
                  latest-none row_key k rows
                    (subst (λ j. has row_key j rows ≡ false) (sym same) f) in
                let t : some s ≡ none = sym n ∙ none_here in cc
          ]
        ]
  ]
