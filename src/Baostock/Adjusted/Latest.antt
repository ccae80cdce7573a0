-- ===== src/Baostock/Adjusted/Latest.antt =====
-- The factor of a row: the one of its code that took effect last on or before its date.
use quant_data_center_cn.Prelude.{
  ℕ, ◌≤◌, ◌<◌, String, string_eq, Option, none, some, List, [], ◌∷◌, true, ◌==◌, ==_iff, leb,
  leb→le, leb-false→lt, or_else, ◌≡◌, ◌↔◌, ◌⊎◌, refl, sym, arith, All-In, In, here, there,
  In-cons_cases, In-select, select-In, All-select_holds, Bool-cases, inl, inr, subst,
}
use quant_data_center_cn.Prelude.SortBy.{Ascending, SortOf}
use quant_data_center_cn.Baostock.Adjusted.{Factor, asof, match_date, of_code}

module _ {P : Type 0} where
  abbrev pub date_of : Factor P → ℕ
  date_of f = f.date

  -- A factor of the code is in force on a day, and none of the code on or before the day is later.
  pub record InForce (factors : List (Factor P)) (code : String) (day : ℕ) (f : Factor P)
      : Type 0 where
    pub listed : In f factors
    pub named : f.code ≡ code
    pub begun : f.date ≤ day
    pub last : (g : Factor P) → In g factors → g.code ≡ code → g.date ≤ day → g.date ≤ f.date

  -- No factor of the code has begun, or the row has no date.
  abbrev pub NoneInForce : List (Factor P) → String → Option ℕ → Type 0
  NoneInForce factors code date =
      (g : Factor P) (day : ℕ) → In g factors → g.code ≡ code → date ≡ some day → day < g.date

  -- The factor by which a row is multiplied.
  abbrev pub Effective : P → List (Factor P) → String → Option ℕ → P → Type 0
  Effective one factors code date p =
      ((day : ℕ) × (f : Factor P) × (date ≡ some day) × InForce factors code day f × (p ≡ f.value))
      ⊎ (NoneInForce factors code date × (p ≡ one))

  abbrev IsLastBy : ℕ → List (Factor P) → Type 0
  IsLastBy day fs =
      ((asof day fs ≡ none) × ((g : Factor P) → In g fs → day < g.date))
      ⊎ ((f : Factor P) × (asof day fs ≡ some f.value)
          × In f fs
          × (f.date ≤ day)
          × ((g : Factor P) → In g fs → g.date ≤ day → g.date ≤ f.date))

  asof-IsLastBy : (day : ℕ) (fs : List (Factor P)) → Ascending date_of fs → IsLastBy day fs
  unfolding asof or_else
  asof-IsLastBy day [] up = inl (refl, λ g i. elim i [ ])
  asof-IsLastBy day (f ∷ fs) up = elim (Bool-cases (leb f.date day)) [
    | inr e ↦
        let lt = leb-false→lt f.date day e in
        inl (
          rw e refl,
          λ g i. elim (In-cons_cases i) [
            | inl same ↦ rw same lt
            | inr j ↦
                let le : f.date ≤ g.date = All-In (λ (h : Factor P). f.date ≤ h.date) j up.0 in
                omega arith
          ],
        )
    | inl e ↦ elim (asof-IsLastBy day fs up.1) [
      | inl (none_later, after) ↦ inr (
        f,
        rw (e, none_later) refl,
        here,
        leb→le f.date day e,
        λ g i le. elim (In-cons_cases i) [
          | inl same ↦ rw same (omega arith)
          | inr j ↦ let lt = after g j in absurd (omega (arith, lt, le))
        ],
      )
      | inr (h, found, i, le, last) ↦ inr (
        h,
        rw (e, found) refl,
        there i,
        le,
        λ g j le'. elim (In-cons_cases j) [
          | inl same ↦ rw same (All-In (λ (k : Factor P). f.date ≤ k.date) i up.0)
          | inr k ↦ last g k le'
        ],
      )
    ]
  ]

  pub of_code-In :
      (code : String) (factors : List (Factor P)) (f : Factor P)
      → In f (of_code code factors) ↔ (In f factors × (f.code ≡ code))
  unfolding of_code
  of_code-In code factors f = (
    λ i. (
      select-In _ f factors i,
      (==_iff f.code code).0
          (All-In (λ (g : Factor P). (g.code == code) ≡ true) i (All-select_holds _ factors)),
    ),
    λ (i, e). In-select _ i ((==_iff f.code code).1 e),
  )

  module _ (sort : List (Factor P) → List (Factor P))
      (sorts : (fs : List (Factor P)) → SortOf date_of fs (sort fs)) (one : P)
      (factors : List (Factor P)) where
    pub match-Effective :
        (code : String) (fs : List (Factor P)) (date : Option ℕ)
        → of_code code factors ≡ fs
        → Effective one factors code date (match_date one (sort fs) date one)
    unfolding match_date
    match-Effective code fs none e = inr ((λ g day i c d. cc), refl)
    match-Effective code fs (some day) e = elim (asof-IsLastBy day (sort fs) (sorts fs).1) [
      | inl (none_found, after) ↦ inr (
        (λ g d i c same.
            let at : day ≡ d = cc in
            let lt =
              after g
                (((sorts fs).0 g).1 (subst (In g) e ((of_code-In code factors g).1 (i, c)))) in
            omega (arith, lt, at)),
        rw none_found refl,
      )
      | inr (f, found, i, le, last) ↦
          let (listed, named) =
            (of_code-In code factors f).0 (subst (In f) (sym e) (((sorts fs).0 f).0 i)) in
          inl (
            day,
            f,
            refl,
            record {
              listed = listed;
              named = named;
              begun = le;
              last = λ g j c le'.
                  last g
                    (((sorts fs).0 g).1 (subst (In g) e ((of_code-In code factors g).1 (j, c))))
                    le';
            },
            rw found refl,
          )
    ]
