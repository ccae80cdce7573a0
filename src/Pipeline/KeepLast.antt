-- ===== src/Pipeline/KeepLast.antt =====
-- pandas' `drop_duplicates(..., keep="last")`, for rows of any type and a key of theirs: each row that is kept is the last one of
-- its key.
use quant_data_center_cn.Prelude.{
  Eq, ◌==◌, ==_iff, ◌≡◌, ◌↔◌, refl, sym, ap, ◌∙◌, subst, none, some, List, [], ◌∷◌, Bool, true,
  false, if◌then◌else◌, any, or_else, In, here, there, In-cons_cases, Bool-cases, Option-cases, inl,
  inr,
}
use quant_data_center_cn.Pipeline.Dedupe.{latest}

some-injective : {A : Type 0} {a b : A} → some a ≡ some b → a ≡ b
some-injective h = cc

module _ {R K : Type 0} ⦃e : Eq K⦄ (key : R → K) where
  unfoldable pub keep_last : List R → List R
  keep_last [] = []
  keep_last (r ∷ rows) =
      let rest = keep_last rows in if any (λ q. key r == key q) rows then rest else r ∷ rest

  abbrev pub has : K → List R → Bool
  has k = any (λ q. k == key q)

  pub latest-none : (k : K) (rows : List R) → has k rows ≡ false → latest key k rows ≡ none
  unfolding or_else
  latest-none k [] h = refl
  latest-none k (r ∷ rows) h = elim (Bool-cases (k == key r)) [
    | inl t ↦ let absurdity : true ≡ false = sym (rw t refl) ∙ h in cc
    | inr t ↦ rw (t, latest-none k rows (rw t at h)) refl
  ]

  pub has-latest : (k : K) (rows : List R) → latest key k rows ≡ none → has k rows ≡ false
  unfolding or_else
  has-latest k [] h = refl
  has-latest k (r ∷ rows) h = elim (Option-cases (latest key k rows)) [
    | inl n ↦ elim (Bool-cases (k == key r)) [
      | inl t ↦ let absurdity : some r ≡ none = sym (rw (n, t) refl) ∙ h in cc
      | inr t ↦ rw t (has-latest k rows n)
    ]
    | inr (s, n) ↦ let absurdity : some s ≡ none = sym (rw n refl) ∙ h in cc
  ]

  latest-cons :
      (k : K) (r q : R) (rows : List R)
      → latest key k rows ≡ some r
      → latest key k (q ∷ rows) ≡ some r
  unfolding or_else
  latest-cons k r q rows h = rw h refl

  latest-here :
      (q : R) (rows : List R) → has (key q) rows ≡ false → latest key (key q) (q ∷ rows) ≡ some q
  unfolding or_else
  latest-here q rows t = rw (latest-none (key q) rows t, (==_iff (key q) (key q)).1 refl) refl

  kept-latest : (rows : List R) (r : R) → In r (keep_last rows) → latest key (key r) rows ≡ some r
  unfolding keep_last or_else
  kept-latest [] r i = elim i [ ]
  kept-latest (q ∷ rows) r i = elim (Bool-cases (has (key q) rows)) [
    | inl t ↦ latest-cons (key r) r q rows (kept-latest rows r (rw t at i))
    | inr t ↦ elim (In-cons_cases (rw t at i)) [
      | inl same ↦
          subst (λ x. latest key (key x) (q ∷ rows) ≡ some x) (sym same) (latest-here q rows t)
      | inr j ↦ latest-cons (key r) r q rows (kept-latest rows r j)
    ]
  ]

  In-keep_last_later :
      (q r : R) (rows : List R) → In r (keep_last rows) → In r (keep_last (q ∷ rows))
  unfolding keep_last
  In-keep_last_later q r rows i = elim (Bool-cases (has (key q) rows)) [
    | inl t ↦ rw t i
    | inr t ↦ rw t (there i)
  ]

  latest-kept : (rows : List R) (r : R) → latest key (key r) rows ≡ some r → In r (keep_last rows)
  unfolding or_else keep_last
  latest-kept [] r h = cc
  latest-kept (q ∷ rows) r h = elim (Option-cases (latest key (key r) rows)) [
    | inr (s, n) ↦
        let same : s ≡ r = some-injective (sym (rw n refl) ∙ h) in
        In-keep_last_later q r rows (latest-kept rows r (n ∙ ap some same))
    | inl n ↦ elim (Bool-cases (key r == key q)) [
      | inr t ↦ let absurdity : none ≡ some r = sym (rw (n, t) refl) ∙ h in cc
      | inl t ↦
          let same : q ≡ r = some-injective (sym (rw (n, t) refl) ∙ h) in
          let fresh : has (key q) rows ≡ false = rw same (has-latest (key r) rows n) in
          rw fresh (rw same here)
    ]
  ]

  pub In-keep_last :
      (rows : List R) (r : R) → In r (keep_last rows) ↔ (latest key (key r) rows ≡ some r)
  In-keep_last rows r = (kept-latest rows r, latest-kept rows r)
