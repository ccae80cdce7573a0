-- ===== src/Percentile/Places.antt =====
-- The place of a value in the sorted values stands to the other places as the value does to the other values.
use quant_data_center_cn.Prelude.{
  ℕ, ℤ, pos, negsuc, suc, ◌<◌, int_eq, ◌==◌, ==_iff, List, [], ◌∷◌, true, false, not, leb, ltb,
  length, ◌≡◌, refl, sym, ap, ◌∙◌, arith, All, All-map, All-In, In, here, there, In-cons_cases, ◌⊎◌,
  Bool-cases, inl, inr,
}
use quant_data_center_cn.Percentile.Window.{at_most, insert_value, sorted_values, place_of}

at_most_self : (a : ℤ) → at_most a a ≡ true
at_most_self (pos a) = ground arith
at_most_self (negsuc a) = ground arith

at_most-total : (a b : ℤ) → at_most a b ≡ false → at_most b a ≡ true
at_most-total (pos a) (pos b) h = ground (arith, h)
at_most-total (pos a) (negsuc b) h = refl
at_most-total (negsuc a) (pos b) h = cc
at_most-total (negsuc a) (negsuc b) h = ground (arith, h)

at_most-both : (a b : ℤ) → at_most a b ≡ true → at_most b a ≡ true → a ≡ b
at_most-both (pos a) (pos b) h k = ap pos (ground (arith, h, k))
at_most-both (pos a) (negsuc b) h k = cc
at_most-both (negsuc a) (pos b) h k = cc
at_most-both (negsuc a) (negsuc b) h k = ap negsuc (ground (arith, h, k))

at_most_trans : (a b c : ℤ) → at_most a b ≡ true → at_most b c ≡ true → at_most a c ≡ true
at_most_trans (pos a) (pos b) (pos c) h k = ground (arith, h, k)
at_most_trans (pos a) (pos b) (negsuc c) h k = cc
at_most_trans (pos a) (negsuc b) c h k = cc
at_most_trans (negsuc a) b (pos c) h k = refl
at_most_trans (negsuc a) (pos b) (negsuc c) h k = cc
at_most_trans (negsuc a) (negsuc b) (negsuc c) h k = ground (arith, h, k)

-- Each value is below the ones behind it.
Strict : List ℤ → Type 0
Strict [] = Unit
Strict (x ∷ xs) = All (λ y. at_most y x ≡ false) xs × Strict xs

All-insert : (P : ℤ → Type 0) (v : ℤ) (xs : List ℤ) → P v → All P xs → All P (insert_value v xs)
unfolding insert_value
All-insert P v [] h k = (h, tt)
All-insert P v (x ∷ xs) h k = elim (Bool-cases (v == x)) [
  | inl e ↦ rw e k
  | inr e ↦ elim (Bool-cases (at_most v x)) [
    | inl f ↦ rw (e, f) (h, k)
    | inr f ↦ rw (e, f) (k.0, All-insert P v xs h k.1)
  ]
]

insert-Strict : (v : ℤ) (xs : List ℤ) → Strict xs → Strict (insert_value v xs)
unfolding insert_value Strict
insert-Strict v [] h = (tt, tt)
insert-Strict v (x ∷ xs) h = elim (Bool-cases (v == x)) [
  | inl e ↦ rw e h
  | inr e ↦ elim (Bool-cases (at_most v x)) [
    | inl f ↦
        let apart : at_most x v ≡ false = elim (Bool-cases (at_most x v)) [
          | inl g ↦ let same : true ≡ false = sym ((==_iff v x).1 (at_most-both v x f g)) ∙ e in cc
          | inr g ↦ g
        ] in
        rw (e, f) ((apart, All-map xs (λ y k. above y apart k) h.0), h)
    | inr f ↦ rw (e, f) (All-insert (λ y. at_most y x ≡ false) v xs f h.0, insert-Strict v xs h.1)
  ]
]
  where
    above : (y : ℤ) → at_most x v ≡ false → at_most y x ≡ false → at_most y v ≡ false
    above y apart k = elim (Bool-cases (at_most y v)) [
      | inl g ↦
          let below : at_most y x ≡ true = at_most_trans y v x g (at_most-total x v apart) in
          let absurdity : true ≡ false = sym below ∙ k in cc
      | inr g ↦ g
    ]

sorted-Strict : (xs : List ℤ) → Strict (sorted_values xs)
unfolding sorted_values Strict
sorted-Strict [] = tt
sorted-Strict (x ∷ xs) = insert-Strict x (sorted_values xs) (sorted-Strict xs)

In-insert : (v w : ℤ) (xs : List ℤ) → (w ≡ v) ⊎ In w xs → In w (insert_value v xs)
unfolding insert_value
In-insert v w [] (inl e) = rw e here
In-insert v w [] (inr i) = elim i [ ]
In-insert v w (x ∷ xs) h = elim (Bool-cases (v == x)) [
  | inl e ↦ rw e (elim h [ inl same ↦ rw (same, (==_iff v x).0 e) here | inr i ↦ i ])
  | inr e ↦ elim (Bool-cases (at_most v x)) [
    | inl f ↦ rw (e, f) (elim h [ inl same ↦ rw same here | inr i ↦ there i ])
    | inr f ↦
        rw (e, f)
          (elim h [
            | inl same ↦ there (In-insert v w xs (inl same))
            | inr i ↦ elim (In-cons_cases i) [
              | inl first ↦ rw first here
              | inr j ↦ there (In-insert v w xs (inr j))
            ]
          ])
  ]
]

pub In-sorted : (xs : List ℤ) (v : ℤ) → In v xs → In v (sorted_values xs)
unfolding sorted_values
In-sorted [] v i = elim i [ ]
In-sorted (x ∷ xs) v i = elim (In-cons_cases i) [
  | inl same ↦ In-insert x v (sorted_values xs) (inl same)
  | inr j ↦ In-insert x v (sorted_values xs) (inr (In-sorted xs v j))
]

pub place-lt : (xs : List ℤ) (v : ℤ) → In v xs → place_of xs v < length xs
unfolding place_of
place-lt [] v i = elim i [ ]
place-lt (x ∷ xs) v i = elim (Bool-cases (v == x)) [
  | inl e ↦ rw e (omega arith)
  | inr e ↦ elim (In-cons_cases i) [
    | inl same ↦ let absurdity : true ≡ false = sym ((==_iff v x).1 same) ∙ e in cc
    | inr j ↦ rw e (let rest = place-lt xs v j in omega (arith, rest))
  ]
]

Strict-place :
    (xs : List ℤ) (v w : ℤ)
    → Strict xs
    → In v xs
    → In w xs
    → leb (place_of xs w) (place_of xs v) ≡ at_most w v
unfolding place_of Strict
Strict-place [] v w h i j = elim i [ ]
Strict-place (x ∷ xs) v w h i j = elim (Bool-cases (v == x)) [
  | inl e ↦ elim (Bool-cases (w == x)) [
    | inl f ↦ rw (e, f, (==_iff v x).0 e, (==_iff w x).0 f) (sym (at_most_self x))
    | inr f ↦
        let later : leb (suc (place_of xs w)) 0 ≡ false = ground arith in
        rw (e, f, (==_iff v x).0 e, later)
          (sym (All-In (λ y. at_most y x ≡ false) (behind w j f) h.0))
  ]
  | inr e ↦ elim (Bool-cases (w == x)) [
    | inl f ↦
        let first : leb 0 (suc (place_of xs v)) ≡ true = ground arith in
        rw (e, f, (==_iff w x).0 f, first)
          (sym (at_most-total v x (All-In (λ y. at_most y x ≡ false) (behind v i e) h.0)))
    | inr f ↦
        let rest = Strict-place xs v w h.1 (behind v i e) (behind w j f) in
        let both : leb (suc (place_of xs w)) (suc (place_of xs v))
            ≡ leb (place_of xs w) (place_of xs v) =
          ground arith in
        rw (e, f, both) rest
  ]
]
  where
    behind : (y : ℤ) → In y (x ∷ xs) → (y == x) ≡ false → In y xs
    behind y k e = elim (In-cons_cases k) [
      | inl same ↦ let absurdity : true ≡ false = sym ((==_iff y x).1 same) ∙ e in cc
      | inr l ↦ l
    ]

pub place-order :
    (xs : List ℤ) (v w : ℤ)
    → In v (sorted_values xs)
    → In w (sorted_values xs)
    → (leb (place_of (sorted_values xs) w) (place_of (sorted_values xs) v) ≡ at_most w v)
      × (ltb (place_of (sorted_values xs) w) (place_of (sorted_values xs) v) ≡ not (at_most v w))
place-order xs v w i j =
    let up = Strict-place (sorted_values xs) v w (sorted-Strict xs) i j in
    let down = Strict-place (sorted_values xs) w v (sorted-Strict xs) j i in
    (up, opposite (place_of (sorted_values xs) w) (place_of (sorted_values xs) v) ∙ ap not down)
  where
    opposite : (a b : ℕ) → ltb a b ≡ not (leb b a)
    opposite a b = ground arith
