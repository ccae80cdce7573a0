-- ===== src/Prelude/SortBy.antt =====
-- A stable sort by a number, and what any sort promises: the same items, in the order of the key.
use quant_data_center_cn.Prelude.Tests.{leb, if◌then◌else◌, Bool-cases, leb→le, leb-false→lt}
use quant_data_center_cn.Prelude.Lists.{length, All, All-map, In, In-under, here, there}
use Prim.Native.Nat.{ℕ, suc, ◌≤◌}
use mathlib.Core.Path.{◌≡◌, refl}
use mathlib.Core.Logic.{◌↔◌, inl, inr}
use mathlib.Core.List.{List, [], ◌∷◌}
use native.Mathlib.Omega.{arith}

-- The ways in which a place moves when two items change places.
module _ {ℓ} {A : Type ℓ} where
  swapped : {a b x : A} {xs : List A} → In b (a ∷ x ∷ xs) → In b (x ∷ a ∷ xs)
  swapped here = there here
  swapped (there here) = here
  swapped (there (there i)) = there (there i)

module _ {ℓ} {A : Type ℓ} (key : A → ℕ) where
  abbrev pub Ascending : List A → Type 0
  Ascending [] = Unit
  Ascending (x ∷ xs) = All (λ y. key x ≤ key y) xs × Ascending xs

  insert_by : A → List A → List A
  insert_by a [] = a ∷ []
  insert_by a (x ∷ xs) = if leb (key a) (key x) then a ∷ x ∷ xs else x ∷ insert_by a xs

  unfoldable pub sort_by : List A → List A
  unfolding insert_by
  sort_by [] = []
  sort_by (x ∷ xs) = insert_by x (sort_by xs)

  abbrev pub SortOf : List A → List A → Type ℓ
  SortOf xs ys = ((a : A) → In a ys ↔ In a xs) × Ascending ys

  All-insert_by : (P : A → Type 0) (a : A) (xs : List A) → P a → All P xs → All P (insert_by a xs)
  unfolding insert_by
  All-insert_by P a [] p h = (p, tt)
  All-insert_by P a (x ∷ xs) p h = elim (Bool-cases (leb (key a) (key x))) [
    | inl e ↦ rw e (p, h)
    | inr e ↦ rw e (h.0, All-insert_by P a xs p h.1)
  ]

  insert_by-Ascending : (a : A) (xs : List A) → Ascending xs → Ascending (insert_by a xs)
  unfolding insert_by
  insert_by-Ascending a [] h = (tt, tt)
  insert_by-Ascending a (x ∷ xs) h = elim (Bool-cases (leb (key a) (key x))) [
    | inl e ↦
        let le = leb→le (key a) (key x) e in
        rw e ((le, All-map xs (λ y (k : key x ≤ key y). omega arith) h.0), h)
    | inr e ↦
        let lt = leb-false→lt (key a) (key x) e in
        rw e
          (All-insert_by (λ y. key x ≤ key y) a xs (omega arith) h.0, insert_by-Ascending a xs h.1)
  ]

  In-insert_by : (a b : A) (xs : List A) → In b (insert_by a xs) ↔ In b (a ∷ xs)
  unfolding insert_by
  In-insert_by a b [] = (λ i. i, λ i. i)
  In-insert_by a b (x ∷ xs) = elim (Bool-cases (leb (key a) (key x))) [
    | inl e ↦ rw e (λ i. i, λ i. i)
    | inr e ↦ rw e (
      λ i. swapped (In-under (In-insert_by a b xs).0 i),
      λ i. In-under (In-insert_by a b xs).1 (swapped i),
    )
  ]

  pub sort_by-SortOf : (xs : List A) → SortOf xs (sort_by xs)
  unfolding sort_by
  sort_by-SortOf [] = (λ a. (λ i. i, λ i. i), tt)
  sort_by-SortOf (x ∷ xs) =
      let (same, up) = sort_by-SortOf xs in
      (
        λ a. (
          λ i. In-under (same a).0 ((In-insert_by x a (sort_by xs)).0 i),
          λ i. (In-insert_by x a (sort_by xs)).1 (In-under (same a).1 i),
        ),
        insert_by-Ascending x (sort_by xs) up,
      )

  -- A relation between any two items, in either order, outlasts a sort.
  abbrev pub Pairwise : (A → A → Type 0) → List A → Type 0
  Pairwise R [] = Unit
  Pairwise R (x ∷ xs) = All (R x) xs × Pairwise R xs

  insert_by-Pairwise :
      (R : A → A → Type 0) (a : A) (xs : List A)
      → ((x y : A) → R x y → R y x)
      → All (R a) xs
      → Pairwise R xs
      → Pairwise R (insert_by a xs)
  unfolding insert_by
  insert_by-Pairwise R a [] flip h d = (tt, tt)
  insert_by-Pairwise R a (x ∷ xs) flip h d = elim (Bool-cases (leb (key a) (key x))) [
    | inl e ↦ rw e (h, d)
    | inr e ↦
        rw e (All-insert_by (R x) a xs (flip a x h.0) d.0, insert_by-Pairwise R a xs flip h.1 d.1)
  ]

  All-sort_by : (P : A → Type 0) (xs : List A) → All P xs → All P (sort_by xs)
  unfolding sort_by
  All-sort_by P [] h = tt
  All-sort_by P (x ∷ xs) h = All-insert_by P x (sort_by xs) h.0 (All-sort_by P xs h.1)

  pub sort_by-Pairwise :
      (R : A → A → Type 0) (xs : List A)
      → ((x y : A) → R x y → R y x)
      → Pairwise R xs
      → Pairwise R (sort_by xs)
  unfolding sort_by
  sort_by-Pairwise R [] flip d = tt
  sort_by-Pairwise R (x ∷ xs) flip d =
      insert_by-Pairwise R x (sort_by xs) flip (All-sort_by (R x) xs d.0)
        (sort_by-Pairwise R xs flip d.1)

  pub In-sort_by : (a : A) (xs : List A) → In a (sort_by xs) ↔ In a xs
  In-sort_by a xs = (sort_by-SortOf xs).0 a

  length-insert_by : (a : A) (xs : List A) → length (insert_by a xs) ≡ suc (length xs)
  unfolding insert_by
  length-insert_by a [] = refl
  length-insert_by a (x ∷ xs) = ground (arith, length-insert_by a xs)

  pub length-sort_by : (xs : List A) → length (sort_by xs) ≡ length xs
  unfolding sort_by
  length-sort_by [] = refl
  length-sort_by (x ∷ xs) = omega (arith, length-insert_by x (sort_by xs), length-sort_by xs)
