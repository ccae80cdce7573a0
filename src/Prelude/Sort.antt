-- ===== src/Prelude/Sort.antt =====
-- `sort_values` and `drop_duplicates` on a column of dates, and the ends of a sorted column.
use Prim.Native.Nat.{ℕ, zero, suc, ◌-◌, ◌≤◌, ◌<◌}
use mathlib.Core.Path.{◌≡◌, refl, sym, ap}
use mathlib.Core.Logic.{◌≢◌, inl, inr}
use mathlib.Core.Bool.{Bool, true, false}
use mathlib.Core.Option.{Option, none, some}
use mathlib.Core.List.{List, [], ◌∷◌}
use native.Mathlib.Omega.{arith}
use quant_data_center_cn.Prelude.Tests.{leb, leb→le, leb-false→lt, Bool-cases, if◌then◌else◌}
use quant_data_center_cn.Prelude.Lists.{
  length, get_elem?, select, All, All-map, In, here, there, All-select_holds, In-select,
}
use quant_data_center_cn.Prelude.Equality.{◌==◌, nat_eq}

insert_sorted : ℕ → List ℕ → List ℕ
insert_sorted a [] = a ∷ []
insert_sorted a (x ∷ xs) = if leb a x then a ∷ x ∷ xs else x ∷ insert_sorted a xs

-- `.sort_values()`
unfoldable pub sort_values : List ℕ → List ℕ
unfolding insert_sorted
sort_values [] = []
sort_values (x ∷ xs) = insert_sorted x (sort_values xs)

-- `.drop_duplicates()`: the first of equal values stays.
unfoldable pub drop_duplicates : List ℕ → List ℕ
drop_duplicates [] = []
drop_duplicates (x ∷ xs) = x ∷ select (λ y. if y == x then false else true) (drop_duplicates xs)

-- `.iloc[0]` and `.iloc[-1]`
abbrev pub first? : List ℕ → Option ℕ
first? [] = none
first? (x ∷ xs) = some x

abbrev pub last? : List ℕ → Option ℕ
last? [] = none
last? (x ∷ []) = some x
last? (x ∷ y ∷ xs) = last? (y ∷ xs)

abbrev pub IsSorted : List ℕ → Type 0
IsSorted [] = Unit
IsSorted (x ∷ xs) = All (λ y. x ≤ y) xs × IsSorted xs

abbrev pub IsStrict : List ℕ → Type 0
IsStrict [] = Unit
IsStrict (x ∷ xs) = All (λ y. x < y) xs × IsStrict xs

All-insert_sorted :
    (P : ℕ → Type 0) (a : ℕ) (xs : List ℕ) → P a → All P xs → All P (insert_sorted a xs)
unfolding insert_sorted
All-insert_sorted P a [] p h = (p, tt)
All-insert_sorted P a (x ∷ xs) p h = elim (Bool-cases (leb a x)) [
  | inl e ↦ rw e (p, h)
  | inr e ↦ rw e (h.0, All-insert_sorted P a xs p h.1)
]

insert_sorted-IsSorted : (a : ℕ) (xs : List ℕ) → IsSorted xs → IsSorted (insert_sorted a xs)
unfolding insert_sorted
insert_sorted-IsSorted a [] h = (tt, tt)
insert_sorted-IsSorted a (x ∷ xs) h = elim (Bool-cases (leb a x)) [
  | inl e ↦ let le = leb→le a x e in rw e ((le, All-map xs (λ y (k : x ≤ y). omega arith) h.0), h)
  | inr e ↦
      let lt = leb-false→lt a x e in
      rw e (All-insert_sorted (λ y. x ≤ y) a xs (omega arith) h.0, insert_sorted-IsSorted a xs h.1)
]

pub sort_values-IsSorted : (xs : List ℕ) → IsSorted (sort_values xs)
unfolding sort_values
sort_values-IsSorted [] = tt
sort_values-IsSorted (x ∷ xs) = insert_sorted-IsSorted x (sort_values xs) (sort_values-IsSorted xs)

pub All-sort_values : (P : ℕ → Type 0) (xs : List ℕ) → All P xs → All P (sort_values xs)
unfolding sort_values
All-sort_values P [] h = tt
All-sort_values P (x ∷ xs) h = All-insert_sorted P x _ h.0 (All-sort_values P xs h.1)

In-insert_sorted_self : (a : ℕ) (xs : List ℕ) → In a (insert_sorted a xs)
unfolding insert_sorted
In-insert_sorted_self a [] = here
In-insert_sorted_self a (x ∷ xs) = elim (Bool-cases (leb a x)) [
  | inl e ↦ rw e here
  | inr e ↦ rw e (there (In-insert_sorted_self a xs))
]

In-cons : {b x : ℕ} {xs ys : List ℕ} → (In b xs → In b ys) → In b (x ∷ xs) → In b (x ∷ ys)
In-cons f here = here
In-cons f (there i) = there (f i)

In-insert_sorted : (a b : ℕ) (xs : List ℕ) → In b xs → In b (insert_sorted a xs)
unfolding insert_sorted
In-insert_sorted a b [] i = elim i [ ]
In-insert_sorted a b (x ∷ xs) i = elim (Bool-cases (leb a x)) [
  | inl e ↦ rw e (there i)
  | inr e ↦ rw e (In-cons (In-insert_sorted a b xs) i)
]

pub In-sort_values : (a : ℕ) (xs : List ℕ) → In a xs → In a (sort_values xs)
unfolding sort_values
In-sort_values a [] i = elim i [ ]
In-sort_values a (x ∷ xs) here = In-insert_sorted_self a (sort_values xs)
In-sort_values a (x ∷ xs) (there i) = In-insert_sorted x a _ (In-sort_values a xs i)

-- The last item of a sorted column is its greatest, and the first its least.
pub last?-sorted :
    (xs : List ℕ) (m : ℕ) → IsSorted xs → last? xs ≡ some m → In m xs × All (λ x. x ≤ m) xs
last?-sorted [] m s h = cc
last?-sorted (x ∷ []) m s h = let e : x ≡ m = cc in (rw e here, (omega arith, tt))
last?-sorted (x ∷ y ∷ xs) m s h =
    let (i, below) = last?-sorted (y ∷ xs) m s.1 h in (there i, (omega arith, below))

pub first?-sorted :
    (xs : List ℕ) (m : ℕ) → IsSorted xs → first? xs ≡ some m → In m xs × All (λ x. m ≤ x) xs
first?-sorted [] m s h = cc
first?-sorted (x ∷ xs) m s h = let e : x ≡ m = cc in (rw e here, (omega arith, rw e at s.0))

pub last?-none : (xs : List ℕ) → last? xs ≡ none → xs ≡ []
last?-none [] h = refl
last?-none (x ∷ []) h = cc
last?-none (x ∷ y ∷ xs) h = let e = last?-none (y ∷ xs) h in cc

abbrev pub Distinct : List ℕ → Type 0
Distinct [] = Unit
Distinct (x ∷ xs) = All (λ y. y ≢ x) xs × Distinct xs

All-select : (P : ℕ → Type 0) (p : ℕ → Bool) (xs : List ℕ) → All P xs → All P (select p xs)
All-select P p [] h = tt
All-select P p (x ∷ xs) h = elim (Bool-cases (p x)) [
  | inl e ↦ rw e (h.0, All-select P p xs h.1)
  | inr e ↦ rw e (All-select P p xs h.1)
]

select-Distinct : (p : ℕ → Bool) (xs : List ℕ) → Distinct xs → Distinct (select p xs)
select-Distinct p [] h = tt
select-Distinct p (x ∷ xs) h = elim (Bool-cases (p x)) [
  | inl e ↦ rw e (All-select _ p xs h.0, select-Distinct p xs h.1)
  | inr e ↦ rw e (select-Distinct p xs h.1)
]

differs : (x y : ℕ) → (if y == x then false else true) ≡ true → y ≢ x
differs x y h = ground arith

pub drop_duplicates-Distinct : (xs : List ℕ) → Distinct (drop_duplicates xs)
unfolding drop_duplicates
drop_duplicates-Distinct [] = tt
drop_duplicates-Distinct (x ∷ xs) = (
  All-map (select (λ y. if y == x then false else true) (drop_duplicates xs)) (differs x)
      (All-select_holds (λ y. if y == x then false else true) (drop_duplicates xs)),
  select-Distinct (λ y. if y == x then false else true) _ (drop_duplicates-Distinct xs),
)

pub All-drop_duplicates : (P : ℕ → Type 0) (xs : List ℕ) → All P xs → All P (drop_duplicates xs)
unfolding drop_duplicates
All-drop_duplicates P [] h = tt
All-drop_duplicates P (x ∷ xs) h =
    (h.0, All-select P (λ y. if y == x then false else true) _ (All-drop_duplicates P xs h.1))

insert_sorted-Distinct :
    (a : ℕ) (xs : List ℕ) → All (λ y. y ≢ a) xs → Distinct xs → Distinct (insert_sorted a xs)
unfolding insert_sorted
insert_sorted-Distinct a [] n h = (tt, tt)
insert_sorted-Distinct a (x ∷ xs) n h = elim (Bool-cases (leb a x)) [
  | inl e ↦ rw e (n, h)
  | inr e ↦ rw e (
    All-insert_sorted (λ y. y ≢ x) a xs (λ k. n.0 (sym k)) h.0,
    insert_sorted-Distinct a xs n.1 h.1,
  )
]

pub sort_values-Distinct : (xs : List ℕ) → Distinct xs → Distinct (sort_values xs)
unfolding sort_values
sort_values-Distinct [] h = tt
sort_values-Distinct (x ∷ xs) h =
    insert_sorted-Distinct x (sort_values xs) (All-sort_values (λ y. y ≢ x) xs h.0)
      (sort_values-Distinct xs h.1)

All-lt : (x : ℕ) (xs : List ℕ) → All (λ y. x ≤ y) xs → All (λ y. y ≢ x) xs → All (λ y. x < y) xs
All-lt x [] h n = tt
All-lt x (y ∷ xs) h n = (omega (arith, h.0, n.0), All-lt x xs h.1 n.1)

pub IsStrict-of_Distinct : (xs : List ℕ) → IsSorted xs → Distinct xs → IsStrict xs
IsStrict-of_Distinct [] s d = tt
IsStrict-of_Distinct (x ∷ xs) s d = (All-lt x xs s.0 d.0, IsStrict-of_Distinct xs s.1 d.1)

select-All : (p : ℕ → Bool) (xs : List ℕ) → All (λ x. p x ≡ true) xs → select p xs ≡ xs
select-All p [] h = refl
select-All p (x ∷ xs) h = rw h.0 (ap (◌∷◌ x) (select-All p xs h.1))

get_elem?-All : (P : ℕ → Type 0) (xs : List ℕ) (i m : ℕ) → All P xs → get_elem? xs i ≡ some m → P m
get_elem?-All P [] i m h e = cc
get_elem?-All P (x ∷ xs) zero m h e = let k : x ≡ m = cc in rw k at h.0
get_elem?-All P (x ∷ xs) (suc i) m h e = get_elem?-All P xs i m h.1 e

-- In a strictly sorted column, the items from the one at place `i` on are all but `i` of them.
pub length-select_from :
    (xs : List ℕ) (i m : ℕ)
    → IsStrict xs
    → get_elem? xs i ≡ some m
    → length (select (λ x. leb m x) xs) ≡ length xs - i
length-select_from [] i m s e = cc
length-select_from (x ∷ xs) zero m s e =
    let k : x ≡ m = cc in
    rw
      (select-All (λ y. leb m y) (x ∷ xs)
        (ground arith, All-map xs (λ y (lt : x < y). ground arith) s.0))
      (omega arith)
length-select_from (x ∷ xs) (suc i) m s e =
    let later : x < m = get_elem?-All (λ y. x < y) xs i m s.0 e in
    let skip : leb m x ≡ false = ground arith in
    rw skip (omega (arith, length-select_from xs i m s.1 e))

pub get_elem?-In : (xs : List ℕ) (i m : ℕ) → get_elem? xs i ≡ some m → In m xs
get_elem?-In [] i m e = cc
get_elem?-In (x ∷ xs) zero m e = let k : x ≡ m = cc in rw k here
get_elem?-In (x ∷ xs) (suc i) m e = there (get_elem?-In xs i m e)

pub get_elem?_total : (xs : List ℕ) (i : ℕ) → i < length xs → (m : ℕ) × (get_elem? xs i ≡ some m)
get_elem?_total [] i h = absurd (omega arith)
get_elem?_total (x ∷ xs) zero h = (x, refl)
get_elem?_total (x ∷ xs) (suc i) h = get_elem?_total xs i (omega arith)

pub In-drop_duplicates : (d : ℕ) (xs : List ℕ) → In d xs → In d (drop_duplicates xs)
unfolding drop_duplicates
In-drop_duplicates d [] i = elim i [ ]
In-drop_duplicates d (x ∷ xs) here = here
In-drop_duplicates d (x ∷ xs) (there i) = elim (Bool-cases (d == x)) [
  | inl e ↦ let k : d ≡ x = ground arith in rw k here
  | inr e ↦
      there (In-select (λ y. if y == x then false else true) (In-drop_duplicates d xs i) (rw e))
]
