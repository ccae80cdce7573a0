-- ===== src/Percentile/Fenwick.antt =====
-- A Fenwick tree counts the indices that were added and not taken away.
use quant_data_center_cn.Prelude.{
  ℕ, ℤ, pos, negsuc, zero, suc, ◌+◌, ◌-◌, ◌<◌, In, here, there, All, All-In, same_truth, List, [],
  ◌∷◌, ◌++◌, Bool, true, false, ◌&&◌, if◌then◌else◌, leb, ltb, length, select, ◌≡◌, refl, sym, ap,
  ◌∙◌, subst, arith, Bool-cases, inl, inr,
}
use quant_data_center_cn.Percentile.{
  difference, plus, minus, FenwickTree, new_tree, add, sum_from, prefix_sum,
}
use quant_data_center_cn.Percentile.Ways.{
  count, covers, IsTree, low_bit-pos, add_from-size, add_from-cells, sum_from-count,
}

pub count-same :
    (p q : ℕ → Bool) (xs : List ℕ) → ((j : ℕ) → In j xs → p j ≡ q j) → count p xs ≡ count q xs
count-same p q [] h = refl
count-same p q (x ∷ xs) h = elim (Bool-cases (q x)) [
  | inl e ↦ rw (h x here, e) (ap suc (count-same p q xs (λ j i. h j (there i))))
  | inr e ↦ rw (h x here, e) (count-same p q xs (λ j i. h j (there i)))
]

pub new_tree-IsTree : (size : ℕ) → IsTree (new_tree size) []
unfolding new_tree
new_tree-IsTree size i positive inside = refl

pub add-size : (j : ℕ) (delta : ℤ) (t : FenwickTree) → (add j delta t).size ≡ t.size
unfolding add
add-size j delta t = add_from-size t.size (suc j) delta t

add-cells :
    (j : ℕ) (delta : ℤ) (t : FenwickTree) (i : ℕ)
    → 0 < i
    → i < t.size
    → (add j delta t).cells i ≡ (if covers i (suc j) then plus (t.cells i) delta else t.cells i)
unfolding add
add-cells j delta t i positive inside =
    let bit = low_bit-pos (suc j) (omega arith) in
    add_from-cells t.size (suc j) (suc j) delta t (omega arith) (omega (arith, bit)) (omega arith)
      (omega arith) i positive inside
    ∙ only_above (covers i (suc j)) (leb (suc j) i) (t.cells i) delta (λ e. ground (arith, e))
  where
    only_above :
        (covered above : Bool) (x delta : ℤ)
        → (above ≡ false → covered ≡ false)
        → (if above && covered then plus x delta else x) ≡ (if covered then plus x delta else x)
    only_above covered true x delta h = refl
    only_above covered false x delta h = rw (h refl) refl

pub add-IsTree :
    (j : ℕ) (t : FenwickTree) (xs : List ℕ) → IsTree t xs → IsTree (add j (pos 1) t) (xs ++ j ∷ [])
add-IsTree j t xs h i positive inside =
    let within : i < t.size = subst (λ n. i < n) (add-size j (pos 1) t) inside in
    add-cells j (pos 1) t i positive within
    ∙ added (covers i (suc j)) (h i positive within)
    ∙ ap pos (sym (at_end xs))
  where
    added :
        (b : Bool) {x : ℤ} {n : ℕ}
        → x ≡ pos n
        → (if b then plus x (pos 1) else x) ≡ pos (n + (if b then 1 else 0))
    added true h = rw h refl
    added false h = h ∙ ap pos (omega arith)

    at_end :
        (ys : List ℕ)
        → count (λ k. covers i (suc k)) (ys ++ j ∷ [])
          ≡ count (λ k. covers i (suc k)) ys + (if covers i (suc j) then 1 else 0)
    at_end [] = elim (Bool-cases (covers i (suc j))) [ inl e ↦ rw e refl | inr e ↦ rw e refl ]
    at_end (y ∷ ys) = elim (Bool-cases (covers i (suc y))) [
      | inl e ↦ let rest = at_end ys in rw e (omega (arith, rest))
      | inr e ↦ rw e (at_end ys)
    ]

pub one_less : (n : ℕ) → difference (suc n) 1 ≡ pos n
one_less n = let e : leb 1 (suc n) ≡ true = ground arith in rw e (ap pos (omega arith))

pub remove-IsTree :
    (j : ℕ) (t : FenwickTree) (xs : List ℕ) → IsTree t (j ∷ xs) → IsTree (add j (negsuc 0) t) xs
remove-IsTree j t xs h i positive inside =
    let within : i < t.size = subst (λ n. i < n) (add-size j (negsuc 0) t) inside in
    add-cells j (negsuc 0) t i positive within
    ∙ removed (covers i (suc j)) (select (λ k. covers i (suc k)) xs) (h i positive within)
  where
    removed :
        (b : Bool) {x : ℤ} (ys : List ℕ)
        → x ≡ pos (length (if b then j ∷ ys else ys))
        → (if b then plus x (negsuc 0) else x) ≡ pos (length ys)
    removed true ys h = rw h (one_less (length ys))
    removed false ys h = h

-- The indices up to a given one, and those below it.
pub prefix_sum-count :
    (q : ℕ) (t : FenwickTree) (xs : List ℕ)
    → IsTree t xs
    → 0 < t.size
    → All (λ j. suc j < t.size) xs
    → prefix_sum (pos q) t ≡ pos (count (λ j. leb j q) xs)
unfolding prefix_sum
prefix_sum-count q t xs h some_cell inside = by_test (leb (suc q) (t.size - 1)) refl
  where
    to_node :
        (m : ℕ)
        → m < t.size
        → ((j : ℕ) → In j xs → leb (suc j) m ≡ leb j q)
        → sum_from m m (pos 0) t ≡ pos (count (λ j. leb j q) xs)
    to_node m inside_too same =
        sum_from-count m m 0 t xs h inside_too (omega arith)
        ∙ ap pos
            (let all = count-same (λ j. leb (suc j) m) (λ j. leb j q) xs same in omega (arith, all))

    by_test :
        (b : Bool)
        → leb (suc q) (t.size - 1) ≡ b
        → let m = if b then suc q else t.size - 1 in
          sum_from m m (pos 0) t ≡ pos (count (λ j. leb j q) xs)
    by_test true e = to_node (suc q) (ground (arith, e, some_cell)) (λ j i.
        same_truth (leb (suc j) (suc q)) (leb j q) (λ k. ground (arith, k))
          (λ k. ground (arith, k)))
    by_test false e = to_node (t.size - 1) (omega (arith, some_cell)) (λ j i.
        let below = All-In (λ k. suc k < t.size) i inside in
        same_truth (leb (suc j) (t.size - 1)) (leb j q) (λ k. ground (arith, k, e))
          (λ k. ground (arith, below)))

pub prefix_sum-below :
    (q : ℕ) (t : FenwickTree) (xs : List ℕ)
    → IsTree t xs
    → 0 < t.size
    → All (λ j. suc j < t.size) xs
    → prefix_sum (minus (pos q) (pos 1)) t ≡ pos (count (λ j. ltb j q) xs)
unfolding prefix_sum
prefix_sum-below zero t xs h some_cell inside = ap pos (sym (none_under xs))
  where
    none_under : (ys : List ℕ) → count (λ j. ltb j 0) ys ≡ 0
    none_under [] = refl
    none_under (y ∷ ys) = let e : ltb y 0 ≡ false = ground arith in rw e (none_under ys)
prefix_sum-below (suc n) t xs h some_cell inside =
    ap (λ index. prefix_sum index t) (one_less n)
    ∙ prefix_sum-count n t xs h some_cell inside
    ∙ ap pos (
        count-same (λ j. leb j n) (λ j. ltb j (suc n)) xs
          (λ j i.
            same_truth (leb j n) (ltb j (suc n)) (λ k. ground (arith, k)) (λ k. ground (arith, k))))
