-- ===== src/Percentile.antt =====
-- src/sources/baostock/valuation_percentile.py: the counts of a rolling window, kept in Fenwick trees, and the percentile
-- that they give. The list of a tree is its length and the cells by their number; a loop has as many rounds as the
-- tree has cells.
pub mod LowBit
pub mod Ways
pub mod Fenwick
pub mod Window
pub mod Counted
pub mod Places
pub mod Agree
pub mod Reference
pub mod Since
pub mod Rolling
use quant_data_center_cn.Prelude.{
  ℕ, ℤ, pos, negsuc, zero, suc, ◌+◌, ◌-◌, Bool, true, false, if◌then◌else◌, leb, ltb, eqb,
}
use quant_data_center_cn.Percentile.LowBit.{low_bit}

-- Python's `+` and `-` on `int`.
abbrev pub difference : ℕ → ℕ → ℤ
difference a b = if leb b a then pos (a - b) else negsuc (b - a - 1)

abbrev pub plus : ℤ → ℤ → ℤ
plus (pos a) (pos b) = pos (a + b)
plus (pos a) (negsuc b) = difference a (suc b)
plus (negsuc a) (pos b) = difference b (suc a)
plus (negsuc a) (negsuc b) = negsuc (suc (a + b))

abbrev pub negated : ℤ → ℤ
negated (pos zero) = pos zero
negated (pos (suc n)) = negsuc n
negated (negsuc n) = pos (suc n)

abbrev pub minus : ℤ → ℤ → ℤ
minus a b = plus a (negated b)

-- `_FenwickTree`
pub record FenwickTree : Type 0 where
  pub size : ℕ
  pub cells : ℕ → ℤ

unfoldable pub new_tree : ℕ → FenwickTree
new_tree size = record { size = suc size; cells = λ i. pos 0 }

-- `self._tree[current] += delta`
unfoldable pub with_cell : ℕ → ℤ → FenwickTree → FenwickTree
with_cell current delta t = record t {
  cells = λ i. if eqb i current then plus (t.cells i) delta else t.cells i;
}

unfoldable pub add_from : ℕ → ℕ → ℤ → FenwickTree → FenwickTree
add_from zero current delta t = t
add_from (suc rounds) current delta t =
    let rest = add_from rounds (current + low_bit current) delta (with_cell current delta t) in
    if ltb current t.size then rest else t

-- `_FenwickTree.add`
unfoldable pub add : ℕ → ℤ → FenwickTree → FenwickTree
add index delta t = add_from t.size (suc index) delta t

unfoldable pub sum_from : ℕ → ℕ → ℤ → FenwickTree → ℤ
sum_from zero current total t = total
sum_from (suc rounds) current total t =
    let rest = sum_from rounds (current - low_bit current) (plus total (t.cells current)) t in
    if ltb 0 current then rest else total

abbrev pub min : ℕ → ℕ → ℕ
min a b = if leb a b then a else b

-- `_FenwickTree.prefix_sum`
unfoldable pub prefix_sum : ℤ → FenwickTree → ℤ
prefix_sum (negsuc n) t = pos 0
prefix_sum (pos index) t =
    let current = min (suc index) (t.size - 1) in sum_from current current (pos 0) t
