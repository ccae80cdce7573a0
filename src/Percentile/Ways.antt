-- ===== src/Percentile/Ways.antt =====
-- The loops of `_FenwickTree`: the way up changes the cells of the nodes that cover an index, and the way down counts the
-- indices below it.
use quant_data_center_cn.Prelude.{
  ℕ, ℤ, pos, zero, suc, ◌+◌, ◌-◌, ◌*◌, ◌≤◌, ◌<◌, List, [], ◌∷◌, Bool, true, false, ◌&&◌,
  if◌then◌else◌, leb, ltb, eqb, length, select, ◌≡◌, refl, sym, ap, ◌∙◌, subst, arith, ◌⊎◌,
  Bool-cases, inl, inr,
}
use native.Mathlib.Decide.{dec_lt}
use quant_data_center_cn.Percentile.LowBit.{low_bit, low-pos, low-le, low-next, low-between}
use quant_data_center_cn.Percentile.{plus, FenwickTree, with_cell, add_from, sum_from}

abbrev pub count : (ℕ → Bool) → List ℕ → ℕ
count p xs = length (select p xs)

-- Whether a node's cell counts a number.
abbrev pub covers : ℕ → ℕ → Bool
covers i p = ltb (i - low_bit i) p && leb p i

-- The cells of a tree that holds some indices.
abbrev pub IsTree : FenwickTree → List ℕ → Type 0
IsTree t xs = (i : ℕ) → 0 < i → i < t.size → t.cells i ≡ pos (count (λ j. covers i (suc j)) xs)

pub low_bit-pos : (n : ℕ) → 0 < n → 0 < low_bit n
unfolding low_bit
low_bit-pos n h = low-pos n n (omega arith) h

low_bit-le : (n : ℕ) → low_bit n ≤ n
unfolding low_bit
low_bit-le n = low-le n n (omega arith)

low_bit-next : (c : ℕ) → 0 < c → 2 * low_bit c ≤ low_bit (c + low_bit c)
unfolding low_bit
low_bit-next c h = low-next c _ c (omega arith) (omega arith) h

low_bit-between : (c i : ℕ) → 0 < c → c < i → i < c + low_bit c → c + low_bit i ≤ i
unfolding low_bit
low_bit-between c i h lt gt = low-between c i c i (omega arith) (omega arith) h lt gt

size_if :
    (b : Bool) (rest t : FenwickTree) → rest.size ≡ t.size → (if b then rest else t).size ≡ t.size
size_if true rest t h = h
size_if false rest t h = refl

nat_cases : (a b : ℕ) → (a < b) ⊎ ((a ≡ b) ⊎ (b < a))
nat_cases a b = elim (dec_lt a b) [
  | yes before ↦ inl before
  | no other ↦ elim (dec_lt b a) [
    | yes after ↦ inr (inr after)
    | no neither ↦ inr (inl (omega (arith, other, neither)))
  ]
]

pub add_from-size :
    (rounds current : ℕ) (delta : ℤ) (t : FenwickTree)
    → (add_from rounds current delta t).size ≡ t.size
unfolding add_from with_cell
add_from-size zero current delta t = refl
add_from-size (suc rounds) current delta t =
    size_if (ltb current t.size) _ t
      (add_from-size rounds (current + low_bit current) delta (with_cell current delta t))

cells_if :
    (b : Bool) (rest t : FenwickTree) (i : ℕ) {target : ℤ}
    → (b ≡ true → rest.cells i ≡ target)
    → (b ≡ false → t.cells i ≡ target)
    → (if b then rest else t).cells i ≡ target
cells_if true rest t i h k = h refl
cells_if false rest t i h k = k refl

-- What a round does to a cell, together with what the rounds behind it do.
cell_step :
    (current next i : ℕ) (covered : Bool) (x delta : ℤ)
    → current < next
    → (i ≡ current → covered ≡ true)
    → (current < i → i < next → covered ≡ false)
    → (if leb next i && covered
        then plus (if eqb i current then plus x delta else x) delta
        else if eqb i current
        then plus x delta
        else x)
      ≡ (if leb current i && covered then plus x delta else x)
cell_step current next i covered x delta later at_node between = elim (nat_cases i current) [
  | inl before ↦
      let a : leb next i ≡ false = ground (arith, before, later) in
      let b : leb current i ≡ false = ground (arith, before) in
      let d : eqb i current ≡ false = ground (arith, before) in rw (a, b, d) refl
  | inr (inl same) ↦
      let a : leb next i ≡ false = ground (arith, same, later) in
      let b : leb current i ≡ true = ground (arith, same) in
      let d : eqb i current ≡ true = ground (arith, same) in rw (a, b, d, at_node same) refl
  | inr (inr after) ↦
      let b : leb current i ≡ true = ground (arith, after) in
      let d : eqb i current ≡ false = ground (arith, after) in
      elim (Bool-cases (leb next i)) [
        | inl a ↦ rw (a, b, d) refl
        | inr a ↦
            let gap : covered ≡ false = between after (ground (arith, a)) in rw (a, b, d, gap) refl
      ]
]

-- The way up from a node that covers a number changes the cells of the nodes from there that cover it, and no other.
pub add_from-cells :
    (rounds current p : ℕ) (delta : ℤ) (t : FenwickTree)
    → 0 < current
    → current < p + low_bit current
    → p ≤ current
    → t.size ≤ current + rounds
    → (i : ℕ) → 0 < i
    → i < t.size
    → (add_from rounds current delta t).cells i
      ≡ (if leb current i && covers i p then plus (t.cells i) delta else t.cells i)
unfolding add_from with_cell
add_from-cells zero current p delta t c down up enough i positive inside =
    let before : leb current i ≡ false = ground (arith, enough, inside) in rw before refl
add_from-cells (suc rounds) current p delta t c down up enough i positive inside =
    let next = current + low_bit current in
    let further = low_bit-pos current c in
    let wider = low_bit-next current c in
    let smaller = low_bit-le current in
    cells_if (ltb current t.size) (add_from rounds next delta (with_cell current delta t)) t i
      (λ e.
        add_from-cells rounds next p delta (with_cell current delta t) (omega (arith, c))
          (omega (arith, wider, down, smaller)) (omega (arith, up))
          (unfold with_cell in omega (arith, enough, further)) i positive
          (unfold with_cell in inside)
        ∙ cell_step current next i (covers i p) (t.cells i) delta (omega (arith, further))
            (λ same.
              let below : ltb (current - low_bit current) p ≡ true =
                ground (arith, down, smaller) in
              let above : leb p current ≡ true = ground (arith, up) in rw (same, below, above) refl)
            (λ after before.
              let reach = low_bit-between current i c after before in
              let out : ltb (i - low_bit i) p ≡ false = ground (arith, reach, up) in rw out refl))
      (λ e. let before : leb current i ≡ false = ground (arith, e, inside) in rw before refl)

-- The terms of a count, a node's part and the rest.
count-split :
    (c : ℕ) (xs : List ℕ)
    → 0 < c
    → count (λ j. leb (suc j) c) xs
      ≡ count (λ j. covers c (suc j)) xs + count (λ j. leb (suc j) (c - low_bit c)) xs
count-split c [] h = refl
count-split c (x ∷ xs) h =
    let rest = count-split c xs h in
    let less = low_bit-le c in
    elim (Bool-cases (leb (suc x) c)) [
      | inr e ↦
          let low : leb (suc x) (c - low_bit c) ≡ false = ground (arith, e, less) in
          let split : ltb (c - low_bit c) (suc x) ≡ true = ground (arith, low) in
          rw (e, low, split) rest
      | inl e ↦ elim (Bool-cases (leb (suc x) (c - low_bit c))) [
        | inl low ↦
            let split : ltb (c - low_bit c) (suc x) ≡ false = ground (arith, low) in
            rw (e, low, split) (omega (arith, rest))
        | inr low ↦
            let split : ltb (c - low_bit c) (suc x) ≡ true = ground (arith, low) in
            rw (e, low, split) (omega (arith, rest))
      ]
    ]

none_below : (xs : List ℕ) → count (λ j. leb (suc j) 0) xs ≡ 0
none_below [] = refl
none_below (x ∷ xs) = let e : leb (suc x) 0 ≡ false = ground arith in rw e (none_below xs)

pub sum_from-count :
    (rounds current k : ℕ) (t : FenwickTree) (xs : List ℕ)
    → IsTree t xs
    → current < t.size
    → current ≤ rounds
    → sum_from rounds current (pos k) t ≡ pos (k + count (λ j. leb (suc j) current) xs)
unfolding sum_from
sum_from-count zero current k t xs h inside enough =
    let start : current ≡ 0 = omega (arith, enough) in
    rw (start, none_below xs) (ap pos (omega arith))
sum_from-count (suc rounds) current k t xs h inside enough = elim (Bool-cases (ltb 0 current)) [
  | inr e ↦
      let start : current ≡ 0 = ground (arith, e) in
      rw (start, none_below xs) (ap pos (omega arith))
  | inl e ↦
      let positive : 0 < current = ground (arith, e) in
      let bit = low_bit-pos current positive in
      let cell = h current positive inside in
      let part = count (λ j. covers current (suc j)) xs in
      let rest =
        sum_from-count rounds (current - low_bit current) (k + part) t xs h (omega (arith, inside))
          (omega (arith, enough, bit, positive)) in
      rw e (
        subst
          (λ cell.
            sum_from rounds (current - low_bit current) (plus (pos k) cell) t
            ≡ pos (k + count (λ j. leb (suc j) current) xs))
          (sym cell)
          (rest ∙ ap pos (let split = count-split current xs positive in omega (arith, split))))
]
