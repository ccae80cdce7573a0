-- ===== src/Percentile/LowBit.antt =====
-- `current & -current`, the lowest bit of a positive number, and how it grows along the way up a Fenwick tree.
use quant_data_center_cn.Prelude.{
  ℕ, zero, suc, ◌+◌, ◌*◌, ◌/◌, ◌%◌, ◌≤◌, ◌<◌, if◌then◌else◌, eqb, ◌≡◌, refl, sym, arith, subst, ◌⊎◌,
  Bool-cases, inl, inr,
}

-- With as many rounds as the number has bits, or more.
unfoldable pub low_bit_within : ℕ → ℕ → ℕ
low_bit_within zero n = 0
low_bit_within (suc rounds) n =
    let rest = low_bit_within rounds (n / 2) in if eqb (n % 2) 1 then 1 else 2 * rest

unfoldable pub low_bit : ℕ → ℕ
low_bit n = low_bit_within n n

halves : (n : ℕ) → ((m : ℕ) × (n ≡ 2 * m)) ⊎ ((m : ℕ) × (n ≡ 2 * m + 1))
halves n = elim (Bool-cases (eqb (n % 2) 1)) [
  | inl e ↦ inr (n / 2, ground (arith, e))
  | inr e ↦ inl (n / 2, ground (arith, e))
]

low-even : (f m : ℕ) → low_bit_within (suc f) (2 * m) ≡ 2 * low_bit_within f m
unfolding low_bit_within
low-even f m =
    let half : (2 * m) / 2 ≡ m = omega arith in
    let rem : (2 * m) % 2 ≡ 0 = omega arith in rw (half, rem) refl

low-odd : (f m : ℕ) → low_bit_within (suc f) (2 * m + 1) ≡ 1
unfolding low_bit_within
low-odd f m = let rem : (2 * m + 1) % 2 ≡ 1 = omega arith in rw rem refl

pub low-pos : (f n : ℕ) → n ≤ f → 0 < n → 0 < low_bit_within f n
low-pos zero n h p = absurd (omega (arith, h, p))
low-pos (suc f) n h p = elim (halves n) [
  | inl (m, e) ↦
      let rest = low-pos f m (omega (arith, h, e, p)) (omega (arith, e, p)) in
      rw (e, low-even f m) (omega (arith, rest))
  | inr (m, e) ↦ rw (e, low-odd f m) (omega arith)
]

pub low-le : (f n : ℕ) → n ≤ f → low_bit_within f n ≤ n
unfolding low_bit_within
low-le zero n h = omega arith
low-le (suc f) n h = elim (halves n) [
  | inl (zero, e) ↦
      rw (e, low-even f zero) (let rest = low-le f zero (omega arith) in omega (arith, rest))
  | inl (suc m, e) ↦
      let rest = low-le f (suc m) (omega (arith, h, e)) in
      rw (e, low-even f (suc m)) (omega (arith, rest))
  | inr (m, e) ↦ rw (e, low-odd f m) (omega arith)
]

-- The low bit of the next node on the way up is at least twice the one of this node.
pub low-next :
    (f g c : ℕ)
    → c ≤ f
    → c + low_bit_within f c ≤ g
    → 0 < c
    → 2 * low_bit_within f c ≤ low_bit_within g (c + low_bit_within f c)
low-next zero g c h k p = absurd (omega (arith, h, p))
low-next (suc f) zero c h k p = absurd (omega (arith, k, p))
low-next (suc f) (suc g) c h k p = elim (halves c) [
  | inl (m, e) ↦
      let twice : low_bit_within (suc f) c ≡ 2 * low_bit_within f m = rw e (low-even f m) in
      let bound : c + 2 * low_bit_within f m ≤ suc g = subst (λ l. c + l ≤ suc g) twice k in
      let next =
        low-next f g m (omega (arith, h, e, p)) (omega (arith, bound, e, p))
          (omega (arith, e, p)) in
      let same : c + 2 * low_bit_within f m ≡ 2 * (m + low_bit_within f m) = omega (arith, e) in
      subst (λ l. 2 * l ≤ low_bit_within (suc g) (c + l)) (sym twice)
        (subst (λ n. 2 * (2 * low_bit_within f m) ≤ low_bit_within (suc g) n) (sym same)
          (subst (λ l. 2 * (2 * low_bit_within f m) ≤ l) (sym (low-even g (m + low_bit_within f m)))
            (omega (arith, next))))
  | inr (m, e) ↦
      let same : c + 1 ≡ 2 * (m + 1) = omega (arith, e) in
      let one : low_bit_within (suc f) c ≡ 1 = rw e (low-odd f m) in
      let bound : c + 1 ≤ suc g = subst (λ l. c + l ≤ suc g) one k in
      let some_bit = low-pos g (m + 1) (omega (arith, e, bound)) (omega arith) in
      subst (λ l. 2 * l ≤ low_bit_within (suc g) (c + l)) (sym one)
        (subst (λ n. 2 ≤ low_bit_within (suc g) n) (sym same)
          (subst (λ l. 2 ≤ l) (sym (low-even g (m + 1))) (omega (arith, some_bit))))
]

-- A number between this node and the next one reaches down no further than this node.
pub low-between :
    (f g c i : ℕ)
    → c ≤ f
    → i ≤ g
    → 0 < c
    → c < i
    → i < c + low_bit_within f c
    → c + low_bit_within g i ≤ i
low-between zero g c i h k p lt gt = absurd (omega (arith, h, p))
low-between (suc f) zero c i h k p lt gt = absurd (omega (arith, k, lt))
low-between (suc f) (suc g) c i h k p lt gt = elim (halves c) [
  | inr (m, e) ↦
      let one : low_bit_within (suc f) c ≡ 1 = rw e (low-odd f m) in
      absurd (omega (arith, one, lt, gt))
  | inl (m, e) ↦
      let twice : low_bit_within (suc f) c ≡ 2 * low_bit_within f m = rw e (low-even f m) in
      elim (halves i) [
        | inr (j, d) ↦
            let one : low_bit_within (suc g) i ≡ 1 = rw d (low-odd g j) in
            omega (arith, one, d, e, lt)
        | inl (j, d) ↦
            let double : low_bit_within (suc g) i ≡ 2 * low_bit_within g j = rw d (low-even g j) in
            let rest =
              low-between f g m j (omega (arith, h, e, p)) (omega (arith, k, d, lt))
                (omega (arith, e, p)) (omega (arith, e, d, lt)) (omega (arith, e, d, gt, twice)) in
            omega (arith, double, rest, d, e)
      ]
]
