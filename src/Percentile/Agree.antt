-- ===== src/Percentile/Agree.antt =====
-- A window's percentile, read off its trees, is the one that its values give.
use quant_data_center_cn.Prelude.{
  ℕ, ℤ, pos, zero, suc, ◌+◌, ◌<◌, Option, none, some, List, [], ◌∷◌, Bool, true, ◌&&◌, not,
  if◌then◌else◌, leb, ltb, length, select, map, ◌≡◌, refl, sym, ap, ◌∙◌, subst, arith, All, All-map,
  Bool-cases, inl, inr,
}
use quant_data_center_cn.Percentile.{plus, minus, FenwickTree, prefix_sum}
use quant_data_center_cn.Percentile.Ways.{count}
use quant_data_center_cn.Percentile.Fenwick.{prefix_sum-count, prefix_sum-below}
use quant_data_center_cn.Percentile.Window.{
  Sample, RollingCounts, is_positive, is_negative, at_most, percentile, percentile_from_values,
}
use quant_data_center_cn.Percentile.Counted.{indices, Kept, Counted}

abbrev pub values_of : List Sample → List ℤ
values_of = map (λ (s : Sample). s.value)

-- The index stands to those of the samples as the value does to theirs.
abbrev pub Ordered : ℤ → ℕ → List Sample → Type 0
Ordered value index = All (λ (s : Sample).
    (leb s.index index ≡ at_most s.value value) × (ltb s.index index ≡ not (at_most value s.value)))

-- Tests on the indices of some samples are tests on their values.
indices-values :
    (r : ℕ → Bool) (p q : ℤ → Bool) (samples : List Sample)
    → All (λ (s : Sample). r s.index ≡ q s.value) samples
    → count r (indices (λ (s : Sample). p s.value) samples)
      ≡ length (select q (select p (values_of samples)))
indices-values r p q [] h = refl
indices-values r p q (s ∷ samples) h =
    let rest = indices-values r p q samples h.1 in
    elim (Bool-cases (p s.value)) [
      | inr e ↦ rw e rest
      | inl e ↦ elim (Bool-cases (q s.value)) [
        | inl f ↦ rw (e, h.0, f) (ap suc rest)
        | inr f ↦ rw (e, h.0, f) rest
      ]
    ]

select-values :
    (p : ℤ → Bool) (samples : List Sample)
    → length (select (λ (s : Sample). p s.value) samples) ≡ length (select p (values_of samples))
select-values p [] = refl
select-values p (s ∷ samples) = elim (Bool-cases (p s.value)) [
  | inl e ↦ rw e (ap suc (select-values p samples))
  | inr e ↦ rw e (select-values p samples)
]

select-every : (values : List ℤ) → select (λ value. true) values ≡ values
select-every [] = refl
select-every (v ∷ values) = ap (λ vs. v ∷ vs) (select-every values)

-- A test and its opposite split a list.
length-split :
    (q : ℤ → Bool) (values : List ℤ)
    → length values ≡ length (select (λ v. not (q v)) values) + length (select q values)
length-split q [] = refl
length-split q (v ∷ values) =
    let rest = length-split q values in
    elim (Bool-cases (q v)) [
      | inl e ↦ rw e (omega (arith, rest))
      | inr e ↦ rw e (omega (arith, rest))
    ]

minus_part : (l g n : ℕ) → n ≡ l + g → minus (pos n) (pos l) ≡ pos g
minus_part zero g n e = ap pos (omega (arith, e))
minus_part (suc l) g n e =
    let fits : leb (suc l) n ≡ true = ground (arith, e) in rw fits (ap pos (omega (arith, e)))

indices-inside :
    (size : ℕ) (p : Sample → Bool) (samples : List Sample)
    → All (λ (s : Sample). s.index < size) samples
    → All (λ j. suc j < suc size) (indices p samples)
indices-inside size p [] h = tt
indices-inside size p (s ∷ samples) h = elim (Bool-cases (p s)) [
  | inl e ↦ rw e (omega (arith, h.0), indices-inside size p samples h.1)
  | inr e ↦ rw e (indices-inside size p samples h.1)
]

module _ (size : ℕ) (value : ℤ) (index : ℕ) (samples : List Sample)
    (inside : All (λ (s : Sample). s.index < size) samples)
    (ordered : Ordered value index samples) where
  -- How many of the samples with a test are at most the value, and how many are below it.
  up_to :
      (p : ℤ → Bool) (tree : FenwickTree) (total : ℤ)
      → Kept size (λ (s : Sample). p s.value) tree total samples
      → prefix_sum (pos index) tree
        ≡ pos (length (select (λ v. at_most v value) (select p (values_of samples))))
  up_to p tree total (sized, is_tree, counted) =
      prefix_sum-count index tree (indices (λ s. p s.value) samples) is_tree
        (subst (λ n. 0 < n) (sym sized) (omega arith))
        (subst (λ n. All (λ j. suc j < n) (indices (λ s. p s.value) samples)) (sym sized)
          (indices-inside size (λ s. p s.value) samples inside))
      ∙ ap pos (
          indices-values (λ j. leb j index) p (λ v. at_most v value) samples
            (All-map samples (λ s h. h.0) ordered))

  below :
      (p : ℤ → Bool) (tree : FenwickTree) (total : ℤ)
      → Kept size (λ (s : Sample). p s.value) tree total samples
      → prefix_sum (minus (pos index) (pos 1)) tree
        ≡ pos (length (select (λ v. not (at_most value v)) (select p (values_of samples))))
  below p tree total (sized, is_tree, counted) =
      prefix_sum-below index tree (indices (λ s. p s.value) samples) is_tree
        (subst (λ n. 0 < n) (sym sized) (omega arith))
        (subst (λ n. All (λ j. suc j < n) (indices (λ s. p s.value) samples)) (sym sized)
          (indices-inside size (λ s. p s.value) samples inside))
      ∙ ap pos (
          indices-values (λ j. ltb j index) p (λ v. not (at_most value v)) samples
            (All-map samples (λ s h. h.1) ordered))

  -- `percentile`, on what it reads.
  answer : ℤ → ℤ → ℤ → ℤ → ℤ → ℤ → Option (ℤ × ℤ)
  answer total positives negatives less positives_up_to all_up_to =
      if at_most total (pos 0)
      then none
      else if is_negative value
      then some (plus positives (minus negatives less), total)
      else if is_positive negatives && is_positive value
      then some (positives_up_to, positives)
      else some (all_up_to, total)

  answer-values :
      (values : List ℤ)
      → let positive = select is_positive values in
        let negative = select is_negative values in
        answer
          (pos (length values))
          (pos (length positive))
          (pos (length negative))
          (pos (length (select (λ v. not (at_most value v)) negative)))
          (pos (length (select (λ v. at_most v value) positive)))
          (pos (length (select (λ v. at_most v value) values)))
        ≡ percentile_from_values values value
  unfolding answer percentile_from_values
  answer-values values =
      let negative = select is_negative values in
      let part =
        minus_part (length (select (λ v. not (at_most value v)) negative))
          (length (select (λ v. at_most value v) negative)) (length negative)
          (length-split (λ v. at_most value v) negative) in
      rw (part, some_positive (length negative)) refl
    where
      some_positive : (n : ℕ) → is_positive (pos n) ≡ ltb 0 n
      some_positive zero = refl
      some_positive (suc n) = let e : ltb 0 (suc n) ≡ true = ground arith in rw e refl

  pub percentile-agrees :
      (counts : RollingCounts)
      → Counted size counts samples
      → percentile value index counts ≡ percentile_from_values (values_of samples) value
  unfolding percentile answer
  percentile-agrees counts v =
      let values = values_of samples in
      let total : counts.total_count ≡ pos (length values) =
        v.all_kept.2
        ∙ ap pos (select-values (λ x. true) samples ∙ ap length (select-every values)) in
      let positives : counts.positive_count ≡ pos (length (select is_positive values)) =
        v.positive_kept.2 ∙ ap pos (select-values is_positive samples) in
      let negatives : counts.negative_count ≡ pos (length (select is_negative values)) =
        v.negative_kept.2 ∙ ap pos (select-values is_negative samples) in
      let less = below is_negative counts.negative counts.negative_count v.negative_kept in
      let some_up_to = up_to is_positive counts.positive counts.positive_count v.positive_kept in
      let all_up_to =
        up_to (λ x. true) counts.all counts.total_count v.all_kept
        ∙ ap (λ vs. pos (length (select (λ v. at_most v value) vs))) (select-every values) in
      answer-same total positives negatives less some_up_to all_up_to ∙ answer-values values
    where
      answer-same :
          {a b c d e f a' b' c' d' e' f' : ℤ}
          → a ≡ a'
          → b ≡ b'
          → c ≡ c'
          → d ≡ d'
          → e ≡ e'
          → f ≡ f'
          → answer a b c d e f ≡ answer a' b' c' d' e' f'
      answer-same h i j k l m = rw (h, i, j, k, l, m) refl
