-- ===== src/Percentile/Counted.antt =====
-- The trees and the counts of a window are those of its samples, whichever are added and evicted.
use quant_data_center_cn.Prelude.{
  ℕ, ℤ, pos, negsuc, suc, ◌≤◌, List, [], ◌∷◌, ◌++◌, Bool, true, false, if◌then◌else◌, leb, ltb,
  length, select, map, ◌≡◌, refl, sym, ap, ◌∙◌, subst, arith, All, All-map, Bool-cases, inl, inr,
}
use quant_data_center_cn.Prelude.SortBy.{Ascending}
use quant_data_center_cn.Percentile.{plus, FenwickTree, new_tree, add}
use quant_data_center_cn.Percentile.Ways.{IsTree}
use quant_data_center_cn.Percentile.Fenwick.{add-size, add-IsTree, remove-IsTree, one_less}
use quant_data_center_cn.Percentile.Window.{
  Sample, RollingCounts, is_positive, is_negative, at_least_one, new_counts, add_sample,
  append_sample, evict, evict_before,
}

abbrev pub indices : (Sample → Bool) → List Sample → List ℕ
indices p samples = map (λ (s : Sample). s.index) (select p samples)

-- A tree and a count of the samples for which a test holds.
abbrev pub Kept : ℕ → (Sample → Bool) → FenwickTree → ℤ → List Sample → Type 0
Kept size p tree count samples =
    (tree.size ≡ suc size)
    × IsTree tree (indices p samples)
    × (count ≡ pos (length (select p samples)))

indices-at_end :
    (p : Sample → Bool) (samples : List Sample) (s : Sample)
    → (indices p (samples ++ s ∷ [])
        ≡ (if p s then indices p samples ++ s.index ∷ [] else indices p samples))
      × (length (select p (samples ++ s ∷ []))
          ≡ (if p s then suc (length (select p samples)) else length (select p samples)))
indices-at_end p [] s = elim (Bool-cases (p s)) [
  | inl e ↦ rw e (refl, refl)
  | inr e ↦ rw e (refl, refl)
]
indices-at_end p (r ∷ samples) s =
    let rest = indices-at_end p samples s in
    elim (Bool-cases (p r)) [
      | inr e ↦ rw e rest
      | inl e ↦ elim (Bool-cases (p s)) [
        | inl f ↦ rw (e, f) (ap (λ xs. r.index ∷ xs) (rw f at rest.0), ap suc (rw f at rest.1))
        | inr f ↦ rw (e, f) (ap (λ xs. r.index ∷ xs) (rw f at rest.0), ap suc (rw f at rest.1))
      ]
    ]

module _ (size : ℕ) (p : Sample → Bool) (tree : FenwickTree) (count : ℤ) where
  append-Kept :
      (samples : List Sample) (s : Sample)
      → Kept size p tree count samples
      → Kept size p
          (if p s then add s.index (pos 1) tree else tree)
          (if p s then plus count (pos 1) else count)
          (samples ++ s ∷ [])
  append-Kept samples s (sized, is_tree, counted) =
      let (same, many) = indices-at_end p samples s in
      elim (Bool-cases (p s)) [
        | inl e ↦ rw e (
          add-size s.index (pos 1) tree ∙ sized,
          subst (IsTree (add s.index (pos 1) tree)) (sym (rw e at same))
              (add-IsTree s.index tree (indices p samples) is_tree),
          ap (λ c. plus c (pos 1)) counted ∙ ap pos (let m = rw e at many in omega (arith, m)),
        )
        | inr e ↦ rw e (
          sized,
          subst (IsTree tree) (sym (rw e at same)) is_tree,
          counted ∙ ap pos (sym (rw e at many)),
        )
      ]

  evict-Kept :
      (samples : List Sample) (s : Sample)
      → Kept size p tree count (s ∷ samples)
      → Kept size p
          (if p s then add s.index (negsuc 0) tree else tree)
          (if p s then plus count (negsuc 0) else count)
          samples
  evict-Kept samples s (sized, is_tree, counted) = elim (Bool-cases (p s)) [
    | inl e ↦ rw e (
      add-size s.index (negsuc 0) tree ∙ sized,
      remove-IsTree s.index tree (indices p samples) (rw e at is_tree),
      ap (λ c. plus c (negsuc 0)) (rw e at counted) ∙ one_less (length (select p samples)),
    )
    | inr e ↦ rw e (sized, rw e at is_tree, rw e at counted)
  ]

abbrev pub always : Sample → Bool
always s = true

abbrev pub positive_sample : Sample → Bool
positive_sample s = is_positive s.value

abbrev pub negative_sample : Sample → Bool
negative_sample s = is_negative s.value

-- What the counts of a window are, for its samples.
pub record Counted (size : ℕ) (counts : RollingCounts) (samples : List Sample) : Type 0 where
  pub same : counts.samples ≡ samples
  pub all_kept : Kept size always counts.all counts.total_count samples
  pub positive_kept : Kept size positive_sample counts.positive counts.positive_count samples
  pub negative_kept : Kept size negative_sample counts.negative counts.negative_count samples

pub new_counts-Counted : (values : ℕ) → Counted (at_least_one values) (new_counts values) []
unfolding new_counts new_tree
new_counts-Counted values = record {
  same = refl;
  all_kept = (refl, (λ i positive inside. refl), refl);
  positive_kept = (refl, (λ i positive inside. refl), refl);
  negative_kept = (refl, (λ i positive inside. refl), refl);
}

pub append-Counted :
    (size : ℕ) (counts : RollingCounts) (samples : List Sample) (s : Sample)
    → Counted size counts samples
    → Counted size (append_sample s counts) (samples ++ s ∷ [])
unfolding append_sample add_sample
append-Counted size counts samples s v = record {
  same = ap (λ xs. xs ++ s ∷ []) v.same;
  all_kept = append-Kept size always counts.all counts.total_count samples s v.all_kept;
  positive_kept =
      append-Kept size positive_sample counts.positive counts.positive_count samples s
        v.positive_kept;
  negative_kept =
      append-Kept size negative_sample counts.negative counts.negative_count samples s
        v.negative_kept;
}

abbrev pub since : ℕ → List Sample → List Sample
since threshold = select (λ (s : Sample). leb threshold s.date)

All-since :
    (threshold : ℕ) (samples : List Sample)
    → All (λ (s : Sample). threshold ≤ s.date) samples
    → since threshold samples ≡ samples
All-since threshold [] h = refl
All-since threshold (s ∷ samples) h =
    let late : leb threshold s.date ≡ true = ground (arith, h.0) in
    rw late (ap (λ xs. s ∷ xs) (All-since threshold samples h.1))

evicted-Counted :
    (size threshold : ℕ) (counts : RollingCounts) (samples : List Sample)
    → Ascending (λ (s : Sample). s.date) samples
    → Counted size counts samples
    → Counted size (evict threshold samples counts) (since threshold samples)
unfolding evict add_sample
evicted-Counted size threshold counts [] up v = v
evicted-Counted size threshold counts (s ∷ samples) up v =
    elim (Bool-cases (ltb s.date threshold)) [
      | inl e ↦
          let early : leb threshold s.date ≡ false = ground (arith, e) in
          rw (e, early)
            (evicted-Counted size threshold
              (add_sample s (negsuc 0) (record counts { samples = samples })) samples up.1
              (record {
                same = refl;
                all_kept =
                    evict-Kept size always counts.all counts.total_count samples s v.all_kept;
                positive_kept =
                    evict-Kept size positive_sample counts.positive counts.positive_count samples s
                      v.positive_kept;
                negative_kept =
                    evict-Kept size negative_sample counts.negative counts.negative_count samples s
                      v.negative_kept;
              }))
      | inr e ↦
          let late : leb threshold s.date ≡ true = ground (arith, e) in
          let rest = All-since threshold samples (
            All-map samples (λ (r : Sample) (k : s.date ≤ r.date). ground (arith, k, late)) up.0) in
          rw (e, late) (subst (λ xs. Counted size counts (s ∷ xs)) (sym rest) v)
    ]

pub evict-Counted :
    (size threshold : ℕ) (counts : RollingCounts) (samples : List Sample)
    → Ascending (λ (s : Sample). s.date) samples
    → Counted size counts samples
    → Counted size (evict_before threshold counts) (since threshold samples)
unfolding evict_before
evict-Counted size threshold counts samples up v =
    subst (λ xs. Counted size (evict threshold xs counts) (since threshold samples)) (sym v.same)
      (evicted-Counted size threshold counts samples up v)
