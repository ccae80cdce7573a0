-- ===== src/Percentile/Rolling.antt =====
-- The loop over a stock's rows gives, for each of its windows, the percentiles of the values in the window.
use quant_data_center_cn.Prelude.{
  ℕ, ℤ, ◌≤◌, ◌<◌, Option, none, some, List, [], ◌∷◌, ◌++◌, if◌then◌else◌, leb, ltb, length, map,
  ◌≡◌, refl, sym, ap, ◌∙◌, subst, arith, All, All-map, All-append, In, here, there, Bool-cases, inl,
  inr,
}
use mathlib.Core.List.{append-nil}
use quant_data_center_cn.Prelude.SortBy.{Ascending}
use quant_data_center_cn.Percentile.Window.{
  Sample, RollingCounts, WindowRow, at_least_one, percentile_from_values, append_sample,
  evict_before, new_counts, sorted_values, place_of, window_turn, window_percentiles, valuations,
  first_date, compute_field_percentiles,
}
use quant_data_center_cn.Percentile.Counted.{
  Counted, since, new_counts-Counted, append-Counted, evict-Counted,
}
use quant_data_center_cn.Percentile.Places.{In-sorted, place-lt, place-order}
use quant_data_center_cn.Percentile.Reference.{
  InOrder, valued_at, values_since, reference_cell, reference_percentiles, reference,
}
use quant_data_center_cn.Percentile.Since.{
  date_of, All-since, since-Ascending, since_twice, since-at_end, All-parts, Ascending-at_end,
}
use quant_data_center_cn.Percentile.Agree.{values_of, Ordered, percentile-agrees}

cons_same :
    {x y : Option (ℤ × ℤ)} {xs ys : List (Option (ℤ × ℤ))}
    → x ≡ y
    → xs ≡ ys
    → ◌≡◌ {A = List (Option (ℤ × ℤ))} (x ∷ xs) (y ∷ ys)
cons_same h k = rw (h, k) refl

module _ (values : List ℤ) where
  -- The sample of a row that has a valuation.
  abbrev sample_at : ℕ → Option ℤ → List Sample
  sample_at date none = []
  sample_at date (some value) =
      record { date = date; value = value; index = place_of (sorted_values values) value } ∷ []

  abbrev samples_of : List WindowRow → List Sample
  samples_of [] = []
  samples_of (row ∷ rows) = sample_at row.date row.value ++ samples_of rows

  -- The cell of a row, from the values of the window that ends with it.
  abbrev cell_of : ℕ → ℕ → Option ℤ → List Sample → Option (ℤ × ℤ)
  cell_of first threshold none samples = none
  cell_of first threshold (some value) samples =
      if leb first threshold
      then percentile_from_values (values_of (since threshold samples)) value
      else none

  -- The cells of some rows, behind earlier ones.
  abbrev cells_after : ℕ → List Sample → List WindowRow → List (Option (ℤ × ℤ))
  cells_after first samples [] = []
  cells_after first samples (row ∷ rows) =
      let all = samples ++ sample_at row.date row.value in
      cell_of first row.threshold row.value all ∷ cells_after first all rows

  -- Each sample has a value that is known, and its place.
  abbrev Placed : List Sample → Type 0
  Placed =
      All (λ (s : Sample). In s.value values × (s.index ≡ place_of (sorted_values values) s.value))

  Placed-inside :
      (samples : List Sample)
      → Placed samples
      → All (λ (s : Sample). s.index < at_least_one (length (sorted_values values))) samples
  Placed-inside samples h =
      All-map samples
        (λ (s : Sample) k.
          let inside = place-lt (sorted_values values) s.value (In-sorted values s.value k.0) in
          let bound : length (sorted_values values) ≤ at_least_one (length (sorted_values values)) =
            ground arith in
          omega (arith, inside, bound, k.1))
        h

  Placed-Ordered :
      (value : ℤ) (samples : List Sample)
      → In value values
      → Placed samples
      → Ordered value (place_of (sorted_values values) value) samples
  Placed-Ordered value samples i h =
      All-map samples
        (λ (s : Sample) k.
          let order =
            place-order values value s.value (In-sorted values value i)
              (In-sorted values s.value k.0) in
          (
            ap (λ n. leb n (place_of (sorted_values values) value)) k.1 ∙ order.0,
            ap (λ n. ltb n (place_of (sorted_values values) value)) k.1 ∙ order.1,
          ))
        h

  last_In : (samples : List Sample) (s : Sample) → Placed (samples ++ s ∷ []) → In s.value values
  last_In [] s h = h.0.0
  last_In (r ∷ samples) s h = last_In samples s h.1

  abbrev size : ℕ
  size = at_least_one (length (sorted_values values))

  -- A turn of the loop, with the window of the turn before.
  turn-agrees :
      (first date threshold early : ℕ) (found : Option ℤ) (samples : List Sample)
      (counts : RollingCounts)
      → Counted size counts (since early samples)
      → early ≤ threshold
      → threshold ≤ date
      → Ascending date_of samples
      → Placed (samples ++ sample_at date found)
      → let turn =
          window_turn
            (place_of (sorted_values values))
            first
            (record { date = date; threshold = threshold; value = found })
            counts in
        (turn.0 ≡ cell_of first threshold found (samples ++ sample_at date found))
        × Counted size turn.1 (since threshold (samples ++ sample_at date found))
  unfolding window_turn
  turn-agrees first date threshold early found samples counts v later fits up placed =
      let kept : Counted size (evict_before threshold counts) (since threshold samples) =
        subst (Counted size (evict_before threshold counts))
          (since_twice early threshold samples later)
          (evict-Counted size threshold counts (since early samples)
            (since-Ascending early samples up) v) in
      by_value found placed kept
    where
      by_value :
          (found : Option ℤ)
          → Placed (samples ++ sample_at date found)
          → Counted size (evict_before threshold counts) (since threshold samples)
          → let turn =
              window_turn
                (place_of (sorted_values values))
                first
                (record { date = date; threshold = threshold; value = found })
                counts in
            (turn.0 ≡ cell_of first threshold found (samples ++ sample_at date found))
            × Counted size turn.1 (since threshold (samples ++ sample_at date found))
      by_value none placed kept = (
        refl,
        subst (Counted size (evict_before threshold counts))
            (ap (since threshold) (sym (append-nil samples))) kept,
      )
      by_value (some value) placed kept =
          let index = place_of (sorted_values values) value in
          let s : Sample = record { date = date; value = value; index = index } in
          let added : Counted size (append_sample s (evict_before threshold counts))
              (since threshold (samples ++ s ∷ [])) =
            subst (Counted size (append_sample s (evict_before threshold counts)))
              (sym (since-at_end threshold samples s fits))
              (append-Counted size (evict_before threshold counts) (since threshold samples) s
                kept) in
          let window = since threshold (samples ++ s ∷ []) in
          let there_too =
            All-since
              (λ (r : Sample).
                In r.value values × (r.index ≡ place_of (sorted_values values) r.value))
              threshold (samples ++ s ∷ []) placed in
          let agrees =
            percentile-agrees size value index window (Placed-inside window there_too)
              (Placed-Ordered value window (last_In samples s placed) there_too)
              (append_sample s (evict_before threshold counts)) added in
          (ap (λ cell. if leb first threshold then cell else none) agrees, added)

  next-Ascending :
      (date : ℕ) (found : Option ℤ) (samples : List Sample)
      → Ascending date_of samples
      → All (λ (r : Sample). r.date ≤ date) samples
      → Ascending date_of (samples ++ sample_at date found)
        × All (λ (r : Sample). r.date ≤ date) (samples ++ sample_at date found)
  next-Ascending date none samples up h = rw (append-nil samples) (up, h)
  next-Ascending date (some value) samples up h = (
    Ascending-at_end samples _ up h,
    All-append (λ (r : Sample). r.date ≤ date) samples (_ ∷ []) h (omega arith, tt),
  )

  loop-agrees :
      (first latest early : ℕ) (samples : List Sample) (counts : RollingCounts)
      (rows : List WindowRow)
      → Counted size counts (since early samples)
      → Ascending date_of samples
      → All (λ (r : Sample). r.date ≤ latest) samples
      → Placed samples
      → Placed (samples_of rows)
      → InOrder latest early rows
      → window_percentiles (place_of (sorted_values values)) first rows counts
        ≡ cells_after first samples rows
  unfolding window_percentiles
  loop-agrees first latest early samples counts [] v up late placed more order = refl
  loop-agrees first latest early samples counts (row ∷ rows) v up late placed more order =
      let parts =
        All-parts
          (λ (s : Sample). In s.value values × (s.index ≡ place_of (sorted_values values) s.value))
          (sample_at row.date row.value) (samples_of rows) more in
      let all =
        All-append
          (λ (s : Sample). In s.value values × (s.index ≡ place_of (sorted_values values) s.value))
          samples (sample_at row.date row.value) placed parts.0 in
      let turn =
        turn-agrees first row.date row.threshold early row.value samples counts v order.1 order.2 up
          all in
      let next =
        next-Ascending row.date row.value samples up
          (All-map samples (λ (r : Sample) k. omega (arith, k, order.0)) late) in
      let rest =
        loop-agrees first row.date row.threshold (samples ++ sample_at row.date row.value) _ rows
          turn.1 next.0 next.1 all parts.1 order.3 in
      cons_same turn.0 rest

  rows-Placed :
      (rows : List WindowRow)
      → ((v : ℤ) → In v (valuations rows) → In v values)
      → Placed (samples_of rows)
  unfolding valuations
  rows-Placed [] known = tt
  rows-Placed (row ∷ rows) known = with_first row.value (λ k. rows-Placed rows k) known
    where
      with_first :
          (found : Option ℤ)
          → (((v : ℤ) → In v (valuations rows) → In v values) → Placed (samples_of rows))
          → ((v : ℤ)
              → In v (elim found as (λ x. List ℤ) [
                | none ↦ valuations rows
                | some value ↦ value ∷ valuations rows
              ])
              → In v values)
          → Placed (sample_at row.date found ++ samples_of rows)
      with_first none rest known = rest known
      with_first (some value) rest known =
          ((known value here, refl), rest (λ v i. known v (there i)))

  abbrev dated : Sample → ℕ × ℤ
  dated s = (s.date, s.value)

  since-dated :
      (threshold : ℕ) (samples : List Sample)
      → values_of (since threshold samples) ≡ values_since threshold (map dated samples)
  since-dated threshold [] = refl
  since-dated threshold (s ∷ samples) = elim (Bool-cases (leb threshold s.date)) [
    | inl e ↦ rw e (ap (λ vs. s.value ∷ vs) (since-dated threshold samples))
    | inr e ↦ rw e (since-dated threshold samples)
  ]

  dated-append :
      (date : ℕ) (found : Option ℤ) (samples : List Sample)
      → map dated (samples ++ sample_at date found) ≡ map dated samples ++ valued_at date found
  dated-append date none [] = refl
  dated-append date (some value) [] = refl
  dated-append date found (s ∷ samples) =
      ap (λ xs. (s.date, s.value) ∷ xs) (dated-append date found samples)

  cell-reference :
      (first threshold : ℕ) (found : Option ℤ) (samples : List Sample)
      → cell_of first threshold found samples
        ≡ reference_cell first threshold found (map dated samples)
  cell-reference first threshold none samples = refl
  cell-reference first threshold (some value) samples =
      ap (λ vs. if leb first threshold then percentile_from_values vs value else none)
        (since-dated threshold samples)

  cells-reference :
      (first : ℕ) (samples : List Sample) (rows : List WindowRow)
      → cells_after first samples rows ≡ reference_percentiles first (map dated samples) rows
  cells-reference first samples [] = refl
  cells-reference first samples (row ∷ rows) =
      let now = samples ++ sample_at row.date row.value in
      let cell = cell-reference first row.threshold row.value now in
      let rest = cells-reference first now rows in
      subst
        (λ earlier. ◌≡◌ {A = List (Option (ℤ × ℤ))} (cells_after first samples (row ∷ rows)) (
          reference_cell first row.threshold row.value earlier
          ∷ reference_percentiles first earlier rows))
        (dated-append row.date row.value samples) (cons_same cell rest)

-- For the rows of a stock in the order of their dates, with thresholds that do not go back and are
-- not behind their dates, the loop with its trees writes into each row with a valuation what
-- `_percentile_from_values` gives for the valuations on or after the row's threshold among the rows
-- so far, if the first date with a valuation is not behind the threshold, and leaves all other rows
-- without a percentile.
pub compute_field_percentiles-agrees :
    (rows : List WindowRow) → InOrder 0 0 rows → compute_field_percentiles rows ≡ reference rows
unfolding compute_field_percentiles
compute_field_percentiles-agrees rows order = by_first (first_date rows)
  where
    values : List ℤ
    values = valuations rows

    by_first :
        (found : Option ℕ)
        → ◌≡◌ {A = List (Option (ℤ × ℤ))}
            (elim found as (λ x. List (Option (ℤ × ℤ))) [
              | none ↦ map (λ row. none) rows
              | some first ↦
                  window_percentiles
                    (place_of (sorted_values values))
                    first
                    rows
                    (new_counts (length (sorted_values values)))
            ])
            (elim found as (λ x. List (Option (ℤ × ℤ))) [
              | none ↦ map (λ row. none) rows
              | some first ↦ reference_percentiles first [] rows
            ])
    by_first none = refl
    by_first (some first) =
        loop-agrees values first 0 0 [] (new_counts (length (sorted_values values))) rows
          (new_counts-Counted (length (sorted_values values))) tt tt tt
          (rows-Placed values rows (λ v i. i)) order
        ∙ cells-reference values first [] rows
