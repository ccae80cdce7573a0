-- ===== src/Percentile/Window.antt =====
-- src/sources/baostock/valuation_percentile.py: `_RollingCounts`, the loop of `_compute_field_percentiles` for one of its
-- windows, and `_percentile_from_values`. A valuation is a signed number, exact, which is all that the code compares; one that is
-- missing or 0 is none. A percentile is the two whole numbers whose quotient, times 100, the code returns.
use quant_data_center_cn.Prelude.{
  ℕ, ℤ, pos, negsuc, zero, suc, ◌+◌, Option, none, some, List, [], ◌∷◌, ◌++◌, Bool, true, false,
  ◌&&◌, if◌then◌else◌, leb, ltb, length, select, map, ◌==◌, int_eq,
}
use quant_data_center_cn.Percentile.{plus, minus, FenwickTree, new_tree, add, prefix_sum}

-- `_Sample`
pub record Sample : Type 0 where
  pub date : ℕ
  pub value : ℤ
  pub index : ℕ

-- `_RollingCounts`
pub record RollingCounts : Type 0 where
  pub all : FenwickTree
  pub positive : FenwickTree
  pub negative : FenwickTree
  pub samples : List Sample
  pub total_count : ℤ
  pub positive_count : ℤ
  pub negative_count : ℤ

abbrev pub is_positive : ℤ → Bool
is_positive (pos zero) = false
is_positive (pos (suc n)) = true
is_positive (negsuc n) = false

abbrev pub is_negative : ℤ → Bool
is_negative (pos n) = false
is_negative (negsuc n) = true

-- `a <= b`
abbrev pub at_most : ℤ → ℤ → Bool
at_most (pos a) (pos b) = leb a b
at_most (pos a) (negsuc b) = false
at_most (negsuc a) (pos b) = true
at_most (negsuc a) (negsuc b) = leb b a

abbrev pub at_least_one : ℕ → ℕ
at_least_one n = if leb n 1 then 1 else n

unfoldable pub new_counts : ℕ → RollingCounts
new_counts values = record {
  all = new_tree (at_least_one values);
  positive = new_tree (at_least_one values);
  negative = new_tree (at_least_one values);
  samples = [];
  total_count = pos 0;
  positive_count = pos 0;
  negative_count = pos 0;
}

-- `_add_sample`
unfoldable pub add_sample : Sample → ℤ → RollingCounts → RollingCounts
add_sample sample delta counts = record counts {
  all = add sample.index delta counts.all;
  total_count = plus counts.total_count delta;
  positive =
      if is_positive sample.value then add sample.index delta counts.positive else counts.positive;
  positive_count =
      if is_positive sample.value then plus counts.positive_count delta else counts.positive_count;
  negative =
      if is_negative sample.value then add sample.index delta counts.negative else counts.negative;
  negative_count =
      if is_negative sample.value then plus counts.negative_count delta else counts.negative_count;
}

-- `_RollingCounts.add`
unfoldable pub append_sample : Sample → RollingCounts → RollingCounts
append_sample sample counts =
    add_sample sample (pos 1) (record counts { samples = counts.samples ++ sample ∷ [] })

-- `evict_before`, for the samples that are there
unfoldable pub evict : ℕ → List Sample → RollingCounts → RollingCounts
evict threshold [] counts = counts
evict threshold (sample ∷ samples) counts =
    let rest =
      evict threshold samples
        (add_sample sample (negsuc 0) (record counts { samples = samples })) in
    if ltb sample.date threshold then rest else counts

unfoldable pub evict_before : ℕ → RollingCounts → RollingCounts
evict_before threshold counts = evict threshold counts.samples counts

-- `_RollingCounts.percentile`
unfoldable pub percentile : ℤ → ℕ → RollingCounts → Option (ℤ × ℤ)
percentile value index counts =
    if at_most counts.total_count (pos 0)
    then none
    else if is_negative value
    then some (
      plus counts.positive_count
          (minus counts.negative_count (prefix_sum (minus (pos index) (pos 1)) counts.negative)),
      counts.total_count,
    )
    else if is_positive counts.negative_count && is_positive value
    then some (prefix_sum (pos index) counts.positive, counts.positive_count)
    else some (prefix_sum (pos index) counts.all, counts.total_count)

-- `_percentile_from_values`
unfoldable pub percentile_from_values : List ℤ → ℤ → Option (ℤ × ℤ)
percentile_from_values values current =
    let positive = select is_positive values in
    let negative = select is_negative values in
    if leb (length values) 0
    then none
    else if is_negative current
    then some (
      pos (length positive + length (select (λ value. at_most current value) negative)),
      pos (length values),
    )
    else if ltb 0 (length negative) && is_positive current
    then some
        (pos (length (select (λ value. at_most value current) positive)), pos (length positive))
    else some (pos (length (select (λ value. at_most value current) values)), pos (length values))

-- `sorted(...unique())`, and a value's place there, which `value_to_index` gives.
unfoldable pub insert_value : ℤ → List ℤ → List ℤ
insert_value value [] = value ∷ []
insert_value value (first ∷ values) =
    let rest = insert_value value values in
    if value == first
    then first ∷ values
    else if at_most value first
    then value ∷ first ∷ values
    else first ∷ rest

unfoldable pub sorted_values : List ℤ → List ℤ
sorted_values [] = []
sorted_values (value ∷ values) = insert_value value (sorted_values values)

unfoldable pub place_of : List ℤ → ℤ → ℕ
place_of [] value = 0
place_of (first ∷ values) value =
    let rest = place_of values value in if value == first then 0 else suc rest

-- A row of a stock's group: its date, the threshold of the window on that date, and its valuation.
pub record WindowRow : Type 0 where
  pub date : ℕ
  pub threshold : ℕ
  pub value : Option ℤ

module _ (value_to_index : ℤ → ℕ) (first_valid_date : ℕ) where
  unfoldable pub window_turn : WindowRow → RollingCounts → Option (ℤ × ℤ) × RollingCounts
  window_turn row counts =
      let kept = evict_before row.threshold counts in
      elim row.value [
        | none ↦ (none, kept)
        | some value ↦
            let index = value_to_index value in
            let added =
              append_sample (record { date = row.date; value = value; index = index }) kept in
            (
              if leb first_valid_date row.threshold then percentile value index added else none,
              added,
            )
      ]

  -- The cells that the loop writes for one window; a row that is passed over keeps its NaN, which is none.
  unfoldable pub window_percentiles : List WindowRow → RollingCounts → List (Option (ℤ × ℤ))
  window_percentiles [] counts = []
  window_percentiles (row ∷ rows) counts =
      let (cell, next) = window_turn row counts in cell ∷ window_percentiles rows next

unfoldable pub valuations : List WindowRow → List ℤ
valuations [] = []
valuations (row ∷ rows) = elim row.value [
  | none ↦ valuations rows
  | some value ↦ value ∷ valuations rows
]

-- The first date among the rows with a valuation.
unfoldable pub first_date : List WindowRow → Option ℕ
first_date [] = none
first_date (row ∷ rows) =
    let rest = first_date rows in
    elim row.value [
      | none ↦ rest
      | some value ↦ elim rest [
        | none ↦ some row.date
        | some date ↦ some (if leb row.date date then row.date else date)
      ]
    ]

-- `_compute_field_percentiles`, for one window
unfoldable pub compute_field_percentiles : List WindowRow → List (Option (ℤ × ℤ))
compute_field_percentiles rows =
    let values = sorted_values (valuations rows) in
    elim (first_date rows) [
      | none ↦ map (λ row. none) rows
      | some first_valid_date ↦
          window_percentiles (place_of values) first_valid_date rows (new_counts (length values))
    ]
