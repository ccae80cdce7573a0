-- ===== src/Tests/Percentile.antt =====
-- A test of the percentiles of one window: four rows, of which the third has no valuation.
use quant_data_center_cn.Prelude.{
  pos, negsuc, int_eq, ℤ_discrete, none, some, List, [], ◌∷◌, ◌≡◌, refl, arith,
}
use native.Mathlib.Decide.{ℕ_discrete}
use quant_data_center_cn.Percentile.{new_tree, with_cell, add_from, add, sum_from, prefix_sum}
use quant_data_center_cn.Percentile.LowBit.{low_bit, low_bit_within}
use quant_data_center_cn.Percentile.Window.{
  WindowRow, new_counts, add_sample, append_sample, evict, evict_before, percentile, insert_value,
  sorted_values, place_of, window_turn, window_percentiles, valuations, first_date,
  compute_field_percentiles,
}
use quant_data_center_cn.Percentile.Reference.{InOrder, reference}
use quant_data_center_cn.Percentile.Rolling.{compute_field_percentiles-agrees}

abbrev rows : List WindowRow
rows =
    record { date = 20; threshold = 10; value = some (pos 7) }
    ∷ record { date = 25; threshold = 15; value = some (negsuc 2) }
    ∷ record { date = 31; threshold = 21; value = none }
    ∷ record { date = 35; threshold = 25; value = some (pos 3) }
    ∷ []

in_order : InOrder 0 0 rows
in_order = (
  omega arith,
  omega arith,
  omega arith,
  (
    omega arith,
    omega arith,
    omega arith,
    (omega arith, omega arith, omega arith, (omega arith, omega arith, omega arith, tt)),
  ),
)

compute_field_percentiles-agrees_example : compute_field_percentiles rows ≡ reference rows
compute_field_percentiles-agrees_example = compute_field_percentiles-agrees rows in_order

cells : compute_field_percentiles rows ≡ none ∷ none ∷ none ∷ some (pos 1, pos 1) ∷ []
unfolding compute_field_percentiles first_date window_percentiles window_turn valuations new_counts
    new_tree add_sample append_sample evict evict_before percentile insert_value sorted_values
    place_of with_cell add_from add sum_from prefix_sum low_bit low_bit_within ℤ_discrete ℕ_discrete
cells = refl
