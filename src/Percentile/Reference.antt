-- ===== src/Percentile/Reference.antt =====
-- The percentiles of a window by their definition.
use quant_data_center_cn.Prelude.{
  ℕ, ℤ, ◌≤◌, Option, none, some, List, [], ◌∷◌, ◌++◌, if◌then◌else◌, leb, select, map,
}
use quant_data_center_cn.Percentile.Window.{WindowRow, percentile_from_values, first_date}

-- Dates and thresholds that do not go back, with no threshold behind its date.
abbrev pub InOrder : ℕ → ℕ → List WindowRow → Type 0
InOrder date threshold [] = Unit
InOrder date threshold (row ∷ rows) =
    (date ≤ row.date)
    × (threshold ≤ row.threshold)
    × (row.threshold ≤ row.date)
    × InOrder row.date row.threshold rows

-- The percentiles by their definition: `earlier` are the dates and valuations of the rows so far.
abbrev pub valued_at : ℕ → Option ℤ → List (ℕ × ℤ)
valued_at date none = []
valued_at date (some value) = (date, value) ∷ []

abbrev pub values_since : ℕ → List (ℕ × ℤ) → List ℤ
values_since threshold earlier =
    map (λ (x : ℕ × ℤ). x.1) (select (λ (x : ℕ × ℤ). leb threshold x.0) earlier)

abbrev pub reference_cell : ℕ → ℕ → Option ℤ → List (ℕ × ℤ) → Option (ℤ × ℤ)
reference_cell first threshold none earlier = none
reference_cell first threshold (some value) earlier =
    if leb first threshold
    then percentile_from_values (values_since threshold earlier) value
    else none

abbrev pub reference_percentiles : ℕ → List (ℕ × ℤ) → List WindowRow → List (Option (ℤ × ℤ))
reference_percentiles first earlier [] = []
reference_percentiles first earlier (row ∷ rows) =
    let now = earlier ++ valued_at row.date row.value in
    reference_cell first row.threshold row.value now ∷ reference_percentiles first now rows

-- Without any valuation, no row has a percentile.
abbrev pub reference : List WindowRow → List (Option (ℤ × ℤ))
reference rows = elim (first_date rows) [
  | none ↦ map (λ row. none) rows
  | some first ↦ reference_percentiles first [] rows
]
