-- ===== src/Pipeline/Frames.antt =====
-- src/pipeline/common.py: the merging of fetched daily bars into stored ones. A frame is a list of rows
-- that `clean_dataframe_for_schema` has cleaned: a code, a date that is none where pandas reads no date,
-- and the other columns, of any type. `sort` is `sort_values(["code", "date"])`, which has no two rows
-- with equal keys to order; `same_values` is `_daily_values_equal` on a row of either frame.
pub mod LastOf
pub mod Merged
pub mod Overlap
use quant_data_center_cn.Prelude.{
  Eq, ◌==◌, pair_eq, option_eq, string_eq, nat_eq, ℕ, String, Option, none, some, List, [], ◌∷◌,
  ◌++◌, Bool, true, false, ◌&&◌, ◌||◌, not, if◌then◌else◌, leb, ltb, any, select, is_some,
}
use quant_data_center_cn.Pipeline.KeepLast.{keep_last}

pub record DailyRow (V : Type 0) : Type 0 where
  pub code : String
  pub date : Option ℕ
  pub values : V

-- Whether a date is before the range or behind it: a NaT is neither.
unfoldable pub is_outside : ℕ → ℕ → Option ℕ → Bool
is_outside start end none = false
is_outside start end (some d) = ltb d start || ltb end d

unfoldable pub is_inside : ℕ → ℕ → Option ℕ → Bool
is_inside start end none = false
is_inside start end (some d) = leb start d && leb d end

module _ {V : Type 0} where
  -- The code and the `_date_key` of a row.
  abbrev pub row_key : DailyRow V → String × Option ℕ
  row_key r = (r.code, r.date)

  -- No rows are returned as they are.
  unfoldable pub merged_rows :
      (List (DailyRow V) → List (DailyRow V)) → List (DailyRow V) → List (DailyRow V)
  merged_rows sort [] = []
  merged_rows sort (r ∷ rows) = sort (keep_last row_key (r ∷ rows))

  -- `merge_daily_frames`
  unfoldable pub merge_daily_frames :
      (List (DailyRow V) → List (DailyRow V))
      → List (DailyRow V)
      → List (DailyRow V)
      → List (DailyRow V)
  merge_daily_frames sort existing fresh = merged_rows sort (existing ++ fresh)

  -- `replace_daily_range`
  unfoldable pub replace_daily_range :
      (List (DailyRow V) → List (DailyRow V))
      → List (DailyRow V)
      → List (DailyRow V)
      → ℕ
      → ℕ
      → List (DailyRow V)
  replace_daily_range sort existing fresh start end =
      merge_daily_frames sort (select (λ r. is_outside start end r.date) existing) fresh

  -- `_daily_window_by_key`
  unfoldable pub daily_window_by_key : List (DailyRow V) → ℕ → ℕ → List (DailyRow V)
  daily_window_by_key df start end = keep_last row_key (select (λ r. is_inside start end r.date) df)

  -- `window.loc[key]`
  unfoldable pub at_key : String × Option ℕ → List (DailyRow V) → Option (DailyRow V)
  at_key k [] = none
  at_key k (r ∷ rows) = if ◌==◌ {A = String × Option ℕ} k (row_key r) then some r else at_key k rows

  abbrev pub values_differ : (V → V → Bool) → DailyRow V → Option (DailyRow V) → Bool
  values_differ same_values r none = false
  values_differ same_values r (some q) = not (same_values r.values q.values)

  -- The comparisons of two windows, the existing one not empty: a key that the fresh one lacks, or
  -- shared keys with different values.
  unfoldable pub windows_differ : (V → V → Bool) → List (DailyRow V) → List (DailyRow V) → Bool
  windows_differ same_values existing fresh =
      any (λ r. not (is_some (at_key (row_key r) fresh))) existing
      || any (λ r. values_differ same_values r (at_key (row_key r) fresh)) existing

  -- The early returns for an empty window.
  unfoldable pub compare_windows : (V → V → Bool) → List (DailyRow V) → List (DailyRow V) → Bool
  compare_windows same_values [] fresh = false
  compare_windows same_values (r ∷ existing) [] = true
  compare_windows same_values (r ∷ existing) (q ∷ fresh) =
      windows_differ same_values (r ∷ existing) (q ∷ fresh)

  -- `daily_frames_differ_on_overlap`
  unfoldable pub daily_frames_differ_on_overlap :
      (V → V → Bool) → List (DailyRow V) → List (DailyRow V) → ℕ → ℕ → Bool
  daily_frames_differ_on_overlap same_values existing fresh start end =
      compare_windows same_values (daily_window_by_key existing start end)
        (daily_window_by_key fresh start end)
