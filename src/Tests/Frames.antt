-- ===== src/Tests/Frames.antt =====
-- Tests of the daily frames: three stored days of one code, two of them fetched again.
use quant_data_center_cn.Prelude.{
  ◌==◌, pair_eq, option_eq, string_eq, nat_eq, ◌≡◌, ◌↔◌, ℕ, none, some, List, [], ◌∷◌, true, false,
  if◌then◌else◌, or_else, In,
}
use quant_data_center_cn.Pipeline.Frames.{
  DailyRow, row_key, is_outside, replace_daily_range, is_inside, daily_frames_differ_on_overlap,
}
use quant_data_center_cn.Pipeline.Frames.LastOf.{last_of}
use quant_data_center_cn.Pipeline.Frames.Merged.{replace_daily_range_iff}
use quant_data_center_cn.Pipeline.Frames.Overlap.{daily_frames_differ_on_overlap_iff, SameIn}

abbrev bar : ℕ → ℕ → DailyRow ℕ
bar day price = record { code = "sh.600000"; date = some day; values = price }

abbrev stored : List (DailyRow ℕ)
stored = bar 1 10 ∷ bar 2 11 ∷ bar 3 12 ∷ []

abbrev fetched : List (DailyRow ℕ)
fetched = bar 3 14 ∷ bar 4 13 ∷ []

-- These rows are in order already.
abbrev as_is : List (DailyRow ℕ) → List (DailyRow ℕ)
as_is rows = rows

as_is-sorts : (rows : List (DailyRow ℕ)) (r : DailyRow ℕ) → In r (as_is rows) ↔ In r rows
as_is-sorts rows r = (λ i. i, λ i. i)

replace_daily_range_iff_example : In (bar 2 11) (replace_daily_range as_is stored fetched 2 4) ↔ (
    or_else
      (last_of (row_key (bar 2 11)) fetched)
      (if is_outside 2 4 (some 2) then last_of (row_key (bar 2 11)) stored else none)
    ≡ some (bar 2 11))
replace_daily_range_iff_example =
    replace_daily_range_iff as_is as_is-sorts stored fetched 2 4 (bar 2 11)

daily_frames_differ_on_overlap_iff_example :
    (daily_frames_differ_on_overlap ◌==◌ stored fetched 3 4 ≡ false) ↔ (
      (r : DailyRow ℕ)
      → is_inside 3 4 r.date ≡ true
      → last_of (row_key r) stored ≡ some r
      → SameIn ◌==◌ fetched r)
daily_frames_differ_on_overlap_iff_example =
    daily_frames_differ_on_overlap_iff ◌==◌ stored fetched 3 4
