-- ===== src/Tests/Calendar.antt =====
-- A week of June 2026: Thursday the 11th and Friday the 12th are trading days, Saturday is not, and
-- one row has no date that pandas reads.
use Prim.Native.Nat.{min}
use quant_data_center_cn.Prelude.{
  ℕ, ◌≤◌, ◌≡◌, refl, ◌↔◌, none, some, [], ◌∷◌, true, false, ok, err, if◌then◌else◌, ◌==◌, string_eq,
  pos, length, select, leb, nat_eq,
}
use quant_data_center_cn.Prelude.Sort.{sort_values, drop_duplicates}
use quant_data_center_cn.Calendar.{
  Cells, Frame, calendar_with_keys, is_trading_day, latest_trading_day_on_or_before,
  trading_day_lookback_start, trading_range_bounds, none_on_or_before,
}
use quant_data_center_cn.Calendar.Keys.{Listed}
use quant_data_center_cn.Calendar.Latest.{IsLatest, IsFirst, IsLatest-iff}
use quant_data_center_cn.Calendar.Lookback.{trading_days, lookback-count, trading_range_bounds_iff}

abbrev pub thursday : ℕ
thursday = 739778

abbrev pub friday : ℕ
friday = 739779

abbrev pub saturday : ℕ
saturday = 739780

abbrev pub june : Cells
june = record {
  to_date = λ s.
      if s == "2026-06-11"
      then some thursday
      else if s == "2026-06-12"
      then some friday
      else if s == "2026-06-13"
      then some saturday
      else none;
  normalized = λ s. s;
}

abbrev pub week : Frame
week = record {
  has_calendar_date = true;
  rows =
      record { calendar_date = "2026-06-12"; is_trading_day = some "1" }
      ∷ record { calendar_date = "2026-06-11"; is_trading_day = some "true" }
      ∷ record { calendar_date = "2026-06-13"; is_trading_day = some "0" }
      ∷ record { calendar_date = "no date"; is_trading_day = some "1" }
      ∷ record { calendar_date = "2026-06-11"; is_trading_day = some "1" }
      ∷ [];
}

pub latest_of_week : latest_trading_day_on_or_before june week saturday ≡ ok friday
unfolding latest_trading_day_on_or_before calendar_with_keys sort_values string_eq
latest_of_week = refl

too_early : latest_trading_day_on_or_before june week 739777 ≡ err (none_on_or_before 739777)
unfolding latest_trading_day_on_or_before calendar_with_keys sort_values string_eq
too_early = refl

saturday_is_no_trading_day : is_trading_day june week saturday ≡ false
unfolding is_trading_day calendar_with_keys string_eq
saturday_is_no_trading_day = refl

one_day_back : trading_day_lookback_start june week saturday (pos 1) ≡ ok thursday
unfolding trading_day_lookback_start latest_trading_day_on_or_before calendar_with_keys sort_values
    drop_duplicates string_eq nat_eq
one_day_back = refl

IsLatest-iff_example :
    (latest_trading_day_on_or_before june week saturday ≡ ok friday)
    ↔ IsLatest (calendar_with_keys june week) saturday friday
IsLatest-iff_example = IsLatest-iff june week saturday friday

lookback-count_example :
    (d : ℕ) × (trading_day_lookback_start june week saturday (pos 1) ≡ ok d)
    × Listed (calendar_with_keys june week) d
    × (d ≤ friday)
    × (length (select (λ x. leb d x) (trading_days (calendar_with_keys june week) friday))
        ≡ min 2 (length (trading_days (calendar_with_keys june week) friday)))
lookback-count_example = lookback-count june week saturday friday 1 latest_of_week

trading_range_bounds_iff_example :
    (trading_range_bounds june week 739770 saturday ≡ ok (thursday, friday)) ↔ (
      IsFirst (calendar_with_keys june week) 739770 thursday
      × IsLatest (calendar_with_keys june week) saturday friday
      × (thursday ≤ friday))
trading_range_bounds_iff_example =
    trading_range_bounds_iff june week 739770 saturday thursday friday
