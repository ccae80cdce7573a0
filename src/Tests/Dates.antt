-- ===== src/Tests/Dates.antt =====
-- Tests of the effective dates of Friday, 12 June 2026.
use quant_data_center_cn.Prelude.{
  ◌+◌, ◌≤◌, ◌≡◌, refl, none, some, true, ok, string_eq, int_eq, nat_eq,
}
use quant_data_center_cn.Prelude.Sort.{sort_values}
use quant_data_center_cn.Calendar.{
  calendar_with_keys, calendar_covers_range, latest_trading_day_on_or_before,
}
use quant_data_center_cn.Calendar.Latest.{IsLatest}
use quant_data_center_cn.Daily.Types.{policy_eq}
use quant_data_center_cn.Daily.Dates.{Surroundings, resolve_daily_effective_dates, calendar_in_use}
use quant_data_center_cn.Daily.Dates.Laws.{resolve_dates_ordered, resolve_dates-IsLatest}
use quant_data_center_cn.Tests.Calendar.{june, week, friday}
use quant_data_center_cn.Tests.Workflow.{on_friday}

abbrev friday_evening : Surroundings
friday_evening = record {
  today = friday;
  now = some (record { date = friday; seconds = 68400 });
  has_settings = true;
  stored_calendar = week;
  refreshed_calendar = week;
}

dates_of_friday : resolve_daily_effective_dates june friday_evening none none ≡ ok on_friday
unfolding resolve_daily_effective_dates calendar_with_keys calendar_covers_range
    latest_trading_day_on_or_before sort_values string_eq
dates_of_friday = refl

resolve_dates_ordered_example :
    (on_friday.natural_date ≡ friday)
    × (on_friday.market_date ≤ on_friday.candidate_date)
    × (on_friday.hist_start + 30 ≡ on_friday.market_date)
resolve_dates_ordered_example =
    resolve_dates_ordered june friday_evening none none on_friday dates_of_friday

resolve_dates-IsLatest_example :
    IsLatest (calendar_with_keys june (calendar_in_use june friday_evening friday)) friday friday
resolve_dates-IsLatest_example =
    resolve_dates-IsLatest june friday_evening none none on_friday dates_of_friday refl
