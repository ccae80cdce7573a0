-- ===== src/Daily/Dates.antt =====
-- src/tools/run_update_daily.py: the effective dates of a run (with `default_candidate_date` of
-- src/pipeline/common.py), the weekday rules and the schedule policies.
pub mod Laws
use quant_data_center_cn.Prelude.{
  ℕ, ◌+◌, ◌-◌, ◌*◌, ◌%◌, String, Option, none, some, List, [], ◌∷◌, Bool, true, false, ◌&&◌, ◌||◌,
  Result, ok, err, ◌>>=◌, if◌then◌else◌, leb, ltb, eqb, ◌==◌, string_eq, contains, any, not,
}
use quant_data_center_cn.Calendar.{
  Cells, Frame, CalendarError, calendar_covers_range, latest_trading_day_on_or_before, is_empty,
}
use quant_data_center_cn.Daily.Types.{
  SchedulePolicy, daily, market_window, legacy_when, DailyEffectiveDates,
}

-- `date.weekday()`: Monday is 0. The ordinal of Monday, 1 January of year 1, is 1.
unfoldable pub weekday : ℕ → ℕ
weekday d = (d + 6) % 7

-- `today.strftime("%A").lower()`, in the C locale
weekday_name : ℕ → String
weekday_name w =
    if eqb w 0
    then "monday"
    else if eqb w 1
    then "tuesday"
    else if eqb w 2
    then "wednesday"
    else if eqb w 3
    then "thursday"
    else if eqb w 4
    then "friday"
    else if eqb w 5
    then "saturday"
    else "sunday"

-- One pass of the loop over the rules, on a rule that is stripped and lowered.
rule_matches : String → ℕ → Bool
unfolding weekday_name
rule_matches normalized w =
    normalized == "weekday" && ltb w 5
    || normalized == "weekend" && (eqb w 5 || eqb w 6)
    || (normalized == "friday_to_sunday" || normalized == "weekend_window")
      && (eqb w 4 || eqb w 5 || eqb w 6)
    || normalized == weekday_name w

-- `_day_rule_matches`, on the list that `_string_list` returns. `normalized` is the rule's
-- `strip().lower()`.
unfoldable pub day_rule_matches : (String → String) → List String → ℕ → Bool
unfolding rule_matches weekday
day_rule_matches normalized rules today =
    is_empty rules
    || contains rules "all"
    || any (λ rule. rule_matches (normalized rule) (weekday today)) rules

-- `_schedule_policy_matches`
unfoldable pub schedule_policy_matches :
    (String → String) → SchedulePolicy → List String → DailyEffectiveDates → Bool
unfolding day_rule_matches
schedule_policy_matches normalized daily rules dates = true
schedule_policy_matches normalized market_window rules dates =
    (eqb (weekday dates.natural_date) 4
      || eqb (weekday dates.natural_date) 5
      || eqb (weekday dates.natural_date) 6)
    || not (eqb dates.candidate_date dates.market_date)
    || dates.market_date_overridden
schedule_policy_matches normalized legacy_when rules dates =
    day_rule_matches normalized rules dates.natural_date

pub data DateError : Type 0 where
  invalid_as_of_date invalid_market_date date_overflow : DateError
  market_after_candidate : ℕ → ℕ → DateError
  calendar_does_not_cover : ℕ → DateError
  calendar_error : CalendarError → DateError

-- `d - timedelta(days=n)` raises OverflowError below ordinal 1.
minus_days : ℕ → ℕ → Result DateError ℕ
minus_days d n = if leb d n then err date_overflow else ok (d - n)

-- The wall clock in the exchange's time zone.
pub record LocalTime : Type 0 where
  pub date : ℕ
  pub seconds : ℕ

abbrev market_date_cutoff : ℕ
market_date_cutoff = 18 * 3600

unfoldable pub default_candidate_date : LocalTime → Result DateError ℕ
unfolding minus_days
default_candidate_date now =
    if ltb now.seconds market_date_cutoff then minus_days now.date 1 else ok now.date

-- A date argument: the ordinal that `_parse_iso_date` reads, or none where it raises.
abbrev pub DateArgument : Type 0
DateArgument = Option ℕ

abbrev pub parse_iso_date : DateError → DateArgument → Result DateError ℕ
parse_iso_date e none = err e
parse_iso_date e (some d) = ok d

-- What the run finds outside the program. `now` is none where the configuration cannot be read
-- (ConfigError); `refreshed` is the stored calendar after the preflight refresh.
pub record Surroundings : Type 0 where
  pub today : ℕ
  pub now : Option LocalTime
  pub has_settings : Bool
  pub stored_calendar : Frame
  pub refreshed_calendar : Frame

unfoldable pub candidate_date : Surroundings → Option DateArgument → Result DateError ℕ
unfolding default_candidate_date
candidate_date env (some arg) = parse_iso_date invalid_as_of_date arg
candidate_date env none = elim env.now [
  | none ↦ ok env.today
  | some now ↦ default_candidate_date now
]

effective : ℕ → ℕ → ℕ → Bool → Result DateError DailyEffectiveDates
unfolding minus_days
effective natural candidate market overridden = minus_days market 30 >>= λ start. ok (record {
  natural_date = natural;
  candidate_date = candidate;
  market_date = market;
  hist_start = start;
  market_date_overridden = overridden;
})

abbrev lift_calendar : Result CalendarError ℕ → Result DateError ℕ
lift_calendar (ok d) = ok d
lift_calendar (err e) = err (calendar_error e)

-- The calendar that the second check reads: the stored one where it covers the date.
unfoldable pub calendar_in_use : Cells → Surroundings → ℕ → Frame
calendar_in_use cells env candidate =
    if calendar_covers_range cells env.stored_calendar candidate candidate
    then env.stored_calendar
    else env.refreshed_calendar

unfoldable pub resolve_market : Cells → Surroundings → ℕ → Result DateError ℕ
unfolding calendar_in_use
resolve_market cells env candidate =
    let calendar = calendar_in_use cells env candidate in
    if not (calendar_covers_range cells calendar candidate candidate)
    then err (calendar_does_not_cover candidate)
    else lift_calendar (latest_trading_day_on_or_before cells calendar candidate)

-- The part of `resolve_daily_effective_dates` after the candidate date.
resolve_from : Cells → Surroundings → ℕ → Option DateArgument → Result DateError DailyEffectiveDates
unfolding effective resolve_market
resolve_from cells env candidate (some arg) = parse_iso_date invalid_market_date arg >>= λ market.
    if ltb candidate market
    then err (market_after_candidate market candidate)
    else effective env.today candidate market true
resolve_from cells env candidate none =
    if not env.has_settings
    then effective env.today candidate candidate false
    else resolve_market cells env candidate >>= λ market. effective env.today candidate market false

unfoldable pub resolve_daily_effective_dates :
    Cells
    → Surroundings
    → Option DateArgument
    → Option DateArgument
    → Result DateError DailyEffectiveDates
unfolding candidate_date resolve_from
resolve_daily_effective_dates cells env as_of_date market_date =
    candidate_date env as_of_date >>= λ candidate. resolve_from cells env candidate market_date
