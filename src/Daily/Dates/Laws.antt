-- ===== src/Daily/Dates/Laws.antt =====
-- The effective dates are in order, and the schedule policies mean what the workflow says.
use quant_data_center_cn.Prelude.{
  ℕ, ◌+◌, ◌≤◌, ◌≡◌, Option, none, some, true, false, ok, >>=-eq-ok, arith, Bool, Bool-cases, inl,
  inr, ltb,
}
use quant_data_center_cn.Calendar.{Cells, calendar_with_keys, latest_trading_day_on_or_before}
use quant_data_center_cn.Calendar.Latest.{IsLatest, IsLatest-iff}
use quant_data_center_cn.Daily.Types.{DailyEffectiveDates}
use quant_data_center_cn.Daily.Dates.{
  DateArgument, Surroundings, effective, candidate_date, resolve_from, resolve_market,
  calendar_in_use, resolve_daily_effective_dates,
}

-- The fields of the dates that `effective` builds.
record Built (n c m : ℕ) (o : Bool) (dates : DailyEffectiveDates) : Type 0 where
  natural : dates.natural_date ≡ n
  candidate : dates.candidate_date ≡ c
  market : dates.market_date ≡ m
  start : dates.hist_start + 30 ≡ m
  overridden : dates.market_date_overridden ≡ o

effective-Built :
    (n c m : ℕ) (o : Bool) (dates : DailyEffectiveDates)
    → effective n c m o ≡ ok dates
    → Built n c m o dates
unfolding effective
effective-Built n c m o dates h = ground arith

module _ (cells : Cells) (env : Surroundings) (candidate : ℕ) where
  resolve_market_sound :
      (m : ℕ)
      → resolve_market cells env candidate ≡ ok m
      → latest_trading_day_on_or_before cells (calendar_in_use cells env candidate) candidate ≡ ok m
  unfolding resolve_market
  resolve_market_sound m h = ground arith

  resolve_market-IsLatest :
      (m : ℕ)
      → resolve_market cells env candidate ≡ ok m
      → IsLatest (calendar_with_keys cells (calendar_in_use cells env candidate)) candidate m
  resolve_market-IsLatest m h =
      (IsLatest-iff cells (calendar_in_use cells env candidate) candidate m).0
        (resolve_market_sound m h)

  abbrev Ordered : DailyEffectiveDates → Type 0
  Ordered dates =
      (dates.natural_date ≡ env.today)
      × (dates.candidate_date ≡ candidate)
      × (dates.market_date ≤ dates.candidate_date)
      × (dates.hist_start + 30 ≡ dates.market_date)

  Built-Ordered :
      (m : ℕ) (o : Bool) (dates : DailyEffectiveDates)
      → m ≤ candidate
      → Built env.today candidate m o dates
      → Ordered dates
  Built-Ordered m o dates le b = ground arith

  resolve_from-Ordered :
      (arg : Option DateArgument) (dates : DailyEffectiveDates)
      → resolve_from cells env candidate arg ≡ ok dates
      → Ordered dates
  unfolding resolve_from
  resolve_from-Ordered (some none) dates h = cc
  resolve_from-Ordered (some (some m)) dates h = elim (Bool-cases (ltb candidate m)) [
    | inl e ↦ cc (rw e at h)
    | inr e ↦
        Built-Ordered m true dates (ground arith) (effective-Built _ _ m true dates (rw e at h))
  ]
  resolve_from-Ordered none dates h = elim (Bool-cases env.has_settings) [
    | inl e ↦
        let r = >>=-eq-ok (resolve_market cells env candidate) _ (rw e at h) in
        Built-Ordered r.0 false dates (resolve_market-IsLatest r.0 r.1).1
          (effective-Built _ _ r.0 false dates r.2)
    | inr e ↦
        Built-Ordered candidate false dates (omega arith)
          (effective-Built _ _ candidate false dates (rw e at h))
  ]

module _ (cells : Cells) (env : Surroundings) (as_of market : Option DateArgument)
    (dates : DailyEffectiveDates) where
  -- Whenever the effective dates are resolved, the natural date is today's, the market date is on
  -- or before the candidate date, and the history starts thirty days before the market date.
  pub resolve_dates_ordered :
      resolve_daily_effective_dates cells env as_of market ≡ ok dates
      → (dates.natural_date ≡ env.today)
        × (dates.market_date ≤ dates.candidate_date)
        × (dates.hist_start + 30 ≡ dates.market_date)
  unfolding resolve_daily_effective_dates
  resolve_dates_ordered h =
      let r = >>=-eq-ok (candidate_date env as_of) _ h in
      let (n, c, le, s) = resolve_from-Ordered cells env r.0 market dates r.2 in (n, le, s)

  -- With the settings present and no override, the market date is the latest trading day on or
  -- before the candidate date in the calendar that the preflight leaves.
  pub resolve_dates-IsLatest :
      resolve_daily_effective_dates cells env as_of none ≡ ok dates
      → env.has_settings ≡ true
      → IsLatest
          (calendar_with_keys cells (calendar_in_use cells env dates.candidate_date))
          dates.candidate_date
          dates.market_date
  unfolding resolve_daily_effective_dates resolve_from
  resolve_dates-IsLatest h e =
      let r = >>=-eq-ok (candidate_date env as_of) _ h in
      let q = >>=-eq-ok (resolve_market cells env r.0) _ (rw e at r.2) in
      let b = effective-Built env.today r.0 q.0 false dates q.2 in
      rw (b.candidate, b.market) (resolve_market-IsLatest cells env r.0 q.0 q.1)
