-- ===== src/Calendar/Lookback.antt =====
-- The start of a look-back window of trading days, and the trading bounds of a range of dates.
use Prim.Native.Nat.{min}
use quant_data_center_cn.Prelude.{
  ℕ, suc, ◌-◌, ◌≤◌, ◌<◌, ◌≡◌, refl, ◌↔◌, List, [], ◌∷◌, false, Result, ok, err, >>=-eq-ok, arith,
  In, All-In, All-intro, ltb, leb, length, select, pos, if◌then◌else◌, ap, subst,
}
use quant_data_center_cn.Prelude.Sort.{
  IsStrict, sort_values, drop_duplicates, sort_values-IsSorted, In-sort_values, All-sort_values,
  All-drop_duplicates, In-drop_duplicates, IsStrict-of_Distinct, sort_values-Distinct,
  drop_duplicates-Distinct, length-select_from, get_elem?-In, get_elem?_total,
}
use quant_data_center_cn.Calendar.{
  Cells, Frame, Day, CalendarError, days_until, or_error, index_error, is_empty, lookback_from,
  calendar_with_keys, latest_trading_day_on_or_before, first_trading_day_on_or_after,
  trading_range_bounds, trading_day_lookback_start, none_between,
}
use quant_data_center_cn.Calendar.Keys.{Listed, days_until_sound, days_until_complete}
use quant_data_center_cn.Calendar.Latest.{
  IsLatest, IsFirst, IsLatest-iff, IsFirst-iff, Listed-nonempty,
}

-- The distinct trading days up to a date, in ascending order.
abbrev pub trading_days : List Day → ℕ → List ℕ
trading_days work e = sort_values (drop_duplicates (days_until work e))

In-nonempty : (d : ℕ) (xs : List ℕ) → In d xs → 0 < length xs
In-nonempty d [] i = elim i [ ]
In-nonempty d (x ∷ xs) i = omega arith

is_empty_of_pos : (xs : List ℕ) → 0 < length xs → is_empty xs ≡ false
is_empty_of_pos [] h = absurd (omega arith)
is_empty_of_pos (x ∷ xs) h = refl

module _ (work : List Day) (e n : ℕ) (listed : Listed work e) where
  trading_days_sound : (d : ℕ) → In d (trading_days work e) → Listed work d × (d ≤ e)
  trading_days_sound d i =
      All-In (λ x. Listed work x × (x ≤ e)) i
        (All-sort_values _ _
          (All-drop_duplicates _ _ (All-intro (days_until work e) (days_until_sound work e))))

  trading_days-IsStrict : IsStrict (trading_days work e)
  trading_days-IsStrict =
      IsStrict-of_Distinct _ (sort_values-IsSorted (drop_duplicates (days_until work e)))
        (sort_values-Distinct _ (drop_duplicates-Distinct (days_until work e)))

  trading_days-pos : 0 < length (trading_days work e)
  trading_days-pos = In-nonempty e _ (
      In-sort_values e _
        (In-drop_duplicates e _ (days_until_complete work e e listed (omega arith))))

  lookback_from_lem :
      (d : ℕ) × (lookback_from (trading_days work e) e n ≡ ok d)
      × Listed work d
      × (d ≤ e)
      × (length (select (λ x. leb d x) (trading_days work e))
          ≡ min (suc n) (length (trading_days work e)))
  unfolding lookback_from
  lookback_from_lem =
      let p = trading_days-pos in
      let (d, at) =
        get_elem?_total (trading_days work e) (length (trading_days work e) - 1 - n)
          (omega arith) in
      let (l, le) = trading_days_sound d (get_elem?-In _ _ d at) in
      (
        d,
        rw (is_empty_of_pos _ p) (ap (or_error index_error) at),
        l,
        le,
        omega (arith, length-select_from _ _ d trading_days-IsStrict at),
      )

module _ (cells : Cells) (df : Frame) (end_date e n : ℕ) where
  -- When the calendar has a latest trading day e on or before the end date, the look-back of n
  -- trading days returns a flagged day d up to e, and the distinct trading days from d to e are
  -- n + 1 of them, or all there are up to e where there are fewer.
  pub lookback-count :
      latest_trading_day_on_or_before cells df end_date ≡ ok e
      → (d : ℕ) × (trading_day_lookback_start cells df end_date (pos n) ≡ ok d)
        × Listed (calendar_with_keys cells df) d
        × (d ≤ e)
        × (length (select (λ x. leb d x) (trading_days (calendar_with_keys cells df) e))
            ≡ min (suc n) (length (trading_days (calendar_with_keys cells df) e)))
  unfolding trading_day_lookback_start
  lookback-count h =
      let listed = ((IsLatest-iff cells df end_date e).0 h).0 in
      let (d, at, l, le, c) = lookback_from_lem (calendar_with_keys cells df) e n listed in
      (d, rw (Listed-nonempty _ e listed, h) at, l, le, c)

ordered :
    (s t x y a b : ℕ)
    → if◌then◌else◌ {A = Result CalendarError (ℕ × ℕ)}
        (ltb y x)
        (err (none_between s t))
        (ok (x, y))
      ≡ ok (a, b)
    → (x ≡ a) × (y ≡ b) × (a ≤ b)
ordered s t x y a b h = ground arith

module _ (cells : Cells) (df : Frame) (s t a b : ℕ) where
  -- The bounds of a range are exactly its first trading day on or after the start and its latest on
  -- or before the end, and they are returned only where the first is not after the latest.
  pub trading_range_bounds_iff : (trading_range_bounds cells df s t ≡ ok (a, b)) ↔ (
      IsFirst (calendar_with_keys cells df) s a
      × IsLatest (calendar_with_keys cells df) t b
      × (a ≤ b))
  unfolding trading_range_bounds
  trading_range_bounds_iff = (
    λ h.
        let (x, fx, k) = >>=-eq-ok (first_trading_day_on_or_after cells df s) _ h in
        let (y, ly, c) = >>=-eq-ok (latest_trading_day_on_or_before cells df t) _ k in
        let (p, q, le) = ordered s t x y a b c in
        (
          subst (IsFirst (calendar_with_keys cells df) s) p ((IsFirst-iff cells df s x).0 fx),
          subst (IsLatest (calendar_with_keys cells df) t) q ((IsLatest-iff cells df t y).0 ly),
          le,
        ),
    λ (f, l, le).
        rw ((IsFirst-iff cells df s a).1 f, (IsLatest-iff cells df t b).1 l) (ground arith),
  )
