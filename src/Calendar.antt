-- ===== src/Calendar.antt =====
-- The trading calendar of src/pipeline/common.py. A frame is its rows. What pandas makes of a cell
-- (`to_datetime` with `errors="coerce"`, and `astype("string").str.strip().str.lower()`) is a
-- parameter, the record `Cells`: pandas is not part of the repository. Dates are ordinals, so
-- that the order of ISO texts, which the source compares, is the order of numbers.
pub mod Keys
pub mod Latest
pub mod Lookback
use quant_data_center_cn.Prelude.{
  ℕ, zero, suc, ◌-◌, String, Option, none, some, List, [], ◌∷◌, map, Bool, true, false, ◌&&◌,
  Result, ok, err, ◌>>=◌, ◌>>◌, if◌then◌else◌, leb, ltb, eqb, contains, string_eq, select, length,
  get_elem?, ℤ, pos, negsuc,
}
use quant_data_center_cn.Prelude.Sort.{sort_values, drop_duplicates, first?, last?}

pub record CalendarRow : Type 0 where
  pub calendar_date : String
  pub is_trading_day : Option String

pub record Frame : Type 0 where
  pub has_calendar_date : Bool
  pub rows : List CalendarRow

-- `to_date` is none for NaT.
pub record Cells : Type 0 where
  pub to_date : String → Option ℕ
  pub normalized : String → String

-- A row of the frame `work`: `_calendar_date` and `_is_trading_day`.
pub record Day : Type 0 where
  pub date : ℕ
  pub trading : Bool

pub data CalendarError : Type 0 where
  no_rows negative_lookback no_rows_for_lookback index_error : CalendarError
  none_on_or_before none_on_or_after no_days : ℕ → CalendarError
  none_between : ℕ → ℕ → CalendarError

abbrev pub truthy_texts : List String
truthy_texts = "1" ∷ "true" ∷ "t" ∷ "yes" ∷ []

is_true_cell : Cells → Option String → Bool
is_true_cell cells none = false
is_true_cell cells (some text) = contains truthy_texts (cells.normalized text)

keyed_row : Cells → CalendarRow → List Day → List Day
unfolding is_true_cell
keyed_row cells r rest = elim (cells.to_date r.calendar_date) [
  | none ↦ rest
  | some d ↦ record { date = d; trading = is_true_cell cells r.is_trading_day } ∷ rest
]

keyed_rows : Cells → List CalendarRow → List Day
unfolding keyed_row
keyed_rows cells [] = []
keyed_rows cells (r ∷ rs) = keyed_row cells r (keyed_rows cells rs)

-- `_baostock_cn_trading_calendar_with_keys`
unfoldable pub calendar_with_keys : Cells → Frame → List Day
unfolding keyed_rows
calendar_with_keys cells df = if df.has_calendar_date then keyed_rows cells df.rows else []

abbrev pub dates : List Day → List ℕ
dates = map (λ d. d.date)

-- `matches.iloc[-1]`, over the flags of the matching rows
abbrev last_flag : List Day → Bool
last_flag [] = false
last_flag (d ∷ []) = d.trading
last_flag (d ∷ e ∷ ds) = last_flag (e ∷ ds)

unfoldable pub is_trading_day : Cells → Frame → ℕ → Bool
is_trading_day cells df target =
    last_flag (select (λ d. eqb d.date target) (calendar_with_keys cells df))

abbrev pub is_empty {ℓ} : {A : Type ℓ} → List A → Bool
is_empty [] = true
is_empty (x ∷ xs) = false

abbrev minimum : ℕ → List ℕ → ℕ
minimum m [] = m
minimum m (x ∷ xs) = minimum (if ltb x m then x else m) xs

abbrev maximum : ℕ → List ℕ → ℕ
maximum m [] = m
maximum m (x ∷ xs) = maximum (if ltb m x then x else m) xs

covers : List Day → ℕ → ℕ → Bool
covers [] start end = false
covers (d ∷ ds) start end =
    leb (minimum d.date (dates ds)) start && leb end (maximum d.date (dates ds))

-- `baostock_cn_trading_calendar_covers_range`
unfoldable pub calendar_covers_range : Cells → Frame → ℕ → ℕ → Bool
unfolding covers
calendar_covers_range cells df start end = covers (calendar_with_keys cells df) start end

abbrev pub days_until : List Day → ℕ → List ℕ
days_until work target = dates (select (λ d. leb d.date target && d.trading) work)

abbrev pub days_from : List Day → ℕ → List ℕ
days_from work target = dates (select (λ d. leb target d.date && d.trading) work)

-- An empty column raises the given error.
abbrev pub or_error : CalendarError → Option ℕ → Result CalendarError ℕ
or_error e none = err e
or_error e (some d) = ok d

unfoldable pub latest_trading_day_on_or_before : Cells → Frame → ℕ → Result CalendarError ℕ
latest_trading_day_on_or_before cells df target =
    let work = calendar_with_keys cells df in
    if is_empty work
    then err no_rows
    else or_error (none_on_or_before target) (last? (sort_values (days_until work target)))

unfoldable pub first_trading_day_on_or_after : Cells → Frame → ℕ → Result CalendarError ℕ
first_trading_day_on_or_after cells df target =
    let work = calendar_with_keys cells df in
    if is_empty work
    then err no_rows
    else or_error (none_on_or_after target) (first? (sort_values (days_from work target)))

-- `max(len(trading_days) - 1 - int(lookback_days), 0)`: the subtraction stops at 0.
lookback_from : List ℕ → ℕ → ℕ → Result CalendarError ℕ
lookback_from trading_days resolved_end lookback_days =
    if is_empty trading_days
    then err (no_days resolved_end)
    else or_error index_error (get_elem? trading_days (length trading_days - 1 - lookback_days))

unfoldable pub trading_day_lookback_start : Cells → Frame → ℕ → ℤ → Result CalendarError ℕ
unfolding lookback_from
trading_day_lookback_start cells df end_date (negsuc n) = err negative_lookback
trading_day_lookback_start cells df end_date (pos lookback_days) =
    let work = calendar_with_keys cells df in
    if is_empty work
    then err no_rows_for_lookback
    else latest_trading_day_on_or_before cells df end_date >>= λ resolved_end.
        lookback_from (sort_values (drop_duplicates (days_until work resolved_end))) resolved_end
          lookback_days

unfoldable pub trading_range_bounds : Cells → Frame → ℕ → ℕ → Result CalendarError (ℕ × ℕ)
trading_range_bounds cells df start_date end_date = do
  resolved_start ← first_trading_day_on_or_after cells df start_date
  resolved_end ← latest_trading_day_on_or_before cells df end_date
  if ltb resolved_end resolved_start
      then err (none_between start_date end_date)
      else ok (resolved_start, resolved_end)
