-- ===== src/Baostock/Adjusted.antt =====
-- src/sources/baostock/adjustments.py: adjusted daily bars from the unadjusted ones and the stock's
-- factors. A price is any type with a product; a cell that pandas reads as no date or no number is none.
-- The frames have every column of their schemas. `sort` is `sort_values("_factor_date")`.
pub mod Latest
pub mod Whole
use quant_data_center_cn.Prelude.{
  ℕ, String, string_eq, Option, none, some, List, [], ◌∷◌, Bool, true, false, if◌then◌else◌, ◌==◌,
  leb, map, or_else, select, not, ◌++◌,
}
use quant_data_center_cn.Pipeline.Frames.{DailyRow}

abbrev pub unadjusted_daily_dataset : String
unadjusted_daily_dataset = "baostock_cn_stock_daily_bar_unadjusted"

pub data FactorColumn : Type 0 where
  forward_adjust_factor backward_adjust_factor : FactorColumn

-- `ADJUSTED_DAILY_FACTOR_COLUMNS.get(dataset)`
unfoldable pub factor_column_of : String → Option FactorColumn
factor_column_of dataset =
    if dataset == "baostock_cn_stock_daily_bar_qfq"
    then some forward_adjust_factor
    else if dataset == "baostock_cn_stock_daily_bar_hfq"
    then some backward_adjust_factor
    else none

abbrev pub is_adjusted_daily_dataset : String → Bool
is_adjusted_daily_dataset dataset = elim (factor_column_of dataset) [
  | none ↦ false
  | some column ↦ true
]

-- The columns of a daily bar behind its code and date: the five prices, the flag, and the others.
pub record Bar (P X : Type 0) : Type 0 where
  pub open_price : P
  pub high : P
  pub low : P
  pub close : P
  pub prev_close : P
  pub adjust_flag : String
  pub others : X

pub record FactorRow (P : Type 0) : Type 0 where
  pub code : Option String
  pub dividend_operate_date : Option ℕ
  pub forward : Option P
  pub backward : Option P

-- A row of `_factor_values`: the code, the date, and the value of the column.
pub record Factor (P : Type 0) : Type 0 where
  pub code : String
  pub date : ℕ
  pub value : P

module _ {P : Type 0} where
  unfoldable pub cell_of : FactorColumn → FactorRow P → Option P
  cell_of forward_adjust_factor row = row.forward
  cell_of backward_adjust_factor row = row.backward

  -- `dropna` of a row's three cells.
  unfoldable pub factor_of : Option String → Option ℕ → Option P → List (Factor P)
  factor_of (some code) (some date) (some value) =
      record { code = code; date = date; value = value } ∷ []
  factor_of _ _ _ = []

  -- `_factor_values`
  unfoldable pub factor_values : FactorColumn → List (FactorRow P) → List (Factor P)
  factor_values column [] = []
  factor_values column (row ∷ rows) =
      factor_of row.code row.dividend_operate_date (cell_of column row) ++ factor_values column rows

  -- `merge_asof(direction="backward")` for one date, in factors that are in the order of their dates.
  unfoldable pub asof : ℕ → List (Factor P) → Option P
  asof day [] = none
  asof day (factor ∷ factors) =
      let later = asof day factors in
      if leb factor.date day then or_else later (some factor.value) else none

  abbrev pub filled : P → Option P → P
  filled one none = one
  filled one (some value) = value

  unfoldable pub match_date : P → List (Factor P) → Option ℕ → P → P
  match_date one factors none old = old
  match_date one factors (some day) old = filled one (asof day factors)

  unfoldable pub of_code : String → List (Factor P) → List (Factor P)
  of_code code = select (λ (factor : Factor P). factor.code == code)

-- A row with its `_adj_factor`.
abbrev pub Work : Type 0 → Type 0 → Type 0
Work P X = DailyRow (Bar P X) × P

module _ {P X : Type 0} where
  -- The assignment to the rows of one code that have a date.
  unfoldable pub assign_group : P → List (Factor P) → String → List (Work P X) → List (Work P X)
  assign_group one factors code [] = []
  assign_group one factors code ((row, old) ∷ work) =
      (row, if row.code == code then match_date one factors row.date old else old)
      ∷ assign_group one factors code work

  -- A turn of the loop over the groups: a code with no factors is passed over.
  unfoldable pub group_turn :
      (List (Factor P) → List (Factor P))
      → P
      → List (Factor P)
      → String
      → List (Work P X)
      → List (Work P X)
  group_turn sort one factors code work = elim (of_code code factors) [
    | [] ↦ work
    | first ∷ rest ↦ assign_group one (sort (first ∷ rest)) code work
  ]

  unfoldable pub group_turns :
      (List (Factor P) → List (Factor P))
      → P
      → List (Factor P)
      → List String
      → List (Work P X)
      → List (Work P X)
  group_turns sort one factors [] work = work
  group_turns sort one factors (code ∷ codes) work =
      group_turns sort one factors codes (group_turn sort one factors code work)

  unfoldable pub scaled : (P → P → P) → Work P X → DailyRow (Bar P X)
  scaled times (row, factor) = record row {
    values = record row.values {
      open_price = times row.values.open_price factor;
      high = times row.values.high factor;
      low = times row.values.low factor;
      close = times row.values.close factor;
      prev_close = times row.values.prev_close factor;
    };
  }

  unfoldable pub flagged : String → DailyRow (Bar P X) → DailyRow (Bar P X)
  flagged flag row = record row { values = record row.values { adjust_flag = flag } }

  -- The codes of the groups, each once.
  unfoldable pub group_codes : List (DailyRow (Bar P X)) → List String
  group_codes [] = []
  group_codes (row ∷ rows) = row.code ∷ select (λ code. not (code == row.code)) (group_codes rows)

  -- `calculate_adjusted_daily_bar`: none is the ValueError of a data set that is not adjusted.
  unfoldable pub calculate_adjusted_daily_bar :
      (List (Factor P) → List (Factor P))
      → (P → P → P)
      → P
      → List (DailyRow (Bar P X))
      → List (FactorRow P)
      → String
      → String
      → Option (List (DailyRow (Bar P X)))
  calculate_adjusted_daily_bar sort times one unadjusted factors dataset flag =
      elim (factor_column_of dataset) [
        | none ↦ none
        | some column ↦
            let result = map (flagged flag) unadjusted in
            some (
              map (scaled times) (
                group_turns sort one (factor_values column factors) (group_codes result)
                  (map (λ row. (row, one)) result)))
      ]
