-- ===== src/Tests/Adjusted.antt =====
-- A test of the adjustment: two bars of one code, before and behind the date of its only factor.
use quant_data_center_cn.Prelude.{ℕ, ◌+◌, none, some, List, [], ◌∷◌}
use quant_data_center_cn.Pipeline.Frames.{DailyRow}
use quant_data_center_cn.Baostock.Adjusted.{Bar, FactorRow}

abbrev bar : ℕ → Bar ℕ ℕ
bar price = record {
  open_price = price;
  high = price + 1;
  low = price;
  close = price;
  prev_close = price;
  adjust_flag = "3";
  others = 7;
}

abbrev bars : List (DailyRow (Bar ℕ ℕ))
bars =
    record { code = "sh.600000"; date = some 10; values = bar 5 }
    ∷ record { code = "sh.600000"; date = some 30; values = bar 6 }
    ∷ []

abbrev factor_rows : List (FactorRow ℕ)
factor_rows =
    record {
      code = some "sh.600000";
      dividend_operate_date = some 20;
      forward = some 3;
      backward = none;
    }
    ∷ []
