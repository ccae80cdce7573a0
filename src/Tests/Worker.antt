-- ===== src/Tests/Worker.antt =====
-- Tests of the background worker: a code with two plans, for bars as they are and adjusted ones.
use quant_data_center_cn.Prelude.{
  ℕ, ◌+◌, ◌*◌, ◌≡◌, ◌⊎◌, ◌++◌, refl, arith, String, string_eq, Option, none, some, List, [], ◌∷◌,
  Bool, true, false, All,
}
use quant_data_center_cn.Prelude.SortBy.{sort_by}
use quant_data_center_cn.Pipeline.Rows.{RunRow}
use quant_data_center_cn.Pipeline.Frames.{DailyRow}
use quant_data_center_cn.Baostock.Dispatch.{
  ApiFetchRequest, Task, Dispatcher, World, Settings, ran, run_codes,
}
use quant_data_center_cn.Baostock.Dispatch.Log.{
  flush, turns_of, refetches, records_from, requests_from,
}
use quant_data_center_cn.Baostock.Dispatch.Whole.{turns_for_all}
use quant_data_center_cn.Baostock.Adjusted.{Bar, Factor}
use quant_data_center_cn.Baostock.Worker.{Plan, Desk, Tools, daily_plans_for_code}
use quant_data_center_cn.Baostock.Worker.Daily.{process_daily_initial, process_daily_full_refetch}
use quant_data_center_cn.Baostock.Worker.Factors.{Payload}
use quant_data_center_cn.Baostock.Worker.Records.{count_records, count_plans}
use quant_data_center_cn.Baostock.Worker.Settled.{initial_then_refetch}
use quant_data_center_cn.Baostock.Worker.Failures.{IsFailed, fetch_error_writes_nothing}
use quant_data_center_cn.Baostock.Worker.Answers.{with_worker, run_with_worker}

abbrev tools : Tools ℕ ℕ
tools = record {
  full_mode = false;
  start_date = "2026-06-11";
  end_date = "2026-06-12";
  start_day = 11;
  end_day = 12;
  retain_factor_state = true;
  works = λ n. true;
  moment = λ n. record {
    task_id = "t";
    started_at = n;
    ended_at = n;
    status_time = n;
    checkpoint_time = n;
  };
  traceback = λ n. "Traceback";
  output_path = λ dataset code. dataset;
  prepared = λ rows. rows;
  factors_equal = λ old new. true;
  adjust_flag_for_dataset = λ dataset. "2";
  sort_factors = sort_by (λ (f : Factor ℕ). f.date);
  times = λ p q. p * q;
  one = 1;
  sort_rows = λ rows. rows;
  same_values = λ a b. true;
}

abbrev desk : Desk ℕ ℕ
desk = record {
  factors = [];
  bars = [];
  added = [];
  enqueued = [];
  factor_state = [];
  daily_plans_by_code = [];
  calls = 0;
}

abbrev plan : String → Plan
plan dataset = record {
  dataset = dataset;
  code = "sh.600000";
  checkpoint_start_date = "2026-06-11";
  end_date = "2026-06-12";
  output_path = dataset;
  start_time = 5;
}

abbrev plans : List Plan
plans = plan "baostock_cn_stock_daily_bar_unadjusted" ∷ plan "baostock_cn_stock_daily_bar_qfq" ∷ []

initial_then_refetch_example :
    let done = process_daily_initial tools "sh.600000" plans (some "2026-06-11") [] none desk in
    ((done.0.api_requests ≡ [])
      × ((p : String → Bool) → count_records p done.0.run_records ≡ count_plans p plans))
    ⊎ ((request : ApiFetchRequest) × (done.0.api_requests ≡ request ∷ [])
        × (request.kind ≡ "daily_bar_full_refetch")
        × (request.code ≡ "sh.600000")
        × (daily_plans_for_code tools "sh.600000" done.1 ≡ plans)
        × ((fresh : List (DailyRow (Bar ℕ ℕ))) (failed : Option String) (e : Desk ℕ ℕ)
            → daily_plans_for_code tools "sh.600000" e ≡ plans
            → let again = process_daily_full_refetch tools request fresh failed e in
              (again.0.api_requests ≡ [])
              × ((p : String → Bool)
                  → count_records p done.0.run_records + count_records p again.0.run_records
                    ≡ count_plans p plans)))
initial_then_refetch_example =
    initial_then_refetch tools "sh.600000" plans (some "2026-06-11") [] none desk

fetch_error_writes_nothing_example :
    let done =
      process_daily_initial tools "sh.600000" plans
        (some "2026-06-11")
        []
        (some "Traceback")
        desk in
    All IsFailed done.0.run_records
    × ((p : String → Bool) → count_records p done.0.run_records ≡ count_plans p plans)
    × (done.0.api_requests ≡ [])
    × (done.1.bars ≡ [])
fetch_error_writes_nothing_example =
    fetch_error_writes_nothing tools "sh.600000" plans "2026-06-11" [] "Traceback" desk

abbrev payload : Payload ℕ ℕ
payload = record {
  factors = [];
  plans = plans;
  initial_start_date = "2026-06-11";
  rows = [];
  started_at = 5;
  path = "factors";
  stack = "Traceback";
}

abbrev world : World RunRow
world = record {
  fetches = λ request. true;
  fetches_factors = λ code. true;
  fetches_bars = λ code. true;
  outcome = λ n task. record { run_records = []; api_requests = [] };
  reuses = λ code. true;
  is_done = λ block look pending n. block;
}

abbrev settings : Settings
settings = record {
  include_factor = true;
  has_daily_targets = true;
  needs_factors = true;
  factor_is_current = λ code. false;
  max_pending = 2;
}

run_with_worker_example :
    let running = with_worker tools (λ n. payload) (λ n. desk) world in
    (log : List Task) × (d : Dispatcher RunRow) × (run_codes running settings 5 5 []
        ("sh.600000" ∷ [])
      ≡ ran d)
    × (d.pending ≡ [])
    × (turns_of log ≡ turns_for_all running settings ("sh.600000" ∷ []) ++ flush ∷ [])
    × ((p : ApiFetchRequest → Bool) → refetches p log ≡ requests_from running p 0 log)
    × (d.run_records ≡ [] ++ records_from running 0 log)
run_with_worker_example =
    run_with_worker tools (λ n. payload) (λ n. desk) world [] settings 5 (λ look f fs. refl)
      (λ code. refl) (omega arith) (omega arith) ("sh.600000" ∷ [])
