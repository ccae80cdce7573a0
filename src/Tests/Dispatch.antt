-- ===== src/Tests/Dispatch.antt =====
-- Tests of the main thread of the Baostock update: one code whose bars are to be fetched again.
use quant_data_center_cn.Prelude.{
  ℕ, ◌≤◌, ◌<◌, String, string_eq, nat_eq, some, List, [], ◌∷◌, Bool, true, false, ◌≡◌, refl, arith,
  All, length, get_elem?, In,
}
use quant_data_center_cn.Prelude.Dict.{lookup, remove, insert}
use quant_data_center_cn.Prelude.SortBy.{sort_by}
use quant_data_center_cn.Baostock.Dispatch.{
  ApiFetchRequest, BackgroundTaskResult, Task, factor_success, factor_failure, daily_initial,
  full_refetch, flush_metadata, Dispatcher, ran, World, Settings, new_dispatcher, run_codes,
  code_turns, code_turn, submit_factor, submit_daily, should_fetch_factor, reuse_factor,
  last_future, submit_background, drain_completed, drain_pending, collect_all, collect_completed,
  dispatch_all, dispatch_api_request, put_in_flight, flush_ordered_run_records, flush_rounds,
  without, is_pending,
}
use quant_data_center_cn.Baostock.Dispatch.Futures.{weight}
use quant_data_center_cn.Baostock.Dispatch.Drained.{Answers, Supported}
use quant_data_center_cn.Baostock.Dispatch.Log.{turns_of, factor_task}
use quant_data_center_cn.Baostock.Dispatch.Whole.{turns_for_all}
use quant_data_center_cn.Baostock.Dispatch.Complete.{code_turns_bounded}

abbrev again : ApiFetchRequest
again = record {
  kind = "daily_bar_full_refetch";
  code = "sh.600000";
  start_date = "1990-12-19";
  end_date = "2026-06-12";
  datasets = "bars" ∷ [];
  reason = "unadjusted_empty_lookback";
}

abbrev answer : Task → BackgroundTaskResult String
answer (factor_success code) = record { run_records = "factor" ∷ []; api_requests = [] }
answer (factor_failure code) = record { run_records = "no factor" ∷ []; api_requests = [] }
answer (daily_initial code factor works) = record { run_records = []; api_requests = again ∷ [] }
answer (full_refetch request works) = record { run_records = "bars" ∷ []; api_requests = [] }
answer flush_metadata = record { run_records = []; api_requests = [] }

abbrev world : World String
world = record {
  fetches = λ request. true;
  fetches_factors = λ code. false;
  fetches_bars = λ code. true;
  outcome = λ n task. answer task;
  reuses = λ code. true;
  is_done = λ block look pending n. true;
}

abbrev answers : Answers world
answers = record {
  few = λ n task. elim task as (λ t. length (answer t).api_requests < weight t) [
    | factor_success code ↦ omega arith
    | factor_failure code ↦ omega arith
    | daily_initial code factor works ↦ omega arith
    | full_refetch request works ↦ omega arith
    | flush_metadata ↦ omega arith
  ];
  supported = λ n task. elim task as (λ t. All Supported (answer t).api_requests) [
    | factor_success code ↦ tt
    | factor_failure code ↦ tt
    | daily_initial code factor works ↦ (refl, tt)
    | full_refetch request works ↦ tt
    | flush_metadata ↦ tt
  ];
  finishes = λ look f fs. refl;
  reads = λ code. refl;
}

abbrev settings : Settings
settings = record {
  include_factor = true;
  has_daily_targets = true;
  needs_factors = true;
  factor_is_current = λ code. false;
  max_pending = 1;
}

abbrev codes : List String
codes = "sh.600000" ∷ []

abbrev at_end : Dispatcher String
at_end = record {
  pending = [];
  completed_results = [];
  next_submit_sequence = 4;
  next_record_sequence = 4;
  run_records = "calendar" ∷ "no factor" ∷ "bars" ∷ [];
  looks = 4;
  reused = [];
}

whole_run : run_codes world settings 3 3 ("calendar" ∷ []) codes ≡ ran at_end
unfolding run_codes code_turns code_turn submit_factor submit_daily should_fetch_factor reuse_factor
    last_future submit_background drain_completed drain_pending collect_all collect_completed
    dispatch_all dispatch_api_request put_in_flight flush_ordered_run_records flush_rounds without
    is_pending new_dispatcher lookup remove insert sort_by string_eq nat_eq
whole_run = refl

code_turns_bounded_example :
    (d : Dispatcher String) × (log : List Task) × (code_turns world settings 3 codes
        (new_dispatcher ("calendar" ∷ []))
      ≡ ran d)
    × (turns_of log ≡ turns_for_all world settings codes)
    × (length d.pending ≤ 1)
    × ((m n : ℕ) (code : String) (works : Bool)
        → In (m, daily_initial code (some n) works) d.pending
        → (n < m) × (fetched : Bool) × (get_elem? log n ≡ some (factor_task code fetched)))
code_turns_bounded_example =
    code_turns_bounded world ("calendar" ∷ []) answers settings 3 (omega arith) (omega arith) codes
