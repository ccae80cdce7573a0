-- ===== src/Baostock/Worker/Daily.antt =====
-- src/sources/baostock/update_daily_worker.py: what the worker does with the daily bars of a code. The log lines
-- before a refetch and a write are left out.
use quant_data_center_cn.Prelude.{
  String, string_eq, Option, none, some, List, [], ◌∷◌, ◌++◌, Bool, not, if◌then◌else◌, ◌==◌,
  length, any, select, contains,
}
use quant_data_center_cn.Pipeline.Rows.{RunRow, success_rows, failure_rows}
use quant_data_center_cn.Pipeline.Frames.{
  DailyRow, merge_daily_frames, daily_frames_differ_on_overlap, is_inside,
}
use quant_data_center_cn.Baostock.Targets.{full_history_start_date}
use quant_data_center_cn.Baostock.Dispatch.{ApiFetchRequest, BackgroundTaskResult}
use quant_data_center_cn.Baostock.Adjusted.{
  Bar, FactorRow, unadjusted_daily_dataset, is_adjusted_daily_dataset, calculate_adjusted_daily_bar,
}
use quant_data_center_cn.Baostock.Worker.{
  Plan, Desk, Tools, Try, gives, raises, Step, ◌>>=◌, ◌>>◌, pure, after, or_raise, surely, task_ref,
  datasets_of, is_empty, add_rows, read_bars, write_bars, factor_state_for_code, set_daily_plans,
  daily_plans_for_code, release_code_state,
}

-- `_partial_unadjusted_base`: the history to write from, or the reason for a refetch.
pub data Base (R : Type 0) : Type 0 where
  history : R → Base R
  refetch : String → Base R

module _ {P X : Type 0} (t : Tools P X) where
  abbrev Frame : Type 0
  Frame = List (DailyRow (Bar P X))

  abbrev Result : Type 0
  Result = BackgroundTaskResult RunRow

  -- `_write_daily_success`
  unfoldable pub write_daily_success : Plan → String → List (DailyRow (Bar P X)) → Step P X RunRow
  write_daily_success plan run_start_date rows = do
    write_bars t plan.dataset plan.code rows
    λ d.
        let path = t.output_path plan.dataset plan.code in
        let made =
          success_rows
            (task_ref plan.dataset plan.code run_start_date plan.end_date path
              (some plan.checkpoint_start_date))
            (record (t.moment d.calls) { started_at = plan.start_time }) (length rows) none none in
        (add_rows t made >> pure made.run_row) d

  -- `_write_daily_failure`: rows that the batch refuses are lost, and the record stays.
  unfoldable pub write_daily_failure : Plan → String → Desk P X → RunRow × Desk P X
  write_daily_failure plan error_stack d =
      let made =
        failure_rows
          (task_ref plan.dataset plan.code plan.checkpoint_start_date plan.end_date plan.output_path
            none)
          (record (t.moment d.calls) { started_at = plan.start_time }) error_stack none in
      (made.run_row, after (add_rows t made d))

  -- `_write_daily_failures`
  unfoldable pub write_daily_failures : List Plan → String → Desk P X → List RunRow × Desk P X
  write_daily_failures [] error_stack d = ([], d)
  write_daily_failures (plan ∷ plans) error_stack d =
      let (row, e) = write_daily_failure plan error_stack d in
      let (rows, f) = write_daily_failures plans error_stack e in (row ∷ rows, f)

  -- `_daily_frame_from_unadjusted`: none is a ValueError.
  unfoldable pub daily_frame_from_unadjusted :
      String → List (DailyRow (Bar P X)) → List (FactorRow P) → Option (List (DailyRow (Bar P X)))
  daily_frame_from_unadjusted dataset unadjusted factors =
      if dataset == unadjusted_daily_dataset
      then some unadjusted
      else if is_adjusted_daily_dataset dataset
      then calculate_adjusted_daily_bar t.sort_factors t.times t.one unadjusted factors dataset
          (t.adjust_flag_for_dataset dataset)
      else none

  -- A turn of the loop in `_write_daily_frames` behind its `try`, and of the last loop of
  -- `_process_daily_initial`.
  unfoldable pub write_from_unadjusted :
      Plan → String → List (DailyRow (Bar P X)) → List (FactorRow P) → Step P X RunRow
  write_from_unadjusted plan run_start_date unadjusted factors =
      or_raise (daily_frame_from_unadjusted plan.dataset unadjusted factors)
      >>= write_daily_success plan run_start_date

  unfoldable pub write_or_fail :
      Plan → String → List (DailyRow (Bar P X)) → List (FactorRow P) → Desk P X → RunRow × Desk P X
  write_or_fail plan run_start_date unadjusted factors d =
      elim (write_from_unadjusted plan run_start_date unadjusted factors d) [
        | gives row e ↦ (row, e)
        | raises e ↦ write_daily_failure plan (t.traceback e.calls) e
      ]

  unfoldable pub write_each :
      List Plan
      → String
      → List (DailyRow (Bar P X))
      → List (FactorRow P)
      → Desk P X
      → List RunRow × Desk P X
  write_each [] run_start_date unadjusted factors d = ([], d)
  write_each (plan ∷ plans) run_start_date unadjusted factors d =
      let (row, e) = write_or_fail plan run_start_date unadjusted factors d in
      let (rows, f) = write_each plans run_start_date unadjusted factors e in (row ∷ rows, f)

  abbrev pub code_of_first : List Plan → String
  code_of_first [] = ""
  code_of_first (plan ∷ plans) = plan.code

  -- `_write_daily_frames`
  unfoldable pub write_daily_frames :
      List Plan → List (DailyRow (Bar P X)) → String → Desk P X → List RunRow × Desk P X
  write_daily_frames plans unadjusted run_start_date d =
      write_each plans run_start_date unadjusted
        (factor_state_for_code t (code_of_first plans) d).frame d

  -- The last loop of `_process_daily_initial`.
  unfoldable pub write_all :
      List Plan → List (DailyRow (Bar P X)) → List (FactorRow P) → Step P X (List RunRow)
  write_all [] unadjusted factors = pure []
  write_all (plan ∷ plans) unadjusted factors =
      let rest = write_all plans unadjusted factors in
      let run_start_date =
        if is_adjusted_daily_dataset plan.dataset
        then full_history_start_date
        else plan.checkpoint_start_date in
      write_from_unadjusted plan run_start_date unadjusted factors >>= λ row.
      rest >>= λ rows. pure (row ∷ rows)

  unfoldable pub has_data_in_range : List (DailyRow (Bar P X)) → Bool
  has_data_in_range = any (λ row. is_inside t.start_day t.end_day row.date)

  -- `_partial_unadjusted_base`
  unfoldable pub partial_unadjusted_base :
      String → List (DailyRow (Bar P X)) → Step P X (Base (List (DailyRow (Bar P X))))
  partial_unadjusted_base code fresh = read_bars t code >>= λ existing.
      if not (has_data_in_range existing)
      then pure (refetch "unadjusted_empty_lookback")
      else if daily_frames_differ_on_overlap t.same_values existing fresh t.start_day t.end_day
      then pure (refetch "unadjusted_lookback_mismatch")
      else pure (history (merge_daily_frames t.sort_rows existing fresh))

  -- The first loop: plans that need factors which could not be had fail, and the others are active.
  unfoldable pub sift : Option String → List Plan → Desk P X → (List RunRow × List Plan) × Desk P X
  sift none plans d = (([], plans), d)
  sift (some error_stack) [] d = (([], []), d)
  sift (some error_stack) (plan ∷ plans) d =
      if is_adjusted_daily_dataset plan.dataset
      then (let (row, e) = write_daily_failure plan error_stack d in
          let ((rows, active), f) = sift (some error_stack) plans e in ((row ∷ rows, active), f))
      else (let ((rows, active), f) = sift (some error_stack) plans d in ((rows, plan ∷ active), f))

  unfoldable pub refetch_request : String → List Plan → String → ApiFetchRequest
  refetch_request code plans reason = record {
    kind = "daily_bar_full_refetch";
    code = code;
    start_date = full_history_start_date;
    end_date = t.end_date;
    datasets = datasets_of plans;
    reason = reason;
  }

  abbrev pub with_records : List RunRow → List RunRow → BackgroundTaskResult RunRow
  with_records rows more = record { run_records = rows ++ more; api_requests = [] }

  abbrev pub with_request : List RunRow → ApiFetchRequest → BackgroundTaskResult RunRow
  with_request rows request = record { run_records = rows; api_requests = request ∷ [] }

  unfoldable pub full_mode_result :
      String
      → List RunRow
      → List Plan
      → Option String
      → List (DailyRow (Bar P X))
      → Option String
      → Step P X (BackgroundTaskResult RunRow)
  full_mode_result code rows active none unadjusted api_error = pure (
      with_request rows (refetch_request code active "baostock_cn_stock_adjustment_factor_changed"))
  full_mode_result code rows active (some fetch_start_date) unadjusted (some error_stack) =
      surely (write_daily_failures active error_stack) >>= λ more. pure (with_records rows more)
  full_mode_result code rows active (some fetch_start_date) unadjusted none =
      surely (write_daily_frames active unadjusted full_history_start_date) >>= λ more.
      pure (with_records rows more)

  unfoldable pub from_base :
      String
      → List RunRow
      → List Plan
      → List (FactorRow P)
      → Base (List (DailyRow (Bar P X)))
      → Step P X (BackgroundTaskResult RunRow)
  from_base code rows active factors (refetch reason) =
      pure (with_request rows (refetch_request code active reason))
  from_base code rows active factors (history base) =
      write_all active base factors >>= λ more. pure (with_records rows more)

  unfoldable pub partial_mode_result :
      String
      → List RunRow
      → List Plan
      → List (FactorRow P)
      → List (DailyRow (Bar P X))
      → Option String
      → Step P X (BackgroundTaskResult RunRow)
  partial_mode_result code rows active factors unadjusted (some error_stack) =
      surely (write_daily_failures active error_stack) >>= λ more. pure (with_records rows more)
  partial_mode_result code rows active factors unadjusted none =
      partial_unadjusted_base code unadjusted >>= from_base code rows active factors

  -- `_process_daily_initial`
  unfoldable pub process_initial :
      String
      → List Plan
      → Option String
      → List (DailyRow (Bar P X))
      → Option String
      → Step P X (BackgroundTaskResult RunRow)
  process_initial code plans fetch_start_date unadjusted api_error d =
      let state = factor_state_for_code t code d in
      let ((rows, active), e) = sift state.error_stack plans d in
      if is_empty active
      then gives (with_records rows []) e
      else if t.full_mode
      then full_mode_result code rows active fetch_start_date unadjusted api_error e
      else partial_mode_result code rows active state.frame unadjusted api_error e

  -- An exception turns into a failure of every plan.
  abbrev pub recovered :
      List Plan → Try P X (BackgroundTaskResult RunRow) → BackgroundTaskResult RunRow × Desk P X
  recovered plans (gives result e) = (result, e)
  recovered plans (raises e) =
      let (rows, f) = write_daily_failures plans (t.traceback e.calls) e in
      (with_records [] rows, f)

  abbrev pub release_settled :
      String → BackgroundTaskResult RunRow × Desk P X → BackgroundTaskResult RunRow × Desk P X
  release_settled code (result, e) =
      (result, if is_empty result.api_requests then release_code_state t code e else e)

  -- `process_daily_initial`
  unfoldable pub process_daily_initial :
      String
      → List Plan
      → Option String
      → List (DailyRow (Bar P X))
      → Option String
      → Desk P X
      → BackgroundTaskResult RunRow × Desk P X
  process_daily_initial code plans fetch_start_date unadjusted api_error d = release_settled code (
      recovered plans (
        process_initial code plans fetch_start_date unadjusted api_error
          (set_daily_plans t code plans d)))

  -- `process_daily_full_refetch`: no step under its `try` raises.
  unfoldable pub process_daily_full_refetch :
      ApiFetchRequest
      → List (DailyRow (Bar P X))
      → Option String
      → Desk P X
      → BackgroundTaskResult RunRow × Desk P X
  process_daily_full_refetch request unadjusted api_error d =
      let plans =
        select (λ plan. contains request.datasets plan.dataset)
          (daily_plans_for_code t request.code d) in
      let (rows, e) : List RunRow × Desk P X = elim api_error [
        | some error_stack ↦ write_daily_failures plans error_stack d
        | none ↦ write_daily_frames plans unadjusted full_history_start_date d
      ] in
      (with_records [] rows, release_code_state t request.code e)
