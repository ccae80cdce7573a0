-- ===== src/Baostock/Worker/Factors.antt =====
-- src/sources/baostock/update_daily_worker.py: what the worker does with the adjustment factors of a code, the flush of
-- the metadata, and the task that the main thread submits.
use quant_data_center_cn.Prelude.{
  ℕ, String, Option, none, some, List, [], ◌∷◌, Bool, false, not, if◌then◌else◌, length,
}
use Prim.Native.String.{◌++◌}
use quant_data_center_cn.Pipeline.Rows.{RunRow, success_rows, failure_rows}
use quant_data_center_cn.Pipeline.Frames.{DailyRow}
use quant_data_center_cn.Baostock.Targets.{full_history_start_date, adjustment_factor_dataset}
use quant_data_center_cn.Baostock.Dispatch.{
  BackgroundTaskResult, Task, factor_success, factor_failure, daily_initial, full_refetch,
  flush_metadata,
}
use quant_data_center_cn.Baostock.Adjusted.{Bar, FactorRow}
use quant_data_center_cn.Baostock.Worker.{
  Plan, FactorState, Desk, Tools, Try, gives, raises, Step, ◌>>=◌, ◌>>◌, pure, after, except,
  task_ref, is_empty, add_rows, call, read_factors, write_factors, enqueue, set_factor_state,
}
use quant_data_center_cn.Baostock.Worker.Daily.{process_daily_initial, process_daily_full_refetch}

abbrev pub only_record : RunRow → BackgroundTaskResult RunRow
only_record row = record { run_records = row ∷ []; api_requests = [] }

-- A key that this row lacks in Python is empty here.
unfoldable pub metadata_failure : String → RunRow
metadata_failure error_stack = record {
  task_id = "";
  dataset = "__metadata__";
  code = "*";
  status = "failed";
  start_date = "";
  end_date = "";
  start_time = 0;
  end_time = 0;
  row_count = 0;
  error_stack = error_stack;
}

-- What the main thread hands over with a task.
pub record Payload (P X : Type 0) : Type 0 where
  pub factors : List (FactorRow P)
  pub plans : List Plan
  pub initial_start_date : String
  pub rows : List (DailyRow (Bar P X))
  pub started_at : ℕ
  pub path : String
  pub stack : String

abbrev pub if_failed : Bool → String → Option String
if_failed works stack = if works then none else some stack

module _ {P X : Type 0} (t : Tools P X) where
  -- `store.prepare_dataset_frame`
  unfoldable pub prepare_factors : List (FactorRow P) → Step P X (List (FactorRow P))
  prepare_factors fetched = call t (λ d. (t.prepared fetched, d))

  -- The first half of what is under the `try` of `process_baostock_cn_stock_adjustment_factor_success`: the frame
  -- that is stored, and whether it has changed.
  unfoldable pub store_factors : String → List (FactorRow P) → Step P X (List (FactorRow P) × Bool)
  store_factors code fetched = read_factors t code >>= λ existing.
      prepare_factors fetched >>= λ stored.
      write_factors t code stored >> pure (stored, not (t.factors_equal existing stored))

  -- The second half; a queue that refuses the code is only logged.
  unfoldable pub announce_factors :
      String → ℕ → List (FactorRow P) × Bool → Step P X (BackgroundTaskResult RunRow)
  announce_factors code start_time (stored, changed) d =
      let made =
        success_rows
          (task_ref adjustment_factor_dataset code full_history_start_date t.end_date
            (t.output_path adjustment_factor_dataset code) none)
          (record (t.moment d.calls) { started_at = start_time }) (length stored) none none in
      let retain =
        if t.retain_factor_state
        then set_factor_state t code
            (record { frame = stored; changed = changed; error_stack = none })
        else pure tt in
      let queue = if changed then except (enqueue t code) (pure tt) else pure tt in
      (add_rows t made >> retain >> queue >> pure (only_record made.run_row)) d

  -- An existing frame that cannot be read counts as empty, with its own stack behind the first.
  abbrev pub with_stack : String → String → String
  with_stack error_stack more =
      error_stack ++ ("\nFailed to read existing adjust factors:\n" ++ more)

  abbrev pub existing_or_stack :
      Try P X (List (FactorRow P)) → String → (List (FactorRow P) × String) × Desk P X
  existing_or_stack (gives existing e) error_stack = ((existing, error_stack), e)
  existing_or_stack (raises e) error_stack = (([], with_stack error_stack (t.traceback e.calls)), e)

  -- The stored factors stand in for those that could not be fetched, if there are some.
  unfoldable pub fallback_state : List (FactorRow P) → String → FactorState P
  fallback_state existing error_stack = record {
    frame = existing;
    changed = false;
    error_stack = if is_empty existing then some error_stack else none;
  }

  -- `process_baostock_cn_stock_adjustment_factor_failure`
  unfoldable pub process_factor_failure :
      String → ℕ → String → String → Desk P X → BackgroundTaskResult RunRow × Desk P X
  process_factor_failure code start_time output_path error_stack d =
      let ((existing, stack), e) = existing_or_stack (read_factors t code d) error_stack in
      let made =
        failure_rows
          (task_ref adjustment_factor_dataset code full_history_start_date t.end_date output_path
            none)
          (record (t.moment e.calls) { started_at = start_time }) stack none in
      let f = after (add_rows t made e) in
      (
        only_record made.run_row,
        if t.retain_factor_state
            then after (set_factor_state t code (fallback_state existing stack) f)
            else f,
      )

  -- `process_baostock_cn_stock_adjustment_factor_success`: once the frame is written, its path stands in a failure too.
  unfoldable pub process_factor_success :
      String → List (FactorRow P) → ℕ → String → Desk P X → BackgroundTaskResult RunRow × Desk P X
  process_factor_success code fetched start_time output_path d =
      elim (store_factors code fetched d) [
        | gives written e ↦ elim (announce_factors code start_time written e) [
          | gives result f ↦ (result, f)
          | raises f ↦
              process_factor_failure code start_time (t.output_path adjustment_factor_dataset code)
                (t.traceback f.calls) f
        ]
        | raises e ↦ process_factor_failure code start_time output_path (t.traceback e.calls) e
      ]

  -- `use_existing_baostock_cn_stock_adjustment_factor`
  unfoldable pub use_existing_factor : String → Step P X (Unit {0})
  use_existing_factor code =
      if not t.retain_factor_state
      then pure tt
      else read_factors t code >>= λ existing.
          set_factor_state t code (record { frame = existing; changed = false; error_stack = none })

  -- `flush_metadata`: whether the batch can be written is the next answer.
  unfoldable pub flush_batch : Desk P X → BackgroundTaskResult RunRow × Desk P X
  flush_batch d = elim (call t (λ e. (tt, e)) d) [
    | gives done e ↦ (record { run_records = []; api_requests = [] }, e)
    | raises e ↦ (only_record (metadata_failure (t.traceback e.calls)), e)
  ]

  -- The method of the worker that a task calls.
  unfoldable pub run_task : Task → Payload P X → Desk P X → BackgroundTaskResult RunRow × Desk P X
  run_task (factor_success code) p = process_factor_success code p.factors p.started_at p.path
  run_task (factor_failure code) p = process_factor_failure code p.started_at p.path p.stack
  run_task (daily_initial code factor works) p =
      process_daily_initial t code p.plans (some p.initial_start_date) p.rows
        (if_failed works p.stack)
  run_task (full_refetch request works) p =
      process_daily_full_refetch t request p.rows (if_failed works p.stack)
  run_task flush_metadata p = flush_batch
