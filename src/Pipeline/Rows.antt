-- ===== src/Pipeline/Rows.antt =====
-- src/pipeline/lifecycle.py: the rows that tell of a task's success, failure or skip, with
-- `checkpoint_row` of src/pipeline/common.py. Times are milliseconds; the task id and the time at
-- which a row is made are arguments.
use quant_data_center_cn.Prelude.{ℕ, String, Option, none, some}

pub record LifecycleTaskRef : Type 0 where
  pub pipeline : String
  pub dataset : String
  pub code : String
  pub start_date : String
  pub end_date : String
  pub output_path : String
  pub checkpoint_start_date : Option String

pub record RunRow : Type 0 where
  pub task_id : String
  pub dataset : String
  pub code : String
  pub status : String
  pub start_date : String
  pub end_date : String
  pub start_time : ℕ
  pub end_time : ℕ
  pub row_count : ℕ
  pub error_stack : String

pub record StatusRow : Type 0 where
  pub dataset : String
  pub code : String
  pub last_success_date : Option String
  pub row_count : ℕ
  pub status : String
  pub updated_at : ℕ
  pub error_stack : String

pub record CheckpointRow : Type 0 where
  pub pipeline : String
  pub dataset : String
  pub code : String
  pub start_date : String
  pub end_date : String
  pub status : String
  pub row_count : ℕ
  pub output_path : String
  pub updated_at : ℕ
  pub error_stack : String

pub record LifecycleRows : Type 0 where
  pub run_row : RunRow
  pub status_row : Option StatusRow
  pub checkpoint_row : Option CheckpointRow

-- `text or other`, of a text that may be None: an empty one is false too.
unfoldable pub or_text : Option String → String → String
or_text none other = other
or_text (some String.[]) other = other
or_text (some (String.◌∷◌ c text)) other = String.◌∷◌ c text

unfoldable pub effective_checkpoint_start_date : LifecycleTaskRef → String
unfolding or_text
effective_checkpoint_start_date task = or_text task.checkpoint_start_date task.start_date

-- What the clock and `uuid4` give while the rows of a task are made.
pub record Moment : Type 0 where
  pub task_id : String
  pub started_at : ℕ
  pub ended_at : ℕ
  pub status_time : ℕ
  pub checkpoint_time : ℕ

module _ (task : LifecycleTaskRef) (m : Moment) where
  unfoldable pub run_row : String → ℕ → String → RunRow
  run_row status row_count error_stack = record {
    task_id = m.task_id;
    dataset = task.dataset;
    code = task.code;
    status = status;
    start_date = task.start_date;
    end_date = task.end_date;
    start_time = m.started_at;
    end_time = m.ended_at;
    row_count = row_count;
    error_stack = error_stack;
  }

  unfoldable pub status_row : Option String → ℕ → String → String → StatusRow
  status_row last_success_date row_count status error_stack = record {
    dataset = task.dataset;
    code = task.code;
    last_success_date = last_success_date;
    row_count = row_count;
    status = status;
    updated_at = m.status_time;
    error_stack = error_stack;
  }

  unfoldable pub checkpoint_row : String → ℕ → String → String → CheckpointRow
  unfolding effective_checkpoint_start_date
  checkpoint_row status row_count output_path error_stack = record {
    pipeline = task.pipeline;
    dataset = task.dataset;
    code = task.code;
    start_date = effective_checkpoint_start_date task;
    end_date = task.end_date;
    status = status;
    row_count = row_count;
    output_path = output_path;
    updated_at = m.checkpoint_time;
    error_stack = error_stack;
  }

  unfoldable pub success_rows : ℕ → Option String → Option String → LifecycleRows
  unfolding or_text
  success_rows row_count output_path last_success_date = record {
    run_row = run_row "success" row_count "";
    status_row =
        some (status_row (some (or_text last_success_date task.end_date)) row_count "success" "");
    checkpoint_row =
        some (checkpoint_row "success" row_count (or_text output_path task.output_path) "");
  }

  unfoldable pub failure_rows : String → Option String → LifecycleRows
  unfolding or_text
  failure_rows error_stack output_path = record {
    run_row = run_row "failed" 0 error_stack;
    status_row = some (status_row none 0 "failed" error_stack);
    checkpoint_row =
        some (checkpoint_row "failed" 0 (or_text output_path task.output_path) error_stack);
  }

  unfoldable pub skipped_rows : String → String → LifecycleRows
  skipped_rows status reason = record {
    run_row = run_row status 0 reason;
    status_row = some (status_row none 0 status reason);
    checkpoint_row = some (checkpoint_row status 0 task.output_path reason);
  }
