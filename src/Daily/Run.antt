-- ===== src/Daily/Run.antt =====
-- src/tools/run_update_daily.py: `run_daily_update`, from the state document to the exit code.
-- The state is passed on explicitly. What the surroundings decide is a field of `Settings`: the
-- runner's exit codes, by the number of commands run before, whether the DuckDB files are free after a
-- time-out, by the number run so far, and the clock, by the number of rows recorded. Log lines are not
-- modelled. `crash` is the AttributeError of `_record_step`.
pub mod Program
pub mod Effects
pub mod Visit
pub mod Outcome
pub mod ExitCode
pub mod Commands
pub mod Order
pub mod Whole
use quant_data_center_cn.Prelude.{
  ℕ, zero, suc, ◌+◌, String, Option, none, some, List, [], ◌∷◌, Bool, true, false, ◌&&◌, ◌||◌, not,
  ◌==◌, string_eq, if◌then◌else◌, length, ℤ, pos, negsuc, int_eq, contains, map, or_else, nat_eq,
}
use quant_data_center_cn.Prelude.Dict.{Dict, lookup, insert}
use quant_data_center_cn.Daily.Types.{
  StateKeyPolicy, ResumePolicy, skip_if_success, always_run, DailyEffectiveDates, DailyStep, Status,
  running, success, success_degraded, skipped, skipped_timeout, blocked, failed,
  failed_resource_locked, failed_timeout_cleanup, abandoned,
}
use quant_data_center_cn.Daily.State.{
  State, StateKey, Document, Reason, Row, read_state_for_run, open_run, record_step,
  step_row_for_policy, row_status, state_key_for_policy,
}
use quant_data_center_cn.Daily.State.Abandoned.{mark_abandoned_running_steps_in_state}
use quant_data_center_cn.Daily.Dependencies.{
  Degrading, steps_by_id, blocked_dependencies, upstream_degraded_success_reason, soft_dependencies,
}

pub record Settings : Type 0 where
  pub by_id : Dict String DailyStep
  pub dates : DailyEffectiveDates
  pub run_instance_key : String
  pub start_at : Option String
  pub force : Bool
  pub ignore_state : Bool
  pub me : ℤ
  pub runner : DailyStep → ℕ → ℤ
  pub duckdb_available : ℕ → Bool
  pub clock : ℕ → ℕ

-- The variables of the loop that outlive a pass: the state in memory, the state file as this run
-- last wrote it, the number of rows recorded, and the steps whose commands were run, the latest
-- first.
pub record Machine : Type 0 where
  pub state : State
  pub file : Option State
  pub ticks : ℕ
  pub ran : List DailyStep

-- How a pass of the loop ends: `continue`, `continue` after a failure, `break`, or an exception.
pub data Flow : Type 0 where
  proceed crash : Flow
  failed_with stop_with : ℤ → Flow

abbrev timeout_exit_code : ℤ
timeout_exit_code = pos 124

abbrev timeout_cleanup_failed_exit_code : ℤ
timeout_cleanup_failed_exit_code = pos 125

unfoldable pub is_success : Status → Bool
is_success success = true
is_success _ = false

unfoldable pub has_timeout : Option ℕ → Bool
has_timeout none = false
has_timeout (some t) = true

unfoldable pub skips_success : ResumePolicy → Bool
skips_success skip_if_success = true
skips_success always_run = false

unfoldable pub is_none {ℓ} : {A : Type ℓ} → Option A → Bool
is_none none = true
is_none (some a) = false

-- `_write_state`, which sets the version.
unfoldable pub write_state : Machine → Machine
write_state m = record m { file = some (record m.state { version = some 2 }) }

-- The status that a failed command leaves, and how the pass ends.
unfoldable pub failure_outcome : DailyStep → ℤ → Bool → Status × Flow
unfolding has_timeout
failure_outcome step code duckdb_free =
    let timed_out = code == timeout_exit_code && has_timeout step.timeout_seconds in
    let cleanup_failed =
      code == timeout_cleanup_failed_exit_code && has_timeout step.timeout_seconds in
    if cleanup_failed
    then (if step.optional then failed_timeout_cleanup else failed, stop_with code)
    else if timed_out && not duckdb_free
    then (if step.optional then failed_resource_locked else failed, stop_with code)
    else if step.optional
    then (if timed_out then skipped_timeout else skipped, proceed)
    else (failed, failed_with code)

unfoldable pub success_status : Option Reason → Status
success_status none = success
success_status (some r) = success_degraded

module _ (c : Settings) where
  -- `_record_step` on the mapping of a step's state key.
  unfoldable pub record_in :
      DailyStep
      → DailyStep
      → Status
      → Option ℤ
      → Option (List String)
      → Option Reason
      → Machine
      → Option Machine
  record_in step effective status code by reason m =
      elim (record_step c.me m.state
        (state_key_for_policy step.state_key_policy c.dates c.run_instance_key) effective status
        code by reason (c.clock m.ticks)) [
          | none ↦ none
          | some s ↦ some (record m { state = s; ticks = m.ticks + 1 })
        ]

  -- A row is recorded, the state is written, and the pass ends.
  unfoldable pub record_and_end :
      DailyStep
      → DailyStep
      → Status
      → Option ℤ
      → Option (List String)
      → Option Reason
      → Flow
      → Machine
      → Machine × Flow
  unfolding write_state
  record_and_end step effective status code by reason flow m =
      elim (record_in step effective status code by reason m) [
        | none ↦ (m, crash)
        | some m' ↦ (write_state m', flow)
      ]

  unfoldable pub status_now : Machine → DailyStep → Status
  status_now m step =
      row_status
        (step_row_for_policy m.state step.id step.state_key_policy c.dates c.run_instance_key)

  -- `should_skip_success`
  unfoldable pub should_skip_success : DailyStep → Status → Bool
  unfolding skips_success is_success is_none
  should_skip_success step current_status =
      is_none c.start_at
      && not c.force
      && not c.ignore_state
      && skips_success step.resume_policy
      && is_success current_status

  -- From the exit code to the end of the pass.
  unfoldable pub finish : DailyStep → DailyStep → Option Reason → ℤ → Machine → Machine × Flow
  unfolding success_status
  finish step effective reason code m =
      if code == pos 0
      then record_and_end step effective (success_status reason) (some (pos 0)) none reason proceed
          m
      else let (status, flow) = failure_outcome step code (c.duckdb_available (length m.ran)) in
        record_and_end step effective status (some code) none none flow m

  -- The state is written with the row "running", and the command starts.
  unfoldable pub started_run : DailyStep → Machine → Machine
  unfolding write_state
  started_run effective m = record (write_state m) { ran = effective ∷ m.ran }

  -- The command runs between the row "running" and the row of its result.
  unfoldable pub launch : DailyStep → DailyStep → Option Reason → Machine → Machine × Flow
  launch step effective reason m = elim (record_in step effective running none none none m) [
    | none ↦ (m, crash)
    | some m' ↦
        finish step effective reason (c.runner effective (length m.ran)) (started_run effective m')
  ]

  -- `if blocked_reason is not None`
  unfoldable pub block_or_launch :
      DailyStep → DailyStep → Option Reason → Option Reason → Machine → Machine × Flow
  block_or_launch step effective reason (some blocked_reason) m =
      record_and_end step effective blocked (some (pos 1)) none (some blocked_reason) proceed m
  block_or_launch step effective reason none m = launch step effective reason m

  -- The loop over the soft dependencies, from its first values.
  unfoldable pub weighed :
      DailyStep → (m : Machine) → Degrading m.state c.by_id c.dates c.run_instance_key
  weighed step m =
      soft_dependencies m.state c.by_id c.dates c.run_instance_key step step.depends_on
        (record { effective_step = step; degraded_success_reason = none; blocked_reason = none })

  -- The rest of a pass, once no hard dependency blocks the step.
  unfoldable pub attempt : DailyStep → Machine → Machine × Flow
  attempt step m =
      let upstream =
        upstream_degraded_success_reason m.state c.by_id c.dates c.run_instance_key
          step.depends_on in
      let v = weighed step m in
      block_or_launch step v.effective_step (or_else v.degraded_success_reason upstream)
        v.blocked_reason m

  unfoldable pub block_or_attempt : DailyStep → List String → Machine → Machine × Flow
  block_or_attempt step [] m = attempt step m
  block_or_attempt step (d ∷ ds) m =
      record_and_end step step blocked (some (pos 1)) (some (d ∷ ds)) none proceed m

  -- A pass of the loop on a step that is not before `start_at`.
  unfoldable pub visit : DailyStep → Machine → Machine × Flow
  unfolding status_now block_or_attempt
  visit step m =
      if should_skip_success step (status_now m step)
      then (m, proceed)
      else block_or_attempt step
          (blocked_dependencies m.state c.by_id c.dates c.run_instance_key step.depends_on) m

  -- A step before `start_at` is recorded as skipped, and the state is not written.
  unfoldable pub skip_before_start : DailyStep → Machine → Machine × Flow
  skip_before_start step m = elim (record_in step step skipped (some (pos 0)) none none m) [
    | none ↦ (m, crash)
    | some m' ↦ (m', proceed)
  ]

  -- `_step_state_for_step` at the head of a pass.
  unfoldable pub opened : DailyStep → Machine → Machine
  opened step m = record m {
    state =
        open_run m.state (state_key_for_policy step.state_key_policy c.dates c.run_instance_key);
  }

  is_start : DailyStep → Bool
  is_start step = elim c.start_at [ none ↦ false | some id ↦ step.id == id ]

  -- A pass of the loop; the Boolean is `start_seen`, before and behind it.
  unfoldable pub pass : DailyStep → Bool → Machine → (Machine × Flow) × Bool
  unfolding is_start
  pass step start_seen m =
      if start_seen || is_start step
      then (visit step (opened step m), true)
      else (skip_before_start step (opened step m), false)
