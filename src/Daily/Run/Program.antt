-- ===== src/Daily/Run/Program.antt =====
-- src/tools/run_update_daily.py: the loop of `run_daily_update`, the exit code, and the run as a whole.
use quant_data_center_cn.Prelude.{
  ℕ, String, Option, none, some, List, [], ◌∷◌, Bool, true, false, ◌&&◌, ◌||◌, not, ◌==◌, string_eq,
  if◌then◌else◌, ℤ, pos, int_eq, contains, map, or_else, nat_eq,
}
use quant_data_center_cn.Prelude.Dict.{Dict, lookup, insert}
use quant_data_center_cn.Daily.Types.{
  DailyStep, Status, blocked, failed, failed_resource_locked, failed_timeout_cleanup, abandoned,
}
use quant_data_center_cn.Daily.State.{
  State, Document, Row, read_state_for_run, step_row_for_policy, row_status,
}
use quant_data_center_cn.Daily.State.Abandoned.{mark_abandoned_running_steps_in_state}
use quant_data_center_cn.Daily.Dependencies.{steps_by_id}
use quant_data_center_cn.Daily.Run.{
  Settings, Machine, Flow, is_none, write_state, pass, proceed, crash, failed_with, stop_with,
}

-- `failed_exit_code or exit_code`
unfoldable pub or_code : Option ℤ → ℤ → Option ℤ
or_code none code = some code
or_code (some c) code = if c == pos 0 then some code else some c

-- What the loop leaves: the state and `failed_exit_code`, or an exception.
pub data LoopEnd : Type 0 where
  ended : Option ℤ → Machine → LoopEnd
  raised : Machine → LoopEnd

-- How the loop goes on after a pass: `rest` is the loop over the later steps.
unfoldable pub continue_loop : Flow → Option ℤ → Machine → (Option ℤ → LoopEnd) → LoopEnd
unfolding or_code
continue_loop proceed code m rest = rest code
continue_loop (failed_with x) code m rest = rest (or_else code (some x))
continue_loop (stop_with x) code m rest = ended (or_code code x) m
continue_loop crash code m rest = raised m

unfoldable pub run_steps : Settings → List DailyStep → Bool → Option ℤ → Machine → LoopEnd
unfolding continue_loop
run_steps c [] start_seen code m = ended code m
run_steps c (step ∷ steps) start_seen code m =
    let p = pass c step start_seen m in
    continue_loop p.0.1 code p.0.0 (λ code'. run_steps c steps p.1 code' p.0.0)

-- The statuses that the first loop of `_final_exit_code` looks for.
unfoldable pub is_failure : Status → Bool
is_failure failed = true
is_failure failed_resource_locked = true
is_failure failed_timeout_cleanup = true
is_failure abandoned = true
is_failure _ = false

unfoldable pub is_blocked : Status → Bool
is_blocked blocked = true
is_blocked _ = false

unfoldable pub exit_code_of : Option Row → ℤ
exit_code_of none = pos 1
exit_code_of (some r) = elim r.exit_code [ none ↦ pos 1 | some c ↦ c ]

-- `step_state.get(step.id, {})`
unfoldable pub row_in : Dict String (Option Row) → String → Option Row
row_in rows id = elim (lookup id rows) [ none ↦ none | some r ↦ r ]

unfoldable pub first_failure : List DailyStep → Dict String (Option Row) → Option ℤ
unfolding row_in exit_code_of
first_failure [] rows = none
first_failure (step ∷ steps) rows =
    let rest = first_failure steps rows in
    let r = row_in rows step.id in if is_failure (row_status r) then some (exit_code_of r) else rest

unfoldable pub any_blocked : List DailyStep → Dict String (Option Row) → Bool
unfolding row_in
any_blocked [] rows = false
any_blocked (step ∷ steps) rows =
    is_blocked (row_status (row_in rows step.id)) || any_blocked steps rows

-- `_final_exit_code`
unfoldable pub final_exit_code : List DailyStep → Dict String (Option Row) → Option ℤ → ℤ
unfolding first_failure any_blocked
final_exit_code steps rows (some code) = code
final_exit_code steps rows none = elim (first_failure steps rows) [
  | some code ↦ code
  | none ↦ if any_blocked steps rows then pos 1 else pos 0
]

unfoldable pub rows_from :
    Settings → State → List DailyStep → Dict String (Option Row) → Dict String (Option Row)
rows_from c s [] rows = rows
rows_from c s (step ∷ steps) rows = rows_from c s steps (
    insert step.id (step_row_for_policy s step.id step.state_key_policy c.dates c.run_instance_key)
      rows)

-- `_final_exit_code_for_state`
unfoldable pub final_exit_code_for_state : Settings → List DailyStep → State → Option ℤ → ℤ
unfolding rows_from
final_exit_code_for_state c steps s code = final_exit_code steps (rows_from c s steps []) code

-- What `run_daily_update` returns or raises, with the state in memory and the file at the end.
pub data RunEnd : Type 0 where
  unknown_step : String → RunEnd
  lock_held state_file_error : RunEnd
  raised_in_loop : Machine → RunEnd
  finished : ℤ → Machine → RunEnd

-- `LEGACY_START_AT_ALIASES`
unfoldable pub mapped_start_at : List String → Option String → Option String
mapped_start_at ids none = none
mapped_start_at ids (some id) =
    if not (contains ids id)
      && id == "build-derived"
      && contains ids "build-derived-security-master"
    then some "build-derived-security-master"
    else some id

-- `raise ValueError` for a start-at that no step has; else the run goes on.
unfoldable pub check_start_at : List String → Option String → RunEnd → RunEnd
check_start_at ids none run = run
check_start_at ids (some id) run = if contains ids id then run else unknown_step id

-- From the loop's end to the exit code. `needs_write` is `state_needs_write`.
unfoldable pub conclude : Settings → List DailyStep → Bool → LoopEnd → RunEnd
unfolding write_state
conclude c steps needs_write (raised m) = raised_in_loop m
conclude c steps needs_write (ended code m) =
    finished (final_exit_code_for_state c steps m.state code)
      (if needs_write then write_state m else m)

unfoldable pub is_version_2 : Option ℕ → Bool
is_version_2 none = false
is_version_2 (some v) = v == 2

-- The body under the lock, from the state that was read. `alive` answers for process ids.
unfoldable pub run_with_state : Settings → (ℤ → Bool) → List DailyStep → State → RunEnd
unfolding is_version_2 write_state
run_with_state c alive steps read =
    let versioned = record read { version = some 2 } in
    let (s, changed) =
      mark_abandoned_running_steps_in_state alive (some c.me) (c.clock 0) versioned in
    let start : Machine = record { state = s; file = none; ticks = 1; ran = [] } in
    conclude c steps (not (is_version_2 read.version) && not changed)
      (run_steps c steps (is_none c.start_at) none (if changed then write_state start else start))

unfoldable pub run_if_read : Settings → (ℤ → Bool) → List DailyStep → Option State → RunEnd
run_if_read c alive steps none = state_file_error
run_if_read c alive steps (some s) = run_with_state c alive steps s

-- `run_daily_update`, with the steps and the dates resolved. `locked` is whether another owner holds
-- the process lock.
unfoldable pub run_daily_update : Settings → (ℤ → Bool) → Bool → List DailyStep → Document → RunEnd
unfolding mapped_start_at check_start_at run_if_read
run_daily_update c alive locked steps file =
    let ids = map (λ (step : DailyStep). step.id) steps in
    let c' = record c { start_at = mapped_start_at ids c.start_at; by_id = steps_by_id steps } in
    check_start_at ids c'.start_at
      (if locked then lock_held else run_if_read c' alive steps (read_state_for_run c.force file))
