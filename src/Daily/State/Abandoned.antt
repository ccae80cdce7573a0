-- ===== src/Daily/State/Abandoned.antt =====
-- src/tools/run_update_daily.py: rows that a dead or overdue run left behind as running are marked
-- abandoned. The pass is taken to read one time from the clock. Whether a process id is alive is
-- the operating system's answer, a parameter.
pub mod AtWork
pub mod Marking
use quant_data_center_cn.Prelude.{
  ℕ, suc, ◌+◌, ◌*◌, ◌≡◌, refl, ap, String, Option, none, some, List, [], ◌∷◌, Bool, true, false,
  ◌||◌, ◌==◌, if◌then◌else◌, leb, ℤ, pos, negsuc, int_eq, string_eq, or_else, arith, ◌≢◌,
  Bool-cases, inl, inr, Option-cases,
}
use quant_data_center_cn.Prelude.Dict.{Dict, lookup}
use quant_data_center_cn.Daily.Types.{
  StateKeyPolicy, DailyEffectiveDates, Status, running, abandoned, natural_date, market_date,
  run_instance,
}
use quant_data_center_cn.Daily.State.{
  State, StateKey, key_eq, Stamp, no_stamp, malformed, at, PidField, absent, unusable, number,
  Reason, no_orchestrator_pid, no_valid_started_at, exceeded_seconds, pid_not_alive, Row, RowEntry,
  row, row_not_mapping, empty_row, Steps, RunEntry, steps, run_not_mapping, steps_not_mapping,
  is_running, row_status, row_of, legacy_row, entry_steps, lookup_legacy, legacy_form,
  steps_for_reading, step_row_for_policy, state_key_for_policy, legacy_key,
}

abbrev running_abandoned_after_seconds : ℕ
running_abandoned_after_seconds = 24 * 60 * 60

-- `_int_or_none`: positive numbers alone are process ids.
positive_pid : PidField → Option ℤ
positive_pid (number (pos (suc n))) = some (pos (suc n))
positive_pid _ = none

-- `row.get("orchestrator_pid", row.get("pid"))`
pid_field : Row → PidField
pid_field r = elim r.orchestrator_pid [ absent ↦ r.pid | unusable ↦ unusable | number n ↦ number n ]

module _ (alive : ℤ → Bool) (active_pid : Option ℤ) (now : ℕ) where
  overdue : Stamp → Option Reason
  overdue (at started_at) =
      if leb now (started_at + running_abandoned_after_seconds) then none else some exceeded_seconds
  overdue _ = some no_valid_started_at

  is_active : ℤ → Bool
  is_active pid = elim active_pid [ none ↦ false | some a ↦ a == pid ]

  reason_for_pid : Option ℤ → Stamp → Option Reason
  unfolding overdue is_active
  reason_for_pid none started_at = some no_orchestrator_pid
  reason_for_pid (some pid) started_at =
      if is_active pid
      then none
      else if alive pid
      then overdue started_at
      else some (pid_not_alive pid)

  -- `_running_abandoned_reason`
  unfoldable pub running_abandoned_reason : Row → Option Reason
  unfolding reason_for_pid positive_pid pid_field
  running_abandoned_reason r = reason_for_pid (positive_pid (pid_field r)) r.started_at

  -- `_mark_running_row_abandoned`
  abbrev pub abandoned_row : Row → Reason → Row
  abandoned_row r reason = record r {
    status = some abandoned;
    updated_at = at now;
    ended_at = at now;
    exit_code = some (pos 1);
    reason = some reason;
  }

  abandon_for : Row → Option Reason → Row × Bool
  abandon_for r none = (r, false)
  abandon_for r (some reason) = (abandoned_row r reason, true)

  -- A row of the pass and whether it changed.
  unfoldable pub mark_row : Row → Row × Bool
  unfolding abandon_for is_running row_status
  mark_row r =
      if is_running (row_status (some r))
      then abandon_for r (running_abandoned_reason r)
      else (r, false)

  mark_entry : RowEntry → RowEntry × Bool
  unfolding mark_row
  mark_entry (row r) = let (r', changed) = mark_row r in (row r', changed)
  mark_entry e = (e, false)

  mark_steps : Steps → Steps × Bool
  unfolding mark_entry
  mark_steps [] = ([], false)
  mark_steps ((id, e) ∷ rest) =
      let (e', changed) = mark_entry e in
      let (rest', more) = mark_steps rest in ((id, e') ∷ rest', changed || more)

  mark_run : RunEntry → RunEntry × Bool
  unfolding mark_steps
  mark_run (steps m) = let (m', changed) = mark_steps m in (steps m', changed)
  mark_run e = (e, false)

  mark_runs : Dict StateKey RunEntry → Dict StateKey RunEntry × Bool
  unfolding mark_run
  mark_runs [] = ([], false)
  mark_runs ((k, e) ∷ rest) =
      let (e', changed) = mark_run e in
      let (rest', more) = mark_runs rest in ((k, e') ∷ rest', changed || more)

  -- `_mark_abandoned_running_steps_in_state`
  unfoldable pub mark_abandoned_running_steps_in_state : State → State × Bool
  unfolding mark_runs
  mark_abandoned_running_steps_in_state s =
      let (runs, changed) = mark_runs s.runs in (record s { runs = runs }, changed)
