-- ===== src/Tests/Workflow.antt =====
-- A small workflow on Friday, 12 June 2026: the stock list, and the derived data, which needs it and
-- softly needs the AkShare bars. The tests of the daily run share it.
use native.Mathlib.Decide.{ℕ_discrete}
use quant_data_center_cn.Prelude.{
  ◌+◌, none, some, List, [], ◌∷◌, Bool, true, false, string_eq, pos, ℤ, int_eq, or_else, ℤ_discrete,
  nat_eq,
}
use quant_data_center_cn.Prelude.Dict.{lookup, insert}
use quant_data_center_cn.Daily.Types.{
  DailyEffectiveDates, DailyStep, detailed, plain, daily, policy_dec, natural_date, market_date,
  policy_eq, skip_if_success, market_session, natural_daily, running, success, satisfied_dependency,
  failed_dependency, dependency_step_id,
}
use quant_data_center_cn.Daily.State.{
  State, Row, missing, fresh_state, market_key, key_discrete, steps, row, legacy_key, at, absent,
  number, step_row_for_policy, state_key_for_policy, open_run, put_row, row_status, record_step,
  recorded_row, is_running, steps_for_reading, open_steps, read_state_for_run,
}
use quant_data_center_cn.Daily.State.Abandoned.{
  mark_abandoned_running_steps_in_state, running_abandoned_reason,
}
use quant_data_center_cn.Daily.Command.{
  degraded_build_derived_step, build_derived_command_excludes_daily_bar,
  build_derived_requested_targets, append_build_derived_exclude_daily_bar,
}
use quant_data_center_cn.Daily.Dependencies.{
  steps_by_id, blocked_dependencies, dependency_status, blocks, soft_dependencies,
  upstream_degraded_success_reason,
}
use quant_data_center_cn.Daily.Run.{
  Settings, Machine, visit, record_in, record_and_end, finish, launch, attempt, block_or_launch,
  weighed, opened, pass, should_skip_success, write_state, started_run, is_none,
}
use quant_data_center_cn.Daily.Run.Program.{
  is_blocked, finished, run_daily_update, run_steps, RunEnd, run_with_state, conclude,
  final_exit_code_for_state, final_exit_code, is_failure,
}
use quant_data_center_cn.Daily.Run.Effects.{status_of}
use quant_data_center_cn.Tests.Calendar.{friday}

abbrev pub on_friday : DailyEffectiveDates
on_friday = record {
  natural_date = friday;
  candidate_date = friday;
  market_date = friday;
  hist_start = 739749;
  market_date_overridden = false;
}

abbrev pub basic : DailyStep
basic = record {
  id = "baostock-basic";
  name = "stock basic";
  command = "qdc" ∷ [];
  optional = false;
  timeout_seconds = none;
  depends_on = [];
  schedule_policy = daily;
  state_key_policy = market_date;
  resume_policy = skip_if_success;
  data_freshness_policy = market_session;
  network_profile = "direct";
}

abbrev pub derived : DailyStep
derived = record {
  id = "build-derived";
  name = "build derived";
  command = "qdc" ∷ "build-derived" ∷ "--no-build-duckdb-views" ∷ [];
  optional = false;
  timeout_seconds = some 900;
  depends_on =
      plain "baostock-basic"
      ∷ detailed (record { step_id = "akshare-daily-bar"; state_key_policy = none; soft = true })
      ∷ [];
  schedule_policy = daily;
  state_key_policy = natural_date;
  resume_policy = skip_if_success;
  data_freshness_policy = natural_daily;
  network_profile = "direct";
}

abbrev pub workflow : List DailyStep
workflow = basic ∷ derived ∷ []

abbrev pub settings : Settings
settings = record {
  by_id = [];
  dates = on_friday;
  run_instance_key = "run_instance:20260612_190000";
  start_at = none;
  force = false;
  ignore_state = false;
  me = pos 4242;
  runner = λ step n. pos 0;
  duckdb_available = λ n. true;
  clock = λ n. 1000 + n;
}

abbrev pub start : Machine
start = record { state = fresh_state; file = none; ticks = 0; ran = [] }

abbrev pub every_pid_alive : ℤ → Bool
every_pid_alive p = true

abbrev pub the_end : RunEnd
the_end = run_daily_update settings every_pid_alive false workflow missing

unfoldable pub end_machine : RunEnd → Machine
end_machine (finished code m) = m
end_machine _ = start

abbrev pub last_machine : Machine
last_machine = end_machine the_end

-- A row that succeeded, and one that process 77 left running.
abbrev pub done : Row
done = record {
  status = some success;
  command = [];
  network_profile = "direct";
  started_at = at 900;
  updated_at = at 950;
  ended_at = at 950;
  exit_code = some (pos 0);
  pid = absent;
  orchestrator_pid = absent;
  blocked_by = none;
  reason = none;
}

abbrev pub left_running : Row
left_running = record done { status = some running; orchestrator_pid = number (pos 77) }

abbrev pub after_yesterday : State
after_yesterday = record {
  version = some 2;
  runs =
      (market_key friday, steps (("baostock-basic", row done) ∷ []))
      ∷ (legacy_key friday, steps (("build-derived", row left_running) ∷ []))
      ∷ [];
}

-- Names what a run calls, for the proofs below to unfold.
unfoldable pub computed : RunEnd
unfolding end_machine run_daily_update run_with_state run_steps pass visit opened open_run record_in
    record_step recorded_row mark_abandoned_running_steps_in_state conclude
    final_exit_code_for_state final_exit_code attempt launch finish block_or_launch weighed
    record_and_end string_eq lookup insert step_row_for_policy steps_for_reading open_steps put_row
    state_key_for_policy read_state_for_run row_status should_skip_success blocked_dependencies
    blocks dependency_status soft_dependencies upstream_degraded_success_reason
    degraded_build_derived_step build_derived_requested_targets
    build_derived_command_excludes_daily_bar append_build_derived_exclude_daily_bar
    dependency_step_id satisfied_dependency failed_dependency is_running started_run write_state
    or_else steps_by_id is_none is_failure is_blocked key_discrete ℕ_discrete ℤ_discrete policy_dec
    status_of nat_eq running_abandoned_reason
computed = the_end
