-- ===== src/Tests/Run.antt =====
-- Tests of the daily run: the two-step workflow from a fresh state, and resumed.
use text.Mathlib.TextEquality.{eq_iff}
use quant_data_center_cn.Prelude.{
  ◌≡◌, ◌≢◌, ◌↔◌, ◌⊎◌, refl, sym, ◌∙◌, String, none, [], ◌∷◌, true, false, string_eq, pos, int_eq,
  All, arith, nat_eq,
}
use quant_data_center_cn.Daily.Types.{
  DailyStep, StateKeyPolicy, natural_date, market_date, policy_eq, success, success_degraded,
}
use quant_data_center_cn.Daily.State.{missing, fresh_state}
use quant_data_center_cn.Daily.Command.{
  degraded_build_derived_step, runs_instead, build_derived_command_excludes_daily_bar,
  degraded_step-excludes,
}
use quant_data_center_cn.Daily.Dependencies.{
  blocked_dependencies, Met, blocked_dependencies-nil_iff,
}
use quant_data_center_cn.Daily.Dependencies.Effective.{SameStep}
use quant_data_center_cn.Daily.Run.{Machine, crash, proceed, visit}
use quant_data_center_cn.Daily.Run.Program.{finished, run_steps, ended}
use quant_data_center_cn.Daily.Run.Effects.{status_of, Settles}
use quant_data_center_cn.Daily.Run.Visit.{visit-Settles}
use quant_data_center_cn.Daily.Run.Commands.{MayRun, visit-MayRun}
use quant_data_center_cn.Daily.Run.Order.{RanWithin, ids, machine_of, run_steps_in_order}
use quant_data_center_cn.Daily.Run.ExitCode.{Passed}
use quant_data_center_cn.Daily.Run.Whole.{run_daily_update_zero, resumed_run_does_nothing}
use quant_data_center_cn.Tests.Workflow.{
  on_friday, basic, derived, workflow, settings, start, every_pid_alive, the_end, last_machine,
  after_yesterday, computed,
}

-- The soft dependency has no row, so the derived step leaves out daily_bar and is degraded.
derived_is_degraded :
    status_of settings last_machine "build-derived" natural_date ≡ success_degraded
unfolding computed
derived_is_degraded = refl

ends_with_zero : the_end ≡ finished (pos 0) last_machine
unfolding computed
ends_with_zero = refl

other_id : ◌≢◌ {A = String} "build-derived" "baostock-basic"
other_id = ground (arith, eq_iff "build-derived" "baostock-basic")

run_daily_update_zero_example : All (Passed settings workflow last_machine) workflow
run_daily_update_zero_example =
    run_daily_update_zero settings every_pid_alive false workflow missing last_machine
      ((other_id, tt), (tt, tt)) ends_with_zero

basic_proceeds : (visit settings basic start).1 ≡ proceed
unfolding computed
basic_proceeds = refl

basic_raises_nothing : (visit settings basic start).1 ≢ crash
basic_raises_nothing = λ e. let k = sym basic_proceeds ∙ e in cc

visit-Settles_example :
    Settles settings basic (visit settings basic start).1 start (visit settings basic start).0
visit-Settles_example = visit-Settles settings basic start basic_raises_nothing

visit-MayRun_example :
    ((visit settings basic start).0.ran ≡ [])
    ⊎ ((e : DailyStep) × ((visit settings basic start).0.ran ≡ e ∷ [])
        × SameStep basic e
        × MayRun settings basic start)
visit-MayRun_example = visit-MayRun settings basic start

run_steps_in_order_example :
    RanWithin (ids workflow) start (machine_of (run_steps settings workflow true none start))
run_steps_in_order_example = run_steps_in_order settings workflow true none start

blocked_dependencies-nil_iff_example :
    (blocked_dependencies fresh_state [] on_friday "run_instance:1" derived.depends_on ≡ [])
    ↔ All (Met fresh_state [] on_friday "run_instance:1") derived.depends_on
blocked_dependencies-nil_iff_example =
    blocked_dependencies-nil_iff fresh_state [] on_friday "run_instance:1" derived.depends_on

abbrev resumed : Machine
resumed = record start { state = after_yesterday }

basic_done : status_of settings resumed "baostock-basic" market_date ≡ success
unfolding computed
basic_done = refl

resumed_run_does_nothing_example :
    (n : Machine) × (run_steps settings (basic ∷ []) true none resumed ≡ ended none n)
    × (n.ran ≡ [])
    × (n.file ≡ none)
    × ((j : String) (q : StateKeyPolicy)
        → status_of settings n j q ≡ status_of settings resumed j q)
resumed_run_does_nothing_example =
    resumed_run_does_nothing settings refl refl refl (basic ∷ []) none resumed
      ((refl, basic_done), tt)

abbrev derived_without_bars : DailyStep
derived_without_bars = record derived {
  command =
      "qdc" ∷ "build-derived" ∷ "--exclude-target" ∷ "daily_bar" ∷ "--no-build-duckdb-views" ∷ [];
}

bars_left_out :
    degraded_build_derived_step derived "akshare-daily-bar" ≡ runs_instead derived_without_bars
unfolding computed
bars_left_out = refl

degraded_step-excludes_example :
    (build_derived_command_excludes_daily_bar derived_without_bars.command ≡ true)
    × (derived_without_bars ≡ record derived { command = derived_without_bars.command })
degraded_step-excludes_example =
    degraded_step-excludes derived derived_without_bars "akshare-daily-bar" bars_left_out
