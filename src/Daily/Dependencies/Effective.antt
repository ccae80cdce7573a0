-- ===== src/Daily/Dependencies/Effective.antt =====
-- The step that runs after the loop over the soft dependencies is the step itself, but for its
-- command line.
use quant_data_center_cn.Prelude.{
  ◌≡◌, refl, String, List, [], ◌∷◌, true, false, if◌then◌else◌, Bool,
}
use quant_data_center_cn.Prelude.Dict.{Dict}
use quant_data_center_cn.Daily.Types.{
  DailyEffectiveDates, Dependency, DailyStep, Status, dependency_step_id,
}
use quant_data_center_cn.Daily.State.{State, StateKey}
use quant_data_center_cn.Daily.Command.{
  Degraded, not_affected, blocked_target, runs_instead, degraded_build_derived_step,
  degraded_step-excludes,
}
use quant_data_center_cn.Daily.Dependencies.{
  Degrading, weigh, weigh_as, degrades, soft_dependencies,
}

-- The same step, with a command line of its own.
abbrev pub SameStep : DailyStep → DailyStep → Type 0
SameStep step e = e ≡ record step { command = e.command }

module _ (state : State) (by_id : Dict String DailyStep) (dates : DailyEffectiveDates)
    (run : String) (step : DailyStep) where
  weigh_as-SameStep :
      (g : Degraded) (id : String) (st : Status) (key : StateKey)
      (v : Degrading state by_id dates run)
      → ((other : DailyStep) → g ≡ runs_instead other → SameStep step other)
      → SameStep step v.effective_step
      → SameStep step (weigh_as state by_id dates run g id st key v).effective_step
  unfolding weigh_as
  weigh_as-SameStep not_affected id st key v f h = h
  weigh_as-SameStep blocked_target id st key v f h = h
  weigh_as-SameStep (runs_instead other) id st key v f h = f other refl

  weigh-SameStep :
      (d : Dependency) (v : Degrading state by_id dates run)
      → SameStep step v.effective_step
      → SameStep step (weigh state by_id dates run step d v).effective_step
  unfolding weigh
  weigh-SameStep d v h =
      weigh_as-SameStep (degraded_build_derived_step step (dependency_step_id d)) _ _ _ v
        (λ other e. (degraded_step-excludes step other (dependency_step_id d) e).1) h

  if_SameStep :
      (b : Bool) (v w : Degrading state by_id dates run)
      → SameStep step v.effective_step
      → SameStep step w.effective_step
      → SameStep step (if b then v else w).effective_step
  if_SameStep true v w h k = h
  if_SameStep false v w h k = k

  pub soft_dependencies-SameStep :
      (ds : List Dependency) (v : Degrading state by_id dates run)
      → SameStep step v.effective_step
      → SameStep step (soft_dependencies state by_id dates run step ds v).effective_step
  unfolding soft_dependencies
  soft_dependencies-SameStep [] v h = h
  soft_dependencies-SameStep (d ∷ ds) v h =
      soft_dependencies-SameStep ds _
        (if_SameStep (degrades state by_id dates run d) _ v (weigh-SameStep d v h) h)
