-- ===== src/Daily/Dependencies.antt =====
-- src/tools/run_update_daily.py: the statuses of a step's dependencies, and what they block or
-- degrade.
pub mod Effective
use quant_data_center_cn.Prelude.{
  ℕ, String, Option, none, some, List, [], ◌∷◌, Bool, true, false, ◌&&◌, ◌||◌, not, ◌==◌, string_eq,
  if◌then◌else◌, ◌≡◌, refl, arith, All, Bool-cases, inl, inr, ◌↔◌,
}
use quant_data_center_cn.Prelude.Dict.{Dict, lookup, insert}
use quant_data_center_cn.Daily.Types.{
  StateKeyPolicy, natural_date, DailyEffectiveDates, DailyDependency, Dependency, detailed, plain,
  DailyStep, Status, success_degraded, failed_dependency, satisfied_dependency, dependency_step_id,
}
use quant_data_center_cn.Daily.State.{
  State, StateKey, Reason, upstream_degraded, cannot_build_daily_bar, excluded_daily_bar,
  soft_dependency, step_row_for_policy, row_status, state_key_for_policy,
}
use quant_data_center_cn.Daily.Command.{
  Degraded, not_affected, blocked_target, runs_instead, degraded_build_derived_step,
}

-- `{step.id: step for step in steps}`
by_id_from : Dict String DailyStep → List DailyStep → Dict String DailyStep
by_id_from d [] = d
by_id_from d (step ∷ steps) = by_id_from (insert step.id step d) steps

unfoldable pub steps_by_id : List DailyStep → Dict String DailyStep
unfolding by_id_from
steps_by_id = by_id_from []

step_policy : Option DailyStep → StateKeyPolicy
step_policy none = natural_date
step_policy (some step) = step.state_key_policy

pub is_soft : Dependency → Bool
is_soft (detailed d) = d.soft
is_soft (plain id) = false

unfoldable pub is_success_degraded : Status → Bool
is_success_degraded success_degraded = true
is_success_degraded _ = false

not_blocked :
    (st : Status) (soft : Bool)
    → ((failed_dependency st || not (satisfied_dependency st)) && not soft) ≡ false
    → soft ≡ false
    → satisfied_dependency st ≡ true
not_blocked st soft h e = ground arith

met_not_blocked :
    (st : Status) (soft : Bool)
    → (soft ≡ false → satisfied_dependency st ≡ true)
    → ((failed_dependency st || not (satisfied_dependency st)) && not soft) ≡ false
unfolding failed_dependency satisfied_dependency
met_not_blocked st true h = ground arith
met_not_blocked st false h = let k = h refl in ground arith

module _ (state : State) (by_id : Dict String DailyStep) (dates : DailyEffectiveDates)
    (run : String) where
  unfoldable pub dependency_policy : Dependency → StateKeyPolicy
  unfolding step_policy
  dependency_policy (detailed d) = elim d.state_key_policy [
    | some p ↦ p
    | none ↦ step_policy (lookup d.step_id by_id)
  ]
  dependency_policy (plain id) = step_policy (lookup id by_id)

  -- The status and the readable state key of `_resolved_dependency_status`.
  unfoldable pub dependency_status : Dependency → Status
  unfolding dependency_policy
  dependency_status d =
      row_status (step_row_for_policy state (dependency_step_id d) (dependency_policy d) dates run)

  dependency_key : Dependency → StateKey
  unfolding dependency_policy
  dependency_key d = state_key_for_policy (dependency_policy d) dates run

  unfoldable pub blocks : Dependency → Bool
  unfolding is_soft
  blocks d =
      (failed_dependency (dependency_status d) || not (satisfied_dependency (dependency_status d)))
      && not (is_soft d)

  -- `_blocked_dependencies`
  unfoldable pub blocked_dependencies : List Dependency → List String
  blocked_dependencies [] = []
  blocked_dependencies (d ∷ ds) =
      let rest = blocked_dependencies ds in if blocks d then dependency_step_id d ∷ rest else rest

  -- `_upstream_degraded_success_reason`
  unfoldable pub upstream_degraded_success_reason : List Dependency → Option Reason
  unfolding is_success_degraded
  upstream_degraded_success_reason [] = none
  upstream_degraded_success_reason (d ∷ ds) =
      let rest = upstream_degraded_success_reason ds in
      if is_success_degraded (dependency_status d)
      then some (upstream_degraded (dependency_step_id d))
      else rest

  -- The variables of the loop over the soft dependencies in `run_daily_update`.
  pub record Degrading : Type 0 where
    pub effective_step : DailyStep
    pub degraded_success_reason : Option Reason
    pub blocked_reason : Option Reason

  or_reason : Option Reason → Reason → Option Reason
  or_reason none r = some r
  or_reason (some q) r = some q

  -- What `_degraded_build_derived_step_for_akshare_daily_bar` gives for the dependency decides.
  weigh_as : Degraded → String → Status → StateKey → Degrading → Degrading
  unfolding or_reason
  weigh_as blocked_target id status key v = record v {
    blocked_reason = some (cannot_build_daily_bar id status key);
  }
  weigh_as (runs_instead other) id status key v = record v {
    effective_step = other;
    degraded_success_reason = some (excluded_daily_bar id status key);
  }
  weigh_as not_affected id status key v = record v {
    degraded_success_reason = or_reason v.degraded_success_reason (soft_dependency id status key);
  }

  -- One pass of the loop on a soft dependency that is not satisfied.
  weigh : DailyStep → Dependency → Degrading → Degrading
  unfolding weigh_as dependency_key
  weigh step d v =
      weigh_as (degraded_build_derived_step step (dependency_step_id d)) (dependency_step_id d)
        (dependency_status d) (dependency_key d) v

  -- The test at the head of the loop: a plain text is never soft.
  unfoldable pub degrades : Dependency → Bool
  unfolding is_soft
  degrades d = is_soft d && not (satisfied_dependency (dependency_status d))

  unfoldable pub soft_dependencies : DailyStep → List Dependency → Degrading → Degrading
  unfolding weigh degrades
  soft_dependencies step [] v = v
  soft_dependencies step (d ∷ ds) v =
      soft_dependencies step ds (if degrades d then weigh step d v else v)

  -- A dependency that has to be satisfied is.
  abbrev pub Met : Dependency → Type 0
  Met d = is_soft d ≡ false → satisfied_dependency (dependency_status d) ≡ true

  blocks-false_iff : (d : Dependency) → (blocks d ≡ false) ↔ Met d
  unfolding blocks is_soft
  blocks-false_iff d = (
    λ h e. not_blocked (dependency_status d) (is_soft d) h e,
    λ met. met_not_blocked (dependency_status d) (is_soft d) met,
  )

  -- A step is blocked by no dependency exactly when each one that is not soft has a status in the
  -- set of satisfied ones.
  pub blocked_dependencies-nil_iff :
      (ds : List Dependency) → (blocked_dependencies ds ≡ []) ↔ All Met ds
  unfolding blocked_dependencies
  blocked_dependencies-nil_iff [] = (λ _. tt, λ _. refl)
  blocked_dependencies-nil_iff (d ∷ ds) = elim (Bool-cases (blocks d)) [
    | inl e ↦ rw e (λ h. cc, λ h. cc ((blocks-false_iff d).1 h.0))
    | inr e ↦ rw e (
      λ h. ((blocks-false_iff d).0 e, (blocked_dependencies-nil_iff ds).0 h),
      λ h. (blocked_dependencies-nil_iff ds).1 h.1,
    )
  ]
