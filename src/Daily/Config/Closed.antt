-- ===== src/Daily/Config/Closed.antt =====
-- The dependencies of a workflow that loads.
use quant_data_center_cn.Prelude.{
  ◌≡◌, refl, ap, String, Option, none, some, List, [], ◌∷◌, true, string_eq, map, contains, ok,
  >>=-eq-ok, All, All-select_holds, subst,
}
use quant_data_center_cn.Daily.Types.{DailyStep, dependency_step_id, DailyEffectiveDates}
use quant_data_center_cn.Daily.Config.{
  Value, null, boolean, integer, other, text, list, Values, mapping, Fields, get, Language,
}
use quant_data_center_cn.Daily.Config.Steps.{
  steps_from, with_known_dependencies, step_ids, loaded_steps, steps_from_workflow_config,
}

-- Each dependency of the step is one of the given steps.
abbrev pub Closed : List String → DailyStep → Type 0
Closed ids step = All (λ d. contains ids (dependency_step_id d) ≡ true) step.depends_on

step_ids-with_known :
    (ids : List String) (steps : List DailyStep)
    → step_ids (map (with_known_dependencies ids) steps) ≡ step_ids steps
unfolding with_known_dependencies
step_ids-with_known ids [] = refl
step_ids-with_known ids (step ∷ steps) = ap (◌∷◌ step.id) (step_ids-with_known ids steps)

with_known-Closed :
    (ids : List String) (steps : List DailyStep)
    → All (Closed ids) (map (with_known_dependencies ids) steps)
unfolding with_known_dependencies
with_known-Closed ids [] = tt
with_known-Closed ids (step ∷ steps) = (
  All-select_holds (λ d. contains ids (dependency_step_id d)) step.depends_on,
  with_known-Closed ids steps,
)

-- Loading succeeds only with a list of steps, and returns those that are read, less the unknown
-- dependencies.
pub loaded_steps-read :
    (l : Language) (dates : DailyEffectiveDates) (o : Option Value) (steps : List DailyStep)
    → loaded_steps l dates o ≡ ok steps
    → (raw : Values) × (read : List DailyStep) × (steps_from l dates 0 raw ≡ ok read)
      × (map (with_known_dependencies (step_ids read)) read ≡ steps)
unfolding loaded_steps
loaded_steps-read l dates (some (list raw)) steps h =
    let (read, r, k) = >>=-eq-ok (steps_from l dates 0 raw) _ h in (raw, read, r, cc)
loaded_steps-read l dates none steps h = cc
loaded_steps-read l dates (some null) steps h = cc
loaded_steps-read l dates (some (boolean b)) steps h = cc
loaded_steps-read l dates (some (integer n)) steps h = cc
loaded_steps-read l dates (some (text s)) steps h = cc
loaded_steps-read l dates (some (other b)) steps h = cc
loaded_steps-read l dates (some (mapping f)) steps h = cc

-- In a workflow that loads, every dependency of a step is a step of the workflow.
pub loaded-Closed :
    (l : Language) (dates : DailyEffectiveDates) (config : Fields) (steps : List DailyStep)
    → steps_from_workflow_config l dates config ≡ ok steps
    → All (Closed (step_ids steps)) steps
unfolding steps_from_workflow_config
loaded-Closed l dates config steps h =
    let (raw, read, r, k) = loaded_steps-read l dates (get "steps" config) steps h in
    subst (λ out. All (Closed (step_ids out)) out) k
      (rw (step_ids-with_known (step_ids read) read) (with_known-Closed (step_ids read) read))
