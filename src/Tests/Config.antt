-- ===== src/Tests/Config.antt =====
-- Tests of the workflow configuration: two steps, of which the second depends on the first and on a step
-- that no configuration has.
use quant_data_center_cn.Prelude.{
  ◌≡◌, refl, String, none, some, List, [], ◌∷◌, false, ok, All, string_eq, map,
}
use quant_data_center_cn.Daily.Types.{
  DailyStep, DailyDependency, detailed, daily, natural_date, skip_if_success, natural_daily,
  dependency_step_id,
}
use quant_data_center_cn.Daily.Dates.{schedule_policy_matches}
use quant_data_center_cn.Prelude.Text.{strip}
use quant_data_center_cn.Daily.Config.{
  Value, text, list, mapping, Values, no_values, value_then, Fields, no_fields, field_then,
  Language, get, get_or, truth, required_string, string_field, optional_timeout, allowed_value,
  enum_value, dependency_item, dependencies, render_text, render_command, command_items, not_empty,
  string_list,
}
use quant_data_center_cn.Daily.Config.Steps.{
  steps_from_workflow_config, loaded_steps, steps_from, step_of, enabled_step, if_scheduled,
  cons_some, daily_step_from_config, schedule_policy_of, step_matches, with_known_dependencies,
  step_ids,
}
use quant_data_center_cn.Daily.Config.Closed.{Closed, loaded-Closed}
use quant_data_center_cn.Daily.Config.WellFormed.{IsSound, loaded-IsSound}
use quant_data_center_cn.Tests.Workflow.{on_friday}

text_of : Value → String
text_of (text s) = s
text_of _ = ""

abbrev python : Language
python = record {
  str = text_of;
  int_of = λ s. none;
  format = λ s. some s;
  normalized = λ s. s;
  qdc = "python" ∷ "-m" ∷ "src.cli" ∷ [];
}

abbrev step_of_config : String → Values → Fields
step_of_config id needs = field_then "id" (text id) (
    field_then "command" (list (value_then (text "{qdc}") no_values))
      (field_then "depends_on" (list needs) no_fields))

abbrev config : Fields
config =
    field_then "steps"
      (list (
        value_then (mapping (step_of_config "basic" no_values)) (
          value_then
            (mapping (
              step_of_config " derived "
                (value_then (text "basic") (value_then (text "gone") no_values))))
            no_values)))
      no_fields

abbrev made : String → List DailyDependency → DailyStep
made id needs = record {
  id = id;
  name = id;
  command = "python" ∷ "-m" ∷ "src.cli" ∷ [];
  optional = false;
  timeout_seconds = none;
  depends_on = map detailed needs;
  schedule_policy = daily;
  state_key_policy = natural_date;
  resume_policy = skip_if_success;
  data_freshness_policy = natural_daily;
  network_profile = "direct";
}

abbrev loaded : List DailyStep
loaded =
    made "basic" []
    ∷ made "derived" (record { step_id = "basic"; state_key_policy = none; soft = false } ∷ [])
    ∷ []

config_loads : steps_from_workflow_config python on_friday config ≡ ok loaded
unfolding steps_from_workflow_config loaded_steps steps_from step_of enabled_step if_scheduled
    cons_some daily_step_from_config schedule_policy_of step_matches with_known_dependencies get
    get_or truth required_string string_field optional_timeout allowed_value enum_value
    dependency_item dependencies render_text render_command command_items not_empty string_list
    strip string_eq schedule_policy_matches text_of dependency_step_id
config_loads = refl

loaded-Closed_example : All (Closed (step_ids loaded)) loaded
loaded-Closed_example = loaded-Closed python on_friday config loaded config_loads

loaded-IsSound_example : All (IsSound python on_friday) loaded
loaded-IsSound_example = loaded-IsSound python on_friday config loaded config_loads
