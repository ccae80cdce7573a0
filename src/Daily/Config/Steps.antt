-- ===== src/Daily/Config/Steps.antt =====
-- src/tools/run_update_daily.py: the daily steps that the workflow configuration describes.
use quant_data_center_cn.Prelude.{
  ℕ, suc, String, Option, none, some, List, [], ◌∷◌, Bool, true, false, not, if◌then◌else◌,
  string_eq, map, contains, select, Result, ok, err, ◌>>=◌,
}
use quant_data_center_cn.Daily.Types.{
  SchedulePolicy, daily, market_window, legacy_when, natural_date, ResumePolicy, skip_if_success,
  always_run, DataFreshnessPolicy, market_session, natural_daily, disclosure_calendar, maintenance,
  DailyEffectiveDates, detailed, DailyStep, dependency_step_id,
}
use quant_data_center_cn.Daily.Dates.{schedule_policy_matches}
use quant_data_center_cn.Daily.Config.{
  Value, text, boolean, null, list, mapping, Values, no_values, value_then, Fields, get, get_or,
  truth, Language, ConfigError, steps_missing, step_not_mapping, required_string, optional_timeout,
  enum_value, state_key_policies, dependencies, string_list, render_text, render_command,
}

abbrev pub schedule_policies : List (String × SchedulePolicy)
schedule_policies =
    ("daily", daily) ∷ ("market_window", market_window) ∷ ("legacy_when", legacy_when) ∷ []

abbrev pub resume_policies : List (String × ResumePolicy)
resume_policies = ("skip_if_success", skip_if_success) ∷ ("always_run", always_run) ∷ []

abbrev pub data_freshness_policies : List (String × DataFreshnessPolicy)
data_freshness_policies =
    ("market_session", market_session)
    ∷ ("natural_daily", natural_daily)
    ∷ ("disclosure_calendar", disclosure_calendar)
    ∷ ("maintenance", maintenance)
    ∷ []

-- NETWORK_PROFILES of src/utils/network_policy.py
abbrev pub network_profiles : List (String × String)
network_profiles = ("direct", "direct") ∷ ("inherit", "inherit") ∷ []

has : String → Fields → Bool
unfolding get
has field fields = elim (get field fields) [ none ↦ false | some v ↦ true ]

unfoldable pub schedule_policy_of : Fields → Result ConfigError SchedulePolicy
unfolding has
schedule_policy_of raw_step =
    enum_value raw_step "schedule_policy" (if has "when" raw_step then legacy_when else daily)
      schedule_policies

-- `_schedule_policy_matches` on the value under "when": only the policy legacy_when reads it.
unfoldable pub step_matches :
    Language → SchedulePolicy → Value → DailyEffectiveDates → Result ConfigError Bool
step_matches l legacy_when rules dates =
    string_list rules >>= λ texts. ok (schedule_policy_matches l.normalized legacy_when texts dates)
step_matches l policy rules dates = ok (schedule_policy_matches l.normalized policy [] dates)

-- `_daily_step_from_config`
unfoldable pub daily_step_from_config : Language → Fields → Result ConfigError DailyStep
daily_step_from_config l raw_step = do
  step_id ← required_string raw_step "id"
  step_name ← render_text l (l.str (get_or "name" (text step_id) raw_step))
  step_command ← render_command l (get "command" raw_step)
  timeout ← optional_timeout l (get_or "timeout_seconds" null raw_step)
  needs ← dependencies (get_or "depends_on" (list no_values) raw_step)
  schedule ← schedule_policy_of raw_step
  state_key ← enum_value raw_step "state_key_policy" natural_date state_key_policies
  resume ← enum_value raw_step "resume_policy" skip_if_success resume_policies
  freshness ← enum_value raw_step "data_freshness_policy" natural_daily data_freshness_policies
  network ← enum_value raw_step "network_profile" "direct" network_profiles
  ok (record {
    id = step_id;
    name = step_name;
    command = step_command;
    optional = truth (get_or "optional" (boolean false) raw_step);
    timeout_seconds = timeout;
    depends_on = map detailed needs;
    schedule_policy = schedule;
    state_key_policy = state_key;
    resume_policy = resume;
    data_freshness_policy = freshness;
    network_profile = network;
  })

unfoldable pub if_scheduled : Language → Fields → Bool → Result ConfigError (Option DailyStep)
if_scheduled l raw_step true = daily_step_from_config l raw_step >>= λ step. ok (some step)
if_scheduled l raw_step false = ok none

-- A step that is enabled: none where it is not scheduled today.
unfoldable pub enabled_step :
    Language → DailyEffectiveDates → Fields → Result ConfigError (Option DailyStep)
enabled_step l dates raw_step = do
  policy ← schedule_policy_of raw_step
  scheduled ←
      step_matches l policy (get_or "when" (list (value_then (text "all") no_values)) raw_step)
        dates
  if_scheduled l raw_step scheduled

-- One pass of the loop on a mapping.
unfoldable pub step_of :
    Language → DailyEffectiveDates → Fields → Result ConfigError (Option DailyStep)
step_of l dates raw_step =
    if not (truth (get_or "enabled" (boolean true) raw_step))
    then ok none
    else enabled_step l dates raw_step

unfoldable pub cons_some : Option DailyStep → List DailyStep → List DailyStep
cons_some none steps = steps
cons_some (some step) steps = step ∷ steps

-- The loop over the list, from an index on.
unfoldable pub steps_from :
    Language → DailyEffectiveDates → ℕ → Values → Result ConfigError (List DailyStep)
unfolding cons_some
steps_from l dates index no_values = ok []
steps_from l dates index (value_then (mapping raw_step) rest) = step_of l dates raw_step >>= λ step.
    steps_from l dates (suc index) rest >>= λ steps. ok (cons_some step steps)
steps_from l dates index (value_then _ rest) = err (step_not_mapping index)

-- The dependencies that are steps of this run stay.
unfoldable pub with_known_dependencies : List String → DailyStep → DailyStep
with_known_dependencies step_ids step = record step {
  depends_on = select (λ d. contains step_ids (dependency_step_id d)) step.depends_on;
}

abbrev pub step_ids : List DailyStep → List String
step_ids steps = map (λ (step : DailyStep). step.id) steps

unfoldable pub loaded_steps :
    Language → DailyEffectiveDates → Option Value → Result ConfigError (List DailyStep)
loaded_steps l dates (some (list raw_steps)) = steps_from l dates 0 raw_steps >>= λ steps.
    ok (map (with_known_dependencies (step_ids steps)) steps)
loaded_steps l dates _ = err steps_missing

-- `_steps_from_workflow_config`
unfoldable pub steps_from_workflow_config :
    Language → DailyEffectiveDates → Fields → Result ConfigError (List DailyStep)
unfolding loaded_steps
steps_from_workflow_config l dates config = loaded_steps l dates (get "steps" config)
