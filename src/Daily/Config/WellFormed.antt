-- ===== src/Daily/Config/WellFormed.antt =====
-- What a workflow configuration that loads is held to, step by step.
use quant_data_center_cn.Prelude.{
  ℕ, suc, ◌≡◌, ◌≢◌, refl, sym, ap, ◌∙◌, String, Option, none, some, List, [], ◌∷◌, Bool, true,
  false, not, string_eq, map, ok, >>=-eq-ok, All, ok-injective, Bool-cases, inl, inr, subst,
}
use quant_data_center_cn.Daily.Types.{
  DailyStep, natural_date, skip_if_success, natural_daily, legacy_when, daily, market_window,
  SchedulePolicy, legacy_when, DailyEffectiveDates,
}
use quant_data_center_cn.Daily.Dates.{schedule_policy_matches}
use quant_data_center_cn.Daily.Config.{
  Value, null, boolean, integer, other, text, list, Values, no_values, value_then, mapping, Fields,
  get, Language, required_string, optional_timeout, get_or, render_text, dependencies, enum_value,
  state_key_policies, truth, render_command,
}
use quant_data_center_cn.Daily.Config.Readers.{
  required_string-named, optional_timeout-limited, render_command-commanded,
}
use quant_data_center_cn.Daily.Config.Steps.{
  daily_step_from_config, step_of, steps_from, with_known_dependencies, step_ids,
  steps_from_workflow_config, resume_policies, data_freshness_policies, network_profiles,
  schedule_policy_of, step_matches, if_scheduled, enabled_step, cons_some,
}
use quant_data_center_cn.Daily.Config.Closed.{loaded_steps-read}

-- A step has a name that is not empty, a command, no time limit of 0, and, unless its policy is
-- legacy_when, a schedule policy that the dates match.
pub record IsSound (l : Language) (dates : DailyEffectiveDates) (step : DailyStep) : Type 0 where
  pub named : step.id ≢ ""
  pub commanded : step.command ≢ []
  pub limited : step.timeout_seconds ≢ some 0
  pub scheduled :
      step.schedule_policy ≢ legacy_when
      → schedule_policy_matches l.normalized step.schedule_policy [] dates ≡ true

-- The readers that a step came from.
record ReadAs (l : Language) (raw_step : Fields) (step : DailyStep) : Type 0 where
  id_read : required_string raw_step "id" ≡ ok step.id
  command_read : render_command l (get "command" raw_step) ≡ ok step.command
  timeout_read :
      optional_timeout l (get_or "timeout_seconds" null raw_step) ≡ ok step.timeout_seconds
  schedule_read : schedule_policy_of raw_step ≡ ok step.schedule_policy

daily_step-ReadAs :
    (l : Language) (raw_step : Fields) (step : DailyStep)
    → daily_step_from_config l raw_step ≡ ok step
    → ReadAs l raw_step step
unfolding daily_step_from_config
daily_step-ReadAs l raw_step step h =
    let (id, id_read, h1) = >>=-eq-ok (required_string raw_step "id") _ h in
    let (_, _, h2) = >>=-eq-ok (render_text l (l.str (get_or "name" (text id) raw_step))) _ h1 in
    let (command, command_read, h3) = >>=-eq-ok (render_command l (get "command" raw_step)) _ h2 in
    let (timeout, timeout_read, h4) =
      >>=-eq-ok (optional_timeout l (get_or "timeout_seconds" null raw_step)) _ h3 in
    let (_, _, h5) =
      >>=-eq-ok (dependencies (get_or "depends_on" (list no_values) raw_step)) _ h4 in
    let (policy, schedule_read, h6) = >>=-eq-ok (schedule_policy_of raw_step) _ h5 in
    let (_, _, h7) =
      >>=-eq-ok (enum_value raw_step "state_key_policy" natural_date state_key_policies) _ h6 in
    let (_, _, h8) =
      >>=-eq-ok (enum_value raw_step "resume_policy" skip_if_success resume_policies) _ h7 in
    let (_, _, h9) =
      >>=-eq-ok (enum_value raw_step "data_freshness_policy" natural_daily data_freshness_policies)
        _ h8 in
    let (_, _, h10) =
      >>=-eq-ok (enum_value raw_step "network_profile" "direct" network_profiles) _ h9 in
    subst (ReadAs l raw_step) (ok-injective h10) (record {
      id_read = id_read;
      command_read = command_read;
      timeout_read = timeout_read;
      schedule_read = schedule_read;
    })

matched :
    (l : Language) (policy : SchedulePolicy) (rules : Value) (dates : DailyEffectiveDates)
    → step_matches l policy rules dates ≡ ok true
    → policy ≢ legacy_when
    → schedule_policy_matches l.normalized policy [] dates ≡ true
unfolding step_matches
matched l legacy_when rules dates h n = absurd (n refl)
matched l daily rules dates h n = ok-injective h
matched l market_window rules dates h n = ok-injective h

some-injective : {a b : DailyStep} → some a ≡ some b → a ≡ b
some-injective h = cc

scheduled-IsSound :
    (l : Language) (dates : DailyEffectiveDates) (raw_step : Fields) (policy : SchedulePolicy)
    (rules : Value) (scheduled : Bool) (step : DailyStep)
    → schedule_policy_of raw_step ≡ ok policy
    → step_matches l policy rules dates ≡ ok scheduled
    → if_scheduled l raw_step scheduled ≡ ok (some step)
    → IsSound l dates step
unfolding if_scheduled
scheduled-IsSound l dates raw_step policy rules false step p m h =
    let k : none ≡ some step = ok-injective h in cc
scheduled-IsSound l dates raw_step policy rules true step p m h =
    let (read, d, k) = >>=-eq-ok (daily_step_from_config l raw_step) _ h in
    let e : read ≡ step = some-injective (ok-injective k) in
    let r = daily_step-ReadAs l raw_step step (d ∙ ap ok e) in
    let same : policy ≡ step.schedule_policy = ok-injective (sym p ∙ r.schedule_read) in
    record {
      named =
          required_string-named (get "id" raw_step) "id" step.id
            (unfold required_string in r.id_read);
      commanded = render_command-commanded l _ step.command r.command_read;
      limited = optional_timeout-limited l _ step.timeout_seconds r.timeout_read;
      scheduled = λ n. matched l step.schedule_policy rules dates (rw (sym same) m) n;
    }

enabled_step-IsSound :
    (l : Language) (dates : DailyEffectiveDates) (raw_step : Fields) (step : DailyStep)
    → enabled_step l dates raw_step ≡ ok (some step)
    → IsSound l dates step
unfolding enabled_step
enabled_step-IsSound l dates raw_step step h =
    let rules = get_or "when" (list (value_then (text "all") no_values)) raw_step in
    let (policy, p, k) = >>=-eq-ok (schedule_policy_of raw_step) _ h in
    let (scheduled, m, r) = >>=-eq-ok (step_matches l policy rules dates) _ k in
    scheduled-IsSound l dates raw_step policy rules scheduled step p m r

step_of-IsSound :
    (l : Language) (dates : DailyEffectiveDates) (raw_step : Fields) (step : DailyStep)
    → step_of l dates raw_step ≡ ok (some step)
    → IsSound l dates step
unfolding step_of
step_of-IsSound l dates raw_step step h =
    elim (Bool-cases (not (truth (get_or "enabled" (boolean true) raw_step)))) [
      | inl e ↦ let k : none ≡ some step = ok-injective (sym (rw (step_of, e) refl) ∙ h) in cc
      | inr e ↦ enabled_step-IsSound l dates raw_step step (sym (rw (step_of, e) refl) ∙ h)
    ]

All-cons_some :
    (l : Language) (dates : DailyEffectiveDates) (o : Option DailyStep) (steps : List DailyStep)
    → ((step : DailyStep) → o ≡ some step → IsSound l dates step)
    → All (IsSound l dates) steps
    → All (IsSound l dates) (cons_some o steps)
unfolding cons_some
All-cons_some l dates none steps f h = h
All-cons_some l dates (some step) steps f h = (f step refl, h)

steps_from-IsSound :
    (l : Language) (dates : DailyEffectiveDates) (index : ℕ) (raw : Values) (steps : List DailyStep)
    → steps_from l dates index raw ≡ ok steps
    → All (IsSound l dates) steps
unfolding steps_from
steps_from-IsSound l dates index no_values steps h = rw (sym (ok-injective h)) tt
steps_from-IsSound l dates index (value_then (mapping f) rest) steps h =
    let (o, a, k) = >>=-eq-ok (step_of l dates f) _ h in
    let (later, b, e) = >>=-eq-ok (steps_from l dates (suc index) rest) _ k in
    subst (All (IsSound l dates)) (ok-injective e) (
      All-cons_some l dates o later (λ step same. step_of-IsSound l dates f step (a ∙ ap ok same))
        (steps_from-IsSound l dates (suc index) rest later b))
steps_from-IsSound l dates index (value_then null rest) steps h = cc
steps_from-IsSound l dates index (value_then (boolean b) rest) steps h = cc
steps_from-IsSound l dates index (value_then (integer n) rest) steps h = cc
steps_from-IsSound l dates index (value_then (text s) rest) steps h = cc
steps_from-IsSound l dates index (value_then (other b) rest) steps h = cc
steps_from-IsSound l dates index (value_then (list vs) rest) steps h = cc

with_known-IsSound :
    (l : Language) (dates : DailyEffectiveDates) (ids : List String) (steps : List DailyStep)
    → All (IsSound l dates) steps
    → All (IsSound l dates) (map (with_known_dependencies ids) steps)
unfolding with_known_dependencies
with_known-IsSound l dates ids [] h = tt
with_known-IsSound l dates ids (step ∷ steps) h = (
  record {
    named = h.0.named;
    commanded = h.0.commanded;
    limited = h.0.limited;
    scheduled = h.0.scheduled;
  },
  with_known-IsSound l dates ids steps h.1,
)

-- In a workflow that loads, every step has an id that is not empty, a command, no time limit of 0,
-- and, unless its policy is legacy_when, a schedule policy that the dates match.
pub loaded-IsSound :
    (l : Language) (dates : DailyEffectiveDates) (config : Fields) (steps : List DailyStep)
    → steps_from_workflow_config l dates config ≡ ok steps
    → All (IsSound l dates) steps
unfolding steps_from_workflow_config
loaded-IsSound l dates config steps h =
    let (raw, read, r, k) = loaded_steps-read l dates (get "steps" config) steps h in
    subst (All (IsSound l dates)) k
      (with_known-IsSound l dates (step_ids read) read (steps_from-IsSound l dates 0 raw read r))
