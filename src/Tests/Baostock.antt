-- ===== src/Tests/Baostock.antt =====
-- Tests of the prefilter: one target, and two codes of which the first is done.
use quant_data_center_cn.Prelude.{
  ==_iff, pair_eq, string_eq, ◌≡◌, ◌↔◌, refl, ℕ, String, some, List, [], ◌∷◌, Bool, true, false, In,
  here, In-cons_cases, inl, inr,
}
use quant_data_center_cn.Prelude.Dict.{lookup}
use quant_data_center_cn.Pipeline.Checkpoints.{
  PipelineCheckpointLookup, PipelineKey, pipeline_checkpoint_succeeded, is_success_text,
}
use quant_data_center_cn.Baostock.Targets.{
  DailyTargetPlan, update_daily_key, daily_target_plans, prefilter_checkpointed_codes,
}
use quant_data_center_cn.Baostock.LeftOut.{IsDone, left_out_iff, plan_succeeded}

abbrev path : String → String → String × String
path dataset code = (dataset, code)

abbrev always : String × String → Bool
always p = true

abbrev at_noon : String → ℕ
at_noon dataset = 12

abbrev the_key : PipelineKey
the_key = update_daily_key "bars" "sh.600000" "2026-06-11" "2026-06-12"

abbrev index : PipelineCheckpointLookup
index = record { pipeline_status = (the_key, "success") ∷ []; date_status = [] }

abbrev two_codes : List String
two_codes = "sh.600000" ∷ "sz.000001" ∷ []

abbrev the_plan : DailyTargetPlan (String × String)
the_plan = record {
  dataset = "bars";
  code = "sh.600000";
  checkpoint_start_date = "2026-06-11";
  end_date = "2026-06-12";
  output_path = ("bars", "sh.600000");
  start_time = 12;
}

the_key-succeeded : pipeline_checkpoint_succeeded index the_key true ≡ true
unfolding pipeline_checkpoint_succeeded lookup is_success_text string_eq
the_key-succeeded = rw ((==_iff the_key the_key).1 refl) refl

abbrev plans : List (DailyTargetPlan (String × String))
plans = daily_target_plans path at_noon ("bars" ∷ []) "sh.600000" "daily" "2026-06-11" "2026-06-12"

plans_one : plans ≡ the_plan ∷ []
unfolding daily_target_plans string_eq
plans_one = refl

each_plan :
    (plan : DailyTargetPlan (String × String))
    → In plan plans
    → plan_succeeded path always index plan ≡ true
each_plan plan i = elim (In-cons_cases (rw plans_one at i)) [
  | inl same ↦ rw same the_key-succeeded
  | inr j ↦ elim j [ ]
]

first-IsDone :
    IsDone path always index at_noon "sh.600000" "daily" "2026-06-11" "2026-06-12" false
      ("bars" ∷ [])
first-IsDone = (refl, (λ e. cc), each_plan)

abbrev left : List String
left =
    prefilter_checkpointed_codes path always two_codes ("bars" ∷ []) false "daily" "2026-06-11"
      "2026-06-12" (some index)

left_out_iff_example :
    ¬ In "sh.600000" left
    ↔ IsDone path always index at_noon "sh.600000" "daily" "2026-06-11" "2026-06-12" false
        ("bars" ∷ [])
left_out_iff_example =
    left_out_iff path always index at_noon "sh.600000" "daily" "2026-06-11" "2026-06-12" false
      ("bars" ∷ []) two_codes here

-- The first code is left out.
first_left_out : ¬ In "sh.600000" left
first_left_out =
    (left_out_iff path always index at_noon "sh.600000" "daily" "2026-06-11" "2026-06-12" false
        ("bars" ∷ []) two_codes here).1
      first-IsDone
