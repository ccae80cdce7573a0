-- ===== src/Baostock/LeftOut.antt =====
-- Which codes the checkpoints leave out, and what a pass over one would do.
use quant_data_center_cn.Prelude.{
  ℕ, String, string_eq, some, List, [], ◌∷◌, Bool, true, false, ◌||◌, not, if◌then◌else◌, ◌≡◌, ◌↔◌,
  refl, sym, ◌∙◌, In, here, there, In-cons_cases, In-select, All-select_holds, All-In, Bool-cases,
  inl, inr,
}
use quant_data_center_cn.Pipeline.Checkpoints.{
  PipelineCheckpointLookup, pipeline_checkpoint_succeeded,
}
use quant_data_center_cn.Baostock.Targets.{
  full_history_start_date, adjustment_factor_dataset, update_daily_key, DailyTargetPlan,
  checkpoint_start, has_targets, daily_target_plans, checkpoint_lookup_succeeded, targets_succeeded,
  code_checkpoints_complete, prefilter_checkpointed_codes,
}

not-true : (b : Bool) → not b ≡ true → b ≡ false
not-true true h = sym h
not-true false h = refl

module _ {OutputPath : Type 0} (output_path : String → String → OutputPath)
    (exists : OutputPath → Bool) (l : PipelineCheckpointLookup) where
  -- The checkpoint of a plan, in the index.
  abbrev pub plan_succeeded : DailyTargetPlan OutputPath → Bool
  plan_succeeded plan =
      pipeline_checkpoint_succeeded l
        (update_daily_key plan.dataset plan.code plan.checkpoint_start_date plan.end_date)
        (exists plan.output_path)

  abbrev pub factor_succeeded : String → String → Bool
  factor_succeeded code end_date =
      pipeline_checkpoint_succeeded l
        (update_daily_key adjustment_factor_dataset code full_history_start_date end_date)
        (exists (output_path adjustment_factor_dataset code))

  module _ (now : String → ℕ) (code mode start_date end_date : String) where
    abbrev plans : List String → List (DailyTargetPlan OutputPath)
    plans targets = daily_target_plans output_path now targets code mode start_date end_date

    abbrev succeeded : List String → Bool
    succeeded targets =
        targets_succeeded output_path exists l code targets (checkpoint_start mode start_date)
          end_date

    succeeded-plan :
        (targets : List String)
        → succeeded targets ≡ true
        → (plan : DailyTargetPlan OutputPath) → In plan (plans targets)
        → plan_succeeded plan ≡ true
    unfolding daily_target_plans targets_succeeded checkpoint_lookup_succeeded
    succeeded-plan [] h plan i = elim i [ ]
    succeeded-plan (dataset ∷ targets) h plan i =
        elim (Bool-cases (
          checkpoint_lookup_succeeded output_path exists l dataset code
            (checkpoint_start mode start_date) end_date)) [
              | inl t ↦ elim (In-cons_cases i) [
                | inl same ↦ rw same t
                | inr j ↦ succeeded-plan targets (rw t at h) plan j
              ]
              | inr f ↦ let impossible : false ≡ true = sym (rw f refl) ∙ h in cc
            ]

    plan-succeeded :
        (targets : List String)
        → ((plan : DailyTargetPlan OutputPath)
            → In plan (plans targets)
            → plan_succeeded plan ≡ true)
        → succeeded targets ≡ true
    unfolding daily_target_plans targets_succeeded checkpoint_lookup_succeeded
    plan-succeeded [] h = refl
    plan-succeeded (dataset ∷ targets) h =
        rw (h _ here) (plan-succeeded targets (λ plan i. h plan (there i)))

    -- Some target is asked for, the checkpoint of the factors has succeeded if they are asked for, and so
    -- has the checkpoint of every plan.
    abbrev pub IsDone : Bool → List String → Type 0
    IsDone needs_factor targets =
        (needs_factor || has_targets targets ≡ true)
        × (needs_factor ≡ true → factor_succeeded code end_date ≡ true)
        × ((plan : DailyTargetPlan OutputPath)
            → In plan (plans targets)
            → plan_succeeded plan ≡ true)

    abbrev complete : Bool → List String → Bool
    complete needs_factor targets =
        code_checkpoints_complete output_path exists l code targets needs_factor mode start_date
          end_date

    IsDone-complete :
        (needs_factor : Bool) (targets : List String)
        → IsDone needs_factor targets
        → complete needs_factor targets ≡ true
    unfolding code_checkpoints_complete checkpoint_lookup_succeeded
    IsDone-complete true targets h = rw (h.1 refl, plan-succeeded targets h.2) refl
    IsDone-complete false targets h = rw (plan-succeeded targets h.2) h.0

    targets-IsDone :
        (needs_factor : Bool) (targets : List String)
        → (needs_factor ≡ true → factor_succeeded code end_date ≡ true)
        → (if not (succeeded targets) then false else needs_factor || has_targets targets) ≡ true
        → IsDone needs_factor targets
    targets-IsDone needs_factor targets f h = elim (Bool-cases (succeeded targets)) [
      | inl t ↦ (rw t at h, f, succeeded-plan targets t)
      | inr e ↦ let impossible : false ≡ true = sym (rw e refl) ∙ h in cc
    ]

    complete-IsDone :
        (needs_factor : Bool) (targets : List String)
        → complete needs_factor targets ≡ true
        → IsDone needs_factor targets
    unfolding code_checkpoints_complete checkpoint_lookup_succeeded
    complete-IsDone true targets h = elim (Bool-cases (factor_succeeded code end_date)) [
      | inl t ↦ targets-IsDone true targets (λ e. t) (rw t at h)
      | inr e ↦ let impossible : false ≡ true = sym (rw e refl) ∙ h in cc
    ]
    complete-IsDone false targets h = targets-IsDone false targets (λ e. cc) h

    abbrev left : Bool → List String → List String → List String
    left needs_factor targets codes =
        prefilter_checkpointed_codes output_path exists codes targets needs_factor mode start_date
          end_date (some l)

    -- The prefilter takes away a code of the list exactly if some target is asked for and, in the index,
    -- the checkpoint of the factors, where asked for, and that of every plan of the code have succeeded.
    pub left_out_iff :
        (needs_factor : Bool) (targets codes : List String)
        → In code codes
        → ¬ In code (left needs_factor targets codes) ↔ IsDone needs_factor targets
    unfolding prefilter_checkpointed_codes
    left_out_iff needs_factor targets codes i = (
      λ out. elim (Bool-cases (complete needs_factor targets)) [
        | inl t ↦ complete-IsDone needs_factor targets t
        | inr e ↦ absurd (out (In-select _ i (rw e refl)))
      ],
      λ done j.
          let kept : not (complete needs_factor targets) ≡ true =
            All-In
              (λ (c : String).
                not (
                  code_checkpoints_complete output_path exists l c targets needs_factor mode
                    start_date end_date)
                ≡ true)
              j (All-select_holds _ codes) in
          let t = IsDone-complete needs_factor targets done in
          let impossible : true ≡ false = sym t ∙ not-true _ kept in cc,
    )
