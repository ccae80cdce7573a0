-- ===== src/Baostock/Targets.antt =====
-- src/sources/baostock/update_daily_targets.py: the targets of a code, and the codes that the checkpoints
-- leave to do. `output_path` is `checkpoint_output_path` of a dataset and code, which does not read the
-- date and takes every dataset that is passed here; `exists` asks the file system.
use quant_data_center_cn.Prelude.{
  ℕ, String, string_eq, Option, none, some, List, [], ◌∷◌, Bool, true, false, ◌&&◌, ◌||◌, not,
  if◌then◌else◌, ◌==◌, select,
}
use quant_data_center_cn.Pipeline.Checkpoints.{
  PipelineCheckpointLookup, PipelineKey, pipeline_checkpoint_succeeded,
}

abbrev pub full_history_start_date : String
full_history_start_date = "1990-01-01"

abbrev pub adjustment_factor_dataset : String
adjustment_factor_dataset = "baostock_cn_stock_adjustment_factor"

-- The columns that identify a checkpoint of the pipeline `update_daily`.
abbrev pub update_daily_key : String → String → String → String → PipelineKey
update_daily_key dataset code start_date end_date =
    (start_date, ("update_daily", (dataset, (code, end_date))))

pub record DailyTargetPlan (OutputPath : Type 0) : Type 0 where
  pub dataset : String
  pub code : String
  pub checkpoint_start_date : String
  pub end_date : String
  pub output_path : OutputPath
  pub start_time : ℕ

abbrev pub checkpoint_start : String → String → String
checkpoint_start mode start_date = if mode == "full" then full_history_start_date else start_date

abbrev pub has_targets : List String → Bool
has_targets [] = false
has_targets (dataset ∷ daily_targets) = true

module _ {OutputPath : Type 0} (output_path : String → String → OutputPath) where
  -- `_daily_target_plans`; `now` is the clock as each plan is made.
  unfoldable pub daily_target_plans :
      (String → ℕ)
      → List String
      → String
      → String
      → String
      → String
      → List (DailyTargetPlan OutputPath)
  daily_target_plans now [] code mode start_date end_date = []
  daily_target_plans now (dataset ∷ daily_targets) code mode start_date end_date =
      record {
        dataset = dataset;
        code = code;
        checkpoint_start_date = checkpoint_start mode start_date;
        end_date = end_date;
        output_path = output_path dataset code;
        start_time = now dataset;
      }
      ∷ daily_target_plans now daily_targets code mode start_date end_date

  module _ (exists : OutputPath → Bool) where
    -- `_checkpoint_lookup_succeeded`
    unfoldable pub checkpoint_lookup_succeeded :
        PipelineCheckpointLookup → String → String → String → String → Bool
    checkpoint_lookup_succeeded checkpoint_lookup dataset code start_date end_date =
        pipeline_checkpoint_succeeded checkpoint_lookup
          (update_daily_key dataset code start_date end_date) (exists (output_path dataset code))

    -- The loop over the targets.
    unfoldable pub targets_succeeded :
        PipelineCheckpointLookup → String → List String → String → String → Bool
    targets_succeeded checkpoint_lookup code [] start_date end_date = true
    targets_succeeded checkpoint_lookup code (dataset ∷ daily_targets) start_date end_date =
        let rest = targets_succeeded checkpoint_lookup code daily_targets start_date end_date in
        if not (checkpoint_lookup_succeeded checkpoint_lookup dataset code start_date end_date)
        then false
        else rest

    -- `_code_checkpoints_complete`; `needs_factor` is `needs_baostock_cn_stock_adjustment_factor_api`.
    unfoldable pub code_checkpoints_complete :
        PipelineCheckpointLookup → String → List String → Bool → String → String → String → Bool
    code_checkpoints_complete checkpoint_lookup code daily_targets needs_factor mode start_date
          end_date =
        if needs_factor
          && not (
              checkpoint_lookup_succeeded checkpoint_lookup adjustment_factor_dataset code
                full_history_start_date end_date)
        then false
        else if not (
            targets_succeeded checkpoint_lookup code daily_targets
              (checkpoint_start mode start_date) end_date)
        then false
        else needs_factor || has_targets daily_targets

    -- `_prefilter_checkpointed_codes`
    unfoldable pub prefilter_checkpointed_codes :
        List String
        → List String
        → Bool
        → String
        → String
        → String
        → Option PipelineCheckpointLookup
        → List String
    prefilter_checkpointed_codes codes daily_targets needs_factor mode start_date end_date none =
        codes
    prefilter_checkpointed_codes codes daily_targets needs_factor mode start_date end_date
          (some l) =
        select
          (λ code.
            not (
              code_checkpoints_complete l code daily_targets needs_factor mode start_date end_date))
          codes
