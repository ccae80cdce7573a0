-- ===== src/Pipeline/Checkpoints.antt =====
-- src/pipeline/common.py: `PipelineCheckpointLookup` and `should_skip_checkpoint`, with the store's own
-- two answers (src/storage/parquet_store.py). pandas reads the dates and sorts: `Frames` holds what the
-- code uses of it, and a path's `exists()` is asked of the file system.
pub mod Newest
pub mod Index
pub mod Agree
use quant_data_center_cn.Prelude.{
  ℕ, zero, suc, String, Option, none, some, List, [], ◌∷◌, Bool, true, false, ◌&&◌, ◌||◌, not,
  if◌then◌else◌, ◌==◌, string_eq, pair_eq, select,
}
use quant_data_center_cn.Prelude.Dict.{Dict, lookup, insert}

-- A row of the table pipeline_checkpoints, with the columns that the code reads; a NaT is none.
pub record Checkpoint : Type 0 where
  pub pipeline : String
  pub dataset : String
  pub code : String
  pub start_date : String
  pub end_date : String
  pub status : String
  pub updated_at : Option ℕ

pub data NaPosition : Type 0 where
  na_first na_last : NaPosition

-- `to_datetime(...).dt.strftime("%Y-%m-%d")` of a cell, and `sort_values` by `updated_at`.
pub record Frames : Type 0 where
  pub day : String → Option String
  pub sort_by_updated_at : NaPosition → List Checkpoint → List Checkpoint

abbrev pub DateKey : Type 0
DateKey = String × (String × (String × String))

abbrev pub PipelineKey : Type 0
PipelineKey = String × DateKey

-- `_pipeline_status` has the start date in front here; `_date_status` has none.
pub record PipelineCheckpointLookup : Type 0 where
  pub pipeline_status : Dict PipelineKey String
  pub date_status : Dict DateKey String

-- `.iloc[-1]`
abbrev pub last_row : List Checkpoint → Option Checkpoint
last_row [] = none
last_row (row ∷ []) = some row
last_row (row ∷ next ∷ rows) = last_row (next ∷ rows)

abbrev pub is_success_row : Option Checkpoint → Bool
is_success_row none = false
is_success_row (some row) = row.status == "success"

module _ (frames : Frames) where
  date_status_with : Dict DateKey String → Option String → Checkpoint → Dict DateKey String
  date_status_with d none row = d
  date_status_with d (some end_key) row =
      insert (row.pipeline, (row.dataset, (row.code, end_key))) row.status d

  pipeline_status_with :
      Dict PipelineKey String → Option String → Option String → Checkpoint → Dict PipelineKey String
  pipeline_status_with d (some start_key) (some end_key) row =
      insert (start_key, (row.pipeline, (row.dataset, (row.code, end_key)))) row.status d
  pipeline_status_with d _ _ row = d

  -- One pass of the loop over the sorted rows.
  indexed : PipelineCheckpointLookup → Checkpoint → PipelineCheckpointLookup
  unfolding date_status_with pipeline_status_with
  indexed l row = record {
    pipeline_status =
        pipeline_status_with l.pipeline_status (frames.day row.start_date) (frames.day row.end_date)
          row;
    date_status = date_status_with l.date_status (frames.day row.end_date) row;
  }

  unfoldable pub index_rows : PipelineCheckpointLookup → List Checkpoint → PipelineCheckpointLookup
  unfolding indexed
  index_rows l [] = l
  index_rows l (row ∷ rows) = index_rows (indexed l row) rows

  -- `PipelineCheckpointLookup(checkpoints)`
  unfoldable pub new_lookup : List Checkpoint → PipelineCheckpointLookup
  unfolding index_rows
  new_lookup checkpoints =
      index_rows (record { pipeline_status = []; date_status = [] })
        (frames.sort_by_updated_at na_first checkpoints)

  is_day : Option String → String → Bool
  is_day none date = false
  is_day (some d) date = date == d

  -- The masks of the store's two scans.
  unfoldable pub matches_date : DateKey → Checkpoint → Bool
  unfolding is_day
  matches_date (pipeline, (dataset, (code, end_date))) row =
      pipeline == row.pipeline
      && (dataset == row.dataset && (code == row.code && is_day (frames.day row.end_date) end_date))

  unfoldable pub matches_pipeline : PipelineKey → Checkpoint → Bool
  unfolding is_day
  matches_pipeline (start_date, key) row =
      is_day (frames.day row.start_date) start_date && matches_date key row

  -- The store's scan behind its two answers, of the rows that the mask keeps.
  unfoldable pub store_succeeded : List Checkpoint → (Checkpoint → Bool) → Bool → Bool
  store_succeeded checkpoints mask exists =
      if not exists
      then false
      else is_success_row (last_row (frames.sort_by_updated_at na_last (select mask checkpoints)))

unfoldable pub is_success_text : Option String → Bool
is_success_text none = false
is_success_text (some status) = status == "success"

unfoldable pub pipeline_checkpoint_succeeded : PipelineCheckpointLookup → PipelineKey → Bool → Bool
unfolding is_success_text
pipeline_checkpoint_succeeded l key exists =
    if not exists then false else is_success_text (lookup key l.pipeline_status)

unfoldable pub checkpoint_succeeded_for_date : PipelineCheckpointLookup → DateKey → Bool → Bool
unfolding is_success_text
checkpoint_succeeded_for_date l key exists =
    if not exists then false else is_success_text (lookup key l.date_status)

-- `should_skip_checkpoint`; `checkpoints` is what the store would read.
unfoldable pub should_skip_checkpoint :
    Frames
    → List Checkpoint
    → PipelineKey
    → Bool
    → Bool
    → Bool
    → Option PipelineCheckpointLookup
    → Bool
should_skip_checkpoint frames checkpoints (start_date, key) exists resume force (some l) =
    if force || not resume
    then false
    else if pipeline_checkpoint_succeeded l (start_date, key) exists
    then true
    else checkpoint_succeeded_for_date l key exists
should_skip_checkpoint frames checkpoints (start_date, key) exists resume force none =
    if force || not resume
    then false
    else if store_succeeded frames checkpoints (matches_pipeline frames (start_date, key)) exists
    then true
    else store_succeeded frames checkpoints (matches_date frames key) exists
