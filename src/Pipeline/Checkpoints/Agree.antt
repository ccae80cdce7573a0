-- ===== src/Pipeline/Checkpoints/Agree.antt =====
-- The index of the checkpoints answers as the store's own scans do.
use quant_data_center_cn.Prelude.{
  ◌≡◌, ◌≢◌, refl, ap, ◌∙◌, none, some, List, Bool, true, false, not, string_eq, pair_eq,
  if◌then◌else◌, In, All, All-intro, All-In, select, select-In, In-select, All-select_holds, arith,
}
use quant_data_center_cn.Prelude.SortBy.{SortOf}
use quant_data_center_cn.Pipeline.Checkpoints.{
  Checkpoint, Frames, NaPosition, na_first, na_last, DateKey, PipelineKey, new_lookup, matches_date,
  matches_pipeline, last_row, is_success_row, store_succeeded, is_success_text,
  pipeline_checkpoint_succeeded, checkpoint_succeeded_for_date, should_skip_checkpoint,
}
use quant_data_center_cn.Pipeline.Checkpoints.Newest.{
  time, last_match, Found, last_match-Found, Found-same, Found-unique, last_row-last_match,
}
use quant_data_center_cn.Pipeline.Checkpoints.Index.{
  is_success-status_of, lookup-new_date, lookup-new_pipeline,
}

module _ (frames : Frames) where
  -- What pandas documents of `sort_values`: the same rows, in the order of the times. No row may
  -- have a NaT, which the two calls put at different ends.
  abbrev pub Sorts : Type 0
  Sorts =
      (na : NaPosition) (rows : List Checkpoint)
      → All (λ r. r.updated_at ≢ none) rows
      → SortOf time rows (frames.sort_by_updated_at na rows)

  -- Rows of the mask have different times.
  abbrev pub TimesDiffer : (Checkpoint → Bool) → List Checkpoint → Type 0
  TimesDiffer mask rows =
      (r q : Checkpoint)
      → In r rows
      → In q rows
      → mask r ≡ true
      → mask q ≡ true
      → time r ≡ time q
      → r ≡ q

  module _ (sorts : Sorts) (rows : List Checkpoint)
      (timed : All (λ r. r.updated_at ≢ none) rows) where
    Found-by_index :
        (mask : Checkpoint → Bool)
        → Found mask rows (last_match mask (frames.sort_by_updated_at na_first rows))
    Found-by_index mask =
        let (same, up) = sorts na_first rows timed in
        Found-same mask rows (frames.sort_by_updated_at na_first rows) _ (λ r. (same r).0)
          (λ r i _. (same r).1 i) (last_match-Found mask _ up)

    Found-by_scan :
        (mask : Checkpoint → Bool)
        → Found mask rows (last_row (frames.sort_by_updated_at na_last (select mask rows)))
    Found-by_scan mask =
        let kept = select mask rows in
        let timed_kept =
          All-intro kept
            (λ r i. All-In (λ r. r.updated_at ≢ none) (select-In mask r rows i) timed) in
        let (same, up) = sorts na_last kept timed_kept in
        let all_kept =
          All-intro (frames.sort_by_updated_at na_last kept)
            (λ r i. All-In (λ q. mask q ≡ true) ((same r).0 i) (All-select_holds mask rows)) in
        rw (last_row-last_match mask _ all_kept) (
          Found-same mask rows (frames.sort_by_updated_at na_last kept) _
            (λ r i. select-In mask r rows ((same r).0 i)) (λ r i t. (same r).1 (In-select mask i t))
            (last_match-Found mask _ up))

    same_row :
        (mask : Checkpoint → Bool)
        → TimesDiffer mask rows
        → last_match mask (frames.sort_by_updated_at na_first rows)
          ≡ last_row (frames.sort_by_updated_at na_last (select mask rows))
    same_row mask differ =
        Found-unique mask rows _ _ differ (Found-by_index mask) (Found-by_scan mask)

    date_agrees :
        (key : DateKey) (exists : Bool)
        → TimesDiffer (matches_date frames key) rows
        → checkpoint_succeeded_for_date (new_lookup frames rows) key exists
          ≡ store_succeeded frames rows (matches_date frames key) exists
    unfolding checkpoint_succeeded_for_date store_succeeded
    date_agrees key exists differ =
        ap (λ b. if not exists then false else b)
          (ap is_success_text (lookup-new_date frames key rows)
            ∙ (is_success-status_of _
                ∙ ap is_success_row (same_row (matches_date frames key) differ)))

    pipeline_agrees :
        (key : PipelineKey) (exists : Bool)
        → TimesDiffer (matches_pipeline frames key) rows
        → pipeline_checkpoint_succeeded (new_lookup frames rows) key exists
          ≡ store_succeeded frames rows (matches_pipeline frames key) exists
    unfolding pipeline_checkpoint_succeeded store_succeeded
    pipeline_agrees key exists differ =
        ap (λ b. if not exists then false else b)
          (ap is_success_text (lookup-new_pipeline frames key rows)
            ∙ (is_success-status_of _
                ∙ ap is_success_row (same_row (matches_pipeline frames key) differ)))

    matches_date_of_pipeline :
        (key : PipelineKey) (r : Checkpoint)
        → matches_pipeline frames key r ≡ true
        → matches_date frames key.1 r ≡ true
    unfolding matches_pipeline
    matches_date_of_pipeline key r h = ground arith

    -- `should_skip_checkpoint` gives the same answer with the index of the checkpoints as with the
    -- store's scans, where no checkpoint lacks its time, and checkpoints of the same pipeline, dataset,
    -- code and end date have different times.
    pub should_skip_checkpoint-agrees :
        (key : PipelineKey) (exists resume force : Bool)
        → TimesDiffer (matches_date frames key.1) rows
        → should_skip_checkpoint frames rows key exists resume force (some (new_lookup frames rows))
          ≡ should_skip_checkpoint frames rows key exists resume force none
    unfolding should_skip_checkpoint
    should_skip_checkpoint-agrees key exists resume force differ =
        let narrow : TimesDiffer (matches_pipeline frames key) rows = λ r q i j t u.
          differ r q i j (matches_date_of_pipeline key r t) (matches_date_of_pipeline key q u) in
        rw (pipeline_agrees key exists narrow, date_agrees key.1 exists differ) refl
