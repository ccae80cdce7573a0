-- ===== src/Pipeline/Checkpoints/Index.antt =====
-- What the index of the checkpoints holds under a key: the status of the last matching row.
use quant_data_center_cn.Prelude.{
  ◌≡◌, refl, ap, ◌∙◌, Option, none, some, String, List, [], ◌∷◌, Bool, true, false, ◌&&◌, ◌==◌,
  string_eq, pair_eq, pair-==, if◌then◌else◌, or_else, or_else-none, arith,
}
use quant_data_center_cn.Prelude.Dict.{Dict, lookup, lookup-insert}
use quant_data_center_cn.Pipeline.Checkpoints.{
  Checkpoint, Frames, na_first, DateKey, PipelineKey, PipelineCheckpointLookup, date_status_with,
  pipeline_status_with, indexed, index_rows, new_lookup, is_day, matches_date, matches_pipeline,
  is_success_row, is_success_text,
}
use quant_data_center_cn.Pipeline.Checkpoints.Newest.{last_match}

abbrev pub status_of : Option Checkpoint → Option String
status_of none = none
status_of (some r) = some r.status

pub is_success-status_of :
    (o : Option Checkpoint) → is_success_text (status_of o) ≡ is_success_row o
unfolding is_success_text
is_success-status_of none = refl
is_success-status_of (some r) = refl

status_of-cons :
    (o : Option Checkpoint) (b : Bool) (r : Checkpoint) (q : Option String)
    → or_else (status_of o) (if b then some r.status else q)
      ≡ or_else (status_of (or_else o (if b then some r else none))) q
unfolding or_else
status_of-cons none true r q = refl
status_of-cons none false r q = refl
status_of-cons (some a) b r q = refl

module _ (frames : Frames) where
  same_date_key :
      (key : DateKey) (r : Checkpoint) (e : String)
      → ◌==◌ {A = DateKey} key (r.pipeline, (r.dataset, (r.code, e))) ≡ (
          key.0 == r.pipeline
          && (key.1.0 == r.dataset && (key.1.1.0 == r.code && is_day frames (some e) key.1.1.1)))
  unfolding is_day
  same_date_key key r e =
      pair-== key (r.pipeline, (r.dataset, (r.code, e)))
      ∙ ap (λ b. key.0 == r.pipeline && b)
          (pair-== key.1 (r.dataset, (r.code, e))
            ∙ ap (λ b. key.1.0 == r.dataset && b) (pair-== key.1.1 (r.code, e)))

  and_none : (a b c : Bool) → (a && (b && (c && false))) ≡ false
  and_none a b c = ground arith

  and_false : (a : Bool) → (a && false) ≡ false
  and_false a = ground arith

  -- What a row adds under a key, by the time that its end date reads as.
  lookup-date_status_with :
      (key : DateKey) (d : Dict DateKey String) (r : Checkpoint)
      → lookup key (date_status_with frames d (frames.day r.end_date) r)
        ≡ (if matches_date frames key r then some r.status else lookup key d)
  unfolding matches_date
  lookup-date_status_with key d r = with_day (frames.day r.end_date)
    where
      with_day :
          (e : Option String)
          → lookup key (date_status_with frames d e r) ≡ (
              if key.0 == r.pipeline
                && (key.1.0 == r.dataset && (key.1.1.0 == r.code && is_day frames e key.1.1.1))
              then some r.status
              else lookup key d)
      with_day none =
          unfold date_status_with is_day in
          rw (and_none (key.0 == r.pipeline) (key.1.0 == r.dataset) (key.1.1.0 == r.code)) refl
      with_day (some e) =
          unfold date_status_with in
          (lookup-insert key (r.pipeline, (r.dataset, (r.code, e))) r.status d
            ∙ rw (same_date_key key r e) refl)

  lookup-indexed_date :
      (key : DateKey) (l : PipelineCheckpointLookup) (rows : List Checkpoint)
      → lookup key (index_rows frames l rows).date_status
        ≡ or_else (status_of (last_match (matches_date frames key) rows)) (lookup key l.date_status)
  unfolding index_rows indexed or_else
  lookup-indexed_date key l [] = refl
  lookup-indexed_date key l (r ∷ rows) =
      lookup-indexed_date key (indexed frames l r) rows
      ∙ ap (or_else (status_of (last_match (matches_date frames key) rows)))
          (lookup-date_status_with key l.date_status r)
      ∙ status_of-cons (last_match (matches_date frames key) rows) (matches_date frames key r) r _

  lookup-pipeline_status_with :
      (key : PipelineKey) (d : Dict PipelineKey String) (r : Checkpoint)
      → lookup key
          (pipeline_status_with frames d (frames.day r.start_date) (frames.day r.end_date) r)
        ≡ (if matches_pipeline frames key r then some r.status else lookup key d)
  unfolding matches_pipeline matches_date
  lookup-pipeline_status_with key d r = with_days (frames.day r.start_date) (frames.day r.end_date)
    where
      with_days :
          (s e : Option String)
          → lookup key (pipeline_status_with frames d s e r) ≡ (
              if is_day frames s key.0
                && (key.1.0 == r.pipeline
                    && (key.1.1.0 == r.dataset
                        && (key.1.1.1.0 == r.code && is_day frames e key.1.1.1.1)))
              then some r.status
              else lookup key d)
      with_days none e = unfold pipeline_status_with is_day in refl
      with_days (some s) none =
          unfold pipeline_status_with is_day in
          rw
            (
              and_none (key.1.0 == r.pipeline) (key.1.1.0 == r.dataset) (key.1.1.1.0 == r.code),
              and_false (key.0 == s),
            )
            refl
      with_days (some s) (some e) =
          unfold pipeline_status_with in
          (lookup-insert key (s, (r.pipeline, (r.dataset, (r.code, e)))) r.status d
            ∙ rw (pair-== key (s, (r.pipeline, (r.dataset, (r.code, e)))), same_date_key key.1 r e)
                (unfold is_day in refl))

  lookup-indexed_pipeline :
      (key : PipelineKey) (l : PipelineCheckpointLookup) (rows : List Checkpoint)
      → lookup key (index_rows frames l rows).pipeline_status
        ≡ or_else
            (status_of (last_match (matches_pipeline frames key) rows))
            (lookup key l.pipeline_status)
  unfolding index_rows indexed or_else
  lookup-indexed_pipeline key l [] = refl
  lookup-indexed_pipeline key l (r ∷ rows) =
      lookup-indexed_pipeline key (indexed frames l r) rows
      ∙ ap (or_else (status_of (last_match (matches_pipeline frames key) rows)))
          (lookup-pipeline_status_with key l.pipeline_status r)
      ∙ status_of-cons (last_match (matches_pipeline frames key) rows)
          (matches_pipeline frames key r) r _

  pub lookup-new_date :
      (key : DateKey) (rows : List Checkpoint)
      → lookup key (new_lookup frames rows).date_status
        ≡ status_of (last_match (matches_date frames key) (frames.sort_by_updated_at na_first rows))
  unfolding new_lookup lookup
  lookup-new_date key rows =
      lookup-indexed_date key (record { pipeline_status = []; date_status = [] }) _
      ∙ or_else-none (status_of _)

  pub lookup-new_pipeline :
      (key : PipelineKey) (rows : List Checkpoint)
      → lookup key (new_lookup frames rows).pipeline_status
        ≡ status_of
            (last_match (matches_pipeline frames key) (frames.sort_by_updated_at na_first rows))
  unfolding new_lookup lookup
  lookup-new_pipeline key rows =
      lookup-indexed_pipeline key (record { pipeline_status = []; date_status = [] }) _
      ∙ or_else-none (status_of _)
