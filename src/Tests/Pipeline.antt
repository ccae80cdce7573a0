-- ===== src/Tests/Pipeline.antt =====
-- Tests of the pipeline's metadata: two stock codes updated, one of them twice.
use quant_data_center_cn.Prelude.{
  ◌≡◌, ℕ, ◌<◌, refl, none, some, List, [], ◌∷◌, true, false, arith, String, string_eq, pair_eq, In,
  here, there,
}
use quant_data_center_cn.Prelude.SortBy.{sort_by, sort_by-SortOf}
use quant_data_center_cn.Pipeline.Rows.{
  LifecycleTaskRef, Moment, success_rows, failure_rows, StatusRow,
}
use quant_data_center_cn.Pipeline.Dedupe.{dedupe_rows, dedupe_rows-latest, DistinctKeys, latest}
use quant_data_center_cn.Pipeline.Batch.{
  Rows, no_rows, joined, Batch, Added, rows_of, added_of, append, status_key, take, taken, put_back,
  Shared, adds, takes, raises, start, then_step, nothing, run, add_alone, pending_count,
  flush_alone, should_flush,
}
use quant_data_center_cn.Pipeline.Batch.Conserved.{Reached-SameRows, SameRows, held}
use quant_data_center_cn.Pipeline.Batch.Bound.{add_alone-lt}
use quant_data_center_cn.Pipeline.Checkpoints.{
  Checkpoint, Frames, should_skip_checkpoint, new_lookup, PipelineKey,
}
use quant_data_center_cn.Pipeline.Checkpoints.Newest.{time}
use quant_data_center_cn.Pipeline.Checkpoints.Agree.{should_skip_checkpoint-agrees}

abbrev task : String → LifecycleTaskRef
task code = record {
  pipeline = "update_daily";
  dataset = "cn_stock_daily_bar";
  code = code;
  start_date = "2026-06-11";
  end_date = "2026-06-12";
  output_path = "data/bar";
  checkpoint_start_date = none;
}

abbrev moment : ℕ → Moment
moment t = record {
  task_id = "id";
  started_at = t;
  ended_at = t;
  status_time = t;
  checkpoint_time = t;
}

abbrev failed_first : Added
failed_first = added_of (failure_rows (task "000001") (moment 1) "no connection" none)

abbrev then_worked : Added
then_worked = added_of (success_rows (task "000001") (moment 2) 2 none none)

abbrev small_batch : Batch
small_batch = record { flush_size = 2; count_by = run; rows = no_rows }

abbrev s0 : Shared
s0 = record { batch = small_batch; writing = none; stored = no_rows }

abbrev s1 : Shared
s1 = record s0 { batch = append small_batch failed_first }

abbrev s2 : Shared
s2 = record s1 { batch = append s1.batch then_worked }

-- The flush takes two run rows, and one status row of the two with the same key.
abbrev rows_taken : Rows
rows_taken = taken s2.batch.rows

s2_takes : take s2.batch ≡ some (rows_taken, record small_batch { rows = no_rows })
unfolding take append pending_count
s2_takes = refl

abbrev s3 : Shared
s3 = record s2 { batch = record small_batch { rows = no_rows }; writing = some rows_taken }

-- The store refuses it, so that the rows go back.
abbrev s4 : Shared
s4 = record s3 { writing = none; batch = put_back rows_taken s3.batch }

abbrev all_added : Rows
all_added =
    joined
      (joined (joined (joined no_rows (rows_of failed_first)) (rows_of then_worked))
        (rows_of nothing))
      (rows_of nothing)

Reached-SameRows_example : SameRows (held s4) all_added
Reached-SameRows_example = Reached-SameRows small_batch all_added s4 (
    then_step
      (then_step (then_step (then_step start (adds s0 failed_first)) (adds s1 then_worked))
        (takes s2 rows_taken (record small_batch { rows = no_rows }) refl s2_takes))
      (raises s3 rows_taken refl))

abbrev two_statuses : List StatusRow
two_statuses = s2.batch.rows.status_rows

dedupe_rows-latest_example :
    DistinctKeys status_key (dedupe_rows status_key two_statuses)
    × ((k : String × String)
        → latest status_key k (dedupe_rows status_key two_statuses)
          ≡ latest status_key k two_statuses)
dedupe_rows-latest_example = dedupe_rows-latest status_key two_statuses

second_add_works : (add_alone true then_worked s1.batch no_rows).0 ≡ false
unfolding add_alone flush_alone should_flush take append pending_count
second_add_works = refl

add_alone-lt_example : pending_count (add_alone true then_worked s1.batch no_rows).1 < 2
unfolding append
add_alone-lt_example = add_alone-lt true then_worked s1.batch no_rows (omega arith) second_add_works

-- Dates in the ISO form, and a stable sort.
abbrev frames : Frames
frames = record { day = λ s. some s; sort_by_updated_at = λ na rows. sort_by time rows }

abbrev checkpoint_at : String → ℕ → Checkpoint
checkpoint_at status t = record {
  pipeline = "update_daily";
  dataset = "cn_stock_daily_bar";
  code = "000001";
  start_date = "2026-06-11";
  end_date = "2026-06-12";
  status = status;
  updated_at = some t;
}

abbrev both : List Checkpoint
both = checkpoint_at "success" 2 ∷ checkpoint_at "failed" 1 ∷ []

abbrev the_key : PipelineKey
the_key = ("2026-06-11", ("update_daily", ("cn_stock_daily_bar", ("000001", "2026-06-12"))))

same_time_same_row : (r q : Checkpoint) → In r both → In q both → time r ≡ time q → r ≡ q
same_time_same_row r q here here e = refl
same_time_same_row r q here (there here) e = absurd (omega (arith, e))
same_time_same_row r q here (there (there i)) e = elim i [ ]
same_time_same_row r q (there here) here e = absurd (omega (arith, e))
same_time_same_row r q (there here) (there (there i)) e = elim i [ ]
same_time_same_row r q (there (there i)) j e = elim i [ ]
same_time_same_row r q (there here) (there here) e = refl

should_skip_checkpoint-agrees_example :
    should_skip_checkpoint frames both the_key true true false (some (new_lookup frames both))
    ≡ should_skip_checkpoint frames both the_key true true false none
should_skip_checkpoint-agrees_example =
    should_skip_checkpoint-agrees frames (λ na rows timed. sort_by-SortOf time rows) both
      ((λ e. cc), ((λ e. cc), tt)) the_key true true false
      (λ r q i j t u. same_time_same_row r q i j)
