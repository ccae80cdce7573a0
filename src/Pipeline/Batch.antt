-- ===== src/Pipeline/Batch.antt =====
-- src/pipeline/lifecycle.py: `PipelineMetadataBatch`. A flush takes the rows under the lock of the
-- batch, and writes them outside it, under a lock of the writers, while other threads go on adding:
-- `Step` has a constructor for each of these atomic parts. Whether the store takes the rows of a
-- flush is the store's answer. `add_alone` and `flush_alone` are the two methods with no other thread.
pub mod Conserved
pub mod Bound
use quant_data_center_cn.Prelude.{
  Eq, ℕ, String, Option, none, some, List, [], ◌∷◌, ◌++◌, Bool, true, false, if◌then◌else◌, ◌==◌,
  string_eq, pair_eq, not, ◌||◌, length, ltb, leb, eqb, ◌≡◌, ℤ, pos, negsuc, Result, ok, err,
}
use quant_data_center_cn.Pipeline.Rows.{RunRow, StatusRow, CheckpointRow, LifecycleRows}
use quant_data_center_cn.Pipeline.Dedupe.{dedupe_rows}

-- The three lists of rows, as the batch holds them and as the store gets them.
pub record Rows : Type 0 where
  pub run_rows : List RunRow
  pub status_rows : List StatusRow
  pub checkpoint_rows : List CheckpointRow

abbrev pub no_rows : Rows
no_rows = record { run_rows = []; status_rows = []; checkpoint_rows = [] }

abbrev pub joined : Rows → Rows → Rows
joined a b = record {
  run_rows = a.run_rows ++ b.run_rows;
  status_rows = a.status_rows ++ b.status_rows;
  checkpoint_rows = a.checkpoint_rows ++ b.checkpoint_rows;
}

pub data CountBy : Type 0 where
  run checkpoint : CountBy

pub record Batch : Type 0 where
  pub flush_size : ℕ
  pub count_by : CountBy
  pub rows : Rows

-- `max(int(flush_size), 1)`
unfoldable pub at_least_one : ℤ → ℕ
at_least_one (pos n) = if ltb n 1 then 1 else n
at_least_one (negsuc n) = 1

pub data BatchError : Type 0 where
  unsupported_counter : String → BatchError

-- `PipelineMetadataBatch(store, flush_size, count_by)`
unfoldable pub new_batch : ℤ → String → Result BatchError Batch
unfolding at_least_one
new_batch flush_size count_by =
    let batch : CountBy → Batch =
      λ by. record { flush_size = at_least_one flush_size; count_by = by; rows = no_rows } in
    if count_by == "run"
    then ok (batch run)
    else if count_by == "checkpoint"
    then ok (batch checkpoint)
    else err (unsupported_counter count_by)

unfoldable pub pending_count : Batch → ℕ
pending_count b = elim b.count_by [
  | run ↦ length b.rows.run_rows
  | checkpoint ↦ length b.rows.checkpoint_rows
]

abbrev pub listed {ℓ} : {A : Type ℓ} → Option A → List A
listed none = []
listed (some a) = a ∷ []

-- The rows of a call of `add`, each of which may be None.
pub record Added : Type 0 where
  pub run_row : Option RunRow
  pub status_row : Option StatusRow
  pub checkpoint : Option CheckpointRow

abbrev pub rows_of : Added → Rows
rows_of a = record {
  run_rows = listed a.run_row;
  status_rows = listed a.status_row;
  checkpoint_rows = listed a.checkpoint;
}

-- `PipelineLifecycle.add`
abbrev pub added_of : LifecycleRows → Added
added_of r = record {
  run_row = some r.run_row;
  status_row = r.status_row;
  checkpoint = r.checkpoint_row;
}

-- What `add` does under the lock, before it tests whether to flush.
unfoldable pub append : Batch → Added → Batch
append b a = record b { rows = joined b.rows (rows_of a) }

unfoldable pub should_flush : Batch → Bool
should_flush b = leb b.flush_size (pending_count b)

abbrev pub status_key : StatusRow → String × String
status_key r = (r.dataset, r.code)

abbrev pub CheckpointKey : Type 0
CheckpointKey = String × (String × (String × (String × String)))

abbrev pub checkpoint_key : CheckpointRow → CheckpointKey
checkpoint_key r = (r.pipeline, (r.dataset, (r.code, (r.start_date, r.end_date))))

unfoldable pub taken : Rows → Rows
taken r = record {
  run_rows = r.run_rows;
  status_rows = dedupe_rows status_key r.status_rows;
  checkpoint_rows = dedupe_rows checkpoint_key r.checkpoint_rows;
}

-- What `flush` does under the lock of the batch: none is its early return.
unfoldable pub take : Batch → Option (Rows × Batch)
unfolding taken
take b = if eqb (pending_count b) 0 then none else some (taken b.rows, record b { rows = no_rows })

-- What `flush` does when the store raises: the rows go back in front of the newer ones.
unfoldable pub put_back : Rows → Batch → Batch
put_back r b = record b { rows = joined r b.rows }

-- The batch, the rows of the flush that holds `_flush_write_lock`, and all that the store took.
pub record Shared : Type 0 where
  pub batch : Batch
  pub writing : Option Rows
  pub stored : Rows

abbrev pub nothing : Added
nothing = record { run_row = none; status_row = none; checkpoint = none }

-- One atomic part of a thread's call, with the rows that it adds.
pub data Step : Shared → Added → Shared → Type 0 where
  adds : (s : Shared) (a : Added) → Step s a (record s { batch = append s.batch a })
  takes :
      (s : Shared) (r : Rows) (b : Batch)
      → s.writing ≡ none
      → take s.batch ≡ some (r, b)
      → Step s nothing (record s { batch = b; writing = some r })
  stores :
      (s : Shared) (r : Rows)
      → s.writing ≡ some r
      → Step s nothing (record s { writing = none; stored = joined s.stored r })
  raises :
      (s : Shared) (r : Rows)
      → s.writing ≡ some r
      → Step s nothing (record s { writing = none; batch = put_back r s.batch })

-- Any run of threads over a new batch, with all the rows that it added, in order.
pub data Reached (b : Batch) : Rows → Shared → Type 0 where
  start :
      Reached b no_rows
        (record { batch = record b { rows = no_rows }; writing = none; stored = no_rows })
  then_step :
      {all : Rows} {s t : Shared} {a : Added}
      → Reached b all s
      → Step s a t
      → Reached b (joined all (rows_of a)) t

-- `flush` with no other thread: whether it raises, the batch that it leaves and all that was stored.
unfoldable pub flush_alone : Bool → Batch → Rows → Bool × Batch × Rows
unfolding take put_back
flush_alone works b stored = elim (take b) [
  | none ↦ (false, b, stored)
  | some (r, c) ↦ if works then (false, c, joined stored r) else (true, put_back r c, stored)
]

-- `add` with no other thread.
unfoldable pub add_alone : Bool → Added → Batch → Rows → Bool × Batch × Rows
unfolding append should_flush
add_alone works a b stored =
    let more = append b a in
    if should_flush more then flush_alone works more stored else (false, more, stored)
