-- ===== src/Baostock/Dispatch.antt =====
-- src/sources/baostock/update_daily.py: the main thread of `_update_daily_impl`, which fetches and submits
-- tasks to a pool of background threads, drains those that are done, and puts their records in the order
-- of submission. A future is known by its sequence number, which `future_sequences` gives, and keeps
-- its task. What the threads do is a parameter: `outcome` is what the task of a number returns,
-- `is_done` which futures a look at the pending ones finds done, `fetches` whether a call of the
-- provider works, and `reuses` whether the worker can read the stored factors of a code. Log lines are left out.
pub mod Futures
pub mod Drained
pub mod Log
pub mod Steps
pub mod Flushed
pub mod Draining
pub mod Whole
pub mod Complete
use quant_data_center_cn.Prelude.{
  ℕ, ℤ, pos, negsuc, zero, suc, ◌-◌, String, string_eq, nat_eq, Option, none, some, List, [], ◌∷◌,
  ◌++◌, Bool, true, false, ◌||◌, ◌&&◌, not, if◌then◌else◌, ◌==◌, length, leb, select,
}
use quant_data_center_cn.Prelude.Dict.{Dict, lookup, insert, remove}
use quant_data_center_cn.Prelude.SortBy.{sort_by}

pub record ApiFetchRequest : Type 0 where
  pub kind : String
  pub code : String
  pub start_date : String
  pub end_date : String
  pub datasets : List String
  pub reason : String

pub record BackgroundTaskResult (R : Type 0) : Type 0 where
  pub run_records : List R
  pub api_requests : List ApiFetchRequest

-- The calls that are submitted: for a code, whether the fetch of its factors or bars worked, and
-- the future of its factors that a daily task waits for.
pub data Task : Type 0 where
  factor_success factor_failure : String → Task
  daily_initial : String → Option ℕ → Bool → Task
  full_refetch : ApiFetchRequest → Bool → Task
  flush_metadata : Task

pub record Dispatcher (R : Type 0) : Type 0 where
  pub pending : List (ℕ × Task)
  pub completed_results : Dict ℕ (BackgroundTaskResult R)
  pub next_submit_sequence : ℕ
  pub next_record_sequence : ℕ
  pub run_records : List R
  -- How often the main thread has looked for futures that are done.
  pub looks : ℕ
  -- The codes for which the worker was told to use its stored factors.
  pub reused : List String

-- How a part of the main thread ends: it goes on, it raises, or its rounds are used up.
pub data Flow (R : Type 0) : Type 0 where
  ran raised stopped : Dispatcher R → Flow R

infixl 5 ◌>>=◌
abbrev pub ◌>>=◌ : {R : Type 0} → Flow R → (Dispatcher R → Flow R) → Flow R
ran d >>= next = next d
raised d >>= next = raised d
stopped d >>= next = stopped d

-- `try: ... except Exception: ...`
abbrev pub caught : {R : Type 0} → Flow R → (Dispatcher R → Flow R) → Flow R
caught (ran d) handler = ran d
caught (raised d) handler = handler d
caught (stopped d) handler = stopped d

abbrev pub Submit : Type 0 → Type 0
Submit R = Task → Dispatcher R → Flow R

-- `pending.remove(future)`, where it is.
unfoldable pub without : ℕ → List (ℕ × Task) → List (ℕ × Task)
without n [] = []
without n ((m, task) ∷ pending) = if n == m then pending else (m, task) ∷ without n pending

unfoldable pub is_pending : ℕ → List (ℕ × Task) → Bool
is_pending n [] = false
is_pending n ((m, task) ∷ pending) = n == m || is_pending n pending

module _ {R : Type 0} where
  -- `flush_ordered_run_records`: each round pops a result, so that there are no more rounds than results.
  unfoldable pub flush_rounds : ℕ → Dispatcher R → Dispatcher R
  flush_rounds zero d = d
  flush_rounds (suc rounds) d = elim (lookup d.next_record_sequence d.completed_results) [
    | none ↦ d
    | some result ↦ flush_rounds rounds (record d {
      completed_results = remove d.next_record_sequence d.completed_results;
      run_records = d.run_records ++ result.run_records;
      next_record_sequence = suc d.next_record_sequence;
    })
  ]

  unfoldable pub flush_ordered_run_records : Dispatcher R → Dispatcher R
  flush_ordered_run_records d = flush_rounds (length d.completed_results) d

  -- What `executor.submit` and the two statements behind it do.
  unfoldable pub put_in_flight : Task → Dispatcher R → Dispatcher R
  put_in_flight task d = record d {
    pending = (d.next_submit_sequence, task) ∷ d.pending;
    next_submit_sequence = suc d.next_submit_sequence;
  }

  module _ (fetches : ApiFetchRequest → Bool) (submit : Submit R) where
    -- `dispatch_api_request`: a fetch that raises, and a submit that does, are both handled.
    unfoldable pub dispatch_api_request : ApiFetchRequest → Dispatcher R → Flow R
    dispatch_api_request request d =
        if not (request.kind == "daily_bar_full_refetch")
        then raised d
        else caught (if fetches request then submit (full_refetch request true) d else raised d)
            (submit (full_refetch request false))

    unfoldable pub dispatch_all : List ApiFetchRequest → Dispatcher R → Flow R
    dispatch_all [] d = ran d
    dispatch_all (request ∷ requests) d = dispatch_api_request request d >>= dispatch_all requests

    module _ (outcome : ℕ → Task → BackgroundTaskResult R) where
      -- `pending.remove(future)` and `collect_completed`
      unfoldable pub collect_completed : ℕ × Task → Dispatcher R → Flow R
      collect_completed (n, task) d =
          if not (is_pending n d.pending)
          then raised d
          else dispatch_all (outcome n task).api_requests (record d {
            pending = without n d.pending;
            completed_results = insert n (outcome n task) d.completed_results;
          })
            >>= λ after. ran (flush_ordered_run_records after)

      unfoldable pub collect_all : List (ℕ × Task) → Dispatcher R → Flow R
      collect_all [] d = ran d
      collect_all (future ∷ done) d = collect_completed future d >>= collect_all done

      -- `drain_completed`: `wait` for the first one, or those for which `done()` holds.
      unfoldable pub drain_completed :
          (Bool → ℕ → List (ℕ × Task) → ℕ → Bool) → Bool → Dispatcher R → Flow R
      drain_completed is_done block d = elim d.pending [
        | [] ↦ ran d
        | _ ∷ _ ↦
            collect_all
              (sort_by (λ (future : ℕ × Task). future.0)
                (select (λ (future : ℕ × Task). is_done block d.looks d.pending future.0)
                  d.pending))
              (record d { looks = suc d.looks })
      ]

-- What the main thread cannot choose: the answers of the provider, and when the threads finish.
pub record World (R : Type 0) : Type 0 where
  pub fetches : ApiFetchRequest → Bool
  pub fetches_factors : String → Bool
  pub fetches_bars : String → Bool
  -- Whether `use_existing_baostock_cn_stock_adjustment_factor` returns; else its exception ends the run.
  pub reuses : String → Bool
  pub outcome : ℕ → Task → BackgroundTaskResult R
  -- Whether a look at some pending futures finds one done; a blocking look is a `wait` for the first of them.
  pub is_done : Bool → ℕ → List (ℕ × Task) → ℕ → Bool

-- `include_baostock_cn_stock_adjustment_factor`, whether there are daily targets, whether one of them
-- needs factors, `factor_checkpoint_is_current` of a code, and `background_max_pending`.
pub record Settings : Type 0 where
  pub include_factor : Bool
  pub has_daily_targets : Bool
  pub needs_factors : Bool
  pub factor_is_current : String → Bool
  pub max_pending : ℕ

-- `max(int(config.get("pipeline.background_max_pending", workers * 4)), 1)`
unfoldable pub background_max_pending : ℤ → ℕ
background_max_pending (pos n) = if leb n 1 then 1 else n
background_max_pending (negsuc n) = 1

module _ {R : Type 0} (w : World R) (max_pending : ℕ) where
  -- `submit_background`, with at most so many rounds of its loop.
  unfoldable pub submit_background : ℕ → Submit R
  submit_background zero task d = stopped d
  submit_background (suc rounds) task d =
      let drained =
        drain_completed w.fetches (submit_background rounds) w.outcome w.is_done true d
        >>= submit_background rounds task in
      if leb max_pending (length d.pending) then drained else ran (put_in_flight task d)

  abbrev pub drain : ℕ → Bool → Dispatcher R → Flow R
  drain rounds = drain_completed w.fetches (submit_background rounds) w.outcome w.is_done

  -- `while pending: drain_completed(block=True)`
  unfoldable pub drain_pending : ℕ → ℕ → Dispatcher R → Flow R
  drain_pending rounds zero d = stopped d
  drain_pending rounds (suc more) d = elim d.pending [
    | [] ↦ ran d
    | _ ∷ _ ↦ drain rounds true d >>= drain_pending rounds more
  ]

unfoldable pub should_fetch_factor : Settings → String → Bool
should_fetch_factor s code = s.include_factor || (s.needs_factors && not (s.factor_is_current code))

unfoldable pub reuse_factor : {R : Type 0} → World R → Settings → String → Dispatcher R → Flow R
unfolding should_fetch_factor
reuse_factor w s code d =
    if s.needs_factors && not (should_fetch_factor s code)
    then if w.reuses code then ran (record d { reused = code ∷ d.reused }) else raised d
    else ran d

-- The future that the last submit returned.
unfoldable pub last_future : {R : Type 0} → Dispatcher R → ℕ
last_future d = d.next_submit_sequence - 1

-- The records of the calendar and the stock list stand before those of the tasks.
unfoldable pub new_dispatcher : {R : Type 0} → List R → Dispatcher R
new_dispatcher run_records = record {
  pending = [];
  completed_results = [];
  next_submit_sequence = 0;
  next_record_sequence = 0;
  run_records = run_records;
  looks = 0;
  reused = [];
}

module _ {R : Type 0} (w : World R) (s : Settings) (rounds : ℕ) where
  abbrev pub submits : Submit R
  submits = submit_background w s.max_pending rounds

  unfoldable pub submit_daily : String → Option ℕ → Dispatcher R → Flow R
  submit_daily code factor d =
      if s.has_daily_targets
      then caught
          (if w.fetches_bars code then submits (daily_initial code factor true) d else raised d)
          (submits (daily_initial code factor false))
      else ran d

  unfoldable pub submit_factor : String → Dispatcher R → Flow R
  submit_factor code d =
      caught (if w.fetches_factors code then submits (factor_success code) d else raised d)
        (submits (factor_failure code))

  -- One turn of the loop over the codes.
  unfoldable pub code_turn : String → Dispatcher R → Flow R
  code_turn code d =
      (if should_fetch_factor s code
        then submit_factor code d >>= (λ e. submit_daily code (some (last_future e)) e)
        else reuse_factor w s code d >>= submit_daily code none)
      >>= drain w s.max_pending rounds false

  unfoldable pub code_turns : List String → Dispatcher R → Flow R
  code_turns [] d = ran d
  code_turns (code ∷ codes) d = code_turn code d >>= code_turns codes

  -- What happens under the `ThreadPoolExecutor`.
  unfoldable pub run_codes : ℕ → List R → List String → Flow R
  run_codes more run_records codes =
      code_turns codes (new_dispatcher run_records)
      >>= drain_pending w s.max_pending rounds more
      >>= submits flush_metadata
      >>= drain_pending w s.max_pending rounds more
