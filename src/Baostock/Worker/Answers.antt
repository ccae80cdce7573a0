-- ===== src/Baostock/Worker/Answers.antt =====
-- The worker gives the main thread the answers that it relies on, whatever it finds on its desk.
use quant_data_center_cn.Prelude.{
  ℕ, ◌*◌, ◌<◌, String, Option, some, List, [], ◌∷◌, ◌++◌, Bool, true, ◌≡◌, refl, arith, All, any,
  length, inl, inr,
}
use quant_data_center_cn.Pipeline.Rows.{RunRow}
use quant_data_center_cn.Baostock.Dispatch.{
  ApiFetchRequest, BackgroundTaskResult, Task, factor_success, factor_failure, daily_initial,
  full_refetch, flush_metadata, World, Settings, Dispatcher, ran, run_codes,
}
use quant_data_center_cn.Baostock.Dispatch.Futures.{Future, weight}
use quant_data_center_cn.Baostock.Dispatch.Drained.{Answers, Supported}
use quant_data_center_cn.Baostock.Dispatch.Log.{
  flush, turns_of, refetches, records_from, requests_from,
}
use quant_data_center_cn.Baostock.Dispatch.Whole.{turns_for_all}
use quant_data_center_cn.Baostock.Dispatch.Complete.{run_codes_complete}
use quant_data_center_cn.Baostock.Worker.{call, Desk, Tools, Try, gives, raises}
use quant_data_center_cn.Baostock.Adjusted.{FactorRow}
use quant_data_center_cn.Baostock.Targets.{adjustment_factor_dataset}
use quant_data_center_cn.Baostock.Worker.Records.{Gives}
use quant_data_center_cn.Baostock.Worker.Settled.{daily_initial-Outcome, refetch-plain}
use quant_data_center_cn.Baostock.Worker.Daily.{
  refetch_request, process_daily_initial, process_daily_full_refetch,
}
use quant_data_center_cn.Baostock.Worker.Factors.{
  only_record, metadata_failure, store_factors, announce_factors, process_factor_failure,
  process_factor_success, flush_batch, Payload, if_failed, run_task,
}

-- A result that the main thread can take from a task.
abbrev Fits : Task → BackgroundTaskResult RunRow → Type 0
Fits task result = (length result.api_requests < weight task) × All Supported result.api_requests

-- A result with no request fits each task.
plain-Fits :
    (task : Task) (result : BackgroundTaskResult RunRow)
    → result.api_requests ≡ []
    → Fits task result
plain-Fits task result e = rw e (ground (arith, task), tt)

module _ {P X : Type 0} (t : Tools P X) where
  failure-plain :
      (code : String) (start_time : ℕ) (path stack : String) (d : Desk P X)
      → (process_factor_failure t code start_time path stack d).0.api_requests ≡ []
  unfolding process_factor_failure
  failure-plain code start_time path stack d = refl

  ends_plain :
      {A : Type 0} (r : Try P X A) (row : RunRow)
      → Gives
          (λ result e. result.api_requests ≡ [])
          (elim r as (λ x. Try P X (BackgroundTaskResult RunRow)) [
            | gives a e ↦ gives (only_record row) e
            | raises e ↦ raises e
          ])
  ends_plain (gives a e) row = refl
  ends_plain (raises e) row = tt

  announce-plain :
      (code : String) (start_time : ℕ) (written : List (FactorRow P) × Bool) (d : Desk P X)
      → Gives (λ result e. result.api_requests ≡ []) (announce_factors t code start_time written d)
  unfolding announce_factors
  announce-plain code start_time written d = ends_plain _ _

  announced-plain :
      (code : String) (start_time : ℕ) (r : Try P X (BackgroundTaskResult RunRow))
      → Gives (λ result e. result.api_requests ≡ []) r
      → (elim r as (λ x. BackgroundTaskResult RunRow × Desk P X) [
        | gives result f ↦ (result, f)
        | raises f ↦
            process_factor_failure t code start_time
              (t.output_path adjustment_factor_dataset code)
              (t.traceback f.calls)
              f
      ]).0.api_requests
        ≡ []
  announced-plain code start_time (gives result e) h = h
  announced-plain code start_time (raises e) h =
      failure-plain code start_time _ (t.traceback e.calls) e

  success-plain :
      (code : String) (p : Payload P X) (d : Desk P X)
      → (process_factor_success t code p.factors p.started_at p.path d).0.api_requests ≡ []
  unfolding process_factor_success
  success-plain code p d = stored_plain (store_factors t code p.factors d)
    where
      stored_plain :
          (r : Try P X (List (FactorRow P) × Bool))
          → (elim r as (λ x. BackgroundTaskResult RunRow × Desk P X) [
            | gives written e ↦ elim (announce_factors t code p.started_at written e) [
              | gives result f ↦ (result, f)
              | raises f ↦
                  process_factor_failure t code p.started_at
                    (t.output_path adjustment_factor_dataset code)
                    (t.traceback f.calls)
                    f
            ]
            | raises e ↦ process_factor_failure t code p.started_at p.path (t.traceback e.calls) e
          ]).0.api_requests
            ≡ []
      stored_plain (gives written e) =
          announced-plain code p.started_at (announce_factors t code p.started_at written e)
            (announce-plain code p.started_at written e)
      stored_plain (raises e) = failure-plain code p.started_at p.path (t.traceback e.calls) e

  flush-plain : (d : Desk P X) → (flush_batch t d).0.api_requests ≡ []
  unfolding flush_batch
  flush-plain d = either (call t (λ e. (tt, e)) d)
    where
      either :
          (r : Try P X (Unit {0}))
          → (elim r as (λ x. BackgroundTaskResult RunRow × Desk P X) [
            | gives done e ↦ (record { run_records = []; api_requests = [] }, e)
            | raises e ↦ (only_record (metadata_failure (t.traceback e.calls)), e)
          ]).0.api_requests
            ≡ []
      either (gives done e) = refl
      either (raises e) = refl

  initial-Fits :
      (code : String) (factor : Option ℕ) (works : Bool) (p : Payload P X) (d : Desk P X)
      → Fits (daily_initial code factor works) (run_task t (daily_initial code factor works) p d).0
  unfolding run_task
  initial-Fits code factor works p d =
      elim (daily_initial-Outcome t code p.plans (some p.initial_start_date) p.rows
        (if_failed works p.stack) d) [
          | inl all ↦
              plain-Fits (daily_initial code factor works)
                (process_daily_initial t code p.plans (some p.initial_start_date) p.rows
                  (if_failed works p.stack) d).0
                all.0
          | inr asked ↦ rw asked.2 (omega arith, (unfold refetch_request in refl, tt))
        ]

  run_task-Fits : (task : Task) (p : Payload P X) (d : Desk P X) → Fits task (run_task t task p d).0
  unfolding run_task
  run_task-Fits (factor_success code) p d =
      plain-Fits (factor_success code)
        (process_factor_success t code p.factors p.started_at p.path d).0 (success-plain code p d)
  run_task-Fits (factor_failure code) p d =
      plain-Fits (factor_failure code)
        (process_factor_failure t code p.started_at p.path p.stack d).0
        (failure-plain code p.started_at p.path p.stack d)
  run_task-Fits (daily_initial code factor works) p d = initial-Fits code factor works p d
  run_task-Fits (full_refetch request works) p d =
      plain-Fits (full_refetch request works)
        (process_daily_full_refetch t request p.rows (if_failed works p.stack) d).0
        (refetch-plain t request p.rows (if_failed works p.stack) d)
  run_task-Fits flush_metadata p d = plain-Fits flush_metadata (flush_batch t d).0 (flush-plain d)

  -- The threads run the worker, each task on the payload that it is given and the desk that it finds.
  unfoldable pub with_worker : (ℕ → Payload P X) → (ℕ → Desk P X) → World RunRow → World RunRow
  with_worker payload desk w = record w {
    outcome = λ n task. (run_task t task (payload n) (desk n)).0;
  }

  worker-Answers :
      (payload : ℕ → Payload P X) (desk : ℕ → Desk P X) (w : World RunRow)
      → ((look : ℕ) (f : Future) (fs : List Future)
          → any (λ (g : Future). w.is_done true look (f ∷ fs) g.0) (f ∷ fs) ≡ true)
      → ((code : String) → w.reuses code ≡ true)
      → Answers (with_worker payload desk w)
  unfolding with_worker
  worker-Answers payload desk w finishes reads = record {
    few = λ n task. (run_task-Fits task (payload n) (desk n)).0;
    supported = λ n task. (run_task-Fits task (payload n) (desk n)).1;
    finishes = finishes;
    reads = reads;
  }

  -- A run whose threads run the worker, whatever each task finds on its desk and whichever calls of other code raise
  -- there, ends with nothing in flight, if the pool has room for a task, a wait for some futures
  -- returns when one of them is done, the stored factors that are to be used again can be read, and
  -- there are more rounds than twice the tasks that may be in flight: its tasks are, in order, those of each
  -- code and the flush, with one refetch for each request that the worker returned, and its records are the
  -- earlier ones and those of the tasks, in the order of submission.
  pub run_with_worker :
      (payload : ℕ → Payload P X) (desk : ℕ → Desk P X) (w : World RunRow) (earlier : List RunRow)
      (s : Settings) (rounds : ℕ)
      (finishes : (look : ℕ) (f : Future) (fs : List Future)
        → any (λ (g : Future). w.is_done true look (f ∷ fs) g.0) (f ∷ fs) ≡ true)
      (reads : (code : String) → w.reuses code ≡ true)
      → 0 < s.max_pending
      → 2 * s.max_pending < rounds
      → (codes : List String)
      → let running = with_worker payload desk w in
        (log : List Task) × (d : Dispatcher RunRow) × (run_codes running s rounds rounds earlier
            codes
          ≡ ran d)
        × (d.pending ≡ [])
        × (turns_of log ≡ turns_for_all running s codes ++ flush ∷ [])
        × ((p : ApiFetchRequest → Bool) → refetches p log ≡ requests_from running p 0 log)
        × (d.run_records ≡ earlier ++ records_from running 0 log)
  run_with_worker payload desk w earlier s rounds finishes reads room enough codes =
      run_codes_complete (with_worker payload desk w) earlier
        (worker-Answers payload desk w finishes reads) s rounds room enough codes
