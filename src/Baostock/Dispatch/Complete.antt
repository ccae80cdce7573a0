-- ===== src/Baostock/Dispatch/Complete.antt =====
-- The end of a run: nothing is in flight, and the records stand in the order of submission.
use quant_data_center_cn.Prelude.{
  ℕ, ◌*◌, ◌≤◌, ◌<◌, String, nat_eq, none, some, List, [], ◌∷◌, ◌++◌, Bool, length, get_elem?, ◌≡◌,
  refl, sym, ap, ◌∙◌, arith, In, inl, inr, subst,
}
use native.Mathlib.Decide.{dec_lt}
use mathlib.Core.List.{append-nil}
use quant_data_center_cn.Prelude.Dict.{lookup}
use quant_data_center_cn.Baostock.Dispatch.Drained.{Answers}
use quant_data_center_cn.Baostock.Dispatch.Log.{
  Turn, flush, turns_of, refetches, get_elem?_within, factor_task, records_from, requests_from,
  first_records_all, Logged, owed,
}
use quant_data_center_cn.Baostock.Dispatch.Draining.{submit-Submitted}
use quant_data_center_cn.Baostock.Dispatch.{
  Task, daily_initial, flush_metadata, ApiFetchRequest, Dispatcher, World, Settings, ran,
  code_turns, new_dispatcher, run_codes,
}
use quant_data_center_cn.Baostock.Dispatch.Whole.{
  turns_for_all, Known, light, forget, code_turns-Took, drain_pending-Took,
}

module _ {R : Type 0} (w : World R) (earlier : List R) where
  new_dispatcher-Logged : Logged w earlier [] [] [] (new_dispatcher earlier)
  unfolding new_dispatcher lookup
  new_dispatcher-Logged = record {
    counted = refl;
    distinct = tt;
    in_flight = λ f i. elim i [ ];
    kept = λ n r h e. cc;
    due = λ n task h e. cc;
    within = omega arith;
    released = sym (append-nil earlier);
    turned = refl;
    balance = λ p. refl;
    waits = λ m n code works e. cc;
  }

  -- With nothing in flight every record is out.
  all_released :
      (log : List Task) (turns : List Turn) (d : Dispatcher R)
      → Logged w earlier turns log [] d
      → lookup d.next_record_sequence d.completed_results ≡ none
      → d.pending ≡ []
      → d.run_records ≡ earlier ++ records_from w 0 log
  all_released log turns d v flushed none_pending =
      elim (dec_lt d.next_record_sequence (length log)) [
        | yes more ↦
            let (task, at) = get_elem?_within log d.next_record_sequence more in
            elim (v.due d.next_record_sequence task (omega arith) at) [
              | inl i ↦ elim (subst (In (d.next_record_sequence, task)) none_pending i) [ ]
              | inr k ↦ let impossible : none ≡ some k.0 = sym flushed ∙ k.1 in cc
            ]
        | no at_end ↦
            let same : d.next_record_sequence ≡ length log = omega (arith, v.within, at_end) in
            v.released ∙ rw (same, first_records_all w 0 log) refl
      ]

  module _ (answers : Answers w) (s : Settings) (rounds : ℕ) (room : 0 < s.max_pending)
      (enough : 2 * s.max_pending < rounds) where
    ended :
        (codes : List String)
        → (d : Dispatcher R) × (run_codes w s rounds rounds earlier codes ≡ ran d)
          × Known w answers s earlier rounds room enough
              (λ log. Unit {0})
              (turns_for_all w s codes ++ flush ∷ [])
              d
          × (d.pending ≡ [])
    unfolding run_codes
    ended codes =
        let (a, goes, known) =
          code_turns-Took w answers s earlier rounds room enough [] codes (new_dispatcher earlier) (
            [],
            tt,
            new_dispatcher-Logged,
            unfold new_dispatcher lookup in refl,
            unfold new_dispatcher in omega arith,
          ) in
        let (b, drains, known', empty) =
          drain_pending-Took w answers s earlier rounds room enough (turns_for_all w s codes) rounds
            a (light w answers s earlier rounds room enough _ _ a known) known in
        let (c, submits', known'', lighter) =
          submit-Submitted w earlier s.max_pending _ (λ log task h. tt) (turns_for_all w s codes)
            answers rounds flush_metadata b
            (light w answers s earlier rounds room enough _ _ b known') room known' refl
            (λ log h n k x same. cc) in
        let again = forget w answers s earlier rounds room enough _ c known'' in
        let (d, ends, last, none_pending) =
          drain_pending-Took w answers s earlier rounds room enough
            (turns_for_all w s codes ++ flush ∷ []) rounds c
            (light w answers s earlier rounds room enough _ _ c again) again in
        (d, rw (goes, drains, submits') ends, last, none_pending)

    -- Where the pool has room for a task, each task asks for at most one refetch, waits return, and stored factors can be read, the run
    -- ends with nothing in flight. Its tasks are, in order, those of each code (the factors, where they are
    -- to be fetched, before the bars) and the flush, with one refetch for each request that a task
    -- returned. The records are the earlier ones and those of the tasks, in the order of submission.
    pub run_codes_complete :
        (codes : List String)
        → (log : List Task) × (d : Dispatcher R) × (run_codes w s rounds rounds earlier codes
            ≡ ran d)
          × (d.pending ≡ [])
          × (turns_of log ≡ turns_for_all w s codes ++ flush ∷ [])
          × ((p : ApiFetchRequest → Bool) → refetches p log ≡ requests_from w p 0 log)
          × (d.run_records ≡ earlier ++ records_from w 0 log)
    run_codes_complete codes =
        let (d, goes, (log, known, v, flushed, few), none_pending) = ended codes in
        (
          log,
          d,
          goes,
          none_pending,
          v.turned,
          λ p. omega (arith, v.balance p, ap (owed w p) none_pending),
          all_released log (turns_for_all w s codes ++ flush ∷ []) d v flushed none_pending,
        )

    -- Where the pool has room for a task, the tasks return at most one request each, of the known kind, and only
    -- an initial daily task returns one, a wait for some futures returns when one of them is done, the stored factors that are to
    -- be used again can be read, and there are more rounds than twice the tasks that may be in flight, no more tasks are in flight than allowed after the turns of any codes, and a daily task that is in
    -- flight and waits does so for a task with its code's factors that was submitted before it.
    pub code_turns_bounded :
        (codes : List String)
        → (d : Dispatcher R) × (log : List Task) × (code_turns w s rounds codes
              (new_dispatcher earlier)
            ≡ ran d)
          × (turns_of log ≡ turns_for_all w s codes)
          × (length d.pending ≤ s.max_pending)
          × ((m n : ℕ) (code : String) (works : Bool)
              → In (m, daily_initial code (some n) works) d.pending
              → (n < m) × (fetched : Bool) × (get_elem? log n ≡ some (factor_task code fetched)))
    code_turns_bounded codes =
        let (d, goes, (log, known, v, flushed, few)) =
          code_turns-Took w answers s earlier rounds room enough [] codes (new_dispatcher earlier) (
            [],
            tt,
            new_dispatcher-Logged,
            unfold new_dispatcher lookup in refl,
            unfold new_dispatcher in omega arith,
          ) in
        (
          d,
          log,
          goes,
          v.turned,
          few,
          λ m n code works i.
              v.waits m n code works (v.in_flight (m, daily_initial code (some n) works) i),
        )
