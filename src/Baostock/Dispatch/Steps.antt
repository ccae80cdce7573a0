-- ===== src/Baostock/Dispatch/Steps.antt =====
-- Each step of the dispatcher keeps its account of the log.
use quant_data_center_cn.Prelude.{
  ℕ, ◌+◌, String, nat_eq, some, List, [], ◌∷◌, ◌++◌, Bool, true, false, ◌==◌, ==_iff, length,
  get_elem?, length-append, ◌≡◌, ◌≢◌, refl, sym, ◌∙◌, arith, All-In, All-intro, In, here, there,
  In-cons_cases, Bool-cases, inl, inr,
}
use mathlib.Core.List.{append-nil}
use quant_data_center_cn.Prelude.Dict.{lookup, insert, lookup-insert}
use quant_data_center_cn.Baostock.Dispatch.Futures.{
  Future, Distinct, Differs, Distinct-without, In-without, without-In,
}
use quant_data_center_cn.Baostock.Dispatch.Drained.{taken_up}
use quant_data_center_cn.Baostock.Dispatch.Log.{
  Turn, turn_of, refetch_in, tally, get_elem?-append, get_elem?-last, get_elem?-lt,
  get_elem?-append_cases, turns_of-append, refetches-append, owed, first_records-append,
  requests_from-append, factor_task, Logged,
}
use quant_data_center_cn.Baostock.Dispatch.{
  Task, daily_initial, ApiFetchRequest, BackgroundTaskResult, Dispatcher, World, put_in_flight,
  without,
}

module _ {R : Type 0} (w : World R) where
  -- A waiting task may be submitted if the number that it waits for is its code's factor task.
  abbrev pub MayWait : List Task → Task → Type 0
  MayWait log task =
      (n : ℕ) (code : String) (works : Bool)
      → task ≡ daily_initial code (some n) works
      → (fetched : Bool) × (get_elem? log n ≡ some (factor_task code fetched))

  abbrev pub Spends : List ApiFetchRequest → Task → List ApiFetchRequest → Type 0
  Spends hand task rest =
      (p : ApiFetchRequest → Bool) → tally p hand ≡ tally p (refetch_in task) + tally p rest

  owed-without :
      (p : ApiFetchRequest → Bool) (f : Future) (fs : List Future)
      → Distinct fs
      → In f fs
      → tally p (w.outcome f.0 f.1).api_requests + owed w p (without f.0 fs) ≡ owed w p fs
  unfolding without
  owed-without p f [] d i = elim i [ ]
  owed-without p f (g ∷ fs) d i = elim (In-cons_cases i) [
    | inl same ↦ let e : (g.0 == g.0) ≡ true = (==_iff g.0 g.0).1 refl in rw (same, e) refl
    | inr j ↦
        let differ : g.0 ≢ f.0 = All-In (Differs g.0) j d.0 in
        let e : (f.0 == g.0) ≡ false = ground (arith, differ) in
        rw e (omega (arith, owed-without p f fs d.1 j))
  ]

  module _ (earlier : List R) (turns : List Turn) (log : List Task) where
    pub put_in_flight-Logged :
        (task : Task) (hand rest : List ApiFetchRequest) (d : Dispatcher R)
        → Logged w earlier turns log hand d
        → Spends hand task rest
        → MayWait log task
        → Logged w earlier (turns ++ turn_of task) (log ++ task ∷ []) rest (put_in_flight task d)
    unfolding put_in_flight
    put_in_flight-Logged task hand rest d v spends may = record {
      counted = omega (arith, v.counted, length-append log (task ∷ []));
      distinct = (
        All-intro d.pending (λ f i same.
            absurd (omega (arith, same, v.counted, get_elem?-lt log f.0 f.1 (v.in_flight f i)))),
        v.distinct,
      );
      in_flight = λ f i. elim (In-cons_cases i) [
        | inl same ↦ rw (same, v.counted) (get_elem?-last log task)
        | inr j ↦ get_elem?-append log (task ∷ []) f.0 f.1 (v.in_flight f j)
      ];
      kept = λ n r h e.
          let k = v.kept n r h e in (k.0, get_elem?-append log (task ∷ []) n k.0 k.1, k.2);
      due = λ n t h e. elim (get_elem?-append_cases log task n t e) [
        | inl old ↦ elim (v.due n t h old) [ inl i ↦ inl (there i) | inr k ↦ inr k ]
        | inr (at, same) ↦ inl (rw (at, sym same, sym v.counted) here)
      ];
      within = omega (arith, v.within, length-append log (task ∷ []));
      released =
          rw (first_records-append w d.next_record_sequence 0 log (task ∷ []) v.within) v.released;
      turned = turns_of-append log (task ∷ []) ∙ rw (v.turned, append-nil) refl;
      balance = λ p.
          let more = refetches-append p log (task ∷ []) in
          let asked = requests_from-append w p 0 log task in
          let zero_add : 0 + length log ≡ length log = omega arith in
          rw (v.counted, more, asked, zero_add) (omega (arith, v.balance p, spends p));
      waits = λ m n code works e.
          elim (get_elem?-append_cases log task m (daily_initial code (some n) works) e) [
            | inl old ↦
                let k = v.waits m n code works old in
                (k.0, k.1, get_elem?-append log (task ∷ []) n (factor_task code k.1) k.2)
            | inr (at, same) ↦
                let k = may n code works same in
                let before = get_elem?-lt log n (factor_task code k.0) k.1 in
                (
                  omega (arith, before, at),
                  k.0,
                  get_elem?-append log (task ∷ []) n (factor_task code k.0) k.1,
                )
          ];
    }

    pub taken_up-Logged :
        (f : Future) (d : Dispatcher R)
        → Logged w earlier turns log [] d
        → In f d.pending
        → Logged w earlier turns log (w.outcome f.0 f.1).api_requests (taken_up w f d)
    taken_up-Logged f d v i = record {
      counted = v.counted;
      distinct = Distinct-without f.0 d.pending v.distinct;
      in_flight = λ g j. v.in_flight g (In-without f.0 g d.pending j);
      kept = λ n r h e. elim (Bool-cases (n == f.0)) [
        | inl t ↦
            let at : n ≡ f.0 = (==_iff n f.0).0 t in
            let same : r ≡ w.outcome f.0 f.1 = taken_value n r t e in
            (f.1, rw at (v.in_flight f i), rw (at, same) refl)
        | inr t ↦ v.kept n r h (sym (other n t) ∙ e)
      ];
      due = λ n t h e. elim (Bool-cases (n == f.0)) [
        | inl m ↦ inr (w.outcome f.0 f.1, lookup-insert n f.0 _ d.completed_results ∙ rw m refl)
        | inr m ↦ elim (v.due n t h e) [
          | inl j ↦ inl (without-In f.0 (n, t) d.pending (λ same. ground (arith, m, same)) j)
          | inr k ↦ inr (k.0, other n m ∙ k.1)
        ]
      ];
      within = v.within;
      released = v.released;
      turned = v.turned;
      balance = λ p. omega (arith, v.balance p, owed-without p f d.pending v.distinct i);
      waits = v.waits;
    }
      where
        other :
            (n : ℕ)
            → (n == f.0) ≡ false
            → lookup n (insert f.0 (w.outcome f.0 f.1) d.completed_results)
              ≡ lookup n d.completed_results
        other n t = lookup-insert n f.0 (w.outcome f.0 f.1) d.completed_results ∙ rw t refl

        taken_value :
            (n : ℕ) (r : BackgroundTaskResult R)
            → (n == f.0) ≡ true
            → lookup n (insert f.0 (w.outcome f.0 f.1) d.completed_results) ≡ some r
            → r ≡ w.outcome f.0 f.1
        taken_value n r t e =
            let there_is : some (w.outcome f.0 f.1) ≡ some r =
              sym (lookup-insert n f.0 (w.outcome f.0 f.1) d.completed_results ∙ rw t refl) ∙ e in
            cc
