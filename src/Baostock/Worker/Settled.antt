-- ===== src/Baostock/Worker/Settled.antt =====
-- The first pass on a code and the refetch that it asks for leave one record for each plan.
use quant_data_center_cn.Prelude.{
  ◌+◌, String, string_eq, Option, none, some, List, [], ◌∷◌, Bool, true, false, ◌==◌, ==_iff,
  select, contains, ◌≡◌, ◌↔◌, ◌⊎◌, refl, sym, ap, ◌∙◌, ◌≢◌, subst, arith, In, here, there,
  In-cons_cases, In-select, select-In, All-In, All-select_holds, Bool-cases, inl, inr, same_truth,
}
use quant_data_center_cn.Prelude.Dict.{lookup-insert_self}
use quant_data_center_cn.Pipeline.Rows.{RunRow}
use quant_data_center_cn.Pipeline.Frames.{DailyRow}
use quant_data_center_cn.Baostock.Targets.{full_history_start_date}
use quant_data_center_cn.Baostock.Dispatch.{ApiFetchRequest, BackgroundTaskResult}
use quant_data_center_cn.Baostock.Adjusted.{Bar}
use quant_data_center_cn.Baostock.Worker.{
  Plan, Desk, Tools, Try, gives, raises, datasets_of, set_daily_plans, daily_plans_for_code,
}
use quant_data_center_cn.Baostock.Worker.Daily.{
  write_daily_frames, refetch_request, process_initial, recovered, release_settled,
  process_daily_initial, process_daily_full_refetch,
}
use quant_data_center_cn.Baostock.Worker.Records.{
  count_records, count_plans, RecordsOf, RecordsOf-count, Gives, failures-RecordsOf, each-RecordsOf,
}
use quant_data_center_cn.Baostock.Worker.Requests.{keeps, open_plans, Passed, initial-Passed}

contains-In : (xs : List String) (a : String) → (contains xs a ≡ true) ↔ In a xs
contains-In [] a = (λ e. cc, λ i. elim i [ ])
contains-In (x ∷ xs) a =
    let rest = contains-In xs a in
    elim (Bool-cases (a == x)) [
      | inl e ↦ rw e (λ t. rw ((==_iff a x).0 e) here, λ i. refl)
      | inr e ↦
          let differ : a ≢ x = λ same. ground (arith, same, e) in
          rw e (
            λ t. there (rest.0 t),
            λ i. elim (In-cons_cases i) [ inl same ↦ absurd (differ same) | inr j ↦ rest.1 j ],
          )
    ]

-- The data sets of some plans, each once.
datasets_of-In :
    (plans : List Plan) (dataset : String)
    → In dataset (datasets_of plans) ↔ ((plan : Plan) × In plan plans × (plan.dataset ≡ dataset))
unfolding datasets_of
datasets_of-In [] dataset = (λ i. elim i [ ], λ (plan, i, e). elim i [ ])
datasets_of-In (first ∷ plans) dataset =
    let rest = datasets_of-In plans dataset in
    (
      λ i. elim (In-cons_cases i) [
        | inl same ↦ (first, here, sym same)
        | inr j ↦
            let (plan, k, e) = rest.0 (select-In _ dataset (datasets_of plans) j) in
            (plan, there k, e)
      ],
      λ (plan, i, e). elim (Bool-cases (dataset == first.dataset)) [
        | inl t ↦ rw ((==_iff dataset first.dataset).0 t) here
        | inr f ↦ elim (In-cons_cases i) [
          | inl same ↦
              let impossible : true ≡ false =
                sym ((==_iff dataset first.dataset).1 (sym e ∙ ap (λ (q : Plan). q.dataset) same))
                ∙ f in
              cc
          | inr j ↦ there (In-select _ (rest.1 (plan, j, e)) (rw f refl))
        ]
      ],
    )

select-same :
    (p q : Plan → Bool) (plans : List Plan)
    → ((plan : Plan) → In plan plans → p plan ≡ q plan)
    → select p plans ≡ select q plans
select-same p q [] h = refl
select-same p q (plan ∷ plans) h =
    rw (h plan here, select-same p q plans (λ other i. h other (there i))) refl

-- The plans of the data sets of the open plans are the open plans.
select-open_plans :
    (stack : Option String) (plans : List Plan)
    → select (λ plan. contains (datasets_of (open_plans stack plans)) plan.dataset) plans
      ≡ open_plans stack plans
select-open_plans stack plans = select-same _ _ plans (λ plan i.
    same_truth _ _
      (λ t.
        let listed = (contains-In (datasets_of (open_plans stack plans)) plan.dataset).0 t in
        let (other, j, e) = (datasets_of-In (open_plans stack plans) plan.dataset).0 listed in
        subst (λ dataset. keeps stack dataset ≡ true) e
          (All-In (λ (q : Plan). keeps stack q.dataset ≡ true) j (All-select_holds _ plans)))
      (λ k.
        (contains-In (datasets_of (open_plans stack plans)) plan.dataset).1
          ((datasets_of-In (open_plans stack plans) plan.dataset).1 (plan, In-select _ i k, refl))))

module _ {P X : Type 0} (t : Tools P X) where
  frames-RecordsOf :
      (plans : List Plan) (bars : List (DailyRow (Bar P X))) (start : String) (d : Desk P X)
      → RecordsOf (write_daily_frames t plans bars start d).0 plans
  unfolding write_daily_frames
  frames-RecordsOf plans bars start d = each-RecordsOf t plans start bars _ d

  refetch-RecordsOf :
      (request : ApiFetchRequest) (bars : List (DailyRow (Bar P X))) (error : Option String)
      (d : Desk P X)
      → RecordsOf (process_daily_full_refetch t request bars error d).0.run_records (
          select
            (λ plan. contains request.datasets plan.dataset)
            (daily_plans_for_code t request.code d))
  unfolding process_daily_full_refetch
  refetch-RecordsOf request bars none d = frames-RecordsOf _ bars full_history_start_date d
  refetch-RecordsOf request bars (some stack) d = failures-RecordsOf t _ stack d

  pub refetch-plain :
      (request : ApiFetchRequest) (bars : List (DailyRow (Bar P X))) (error : Option String)
      (d : Desk P X)
      → (process_daily_full_refetch t request bars error d).0.api_requests ≡ []
  unfolding process_daily_full_refetch
  refetch-plain request bars none d = refl
  refetch-plain request bars (some stack) d = refl

  -- Either each plan has its record now, or one request is made for the open plans, which the worker keeps.
  abbrev pub Outcome : String → List Plan → BackgroundTaskResult RunRow × Desk P X → Type 0
  Outcome code plans (result, e) =
      ((result.api_requests ≡ [])
        × ((p : String → Bool) → count_records p result.run_records ≡ count_plans p plans))
      ⊎ ((stack : Option String) × (reason : String) × (result.api_requests
            ≡ refetch_request t code (open_plans stack plans) reason ∷ [])
          × ((p : String → Bool)
              → count_records p result.run_records + count_plans p (open_plans stack plans)
                ≡ count_plans p plans)
          × (daily_plans_for_code t code e ≡ plans))

  recovered-Passed :
      (code : String) (plans : List Plan) (d : Desk P X) (r : Try P X (BackgroundTaskResult RunRow))
      → Gives (Passed t code plans d) r
      → Passed t code plans d (recovered t plans r).0 (recovered t plans r).1
  recovered-Passed code plans d (gives result e) h = h
  recovered-Passed code plans d (raises e) h =
      inl
        (refl, λ p. RecordsOf-count p _ plans (failures-RecordsOf t plans (t.traceback e.calls) e))

  released-Outcome :
      (code : String) (plans : List Plan) (d : Desk P X)
      (done : BackgroundTaskResult RunRow × Desk P X)
      → Passed t code plans (set_daily_plans t code plans d) done.0 done.1
      → Outcome code plans (release_settled t code done)
  unfolding daily_plans_for_code set_daily_plans
  released-Outcome code plans d (result, e) (inl h) = inl h
  released-Outcome code plans d (result, e) (inr (stack, reason, asked, counts, kept)) = inr (
    stack,
    reason,
    asked,
    counts,
    rw (asked, kept, lookup-insert_self code plans d.daily_plans_by_code) refl,
  )

  pub daily_initial-Outcome :
      (code : String) (plans : List Plan) (fetch : Option String) (bars : List (DailyRow (Bar P X)))
      (error : Option String) (d : Desk P X)
      → Outcome code plans (process_daily_initial t code plans fetch bars error d)
  unfolding process_daily_initial
  daily_initial-Outcome code plans fetch bars error d =
      let begun = set_daily_plans t code plans d in
      let r = process_initial t code plans fetch bars error begun in
      released-Outcome code plans d (recovered t plans r)
        (recovered-Passed code plans begun r (initial-Passed t code plans fetch bars error begun))

  -- The first pass on the daily bars of a code returns a record for each of its plans, counted by data set, and
  -- no request, or it returns one request, for a refetch of that code, which a run's main thread knows, and keeps the plans; a
  -- refetch for that request, while the worker has those plans, asks for nothing and returns the records that are missing then.
  pub initial_then_refetch :
      (code : String) (plans : List Plan) (fetch : Option String) (bars : List (DailyRow (Bar P X)))
      (error : Option String) (d : Desk P X)
      → let done = process_daily_initial t code plans fetch bars error d in
        ((done.0.api_requests ≡ [])
          × ((p : String → Bool) → count_records p done.0.run_records ≡ count_plans p plans))
        ⊎ ((request : ApiFetchRequest) × (done.0.api_requests ≡ request ∷ [])
            × (request.kind ≡ "daily_bar_full_refetch")
            × (request.code ≡ code)
            × (daily_plans_for_code t code done.1 ≡ plans)
            × ((fresh : List (DailyRow (Bar P X))) (failed : Option String) (e : Desk P X)
                → daily_plans_for_code t code e ≡ plans
                → let again = process_daily_full_refetch t request fresh failed e in
                  (again.0.api_requests ≡ [])
                  × ((p : String → Bool)
                      → count_records p done.0.run_records + count_records p again.0.run_records
                        ≡ count_plans p plans)))
  unfolding refetch_request
  initial_then_refetch code plans fetch bars error d =
      elim (daily_initial-Outcome code plans fetch bars error d) [
        | inl all ↦ inl all
        | inr (stack, reason, asked, counts, kept) ↦
            let request = refetch_request t code (open_plans stack plans) reason in
            inr (
              request,
              asked,
              refl,
              refl,
              kept,
              λ fresh failed e same. (
                refetch-plain request fresh failed e,
                λ p.
                    let made = RecordsOf-count p _ _ (refetch-RecordsOf request fresh failed e) in
                    omega (
                      arith,
                      counts p,
                      made
                          ∙ ap (count_plans p) (ap (select _) same ∙ select-open_plans stack plans),
                    ),
              ),
            )
      ]
