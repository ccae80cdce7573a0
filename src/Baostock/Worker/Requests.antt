-- ===== src/Baostock/Worker/Requests.antt =====
-- What the first pass on a code returns: a record for each plan, or a request for those that are open.
use quant_data_center_cn.Prelude.{
  ◌+◌, String, string_eq, Option, none, some, List, [], ◌∷◌, ◌++◌, Bool, true, false, not,
  if◌then◌else◌, select, ◌≡◌, ◌⊎◌, refl, sym, ap, ◌∙◌, subst, arith, Bool-cases, inl, inr,
}
use quant_data_center_cn.Pipeline.Rows.{LifecycleRows, RunRow}
use quant_data_center_cn.Pipeline.Frames.{DailyRow, daily_frames_differ_on_overlap}
use quant_data_center_cn.Baostock.Targets.{full_history_start_date}
use quant_data_center_cn.Baostock.Dispatch.{BackgroundTaskResult}
use quant_data_center_cn.Baostock.Adjusted.{Bar, FactorRow, is_adjusted_daily_dataset}
use quant_data_center_cn.Baostock.Worker.{
  Plan, Desk, Tools, Try, after, is_empty, add_rows, read_bars, call, factor_state_for_code,
}
use quant_data_center_cn.Baostock.Worker.Daily.{
  Base, history, refetch, write_daily_failure, write_daily_failures, write_daily_frames, write_all,
  partial_unadjusted_base, has_data_in_range, sift, refetch_request, full_mode_result, from_base,
  partial_mode_result, process_initial,
}
use quant_data_center_cn.Baostock.Worker.Records.{
  count_records, count_plans, count-append, RecordsOf, RecordsOf-count, Gives, bind-Gives,
  failure-IsRecordOf, failures-RecordsOf, each-RecordsOf, all-RecordsOf,
}

-- A plan is open unless it needs factors that could not be had.
abbrev pub keeps : Option String → String → Bool
keeps none dataset = true
keeps (some error_stack) dataset = not (is_adjusted_daily_dataset dataset)

abbrev pub open_plans : Option String → List Plan → List Plan
open_plans stack = select (λ plan. keeps stack plan.dataset)

is_empty-nil : {A : Type 0} (xs : List A) → is_empty xs ≡ true → xs ≡ []
is_empty-nil [] h = refl
is_empty-nil (x ∷ xs) h = cc

select-true : (plans : List Plan) → select (λ plan. true) plans ≡ plans
select-true [] = refl
select-true (plan ∷ plans) = ap (λ ps. plan ∷ ps) (select-true plans)

if-Gives :
    {P X A : Type 0} (Q : A → Desk P X → Type 0) (b : Bool) (x y : Try P X A)
    → Gives Q x
    → Gives Q y
    → Gives Q (if b then x else y)
if-Gives Q true x y h k = h
if-Gives Q false x y h k = k

module _ {P X : Type 0} (t : Tools P X) where
  add_rows-plans :
      (rows : LifecycleRows) (d : Desk P X)
      → (after (add_rows t rows d)).daily_plans_by_code ≡ d.daily_plans_by_code
  unfolding add_rows call
  add_rows-plans rows d = ground arith

  failure-plans :
      (plan : Plan) (stack : String) (d : Desk P X)
      → (write_daily_failure t plan stack d).1.daily_plans_by_code ≡ d.daily_plans_by_code
  unfolding write_daily_failure
  failure-plans plan stack d = add_rows-plans _ d

  -- The sifted plans: the rows of those that failed, and the open ones.
  abbrev Sifted :
      Option String → List Plan → Desk P X → (List RunRow × List Plan) × Desk P X → Type 0
  Sifted stack plans d ((rows, active), e) =
      (active ≡ open_plans stack plans)
      × ((p : String → Bool) → count_records p rows + count_plans p active ≡ count_plans p plans)
      × (e.daily_plans_by_code ≡ d.daily_plans_by_code)

  sift-Sifted :
      (stack : Option String) (plans : List Plan) (d : Desk P X)
      → Sifted stack plans d (sift t stack plans d)
  unfolding sift
  sift-Sifted none plans d = (sym (select-true plans), (λ p. omega arith), refl)
  sift-Sifted (some stack) [] d = (refl, (λ p. refl), refl)
  sift-Sifted (some stack) (plan ∷ plans) d =
      elim (Bool-cases (is_adjusted_daily_dataset plan.dataset)) [
        | inl a ↦
            let e = (write_daily_failure t plan stack d).1 in
            let rest = sift-Sifted (some stack) plans e in
            let named = (failure-IsRecordOf t plan stack d).0 in
            rw a (
              rest.0,
              (λ p. rw named (omega (arith, rest.1 p))),
              rest.2 ∙ failure-plans plan stack d,
            )
        | inr a ↦
            let rest = sift-Sifted (some stack) plans d in
            rw a (ap (λ ps. plan ∷ ps) rest.0, (λ p. omega (arith, rest.1 p)), rest.2)
      ]

  -- All is recorded, or the open plans are asked for again.
  abbrev pub Passed :
      String → List Plan → Desk P X → BackgroundTaskResult RunRow → Desk P X → Type 0
  Passed code plans d result e =
      ((result.api_requests ≡ [])
        × ((p : String → Bool) → count_records p result.run_records ≡ count_plans p plans))
      ⊎ ((stack : Option String) × (reason : String) × (result.api_requests
            ≡ refetch_request t code (open_plans stack plans) reason ∷ [])
          × ((p : String → Bool)
              → count_records p result.run_records + count_plans p (open_plans stack plans)
                ≡ count_plans p plans)
          × (e.daily_plans_by_code ≡ d.daily_plans_by_code))

  -- Records of the open plans complete those of the others.
  completed :
      (code : String) (plans active : List Plan) (rows more : List RunRow) (d e : Desk P X)
      → ((p : String → Bool) → count_records p rows + count_plans p active ≡ count_plans p plans)
      → RecordsOf more active
      → Passed code plans d (record { run_records = rows ++ more; api_requests = [] }) e
  completed code plans active rows more d e h r =
      inl (refl, λ p. omega (arith, h p, count-append p rows more, RecordsOf-count p more active r))

  read_bars-plans :
      (code : String) (d : Desk P X)
      → Gives (λ rows e. e.daily_plans_by_code ≡ d.daily_plans_by_code) (read_bars t code d)
  unfolding read_bars call
  read_bars-plans code d =
      if-Gives (λ rows e. e.daily_plans_by_code ≡ d.daily_plans_by_code) (t.works d.calls) _ _ refl
        tt

  module _ (code : String) (plans : List Plan) (d : Desk P X) (stack : Option String)
      (rows : List RunRow) where
    abbrev active : List Plan
    active = open_plans stack plans

    abbrev Counted : Type 0
    Counted =
        (p : String → Bool) → count_records p rows + count_plans p active ≡ count_plans p plans

    full_mode-Passed :
        (fetch : Option String) (bars : List (DailyRow (Bar P X))) (error : Option String)
        (e : Desk P X)
        → Counted
        → e.daily_plans_by_code ≡ d.daily_plans_by_code
        → Gives (Passed code plans d) (full_mode_result t code rows active fetch bars error e)
    unfolding full_mode_result write_daily_frames
    full_mode-Passed none bars error e h same = inr (stack, _, refl, h, same)
    full_mode-Passed (some fetch) bars (some error) e h same =
        completed code plans active rows _ d (write_daily_failures t active error e).1 h
          (failures-RecordsOf t active error e)
    full_mode-Passed (some fetch) bars none e h same =
        completed code plans active rows _ d
          (write_daily_frames t active bars full_history_start_date e).1 h
          (each-RecordsOf t active _ bars _ e)

    from_base-Passed :
        (factors : List (FactorRow P)) (base : Base (List (DailyRow (Bar P X)))) (e : Desk P X)
        → Counted
        → e.daily_plans_by_code ≡ d.daily_plans_by_code
        → Gives (Passed code plans d) (from_base t code rows active factors base e)
    unfolding from_base
    from_base-Passed factors (refetch reason) e h same = inr (stack, reason, refl, h, same)
    from_base-Passed factors (history base) e h same =
        bind-Gives (Passed code plans d) _ (write_all t active base factors) e (λ more f g.
          completed code plans active rows more d f h (
            subst (Gives (λ made z. RecordsOf made active)) g
              (all-RecordsOf t active base factors e)))

    base-plans :
        (fresh : List (DailyRow (Bar P X))) (e : Desk P X)
        → Gives
            (λ base f. f.daily_plans_by_code ≡ e.daily_plans_by_code)
            (partial_unadjusted_base t code fresh e)
    unfolding partial_unadjusted_base
    base-plans fresh e =
        bind-Gives (λ base f. f.daily_plans_by_code ≡ e.daily_plans_by_code) _ (read_bars t code) e
          (λ existing f g.
            let same : f.daily_plans_by_code ≡ e.daily_plans_by_code =
              subst (Gives (λ rows z. z.daily_plans_by_code ≡ e.daily_plans_by_code)) g
                (read_bars-plans code e) in
            elim (Bool-cases (has_data_in_range t existing)) [
              | inr none_there ↦ rw none_there same
              | inl there_is ↦
                  elim (Bool-cases (
                    daily_frames_differ_on_overlap t.same_values existing fresh t.start_day
                      t.end_day)) [
                        | inl differ ↦ rw (there_is, differ) same
                        | inr agree ↦ rw (there_is, agree) same
                      ]
            ])

    partial_mode-Passed :
        (factors : List (FactorRow P)) (bars : List (DailyRow (Bar P X))) (error : Option String)
        (e : Desk P X)
        → Counted
        → e.daily_plans_by_code ≡ d.daily_plans_by_code
        → Gives (Passed code plans d) (partial_mode_result t code rows active factors bars error e)
    unfolding partial_mode_result
    partial_mode-Passed factors bars (some error) e h same =
        completed code plans active rows _ d (write_daily_failures t active error e).1 h
          (failures-RecordsOf t active error e)
    partial_mode-Passed factors bars none e h same =
        bind-Gives (Passed code plans d) _ (partial_unadjusted_base t code bars) e (λ base f g.
          from_base-Passed factors base f h (
            subst (Gives (λ b z. z.daily_plans_by_code ≡ e.daily_plans_by_code)) g
              (base-plans bars e)
            ∙ same))

  pub initial-Passed :
      (code : String) (plans : List Plan) (fetch : Option String) (bars : List (DailyRow (Bar P X)))
      (error : Option String) (d : Desk P X)
      → Gives (Passed code plans d) (process_initial t code plans fetch bars error d)
  unfolding process_initial
  initial-Passed code plans fetch bars error d =
      let stack = (factor_state_for_code t code d).error_stack in
      let (chosen, counted, same) = sift-Sifted stack plans d in
      let swept = sift t stack plans d in
      let rows = swept.0.0 in
      let counts : Counted code plans d stack rows = λ p.
        subst (λ a. count_records p rows + count_plans p a ≡ count_plans p plans) chosen
          (counted p) in
      rw chosen (elim (Bool-cases (is_empty (open_plans stack plans))) [
        | inl e ↦ rw e (
            completed code plans (open_plans stack plans) rows [] d swept.1 counts
              (subst (RecordsOf []) (sym (is_empty-nil (open_plans stack plans) e)) tt))
        | inr e ↦ rw e (
            if-Gives (Passed code plans d) t.full_mode _ _
              (full_mode-Passed code plans d stack rows fetch bars error swept.1 counts same)
              (partial_mode-Passed code plans d stack rows (factor_state_for_code t code d).frame
                bars error swept.1 counts same))
      ])
