-- ===== src/Baostock/Worker/Failures.antt =====
-- A fetch of the bars that failed: every plan fails, and nothing is written.
use quant_data_center_cn.Prelude.{
  String, string_eq, Option, none, some, List, [], ◌∷◌, ◌++◌, Bool, true, false, if◌then◌else◌, ◌≡◌,
  refl, sym, ◌∙◌, arith, All, Bool-cases, inl, inr,
}
use quant_data_center_cn.Pipeline.Rows.{LifecycleRows, RunRow, run_row, failure_rows}
use quant_data_center_cn.Pipeline.Frames.{DailyRow}
use quant_data_center_cn.Baostock.Dispatch.{BackgroundTaskResult}
use quant_data_center_cn.Baostock.Adjusted.{Bar, FactorRow, is_adjusted_daily_dataset}
use quant_data_center_cn.Baostock.Worker.{
  Plan, Desk, Tools, Try, gives, raises, after, is_empty, add_rows, call, factor_state_for_code,
  set_daily_plans, release_code_state,
}
use quant_data_center_cn.Baostock.Worker.Daily.{
  write_daily_failure, write_daily_failures, sift, with_records, full_mode_result,
  partial_mode_result, process_initial, recovered, release_settled, process_daily_initial,
}
use quant_data_center_cn.Baostock.Worker.Records.{count_records, count_plans}
use quant_data_center_cn.Baostock.Worker.Settled.{daily_initial-Outcome}

abbrev pub IsFailed : RunRow → Type 0
IsFailed row = row.status ≡ "failed"

All-append_rows :
    (P : RunRow → Type 0) (xs ys : List RunRow) → All P xs → All P ys → All P (xs ++ ys)
All-append_rows P [] ys h k = k
All-append_rows P (x ∷ xs) ys h k = (h.0, All-append_rows P xs ys h.1 k)

if-either : {A : Type 0} (P : A → Type 0) (b : Bool) (x y : A) → P x → P y → P (if b then x else y)
if-either P true x y h k = h
if-either P false x y h k = k

module _ {P X : Type 0} (t : Tools P X) where
  add_rows-bars : (rows : LifecycleRows) (d : Desk P X) → (after (add_rows t rows d)).bars ≡ d.bars
  unfolding add_rows call
  add_rows-bars rows d = ground arith

  failure-IsFailed :
      (plan : Plan) (stack : String) (d : Desk P X)
      → IsFailed (write_daily_failure t plan stack d).0
        × ((write_daily_failure t plan stack d).1.bars ≡ d.bars)
  unfolding write_daily_failure failure_rows run_row
  failure-IsFailed plan stack d = (refl, add_rows-bars _ d)

  failures-IsFailed :
      (plans : List Plan) (stack : String) (d : Desk P X)
      → All IsFailed (write_daily_failures t plans stack d).0
        × ((write_daily_failures t plans stack d).1.bars ≡ d.bars)
  unfolding write_daily_failures
  failures-IsFailed [] stack d = (tt, refl)
  failures-IsFailed (plan ∷ plans) stack d =
      let first = failure-IsFailed plan stack d in
      let rest = failures-IsFailed plans stack (write_daily_failure t plan stack d).1 in
      ((first.0, rest.0), rest.1 ∙ first.1)

  sift-IsFailed :
      (stack : Option String) (plans : List Plan) (d : Desk P X)
      → All IsFailed (sift t stack plans d).0.0 × ((sift t stack plans d).1.bars ≡ d.bars)
  unfolding sift
  sift-IsFailed none plans d = (tt, refl)
  sift-IsFailed (some stack) [] d = (tt, refl)
  sift-IsFailed (some stack) (plan ∷ plans) d =
      elim (Bool-cases (is_adjusted_daily_dataset plan.dataset)) [
        | inl a ↦
            let first = failure-IsFailed plan stack d in
            let rest = sift-IsFailed (some stack) plans (write_daily_failure t plan stack d).1 in
            rw a ((first.0, rest.0), rest.1 ∙ first.1)
        | inr a ↦ rw a (sift-IsFailed (some stack) plans d)
      ]

  -- The step gives failures only, asks for nothing, and leaves the stored bars.
  abbrev Fails : Desk P X → Try P X (BackgroundTaskResult RunRow) → Type 0
  Fails d (raises e) = ⊥
  Fails d (gives result e) =
      All IsFailed result.run_records × (result.api_requests ≡ []) × (e.bars ≡ d.bars)

  none_open :
      (d : Desk P X) (rows : List RunRow) (e : Desk P X)
      → All IsFailed rows × (e.bars ≡ d.bars)
      → Fails d (gives (with_records t rows []) e)
  none_open d rows e first = (All-append_rows IsFailed rows [] first.0 tt, refl, first.1)

  full_mode-Fails :
      (d : Desk P X) (code : String) (rows : List RunRow) (active : List Plan) (fetch : String)
      (bars : List (DailyRow (Bar P X))) (stack : String) (e : Desk P X)
      → All IsFailed rows × (e.bars ≡ d.bars)
      → All IsFailed (write_daily_failures t active stack e).0
        × ((write_daily_failures t active stack e).1.bars ≡ e.bars)
      → Fails d (full_mode_result t code rows active (some fetch) bars (some stack) e)
  unfolding full_mode_result
  full_mode-Fails d code rows active fetch bars stack e first more =
      (All-append_rows IsFailed rows _ first.0 more.0, refl, more.1 ∙ first.1)

  partial_mode-Fails :
      (d : Desk P X) (code : String) (rows : List RunRow) (active : List Plan)
      (factors : List (FactorRow P)) (bars : List (DailyRow (Bar P X))) (stack : String)
      (e : Desk P X)
      → All IsFailed rows × (e.bars ≡ d.bars)
      → All IsFailed (write_daily_failures t active stack e).0
        × ((write_daily_failures t active stack e).1.bars ≡ e.bars)
      → Fails d (partial_mode_result t code rows active factors bars (some stack) e)
  unfolding partial_mode_result
  partial_mode-Fails d code rows active factors bars stack e first more =
      (All-append_rows IsFailed rows _ first.0 more.0, refl, more.1 ∙ first.1)

  initial-Fails :
      (code : String) (plans : List Plan) (fetch : String) (bars : List (DailyRow (Bar P X)))
      (stack : String) (d : Desk P X)
      → Fails d (process_initial t code plans (some fetch) bars (some stack) d)
  unfolding process_initial
  initial-Fails code plans fetch bars stack d =
      let first = sift-IsFailed (factor_state_for_code t code d).error_stack plans d in
      let swept = sift t (factor_state_for_code t code d).error_stack plans d in
      let more = failures-IsFailed swept.0.1 stack swept.1 in
      if-either (Fails d) (is_empty swept.0.1) (gives (with_records t swept.0.0 []) swept.1) _
        (none_open d swept.0.0 swept.1 first)
        (if-either (Fails d) t.full_mode
          (full_mode_result t code swept.0.0 swept.0.1 (some fetch) bars (some stack) swept.1)
          (partial_mode_result t code swept.0.0 swept.0.1 (factor_state_for_code t code d).frame
            bars (some stack) swept.1)
          (full_mode-Fails d code swept.0.0 swept.0.1 fetch bars stack swept.1 first more)
          (partial_mode-Fails d code swept.0.0 swept.0.1 (factor_state_for_code t code d).frame bars
            stack swept.1 first more))

  released-bars :
      (code : String) (plans : List Plan) (d : Desk P X) (r : Try P X (BackgroundTaskResult RunRow))
      → Fails d r
      → let done = release_settled t code (recovered t plans r) in
        All IsFailed done.0.run_records × (done.0.api_requests ≡ []) × (done.1.bars ≡ d.bars)
  unfolding release_code_state
  released-bars code plans d (gives result e) h = (h.0, h.1, rw h.1 h.2)
  released-bars code plans d (raises e) h = elim h [ ]

  -- If the bars of a code could not be fetched, the first pass fails every plan, one record each by data set, asks for
  -- nothing, and leaves all stored bars as they were, whichever calls of other code raise.
  pub fetch_error_writes_nothing :
      (code : String) (plans : List Plan) (fetch : String) (bars : List (DailyRow (Bar P X)))
      (stack : String) (d : Desk P X)
      → let done = process_daily_initial t code plans (some fetch) bars (some stack) d in
        All IsFailed done.0.run_records
        × ((p : String → Bool) → count_records p done.0.run_records ≡ count_plans p plans)
        × (done.0.api_requests ≡ [])
        × (done.1.bars ≡ d.bars)
  unfolding process_daily_initial set_daily_plans
  fetch_error_writes_nothing code plans fetch bars stack d =
      let begun = set_daily_plans t code plans d in
      let h =
        released-bars code plans begun
          (process_initial t code plans (some fetch) bars (some stack) begun)
          (initial-Fails code plans fetch bars stack begun) in
      (
        h.0,
        elim (daily_initial-Outcome t code plans (some fetch) bars (some stack) d) [
          | inl all ↦ all.1
          | inr asked ↦ let impossible : [] ≡ _ ∷ [] = sym h.1 ∙ asked.2 in cc
        ],
        h.1,
        h.2,
      )
