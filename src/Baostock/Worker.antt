-- ===== src/Baostock/Worker.antt =====
-- src/sources/baostock/update_daily_worker.py: `_DailyUpdateBackgroundWorker`, with the frames and the rows that it
-- writes (update_daily_frames.py, update_daily_metadata.py). A method takes what is stored, what the batch was
-- given, and the worker's two dictionaries, and returns them. A call of the store, the batch or the queue may raise:
-- the answers of those calls, in their order, are `works`. An error stack is a text that is not empty, and
-- `traceback` the one of the exception at hand. Log lines are left out. A path is a text; frames are
-- the cleaned ones.
pub mod Daily
pub mod Factors
pub mod Records
pub mod Requests
pub mod Settled
pub mod Failures
pub mod Answers
use quant_data_center_cn.Prelude.{
  ℕ, suc, ◌+◌, String, string_eq, pair_eq, Option, none, some, List, [], ◌∷◌, ◌++◌, Bool, true,
  false, ◌&&◌, ◌||◌, not, if◌then◌else◌, ◌==◌, length, any, select, contains, leb, map,
}
use quant_data_center_cn.Prelude.Dict.{Dict, lookup, insert, remove}
use quant_data_center_cn.Pipeline.Rows.{
  LifecycleTaskRef, Moment, RunRow, LifecycleRows, success_rows, failure_rows,
}
use quant_data_center_cn.Pipeline.Frames.{
  DailyRow, merge_daily_frames, daily_frames_differ_on_overlap, is_inside,
}
use quant_data_center_cn.Baostock.Targets.{
  DailyTargetPlan, full_history_start_date, adjustment_factor_dataset,
}
use quant_data_center_cn.Baostock.Dispatch.{ApiFetchRequest, BackgroundTaskResult}
use quant_data_center_cn.Baostock.Adjusted.{
  Bar, FactorRow, Factor, unadjusted_daily_dataset, is_adjusted_daily_dataset,
  calculate_adjusted_daily_bar,
}

abbrev pub Plan : Type 0
Plan = DailyTargetPlan String

-- `_AdjustFactorState`
pub record FactorState (P : Type 0) : Type 0 where
  pub frame : List (FactorRow P)
  pub changed : Bool
  pub error_stack : Option String

-- What the methods change: the store, the rows given to the metadata batch, the codes given to the
-- capital structure queue, the state of the worker, and how many calls out of it there were.
pub record Desk (P X : Type 0) : Type 0 where
  pub factors : Dict String (List (FactorRow P))
  pub bars : Dict (String × String) (List (DailyRow (Bar P X)))
  pub added : List LifecycleRows
  pub enqueued : List String
  pub factor_state : Dict String (FactorState P)
  pub daily_plans_by_code : Dict String (List Plan)
  pub calls : ℕ

-- What the worker is made with and what it uses of other code.
pub record Tools (P X : Type 0) : Type 0 where
  pub full_mode : Bool
  pub start_date : String
  pub end_date : String
  -- The two dates as pandas reads them.
  pub start_day : ℕ
  pub end_day : ℕ
  pub retain_factor_state : Bool
  pub works : ℕ → Bool
  pub moment : ℕ → Moment
  pub traceback : ℕ → String
  pub output_path : String → String → String
  pub prepared : List (FactorRow P) → List (FactorRow P)
  pub factors_equal : List (FactorRow P) → List (FactorRow P) → Bool
  pub adjust_flag_for_dataset : String → String
  pub sort_factors : List (Factor P) → List (Factor P)
  pub times : P → P → P
  pub one : P
  pub sort_rows : List (DailyRow (Bar P X)) → List (DailyRow (Bar P X))
  pub same_values : Bar P X → Bar P X → Bool

-- A method's step that may raise: what it changed before it did stays.
pub data Try (P X A : Type 0) : Type 0 where
  gives : A → Desk P X → Try P X A
  raises : Desk P X → Try P X A

abbrev pub Step : Type 0 → Type 0 → Type 0 → Type 0
Step P X A = Desk P X → Try P X A

infixl 5 ◌>>=◌ ◌>>◌
abbrev pub ◌>>=◌ : {P X A B : Type 0} → Step P X A → (A → Step P X B) → Step P X B
◌>>=◌ m f d = elim (m d) [ gives a e ↦ f a e | raises e ↦ raises e ]

abbrev pub ◌>>◌ : {P X A B : Type 0} → Step P X A → Step P X B → Step P X B
m >> k = m >>= λ _. k

abbrev pub pure : {P X A : Type 0} → A → Step P X A
pure a d = gives a d

-- `try: ... except Exception: ...`
abbrev pub except : {P X A : Type 0} → Step P X A → Step P X A → Step P X A
except m handler d = elim (m d) [ gives a e ↦ gives a e | raises e ↦ handler e ]

-- What a step leaves behind, whether it raises or not.
abbrev pub after : {P X A : Type 0} → Try P X A → Desk P X
after (gives a e) = e
after (raises e) = e

abbrev pub raise : {P X A : Type 0} → Step P X A
raise d = raises d

abbrev pub or_raise : {P X A : Type 0} → Option A → Step P X A
or_raise none = raise
or_raise (some a) = pure a

-- A step that cannot raise.
abbrev pub surely : {P X A : Type 0} → (Desk P X → A × Desk P X) → Step P X A
surely act d = gives (act d).0 (act d).1

abbrev pub task_ref : String → String → String → String → String → Option String → LifecycleTaskRef
task_ref dataset code start_date end_date path checkpoint_start_date = record {
  pipeline = "update_daily";
  dataset = dataset;
  code = code;
  start_date = start_date;
  end_date = end_date;
  output_path = path;
  checkpoint_start_date = checkpoint_start_date;
}

abbrev pub or_empty {ℓ} : {A : Type ℓ} → Option (List A) → List A
or_empty none = []
or_empty (some xs) = xs

-- `datasets=tuple(dict.fromkeys(plan.dataset for plan in plans))`
unfoldable pub datasets_of : List Plan → List String
datasets_of [] = []
datasets_of (plan ∷ plans) =
    plan.dataset ∷ select (λ dataset. not (dataset == plan.dataset)) (datasets_of plans)

abbrev pub is_empty {ℓ} : {A : Type ℓ} → List A → Bool
is_empty [] = true
is_empty (x ∷ xs) = false

abbrev pub no_result : BackgroundTaskResult RunRow
no_result = record { run_records = []; api_requests = [] }

module _ {P X : Type 0} (t : Tools P X) where
  -- A call out of the worker.
  unfoldable pub call : {A : Type 0} → (Desk P X → A × Desk P X) → Step P X A
  call act d =
      let e = record d { calls = suc d.calls } in
      if t.works d.calls then gives (act e).0 (act e).1 else raises e

  -- `self._metadata_batch.add(...)`
  unfoldable pub add_rows : LifecycleRows → Step P X (Unit {0})
  unfolding call
  add_rows rows = call (λ d. (tt, record d { added = d.added ++ rows ∷ [] }))

  unfoldable pub read_factors : String → Step P X (List (FactorRow P))
  read_factors code = call (λ d. (or_empty (lookup code d.factors), d))

  unfoldable pub write_factors : String → List (FactorRow P) → Step P X (Unit {0})
  write_factors code frame = call (λ d. (tt, record d { factors = insert code frame d.factors }))

  unfoldable pub read_bars : String → Step P X (List (DailyRow (Bar P X)))
  read_bars code = call (λ d. (or_empty (lookup (unadjusted_daily_dataset, code) d.bars), d))

  unfoldable pub write_bars : String → String → List (DailyRow (Bar P X)) → Step P X (Unit {0})
  write_bars dataset code rows =
      call (λ d. (tt, record d { bars = insert (dataset, code) rows d.bars }))

  unfoldable pub enqueue : String → Step P X (Unit {0})
  enqueue code = call (λ d. (tt, record d { enqueued = d.enqueued ++ code ∷ [] }))

  -- `_set_factor_state`, `_factor_state_for_code`, `_set_daily_plans`, `_daily_plans_for_code`,
  -- `_release_code_state`
  unfoldable pub set_factor_state : String → FactorState P → Step P X (Unit {0})
  set_factor_state code state d =
      gives tt (record d { factor_state = insert code state d.factor_state })

  abbrev pub state_or_new : Option (FactorState P) → FactorState P
  state_or_new none = record { frame = []; changed = false; error_stack = none }
  state_or_new (some state) = state

  unfoldable pub factor_state_for_code : String → Desk P X → FactorState P
  factor_state_for_code code d = state_or_new (lookup code d.factor_state)

  unfoldable pub set_daily_plans : String → List Plan → Desk P X → Desk P X
  set_daily_plans code plans d = record d {
    daily_plans_by_code = insert code plans d.daily_plans_by_code;
  }

  unfoldable pub daily_plans_for_code : String → Desk P X → List Plan
  daily_plans_for_code code d = or_empty (lookup code d.daily_plans_by_code)

  unfoldable pub release_code_state : String → Desk P X → Desk P X
  release_code_state code d = record d {
    factor_state = remove code d.factor_state;
    daily_plans_by_code = remove code d.daily_plans_by_code;
  }
