-- ===== src/Baostock/Dispatch/Log.antt =====
-- The tasks submitted so far, in order, and what the dispatcher's state owes to them.
use quant_data_center_cn.Prelude.{
  ℕ, zero, suc, ◌+◌, ◌≤◌, ◌<◌, String, nat_eq, some, List, [], ◌∷◌, ◌++◌, Bool, true, false,
  if◌then◌else◌, length, get_elem?, ◌≡◌, refl, sym, ap, ◌⊎◌, arith, In, inl, inr,
}
use mathlib.Core.List.{append_assoc, append-nil}
use quant_data_center_cn.Prelude.Dict.{lookup}
use quant_data_center_cn.Baostock.Dispatch.Futures.{Future, Distinct}
use quant_data_center_cn.Baostock.Dispatch.{
  Task, factor_success, factor_failure, daily_initial, full_refetch, flush_metadata,
  ApiFetchRequest, BackgroundTaskResult, Dispatcher, World,
}

-- What the main thread submits by itself: a code's factors or bars, fetched or not, and the flush.
pub data Turn : Type 0 where
  factors bars : String → Bool → Turn
  flush : Turn

abbrev pub turn_of : Task → List Turn
turn_of (factor_success code) = factors code true ∷ []
turn_of (factor_failure code) = factors code false ∷ []
turn_of (daily_initial code factor works) = bars code works ∷ []
turn_of (full_refetch request works) = []
turn_of flush_metadata = flush ∷ []

abbrev pub turns_of : List Task → List Turn
turns_of [] = []
turns_of (task ∷ log) = turn_of task ++ turns_of log

abbrev pub refetch_in : Task → List ApiFetchRequest
refetch_in (full_refetch request works) = request ∷ []
refetch_in task = []

-- How many requests a test holds for.
abbrev pub tally : (ApiFetchRequest → Bool) → List ApiFetchRequest → ℕ
tally p [] = 0
tally p (request ∷ requests) = (if p request then 1 else 0) + tally p requests

abbrev pub refetches : (ApiFetchRequest → Bool) → List Task → ℕ
refetches p [] = 0
refetches p (task ∷ log) = tally p (refetch_in task) + refetches p log

module _ {ℓ} {A : Type ℓ} where
  pub get_elem?-append :
      (xs ys : List A) (n : ℕ) (a : A) → get_elem? xs n ≡ some a → get_elem? (xs ++ ys) n ≡ some a
  get_elem?-append [] ys n a h = cc
  get_elem?-append (x ∷ xs) ys zero a h = h
  get_elem?-append (x ∷ xs) ys (suc n) a h = get_elem?-append xs ys n a h

  pub get_elem?-last : (xs : List A) (a : A) → get_elem? (xs ++ a ∷ []) (length xs) ≡ some a
  get_elem?-last [] a = refl
  get_elem?-last (x ∷ xs) a = get_elem?-last xs a

  pub get_elem?-lt : (xs : List A) (n : ℕ) (a : A) → get_elem? xs n ≡ some a → n < length xs
  get_elem?-lt [] n a h = cc
  get_elem?-lt (x ∷ xs) zero a h = omega arith
  get_elem?-lt (x ∷ xs) (suc n) a h = omega (arith, get_elem?-lt xs n a h)

  pub get_elem?_within : (xs : List A) (n : ℕ) → n < length xs → (a : A) × (get_elem? xs n ≡ some a)
  get_elem?_within [] n h = absurd (omega arith)
  get_elem?_within (x ∷ xs) zero h = (x, refl)
  get_elem?_within (x ∷ xs) (suc n) h = get_elem?_within xs n (omega arith)

  -- An item of a list with one more is an old one or the new one.
  pub get_elem?-append_cases :
      (xs : List A) (a : A) (n : ℕ) (b : A)
      → get_elem? (xs ++ a ∷ []) n ≡ some b
      → (get_elem? xs n ≡ some b) ⊎ ((n ≡ length xs) × (a ≡ b))
  get_elem?-append_cases [] a zero b h = inr (refl, cc)
  get_elem?-append_cases [] a (suc n) b h = cc
  get_elem?-append_cases (x ∷ xs) a zero b h = inl h
  get_elem?-append_cases (x ∷ xs) a (suc n) b h = elim (get_elem?-append_cases xs a n b h) [
    | inl old ↦ inl old
    | inr (e, same) ↦ inr (ap suc e, same)
  ]

pub turns_of-append : (xs ys : List Task) → turns_of (xs ++ ys) ≡ turns_of xs ++ turns_of ys
turns_of-append [] ys = refl
turns_of-append (x ∷ xs) ys =
    rw (turns_of-append xs ys) (sym (append_assoc (turn_of x) (turns_of xs) (turns_of ys)))

pub refetches-append :
    (p : ApiFetchRequest → Bool) (xs ys : List Task)
    → refetches p (xs ++ ys) ≡ refetches p xs + refetches p ys
refetches-append p [] ys = omega arith
refetches-append p (x ∷ xs) ys = omega (arith, refetches-append p xs ys)

module _ {R : Type 0} (w : World R) where
  -- The records of all tasks from a number on, in the order of submission.
  abbrev pub records_from : ℕ → List Task → List R
  records_from n [] = []
  records_from n (task ∷ log) = (w.outcome n task).run_records ++ records_from (suc n) log

  -- Those of the first so many.
  abbrev pub first_records : ℕ → ℕ → List Task → List R
  first_records zero n log = []
  first_records (suc k) n [] = []
  first_records (suc k) n (task ∷ log) =
      (w.outcome n task).run_records ++ first_records k (suc n) log

  abbrev pub requests_from : (ApiFetchRequest → Bool) → ℕ → List Task → ℕ
  requests_from p n [] = 0
  requests_from p n (task ∷ log) =
      tally p (w.outcome n task).api_requests + requests_from p (suc n) log

  -- The requests of the tasks in flight.
  abbrev pub owed : (ApiFetchRequest → Bool) → List Future → ℕ
  owed p [] = 0
  owed p (f ∷ fs) = tally p (w.outcome f.0 f.1).api_requests + owed p fs

  pub first_records-next :
      (k n : ℕ) (log : List Task) (task : Task)
      → get_elem? log k ≡ some task
      → first_records (suc k) n log ≡ first_records k n log ++ (w.outcome (n + k) task).run_records
  first_records-next k n [] task h = cc
  first_records-next zero n (t ∷ log) task h =
      let e : n + 0 ≡ n = omega arith in
      let same : t ≡ task = cc in rw (e, sym same, append-nil) refl
  first_records-next (suc k) n (t ∷ log) task h =
      let e : n + suc k ≡ suc n + k = omega arith in
      rw (e, first_records-next k (suc n) log task h)
        (sym (append_assoc (w.outcome n t).run_records (first_records k (suc n) log) _))

  pub first_records-append :
      (k n : ℕ) (log more : List Task)
      → k ≤ length log
      → first_records k n (log ++ more) ≡ first_records k n log
  first_records-append zero n log more h = refl
  first_records-append (suc k) n [] more h = absurd (omega arith)
  first_records-append (suc k) n (t ∷ log) more h =
      ap (◌++◌ (w.outcome n t).run_records) (first_records-append k (suc n) log more (omega arith))

  pub first_records_all :
      (n : ℕ) (log : List Task) → first_records (length log) n log ≡ records_from n log
  first_records_all n [] = refl
  first_records_all n (t ∷ log) =
      ap (◌++◌ (w.outcome n t).run_records) (first_records_all (suc n) log)

  pub requests_from-append :
      (p : ApiFetchRequest → Bool) (n : ℕ) (xs : List Task) (t : Task)
      → requests_from p n (xs ++ t ∷ [])
        ≡ requests_from p n xs + tally p (w.outcome (n + length xs) t).api_requests
  requests_from-append p n [] t = let e : n + 0 ≡ n = omega arith in rw e (omega arith)
  requests_from-append p n (x ∷ xs) t =
      let e : n + suc (length xs) ≡ suc n + length xs = omega arith in
      rw e (omega (arith, requests_from-append p (suc n) xs t))

abbrev pub factor_task : String → Bool → Task
factor_task code true = factor_success code
factor_task code false = factor_failure code

-- What holds of a dispatcher that has submitted the tasks of a log, for the turns of the main thread,
-- and has some requests in hand that it has not submitted yet.
pub record Logged {R : Type 0} (w : World R) (earlier : List R) (turns : List Turn)
    (log : List Task) (hand : List ApiFetchRequest) (d : Dispatcher R) : Type 0 where
  pub counted : d.next_submit_sequence ≡ length log
  pub distinct : Distinct d.pending
  pub in_flight : (f : Future) → In f d.pending → get_elem? log f.0 ≡ some f.1
  -- What is kept for a later number is what its task returned.
  pub kept :
      (n : ℕ) (r : BackgroundTaskResult R)
      → d.next_record_sequence ≤ n
      → lookup n d.completed_results ≡ some r
      → (task : Task) × (get_elem? log n ≡ some task) × (r ≡ w.outcome n task)
  -- A task whose records are still to come is in flight or kept.
  pub due :
      (n : ℕ) (task : Task)
      → d.next_record_sequence ≤ n
      → get_elem? log n ≡ some task
      → In (n, task) d.pending
        ⊎ ((r : BackgroundTaskResult R) × (lookup n d.completed_results ≡ some r))
  pub within : d.next_record_sequence ≤ length log
  pub released : d.run_records ≡ earlier ++ first_records w d.next_record_sequence 0 log
  pub turned : turns_of log ≡ turns
  -- Each request has its refetch, or is in hand, or belongs to a task in flight.
  pub balance :
      (p : ApiFetchRequest → Bool)
      → refetches p log + tally p hand + owed w p d.pending ≡ requests_from w p 0 log
  -- A daily task that waits does so for the factors of its code, submitted before.
  pub waits :
      (m n : ℕ) (code : String) (works : Bool)
      → get_elem? log m ≡ some (daily_initial code (some n) works)
      → (n < m) × (fetched : Bool) × (get_elem? log n ≡ some (factor_task code fetched))
