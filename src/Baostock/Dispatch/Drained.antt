-- ===== src/Baostock/Dispatch/Drained.antt =====
-- What a submit and a drain do while there is room: no submit of a drain waits for a drain of its own.
use quant_data_center_cn.Prelude.{
  String, ℕ, zero, suc, ◌+◌, ◌≤◌, ◌<◌, string_eq, nat_eq, List, [], ◌∷◌, true, false, ◌==◌, ==_iff,
  length, leb, ◌≡◌, refl, arith, All, any, In, Bool-cases, inl, inr,
}
use quant_data_center_cn.Prelude.Dict.{insert}
use quant_data_center_cn.Baostock.Dispatch.Futures.{Future, weight, In-is_pending, length-without}
use quant_data_center_cn.Baostock.Dispatch.{
  Task, full_refetch, ApiFetchRequest, Dispatcher, ran, World, without, put_in_flight,
  flush_ordered_run_records, dispatch_api_request, dispatch_all, collect_completed,
  submit_background,
}

abbrev pub Supported : ApiFetchRequest → Type 0
Supported request = request.kind ≡ "daily_bar_full_refetch"

pub weight-le : (task : Task) → weight task ≤ 2
weight-le task = ground arith

-- What the tasks return, as the background worker does.
pub record Answers {R : Type 0} (w : World R) : Type 0 where
  pub few : (n : ℕ) (task : Task) → length (w.outcome n task).api_requests < weight task
  pub supported : (n : ℕ) (task : Task) → All Supported (w.outcome n task).api_requests
  -- A wait for some futures returns when one of them is done.
  pub finishes :
      (look : ℕ) (f : Future) (fs : List Future)
      → any (λ (g : Future). w.is_done true look (f ∷ fs) g.0) (f ∷ fs) ≡ true
  -- The stored factors that a code is to use again can be read.
  pub reads : (code : String) → w.reuses code ≡ true

module _ {R : Type 0} (w : World R) where
  abbrev pub refetch_of : ApiFetchRequest → Task
  refetch_of request = full_refetch request (w.fetches request)

  -- The tasks of some requests go in flight, one by one.
  unfoldable pub put_all : List ApiFetchRequest → Dispatcher R → Dispatcher R
  put_all [] d = d
  put_all (request ∷ requests) d = put_all requests (put_in_flight (refetch_of request) d)

  abbrev pub taken_up : ℕ × Task → Dispatcher R → Dispatcher R
  taken_up (n, task) d = record d {
    pending = without n d.pending;
    completed_results = insert n (w.outcome n task) d.completed_results;
  }

  unfoldable pub collected : ℕ × Task → Dispatcher R → Dispatcher R
  collected future d =
      flush_ordered_run_records
        (put_all (w.outcome future.0 future.1).api_requests (taken_up future d))

  pub collected_all : List (ℕ × Task) → Dispatcher R → Dispatcher R
  collected_all [] d = d
  collected_all (future ∷ done) d = collected_all done (collected future d)

  module _ (max_pending : ℕ) where
    pub submit-room :
        (rounds : ℕ) (task : Task) (d : Dispatcher R)
        → 0 < rounds
        → length d.pending < max_pending
        → submit_background w max_pending rounds task d ≡ ran (put_in_flight task d)
    unfolding submit_background
    submit-room zero task d r h = absurd (omega arith)
    submit-room (suc rounds) task d r h =
        let free : leb max_pending (length d.pending) ≡ false = ground arith in rw free refl

    dispatch-room :
        (rounds : ℕ) (request : ApiFetchRequest) (d : Dispatcher R)
        → 0 < rounds
        → Supported request
        → length d.pending < max_pending
        → dispatch_api_request w.fetches (submit_background w max_pending rounds) request d
          ≡ ran (put_in_flight (refetch_of request) d)
    unfolding dispatch_api_request
    dispatch-room rounds request d r k h =
        let known : (request.kind == "daily_bar_full_refetch") ≡ true =
          (==_iff request.kind _).1 k in
        elim (Bool-cases (w.fetches request)) [
          | inl e ↦ rw (known, e, submit-room rounds (full_refetch request true) d r h) refl
          | inr e ↦ rw (known, e, submit-room rounds (full_refetch request false) d r h) refl
        ]

    pub dispatch_all-room :
        (rounds : ℕ) (requests : List ApiFetchRequest) (d : Dispatcher R)
        → 0 < rounds
        → All Supported requests
        → length requests + length d.pending ≤ max_pending
        → dispatch_all w.fetches (submit_background w max_pending rounds) requests d
          ≡ ran (put_all requests d)
    unfolding dispatch_all put_all
    dispatch_all-room rounds [] d r k h = refl
    dispatch_all-room rounds (request ∷ requests) d r k h =
        rw (dispatch-room rounds request d r k.0 (omega (arith, h))) (
          dispatch_all-room rounds requests (put_in_flight (refetch_of request) d) r k.1
            (unfold put_in_flight in omega (arith, h)))

    pub collect-room :
        (answers : Answers w) (rounds : ℕ) (f : ℕ × Task) (d : Dispatcher R)
        → 0 < rounds
        → In f d.pending
        → length d.pending ≤ max_pending
        → collect_completed w.fetches (submit_background w max_pending rounds) w.outcome f d
          ≡ ran (collected f d)
    unfolding collect_completed collected
    collect-room answers rounds f d r i h =
        let found = In-is_pending f d.pending i in
        let one = weight-le f.1 in
        rw
          (
            found,
            dispatch_all-room rounds (w.outcome f.0 f.1).api_requests (taken_up f d) r
                (answers.supported f.0 f.1)
                (omega (arith, h, answers.few f.0 f.1, length-without f d.pending i, one)),
          )
          refl
