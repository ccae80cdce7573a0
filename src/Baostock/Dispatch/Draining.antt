-- ===== src/Baostock/Dispatch/Draining.antt =====
-- A drain, and a submit, go on, keep the account, and lighten the load of what is in flight.
use quant_data_center_cn.Prelude.{
  subst, any, select, select-In, leb, ◌-◌, ℕ, zero, suc, ◌+◌, ◌≤◌, ◌<◌, nat_eq, some, List, [], ◌∷◌,
  ◌++◌, Bool, true, length, get_elem?, ◌≡◌, ◌≢◌, refl, ap, ◌∙◌, ◌⊎◌, arith, All-In, In, here, there,
  Bool-cases, inl, inr,
}
use mathlib.Core.List.{append-nil}
use quant_data_center_cn.Prelude.SortBy.{sort_by, In-sort_by, length-sort_by}
use quant_data_center_cn.Baostock.Dispatch.Futures.{
  weight, load, length-le-load, load-without, length-without, number, Distinct-select,
  Distinct-sort_by, Future, Distinct, Differs, without-In,
}
use quant_data_center_cn.Baostock.Dispatch.Drained.{
  taken_up, Answers, refetch_of, put_all, collected, collect-room, weight-le,
}
use quant_data_center_cn.Baostock.Dispatch.Log.{Turn, turn_of, refetch_in, get_elem?-last, Logged}
use quant_data_center_cn.Baostock.Dispatch.{
  Task, ApiFetchRequest, Dispatcher, World, put_in_flight, Flow, ran, collect_all, drain_completed,
  submit_background,
}
use quant_data_center_cn.Baostock.Dispatch.Steps.{MayWait, put_in_flight-Logged, taken_up-Logged}
use quant_data_center_cn.Baostock.Dispatch.Flushed.{
  IsFlushed, flush-IsFlushed, flush-pending, flush-Logged,
}

pub List-cases : {A : Type 0} (xs : List A) → (xs ≡ []) ⊎ ((y : A) × (ys : List A) × (xs ≡ y ∷ ys))
List-cases [] = inl refl
List-cases (x ∷ xs) = inr (x, xs, refl)

any-length : {A : Type 0} (p : A → Bool) (xs : List A) → any p xs ≡ true → 0 < length (select p xs)
any-length p [] h = cc
any-length p (x ∷ xs) h = ground (arith, any-length p xs)

module _ {R : Type 0} (w : World R) (earlier : List R) (max_pending : ℕ) where
  -- The state of the dispatcher between two calls, with what the log is known to hold.
  abbrev pub Account : (List Task → Type 0) → List Turn → Dispatcher R → Type 0
  Account P turns d =
      (log : List Task) × P log
      × Logged w earlier turns log [] d
      × IsFlushed d
      × (length d.pending ≤ max_pending)

  -- A call goes on with the account kept and a load up to a bound.
  abbrev pub Goes : (List Task → Dispatcher R → Type 0) → List Turn → ℕ → Flow R → Type 0
  Goes Q turns bound flow =
      (e : Dispatcher R) × (flow ≡ ran e)
      × Account (λ log. Q log e) turns e
      × (load e.pending ≤ bound)

  put_all-pending :
      (requests : List ApiFetchRequest) (d : Dispatcher R)
      → (length (put_all w requests d).pending ≡ length requests + length d.pending)
        × (load (put_all w requests d).pending ≡ length requests + load d.pending)
        × ((f : Future) → In f d.pending → In f (put_all w requests d).pending)
  unfolding put_all put_in_flight
  put_all-pending [] d = (omega arith, omega arith, λ f i. i)
  put_all-pending (q ∷ requests) d =
      let (n, l, keeps) = put_all-pending requests (put_in_flight (refetch_of w q) d) in
      (omega (arith, n), omega (arith, l), λ f i. keeps f (there i))

  module _ (P : List Task → Type 0)
      (grows : (log : List Task) (task : Task) → P log → P (log ++ task ∷ []))
      (turns : List Turn) where
    put_all-Logged :
        (requests : List ApiFetchRequest) (log : List Task) (d : Dispatcher R)
        → P log
        → Logged w earlier turns log requests d
        → (more : List Task) × P more × Logged w earlier turns more [] (put_all w requests d)
    unfolding put_all
    put_all-Logged [] log d h v = (log, h, v)
    put_all-Logged (q ∷ requests) log d h v =
        let next =
          put_in_flight-Logged w earlier turns log (refetch_of w q) (q ∷ requests) requests d v
            (λ p. omega arith) (λ n c b e. cc) in
        put_all-Logged requests (log ++ refetch_of w q ∷ []) (put_in_flight (refetch_of w q) d)
          (grows log (refetch_of w q) h)
          (subst
            (λ t.
              Logged w earlier t (log ++ refetch_of w q ∷ []) requests
                (put_in_flight (refetch_of w q) d))
            (append-nil turns) next)

    module _ (answers : Answers w) where
      collected-Account :
          (f : Future) (d : Dispatcher R)
          → In f d.pending
          → Account P turns d
          → Account P turns (collected w f d)
            × (load (collected w f d).pending < load d.pending)
            × ((g : Future) → f.0 ≢ g.0 → In g d.pending → In g (collected w f d).pending)
      unfolding collected
      collected-Account f d i (log, h, v, flushed, room) =
          let requests = (w.outcome f.0 f.1).api_requests in
          let (more, k, u) =
            put_all-Logged requests log (taken_up w f d) h
              (taken_up-Logged w earlier turns log f d v i) in
          let (n, l, keeps) = put_all-pending requests (taken_up w f d) in
          let after = put_all w requests (taken_up w f d) in
          let same = flush-pending after in
          let few = answers.few f.0 f.1 in
          (
            (
              more,
              k,
              flush-Logged w earlier turns more [] after u,
              flush-IsFlushed after,
              rw same (omega (arith, n, few, weight-le f.1, room, length-without f d.pending i)),
            ),
            rw same (omega (arith, l, few, load-without f d.pending v.distinct i)),
            λ g differ j. rw same (keeps g (without-In f.0 g d.pending differ j)),
          )

      collect_all-Goes :
          (rounds : ℕ) (done : List Future) (d : Dispatcher R)
          → 0 < rounds
          → Distinct done
          → ((f : Future) → In f done → In f d.pending)
          → Account P turns d
          → (e : Dispatcher R) × (collect_all w.fetches
                (submit_background w max_pending rounds)
                w.outcome
                done
                d
              ≡ ran e)
            × Account P turns e
            × (load e.pending + length done ≤ load d.pending)
      unfolding collect_all
      collect_all-Goes rounds [] d r distinct there_are a = (d, refl, a, omega arith)
      collect_all-Goes rounds (f ∷ done) d r distinct there_are a =
          let (b, lighter, keeps) = collected-Account f d (there_are f here) a in
          let rest =
            collect_all-Goes rounds done (collected w f d) r distinct.1
              (λ g i. keeps g (All-In (Differs f.0) i distinct.0) (there_are g (there i))) b in
          (
            rest.0,
            rw (collect-room w max_pending answers rounds f d r (there_are f here) a.4) rest.1,
            rest.2,
            omega (arith, rest.3, lighter),
          )

      looked-Account :
          (d : Dispatcher R)
          → Account P turns d
          → Account P turns (record d { looks = suc d.looks })
      looked-Account d (log, h, v, flushed, room) = (
        log,
        h,
        record {
          counted = v.counted;
          distinct = v.distinct;
          in_flight = v.in_flight;
          kept = v.kept;
          due = v.due;
          within = v.within;
          released = v.released;
          turned = v.turned;
          balance = v.balance;
          waits = v.waits;
        },
        flushed,
        room,
      )

      abbrev done_at : Bool → Dispatcher R → List Future
      done_at block d =
          sort_by number (select (λ (f : Future). w.is_done block d.looks d.pending f.0) d.pending)

      -- A look at the pending futures, whatever they are.
      abbrev look_at : ℕ → Bool → Dispatcher R → List Future → Flow R
      look_at rounds block d fs = elim fs [
        | [] ↦ ran d
        | _ ∷ _ ↦
            collect_all w.fetches (submit_background w max_pending rounds) w.outcome
              (done_at block d) (record d { looks = suc d.looks })
      ]

      pub drain-Goes :
          (rounds : ℕ) (block : Bool) (d : Dispatcher R)
          → 0 < rounds
          → Account P turns d
          → (e : Dispatcher R) × (drain_completed w.fetches
                (submit_background w max_pending rounds)
                w.outcome
                w.is_done
                block
                d
              ≡ ran e)
            × Account P turns e
            × (load e.pending + length (done_at block d) ≤ load d.pending)
      unfolding drain_completed
      drain-Goes rounds block d r a = elim (List-cases d.pending) [
        | inl none_pending ↦ (
          d,
          ap (look_at rounds block d) none_pending,
          a,
          rw
              (
                length-sort_by number
                    (select (λ (f : Future). w.is_done block d.looks d.pending f.0) d.pending),
                none_pending,
              )
              (omega arith),
        )
        | inr (f, fs, some_pending) ↦
            let goes =
              collect_all-Goes rounds (done_at block d) (record d { looks = suc d.looks }) r
                (Distinct-sort_by _ (Distinct-select _ d.pending a.2.distinct))
                (λ g i. select-In _ g d.pending ((In-sort_by number g _).0 i))
                (looked-Account d a) in
            (goes.0, ap (look_at rounds block d) some_pending ∙ goes.1, goes.2, goes.3)
      ]

      pub drain_blocking :
          (rounds : ℕ) (d : Dispatcher R)
          → 0 < rounds
          → 0 < length d.pending
          → Account P turns d
          → (e : Dispatcher R) × (drain_completed w.fetches
                (submit_background w max_pending rounds)
                w.outcome
                w.is_done
                true
                d
              ≡ ran e)
            × Account P turns e
            × (load e.pending < load d.pending)
      drain_blocking rounds d r h a = elim (List-cases d.pending) [
        | inl e ↦ absurd (omega (arith, h, ap (length {A = Future}) e))
        | inr (f, fs, e) ↦
            let (b, goes, c, less) = drain-Goes rounds true d r a in
            let some_done : 0
                < length (select (λ (g : Future). w.is_done true d.looks d.pending g.0) d.pending) =
              any-length _ d.pending (rw e (answers.finishes d.looks f fs)) in
            (
              b,
              goes,
              c,
              omega (
                arith,
                less,
                some_done,
                length-sort_by number
                    (select (λ (g : Future). w.is_done true d.looks d.pending g.0) d.pending),
              ),
            )
      ]

      -- A submit returns with the task in flight as the last of the log.
      abbrev pub Submitted : Task → ℕ → Flow R → Type 0
      Submitted task bound flow =
          (e : Dispatcher R) × (flow ≡ ran e)
          × Account (λ log. P log × (get_elem? log (e.next_submit_sequence - 1) ≡ some task))
              (turns ++ turn_of task) e
          × (load e.pending ≤ bound)

      in_flight_Account :
          (task : Task) (d : Dispatcher R)
          → refetch_in task ≡ []
          → Account P turns d
          → ((log : List Task) → P log → MayWait w log task)
          → length d.pending < max_pending
          → Account
              (λ log.
                P log
                × (get_elem? log ((put_in_flight task d).next_submit_sequence - 1) ≡ some task))
              (turns ++ turn_of task)
              (put_in_flight task d)
      in_flight_Account task d plain (log, h, v, flushed, room) may free =
          let last : d.next_submit_sequence ≡ length log = v.counted in
          let number : suc d.next_submit_sequence - 1 ≡ length log = omega (arith, last) in
          (
            log ++ task ∷ [],
            (grows log task h, unfold put_in_flight in rw number (get_elem?-last log task)),
            put_in_flight-Logged w earlier turns log task [] [] d v (λ p. rw plain (omega arith))
                (may log h),
            unfold put_in_flight in flushed,
            unfold put_in_flight in omega (arith, free),
          )

      pub submit-Submitted :
          (rounds : ℕ) (task : Task) (d : Dispatcher R)
          → load d.pending < rounds
          → 0 < max_pending
          → Account P turns d
          → refetch_in task ≡ []
          → ((log : List Task) → P log → MayWait w log task)
          → Submitted task
              (load d.pending + weight task)
              (submit_background w max_pending rounds task d)
      unfolding submit_background
      submit-Submitted zero task d r m a plain may = absurd (omega arith)
      submit-Submitted (suc rounds) task d r m a plain may =
          elim (Bool-cases (leb max_pending (length d.pending))) [
            | inl full ↦
                let le = length-le-load d.pending in
                let (b, goes, c, less) = drain_blocking rounds d (ground arith) (ground arith) a in
                let s = submit-Submitted rounds task b (omega (arith, less)) m c plain may in
                (s.0, rw (full, goes) s.1, s.2, omega (arith, less, s.3))
            | inr free ↦ rw free (
              put_in_flight task d,
              refl,
              in_flight_Account task d plain a may (ground arith),
              unfold put_in_flight in omega arith,
            )
          ]
