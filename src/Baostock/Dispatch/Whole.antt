-- ===== src/Baostock/Dispatch/Whole.antt =====
-- The whole run of the executor: every code in turn, and every task drained.
use quant_data_center_cn.Prelude.{
  ℕ, zero, suc, ◌*◌, ◌≤◌, ◌<◌, String, nat_eq, Option, none, some, List, [], ◌∷◌, ◌++◌, Bool, true,
  false, ◌&&◌, not, if◌then◌else◌, length, get_elem?, ◌≡◌, refl, ap, ◌∙◌, arith, Bool-cases, inl,
  inr, subst,
}
use mathlib.Core.List.{append_assoc, append-nil}
use quant_data_center_cn.Baostock.Dispatch.Futures.{Future, load}
use quant_data_center_cn.Baostock.Dispatch.Drained.{Answers, weight-le}
use quant_data_center_cn.Baostock.Dispatch.Log.{
  Turn, factors, bars, turn_of, refetch_in, get_elem?-append, factor_task,
}
use quant_data_center_cn.Baostock.Dispatch.Steps.{MayWait}
use quant_data_center_cn.Baostock.Dispatch.Draining.{
  Account, List-cases, drain-Goes, drain_blocking, submit-Submitted,
}
use quant_data_center_cn.Baostock.Dispatch.{
  Task, factor_success, factor_failure, daily_initial, Dispatcher, World, Settings, Flow, ran,
  raised, ◌>>=◌, caught, drain_pending, should_fetch_factor, reuse_factor, last_future,
  submit_daily, submit_factor, code_turn, code_turns, submits, drain,
}

-- The turns that the main thread takes for a code.
abbrev pub turns_for : {R : Type 0} → World R → Settings → String → List Turn
turns_for w s code =
    (if should_fetch_factor s code then factors code (w.fetches_factors code) ∷ [] else [])
    ++ (if s.has_daily_targets then bars code (w.fetches_bars code) ∷ [] else [])

abbrev pub turns_for_all : {R : Type 0} → World R → Settings → List String → List Turn
turns_for_all w s [] = []
turns_for_all w s (code ∷ codes) = turns_for w s code ++ turns_for_all w s codes

pub load-le : (fs : List Future) → load fs ≤ 2 * length fs
load-le [] = omega arith
load-le ((n, task) ∷ fs) = omega (arith, load-le fs, weight-le task)

waits_for :
    (log : List Task) (m n : ℕ) (code c : String) (fetched works x : Bool)
    → get_elem? log m ≡ some (factor_task code fetched)
    → daily_initial code (some m) works ≡ daily_initial c (some n) x
    → (b : Bool) × (get_elem? log n ≡ some (factor_task c b))
waits_for log m n code c fetched works x h same =
    let number : m ≡ n = cc in
    let name : code ≡ c = cc in
    (
      fetched,
      subst (λ k. get_elem? log k ≡ some (factor_task c fetched)) number
          (subst (λ t. get_elem? log m ≡ some (factor_task t fetched)) name h),
    )

module _ {R : Type 0} (w : World R) (answers : Answers w) (s : Settings) (earlier : List R)
    (rounds : ℕ) (room : 0 < s.max_pending) (enough : 2 * s.max_pending < rounds) where
  abbrev pub Known : (List Task → Type 0) → List Turn → Dispatcher R → Type 0
  Known = Account w earlier s.max_pending

  abbrev pub Any : List Task → Type 0
  Any log = Unit {0}

  -- The task of a number is known.
  abbrev At : ℕ → Task → List Task → Type 0
  At n task log = get_elem? log n ≡ some task

  pub forget :
      {P : List Task → Type 0} (turns : List Turn) (d : Dispatcher R)
      → Known P turns d
      → Known Any turns d
  forget turns d (log, h, v, flushed, few) = (log, tt, v, flushed, few)

  pub light :
      (P : List Task → Type 0) (turns : List Turn) (d : Dispatcher R)
      → Known P turns d
      → load d.pending < rounds
  light P turns d (log, h, v, flushed, few) = omega (arith, load-le d.pending, few, enough)

  -- `try: fetch; submit one  except: submit the other`
  attempt-Submitted :
      (P : List Task → Type 0)
      (grows : (log : List Task) (task : Task) → P log → P (log ++ task ∷ [])) (turns : List Turn)
      (works : Bool) (good bad : Task) (d : Dispatcher R)
      → Known P turns d
      → refetch_in (if works then good else bad) ≡ []
      → ((log : List Task) → P log → MayWait w log (if works then good else bad))
      → (e : Dispatcher R) × (caught
            (if works then submits w s rounds good d else raised d)
            (submits w s rounds bad)
          ≡ ran e)
        × Known
            (λ log. P log × At (last_future e) (if works then good else bad) log)
            (turns ++ turn_of (if works then good else bad))
            e
  unfolding last_future
  attempt-Submitted P grows turns true good bad d a plain may =
      let (e, goes, b, less) =
        submit-Submitted w earlier s.max_pending P grows turns answers rounds good d
          (light P turns d a) room a plain may in
      (e, ap (λ m. caught m (submits w s rounds bad)) goes, b)
  attempt-Submitted P grows turns false good bad d a plain may =
      let (e, goes, b, less) =
        submit-Submitted w earlier s.max_pending P grows turns answers rounds bad d
          (light P turns d a) room a plain may in
      (e, goes, b)

  -- What a call leaves, with the turns that it took.
  abbrev pub Took : (List Task → Type 0) → List Turn → Flow R → Type 0
  Took P turns flow = (e : Dispatcher R) × (flow ≡ ran e) × Known P turns e

  submit_daily-Took :
      (P : List Task → Type 0)
      (grows : (log : List Task) (task : Task) → P log → P (log ++ task ∷ [])) (turns : List Turn)
      (code : String) (factor : Option ℕ) (d : Dispatcher R)
      → Known P turns d
      → ((works : Bool) (log : List Task) → P log → MayWait w log (daily_initial code factor works))
      → Took Any
          (turns ++ (if s.has_daily_targets then bars code (w.fetches_bars code) ∷ [] else []))
          (submit_daily w s rounds code factor d)
  unfolding submit_daily
  submit_daily-Took P grows turns code factor d a may = elim (Bool-cases s.has_daily_targets) [
    | inr e ↦ rw (e, append-nil) (d, refl, forget turns d a)
    | inl e ↦ elim (Bool-cases (w.fetches_bars code)) [
      | inl t ↦
          let (b, goes, known) =
            attempt-Submitted P grows turns true (daily_initial code factor true)
              (daily_initial code factor false) d a refl (may true) in
          rw (e, t) (b, goes, forget _ b known)
      | inr f ↦
          let (b, goes, known) =
            attempt-Submitted P grows turns false (daily_initial code factor true)
              (daily_initial code factor false) d a refl (may false) in
          rw (e, f) (b, goes, forget _ b known)
    ]
  ]

  submit_factor-Took :
      (turns : List Turn) (code : String) (d : Dispatcher R)
      → Known Any turns d
      → (e : Dispatcher R) × (submit_factor w s rounds code d ≡ ran e)
        × Known
            (At (last_future e) (factor_task code (w.fetches_factors code)))
            (turns ++ factors code (w.fetches_factors code) ∷ [])
            e
  unfolding submit_factor
  submit_factor-Took turns code d a = elim (Bool-cases (w.fetches_factors code)) [
    | inl t ↦
        let (b, goes, known) =
          attempt-Submitted Any (λ log task h. tt) turns true (factor_success code)
            (factor_failure code) d a refl (λ log h n c x e. cc) in
        rw t (b, goes, (known.0, known.1.1, known.2, known.3, known.4))
    | inr f ↦
        let (b, goes, known) =
          attempt-Submitted Any (λ log task h. tt) turns false (factor_success code)
            (factor_failure code) d a refl (λ log h n c x e. cc) in
        rw f (b, goes, (known.0, known.1.1, known.2, known.3, known.4))
  ]

  reuse-Took :
      (turns : List Turn) (code : String) (d : Dispatcher R)
      → Known Any turns d
      → Took Any turns (reuse_factor w s code d)
  unfolding reuse_factor
  reuse-Took turns code d (log, h, v, flushed, few) =
      elim (Bool-cases (s.needs_factors && not (should_fetch_factor s code))) [
        | inr e ↦ rw e (d, refl, (log, h, v, flushed, few))
        | inl e ↦
            rw (e, answers.reads code)
              (
                record d { reused = code ∷ d.reused },
                refl,
                (
                  log,
                  h,
                  record {
                    counted = v.counted;
                    distinct = v.distinct;
                    in_flight = v.in_flight;
                    kept = v.kept;
                    due = v.due;
                    within = v.within;
                    released = v.released;
                    turned = v.turned;
                    balance = v.balance;
                    waits = v.waits;
                  },
                  flushed,
                  few,
                ),
              )
      ]

  then_drain :
      (turns : List Turn) (block : Bool) (flow : Flow R)
      → Took Any turns flow
      → Took Any turns (flow >>= drain w s.max_pending rounds block)
  then_drain turns block flow (d, goes, a) =
      let (e, drains, b, less) =
        drain-Goes w earlier s.max_pending Any (λ log task h. tt) turns answers rounds block d
          (omega (arith, enough)) a in
      (e, rw goes drains, b)

  code_turn-Took :
      (turns : List Turn) (code : String) (d : Dispatcher R)
      → Known Any turns d
      → Took Any (turns ++ turns_for w s code) (code_turn w s rounds code d)
  unfolding code_turn
  code_turn-Took turns code d a = elim (Bool-cases (should_fetch_factor s code)) [
    | inr e ↦
        let (b, goes, known) = reuse-Took turns code d a in
        rw (e, goes)
          (then_drain (turns ++ _) false _ (
            submit_daily-Took Any (λ log task h. tt) turns code none b known
              (λ works log h n c x same. cc)))
    | inl e ↦
        let (b, goes, known) = submit_factor-Took turns code d a in
        let after =
          submit_daily-Took (At (last_future b) (factor_task code (w.fetches_factors code)))
            (λ log task h. get_elem?-append log (task ∷ []) (last_future b) _ h)
            (turns ++ factors code (w.fetches_factors code) ∷ []) code (some (last_future b)) b
            known
            (λ works log h n c x same.
              waits_for log (last_future b) n code c (w.fetches_factors code) works x h same) in
        rw (e, goes)
          (then_drain _ false _ (
            subst (λ t. Took Any t (submit_daily w s rounds code (some (last_future b)) b))
              (append_assoc turns (factors code (w.fetches_factors code) ∷ []) _) after))
  ]

  pub code_turns-Took :
      (turns : List Turn) (codes : List String) (d : Dispatcher R)
      → Known Any turns d
      → Took Any (turns ++ turns_for_all w s codes) (code_turns w s rounds codes d)
  unfolding code_turns
  code_turns-Took turns [] d a = (d, refl, rw append-nil a)
  code_turns-Took turns (code ∷ codes) d a =
      let (e, goes, b) = code_turn-Took turns code d a in
      let rest = code_turns-Took (turns ++ turns_for w s code) codes e b in
      rw goes (
        subst (λ t. Took Any t (code_turns w s rounds codes e))
          (append_assoc turns (turns_for w s code) (turns_for_all w s codes)) rest)

  -- A look at what is in flight, when it ends the loop.
  abbrev pending_look : ℕ → Dispatcher R → List Future → Flow R
  pending_look more d fs = elim fs [
    | [] ↦ ran d
    | _ ∷ _ ↦ drain w s.max_pending rounds true d >>= drain_pending w s.max_pending rounds more
  ]

  pub drain_pending-Took :
      (turns : List Turn) (more : ℕ) (d : Dispatcher R)
      → load d.pending < more
      → Known Any turns d
      → (e : Dispatcher R) × (drain_pending w s.max_pending rounds more d ≡ ran e)
        × Known Any turns e
        × (e.pending ≡ [])
  unfolding drain_pending
  drain_pending-Took turns zero d h a = absurd (omega (arith, h))
  drain_pending-Took turns (suc more) d h a = elim (List-cases d.pending) [
    | inl e ↦ (d, ap (pending_look more d) e, a, e)
    | inr (f, fs, e) ↦
        let some_pending : 0 < length d.pending = rw e (omega arith) in
        let (b, goes, c, less) =
          drain_blocking w earlier s.max_pending Any (λ log task k. tt) turns answers rounds d
            (omega (arith, enough)) some_pending a in
        let (z, ends, known, none_pending) =
          drain_pending-Took turns more b (omega (arith, less, h)) c in
        (z, ap (pending_look more d) e ∙ rw goes ends, known, none_pending)
  ]
