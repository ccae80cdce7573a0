-- ===== src/Daily/Run/Outcome.antt =====
-- The loop over all steps: what a run that ends with exit code 0 has done.
use quant_data_center_cn.Prelude.{
  ◌≡◌, ◌≢◌, refl, ap, sym, subst, ◌∙◌, String, Option, none, some, List, [], ◌∷◌, Bool, true, ◌&&◌,
  ◌||◌, ◌==◌, string_eq, arith, ℤ, pos, int_eq, Bool-cases, Option-cases, inl, inr, or_else, All,
}
use quant_data_center_cn.Daily.Types.{StateKeyPolicy, policy_eq, DailyStep, skipped}
use quant_data_center_cn.Daily.Run.{
  Settings, Machine, Flow, proceed, crash, failed_with, stop_with, record_in, skip_before_start,
  opened, pass, is_start,
}
use quant_data_center_cn.Daily.Run.Program.{LoopEnd, ended, run_steps, or_code, continue_loop}
use quant_data_center_cn.Daily.Run.Effects.{
  status_of, Settles, fits, is_quiet, record_in-Settles, status_of-opened,
}
use quant_data_center_cn.Daily.Run.Visit.{visit-Settles}

module _ (c : Settings) (step : DailyStep) where
  Settles-opened :
      (flow : Flow) (m n : Machine)
      → Settles c step flow (opened c step m) n
      → Settles c step flow m n
  Settles-opened flow m n h = record {
    own = h.own;
    others = λ j q t. h.others j q t ∙ status_of-opened c step m j q;
  }

  skip-recorded :
      (m n : Machine)
      → record_in c step step skipped (some (pos 0)) none none m ≡ some n
      → skip_before_start c step m ≡ (n, proceed)
  unfolding skip_before_start
  skip-recorded m n k = rw (k, skip_before_start)

  skip-Settles :
      (m : Machine)
      → (skip_before_start c step m).1 ≢ crash
      → Settles c step (skip_before_start c step m).1 m (skip_before_start c step m).0
  unfolding skip_before_start
  skip-Settles m h =
      elim (Option-cases (record_in c step step skipped (some (pos 0)) none none m)) [
        | inl k ↦ absurd (h (rw (k, skip_before_start)))
        | inr (n, k) ↦
            subst (λ (r : Machine × Flow). Settles c step r.1 m r.0) (sym (skip-recorded m n k))
              (record_in-Settles c step step skipped (some (pos 0)) none none proceed m n refl
                (unfold fits is_quiet in refl) k)
      ]

  pub pass-Settles :
      (seen : Bool) (m : Machine)
      → (pass c step seen m).0.1 ≢ crash
      → Settles c step (pass c step seen m).0.1 m (pass c step seen m).0.0
  unfolding pass
  pass-Settles seen m = elim (Bool-cases (seen || is_start c step)) [
    | inl e ↦ rw e λ h. Settles-opened _ m _ (visit-Settles c step (opened c step m) h)
    | inr e ↦ rw e λ h. Settles-opened _ m _ (skip-Settles (opened c step m) h)
  ]

same_machine : (m n : Machine) → ◌≡◌ {A = LoopEnd} (ended none m) (ended none n) → n ≡ m
same_machine m n h = cc

module _ (c : Settings) where
  -- How a pass at the head of the loop goes on to the loop's end.
  pub data Goes (step : DailyStep) (steps : List DailyStep) (seen : Bool) (code : Option ℤ)
      (m : Machine) (code' : Option ℤ) (n : Machine) : Type 0 where
    on :
        (pass c step seen m).0.1 ≡ proceed
        → run_steps c steps (pass c step seen m).1 code (pass c step seen m).0.0 ≡ ended code' n
        → Goes step steps seen code m code' n
    after_failure :
        (x : ℤ)
        → (pass c step seen m).0.1 ≡ failed_with x
        → run_steps c steps (pass c step seen m).1 (or_else code (some x)) (pass c step seen m).0.0
          ≡ ended code' n
        → Goes step steps seen code m code' n
    stopped :
        (x : ℤ)
        → (pass c step seen m).0.1 ≡ stop_with x
        → or_code code x ≡ code'
        → Goes step steps seen code m code' n

  Goes-by :
      (step : DailyStep) (steps : List DailyStep) (seen : Bool) (code : Option ℤ) (m : Machine)
      (code' : Option ℤ) (n : Machine) (flow : Flow)
      → (pass c step seen m).0.1 ≡ flow
      → run_steps c (step ∷ steps) seen code m ≡ ended code' n
      → Goes step steps seen code m code' n
  unfolding run_steps
  Goes-by step steps seen code m code' n proceed e h = on e (rw (e, continue_loop) at h)
  Goes-by step steps seen code m code' n (failed_with x) e h =
      after_failure x e (rw (e, continue_loop) at h)
  Goes-by step steps seen code m code' n (stop_with x) e h =
      stopped x e (let k = rw (e, continue_loop) at h in cc)
  Goes-by step steps seen code m code' n crash e h = let k = rw (e, continue_loop) at h in cc

  pub goes :
      (step : DailyStep) (steps : List DailyStep) (seen : Bool) (code : Option ℤ) (m : Machine)
      (code' : Option ℤ) (n : Machine)
      → run_steps c (step ∷ steps) seen code m ≡ ended code' n
      → Goes step steps seen code m code' n
  goes step steps seen code m code' n h =
      Goes-by step steps seen code m code' n (pass c step seen m).0.1 refl h

  or_code-some : (code : Option ℤ) (x : ℤ) → or_code code x ≢ none
  unfolding or_code
  or_code-some code x = λ e. ground arith

  -- Once a failure has set the exit code, the loop does not end without one.
  failure_kept :
      (steps : List DailyStep) (seen : Bool) (x : ℤ) (m n : Machine)
      → run_steps c steps seen (some x) m ≢ ended none n
  unfolding run_steps or_else
  failure_kept [] seen x m n = λ e. cc
  failure_kept (step ∷ steps) seen x m n =
      λ h. again (goes step steps seen (some x) m none n h) (failure_kept steps)
    where
      again :
          Goes step steps seen (some x) m none n
          → ((seen : Bool) (x : ℤ) (m n : Machine)
              → run_steps c steps seen (some x) m ≢ ended none n)
          → ⊥
      again (on e k) ih = ih _ x _ n k
      again (after_failure y e k) ih = ih _ x _ n k
      again (stopped y e k) ih = or_code-some (some x) y k

  abbrev pub Quiet : Machine → DailyStep → Type 0
  Quiet n step = is_quiet (status_of c n step.id step.state_key_policy) ≡ true

  -- A pass that goes on with no failure makes no quiet status unquiet.
  quiet_kept :
      (step : DailyStep) (m n : Machine) (j : String) (q : StateKeyPolicy)
      → Settles c step proceed m n
      → is_quiet (status_of c m j q) ≡ true
      → is_quiet (status_of c n j q) ≡ true
  unfolding fits
  quiet_kept step m n j q h k = elim (Bool-cases ((q == step.state_key_policy) && (j == step.id))) [
    | inl e ↦
        let same : (q ≡ step.state_key_policy) × (j ≡ step.id) = ground arith in
        rw (same.0, same.1) h.own
    | inr e ↦ ap is_quiet (h.others j q e) ∙ k
  ]

  goes_quiet :
      (step : DailyStep) (seen : Bool) (m : Machine)
      → (pass c step seen m).0.1 ≡ proceed
      → Settles c step proceed m (pass c step seen m).0.0
  goes_quiet step seen m e =
      subst (λ f. Settles c step f m (pass c step seen m).0.0) e
        (pass-Settles c step seen m (λ k. let x = sym e ∙ k in cc))

  -- A loop that ends with no exit code leaves each of its steps a quiet status, and keeps those
  -- that were quiet.
  pub Quiet-end :
      (steps : List DailyStep) (seen : Bool) (m n : Machine)
      → run_steps c steps seen none m ≡ ended none n
      → All (Quiet n) steps
        × ((j : String) (q : StateKeyPolicy)
            → is_quiet (status_of c m j q) ≡ true
            → is_quiet (status_of c n j q) ≡ true)
  unfolding run_steps or_else fits
  Quiet-end [] seen m n h =
      (tt, λ j q k. ap (λ u. is_quiet (status_of c u j q)) (same_machine m n h) ∙ k)
  Quiet-end (step ∷ steps) seen m n h =
      by_end (goes step steps seen none m none n h) (Quiet-end steps)
    where
      by_end :
          Goes step steps seen none m none n
          → ((seen : Bool) (m n : Machine)
              → run_steps c steps seen none m ≡ ended none n
              → All (Quiet n) steps
                × ((j : String) (q : StateKeyPolicy)
                    → is_quiet (status_of c m j q) ≡ true
                    → is_quiet (status_of c n j q) ≡ true))
          → All (Quiet n) (step ∷ steps)
            × ((j : String) (q : StateKeyPolicy)
                → is_quiet (status_of c m j q) ≡ true
                → is_quiet (status_of c n j q) ≡ true)
      by_end (on e k) ih =
          let s = goes_quiet step seen m e in
          let r = ih _ _ n k in
          (
            (r.1 step.id step.state_key_policy s.own, r.0),
            λ j q u. r.1 j q (quiet_kept step m _ j q s u),
          )
      by_end (after_failure y e k) ih = absurd (failure_kept steps _ y _ n k)
      by_end (stopped y e k) ih = absurd (or_code-some none y k)
