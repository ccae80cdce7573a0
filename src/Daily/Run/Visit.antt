-- ===== src/Daily/Run/Visit.antt =====
-- A pass of the loop on one step: it leaves the step's status settled and no other changed, and it
-- runs the command only if every hard dependency is met.
use quant_data_center_cn.Prelude.{
  ◌≡◌, ◌≢◌, refl, ap, sym, ◌∙◌, subst, String, Option, none, some, List, [], ◌∷◌, Bool, true, false,
  ◌&&◌, ◌==◌, string_eq, if◌then◌else◌, arith, ℤ, pos, int_eq, Bool-cases, Option-cases, inl, inr,
  length,
}
use quant_data_center_cn.Daily.Types.{
  StateKeyPolicy, policy_eq, DailyStep, Status, running, blocked,
}
use quant_data_center_cn.Daily.State.{Reason}
use quant_data_center_cn.Daily.Dependencies.Effective.{SameStep, soft_dependencies-SameStep}
use quant_data_center_cn.Daily.Run.{
  Settings, Machine, Flow, proceed, crash, record_in, record_and_end, write_state, failure_outcome,
  success_status, finish, started_run, launch, attempt, block_or_launch, weighed, block_or_attempt,
  visit, should_skip_success, status_now,
}
use quant_data_center_cn.Daily.Run.Program.{is_failure}
use quant_data_center_cn.Daily.Run.Effects.{
  status_of, Settles, fits, record_in-Settles, record_in-status, record_and_end-recorded,
  status_of-write_state,
}

failure_outcome-fits :
    (step : DailyStep) (code : ℤ) (free : Bool)
    → (code == pos 0) ≡ false
    → fits (failure_outcome step code free).1 (failure_outcome step code free).0 ≡ true
unfolding failure_outcome fits is_failure
failure_outcome-fits step code free h = ground arith

success_status-fits : (r : Option Reason) → fits proceed (success_status r) ≡ true
unfolding fits success_status
success_status-fits none = refl
success_status-fits (some r) = refl

module _ (c : Settings) (step : DailyStep) where
  -- The statuses of the other steps are the same.
  abbrev Others : Machine → Machine → Type 0
  Others m n =
      (j : String) (q : StateKeyPolicy)
      → ((q == step.state_key_policy) && (j == step.id)) ≡ false
      → status_of c n j q ≡ status_of c m j q

  Settles-write_state :
      (flow : Flow) (m n : Machine)
      → Settles c step flow m n
      → Settles c step flow m (write_state n)
  Settles-write_state flow m n h = record {
    own = ap (fits flow) (status_of-write_state c n step.id step.state_key_policy) ∙ h.own;
    others = λ j q t. status_of-write_state c n j q ∙ h.others j q t;
  }

  Settles-trans :
      (flow : Flow) (m n k : Machine)
      → Others m n
      → Settles c step flow n k
      → Settles c step flow m k
  Settles-trans flow m n k f h = record { own = h.own; others = λ j q t. h.others j q t ∙ f j q t }

  -- Unless it raises, a pass settles the step.
  abbrev Leaves : Machine → Machine × Flow → Type 0
  Leaves m r = r.1 ≢ crash → Settles c step r.1 m r.0

  if_Leaves :
      (m : Machine) (b : Bool) (x y : Machine × Flow)
      → (b ≡ true → Leaves m x)
      → (b ≡ false → Leaves m y)
      → Leaves m (if b then x else y)
  if_Leaves m true x y h k = h refl
  if_Leaves m false x y h k = k refl

  record_and_end-Leaves :
      (e : DailyStep) (status : Status) (code : Option ℤ) (by : Option (List String))
      (reason : Option Reason) (flow : Flow) (m : Machine)
      → e.id ≡ step.id
      → fits flow status ≡ true
      → Leaves m (record_and_end c step e status code by reason flow m)
  record_and_end-Leaves e status code by reason flow m same s h =
      let r = record_and_end-recorded c step e status code by reason m flow h in
      subst (λ (x : Machine × Flow). Settles c step x.1 m x.0) (sym r.2)
        (Settles-write_state flow m r.0
          (record_in-Settles c step e status code by reason flow m r.0 same s r.1))

  finish-Leaves :
      (e : DailyStep) (reason : Option Reason) (code : ℤ) (m : Machine)
      → e.id ≡ step.id
      → Leaves m (finish c step e reason code m)
  unfolding finish
  finish-Leaves e reason code m same =
      if_Leaves m (code == pos 0) _ _
        (λ _.
          record_and_end-Leaves e (success_status reason) (some (pos 0)) none reason proceed m same
            (success_status-fits reason))
        (λ k.
          record_and_end-Leaves e _ (some code) none none _ m same
            (failure_outcome-fits step code (c.duckdb_available (length m.ran)) k))

  pub launch-finish :
      (e : DailyStep) (reason : Option Reason) (m n : Machine)
      → record_in c step e running none none none m ≡ some n
      → launch c step e reason m
        ≡ finish c step e reason (c.runner e (length m.ran)) (started_run c e n)
  unfolding launch
  launch-finish e reason m n k = rw (k, launch)

  pub launch-crash :
      (e : DailyStep) (reason : Option Reason) (m : Machine)
      → record_in c step e running none none none m ≡ none
      → launch c step e reason m ≡ (m, crash)
  unfolding launch
  launch-crash e reason m k = rw (k, launch)

  started_run-Others :
      (e : DailyStep) (m n : Machine)
      → e.id ≡ step.id
      → record_in c step e running none none none m ≡ some n
      → Others m (started_run c e n)
  unfolding started_run status_of
  started_run-Others e m n same k j q t =
      record_in-status c step e running none none none m n j q k ∙ rw (same, t)

  launch-Leaves :
      (e : DailyStep) (reason : Option Reason) (m : Machine)
      → e.id ≡ step.id
      → Leaves m (launch c step e reason m)
  launch-Leaves e reason m same h =
      elim (Option-cases (record_in c step e running none none none m)) [
        | inl k ↦ absurd (h (ap (λ (r : Machine × Flow). r.1) (launch-crash e reason m k)))
        | inr (n, k) ↦
            let eq = launch-finish e reason m n k in
            subst (λ (r : Machine × Flow). Settles c step r.1 m r.0) (sym eq)
              (Settles-trans _ m (started_run c e n) _ (started_run-Others e m n same k) (
                finish-Leaves e reason _ (started_run c e n) same
                  (λ x. h (ap (λ (r : Machine × Flow). r.1) eq ∙ x))))
      ]

  block_or_launch-Leaves :
      (e : DailyStep) (reason blocked_reason : Option Reason) (m : Machine)
      → e.id ≡ step.id
      → Leaves m (block_or_launch c step e reason blocked_reason m)
  unfolding block_or_launch
  block_or_launch-Leaves e reason none m same = launch-Leaves e reason m same
  block_or_launch-Leaves e reason (some r) m same =
      record_and_end-Leaves e blocked _ none (some r) proceed m same (unfold fits in refl)

  pub weighed-SameStep : (m : Machine) → SameStep step (weighed c step m).effective_step
  unfolding weighed
  weighed-SameStep m =
      soft_dependencies-SameStep m.state c.by_id c.dates c.run_instance_key step step.depends_on _
        refl

  attempt-Leaves : (m : Machine) → Leaves m (attempt c step m)
  unfolding attempt
  attempt-Leaves m =
      block_or_launch-Leaves _ _ _ m (ap (λ (e : DailyStep). e.id) (weighed-SameStep m))

  block_or_attempt-Leaves :
      (by : List String) (m : Machine) → Leaves m (block_or_attempt c step by m)
  unfolding block_or_attempt
  block_or_attempt-Leaves [] m = attempt-Leaves m
  block_or_attempt-Leaves (d ∷ ds) m =
      record_and_end-Leaves step blocked _ (some (d ∷ ds)) none proceed m refl (unfold fits in refl)

  skipped_success-fits :
      (st : Status) → should_skip_success c step st ≡ true → fits proceed st ≡ true
  unfolding should_skip_success fits
  skipped_success-fits st h = ground arith

  -- Unless it raises, a pass leaves the step a status that fits its end, and no other changed.
  pub visit-Settles :
      (m : Machine)
      → (visit c step m).1 ≢ crash
      → Settles c step (visit c step m).1 m (visit c step m).0
  unfolding visit status_of status_now
  visit-Settles m = elim (Bool-cases (should_skip_success c step (status_now c m step))) [
    | inl e ↦ rw e λ _. record { own = skipped_success-fits _ e; others = λ j q t. refl }
    | inr e ↦ rw e (block_or_attempt-Leaves _ m)
  ]
