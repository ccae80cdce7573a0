-- ===== src/Daily/Run/Commands.antt =====
-- Which commands a run starts, under which conditions and in which order.
use quant_data_center_cn.Prelude.{
  ◌≡◌, refl, ap, ◌∙◌, String, Option, none, some, List, [], ◌∷◌, Bool, false, ◌||◌, ◌==◌, string_eq,
  ℤ, pos, int_eq, Bool-cases, Option-cases, inl, inr, ◌⊎◌, All,
}
use quant_data_center_cn.Daily.Types.{DailyStep, Status, running, skipped}
use quant_data_center_cn.Daily.State.{Reason}
use quant_data_center_cn.Daily.Dependencies.{
  blocked_dependencies, Met, blocked_dependencies-nil_iff,
}
use quant_data_center_cn.Daily.Dependencies.Effective.{SameStep}
use quant_data_center_cn.Daily.Run.{
  Settings, Machine, Flow, record_in, record_and_end, finish, started_run, launch, block_or_launch,
  attempt, block_or_attempt, visit, should_skip_success, status_now, skip_before_start, opened,
  pass, is_start,
}
use quant_data_center_cn.Daily.Run.Effects.{ran-record_in}
use quant_data_center_cn.Daily.Run.Visit.{weighed-SameStep, launch-finish, launch-crash}

module _ (c : Settings) (step : DailyStep) where
  ran-record_and_end :
      (e : DailyStep) (status : Status) (code : Option ℤ) (by : Option (List String))
      (reason : Option Reason) (flow : Flow) (m : Machine)
      → (record_and_end c step e status code by reason flow m).0.ran ≡ m.ran
  unfolding record_and_end
  ran-record_and_end e status code by reason flow m =
      elim (Option-cases (record_in c step e status code by reason m)) [
        | inl k ↦ rw (k, record_and_end)
        | inr (n, k) ↦ rw (k, record_and_end) (ran-record_in c step e status code by reason m n k)
      ]

  ran-finish :
      (e : DailyStep) (reason : Option Reason) (code : ℤ) (m : Machine)
      → (finish c step e reason code m).0.ran ≡ m.ran
  unfolding finish
  ran-finish e reason code m = elim (Bool-cases (code == pos 0)) [
    | inl k ↦ rw k (ran-record_and_end e _ _ _ _ _ m)
    | inr k ↦ rw k (ran-record_and_end e _ _ _ _ _ m)
  ]

  -- The pass starts no command, or the step's own, once.
  abbrev pub Starts : Machine → Machine → Type 0
  Starts m n = (n.ran ≡ m.ran) ⊎ ((e : DailyStep) × (n.ran ≡ e ∷ m.ran) × SameStep step e)

  launch-Starts :
      (e : DailyStep) (reason : Option Reason) (m : Machine)
      → SameStep step e
      → Starts m (launch c step e reason m).0
  launch-Starts e reason m same =
      elim (Option-cases (record_in c step e running none none none m)) [
        | inl k ↦ inl (ap (λ (r : Machine × Flow). r.0.ran) (launch-crash c step e reason m k))
        | inr (n, k) ↦ inr (
          e,
          ap (λ (r : Machine × Flow). r.0.ran) (launch-finish c step e reason m n k)
              ∙ (ran-finish e reason _ (started_run c e n)
                  ∙ (unfold started_run in
                      ap (◌∷◌ e) (ran-record_in c step e running none none none m n k))),
          same,
        )
      ]

  block_or_launch-Starts :
      (e : DailyStep) (reason blocked_reason : Option Reason) (m : Machine)
      → SameStep step e
      → Starts m (block_or_launch c step e reason blocked_reason m).0
  unfolding block_or_launch
  block_or_launch-Starts e reason none m same = launch-Starts e reason m same
  block_or_launch-Starts e reason (some r) m same = inl (ran-record_and_end e _ _ _ _ _ m)

  attempt-Starts : (m : Machine) → Starts m (attempt c step m).0
  unfolding attempt
  attempt-Starts m = block_or_launch-Starts _ _ _ m (weighed-SameStep c step m)

  -- The conditions under which a pass on the step starts its command.
  abbrev pub MayRun : Machine → Type 0
  MayRun m =
      All (Met m.state c.by_id c.dates c.run_instance_key) step.depends_on
      × (should_skip_success c step (status_now c m step) ≡ false)

  block_or_attempt-Starts :
      (by : List String) (m : Machine)
      → ((block_or_attempt c step by m).0.ran ≡ m.ran)
        ⊎ ((e : DailyStep) × ((block_or_attempt c step by m).0.ran ≡ e ∷ m.ran)
            × SameStep step e
            × (by ≡ []))
  unfolding block_or_attempt
  block_or_attempt-Starts [] m = elim (attempt-Starts m) [
    | inl k ↦ inl k
    | inr (e, k, s) ↦ inr (e, k, s, refl)
  ]
  block_or_attempt-Starts (d ∷ ds) m = inl (ran-record_and_end step _ _ _ _ _ m)

  -- A pass on a step starts no command, or it starts one, the step's own but for the command line,
  -- and then every hard dependency is satisfied and the step is not skipped as already successful.
  pub visit-MayRun :
      (m : Machine)
      → ((visit c step m).0.ran ≡ m.ran)
        ⊎ ((e : DailyStep) × ((visit c step m).0.ran ≡ e ∷ m.ran) × SameStep step e × MayRun m)
  unfolding visit
  visit-MayRun m = elim (Bool-cases (should_skip_success c step (status_now c m step))) [
    | inl e ↦ inl (rw e)
    | inr e ↦
        let rest =
          block_or_attempt-Starts
            (blocked_dependencies m.state c.by_id c.dates c.run_instance_key step.depends_on) m in
        rw e (elim rest [
          | inl k ↦ inl k
          | inr (x, k, s, b) ↦ inr (
            x,
            k,
            s,
            (
              (blocked_dependencies-nil_iff m.state c.by_id c.dates c.run_instance_key
                    step.depends_on).0
                  b,
              refl,
            ),
          )
        ])
  ]

  skip-ran : (m : Machine) → (skip_before_start c step m).0.ran ≡ m.ran
  unfolding skip_before_start
  skip-ran m = elim (Option-cases (record_in c step step skipped (some (pos 0)) none none m)) [
    | inl k ↦ rw (k, skip_before_start)
    | inr (n, k) ↦
        rw (k, skip_before_start) (ran-record_in c step step skipped (some (pos 0)) none none m n k)
  ]

  visit-Starts : (m : Machine) → Starts m (visit c step m).0
  visit-Starts m = elim (visit-MayRun m) [ inl k ↦ inl k | inr (e, k, s, r) ↦ inr (e, k, s) ]

  pub pass-Starts : (seen : Bool) (m : Machine) → Starts m (pass c step seen m).0.0
  unfolding pass opened
  pass-Starts seen m = elim (Bool-cases (seen || is_start c step)) [
    | inl e ↦ rw e (visit-Starts (opened c step m))
    | inr e ↦ rw e (inl (skip-ran (opened c step m)))
  ]
