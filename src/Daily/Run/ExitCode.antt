-- ===== src/Daily/Run/ExitCode.antt =====
-- The exit code of a run: it is 0 only if every scheduled step has passed.
use quant_data_center_cn.Prelude.{
  ◌≡◌, ◌≢◌, refl, sym, subst, ◌∙◌, String, Option, none, some, List, [], ◌∷◌, Bool, true, false,
  ◌&&◌, ◌==◌, string_eq, not, arith, ℤ, pos, int_eq, Bool-cases, inl, inr, or_else, All, All-map,
}
use quant_data_center_cn.Prelude.Dict.{Dict, lookup, insert, lookup-insert}
use quant_data_center_cn.Daily.Types.{
  DailyStep, Status, success, success_degraded, skipped, skipped_timeout,
}
use quant_data_center_cn.Daily.State.{State, Row, step_row_for_policy, row_status}
use quant_data_center_cn.Daily.Run.{Settings, Machine, failed_with, stop_with, pass}
use quant_data_center_cn.Daily.Run.Program.{
  ended, run_steps, or_code, is_failure, is_blocked, row_in, first_failure, any_blocked,
  final_exit_code, rows_from, final_exit_code_for_state,
}
use quant_data_center_cn.Daily.Run.Effects.{status_of, Settles, fits, is_quiet}
use quant_data_center_cn.Daily.Run.Outcome.{
  Goes, on, after_failure, stopped, goes, pass-Settles, Quiet, Quiet-end,
}

-- A status with which the workflow counts a step as done.
unfoldable pub is_passed : Status → Bool
is_passed success = true
is_passed success_degraded = true
is_passed skipped = true
is_passed skipped_timeout = true
is_passed _ = false

abbrev pub DistinctIds : List DailyStep → Type 0
DistinctIds [] = Unit
DistinctIds (step ∷ steps) = All (λ t. t.id ≢ step.id) steps × DistinctIds steps

abbrev Nonzero : Option ℤ → Type 0
Nonzero none = Unit
Nonzero (some x) = (x == pos 0) ≡ false

or_code-Nonzero : (code : Option ℤ) (x : ℤ) → (x == pos 0) ≡ false → Nonzero (or_code code x)
unfolding or_code
or_code-Nonzero none x h = h
or_code-Nonzero (some y) x h = elim (Bool-cases (y == pos 0)) [ inl e ↦ rw e h | inr e ↦ rw e e ]

or_else-Nonzero :
    (code : Option ℤ) (x : ℤ)
    → Nonzero code
    → (x == pos 0) ≡ false
    → Nonzero (or_else code (some x))
unfolding or_else
or_else-Nonzero none x n h = h
or_else-Nonzero (some y) x n h = n

fits_code :
    (st : Status) (x : ℤ) → (is_failure st && not (x == pos 0)) ≡ true → (x == pos 0) ≡ false
fits_code st x h = ground arith

module _ (c : Settings) where
  failed_code :
      (step : DailyStep) (seen : Bool) (m : Machine) (x : ℤ)
      → (pass c step seen m).0.1 ≡ failed_with x
      → (x == pos 0) ≡ false
  unfolding fits
  failed_code step seen m x e =
      fits_code _ x
        (subst (λ f. Settles c step f m (pass c step seen m).0.0) e
          (pass-Settles c step seen m (λ k. let y = sym e ∙ k in cc))).own

  stop_code :
      (step : DailyStep) (seen : Bool) (m : Machine) (x : ℤ)
      → (pass c step seen m).0.1 ≡ stop_with x
      → (x == pos 0) ≡ false
  unfolding fits
  stop_code step seen m x e =
      fits_code _ x
        (subst (λ f. Settles c step f m (pass c step seen m).0.0) e
          (pass-Settles c step seen m (λ k. let y = sym e ∙ k in cc))).own

  Nonzero-end :
      (steps : List DailyStep) (seen : Bool) (code : Option ℤ) (m : Machine) (code' : Option ℤ)
      (n : Machine)
      → Nonzero code
      → run_steps c steps seen code m ≡ ended code' n
      → Nonzero code'
  unfolding run_steps
  Nonzero-end [] seen code m code' n z h = let e : code ≡ code' = cc in subst Nonzero e z
  Nonzero-end (step ∷ steps) seen code m code' n z h =
      by_end (goes c step steps seen code m code' n h)
        (λ s d k w. Nonzero-end steps s d k code' n w)
    where
      by_end :
          Goes c step steps seen code m code' n
          → ((seen : Bool) (code : Option ℤ) (m : Machine)
              → Nonzero code
              → run_steps c steps seen code m ≡ ended code' n
              → Nonzero code')
          → Nonzero code'
      by_end (on e k) ih = ih _ code _ z k
      by_end (after_failure x e k) ih =
          ih _ _ _ (or_else-Nonzero code x z (failed_code step seen m x e)) k
      by_end (stopped x e k) ih =
          subst Nonzero k (or_code-Nonzero code x (stop_code step seen m x e))

  module _ (s : State) where
    abbrev row_now : DailyStep → Option Row
    row_now step = step_row_for_policy s step.id step.state_key_policy c.dates c.run_instance_key

    rows_from_other :
        (steps : List DailyStep) (rows : Dict String (Option Row)) (id : String)
        → All (λ t. t.id ≢ id) steps
        → lookup id (rows_from c s steps rows) ≡ lookup id rows
    unfolding rows_from
    rows_from_other [] rows id h = refl
    rows_from_other (step ∷ steps) rows id h =
        rows_from_other steps (insert step.id (row_now step) rows) id h.1
        ∙ ground (arith, lookup-insert id step.id (row_now step) rows)

    rows_from_own :
        (steps : List DailyStep) (rows : Dict String (Option Row))
        → DistinctIds steps
        → All (λ t. lookup t.id (rows_from c s steps rows) ≡ some (row_now t)) steps
    unfolding rows_from
    rows_from_own [] rows d = tt
    rows_from_own (step ∷ steps) rows d = (
      rows_from_other steps (insert step.id (row_now step) rows) step.id d.0
          ∙ ground (arith, lookup-insert step.id step.id (row_now step) rows),
      rows_from_own steps (insert step.id (row_now step) rows) d.1,
    )

    abbrev Found : Dict String (Option Row) → DailyStep → Type 0
    Found rows t = lookup t.id rows ≡ some (row_now t)

    row_in-Found :
        (rows : Dict String (Option Row)) (t : DailyStep)
        → Found rows t
        → row_in rows t.id ≡ row_now t
    unfolding row_in
    row_in-Found rows t f = rw (f, row_in)

    no_failure :
        (steps : List DailyStep) (rows : Dict String (Option Row))
        → All (Found rows) steps
        → All (λ t. is_failure (row_status (row_now t)) ≡ false) steps
        → first_failure steps rows ≡ none
    unfolding first_failure
    no_failure [] rows f h = refl
    no_failure (t ∷ steps) rows f h =
        rw (row_in-Found rows t f.0, h.0) (no_failure steps rows f.1 h.1)

    none_blocked :
        (steps : List DailyStep) (rows : Dict String (Option Row))
        → All (Found rows) steps
        → any_blocked steps rows ≡ false
        → All (λ t. is_blocked (row_status (row_now t)) ≡ false) steps
    unfolding any_blocked
    none_blocked [] rows f h = tt
    none_blocked (t ∷ steps) rows f h =
        let k = rw (row_in-Found rows t f.0) at h in
        (ground arith, none_blocked steps rows f.1 (ground arith))

quiet_not_failure : (st : Status) → is_quiet st ≡ true → is_failure st ≡ false
unfolding is_quiet is_failure
quiet_not_failure st h = ground arith

quiet_passed : (st : Status) → is_quiet st ≡ true → is_blocked st ≡ false → is_passed st ≡ true
unfolding is_quiet is_blocked is_passed
quiet_passed st h k = ground arith

-- The exit code is computed from the rows where no failure set it before.
final_zero :
    (steps : List DailyStep) (rows : Dict String (Option Row)) (code : Option ℤ)
    → Nonzero code
    → final_exit_code steps rows code ≡ pos 0
    → code ≡ none
unfolding final_exit_code
final_zero steps rows none z h = refl
final_zero steps rows (some x) z h = ground arith

final_none :
    (steps : List DailyStep) (rows : Dict String (Option Row))
    → first_failure steps rows ≡ none
    → final_exit_code steps rows none ≡ pos 0
    → any_blocked steps rows ≡ false
unfolding final_exit_code
final_none steps rows f h = ground arith

module _ (c : Settings) (steps : List DailyStep) (n : Machine) where
  abbrev pub Passed : DailyStep → Type 0
  Passed step = is_passed (status_of c n step.id step.state_key_policy) ≡ true

  pub loop_end_zero :
      (seen : Bool) (m : Machine) (code : Option ℤ)
      → DistinctIds steps
      → run_steps c steps seen none m ≡ ended code n
      → final_exit_code_for_state c steps n.state code ≡ pos 0
      → All Passed steps
  unfolding final_exit_code_for_state status_of
  loop_end_zero seen m code d h z =
      let e = final_zero steps _ code (Nonzero-end c steps seen none m code n tt h) z in
      let quiet =
        (Quiet-end c steps seen m n
          (subst (λ u. run_steps c steps seen none m ≡ ended u n) e h)).0 in
      let found = rows_from_own c n.state steps [] d in
      let clear =
        no_failure c n.state steps (rows_from c n.state steps []) found
          (All-map steps (λ t q. quiet_not_failure _ q) quiet) in
      let free = none_blocked c n.state steps (rows_from c n.state steps []) found (
        final_none steps (rows_from c n.state steps []) clear
          (subst (λ u. final_exit_code steps (rows_from c n.state steps []) u ≡ pos 0) e z)) in
      both steps quiet free
    where
      both :
          (l : List DailyStep)
          → All (Quiet c n) l
          → All (λ t. is_blocked (status_of c n t.id t.state_key_policy) ≡ false) l
          → All Passed l
      both [] q b = tt
      both (t ∷ l) q b = (quiet_passed _ q.0 b.0, both l q.1 b.1)
