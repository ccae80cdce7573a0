-- ===== src/Daily/Run/Whole.antt =====
-- `run_daily_update` as a whole: what an exit code 0 means, and what a repeated run does.
use quant_data_center_cn.Prelude.{
  ◌≡◌, refl, subst, ◌∙◌, String, Option, none, some, List, [], ◌∷◌, Bool, true, false, string_eq,
  if◌then◌else◌, arith, ℤ, pos, int_eq, All, All-map, map,
}
use quant_data_center_cn.Daily.Types.{StateKeyPolicy, DailyStep, success, skip_if_success}
use quant_data_center_cn.Daily.State.{
  State, Document, read_state_for_run, step_row_for_policy, row_status,
}
use quant_data_center_cn.Daily.Dependencies.{steps_by_id}
use quant_data_center_cn.Daily.Run.{
  Settings, Machine, proceed, visit, opened, pass, should_skip_success, status_now, write_state,
}
use quant_data_center_cn.Daily.Run.Program.{
  LoopEnd, ended, raised, run_steps, continue_loop, RunEnd, finished, conclude, run_with_state,
  run_daily_update, mapped_start_at, check_start_at, lock_held, run_if_read,
}
use quant_data_center_cn.Daily.Run.Effects.{status_of, status_of-opened}
use quant_data_center_cn.Daily.Run.ExitCode.{DistinctIds, Passed, is_passed, loop_end_zero}

finished_parts :
    (x : ℤ) (w : Bool) (k n : Machine)
    → finished x (if w then write_state k else k) ≡ finished (pos 0) n
    → (x ≡ pos 0) × (k.state ≡ n.state)
unfolding write_state
finished_parts x w k n h = ground arith

module _ (c : Settings) (steps : List DailyStep) (n : Machine) (distinct : DistinctIds steps) where
  same_state :
      (k : Machine)
      → k.state ≡ n.state
      → All (Passed c steps k) steps
      → All (Passed c steps n) steps
  unfolding status_of
  same_state k e h =
      subst
        (λ s.
          All
            (λ (t : DailyStep).
              is_passed (
                row_status
                  (step_row_for_policy s t.id t.state_key_policy c.dates c.run_instance_key))
              ≡ true)
            steps)
        e h

  conclude_zero :
      (w seen : Bool) (m : Machine) (l : LoopEnd)
      → run_steps c steps seen none m ≡ l
      → conclude c steps w l ≡ finished (pos 0) n
      → All (Passed c steps n) steps
  unfolding conclude
  conclude_zero w seen m (raised k) e h = cc
  conclude_zero w seen m (ended code k) e h =
      let (z, s) = finished_parts _ w k n h in
      same_state k s (loop_end_zero c steps k seen m code distinct e z)

  run_with_state_zero :
      (alive : ℤ → Bool) (read : State)
      → run_with_state c alive steps read ≡ finished (pos 0) n
      → All (Passed c steps n) steps
  unfolding run_with_state
  run_with_state_zero alive read h = conclude_zero _ _ _ _ refl h

run_if_read_zero :
    (c : Settings) (alive : ℤ → Bool) (steps : List DailyStep) (o : Option State) (n : Machine)
    → DistinctIds steps
    → run_if_read c alive steps o ≡ finished (pos 0) n
    → All (Passed c steps n) steps
unfolding run_if_read
run_if_read_zero c alive steps none n d h = cc
run_if_read_zero c alive steps (some s) n d h = run_with_state_zero c steps n d alive s h

not_locked :
    (locked : Bool) (run : RunEnd) (x : ℤ) (n : Machine)
    → (if locked then lock_held else run) ≡ finished x n
    → run ≡ finished x n
not_locked true run x n h = cc
not_locked false run x n h = h

checked :
    (ids : List String) (start_at : Option String) (run : RunEnd) (x : ℤ) (n : Machine)
    → check_start_at ids start_at run ≡ finished x n
    → run ≡ finished x n
unfolding check_start_at
checked ids none run x n h = h
checked ids (some id) run x n h = ground arith

-- When the step ids are distinct and the run returns exit code 0, every scheduled step's status in
-- the final state is success, success_degraded, skipped or skipped_timeout.
pub run_daily_update_zero :
    (c : Settings) (alive : ℤ → Bool) (locked : Bool) (steps : List DailyStep) (file : Document)
    (n : Machine)
    → DistinctIds steps
    → run_daily_update c alive locked steps file ≡ finished (pos 0) n
    → All (Passed c steps n) steps
unfolding run_daily_update status_of
run_daily_update_zero c alive locked steps file n distinct h =
    let ids = map (λ (step : DailyStep). step.id) steps in
    let c' : Settings = record c {
      start_at = mapped_start_at ids c.start_at;
      by_id = steps_by_id steps;
    } in
    run_if_read_zero c' alive steps (read_state_for_run c.force file) n distinct
      (not_locked locked _ (pos 0) n (checked ids (mapped_start_at ids c.start_at) _ (pos 0) n h))

-- The step is set to be skipped once it has succeeded, and it has.
abbrev pub DoneBefore : Settings → Machine → DailyStep → Type 0
DoneBefore c m step =
    (step.resume_policy ≡ skip_if_success) × (status_of c m step.id step.state_key_policy ≡ success)

module _ (c : Settings) (fresh : c.start_at ≡ none) (gentle : c.force ≡ false)
    (heeds : c.ignore_state ≡ false) where
  skips :
      (step : DailyStep) (m : Machine)
      → DoneBefore c m step
      → should_skip_success c step (status_now c m step) ≡ true
  unfolding should_skip_success status_now status_of
  skips step m (r, s) = rw (s, r, fresh, gentle, heeds)

  pass_done :
      (step : DailyStep) (m : Machine)
      → DoneBefore c m step
      → pass c step true m ≡ ((opened c step m, proceed), true)
  unfolding pass visit
  pass_done step m (r, s) = rw (
      skips step (opened c step m) (r, status_of-opened c step m step.id step.state_key_policy ∙ s))

  -- A loop over steps that are all set to be skipped once successful, and have succeeded, ends with
  -- the exit code that it had, runs no command, writes no file and changes no status, where the run
  -- has no start-at and neither forces nor ignores the state.
  pub resumed_run_does_nothing :
      (steps : List DailyStep) (code : Option ℤ) (m : Machine)
      → All (DoneBefore c m) steps
      → (n : Machine) × (run_steps c steps true code m ≡ ended code n)
        × (n.ran ≡ m.ran)
        × (n.file ≡ m.file)
        × ((j : String) (q : StateKeyPolicy) → status_of c n j q ≡ status_of c m j q)
  unfolding run_steps continue_loop opened
  resumed_run_does_nothing [] code m h = (m, refl, refl, refl, λ j q. refl)
  resumed_run_does_nothing (step ∷ steps) code m h =
      let same : (j : String) (q : StateKeyPolicy)
          → status_of c (opened c step m) j q ≡ status_of c m j q =
        λ j q. status_of-opened c step m j q in
      let (n, e, r, f, st) = resumed_run_does_nothing steps code (opened c step m) (
        All-map steps (λ t (d : DoneBefore c m t). (d.0, same t.id t.state_key_policy ∙ d.1))
          h.1) in
      (n, rw (pass_done step m h.0) (e), r, f, λ j q. st j q ∙ same j q)
