-- ===== src/Daily/State/Abandoned/Marking.antt =====
-- What the marking of abandoned rows does to the rows that the workflow reads.
use quant_data_center_cn.Prelude.{
  ℕ, ◌≡◌, refl, sym, ◌∙◌, String, Option, none, some, [], ◌∷◌, Bool, ℤ, int_eq, string_eq, or_else,
  arith, inl, inr, Option-cases, Bool-cases, true, false, ◌⊎◌, ◌≢◌, pos, ap, subst,
}
use quant_data_center_cn.Prelude.Dict.{Dict, lookup}
use quant_data_center_cn.Daily.Types.{
  StateKeyPolicy, DailyEffectiveDates, running, natural_date, Status, abandoned,
}
use quant_data_center_cn.Daily.State.{
  Reason, at, State, StateKey, key_eq, Row, RowEntry, row, row_not_mapping, empty_row, Steps,
  RunEntry, steps, run_not_mapping, steps_not_mapping, is_running, row_status, row_of, legacy_row,
  entry_steps, lookup_legacy, legacy_form, steps_for_reading, step_row_for_policy,
  state_key_for_policy, legacy_key,
}
use quant_data_center_cn.Daily.State.Abandoned.AtWork.{IsNamed, GoesOn, IsAtWork, reason-IsAtWork}
use quant_data_center_cn.Daily.State.Abandoned.{
  running_abandoned_reason, abandon_for, mark_row, mark_entry, mark_steps, mark_run, mark_runs,
  mark_abandoned_running_steps_in_state,
}

module _ (alive : ℤ → Bool) (active_pid : Option ℤ) (now : ℕ) where
  -- What the pass does to an optional row.
  abbrev pub marked : Option Row → Option Row
  marked none = none
  marked (some r) = some (mark_row alive active_pid now r).0

  marked_entry : Option RowEntry → Option RowEntry
  marked_entry none = none
  marked_entry (some e) = some (mark_entry alive active_pid now e).0

  marked_run : Option RunEntry → Option RunEntry
  marked_run none = none
  marked_run (some e) = some (mark_run alive active_pid now e).0

  lookup-mark_steps :
      (id : String) (m : Steps)
      → lookup id (mark_steps alive active_pid now m).0 ≡ marked_entry (lookup id m)
  unfolding mark_steps lookup marked_entry
  lookup-mark_steps id [] = refl
  lookup-mark_steps id ((j, e) ∷ m) = ground (arith, lookup-mark_steps id m)

  lookup-mark_runs :
      (k : StateKey) (d : Dict StateKey RunEntry)
      → lookup k (mark_runs alive active_pid now d).0 ≡ marked_run (lookup k d)
  unfolding mark_runs lookup marked_run
  lookup-mark_runs k [] = refl
  lookup-mark_runs k ((j, e) ∷ d) = ground (arith, lookup-mark_runs k d)

  row_of-marked : (o : Option RowEntry) → row_of (marked_entry o) ≡ marked (row_of o)
  unfolding row_of marked_entry mark_entry
  row_of-marked none = refl
  row_of-marked (some row_not_mapping) = refl
  row_of-marked (some empty_row) = refl
  row_of-marked (some (row r)) = refl

  entry_steps-marked :
      (o : Option RunEntry)
      → entry_steps (marked_run o) ≡ (mark_steps alive active_pid now (entry_steps o)).0
  unfolding entry_steps marked_run mark_run
  entry_steps-marked none = unfold mark_steps in refl
  entry_steps-marked (some run_not_mapping) = unfold mark_steps in refl
  entry_steps-marked (some steps_not_mapping) = unfold mark_steps in refl
  entry_steps-marked (some (steps m)) = refl

  or_else-marked_run :
      (a b : Option RunEntry) → or_else (marked_run a) (marked_run b) ≡ marked_run (or_else a b)
  unfolding or_else marked_run
  or_else-marked_run none b = refl
  or_else-marked_run (some a) b = refl

  or_else-marked : (a b : Option Row) → or_else (marked a) (marked b) ≡ marked (or_else a b)
  unfolding or_else
  or_else-marked none b = refl
  or_else-marked (some a) b = refl

  -- What the pass makes of a row that the workflow reads, where there is one: a row that is running and
  -- whose run does not go on is abandoned, with an exit code of 1 and the time of the pass; every other
  -- row stays.
  abbrev pub Becomes : Option Row → Option Row → Type 0
  Becomes none after = after ≡ none
  Becomes (some q) after =
      ((row_status (some q) ≡ running)
        × (¬ IsAtWork alive active_pid now q)
        × (why : Reason) × (after
            ≡ some (record q {
              status = some abandoned;
              updated_at = at now;
              ended_at = at now;
              exit_code = some (pos 1);
              reason = some why;
            })))
      ⊎ (((row_status (some q) ≢ running) ⊎ IsAtWork alive active_pid now q) × (after ≡ some q))

  is_running-true : (st : Status) → is_running st ≡ true → st ≡ running
  unfolding is_running
  is_running-true running h = refl
  is_running-true st h = cc

  is_running-false : (st : Status) → is_running st ≡ false → st ≢ running
  unfolding is_running
  is_running-false st h e = let impossible : true ≡ false = sym (ap is_running e) ∙ h in cc

  marked-Becomes : (o : Option Row) → Becomes o (marked o)
  unfolding mark_row abandon_for
  marked-Becomes none = refl
  marked-Becomes (some q) = elim (Bool-cases (is_running (row_status (some q)))) [
    | inr e ↦ rw e (inr (inl (is_running-false _ e), refl))
    | inl e ↦ elim (Option-cases (running_abandoned_reason alive active_pid now q)) [
      | inl k ↦ rw (e, k) (inr (inr ((reason-IsAtWork alive active_pid now q).0 k), refl))
      | inr (why, k) ↦
          rw (e, k)
            (inl (
              is_running-true _ e,
              λ works.
                  let impossible : none ≡ some why =
                    sym ((reason-IsAtWork alive active_pid now q).1 works) ∙ k in
                  cc,
              why,
              refl,
            ))
    ]
  ]

  -- No row that the pass leaves as running is one that it would mark.
  still_running :
      (o : Option Row) (r : Row)
      → Becomes o (some r)
      → row_status (some r) ≡ running
      → IsAtWork alive active_pid now r
  still_running none r h e = cc
  still_running (some q) r (inl (runs, left, why, same)) e =
      let impossible : abandoned ≡ running = unfold row_status in sym (ap row_status same) ∙ e in cc
  still_running (some q) r (inr (inl idle, same)) e = absurd (idle (sym (ap row_status same) ∙ e))
  still_running (some q) r (inr (inr works, same)) e =
      let r_is : q ≡ r = cc in subst (IsAtWork alive active_pid now) r_is works

  module _ (s : State) where
    abbrev swept : State
    swept = (mark_abandoned_running_steps_in_state alive active_pid now s).0

    lookup-swept : (k : StateKey) → lookup k swept.runs ≡ marked_run (lookup k s.runs)
    unfolding mark_abandoned_running_steps_in_state
    lookup-swept k = lookup-mark_runs k s.runs

    legacy-swept :
        (o : Option StateKey) → lookup_legacy o swept.runs ≡ marked_run (lookup_legacy o s.runs)
    unfolding lookup_legacy
    legacy-swept none = unfold marked_run in refl
    legacy-swept (some k) = lookup-swept k

    reading-swept :
        (k : StateKey)
        → steps_for_reading swept k ≡ (mark_steps alive active_pid now (steps_for_reading s k)).0
    unfolding steps_for_reading
    reading-swept k =
        rw
          (
            lookup-swept k,
            legacy-swept (legacy_form k),
            or_else-marked_run (lookup k s.runs) (lookup_legacy (legacy_form k) s.runs),
          )
          (entry_steps-marked _)

    row-swept :
        (k : StateKey) (id : String)
        → row_of (lookup id (steps_for_reading swept k))
          ≡ marked (row_of (lookup id (steps_for_reading s k)))
    row-swept k id =
        rw (reading-swept k, lookup-mark_steps id (steps_for_reading s k)) (row_of-marked _)

    step_row-marked :
        (id : String) (p : StateKeyPolicy) (dates : DailyEffectiveDates) (run : String)
        → step_row_for_policy swept id p dates run ≡ marked (step_row_for_policy s id p dates run)
    unfolding step_row_for_policy legacy_row
    step_row-marked id natural_date dates run =
        rw
          (
            row-swept (state_key_for_policy natural_date dates run) id,
            row-swept (legacy_key dates.natural_date) id,
          )
          (or_else-marked _ _)
    step_row-marked id p dates run =
        rw (row-swept (state_key_for_policy p dates run) id) (or_else-marked _ none)

    -- A row that the workflow reads, under the present or the older format, is abandoned by the pass, with
    -- exit code 1 and the time of the pass, where it is running and its run does not go on; otherwise
    -- it stays as it is, and no row appears or goes. A run goes on if the process that its row names, by
    -- `orchestrator_pid` or else `pid`, holds the lock, or is alive and began at most 86400 seconds ago.
    pub step_row-mark_abandoned :
        (id : String) (p : StateKeyPolicy) (dates : DailyEffectiveDates) (run : String)
        → Becomes (step_row_for_policy s id p dates run) (step_row_for_policy swept id p dates run)
    step_row-mark_abandoned id p dates run =
        subst (Becomes (step_row_for_policy s id p dates run))
          (sym (step_row-marked id p dates run))
          (marked-Becomes (step_row_for_policy s id p dates run))

    -- A row that still reads as running after the pass names a process that holds the lock, or
    -- that is alive and began at most 86400 seconds ago.
    pub running_after_mark :
        (id : String) (p : StateKeyPolicy) (dates : DailyEffectiveDates) (run : String) (r : Row)
        → step_row_for_policy swept id p dates run ≡ some r
        → row_status (some r) ≡ running
        → (pid : ℕ) × IsNamed r pid × GoesOn alive active_pid now pid r.started_at
    running_after_mark id p dates run r h e =
        still_running (step_row_for_policy s id p dates run) r
          (subst (Becomes (step_row_for_policy s id p dates run)) h
            (step_row-mark_abandoned id p dates run))
          e
