-- ===== src/Daily/State/Rows.antt =====
-- How the rows that the workflow reads change when it opens a run or writes a row: rows of the
-- older format stay visible.
use quant_data_center_cn.Prelude.{
  ℕ, String, Option, none, some, [], Bool, false, ◌==◌, ◌≡◌, ◌≢◌, refl, sym, subst, ◌∙◌, arith,
  if◌then◌else◌, string_eq, ◌&&◌, Option-cases, or_else, or_else_self, inl, inr,
}
use quant_data_center_cn.Prelude.Dict.{lookup, insert, lookup-insert}
use quant_data_center_cn.Daily.Types.{
  StateKeyPolicy, policy_dec, policy_eq, natural_date, market_date, run_instance,
  DailyEffectiveDates,
}
use quant_data_center_cn.Daily.State.{
  State, StateKey, natural_key, market_key, legacy_key, run_key, key_eq, Steps, row, Row, RunEntry,
  steps, legacy_form, steps_for_reading, open_run, open_steps, row_of, legacy_row,
  step_row_for_policy, put_row, state_key_for_policy,
}

-- The runs with the steps of one key replaced: what `open_run` and `put_row` have in common.
abbrev replaced : State → StateKey → Steps → State
replaced s k m = record s { runs = insert k (steps m) s.runs }

module _ (s : State) (k : StateKey) (m : Steps) where
  read-replaced : steps_for_reading (replaced s k m) k ≡ m
  unfolding steps_for_reading
  read-replaced = ground (arith, lookup-insert k k (steps m) s.runs)

  read-replaced_ne :
      (j : StateKey)
      → j ≢ k
      → legacy_form j ≢ some k
      → steps_for_reading (replaced s k m) j ≡ steps_for_reading s j
  unfolding steps_for_reading
  read-replaced_ne (natural_key d) n l = ground (
    arith,
    lookup-insert (natural_key d) k (steps m) s.runs,
    lookup-insert (legacy_key d) k (steps m) s.runs,
  )
  read-replaced_ne (market_key d) n l =
      ground (arith, lookup-insert (market_key d) k (steps m) s.runs)
  read-replaced_ne (legacy_key d) n l =
      ground (arith, lookup-insert (legacy_key d) k (steps m) s.runs)
  read-replaced_ne (run_key d) n l = ground (arith, lookup-insert (run_key d) k (steps m) s.runs)

module _ (s : State) (k : StateKey) where
  open_steps-some :
      (e : RunEntry) → lookup k s.runs ≡ some e → open_steps s k ≡ steps_for_reading s k
  unfolding open_steps steps_for_reading
  open_steps-some e h = rw h

  open_steps-no_legacy : legacy_form k ≡ none → open_steps s k ≡ steps_for_reading s k
  unfolding open_steps steps_for_reading
  open_steps-no_legacy h = elim (Option-cases (lookup k s.runs)) [
    | inl e ↦ rw (e, h)
    | inr (r, e) ↦ rw e
  ]

  open_steps-none : lookup k s.runs ≡ none → open_steps s k ≡ []
  unfolding open_steps
  open_steps-none h = rw h

reading-none :
    (s : State) (d : ℕ)
    → lookup (natural_key d) s.runs ≡ none
    → steps_for_reading s (natural_key d) ≡ steps_for_reading s (legacy_key d)
unfolding steps_for_reading
reading-none s d h = rw h (ground arith)

legacy_key_bare : (d : ℕ) (k : StateKey) → legacy_form (legacy_key d) ≢ some k
unfolding legacy_form
legacy_key_bare d k = λ e. cc

module _ (dates : DailyEffectiveDates) (run : String) where
  legacy_ne :
      (p : StateKeyPolicy) → legacy_key dates.natural_date ≢ state_key_for_policy p dates run
  unfolding state_key_for_policy
  legacy_ne natural_date = λ e. cc
  legacy_ne market_date = λ e. cc
  legacy_ne run_instance = λ e. cc

  keys_ne :
      (p q : StateKeyPolicy)
      → q ≢ p
      → state_key_for_policy q dates run ≢ state_key_for_policy p dates run
  unfolding state_key_for_policy
  keys_ne p q n = λ e. ground arith

  legacy_form_ne :
      (p q : StateKeyPolicy)
      → legacy_form (state_key_for_policy q dates run) ≢ some (state_key_for_policy p dates run)
  unfolding state_key_for_policy legacy_form
  legacy_form_ne p q = λ e. ground arith

module _ (s : State) (dates : DailyEffectiveDates) (run id : String) where
  -- The row that a mapping of steps gives for a policy, with the older format behind it.
  row_through : StateKeyPolicy → Steps → Option Row
  row_through p m = or_else (row_of (lookup id m)) (legacy_row s id p dates)

  -- An opened run shows the rows that reading shows: a natural date that is not yet in the document
  -- shows its legacy rows either way.
  row_through-open :
      (p : StateKeyPolicy)
      → row_through p (open_steps s (state_key_for_policy p dates run))
        ≡ step_row_for_policy s id p dates run
  unfolding row_through step_row_for_policy state_key_for_policy legacy_form
  row_through-open natural_date =
      elim (Option-cases (lookup (natural_key dates.natural_date) s.runs)) [
        | inl e ↦
            rw (open_steps-none s _ e, reading-none s _ e)
              (unfold legacy_row lookup row_of or_else in sym (or_else_self _))
        | inr (r, e) ↦ rw (open_steps-some s _ r e)
      ]
  row_through-open market_date = rw (open_steps-no_legacy s (market_key dates.market_date) refl)
  row_through-open run_instance = rw (open_steps-no_legacy s (run_key run) refl)

  module _ (m : Steps) (p : StateKeyPolicy) where
    abbrev written : State
    written = replaced s (state_key_for_policy p dates run) m

    legacy_row-replaced :
        (q : StateKeyPolicy) → legacy_row written id q dates ≡ legacy_row s id q dates
    unfolding legacy_row
    legacy_row-replaced natural_date = rw (
        read-replaced_ne s (state_key_for_policy p dates run) m (legacy_key dates.natural_date)
          (legacy_ne dates run p) (legacy_key_bare dates.natural_date _))
    legacy_row-replaced _ = refl

    step_row-replaced_self : step_row_for_policy written id p dates run ≡ row_through p m
    unfolding step_row_for_policy row_through
    step_row-replaced_self =
        rw (read-replaced s (state_key_for_policy p dates run) m, legacy_row-replaced p)

    step_row-replaced_ne :
        (q : StateKeyPolicy)
        → q ≢ p
        → step_row_for_policy written id q dates run ≡ step_row_for_policy s id q dates run
    unfolding step_row_for_policy
    step_row-replaced_ne q n = rw (
      read-replaced_ne s (state_key_for_policy p dates run) m (state_key_for_policy q dates run)
          (keys_ne dates run p q n) (legacy_form_ne dates run p q),
      legacy_row-replaced q,
    )

test_true : (q p : StateKeyPolicy) (b : Bool) → q ≡ p → ((q == p) && b) ≡ b
test_true q p b e = ground arith

test_false : (q p : StateKeyPolicy) (b : Bool) → q ≢ p → ((q == p) && b) ≡ false
test_false q p b e = ground arith

row_through-insert :
    (s : State) (dates : DailyEffectiveDates) (run j : String) (p : StateKeyPolicy) (id : String)
    (r : Row)
    → row_through s dates run j p
        (insert id (row r) (open_steps s (state_key_for_policy p dates run)))
      ≡ (if j == id then some r else step_row_for_policy s j p dates run)
unfolding row_through
row_through-insert s dates run j p id r =
    rw
      (
        lookup-insert j id (row r) (open_steps s (state_key_for_policy p dates run)),
        ← row_through-open s dates run j p,
      )
      (unfold row_of or_else in ground arith)

module _ (s : State) (dates : DailyEffectiveDates) (run : String) where
  -- To open the run of a policy changes no row that the workflow reads.
  pub step_row-open_run :
      (p q : StateKeyPolicy) (id : String)
      → step_row_for_policy (open_run s (state_key_for_policy p dates run)) id q dates run
        ≡ step_row_for_policy s id q dates run
  unfolding open_run open_steps
  step_row-open_run p q id = elim (policy_dec q p) [
    | yes e ↦ rw e (
        step_row-replaced_self s dates run id (open_steps s (state_key_for_policy p dates run)) p
        ∙ row_through-open s dates run id p)
    | no n ↦
        step_row-replaced_ne s dates run id (open_steps s (state_key_for_policy p dates run)) p q n
  ]

  at_own :
      (p : StateKeyPolicy) (id j : String) (r : Row)
      → step_row_for_policy (put_row s (state_key_for_policy p dates run) id r) j p dates run
        ≡ (if j == id then some r else step_row_for_policy s j p dates run)
  unfolding put_row
  at_own p id j r =
      step_row-replaced_self s dates run j
        (insert id (row r) (open_steps s (state_key_for_policy p dates run))) p
      ∙ row_through-insert s dates run j p id r

  -- After a row is written, reading shows it at its own policy and step, and shows every other row,
  -- those of the older format included, as before.
  pub step_row-put_row :
      (p q : StateKeyPolicy) (id j : String) (r : Row)
      → step_row_for_policy (put_row s (state_key_for_policy p dates run) id r) j q dates run
        ≡ (if (q == p) && (j == id) then some r else step_row_for_policy s j q dates run)
  unfolding put_row
  step_row-put_row p q id j r = elim (policy_dec q p) [
    | yes e ↦
        subst
          (λ u.
            step_row_for_policy (put_row s (state_key_for_policy p dates run) id r) j u dates run
            ≡ (if (u == p) && (j == id) then some r else step_row_for_policy s j u dates run))
          (sym e) (rw (test_true p p (j == id) refl) (at_own p id j r))
    | no n ↦ rw (test_false q p (j == id) n) (
        step_row-replaced_ne s dates run j
          (insert id (row r) (open_steps s (state_key_for_policy p dates run))) p q n)
  ]
