-- ===== src/Daily/State/Recording.antt =====
-- What `_record_step` does to the statuses that the workflow reads.
use quant_data_center_cn.Prelude.{
  ℕ, ◌≡◌, refl, String, Option, some, List, true, false, ◌&&◌, ◌==◌, string_eq, if◌then◌else◌, ℤ,
  Option-cases, inl, inr, Bool, ap, ◌∙◌,
}
use quant_data_center_cn.Prelude.Dict.{lookup}
use quant_data_center_cn.Daily.Types.{
  StateKeyPolicy, policy_eq, DailyEffectiveDates, DailyStep, Status,
}
use quant_data_center_cn.Daily.State.{
  State, StateKey, Reason, Row, Stamp, put_row, started, record_step, recorded_row, row_status,
  is_running, step_row_for_policy, state_key_for_policy, open_steps,
}
use quant_data_center_cn.Daily.State.Rows.{step_row-put_row}

row_status_if :
    (b : Bool) (r : Row) (o : Option Row)
    → row_status (if b then some r else o) ≡ (if b then row_status (some r) else row_status o)
row_status_if true r o = refl
row_status_if false r o = refl

module _ (me : ℤ) (s : State) (key : StateKey) (e : DailyStep) (status : Status) (code : Option ℤ)
    (by : Option (List String)) (reason : Option Reason) (now : ℕ) where
  record_step-put :
      (t : State)
      → record_step me s key e status code by reason now ≡ some t
      → (st : Stamp) × (t ≡ put_row s key e.id (recorded_row me e status code by reason st now))
  unfolding record_step
  record_step-put t h =
      elim (Option-cases (started (lookup e.id (open_steps s key)) (is_running status) now)) [
        | inl k ↦ cc
        | inr (st, k) ↦ (st, cc)
      ]

  status_recorded :
      (st : Stamp) → row_status (some (recorded_row me e status code by reason st now)) ≡ status
  unfolding row_status recorded_row
  status_recorded st = refl

-- A recorded row gives its own step the recorded status, and every other status stays as it was.
pub record_step-status :
    (me : ℤ) (s t : State) (dates : DailyEffectiveDates) (run : String) (p q : StateKeyPolicy)
    (j : String) (e : DailyStep) (status : Status) (code : Option ℤ) (by : Option (List String))
    (reason : Option Reason) (now : ℕ)
    → record_step me s (state_key_for_policy p dates run) e status code by reason now ≡ some t
    → row_status (step_row_for_policy t j q dates run) ≡ (
        if (q == p) && (j == e.id)
        then status
        else row_status (step_row_for_policy s j q dates run))
record_step-status me s t dates run p q j e status code by reason now h =
    let key = state_key_for_policy p dates run in
    let (st, k) = record_step-put me s key e status code by reason now t h in
    ap (λ u. row_status (step_row_for_policy u j q dates run)) k
    ∙ (ap row_status (step_row-put_row s dates run p q e.id j _)
        ∙ (row_status_if ((q == p) && (j == e.id)) _ _
            ∙ ap
                (λ x.
                  if (q == p) && (j == e.id)
                  then x
                  else row_status (step_row_for_policy s j q dates run))
                (status_recorded me s key e status code by reason now st)))
