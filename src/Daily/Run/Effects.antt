-- ===== src/Daily/Run/Effects.antt =====
-- What a recorded row, and a pass that ends with one, do to the statuses that the workflow reads.
use quant_data_center_cn.Prelude.{
  ◌≡◌, ◌≢◌, refl, ap, String, Option, some, List, Bool, true, false, ◌&&◌, not, ◌==◌, string_eq,
  if◌then◌else◌, arith, ℤ, pos, int_eq, Option-cases, inl, inr,
}
use quant_data_center_cn.Daily.Types.{
  StateKeyPolicy, policy_eq, DailyStep, Status, success, success_degraded, skipped, skipped_timeout,
  blocked,
}
use quant_data_center_cn.Daily.State.{
  Reason, record_step, row_status, step_row_for_policy, state_key_for_policy,
}
use quant_data_center_cn.Daily.State.Rows.{step_row-open_run}
use quant_data_center_cn.Daily.State.Recording.{record_step-status}
use quant_data_center_cn.Daily.Run.{
  Settings, Machine, Flow, proceed, crash, failed_with, stop_with, record_in, record_and_end,
  write_state, opened,
}
use quant_data_center_cn.Daily.Run.Program.{is_failure}

-- The status that the workflow reads for a step id under a policy.
unfoldable pub status_of : Settings → Machine → String → StateKeyPolicy → Status
status_of c m id p = row_status (step_row_for_policy m.state id p c.dates c.run_instance_key)

module _ (c : Settings) where
  module _ (step e : DailyStep) (status : Status) (code : Option ℤ) (by : Option (List String))
      (reason : Option Reason) (m : Machine) where
    record_in-state :
        (n : Machine)
        → record_in c step e status code by reason m ≡ some n
        → (record_step c.me m.state
              (state_key_for_policy step.state_key_policy c.dates c.run_instance_key)
              e
              status
              code
              by
              reason
              (c.clock m.ticks)
            ≡ some n.state)
          × (n.ran ≡ m.ran)
    unfolding record_in
    record_in-state n h = ground arith

    -- A record changes the status of its own step, and no other.
    pub record_in-status :
        (n : Machine) (j : String) (q : StateKeyPolicy)
        → record_in c step e status code by reason m ≡ some n
        → status_of c n j q
          ≡ (if (q == step.state_key_policy) && (j == e.id) then status else status_of c m j q)
    unfolding status_of
    record_in-status n j q h =
        record_step-status c.me m.state n.state c.dates c.run_instance_key step.state_key_policy q j
          e status code by reason (c.clock m.ticks) (record_in-state n h).0

    pub ran-record_in :
        (n : Machine) → record_in c step e status code by reason m ≡ some n → n.ran ≡ m.ran
    ran-record_in n h = (record_in-state n h).1

    -- Where a pass that records a row and ends raises nothing, the row was recorded.
    pub record_and_end-recorded :
        (flow : Flow)
        → (record_and_end c step e status code by reason flow m).1 ≢ crash
        → (n : Machine) × (record_in c step e status code by reason m ≡ some n)
          × (record_and_end c step e status code by reason flow m ≡ (write_state n, flow))
    unfolding record_and_end
    record_and_end-recorded flow h =
        elim (Option-cases (record_in c step e status code by reason m)) [
          | inl k ↦ absurd (h (rw (k, record_and_end)))
          | inr (n, k) ↦ (n, k, rw (k, record_and_end))
        ]

  pub status_of-write_state :
      (m : Machine) (j : String) (q : StateKeyPolicy)
      → status_of c (write_state m) j q ≡ status_of c m j q
  unfolding status_of write_state
  status_of-write_state m j q = refl

  pub status_of-opened :
      (step : DailyStep) (m : Machine) (j : String) (q : StateKeyPolicy)
      → status_of c (opened c step m) j q ≡ status_of c m j q
  unfolding status_of opened
  status_of-opened step m j q =
      ap row_status (step_row-open_run m.state c.dates c.run_instance_key step.state_key_policy q j)

-- The statuses of a step whose pass goes on with no failure.
unfoldable pub is_quiet : Status → Bool
is_quiet success = true
is_quiet success_degraded = true
is_quiet skipped = true
is_quiet skipped_timeout = true
is_quiet blocked = true
is_quiet _ = false

-- The status that a pass leaves fits the way in which it ends: a failure has a code other than 0.
unfoldable pub fits : Flow → Status → Bool
unfolding is_quiet
fits proceed st = is_quiet st
fits (failed_with x) st = is_failure st && not (x == pos 0)
fits (stop_with x) st = is_failure st && not (x == pos 0)
fits crash st = true

-- A step's status fits the end of its pass, and no other status has changed.
pub record Settles (c : Settings) (step : DailyStep) (flow : Flow) (m n : Machine) : Type 0 where
  pub own : fits flow (status_of c n step.id step.state_key_policy) ≡ true
  pub others :
      (j : String) (q : StateKeyPolicy)
      → ((q == step.state_key_policy) && (j == step.id)) ≡ false
      → status_of c n j q ≡ status_of c m j q

own_test : (p : StateKeyPolicy) (id : String) → ((p == p) && (id == id)) ≡ true
own_test p id = ground arith

pub record_in-Settles :
    (c : Settings) (step e : DailyStep) (status : Status) (code : Option ℤ)
    (by : Option (List String)) (reason : Option Reason) (flow : Flow) (m n : Machine)
    → e.id ≡ step.id
    → fits flow status ≡ true
    → record_in c step e status code by reason m ≡ some n
    → Settles c step flow m n
record_in-Settles c step e status code by reason flow m n same s h = record {
  own =
      let k = record_in-status c step e status code by reason m n step.id step.state_key_policy h in
      rw (k, same, own_test step.state_key_policy step.id) s;
  others =
      λ j q t. let k = record_in-status c step e status code by reason m n j q h in rw (k, same, t);
}
