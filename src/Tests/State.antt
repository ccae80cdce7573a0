-- ===== src/Tests/State.antt =====
-- Tests of the rows of the daily state: reading, writing and the pass over abandoned rows.
use quant_data_center_cn.Prelude.{
  ℕ, ◌≡◌, refl, String, none, some, Bool, ◌&&◌, if◌then◌else◌, ◌==◌, string_eq, pos, ℤ, int_eq,
  nat_eq,
}
use quant_data_center_cn.Daily.Types.{StateKeyPolicy, natural_date, policy_eq}
use quant_data_center_cn.Daily.Types.{success}
use quant_data_center_cn.Daily.State.{
  no_stamp, State, step_row_for_policy, state_key_for_policy, put_row, row_status, record_step,
  recorded_row,
}
use quant_data_center_cn.Daily.State.Rows.{step_row-put_row}
use quant_data_center_cn.Daily.State.Abandoned.AtWork.{IsNamed, GoesOn}
use quant_data_center_cn.Daily.State.Abandoned.{mark_abandoned_running_steps_in_state}
use quant_data_center_cn.Daily.State.Abandoned.Marking.{
  Becomes, step_row-mark_abandoned, running_after_mark,
}
use quant_data_center_cn.Tests.Workflow.{
  derived, on_friday, every_pid_alive, done, left_running, after_yesterday, computed,
}

step_row-put_row_example :
    step_row_for_policy
      (put_row after_yesterday (state_key_for_policy natural_date on_friday "run") "cleanup" done)
      "build-derived"
      natural_date
      on_friday
      "run"
    ≡ (if (◌==◌ {A = StateKeyPolicy} natural_date natural_date)
          && ◌==◌ {A = String} "build-derived" "cleanup"
        then some done
        else step_row_for_policy after_yesterday "build-derived" natural_date on_friday "run")
step_row-put_row_example =
    step_row-put_row after_yesterday on_friday "run" natural_date natural_date "cleanup"
      "build-derived" done

abbrev only_me : ℤ → Bool
only_me p = p == pos 4242

abbrev swept_state : State
swept_state =
    (mark_abandoned_running_steps_in_state only_me (some (pos 4242)) 1000 after_yesterday).0

step_row-mark_abandoned_example :
    Becomes only_me
      (some (pos 4242))
      1000
      (step_row_for_policy after_yesterday "build-derived" natural_date on_friday "run")
      (step_row_for_policy swept_state "build-derived" natural_date on_friday "run")
step_row-mark_abandoned_example =
    step_row-mark_abandoned only_me (some (pos 4242)) 1000 after_yesterday "build-derived"
      natural_date on_friday "run"

-- Where every process is alive, the row of process 77 stays as it is.
abbrev kept_state : State
kept_state =
    (mark_abandoned_running_steps_in_state every_pid_alive (some (pos 4242)) 1000 after_yesterday).0

still_running :
    step_row_for_policy kept_state "build-derived" natural_date on_friday "run" ≡ some left_running
unfolding computed
still_running = refl

running_after_mark_example :
    (pid : ℕ) × IsNamed left_running pid
    × GoesOn every_pid_alive (some (pos 4242)) 1000 pid left_running.started_at
running_after_mark_example =
    running_after_mark every_pid_alive (some (pos 4242)) 1000 after_yesterday "build-derived"
      natural_date on_friday "run" left_running still_running (unfold row_status in refl)

-- The derived step is recorded as successful in the state of yesterday.
abbrev with_success : State
with_success =
    put_row after_yesterday (state_key_for_policy natural_date on_friday "run") "build-derived"
      (recorded_row (pos 4242) derived success (some (pos 0)) none none no_stamp 1000)

recorded_success :
    record_step
      (pos 4242)
      after_yesterday
      (state_key_for_policy natural_date on_friday "run")
      derived
      success
      (some (pos 0))
      none
      none
      1000
    ≡ some with_success
unfolding computed
recorded_success = refl
