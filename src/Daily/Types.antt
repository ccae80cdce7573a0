-- ===== src/Daily/Types.antt =====
-- src/tools/run_update_daily.py: the records and the enumerations of the daily workflow. A text
-- that the source holds to one of a set of values is a data type, and `other` stands for any text
-- outside the set that a state file may hold.
use quant_data_center_cn.Prelude.{Eq, ℕ, String, Option, List, Bool, true, false}

pub data SchedulePolicy : Type 0 where
  daily market_window legacy_when : SchedulePolicy

pub data StateKeyPolicy : Type 0 where
  natural_date market_date run_instance : StateKeyPolicy

unfoldable pub policy_dec : Discrete StateKeyPolicy
policy_dec = hlevel

instance abbrev pub policy_eq : Eq StateKeyPolicy
policy_eq = record { dec = policy_dec }

pub data ResumePolicy : Type 0 where
  skip_if_success always_run : ResumePolicy

pub data DataFreshnessPolicy : Type 0 where
  market_session natural_daily disclosure_calendar maintenance : DataFreshnessPolicy

-- A date is its proleptic Gregorian ordinal, as `date.toordinal` gives it.
pub record DailyEffectiveDates : Type 0 where
  pub natural_date : ℕ
  pub candidate_date : ℕ
  pub market_date : ℕ
  pub hist_start : ℕ
  pub market_date_overridden : Bool

pub record DailyDependency : Type 0 where
  pub step_id : String
  pub state_key_policy : Option StateKeyPolicy
  pub soft : Bool

-- `DailyDependency | str`
pub data Dependency : Type 0 where
  detailed : DailyDependency → Dependency
  plain : String → Dependency

pub record DailyStep : Type 0 where
  pub id : String
  pub name : String
  pub command : List String
  pub optional : Bool
  pub timeout_seconds : Option ℕ
  pub depends_on : List Dependency
  pub schedule_policy : SchedulePolicy
  pub state_key_policy : StateKeyPolicy
  pub resume_policy : ResumePolicy
  pub data_freshness_policy : DataFreshnessPolicy
  pub network_profile : String

pub data Status : Type 0 where
  pending running success success_degraded skipped skipped_checkpoint skipped_timeout blocked failed
        failed_resource_locked failed_timeout_cleanup abandoned :
      Status
  other : String → Status

-- FAILED_DEPENDENCY_STATUSES
unfoldable pub failed_dependency : Status → Bool
failed_dependency failed = true
failed_dependency failed_resource_locked = true
failed_dependency failed_timeout_cleanup = true
failed_dependency blocked = true
failed_dependency abandoned = true
failed_dependency _ = false

-- SATISFIED_DEPENDENCY_STATUSES
unfoldable pub satisfied_dependency : Status → Bool
satisfied_dependency success = true
satisfied_dependency success_degraded = true
satisfied_dependency skipped = true
satisfied_dependency skipped_checkpoint = true
satisfied_dependency _ = false

unfoldable pub dependency_step_id : Dependency → String
dependency_step_id (detailed d) = d.step_id
dependency_step_id (plain s) = s
