-- ===== src/Daily/State.antt =====
-- src/tools/run_update_daily.py: the state document, its keys, the rows of the steps and the
-- marking of abandoned rows. A state key is a data type with a constructor for each form of the
-- text (`natural_date:` with an ISO date, `market_date:` with one, `run_instance:` with a time
-- stamp, and the bare ISO date of the older format): the forms differ in their first characters.
-- Times are seconds; a mapping of the JSON text that lacks a key reads like one with the key's
-- default, a null under a state key like a missing key, and keys that the program neither reads nor
-- writes are left out.
pub mod Rows
pub mod Recording
pub mod Abandoned
use quant_data_center_cn.Prelude.{
  ℕ, ◌+◌, ◌-◌, ◌*◌, String, Option, none, some, List, [], ◌∷◌, Bool, true, false, Eq, ◌==◌,
  if◌then◌else◌, leb, ℤ, pos, negsuc, int_eq, string_eq, or_else,
}
use quant_data_center_cn.Prelude.Dict.{Dict, lookup, insert}
use native.Mathlib.Decide.{ℕ_discrete}
use quant_data_center_cn.Daily.Types.{
  StateKeyPolicy, natural_date, market_date, run_instance, DailyEffectiveDates, DailyStep, Status,
  running, abandoned, pending,
}

pub data StateKey : Type 0 where
  natural_key market_key legacy_key : ℕ → StateKey
  run_key : String → StateKey

unfoldable pub key_discrete : Discrete StateKey
key_discrete = hlevel (ℕ_discrete, string_eq.dec)

instance abbrev pub key_eq : Eq StateKey
key_eq = record { dec = key_discrete }

-- A time field: absent or null, not a text that `fromisoformat` reads, or a time.
pub data Stamp : Type 0 where
  no_stamp malformed : Stamp
  at : ℕ → Stamp

-- A process id field: the key is absent, `int` does not read the value, or it is a number.
pub data PidField : Type 0 where
  absent unusable : PidField
  number : ℤ → PidField

-- The texts of the field `reason`, a constructor for each message.
pub data Reason : Type 0 where
  no_orchestrator_pid no_valid_started_at exceeded_seconds : Reason
  pid_not_alive : ℤ → Reason
  cannot_build_daily_bar excluded_daily_bar soft_dependency : String → Status → StateKey → Reason
  upstream_degraded : String → Reason
  other_reason : String → Reason

pub record Row : Type 0 where
  pub status : Option Status
  pub command : List String
  pub network_profile : String
  pub started_at : Stamp
  pub updated_at : Stamp
  pub ended_at : Stamp
  pub exit_code : Option ℤ
  pub pid : PidField
  pub orchestrator_pid : PidField
  pub blocked_by : Option (List String)
  pub reason : Option Reason

-- What a state file may hold for a step: no mapping, an empty mapping, or a row.
pub data RowEntry : Type 0 where
  row_not_mapping empty_row : RowEntry
  row : Row → RowEntry

abbrev pub Steps : Type 0
Steps = Dict String RowEntry

-- What a state file may hold for a state key. `steps` is the value of the key "steps"; where it is
-- absent, the code's `setdefault` makes it an empty mapping.
pub data RunEntry : Type 0 where
  run_not_mapping steps_not_mapping : RunEntry
  steps : Steps → RunEntry

pub record State : Type 0 where
  pub version : Option ℕ
  pub runs : Dict StateKey RunEntry

-- The state file on disk.
pub data Document : Type 0 where
  missing corrupt not_mapping runs_not_mapping : Document
  document : State → Document

abbrev pub fresh_state : State
fresh_state = record { version = some 2; runs = [] }

-- `_read_state`: none is StateFileError.
read_state : Document → Option State
read_state missing = some fresh_state
read_state (document s) = some s
read_state _ = none

-- `_read_state_for_run`
unfoldable pub read_state_for_run : Bool → Document → Option State
unfolding read_state
read_state_for_run reset_if_corrupt d = elim (read_state d) [
  | some s ↦ some s
  | none ↦ if reset_if_corrupt then some fresh_state else none
]

-- `_state_key_for_policy`
unfoldable pub state_key_for_policy : StateKeyPolicy → DailyEffectiveDates → String → StateKey
state_key_for_policy natural_date dates run = natural_key dates.natural_date
state_key_for_policy market_date dates run = market_key dates.market_date
state_key_for_policy run_instance dates run = run_key run

-- The bare ISO date that `split(":", 1)` leaves of a key that starts with "natural_date:".
legacy_form : StateKey → Option StateKey
legacy_form (natural_key d) = some (legacy_key d)
legacy_form _ = none

entry_steps : Option RunEntry → Steps
entry_steps (some (steps m)) = m
entry_steps _ = []

lookup_legacy : Option StateKey → Dict StateKey RunEntry → Option RunEntry
lookup_legacy none runs = none
lookup_legacy (some k) runs = lookup k runs

-- `_run_state_for_key(state, key, create=False)["steps"]`
unfoldable pub steps_for_reading : State → StateKey → Steps
unfolding legacy_form entry_steps lookup_legacy or_else
steps_for_reading s key =
    entry_steps (or_else (lookup key s.runs) (lookup_legacy (legacy_form key) s.runs))

-- `_run_state_for_key(state, key, create=True)`, which leaves a mapping under the key, and the
-- mapping of steps that it returns.
unfoldable pub open_run : State → StateKey → State
unfolding entry_steps
open_run s key = record s { runs = insert key (steps (entry_steps (lookup key s.runs))) s.runs }

unfoldable pub open_steps : State → StateKey → Steps
unfolding entry_steps
open_steps s key = entry_steps (lookup key s.runs)

-- `row = steps.get(step_id, {})` of `_step_row_for_policy`, where the test for a row that is a
-- mapping and not empty passes.
row_of : Option RowEntry → Option Row
row_of (some (row r)) = some r
row_of _ = none

-- The legacy rows of `_step_row_for_policy`: only for the policy natural_date.
legacy_row : State → String → StateKeyPolicy → DailyEffectiveDates → Option Row
unfolding row_of
legacy_row s id natural_date dates =
    row_of (lookup id (steps_for_reading s (legacy_key dates.natural_date)))
legacy_row s id _ dates = none

-- `_step_row_for_policy`: none is the empty row.
unfoldable pub step_row_for_policy :
    State → String → StateKeyPolicy → DailyEffectiveDates → String → Option Row
unfolding legacy_row row_of or_else
step_row_for_policy s id policy dates run =
    or_else (row_of (lookup id (steps_for_reading s (state_key_for_policy policy dates run))))
      (legacy_row s id policy dates)

-- `str(row.get("status", "pending"))`
unfoldable pub row_status : Option Row → Status
row_status none = pending
row_status (some r) = elim r.status [ none ↦ pending | some st ↦ st ]

-- `step_state[step.id] = row`, where `step_state` is the mapping that `open_run` leaves.
unfoldable pub put_row : State → StateKey → String → Row → State
unfolding open_steps
put_row s key id r = record s {
  runs = insert key (steps (insert id (row r) (open_steps s key))) s.runs;
}

-- `started_at` of the new row: `previous.get("started_at")` raises AttributeError where the
-- previous row is no mapping, which is none here.
started : Option RowEntry → Bool → ℕ → Option Stamp
started previous true now = some (at now)
started none false now = some no_stamp
started (some empty_row) false now = some no_stamp
started (some (row r)) false now = some r.started_at
started (some row_not_mapping) false now = none

unfoldable pub is_running : Status → Bool
is_running running = true
is_running _ = false

-- The row that `_record_step` builds. Only a running row has process ids.
unfoldable pub recorded_row :
    ℤ → DailyStep → Status → Option ℤ → Option (List String) → Option Reason → Stamp → ℕ → Row
unfolding is_running
recorded_row me step status code blocked reason started_at now = record {
  status = some status;
  command = step.command;
  network_profile = step.network_profile;
  started_at = started_at;
  updated_at = at now;
  ended_at = if is_running status then no_stamp else at now;
  exit_code = code;
  pid = if is_running status then number me else absent;
  orchestrator_pid = if is_running status then number me else absent;
  blocked_by = blocked;
  reason = reason;
}

-- `_record_step` on the mapping under a state key: none where it raises AttributeError.
unfoldable pub record_step :
    ℤ
    → State
    → StateKey
    → DailyStep
    → Status
    → Option ℤ
    → Option (List String)
    → Option Reason
    → ℕ
    → Option State
unfolding started
record_step me s key step status code blocked reason now =
    elim (started (lookup step.id (open_steps s key)) (is_running status) now) [
      | none ↦ none
      | some t ↦
          some (put_row s key step.id (recorded_row me step status code blocked reason t now))
    ]
