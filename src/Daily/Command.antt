-- ===== src/Daily/Command.antt =====
-- src/tools/run_update_daily.py: the command lines of the build-derived steps, which a degraded run
-- rewrites to leave out the target daily_bar.
use Prim.Native.Char.{code}
use quant_data_center_cn.Prelude.{
  String, Option, none, some, List, [], ◌∷◌, Bool, true, false, ◌&&◌, ◌||◌, not, ◌==◌, string_eq,
  contains, if◌then◌else◌, eqb, ◌≡◌, refl, arith, Bool-cases, inl, inr,
}
use quant_data_center_cn.Daily.Types.{DailyStep}

-- `arg.split("=", 1)[1]` of a text that starts with the prefix: none where it does not.
unfoldable pub drop_prefix : String → String → Option String
drop_prefix String.[] s = some s
drop_prefix (String.◌∷◌ c p) String.[] = none
drop_prefix (String.◌∷◌ c p) (String.◌∷◌ d s) =
    let rest = drop_prefix p s in if eqb (code c) (code d) then rest else none

with_equals_form : String → List String → List String
unfolding drop_prefix
with_equals_form arg rest = elim (drop_prefix "--target=" arg) [
  | none ↦ rest
  | some value ↦ value ∷ rest
]

-- The loop of `_build_derived_requested_targets`.
target_arguments : List String → List String
unfolding with_equals_form
target_arguments [] = []
target_arguments (arg ∷ []) = with_equals_form arg []
target_arguments (arg ∷ value ∷ rest) =
    let after = target_arguments rest in
    let next = target_arguments (value ∷ rest) in
    if arg == "--target" then value ∷ after else with_equals_form arg next

or_all : List String → List String
or_all [] = "all" ∷ []
or_all (t ∷ ts) = t ∷ ts

unfoldable pub build_derived_requested_targets : List String → List String
unfolding target_arguments or_all
build_derived_requested_targets command = or_all (target_arguments command)

starts_with_daily_bar : List String → Bool
starts_with_daily_bar [] = false
starts_with_daily_bar (value ∷ rest) = value == "daily_bar"

unfoldable pub build_derived_command_excludes_daily_bar : List String → Bool
unfolding starts_with_daily_bar
build_derived_command_excludes_daily_bar [] = false
build_derived_command_excludes_daily_bar (arg ∷ rest) =
    arg == "--exclude-target" && starts_with_daily_bar rest
    || arg == "--exclude-target=daily_bar"
    || build_derived_command_excludes_daily_bar rest

-- The addition stands before the first `--no-build-duckdb-views`, or at the end.
unfoldable pub append_build_derived_exclude_daily_bar : List String → List String
append_build_derived_exclude_daily_bar [] = "--exclude-target" ∷ "daily_bar" ∷ []
append_build_derived_exclude_daily_bar (arg ∷ rest) =
    if arg == "--no-build-duckdb-views"
    then "--exclude-target" ∷ "daily_bar" ∷ arg ∷ rest
    else arg ∷ append_build_derived_exclude_daily_bar rest

-- None, the text "blocked", or the step to run in the place of this one.
pub data Degraded : Type 0 where
  not_affected blocked_target : Degraded
  runs_instead : DailyStep → Degraded

degraded_command : DailyStep → Degraded
degraded_command step =
    let requested = build_derived_requested_targets step.command in
    if not (contains requested "all") && not (contains requested "daily_bar")
    then not_affected
    else if build_derived_command_excludes_daily_bar step.command
    then runs_instead step
    else if contains requested "daily_bar" && not (contains requested "all")
    then blocked_target
    else runs_instead
        (record step { command = append_build_derived_exclude_daily_bar step.command })

-- `_degraded_build_derived_step_for_akshare_daily_bar`
unfoldable pub degraded_build_derived_step : DailyStep → String → Degraded
unfolding degraded_command
degraded_build_derived_step step dependency_id =
    if not (step.id == "build-derived" || step.id == "build-derived-daily-bar")
      || not (dependency_id == "akshare-daily-bar")
    then not_affected
    else if step.id == "build-derived-daily-bar"
    then blocked_target
    else degraded_command step

excludes_added :
    (rest : List String)
    → build_derived_command_excludes_daily_bar ("--exclude-target" ∷ "daily_bar" ∷ rest) ≡ true
unfolding build_derived_command_excludes_daily_bar string_eq
excludes_added rest = refl

excludes_later :
    (arg : String) (rest : List String)
    → build_derived_command_excludes_daily_bar rest ≡ true
    → build_derived_command_excludes_daily_bar (arg ∷ rest) ≡ true
unfolding build_derived_command_excludes_daily_bar
excludes_later arg rest h = ground arith

pub excludes-append :
    (command : List String)
    → build_derived_command_excludes_daily_bar (append_build_derived_exclude_daily_bar command)
      ≡ true
unfolding append_build_derived_exclude_daily_bar
excludes-append [] = excludes_added []
excludes-append (arg ∷ rest) = elim (Bool-cases (arg == "--no-build-duckdb-views")) [
  | inl e ↦ rw e (excludes_added (arg ∷ rest))
  | inr e ↦ rw e (excludes_later arg _ (excludes-append rest))
]

-- A step that runs in degraded mode is the same step, but for a command line that excludes the
-- target daily_bar.
pub degraded_step-excludes :
    (step other : DailyStep) (dependency_id : String)
    → degraded_build_derived_step step dependency_id ≡ runs_instead other
    → (build_derived_command_excludes_daily_bar other.command ≡ true)
      × (other ≡ record step { command = other.command })
unfolding degraded_build_derived_step
degraded_step-excludes step other dependency_id h = ground (arith, excludes-append step.command)
