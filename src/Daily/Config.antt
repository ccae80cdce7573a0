-- ===== src/Daily/Config.antt =====
-- src/tools/run_update_daily.py: the values of the workflow configuration, as YAML loads them, and the
-- readers of its fields. A mapping's keys that are no texts are left out: the code never asks for one.
-- `Language` holds what the code uses of Python on a text or a value: `str`, `int`, `str.format` with the
-- workflow's context, `strip().lower()`, and the command for "{qdc}".
pub mod Steps
pub mod Readers
pub mod Closed
pub mod WellFormed
use quant_data_center_cn.Prelude.Text.{strip}
use quant_data_center_cn.Prelude.{
  ℕ, zero, suc, String, Option, none, some, List, [], ◌∷◌, ◌++◌, Bool, true, false, ◌&&◌, ◌||◌, not,
  if◌then◌else◌, ◌==◌, string_eq, leb, eqb, ℤ, pos, negsuc, Result, ok, err, ◌>>=◌,
}
use quant_data_center_cn.Daily.Types.{
  StateKeyPolicy, DailyDependency, natural_date, market_date, run_instance,
}

-- `other` is any other scalar, with its truth value.
mutual
  pub data Value : Type 0 where
    null : Value
    boolean : Bool → Value
    integer : ℤ → Value
    text : String → Value
    other : Bool → Value
    list : Values → Value
    mapping : Fields → Value

  pub data Values : Type 0 where
    no_values : Values
    value_then : Value → Values → Values

  pub data Fields : Type 0 where
    no_fields : Fields
    field_then : String → Value → Fields → Fields

pub record Language : Type 0 where
  pub str : Value → String
  pub int_of : String → Option ℤ
  pub format : String → Option String
  pub normalized : String → String
  pub qdc : List String

pub data ConfigError : Type 0 where
  steps_missing empty_dependency dependency_without_step invalid_dependency_policy
        invalid_soft_field not_a_dependency invalid_dependencies invalid_string_list command_missing
        command_not_strings command_empty format_failed invalid_timeout timeout_not_positive :
      ConfigError
  step_not_mapping : ℕ → ConfigError
  missing_string invalid_enum : String → ConfigError

-- `raw_step.get(field)`: the last of equal keys is the one that YAML keeps.
unfoldable pub get : String → Fields → Option Value
get field no_fields = none
get field (field_then key value rest) =
    let later = get field rest in
    elim later [ some v ↦ some v | none ↦ if field == key then some value else none ]

unfoldable pub get_or : String → Value → Fields → Value
get_or field default fields = elim (get field fields) [ none ↦ default | some v ↦ v ]

-- `bool(value)`
unfoldable pub truth : Value → Bool
truth null = false
truth (boolean b) = b
truth (integer (pos zero)) = false
truth (integer _) = true
truth (text s) = not (s == "")
truth (other b) = b
truth (list no_values) = false
truth (list (value_then v vs)) = true
truth (mapping no_fields) = false
truth (mapping (field_then k v fs)) = true

unfoldable pub string_field : String → Option Value → Result ConfigError String
string_field field (some (text s)) =
    if strip s == "" then err (missing_string field) else ok (strip s)
string_field field _ = err (missing_string field)

-- `_required_string`
unfoldable pub required_string : Fields → String → Result ConfigError String
unfolding string_field get
required_string fields field = string_field field (get field fields)

-- `int(value)` of a text or a number; a Boolean is a number in Python.
unfoldable pub whole_number : Language → Value → Result ConfigError ℤ
whole_number l (integer n) = ok n
whole_number l (boolean true) = ok (pos 1)
whole_number l (boolean false) = ok (pos 0)
whole_number l (text s) = elim (l.int_of s) [ none ↦ err invalid_timeout | some n ↦ ok n ]
whole_number l _ = err invalid_timeout

unfoldable pub positive : ℤ → Result ConfigError (Option ℕ)
positive (pos (suc n)) = ok (some (suc n))
positive _ = err timeout_not_positive

-- `_optional_timeout`
unfoldable pub optional_timeout : Language → Value → Result ConfigError (Option ℕ)
unfolding whole_number positive
optional_timeout l null = ok none
optional_timeout l v = whole_number l v >>= positive

-- The value that an allowed text stands for.
unfoldable pub allowed_value {ℓ} : {A : Type ℓ} → List (String × A) → String → Option A
allowed_value [] s = none
allowed_value ((name, a) ∷ rest) s = if s == name then some a else allowed_value rest s

-- `_enum_value`, for a default that is allowed.
unfoldable pub enum_value :
    {A : Type 0} → Fields → String → A → List (String × A) → Result ConfigError A
unfolding allowed_value get
enum_value fields field default allowed = elim (get field fields) [
  | none ↦ ok default
  | some v ↦ elim v [
    | text s ↦ elim (allowed_value allowed (strip s)) [
      | none ↦ err (invalid_enum field)
      | some a ↦ ok a
    ]
    | _ ↦ err (invalid_enum field)
  ]
]

abbrev pub state_key_policies : List (String × StateKeyPolicy)
state_key_policies =
    ("natural_date", natural_date)
    ∷ ("market_date", market_date)
    ∷ ("run_instance", run_instance)
    ∷ []

dependency_policy_value : Option Value → Result ConfigError (Option StateKeyPolicy)
dependency_policy_value none = ok none
dependency_policy_value (some null) = ok none
dependency_policy_value (some (text s)) = elim (allowed_value state_key_policies (strip s)) [
  | none ↦ err invalid_dependency_policy
  | some p ↦ ok (some p)
]
dependency_policy_value (some _) = err invalid_dependency_policy

soft_value : Option Value → Result ConfigError Bool
soft_value none = ok false
soft_value (some null) = ok false
soft_value (some (boolean b)) = ok b
soft_value (some _) = err invalid_soft_field

dependency_step_text : Option Value → Result ConfigError String
dependency_step_text (some (text s)) =
    if strip s == "" then err dependency_without_step else ok (strip s)
dependency_step_text _ = err dependency_without_step

-- One item of the list under `depends_on`.
unfoldable pub dependency_item : Value → Result ConfigError DailyDependency
unfolding dependency_policy_value soft_value dependency_step_text get
dependency_item (text s) =
    if strip s == ""
    then err empty_dependency
    else ok (record { step_id = strip s; state_key_policy = none; soft = false })
dependency_item (mapping item) = do
  step ← dependency_step_text (get "step" item)
  policy ← dependency_policy_value (get "state_key_policy" item)
  is_soft ← soft_value (get "soft" item)
  ok (record { step_id = step; state_key_policy = policy; soft = is_soft })
dependency_item _ = err not_a_dependency

dependency_items : Values → Result ConfigError (List DailyDependency)
unfolding dependency_item
dependency_items no_values = ok []
dependency_items (value_then v vs) = do d ← dependency_item v; ds ← dependency_items vs; ok (d ∷ ds)

-- `_dependencies`
unfoldable pub dependencies : Value → Result ConfigError (List DailyDependency)
unfolding dependency_items
dependencies null = ok []
dependencies (text s) =
    ok (record { step_id = strip s; state_key_policy = none; soft = false } ∷ [])
dependencies (list items) = dependency_items items
dependencies _ = err invalid_dependencies

string_items : Values → Result ConfigError (List String)
string_items no_values = ok []
string_items (value_then (text s) vs) =
    if strip s == ""
    then err invalid_string_list
    else string_items vs >>= λ rest. ok (strip s ∷ rest)
string_items (value_then _ vs) = err invalid_string_list

-- `_string_list`
unfoldable pub string_list : Value → Result ConfigError (List String)
unfolding string_items
string_list null = ok []
string_list (text s) = ok (s ∷ [])
string_list (list items) = string_items items
string_list _ = err invalid_string_list

-- `_render_text`, whose `format` raises on a field that the context lacks.
unfoldable pub render_text : Language → String → Result ConfigError String
render_text l s = elim (l.format s) [ none ↦ err format_failed | some t ↦ ok t ]

unfoldable pub command_items : Language → Values → Result ConfigError (List String)
unfolding render_text
command_items l no_values = ok []
command_items l (value_then (text s) vs) =
    (if s == "{qdc}" then ok l.qdc else render_text l s >>= λ t. ok (t ∷ [])) >>= λ first.
    command_items l vs >>= λ rest. ok (first ++ rest)
command_items l (value_then _ vs) = err command_not_strings

unfoldable pub not_empty : List String → Result ConfigError (List String)
not_empty [] = err command_empty
not_empty (s ∷ ss) = ok (s ∷ ss)

-- `_render_command`
unfoldable pub render_command : Language → Option Value → Result ConfigError (List String)
unfolding command_items not_empty
render_command l (some (text s)) = command_items l (value_then (text s) no_values) >>= not_empty
render_command l (some (list items)) = command_items l items >>= not_empty
render_command l _ = err command_missing
