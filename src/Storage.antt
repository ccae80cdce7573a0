-- ===== src/Storage.antt =====
-- src/storage/parquet_store.py: how `ParquetStore` prepares a frame, merges it into the stored ones and writes it, with the
-- partition manifest that a write updates. A frame is a list of rows that `clean_dataframe_for_schema` has cleaned, and a row gives
-- each column of the schema a text or nothing. A file is known by its data set and the name of its partition's directory. `answers`
-- tells of each read and write of a file, by its number, whether it works, after its retries; the metadata
-- store does what it is asked to. Directories of former layouts, which a write removes, are no part of the state.
pub mod Writes
pub mod Upserted
pub mod Keeps
pub mod Recorded
use quant_data_center_cn.Prelude.{
  Eq, ◌==◌, string_eq, option_eq, pair_eq, ℕ, zero, suc, ◌+◌, String, Option, none, some, List, [],
  ◌∷◌, ◌++◌, Bool, true, false, ◌&&◌, ◌||◌, not, if◌then◌else◌, length, all, any, select, map,
  is_some, contains,
}
use Prim.Native.String
use mathlib.Core.List.{List-discrete}
use quant_data_center_cn.Prelude.Dict.{Dict, lookup, insert}
use quant_data_center_cn.Prelude.Text.{strip}
use quant_data_center_cn.Pipeline.KeepLast.{keep_last}
use quant_data_center_cn.Pending.{all_digits}

abbrev pub Row : Type 0
Row = String → Option String

abbrev pub Partition : Type 0
Partition = Option (Dict String (Option String))

-- A data set and the partition's column and value, which name a file, and which the manifest has as its key.
abbrev pub FileKey : Type 0
FileKey = String × (String × String)

pub data WriteMode : Type 0 where
  replace merge upsert : WriteMode

-- `DatasetDefinition`: `sort` is `sort_values` by its sort columns.
pub record DatasetDefinition : Type 0 where
  pub id : String
  pub partition_column : Option String
  pub unique_columns : List String
  pub fixed_column_values : List (String × String)
  pub six_digit : Bool
  pub default_write_mode : WriteMode
  pub sort : List Row → List Row
  pub validator : List Row → Bool

-- What a row of the manifest says of its file.
pub record Entry : Type 0 where
  pub row_count : ℕ
  pub content_hash : String
  pub source_signature : String
  pub master_row_hash : String

pub record Store : Type 0 where
  pub files : Dict FileKey (List Row)
  pub manifest : List (FileKey × Entry)
  pub dirty_datasets : List String
  pub calls : ℕ

pub record DatasetWriteResult : Type 0 where
  pub paths : List FileKey
  pub row_count : ℕ
  pub updated_partitions : ℕ
  pub skipped_partitions : ℕ

-- A step returns, or it raises and leaves what it has done.
pub data Written (A : Type 0) : Type 0 where
  returns : A → Store → Written A
  raises : Store → Written A

infixl 5 ◌>>=◌
abbrev pub ◌>>=◌ : {A B : Type 0} → Written A → (A → Store → Written B) → Written B
returns a s >>= next = next a s
raises s >>= next = raises s

abbrev pub checked {ℓ} : {A : Type ℓ} → Bool → A → Option A
checked true a = some a
checked false a = none

abbrev pub then_try {ℓ} : {A B : Type ℓ} → Option A → (A → Option B) → Option B
then_try none next = none
then_try (some a) next = next a

instance abbrev pub key_eq : Eq (List (Option String))
key_eq = record { dec = List-discrete option_eq.dec }

abbrev pub unique_key : DatasetDefinition → Row → List (Option String)
unique_key definition row = map row definition.unique_columns

-- `_akshare_partition_code`, `_normalize_partition_value`; `is_decimal` is Python's table of the decimal digits.
unfoldable pub akshare_partition_code : (ℕ → Bool) → String → Option String
akshare_partition_code is_decimal value =
    checked (all_digits is_decimal 6 (strip value)) (strip value)

unfoldable pub normalize_partition_value :
    (ℕ → Bool) → DatasetDefinition → String → Option String → Option String
normalize_partition_value is_decimal definition column none = none
normalize_partition_value is_decimal definition column (some value) =
    if column == "code" && definition.six_digit
    then akshare_partition_code is_decimal value
    else checked (not (strip value == "")) (strip value)

abbrev pub is_nothing {ℓ} : {A : Type ℓ} → List A → Bool
is_nothing [] = true
is_nothing (x ∷ xs) = false

abbrev pub or_nothing {ℓ} : {A : Type ℓ} → Option (List A) → List A
or_nothing none = []
or_nothing (some xs) = xs

-- `_partition_value` of a data set with a partition column, and of any data set.
unfoldable pub column_value : (ℕ → Bool) → DatasetDefinition → String → Partition → Option String
column_value is_decimal definition column none = none
column_value is_decimal definition column (some fields) = elim (lookup column fields) [
  | none ↦ none
  | some value ↦
      if any (λ (field : String × Option String). not (field.0 == column)) fields
      then none
      else normalize_partition_value is_decimal definition column value
]

unfoldable pub partition_value : (ℕ → Bool) → DatasetDefinition → Partition → Option String
partition_value is_decimal definition partition = elim definition.partition_column [
  | none ↦ checked (is_nothing (or_nothing partition)) ""
  | some column ↦ column_value is_decimal definition column partition
]

abbrev pub column_or_empty : Option String → String
column_or_empty none = ""
column_or_empty (some column) = column

-- `dataset_path`
unfoldable pub dataset_path : (ℕ → Bool) → DatasetDefinition → Partition → Option FileKey
dataset_path is_decimal definition partition =
    then_try (partition_value is_decimal definition partition)
      (λ value. some (definition.id, (column_or_empty definition.partition_column, value)))

-- `_apply_fixed_column_values`, for a row: a cell that is missing or blank takes the value, and any other is to be it.
unfoldable pub with_column : String → String → Row → Row
with_column column value row name = if name == column then some value else row name

unfoldable pub is_blank_or : String → Option String → Bool
is_blank_or expected none = true
is_blank_or expected (some value) = strip value == "" || strip value == expected

unfoldable pub apply_fixed_column_values : List (String × String) → List Row → Option (List Row)
apply_fixed_column_values [] rows = some rows
apply_fixed_column_values ((column, expected) ∷ fixed) rows =
    if all (λ (row : Row). is_blank_or expected (row column)) rows
    then apply_fixed_column_values fixed (map (with_column column expected) rows)
    else none

-- `_require_partition_value`
unfoldable pub require_partition_value :
    (ℕ → Bool) → DatasetDefinition → Partition → List Row → Option (List Row)
require_partition_value is_decimal definition none rows = some rows
require_partition_value is_decimal definition (some fields) rows =
    elim definition.partition_column [
      | none ↦ some rows
      | some column ↦
          then_try (column_value is_decimal definition column (some fields))
            (λ expected. checked (all (λ (row : Row). row column == some expected) rows) rows)
    ]

-- `prepare_dataset_frame`: none is a ValueError.
unfoldable pub prepare_rows :
    (ℕ → Bool) → DatasetDefinition → List Row → Partition → Option (List Row)
prepare_rows is_decimal definition [] partition = some []
prepare_rows is_decimal definition (row ∷ rows) partition =
    then_try (apply_fixed_column_values definition.fixed_column_values (row ∷ rows)) (λ fixed.
      then_try (require_partition_value is_decimal definition partition fixed)
        (λ required. some (definition.sort required)))

unfoldable pub prepare_dataset_frame :
    (ℕ → Bool) → DatasetDefinition → List Row → Partition → Bool → Option (List Row)
prepare_dataset_frame is_decimal definition rows partition validate =
    then_try (prepare_rows is_decimal definition rows partition)
      (λ cleaned. checked (not validate || definition.validator cleaned) cleaned)

-- `_deduplicate_dataset_frame`: with no unique columns all rows stay.
unfoldable pub deduplicate_dataset_frame : DatasetDefinition → List Row → List Row
deduplicate_dataset_frame definition rows =
    if is_nothing definition.unique_columns then rows else keep_last (unique_key definition) rows

-- What a merge and an upsert make of the stored and the incoming rows.
unfoldable pub combine :
    (ℕ → Bool) → DatasetDefinition → List Row → List Row → Partition → Option (List Row)
combine is_decimal definition existing fresh partition =
    then_try (prepare_dataset_frame is_decimal definition (existing ++ fresh) partition false)
      (λ prepared.
        let combined = definition.sort (deduplicate_dataset_frame definition prepared) in
        checked (definition.validator combined) combined)

-- `_incoming_keys_exist`
unfoldable pub incoming_keys_exist : DatasetDefinition → List Row → List Row → Bool
incoming_keys_exist definition existing fresh =
    if is_nothing existing || (is_nothing fresh || is_nothing definition.unique_columns)
    then false
    else all
        (λ (row : Row). contains (map (unique_key definition) existing) (unique_key definition row))
        fresh
