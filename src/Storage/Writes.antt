-- ===== src/Storage/Writes.antt =====
-- src/storage/parquet_store.py: the calls of `ParquetStore` that read and write files. The caller's staging store, whose writes
-- leave no manifest, is the flag `staging`.
use quant_data_center_cn.Prelude.{
  ◌==◌, string_eq, option_eq, pair_eq, ℕ, suc, ◌+◌, String, Option, none, some, List, [], ◌∷◌, ◌++◌,
  Bool, true, false, ◌&&◌, not, if◌then◌else◌, length, select, is_some, contains,
}
use quant_data_center_cn.Prelude.Dict.{lookup, insert}
use quant_data_center_cn.Storage.{
  Row, Partition, FileKey, WriteMode, replace, merge, upsert, DatasetDefinition, Entry, Store,
  DatasetWriteResult, Written, returns, raises, ◌>>=◌, or_nothing, normalize_partition_value,
  dataset_path, prepare_dataset_frame, combine, incoming_keys_exist,
}

abbrev pub raises_or : {A B : Type 0} → Store → Option A → (A → Written B) → Written B
raises_or s none next = raises s
raises_or s (some a) next = next a

abbrev pub one_path : FileKey → ℕ → DatasetWriteResult
one_path path row_count = record {
  paths = path ∷ [];
  row_count = row_count;
  updated_partitions = 1;
  skipped_partitions = 0;
}

abbrev pub skipped : FileKey → DatasetWriteResult
skipped path = record {
  paths = path ∷ [];
  row_count = 0;
  updated_partitions = 0;
  skipped_partitions = 1;
}

-- `groupby(column, dropna=False, sort=False)`
unfoldable pub group_values : String → List Row → List (Option String)
group_values column [] = []
group_values column (row ∷ rows) =
    row column ∷ select (λ value. not (value == row column)) (group_values column rows)

abbrev pub in_group : String → Option String → List Row → List Row
in_group column value = select (λ (row : Row). row column == value)

abbrev pub no_write : DatasetWriteResult
no_write = record { paths = []; row_count = 0; updated_partitions = 0; skipped_partitions = 0 }

abbrev pub both_results : DatasetWriteResult → DatasetWriteResult → DatasetWriteResult
both_results first rest = record {
  paths = first.paths ++ rest.paths;
  row_count = first.row_count + rest.row_count;
  updated_partitions = first.updated_partitions + rest.updated_partitions;
  skipped_partitions = first.skipped_partitions + rest.skipped_partitions;
}

abbrev pub mode_or : Option WriteMode → WriteMode → WriteMode
mode_or none default = default
mode_or (some mode) default = mode

module _ (is_decimal : ℕ → Bool) (answers : ℕ → Bool) (hash : List Row → String)
    (staging : Bool) where
  -- `_safe_read_parquet`, and `atomic_write`, whose failure leaves the file as it was.
  unfoldable pub safe_read_parquet : FileKey → Store → Written (List Row)
  safe_read_parquet path s =
      let t = record s { calls = suc s.calls } in
      if answers s.calls then returns (or_nothing (lookup path s.files)) t else raises t

  unfoldable pub atomic_write : FileKey → List Row → Store → Written (Unit {0})
  atomic_write path rows s =
      let t = record s { calls = suc s.calls } in
      if answers s.calls
      then returns tt (record t { files = insert path rows s.files })
      else raises t

  -- `read_dataset`: a file that is not there has no rows.
  unfoldable pub read_file : FileKey → Store → Written (List Row)
  read_file path s =
      if is_some (lookup path s.files) then safe_read_parquet path s else returns [] s

  unfoldable pub read_dataset : DatasetDefinition → Partition → Store → Written (List Row)
  read_dataset definition partition s = elim (dataset_path is_decimal definition partition) [
    | none ↦ raises s
    | some path ↦ read_file path s
  ]

  -- `upsert_dataset_partition_manifest`: in one transaction, which may fail, the rows of the key are
  -- deleted and the new one is inserted.
  unfoldable pub upsert_manifest : FileKey → Entry → Store → Written (Unit {0})
  upsert_manifest key entry s =
      let t = record s { calls = suc s.calls } in
      if answers s.calls
      then returns tt (record t {
        manifest =
            select (λ (row : FileKey × Entry). not (row.0 == key)) s.manifest ++ (key, entry) ∷ [];
      })
      else raises t

  -- `_upsert_partition_manifest_after_write`
  unfoldable pub upsert_manifest_after_write :
      FileKey → List Row → String → String → Store → Written (Unit {0})
  upsert_manifest_after_write path rows source_signature master_row_hash s =
      if staging
      then returns tt s
      else upsert_manifest path
          (record {
            row_count = length rows;
            content_hash = hash rows;
            source_signature = source_signature;
            master_row_hash = master_row_hash;
          })
          s

  unfoldable pub mark_dataset_dirty : String → Store → Store
  mark_dataset_dirty dataset s =
      if contains s.dirty_datasets dataset
      then s
      else record s { dirty_datasets = dataset ∷ s.dirty_datasets }

  -- `_write_prepared_dataset`
  unfoldable pub write_prepared_dataset :
      DatasetDefinition → List Row → FileKey → Store → Written (Unit {0})
  write_prepared_dataset definition rows path s = atomic_write path rows s >>= λ done t.
      upsert_manifest_after_write path rows "" "" t >>= λ noted u.
      returns tt (mark_dataset_dirty definition.id u)

  -- `_write_dataset_upsert_partition`, with the rows that were read
  unfoldable pub upsert_rows :
      DatasetDefinition
      → List Row
      → List Row
      → Partition
      → FileKey
      → Bool
      → Store
      → Written DatasetWriteResult
  upsert_rows definition fresh existing partition path skip_existing s =
      if skip_existing && incoming_keys_exist definition existing fresh
      then returns (skipped path) s
      else raises_or s (combine is_decimal definition existing fresh partition) (λ combined.
        write_prepared_dataset definition combined path s >>= λ done t.
        returns (one_path path (length fresh)) t)

  unfoldable pub write_dataset_upsert_partition :
      DatasetDefinition → List Row → Partition → FileKey → Bool → Store → Written DatasetWriteResult
  write_dataset_upsert_partition definition rows partition path skip_existing s =
      raises_or s (prepare_dataset_frame is_decimal definition rows partition true) (λ fresh.
        read_file path s >>= λ existing t.
        upsert_rows definition fresh existing partition path skip_existing t)

  -- The loop over the groups: a value that is missing or blank raises, with the groups before it written.
  unfoldable pub upsert_groups :
      DatasetDefinition
      → String
      → List Row
      → List (Option String)
      → Bool
      → Store
      → Written DatasetWriteResult
  upsert_groups definition column rows [] skip_existing s = returns no_write s
  upsert_groups definition column rows (raw ∷ values) skip_existing s =
      let rest = upsert_groups definition column rows values skip_existing in
      raises_or s (normalize_partition_value is_decimal definition column raw) (λ value.
        let partition : Partition = some ((column, some value) ∷ []) in
        raises_or s (dataset_path is_decimal definition partition) (λ path.
          write_dataset_upsert_partition definition (in_group column raw rows) partition path
            skip_existing s
          >>= λ first t. rest t >>= λ more u. returns (both_results first more) u))

  -- `_write_dataset_upsert`
  abbrev pub upsert_at :
      DatasetDefinition → List Row → Partition → Bool → Store → Written DatasetWriteResult
  upsert_at definition rows partition skip_existing s =
      raises_or s (dataset_path is_decimal definition partition)
        (λ path. write_dataset_upsert_partition definition rows partition path skip_existing s)

  unfoldable pub upsert_all_groups :
      DatasetDefinition → String → List Row → Bool → Store → Written DatasetWriteResult
  upsert_all_groups definition column [] skip_existing s = returns no_write s
  upsert_all_groups definition column (row ∷ rows) skip_existing s =
      raises_or s (prepare_dataset_frame is_decimal definition (row ∷ rows) none true) (λ cleaned.
        upsert_groups definition column cleaned (group_values column cleaned) skip_existing s)

  unfoldable pub write_dataset_upsert :
      DatasetDefinition → List Row → Partition → Bool → Store → Written DatasetWriteResult
  write_dataset_upsert definition rows (some fields) skip_existing s =
      upsert_at definition rows (some fields) skip_existing s
  write_dataset_upsert definition rows none skip_existing s = elim definition.partition_column [
    | none ↦ upsert_at definition rows none skip_existing s
    | some column ↦ upsert_all_groups definition column rows skip_existing s
  ]

  -- What a write in the mode replace or merge puts into the file.
  unfoldable pub merged_incoming :
      DatasetDefinition → Bool → List Row → Partition → FileKey → Store → Written (List Row)
  merged_incoming definition merges incoming partition path s =
      if merges && is_some (lookup path s.files)
      then (read_file path s >>= λ existing t.
          raises_or t (combine is_decimal definition existing incoming partition)
            (λ combined. returns combined t))
      else returns incoming s

  unfoldable pub write_one :
      DatasetDefinition → Bool → List Row → Partition → Store → Written DatasetWriteResult
  write_one definition merges rows partition s =
      raises_or s (dataset_path is_decimal definition partition) (λ path.
        raises_or s (prepare_dataset_frame is_decimal definition rows partition true) (λ incoming.
          merged_incoming definition merges incoming partition path s >>= λ combined t.
          write_prepared_dataset definition combined path t >>= λ done u.
          returns (one_path path (length combined)) u))

  unfoldable pub write_in_mode :
      WriteMode
      → DatasetDefinition
      → List Row
      → Partition
      → Bool
      → Store
      → Written DatasetWriteResult
  write_in_mode upsert definition rows partition skip_existing s =
      write_dataset_upsert definition rows partition skip_existing s
  write_in_mode replace definition rows partition skip_existing s =
      if skip_existing then raises s else write_one definition false rows partition s
  write_in_mode merge definition rows partition skip_existing s =
      if skip_existing then raises s else write_one definition true rows partition s

  -- `write_dataset`
  unfoldable pub write_dataset :
      DatasetDefinition
      → List Row
      → Partition
      → Option WriteMode
      → Bool
      → Store
      → Written DatasetWriteResult
  write_dataset definition rows partition mode skip_existing s =
      write_in_mode (mode_or mode definition.default_write_mode) definition rows partition
        skip_existing s

  -- `upsert_written_dataset_partition_manifest`
  unfoldable pub upsert_written_dataset_partition_manifest :
      DatasetDefinition → List Row → Partition → String → String → Store → Written (Unit {0})
  upsert_written_dataset_partition_manifest definition rows partition source_signature
        master_row_hash s =
      raises_or s (dataset_path is_decimal definition partition) (λ path.
        if not (is_some (lookup path s.files))
        then raises s
        else raises_or s (prepare_dataset_frame is_decimal definition rows partition true)
            (λ cleaned.
              upsert_manifest_after_write path cleaned source_signature master_row_hash s))
