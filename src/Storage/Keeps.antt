-- ===== src/Storage/Keeps.antt =====
-- What each call of the store keeps, every write of a data set keeps, however it ends.
use quant_data_center_cn.Prelude.{
  string_eq, pair_eq, ℕ, suc, String, Option, none, some, List, [], ◌∷◌, Bool, true, false, ◌&&◌,
  if◌then◌else◌, is_some,
}
use quant_data_center_cn.Prelude.Dict.{lookup}
use quant_data_center_cn.Storage.{
  Row, Partition, FileKey, WriteMode, replace, merge, upsert, DatasetDefinition, Store,
  DatasetWriteResult, Written, returns, raises, ◌>>=◌, normalize_partition_value, dataset_path,
  prepare_dataset_frame, combine, incoming_keys_exist,
}
use quant_data_center_cn.Storage.Writes.{
  safe_read_parquet, read_file, write_prepared_dataset, raises_or, upsert_rows,
  write_dataset_upsert_partition, group_values, in_group, upsert_groups, upsert_at,
  upsert_all_groups, write_dataset_upsert, merged_incoming, write_one, mode_or, write_in_mode,
  write_dataset,
}

-- What holds of the store that a step leaves, `Q` where it returns and `R` where it raises.
abbrev pub Keeps : {A : Type 0} → (Store → Type 0) → (Store → Type 0) → Written A → Type 0
Keeps Q R (returns a s) = Q s
Keeps Q R (raises s) = R s

module _ (Q R : Store → Type 0) (weaker : (s : Store) → Q s → R s) where
  bind-Keeps :
      {A B : Type 0} (r : Written A) (f : A → Store → Written B)
      → Keeps Q R r
      → ((a : A) (s : Store) → Q s → Keeps Q R (f a s))
      → Keeps Q R (r >>= f)
  bind-Keeps (returns a s) f h k = k a s h
  bind-Keeps (raises s) f h k = h

  raises_or-Keeps :
      {A B : Type 0} (s : Store) (o : Option A) (f : A → Written B)
      → Q s
      → ((a : A) → Keeps Q R (f a))
      → Keeps Q R (raises_or s o f)
  raises_or-Keeps s none f h k = weaker s h
  raises_or-Keeps s (some a) f h k = k a

  if-Keeps :
      {A : Type 0} (b : Bool) (x y : Written A)
      → Keeps Q R x
      → Keeps Q R y
      → Keeps Q R (if b then x else y)
  if-Keeps true x y h k = h
  if-Keeps false x y h k = k

-- Whatever a counted call keeps, and a write of prepared rows unless it raises, every write of a data set does.
module _ (is_decimal : ℕ → Bool) (answers : ℕ → Bool) (hash : List Row → String) (staging : Bool)
    (Q R : Store → Type 0) (weaker : (s : Store) → Q s → R s)
    (counted : (s : Store) → Q s → Q (record s { calls = suc s.calls }))
    (written : (definition : DatasetDefinition) (rows : List Row) (path : FileKey) (s : Store)
      → Q s
      → Keeps Q R
          (write_prepared_dataset is_decimal answers hash staging definition rows path s)) where
  read_file-Keeps :
      (path : FileKey) (s : Store)
      → Q s
      → Keeps Q R (read_file is_decimal answers hash staging path s)
  unfolding read_file safe_read_parquet
  read_file-Keeps path s h =
      if-Keeps Q R weaker (is_some (lookup path s.files)) _ (returns [] s)
        (if-Keeps Q R weaker (answers s.calls) (returns _ _) (raises _) (counted s h)
          (weaker _ (counted s h)))
        h

  upsert_partition-Keeps :
      (definition : DatasetDefinition) (rows : List Row) (partition : Partition) (path : FileKey)
      (skip_existing : Bool) (s : Store)
      → Q s
      → Keeps Q R (
          write_dataset_upsert_partition is_decimal answers hash staging definition rows partition
            path skip_existing s)
  unfolding write_dataset_upsert_partition upsert_rows
  upsert_partition-Keeps definition rows partition path skip_existing s h =
      raises_or-Keeps Q R weaker s (prepare_dataset_frame is_decimal definition rows partition true)
        _ h
        (λ fresh.
          bind-Keeps Q R weaker (read_file is_decimal answers hash staging path s) _
            (read_file-Keeps path s h)
            (λ existing t k.
              if-Keeps Q R weaker (skip_existing && incoming_keys_exist definition existing fresh)
                (returns _ t) _ k
                (raises_or-Keeps Q R weaker t
                  (combine is_decimal definition existing fresh partition) _ k
                  (λ combined.
                    bind-Keeps Q R weaker
                      (write_prepared_dataset is_decimal answers hash staging definition combined
                        path t)
                      _ (written definition combined path t k) (λ done u l. l)))))

  groups-Keeps :
      (definition : DatasetDefinition) (column : String) (rows : List Row)
      (values : List (Option String)) (skip_existing : Bool) (s : Store)
      → Q s
      → Keeps Q R (
          upsert_groups is_decimal answers hash staging definition column rows values skip_existing
            s)
  unfolding upsert_groups
  groups-Keeps definition column rows [] skip_existing s h = h
  groups-Keeps definition column rows (raw ∷ values) skip_existing s h =
      raises_or-Keeps Q R weaker s (normalize_partition_value is_decimal definition column raw) _ h
        (λ value.
          raises_or-Keeps Q R weaker s
            (dataset_path is_decimal definition (some ((column, some value) ∷ []))) _ h
            (λ path.
              bind-Keeps Q R weaker
                (write_dataset_upsert_partition is_decimal answers hash staging definition
                  (in_group column raw rows) (some ((column, some value) ∷ [])) path skip_existing
                  s)
                _ (upsert_partition-Keeps definition _ _ path skip_existing s h)
                (λ first t k.
                  bind-Keeps Q R weaker
                    (upsert_groups is_decimal answers hash staging definition column rows values
                      skip_existing t)
                    _ (groups-Keeps definition column rows values skip_existing t k)
                    (λ more u l. l))))

  write_one-Keeps :
      (definition : DatasetDefinition) (merges : Bool) (rows : List Row) (partition : Partition)
      (s : Store)
      → Q s
      → Keeps Q R (write_one is_decimal answers hash staging definition merges rows partition s)
  unfolding write_one merged_incoming
  write_one-Keeps definition merges rows partition s h =
      raises_or-Keeps Q R weaker s (dataset_path is_decimal definition partition) _ h (λ path.
        raises_or-Keeps Q R weaker s
          (prepare_dataset_frame is_decimal definition rows partition true) _ h
          (λ incoming.
            bind-Keeps Q R weaker
              (merged_incoming is_decimal answers hash staging definition merges incoming partition
                path s)
              _
              (if-Keeps Q R weaker (merges && is_some (lookup path s.files)) _ (returns incoming s)
                (bind-Keeps Q R weaker (read_file is_decimal answers hash staging path s) _
                  (read_file-Keeps path s h)
                  (λ existing t k.
                    raises_or-Keeps Q R weaker t
                      (combine is_decimal definition existing incoming partition) _ k
                      (λ combined. k)))
                h)
              (λ combined t k.
                bind-Keeps Q R weaker
                  (write_prepared_dataset is_decimal answers hash staging definition combined path
                    t)
                  _ (written definition combined path t k) (λ done u l. l))))

  upsert_at-Keeps :
      (definition : DatasetDefinition) (rows : List Row) (partition : Partition)
      (skip_existing : Bool) (s : Store)
      → Q s
      → Keeps Q R
          (upsert_at is_decimal answers hash staging definition rows partition skip_existing s)
  upsert_at-Keeps definition rows partition skip_existing s h =
      raises_or-Keeps Q R weaker s (dataset_path is_decimal definition partition) _ h
        (λ path. upsert_partition-Keeps definition rows partition path skip_existing s h)

  all_groups-Keeps :
      (definition : DatasetDefinition) (column : String) (rows : List Row) (skip_existing : Bool)
      (s : Store)
      → Q s
      → Keeps Q R
          (upsert_all_groups is_decimal answers hash staging definition column rows skip_existing s)
  unfolding upsert_all_groups
  all_groups-Keeps definition column [] skip_existing s h = h
  all_groups-Keeps definition column (row ∷ rows) skip_existing s h =
      raises_or-Keeps Q R weaker s
        (prepare_dataset_frame is_decimal definition (row ∷ rows) none true) _ h
        (λ cleaned.
          groups-Keeps definition column cleaned (group_values column cleaned) skip_existing s h)

  upsert-Keeps :
      (definition : DatasetDefinition) (rows : List Row) (partition : Partition)
      (skip_existing : Bool) (s : Store)
      → Q s
      → Keeps Q R (
          write_dataset_upsert is_decimal answers hash staging definition rows partition
            skip_existing s)
  unfolding write_dataset_upsert
  upsert-Keeps definition rows (some fields) skip_existing s h =
      upsert_at-Keeps definition rows (some fields) skip_existing s h
  upsert-Keeps definition rows none skip_existing s h = by_column definition.partition_column
    where
      by_column :
          (found : Option String)
          → Keeps Q R (elim found as (λ x. Written DatasetWriteResult) [
            | none ↦ upsert_at is_decimal answers hash staging definition rows none skip_existing s
            | some column ↦
                upsert_all_groups is_decimal answers hash staging definition column rows
                  skip_existing s
          ])
      by_column none = upsert_at-Keeps definition rows none skip_existing s h
      by_column (some column) = all_groups-Keeps definition column rows skip_existing s h

  in_mode-Keeps :
      (mode : WriteMode) (definition : DatasetDefinition) (rows : List Row) (partition : Partition)
      (skip_existing : Bool) (s : Store)
      → Q s
      → Keeps Q R (
          write_in_mode is_decimal answers hash staging mode definition rows partition skip_existing
            s)
  unfolding write_in_mode
  in_mode-Keeps upsert definition rows partition skip_existing s h =
      upsert-Keeps definition rows partition skip_existing s h
  in_mode-Keeps replace definition rows partition skip_existing s h =
      if-Keeps Q R weaker skip_existing (raises s)
        (write_one is_decimal answers hash staging definition false rows partition s) (weaker s h)
        (write_one-Keeps definition false rows partition s h)
  in_mode-Keeps merge definition rows partition skip_existing s h =
      if-Keeps Q R weaker skip_existing (raises s)
        (write_one is_decimal answers hash staging definition true rows partition s) (weaker s h)
        (write_one-Keeps definition true rows partition s h)

  pub write_dataset-Keeps :
      (definition : DatasetDefinition) (rows : List Row) (partition : Partition)
      (mode : Option WriteMode) (skip_existing : Bool) (s : Store)
      → Q s
      → Keeps Q R (
          write_dataset is_decimal answers hash staging definition rows partition mode skip_existing
            s)
  unfolding write_dataset
  write_dataset-Keeps definition rows partition mode skip_existing s h =
      in_mode-Keeps (mode_or mode definition.default_write_mode) definition rows partition
        skip_existing s h
