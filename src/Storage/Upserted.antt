-- ===== src/Storage/Upserted.antt =====
-- What an upsert of one partition stores, and what it leaves alone.
use quant_data_center_cn.Prelude.{
  ◌==◌, ==_iff, string_eq, pair_eq, option_eq, ℕ, suc, String, Option, none, some, List, [], ◌++◌,
  Bool, true, false, if◌then◌else◌, length, is_some, ◌≡◌, ◌≢◌, ◌⊎◌, ◌↔◌, refl, sym, ap, ◌∙◌,
  Bool-cases, Option-cases, inl, inr, contains, In, subst,
}
use quant_data_center_cn.Prelude.Dict.{Dict, lookup, insert, lookup-insert}
use quant_data_center_cn.Pipeline.Dedupe.{latest}
use quant_data_center_cn.Pipeline.KeepLast.{keep_last, In-keep_last}
use quant_data_center_cn.Storage.{
  Row, Partition, FileKey, upsert, DatasetDefinition, Store, DatasetWriteResult, Written, returns,
  raises, ◌>>=◌, checked, key_eq, unique_key, is_nothing, or_nothing, dataset_path,
  prepare_dataset_frame, deduplicate_dataset_frame, combine,
}
use quant_data_center_cn.Storage.Writes.{
  safe_read_parquet, atomic_write, read_file, upsert_manifest, upsert_manifest_after_write,
  mark_dataset_dirty, write_prepared_dataset, raises_or, one_path, upsert_rows,
  write_dataset_upsert_partition, upsert_at, write_dataset_upsert, write_in_mode, write_dataset,
}

some-same : {A : Type 0} {a b : A} → some a ≡ some b → a ≡ b
some-same h = cc

module _ (is_decimal : ℕ → Bool) (definition : DatasetDefinition)
    (sorts : (rows : List Row) (row : Row) → In row (definition.sort rows) ↔ In row rows)
    (keyed : is_nothing definition.unique_columns ≡ false) where
  -- The last row of each key in the prepared rows, and no other.
  abbrev pub HasLatest : List Row → List Row → Type 0
  HasLatest prepared stored =
      (row : Row)
      → In row stored
        ↔ (latest (unique_key definition) (unique_key definition row) prepared ≡ some row)

  combined-HasLatest :
      (prepared : List Row)
      → HasLatest prepared (definition.sort (deduplicate_dataset_frame definition prepared))
  unfolding deduplicate_dataset_frame
  combined-HasLatest prepared row =
      let kept = In-keep_last (unique_key definition) prepared row in
      let order = sorts (keep_last (unique_key definition) prepared) row in
      rw keyed (λ i. kept.0 (order.0 i), λ e. order.1 (kept.1 e))

  combine-some :
      (existing fresh : List Row) (partition : Partition) (combined : List Row)
      → combine is_decimal definition existing fresh partition ≡ some combined
      → (prepared : List Row) × (prepare_dataset_frame is_decimal definition
            (existing ++ fresh)
            partition
            false
          ≡ some prepared)
        × HasLatest prepared combined
  unfolding combine
  combine-some existing fresh partition combined e =
      elim (Option-cases
        (prepare_dataset_frame is_decimal definition (existing ++ fresh) partition false)) [
          | inl n ↦ let absurdity : none ≡ some combined = sym (rw n refl) ∙ e in cc
          | inr (prepared, n) ↦
              let made = definition.sort (deduplicate_dataset_frame definition prepared) in
              let same : checked (definition.validator made) made ≡ some combined =
                sym (rw n refl) ∙ e in
              (
                prepared,
                n,
                subst (HasLatest prepared) (valid made combined (definition.validator made) same)
                    (combined-HasLatest prepared),
              )
        ]
    where
      valid :
          (made combined : List Row) (b : Bool) → checked b made ≡ some combined → made ≡ combined
      valid made combined true h = some-same h
      valid made combined false h = cc

  module _ (answers : ℕ → Bool) (hash : List Row → String) (staging : Bool) (rows : List Row)
      (partition : Partition) (files : Dict FileKey (List Row)) where
    -- The partition's file has the last row of each key, and all other files are as they were.
    abbrev pub IsUpserted : List Row → Store → Type 0
    IsUpserted fresh t =
        (path : FileKey) × (prepared : List Row) × (stored : List Row) × (dataset_path is_decimal
            definition partition
          ≡ some path)
        × (prepare_dataset_frame is_decimal definition rows partition true ≡ some fresh)
        × (prepare_dataset_frame is_decimal definition (or_nothing (lookup path files) ++ fresh)
              partition false
            ≡ some prepared)
        × (lookup path t.files ≡ some stored)
        × HasLatest prepared stored
        × ((other : FileKey) → other ≢ path → lookup other t.files ≡ lookup other files)

    -- How an upsert of a partition ends, for the files that there were.
    abbrev pub UpsertEnds : Written DatasetWriteResult → Type 0
    UpsertEnds (raises t) =
        (t.files ≡ files) ⊎ ((staging ≡ false) × (fresh : List Row) × IsUpserted fresh t)
    UpsertEnds (returns result t) =
        (fresh : List Row) × IsUpserted fresh t × (result.row_count ≡ length fresh)

    -- A read gives the rows of the file, or raises.
    ReadEnds : FileKey → Written (List Row) → Type 0
    ReadEnds path (raises t) = t.files ≡ files
    ReadEnds path (returns found t) = (found ≡ or_nothing (lookup path files)) × (t.files ≡ files)

    raises_or-Ends :
        {A : Type 0} (s : Store) (o : Option A) (f : A → Written DatasetWriteResult)
        → s.files ≡ files
        → ((a : A) → o ≡ some a → UpsertEnds (f a))
        → UpsertEnds (raises_or s o f)
    raises_or-Ends s none f h k = inl h
    raises_or-Ends s (some a) f h k = k a refl

    files_if :
        (b : Bool) (x y : Store) (found : Dict FileKey (List Row))
        → x.files ≡ found
        → y.files ≡ found
        → (if b then x else y).files ≡ found
    files_if true x y found k l = k
    files_if false x y found k l = l

    abbrev Noted : Dict FileKey (List Row) → Written (Unit {0}) → Type 0
    Noted found (returns done t) = t.files ≡ found
    Noted found (raises t) = (t.files ≡ found) × (staging ≡ false)

    dirty-files :
        (s : Store)
        → (mark_dataset_dirty is_decimal answers hash staging definition.id s).files ≡ s.files
    unfolding mark_dataset_dirty
    dirty-files s = files_if (contains s.dirty_datasets definition.id) _ _ s.files refl refl

    -- What an upsert of the manifest leaves; no staging store has one that raises.
    Noted-files :
        (path : FileKey) (combined : List Row) (s : Store)
        → Noted s.files
            (upsert_manifest_after_write is_decimal answers hash staging path combined "" "" s)
    unfolding upsert_manifest_after_write upsert_manifest
    Noted-files path combined s = elim (Bool-cases staging) [
      | inl e ↦ rw e refl
      | inr e ↦ elim (Bool-cases (answers s.calls)) [
        | inl f ↦ rw (e, f) refl
        | inr f ↦ rw (e, f) (refl, refl)
      ]
    ]

    prepared-Ends :
        (path : FileKey) (fresh combined prepared : List Row) (s : Store)
        → s.files ≡ files
        → dataset_path is_decimal definition partition ≡ some path
        → prepare_dataset_frame is_decimal definition rows partition true ≡ some fresh
        → prepare_dataset_frame is_decimal definition
            (or_nothing (lookup path files) ++ fresh)
            partition
            false
          ≡ some prepared
        → HasLatest prepared combined
        → UpsertEnds (
            write_prepared_dataset is_decimal answers hash staging definition combined path s
            >>= λ done t. returns (one_path path (length fresh)) t)
    unfolding write_prepared_dataset atomic_write
    prepared-Ends path fresh combined prepared s h at_path is_fresh is_prepared latest_rows =
        by_answer (answers s.calls)
      where
        counted : Store
        counted = record s { calls = suc s.calls }

        stored : Store
        stored = record counted { files = insert path combined s.files }

        upserted : (t : Store) → t.files ≡ stored.files → IsUpserted fresh t
        upserted t same = (
          path,
          prepared,
          combined,
          at_path,
          is_fresh,
          is_prepared,
          ap (lookup path) same
              ∙ lookup-insert path path combined s.files
              ∙ rw ((==_iff path path).1 refl) refl,
          latest_rows,
          λ other differ.
              let apart : (other == path) ≡ false = elim (Bool-cases (other == path)) [
                | inl g ↦ absurd (differ ((==_iff other path).0 g))
                | inr g ↦ g
              ] in
              ap (lookup other) same
              ∙ lookup-insert other path combined s.files
              ∙ rw apart (ap (lookup other) h),
        )

        by_note :
            (r : Written (Unit {0}))
            → Noted stored.files r
            → UpsertEnds (
                (r >>= (λ done t.
                  returns tt (mark_dataset_dirty is_decimal answers hash staging definition.id t)))
                >>= λ done t. returns (one_path path (length fresh)) t)
        by_note (returns done t) same = (
          fresh,
          upserted (mark_dataset_dirty is_decimal answers hash staging definition.id t)
              (dirty-files t ∙ same),
          refl,
        )
        by_note (raises t) same = inr (same.1, fresh, upserted t same.0)

        by_answer :
            (b : Bool)
            → UpsertEnds (
                (if b then returns tt stored else raises counted)
                >>= (λ done t.
                    upsert_manifest_after_write is_decimal answers hash staging path combined "" ""
                      t
                    >>= λ noted u.
                        returns tt
                          (mark_dataset_dirty is_decimal answers hash staging definition.id u))
                >>= λ done t. returns (one_path path (length fresh)) t)
        by_answer false = inl h
        by_answer true = by_note _ (Noted-files path combined stored)

    after_read :
        (path : FileKey) (fresh : List Row) (s : Store) (r : Written (List Row))
        → s.files ≡ files
        → dataset_path is_decimal definition partition ≡ some path
        → prepare_dataset_frame is_decimal definition rows partition true ≡ some fresh
        → ReadEnds path r
        → UpsertEnds (
            r >>= λ existing t.
            upsert_rows is_decimal answers hash staging definition fresh existing partition path
              false t)
    unfolding upsert_rows ReadEnds
    after_read path fresh s (raises t) h at_path is_fresh read = inl read
    after_read path fresh s (returns existing t) h at_path is_fresh read =
        raises_or-Ends t (combine is_decimal definition existing fresh partition) _ read.1
          (λ combined e.
            let (prepared, is_prepared, latest_rows) =
              combine-some existing fresh partition combined e in
            prepared-Ends path fresh combined prepared t read.1 at_path is_fresh
              (ap
                  (λ found.
                    prepare_dataset_frame is_decimal definition (found ++ fresh) partition false)
                  (sym read.0)
                ∙ is_prepared)
              latest_rows)

    read-ReadEnds :
        (path : FileKey) (s : Store)
        → s.files ≡ files
        → ReadEnds path (read_file is_decimal answers hash staging path s)
    unfolding read_file safe_read_parquet ReadEnds
    read-ReadEnds path s h = by_found (lookup path s.files) (ap (lookup path) h)
      where
        by_answer :
            (b : Bool) (found : Option (List Row))
            → found ≡ lookup path files
            → ReadEnds path (
                if b
                then returns (or_nothing found) (record s { calls = suc s.calls })
                else raises (record s { calls = suc s.calls }))
        by_answer true found e = (ap or_nothing e, h)
        by_answer false found e = h

        by_found :
            (found : Option (List Row))
            → found ≡ lookup path files
            → ReadEnds path (
                if is_some found
                then if answers s.calls
                  then returns (or_nothing found) (record s { calls = suc s.calls })
                  else raises (record s { calls = suc s.calls })
                else returns [] s)
        by_found none e = (ap or_nothing e, h)
        by_found (some found) e = by_answer (answers s.calls) (some found) e

    at_path-Ends :
        (s : Store)
        → s.files ≡ files
        → UpsertEnds (upsert_at is_decimal answers hash staging definition rows partition false s)
    unfolding write_dataset_upsert_partition
    at_path-Ends s h =
        raises_or-Ends s (dataset_path is_decimal definition partition) _ h (λ path at_path.
          raises_or-Ends s (prepare_dataset_frame is_decimal definition rows partition true) _ h
            (λ fresh is_fresh.
              after_read path fresh s (read_file is_decimal answers hash staging path s) h at_path
                is_fresh (read-ReadEnds path s h)))

  -- An upsert of one partition of a data set with unique columns, with no test for keys that are there, where
  -- `sort_values` keeps the rows, has one of three ends. It returns: the partition's file then has the last row of
  -- each key, and no other, of the stored rows with the prepared ones behind them, prepared again;
  -- all other files are as they were; and the result counts the prepared rows. It raises and leaves all files as
  -- they were. Or, if the store is not a staging store, it raises with the files as after a return.
  pub write_dataset-UpsertEnds :
      (answers : ℕ → Bool) (hash : List Row → String) (staging : Bool) (rows : List Row)
      (fields : Dict String (Option String)) (s : Store)
      → UpsertEnds answers hash staging rows (some fields) s.files (
          write_dataset is_decimal answers hash staging definition rows
            (some fields)
            (some upsert)
            false
            s)
  unfolding write_dataset write_in_mode write_dataset_upsert
  write_dataset-UpsertEnds answers hash staging rows fields s =
      at_path-Ends answers hash staging rows (some fields) s.files s refl
