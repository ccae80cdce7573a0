-- ===== src/Storage/Recorded.antt =====
-- A write keeps the partition manifest in step with the files, or leaves it one write behind where it raises.
use quant_data_center_cn.Prelude.{
  ◌==◌, ==_iff, string_eq, pair_eq, ℕ, suc, String, Option, some, List, [], ◌∷◌, ◌++◌, Bool, true,
  false, not, if◌then◌else◌, length, select, ◌≡◌, ◌≢◌, ◌⊎◌, refl, sym, ap, ◌∙◌, arith, Bool-cases,
  inl, inr, contains,
}
use quant_data_center_cn.Prelude.Dict.{lookup, insert, lookup-insert}
use quant_data_center_cn.Storage.{
  Row, Partition, FileKey, WriteMode, DatasetDefinition, Entry, Store,
}
use quant_data_center_cn.Storage.Writes.{
  atomic_write, upsert_manifest, upsert_manifest_after_write, mark_dataset_dirty,
  write_prepared_dataset, write_dataset,
}
use quant_data_center_cn.Storage.Keeps.{Keeps, write_dataset-Keeps}

abbrev rows_of : FileKey → List (FileKey × Entry) → List (FileKey × Entry)
rows_of key = select (λ (row : FileKey × Entry). row.0 == key)

abbrev others_of : FileKey → List (FileKey × Entry) → List (FileKey × Entry)
others_of key = select (λ (row : FileKey × Entry). not (row.0 == key))

rows_of-append :
    (key : FileKey) (xs ys : List (FileKey × Entry))
    → rows_of key (xs ++ ys) ≡ rows_of key xs ++ rows_of key ys
rows_of-append key [] ys = refl
rows_of-append key (x ∷ xs) ys = elim (Bool-cases (x.0 == key)) [
  | inl e ↦ rw e (ap (λ zs. x ∷ zs) (rows_of-append key xs ys))
  | inr e ↦ rw e (rows_of-append key xs ys)
]

-- Its own key is gone, and the other ones are as before.
rows_of-deleted :
    (key : FileKey) (xs : List (FileKey × Entry)) → rows_of key (others_of key xs) ≡ []
rows_of-deleted key [] = refl
rows_of-deleted key (x ∷ xs) = elim (Bool-cases (x.0 == key)) [
  | inl e ↦ rw e (rows_of-deleted key xs)
  | inr e ↦ rw (e, e) (rows_of-deleted key xs)
]

rows_of-others :
    (key other : FileKey) (xs : List (FileKey × Entry))
    → other ≢ key
    → rows_of other (others_of key xs) ≡ rows_of other xs
rows_of-others key other [] h = refl
rows_of-others key other (x ∷ xs) h = elim (Bool-cases (x.0 == key)) [
  | inl e ↦
      let differ : (x.0 == other) ≡ false = elim (Bool-cases (x.0 == other)) [
        | inl f ↦ absurd (h (sym ((==_iff x.0 other).0 f) ∙ (==_iff x.0 key).0 e))
        | inr f ↦ f
      ] in
      rw (e, differ) (rows_of-others key other xs h)
  | inr e ↦ elim (Bool-cases (x.0 == other)) [
    | inl f ↦ rw (e, f) (ap (λ zs. x ∷ zs) (rows_of-others key other xs h))
    | inr f ↦ rw (e, f) (rows_of-others key other xs h)
  ]
]

module _ (hash : List Row → String) where
  -- The manifest has one row for the file, with the count and the hash of its rows.
  abbrev pub Shows : List (FileKey × Entry) → FileKey → List Row → Type 0
  Shows manifest path rows =
      (entry : Entry) × (select (λ (row : FileKey × Entry). row.0 == path) manifest
        ≡ (path, entry) ∷ [])
      × (entry.row_count ≡ length rows)
      × (entry.content_hash ≡ hash rows)

  abbrev pub Match : List (FileKey × List Row) → List (FileKey × Entry) → Type 0
  Match files manifest =
      (path : FileKey) (rows : List Row) → lookup path files ≡ some rows → Shows manifest path rows

  abbrev pub IsRecorded : Store → Type 0
  IsRecorded s = Match s.files s.manifest

  -- The last write of a file is not in the manifest, which matches the files before it.
  abbrev pub IsOneBehind : Store → Type 0
  IsOneBehind s =
      (files : List (FileKey × List Row)) × (path : FileKey) × (rows : List Row) × (s.files
        ≡ insert path rows files)
      × Match files s.manifest

  abbrev pub AtRaise : Store → Type 0
  AtRaise s = IsRecorded s ⊎ IsOneBehind s

module _ (is_decimal : ℕ → Bool) (answers : ℕ → Bool) (hash : List Row → String) where
  upserted-IsRecorded :
      (rows : List Row) (path : FileKey) (files : List (FileKey × List Row))
      (manifest : List (FileKey × Entry)) (entry : Entry)
      → Match hash files manifest
      → entry.row_count ≡ length rows
      → entry.content_hash ≡ hash rows
      → (other : FileKey) (found : List Row) → lookup other (insert path rows files) ≡ some found
      → Shows hash (others_of path manifest ++ (path, entry) ∷ []) other found
  upserted-IsRecorded rows path files manifest entry h count same other found e =
      elim (Bool-cases (other == path)) [
        | inl t ↦
            let here_too : other ≡ path = (==_iff other path).0 t in
            let stored : some rows ≡ some found =
              sym (rw t refl) ∙ sym (lookup-insert other path rows files) ∙ e in
            let rows_same : rows ≡ found = cc in
            let reads : (path == path) ≡ true = (==_iff path path).1 refl in
            rw here_too (
              entry,
              rows_of-append path (others_of path manifest) ((path, entry) ∷ [])
                  ∙ rw (rows_of-deleted path manifest, reads) refl,
              count ∙ ap length rows_same,
              same ∙ ap hash rows_same,
            )
        | inr f ↦
            let stored : lookup other files ≡ some found =
              sym (rw f refl) ∙ sym (lookup-insert other path rows files) ∙ e in
            let (old, only, counts, hashes) = h other found stored in
            let differ : other ≢ path = λ p. ground (arith, (==_iff other path).1 p, f) in
            let apart : (path == other) ≡ false = elim (Bool-cases (path == other)) [
              | inl g ↦ absurd (differ (sym ((==_iff path other).0 g)))
              | inr g ↦ g
            ] in
            (
              old,
              rows_of-append other (others_of path manifest) ((path, entry) ∷ [])
                  ∙ rw (rows_of-others path other manifest differ, apart, only) refl,
              counts,
              hashes,
            )
      ]

  prepared-IsRecorded :
      (definition : DatasetDefinition) (rows : List Row) (path : FileKey) (s : Store)
      → IsRecorded hash s
      → Keeps
          (IsRecorded hash)
          (AtRaise hash)
          (write_prepared_dataset is_decimal answers hash false definition rows path s)
  unfolding write_prepared_dataset atomic_write upsert_manifest_after_write upsert_manifest
      mark_dataset_dirty
  prepared-IsRecorded definition rows path s h = elim (Bool-cases (answers s.calls)) [
    | inr e ↦ rw e (inl h)
    | inl e ↦ elim (Bool-cases (answers (suc s.calls))) [
      | inr f ↦ rw (e, f) (inr (s.files, path, rows, refl, h))
      | inl f ↦ rw (e, f) (either_way (contains s.dirty_datasets definition.id) _ _ kept kept)
    ]
  ]
    where
      entry : Entry
      entry = record {
        row_count = length rows;
        content_hash = hash rows;
        source_signature = "";
        master_row_hash = "";
      }

      kept : Match hash (insert path rows s.files) (others_of path s.manifest ++ (path, entry) ∷ [])
      kept = upserted-IsRecorded rows path s.files s.manifest entry h refl refl

      either_way :
          (b : Bool) (x y : Store)
          → IsRecorded hash x
          → IsRecorded hash y
          → IsRecorded hash (if b then x else y)
      either_way true x y k l = k
      either_way false x y k l = l

  -- A write of a data set in a store that is not a staging store, in any mode and to any partitions,
  -- whichever reads and writes of files and of the manifest fail, where the manifest had before one row for each
  -- file, with the count and the hash of the file's rows: if it returns, that holds after it too; if it raises, that
  -- holds too, or it holds but for the last write of one file, which is not in the manifest.
  pub write_dataset-IsRecorded :
      (definition : DatasetDefinition) (rows : List Row) (partition : Partition)
      (mode : Option WriteMode) (skip_existing : Bool) (s : Store)
      → IsRecorded hash s
      → Keeps (IsRecorded hash) (AtRaise hash) (
          write_dataset is_decimal answers hash false definition rows partition mode skip_existing
            s)
  write_dataset-IsRecorded =
      write_dataset-Keeps is_decimal answers hash false (IsRecorded hash) (AtRaise hash)
        (λ s h. inl h) (λ s h. h) prepared-IsRecorded
