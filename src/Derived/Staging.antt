-- ===== src/Derived/Staging.antt =====
-- src/sources/derived/common.py: a derived data set, or one partition of it, is written into a staging directory, which then
-- takes the place of the final one. Directories have contents of any type. `works` tells of each call, by its number, whether the
-- file system does it, and `remains` what an `rmtree` leaves. Names of directories have a fresh token, so that nothing else
-- stands in the backup or the staging place.
pub mod Kept
use quant_data_center_cn.Prelude.{
  ℕ, suc, Option, none, some, List, [], ◌∷◌, Bool, true, false, ◌&&◌, not, if◌then◌else◌, is_some,
}

-- `DerivedDatasetStagingArea` and `DerivedPartitionStagingArea`, with what stands in its directories.
pub record Area (F : Type 0) : Type 0 where
  pub final_existed : Bool
  pub final_dir : Option F
  pub staging_dir : Option F
  pub staging_root : Bool
  pub backup_dir : Option F
  -- How many calls of the file system there were.
  pub calls : ℕ
  -- What stood in the final and in the backup place after each call, the last one first.
  pub moments : List (Option F × Option F)

pub data Outcome (F : Type 0) : Type 0 where
  returned raised : Area F → Outcome F

infixl 5 ◌>>=◌
abbrev pub ◌>>=◌ : {F : Type 0} → Outcome F → (Area F → Outcome F) → Outcome F
returned a >>= next = next a
raised a >>= next = raised a

-- How the part under `try` ends, with `backup_created`.
pub data Swap (F : Type 0) : Type 0 where
  swapped failed : Bool → Area F → Swap F

module _ {F : Type 0} where
  unfoldable pub noted : Area F → Area F
  noted a = record a { calls = suc a.calls; moments = (a.final_dir, a.backup_dir) ∷ a.moments }

  -- `create_derived_dataset_staging_area`, `create_derived_partition_staging_area`: the new directory is empty.
  unfoldable pub create_staging_area : F → Option F → Area F
  create_staging_area empty final = record {
    final_existed = is_some final;
    final_dir = final;
    staging_dir = some empty;
    staging_root = true;
    backup_dir = none;
    calls = 0;
    moments = [];
  }

  -- What the builder writes into the staging directory.
  unfoldable pub staged : F → Area F → Area F
  staged contents a = record a { staging_dir = some contents }

  module _ (works : ℕ → Bool) (remains : ℕ → Option F) where
    -- `mkdir` of a parent
    unfoldable pub make_parent : Area F → Outcome F
    make_parent a = if works a.calls then returned (noted a) else raised (noted a)

    -- `staging_dir.rename(final_dir)`, unless the partition is to be deleted.
    unfoldable pub promote : Bool → Bool → Area F → Swap F
    promote true created a = swapped created a
    promote false created a = elim a.staging_dir [
      | none ↦ failed created (noted a)
      | some new ↦
          if works a.calls && not (is_some a.final_dir)
          then swapped created (noted (record a { staging_dir = none; final_dir = some new }))
          else failed created (noted a)
    ]

    -- What is under the `try`.
    unfoldable pub try_swap : Bool → Area F → Swap F
    try_swap delete_partition a = elim a.final_dir [
      | none ↦ promote delete_partition false a
      | some old ↦
          if works a.calls
          then promote delete_partition true
              (noted (record a { final_dir = none; backup_dir = some old }))
          else failed false (noted a)
    ]

    -- `_restore_staging_swap`: a rename that fails is only logged.
    unfoldable pub restore_staging_swap : Bool → Area F → Area F
    restore_staging_swap created a = elim a.backup_dir [
      | none ↦ a
      | some old ↦
          if created && not (is_some a.final_dir)
          then if works a.calls
            then noted (record a { final_dir = some old; backup_dir = none })
            else noted a
          else a
    ]

    -- The `finally` clause.
    unfoldable pub remove_backup : Bool → Area F → Area F
    remove_backup created a =
        if created && is_some a.backup_dir
        then noted (record a { backup_dir = remains a.calls })
        else a

    unfoldable pub remove_staging : Area F → Area F
    remove_staging a =
        if a.staging_root
        then (let rest = remains a.calls in
            noted (record a {
              staging_dir = if is_some a.staging_dir then rest else none;
              staging_root = is_some rest;
            }))
        else a

    unfoldable pub swap : Bool → Area F → Outcome F
    swap delete_partition a = elim (try_swap delete_partition a) [
      | swapped created e ↦ returned (remove_staging (remove_backup created e))
      | failed created e ↦
          raised (remove_staging (remove_backup created (restore_staging_swap created e)))
    ]

    -- `commit_derived_dataset_staging`, for a data set that is derived or not.
    unfoldable pub commit_derived_dataset_staging : Bool → Area F → Outcome F
    commit_derived_dataset_staging is_derived a =
        if is_derived then make_parent a >>= swap false else raised a

    -- `commit_derived_partition_staging`
    unfoldable pub commit_derived_partition_staging : Bool → Bool → Area F → Outcome F
    commit_derived_partition_staging is_derived delete_partition a =
        if is_derived then make_parent a >>= make_parent >>= swap delete_partition else raised a

    -- `cleanup_derived_dataset_staging`, `cleanup_derived_partition_staging`
    unfoldable pub remove_empty : (F → Bool) → Area F → Area F
    remove_empty is_empty a = elim a.final_dir [
      | none ↦ a
      | some contents ↦
          if not a.final_existed && is_empty contents
          then if works a.calls then noted (record a { final_dir = none }) else noted a
          else a
    ]

    unfoldable pub cleanup_staging : (F → Bool) → Area F → Area F
    cleanup_staging is_empty a = remove_empty is_empty (remove_staging a)
