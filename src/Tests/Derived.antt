-- ===== src/Tests/Derived.antt =====
-- Tests of the swap of a staged data set: one call is refused, and two in a row are.
use quant_data_center_cn.Prelude.{
  ℕ, zero, suc, String, none, some, Bool, true, false, if◌then◌else◌, ◌≡◌, refl,
}
use quant_data_center_cn.Derived.Staging.{
  Area, Outcome, returned, raised, create_staging_area, staged, commit_derived_dataset_staging,
  commit_derived_partition_staging, make_parent, noted, promote, try_swap, swap,
  restore_staging_swap, remove_backup, remove_staging,
}
use quant_data_center_cn.Derived.Staging.Kept.{Ends, commit-Ends}

-- The staged directory cannot be moved to its place.
abbrev works : ℕ → Bool
works zero = true
works (suc zero) = true
works (suc (suc zero)) = false
works (suc (suc (suc n))) = true

patient : (n : ℕ) → works n ≡ false → works (suc n) ≡ true
patient zero h = refl
patient (suc zero) h = cc
patient (suc (suc zero)) h = refl
patient (suc (suc (suc n))) h = refl

commit-Ends_example :
    Ends {F = String} (some "old") (some "new") (
      commit_derived_dataset_staging works
        (λ n. none)
        true
        (staged "new" (create_staging_area "" (some "old"))))
    × ((delete_partition : Bool)
        → Ends {F = String} (some "old") (if delete_partition then none else some "new") (
            commit_derived_partition_staging works
              (λ n. none)
              true
              delete_partition
              (staged "new" (create_staging_area "" (some "old")))))
commit-Ends_example = commit-Ends works (λ n. none) patient "" "new" (some "old")

-- If the old contents cannot be moved back either, the clean-up removes them.
abbrev works_twice : ℕ → Bool
works_twice zero = true
works_twice (suc zero) = true
works_twice (suc (suc n)) = false

abbrev area_of : Outcome String → Area String
area_of (returned a) = a
area_of (raised a) = a

lost :
    let a = area_of (
      commit_derived_dataset_staging works_twice
        (λ n. none)
        true
        (staged "new" (create_staging_area "" (some "old")))) in
    (a.final_dir ≡ none) × (a.backup_dir ≡ none) × (a.staging_dir ≡ none)
unfolding commit_derived_dataset_staging make_parent noted promote try_swap swap
    restore_staging_swap remove_backup remove_staging staged create_staging_area
lost = (refl, refl, refl)
