-- ===== src/Derived/Staging/Kept.antt =====
-- A commit replaces the contents, or it raises and the old ones are in place; no moment is without both.
use quant_data_center_cn.Prelude.{
  ℕ, suc, Option, none, some, List, Bool, true, false, if◌then◌else◌, is_some, ◌≡◌, ◌⊎◌, refl, All,
  Bool-cases, inl, inr,
}
use quant_data_center_cn.Derived.Staging.{
  Area, Outcome, returned, raised, noted, make_parent, promote, try_swap, restore_staging_swap,
  remove_backup, remove_staging, swap, commit_derived_dataset_staging,
  commit_derived_partition_staging, create_staging_area, staged,
}

module _ {F : Type 0} where
  -- The contents that are to be seen later stand in the final place, or the old ones in one of the two.
  abbrev pub Kept : Option F → Option F → Option F × Option F → Type 0
  Kept old target moment = (moment.0 ≡ old) ⊎ ((moment.1 ≡ old) ⊎ (moment.0 ≡ target))

  -- How a commit may end.
  abbrev pub Ends : Option F → Option F → Outcome F → Type 0
  Ends old target (returned e) = (e.final_dir ≡ target) × All (Kept old target) e.moments
  Ends old target (raised e) = (e.final_dir ≡ old) × All (Kept old target) e.moments

-- The areas in which a commit may find itself, after so many calls.
abbrev at_start : {F : Type 0} → Bool → Option F → F → ℕ → List (Option F × Option F) → Area F
at_start existed old new n moments = record {
  final_existed = existed;
  final_dir = old;
  staging_dir = some new;
  staging_root = true;
  backup_dir = none;
  calls = n;
  moments = moments;
}

module _ {F : Type 0} (works : ℕ → Bool) (remains : ℕ → Option F)
    (patient : (n : ℕ) → works n ≡ false → works (suc n) ≡ true) where
  abbrev target_of : Bool → F → Option F
  target_of delete_partition new = if delete_partition then none else some new

  swap-Ends :
      (delete_partition existed : Bool) (old : Option F) (new : F) (n : ℕ)
      (moments : List (Option F × Option F))
      → All (Kept old (target_of delete_partition new)) moments
      → Ends old
          (target_of delete_partition new)
          (swap works remains delete_partition (at_start existed old new n moments))
  unfolding swap try_swap promote noted restore_staging_swap remove_backup remove_staging
  swap-Ends true existed none new n moments kept = (refl, (inl refl, kept))
  swap-Ends false existed none new n moments kept = elim (Bool-cases (works n)) [
    | inl e ↦ rw (Ends, e) (refl, (inr (inr refl), (inr (inr refl), kept)))
    | inr e ↦ rw (Ends, e) (refl, (inl refl, (inl refl, kept)))
  ]
  swap-Ends true existed (some old) new n moments kept = elim (Bool-cases (works n)) [
    | inl e ↦ rw (Ends, e) (refl, (inr (inr refl), (inr (inr refl), (inr (inl refl), kept))))
    | inr e ↦ rw (Ends, e) (refl, (inl refl, (inl refl, kept)))
  ]
  swap-Ends false existed (some old) new n moments kept = elim (Bool-cases (works n)) [
    | inl e ↦ elim (Bool-cases (works (suc n))) [
      | inl f ↦
          rw (Ends, e, f)
            (refl, (inr (inr refl), (inr (inr refl), (inr (inr refl), (inr (inl refl), kept)))))
      | inr f ↦
          rw (Ends, e, f, patient (suc n) f)
            (refl, (inl refl, (inl refl, (inr (inl refl), (inr (inl refl), kept)))))
    ]
    | inr e ↦ rw (Ends, e) (refl, (inl refl, (inl refl, kept)))
  ]

  dataset-Ends :
      (empty new : F) (old : Option F)
      → Ends old (some new) (
          commit_derived_dataset_staging works remains true
            (staged new (create_staging_area empty old)))
  unfolding commit_derived_dataset_staging make_parent noted create_staging_area staged
  dataset-Ends empty new old = elim (Bool-cases (works 0)) [
    | inl e ↦ rw e (swap-Ends false (is_some old) old new 1 _ (inl refl, tt))
    | inr e ↦ rw (Ends, e) (refl, (inl refl, tt))
  ]

  partition-Ends :
      (delete_partition : Bool) (empty new : F) (old : Option F)
      → Ends old (target_of delete_partition new) (
          commit_derived_partition_staging works remains true delete_partition
            (staged new (create_staging_area empty old)))
  unfolding commit_derived_partition_staging make_parent noted create_staging_area staged
  partition-Ends delete_partition empty new old = elim (Bool-cases (works 0)) [
    | inl e ↦ elim (Bool-cases (works 1)) [
      | inl f ↦
          rw (e, f)
            (swap-Ends delete_partition (is_some old) old new 2 _ (inl refl, (inl refl, tt)))
      | inr f ↦ rw (Ends, e, f) (refl, (inl refl, (inl refl, tt)))
    ]
    | inr e ↦ rw (Ends, e) (refl, (inl refl, tt))
  ]

  -- A commit of a derived data set that the builder has written, or of a partition, written or to be deleted, returns, and the
  -- final place holds what was written, or nothing; or it raises, and the final place is as it was. After each
  -- of its calls the old contents are in the final or the backup place, or the new state is in the final one. This is
  -- where no two calls in a row are refused; what an `rmtree` leaves does not matter.
  pub commit-Ends :
      (empty new : F) (old : Option F)
      → Ends old (some new) (
          commit_derived_dataset_staging works remains true
            (staged new (create_staging_area empty old)))
        × ((delete_partition : Bool)
            → Ends old (if delete_partition then none else some new) (
                commit_derived_partition_staging works remains true delete_partition
                  (staged new (create_staging_area empty old))))
  commit-Ends empty new old = (
    dataset-Ends empty new old,
    λ delete_partition. partition-Ends delete_partition empty new old,
  )
