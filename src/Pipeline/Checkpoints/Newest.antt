-- ===== src/Pipeline/Checkpoints/Newest.antt =====
-- In a frame sorted by time, the last row that a mask keeps is the newest one that it keeps.
use quant_data_center_cn.Prelude.{
  ℕ, suc, ◌≤◌, ◌≡◌, refl, ap, ◌∙◌, Option, none, some, List, [], ◌∷◌, Bool, true, false,
  if◌then◌else◌, In, here, there, All, All-In, All-map, All-intro, arith, Bool-cases, inl, inr,
  or_else,
}
use quant_data_center_cn.Prelude.SortBy.{Ascending}
use quant_data_center_cn.Pipeline.Checkpoints.{Checkpoint, last_row}

-- A NaT counts as the earliest time, which is how the index sorts it.
abbrev pub time : Checkpoint → ℕ
time r = elim r.updated_at [ none ↦ 0 | some t ↦ suc t ]

module _ (mask : Checkpoint → Bool) where
  -- The last row that the mask keeps.
  abbrev pub last_match : List Checkpoint → Option Checkpoint
  last_match [] = none
  last_match (r ∷ rows) = or_else (last_match rows) (if mask r then some r else none)

  pub record IsNewest (rows : List Checkpoint) (m : Checkpoint) : Type 0 where
    pub place : In m rows
    pub kept : mask m ≡ true
    pub newest : All (λ q. mask q ≡ true → time q ≤ time m) rows

  -- No row is kept, or the given one is the newest of those kept.
  pub data Found (rows : List Checkpoint) : Option Checkpoint → Type 0 where
    nothing_kept : All (λ q. mask q ≡ false) rows → Found rows none
    found : {m : Checkpoint} → IsNewest rows m → Found rows (some m)

  Found-later :
      (r m : Checkpoint) (rows : List Checkpoint)
      → All (λ q. time r ≤ time q) rows
      → IsNewest rows m
      → IsNewest (r ∷ rows) m
  Found-later r m rows up n = record {
    place = there n.place;
    kept = n.kept;
    newest = (λ _. All-In (λ q. time r ≤ time q) n.place up, n.newest);
  }

  Found-here :
      (r : Checkpoint) (rows : List Checkpoint)
      → mask r ≡ true
      → All (λ q. mask q ≡ false) rows
      → IsNewest (r ∷ rows) r
  Found-here r rows k h = record {
    place = here;
    kept = k;
    newest = (λ _. omega arith, All-map rows (λ q (f : mask q ≡ false) t. absurd (ground arith)) h);
  }

  Found-cons :
      (r : Checkpoint) (rows : List Checkpoint) (o : Option Checkpoint)
      → All (λ q. time r ≤ time q) rows
      → Found rows o
      → Found (r ∷ rows) (or_else o (if mask r then some r else none))
  unfolding or_else
  Found-cons r rows o up (found {m} n) = found (Found-later r m rows up n)
  Found-cons r rows o up (nothing_kept h) = elim (Bool-cases (mask r)) [
    | inl k ↦ rw k (found (Found-here r rows k h))
    | inr k ↦ rw k (nothing_kept (k, h))
  ]

  pub last_match-Found :
      (rows : List Checkpoint) → Ascending time rows → Found rows (last_match rows)
  last_match-Found [] up = nothing_kept tt
  last_match-Found (r ∷ rows) up =
      Found-cons r rows (last_match rows) up.0 (last_match-Found rows up.1)

  -- Two newest rows are the same, where rows that are kept have different times.
  pub IsNewest-unique :
      (rows : List Checkpoint) (m n : Checkpoint)
      → ((r q : Checkpoint)
          → In r rows
          → In q rows
          → mask r ≡ true
          → mask q ≡ true
          → time r ≡ time q
          → r ≡ q)
      → IsNewest rows m
      → IsNewest rows n
      → m ≡ n
  IsNewest-unique rows m n differ a b = differ m n a.place b.place a.kept b.kept (
      omega (
        arith,
        All-In (λ q. mask q ≡ true → time q ≤ time n) a.place b.newest a.kept,
        All-In (λ q. mask q ≡ true → time q ≤ time m) b.place a.newest b.kept,
      ))

  kept_nowhere :
      (xs ys : List Checkpoint) (q : Checkpoint)
      → (mask q ≡ true → In q ys)
      → All (λ r. mask r ≡ false) ys
      → mask q ≡ false
  kept_nowhere xs ys q back h = elim (Bool-cases (mask q)) [
    | inl t ↦ let f = All-In (λ r. mask r ≡ false) (back t) h in cc
    | inr f ↦ f
  ]

  -- What is found in a frame is found in any frame with the same kept rows.
  pub Found-same :
      (xs ys : List Checkpoint) (o : Option Checkpoint)
      → ((r : Checkpoint) → In r ys → In r xs)
      → ((r : Checkpoint) → In r xs → mask r ≡ true → In r ys)
      → Found ys o
      → Found xs o
  Found-same xs ys o into back (nothing_kept h) =
      nothing_kept (All-intro xs (λ q i. kept_nowhere xs ys q (back q i) h))
  Found-same xs ys o into back (found {m} n) = found (record {
    place = into m n.place;
    kept = n.kept;
    newest =
        All-intro xs
          (λ q i t. All-In (λ r. mask r ≡ true → time r ≤ time m) (back q i t) n.newest t);
  })

  -- A frame has one newest row at most, where rows that are kept have different times.
  pub Found-unique :
      (rows : List Checkpoint) (o p : Option Checkpoint)
      → ((r q : Checkpoint)
          → In r rows
          → In q rows
          → mask r ≡ true
          → mask q ≡ true
          → time r ≡ time q
          → r ≡ q)
      → Found rows o
      → Found rows p
      → o ≡ p
  Found-unique rows o p differ (nothing_kept h) (nothing_kept k) = refl
  Found-unique rows o p differ (nothing_kept h) (found n) =
      let f = All-In (λ r. mask r ≡ false) n.place h in absurd (ground (arith, f, n.kept))
  Found-unique rows o p differ (found m) (nothing_kept k) =
      let f = All-In (λ r. mask r ≡ false) m.place k in absurd (ground (arith, f, m.kept))
  Found-unique rows o p differ (found m) (found n) = ap some (IsNewest-unique rows _ _ differ m n)

  or_else-some-some :
      (x : Option Checkpoint) (n r : Checkpoint)
      → or_else x (some n) ≡ or_else (or_else x (some n)) (some r)
  unfolding or_else
  or_else-some-some none n r = refl
  or_else-some-some (some a) n r = refl

  -- Of rows that are all kept, the last is the last one kept.
  pub last_row-last_match :
      (rows : List Checkpoint) → All (λ q. mask q ≡ true) rows → last_row rows ≡ last_match rows
  unfolding or_else
  last_row-last_match [] h = refl
  last_row-last_match (r ∷ []) h = rw h.0 refl
  last_row-last_match (r ∷ n ∷ rows) h =
      last_row-last_match (n ∷ rows) h.1 ∙ rw (h.0, h.1.0) (or_else-some-some (last_match rows) n r)
