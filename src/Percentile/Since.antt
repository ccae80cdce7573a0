-- ===== src/Percentile/Since.antt =====
-- Samples on or after a threshold, and samples in the order of their dates.
use quant_data_center_cn.Prelude.{
  ℕ, ◌≤◌, List, [], ◌∷◌, ◌++◌, true, leb, ◌≡◌, refl, ap, arith, All, All-append, Bool-cases, inl,
  inr,
}
use quant_data_center_cn.Prelude.SortBy.{Ascending}
use quant_data_center_cn.Percentile.Window.{Sample}
use quant_data_center_cn.Percentile.Counted.{since}

abbrev pub date_of : Sample → ℕ
date_of s = s.date

pub All-since :
    (P : Sample → Type 0) (threshold : ℕ) (samples : List Sample)
    → All P samples
    → All P (since threshold samples)
All-since P threshold [] h = tt
All-since P threshold (s ∷ samples) h = elim (Bool-cases (leb threshold s.date)) [
  | inl e ↦ rw e (h.0, All-since P threshold samples h.1)
  | inr e ↦ rw e (All-since P threshold samples h.1)
]

pub since-Ascending :
    (threshold : ℕ) (samples : List Sample)
    → Ascending date_of samples
    → Ascending date_of (since threshold samples)
since-Ascending threshold [] h = tt
since-Ascending threshold (s ∷ samples) h = elim (Bool-cases (leb threshold s.date)) [
  | inl e ↦ rw e (
    All-since (λ r. s.date ≤ r.date) threshold samples h.0,
    since-Ascending threshold samples h.1,
  )
  | inr e ↦ rw e (since-Ascending threshold samples h.1)
]

pub since_twice :
    (early late : ℕ) (samples : List Sample)
    → early ≤ late
    → since late (since early samples) ≡ since late samples
since_twice early late [] h = refl
since_twice early late (s ∷ samples) h = elim (Bool-cases (leb late s.date)) [
  | inl e ↦
      let old : leb early s.date ≡ true = ground (arith, e, h) in
      rw (old, e) (ap (λ xs. s ∷ xs) (since_twice early late samples h))
  | inr e ↦ elim (Bool-cases (leb early s.date)) [
    | inl f ↦ rw (f, e) (since_twice early late samples h)
    | inr f ↦ rw (f, e) (since_twice early late samples h)
  ]
]

pub since-at_end :
    (threshold : ℕ) (samples : List Sample) (s : Sample)
    → threshold ≤ s.date
    → since threshold (samples ++ s ∷ []) ≡ since threshold samples ++ s ∷ []
since-at_end threshold [] s h = let e : leb threshold s.date ≡ true = ground (arith, h) in rw e refl
since-at_end threshold (r ∷ samples) s h = elim (Bool-cases (leb threshold r.date)) [
  | inl e ↦ rw e (ap (λ xs. r ∷ xs) (since-at_end threshold samples s h))
  | inr e ↦ rw e (since-at_end threshold samples s h)
]

pub All-parts : (P : Sample → Type 0) (xs ys : List Sample) → All P (xs ++ ys) → All P xs × All P ys
All-parts P [] ys h = (tt, h)
All-parts P (x ∷ xs) ys h = let rest = All-parts P xs ys h.1 in ((h.0, rest.0), rest.1)

pub Ascending-at_end :
    (samples : List Sample) (s : Sample)
    → Ascending date_of samples
    → All (λ (r : Sample). r.date ≤ s.date) samples
    → Ascending date_of (samples ++ s ∷ [])
Ascending-at_end [] s up h = (tt, tt)
Ascending-at_end (r ∷ samples) s up h = (
  All-append (λ (q : Sample). r.date ≤ q.date) samples (s ∷ []) up.0 (h.0, tt),
  Ascending-at_end samples s up.1 h.1,
)
