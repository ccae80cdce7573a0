-- ===== src/Baostock/Dispatch/Futures.antt =====
-- The set of the futures in flight, as a list in which no number stands twice.
use quant_data_center_cn.Prelude.{
  ℕ, suc, ◌+◌, ◌≤◌, nat_eq, List, [], ◌∷◌, Bool, true, false, ◌==◌, ==_iff, length, select, ◌≡◌,
  ◌≢◌, refl, sym, ap, ◌∙◌, arith, All, All-In, All-intro, In, there, In-cons_cases, In-under,
  select-In, Bool-cases, inl, inr,
}
use quant_data_center_cn.Prelude.SortBy.{sort_by, sort_by-Pairwise, Pairwise}
use quant_data_center_cn.Baostock.Dispatch.{Task, daily_initial, without, is_pending}

abbrev pub Future : Type 0
Future = ℕ × Task

abbrev pub number : Future → ℕ
number f = f.0

-- A daily task may still ask for one more; each other task asks for none.
abbrev pub weight : Task → ℕ
weight (daily_initial code factor works) = 2
weight task = 1

abbrev pub load : List Future → ℕ
load [] = 0
load ((n, task) ∷ pending) = weight task + load pending

abbrev pub Differs : ℕ → Future → Type 0
Differs n f = n ≢ f.0

-- No number twice.
abbrev pub Distinct : List Future → Type 0
Distinct = Pairwise number (λ f. Differs f.0)

pub In-is_pending : (f : Future) (fs : List Future) → In f fs → is_pending f.0 fs ≡ true
unfolding is_pending
In-is_pending f [] i = elim i [ ]
In-is_pending f (g ∷ fs) i = elim (In-cons_cases i) [
  | inl same ↦ ground (arith, ap number same)
  | inr j ↦ ground (arith, In-is_pending f fs j)
]

pub length-without :
    (f : Future) (fs : List Future) → In f fs → suc (length (without f.0 fs)) ≡ length fs
unfolding without
length-without f [] i = elim i [ ]
length-without f (g ∷ fs) i = elim (Bool-cases (f.0 == g.0)) [
  | inl e ↦ rw e refl
  | inr e ↦ elim (In-cons_cases i) [
    | inl same ↦ ground (arith, ap number same)
    | inr j ↦ rw e (ap suc (length-without f fs j))
  ]
]

pub In-without : (n : ℕ) (f : Future) (fs : List Future) → In f (without n fs) → In f fs
unfolding without
In-without n f [] i = i
In-without n f (g ∷ fs) i = elim (Bool-cases (n == g.0)) [
  | inl e ↦ there (rw e at i)
  | inr e ↦ In-under (In-without n f fs) (rw e at i)
]

pub without-In : (n : ℕ) (f : Future) (fs : List Future) → n ≢ f.0 → In f fs → In f (without n fs)
unfolding without
without-In n f [] h i = elim i [ ]
without-In n f (g ∷ fs) h i = elim (Bool-cases (n == g.0)) [
  | inl e ↦ elim (In-cons_cases i) [
    | inl same ↦ absurd (h ((==_iff n g.0).0 e ∙ sym (ap number same)))
    | inr j ↦ rw e j
  ]
  | inr e ↦ rw e (In-under (without-In n f fs h) i)
]

pub All-without {κ} :
    (P : Future → Type κ) (n : ℕ) (fs : List Future) → All P fs → All P (without n fs)
All-without P n fs h = All-intro (without n fs) (λ f i. All-In P (In-without n f fs i) h)

pub Distinct-without : (n : ℕ) (fs : List Future) → Distinct fs → Distinct (without n fs)
unfolding without
Distinct-without n [] d = tt
Distinct-without n (g ∷ fs) d = elim (Bool-cases (n == g.0)) [
  | inl e ↦ rw e d.1
  | inr e ↦ rw e (All-without (Differs g.0) n fs d.0, Distinct-without n fs d.1)
]

-- A number in flight has one task.
pub load-without :
    (f : Future) (fs : List Future)
    → Distinct fs
    → In f fs
    → weight f.1 + load (without f.0 fs) ≡ load fs
unfolding without
load-without f [] d i = elim i [ ]
load-without f (g ∷ fs) d i = elim (In-cons_cases i) [
  | inl same ↦ let e : (g.0 == g.0) ≡ true = (==_iff g.0 g.0).1 refl in rw (same, e) refl
  | inr j ↦
      let differ : g.0 ≢ f.0 = All-In (Differs g.0) j d.0 in
      let e : (f.0 == g.0) ≡ false = ground (arith, differ) in
      rw e (omega (arith, load-without f fs d.1 j))
]

pub length-le-load : (fs : List Future) → length fs ≤ load fs
length-le-load [] = omega arith
length-le-load ((n, task) ∷ fs) = ground (arith, length-le-load fs, task)

pub Distinct-select : (p : Future → Bool) (fs : List Future) → Distinct fs → Distinct (select p fs)
Distinct-select p [] d = tt
Distinct-select p (f ∷ fs) d = elim (Bool-cases (p f)) [
  | inl e ↦ rw e (
    All-intro (select p fs) (λ g i. All-In (Differs f.0) (select-In p g fs i) d.0),
    Distinct-select p fs d.1,
  )
  | inr e ↦ rw e (Distinct-select p fs d.1)
]

pub Distinct-sort_by : (fs : List Future) → Distinct fs → Distinct (sort_by number fs)
Distinct-sort_by fs d =
    sort_by-Pairwise number (λ f. Differs f.0) fs (λ f g differ same. differ (sym same)) d
