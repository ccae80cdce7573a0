-- ===== src/Calendar/Keys.antt =====
-- What it is to be a trading day of a calendar, and the columns of such days.
use quant_data_center_cn.Prelude.{
  ℕ, ◌≤◌, ◌≡◌, refl, List, [], ◌∷◌, Bool, true, ◌&&◌, arith, select, Bool-cases, inl, inr, leb, In,
  here, there,
}
use quant_data_center_cn.Calendar.{
  Cells, Frame, Day, dates, days_until, days_from, calendar_with_keys,
}

-- A row of the keyed calendar has the date and is flagged.
abbrev pub Listed : List Day → ℕ → Type 0
Listed work d = (r : Day) × In r work × (r.date ≡ d) × (r.trading ≡ true)

abbrev pub IsTradingDay : Cells → Frame → ℕ → Type 0
IsTradingDay cells df = Listed (calendar_with_keys cells df)

module _ (p : Day → Bool) where
  DatesFrom : List Day → ℕ → Type 0
  DatesFrom work d = (r : Day) × In r work × (p r ≡ true) × (r.date ≡ d)

  DatesFrom-cons : (r : Day) (work : List Day) (d : ℕ) → DatesFrom work d → DatesFrom (r ∷ work) d
  unfolding DatesFrom
  DatesFrom-cons r work d (s, i, e, t) = (s, there i, e, t)

  DatesFrom-head :
      (r : Day) (work : List Day) (d : ℕ) (xs : List ℕ)
      → p r ≡ true
      → (In d xs → DatesFrom work d)
      → In d (r.date ∷ xs)
      → DatesFrom (r ∷ work) d
  unfolding DatesFrom
  DatesFrom-head r work d xs e f here = (r, here, e, refl)
  DatesFrom-head r work d xs e f (there i) = DatesFrom-cons r work d (f i)

  dates-select : (work : List Day) (d : ℕ) → In d (dates (select p work)) → DatesFrom work d
  dates-select [] d i = elim i [ ]
  dates-select (r ∷ work) d i = elim (Bool-cases (p r)) [
    | inl e ↦ DatesFrom-head r work d (dates (select p work)) e (dates-select work d) (rw e at i)
    | inr e ↦ DatesFrom-cons r work d (dates-select work d (rw e at i))
  ]

  In-dates-select :
      (r : Day) (work : List Day) → In r work → p r ≡ true → In r.date (dates (select p work))
  In-dates-select r [] i e = elim i [ ]
  In-dates-select r (s ∷ work) here e = rw e here
  In-dates-select r (s ∷ work) (there i) e = elim (Bool-cases (p s)) [
    | inl k ↦ rw k (there (In-dates-select r work i e))
    | inr k ↦ rw k (In-dates-select r work i e)
  ]

module _ (work : List Day) (target : ℕ) where
  pub days_until_sound : (d : ℕ) → In d (days_until work target) → Listed work d × (d ≤ target)
  unfolding DatesFrom
  days_until_sound d i =
      let (r, m, e, k) = dates-select (λ s. leb s.date target && s.trading) work d i in
      ((r, m, k, ground arith), ground arith)

  pub days_until_complete : (d : ℕ) → Listed work d → d ≤ target → In d (days_until work target)
  days_until_complete d (r, m, k, t) le =
      rw k at (In-dates-select (λ s. leb s.date target && s.trading) r work m (ground arith))

  pub days_from_sound : (d : ℕ) → In d (days_from work target) → Listed work d × (target ≤ d)
  unfolding DatesFrom
  days_from_sound d i =
      let (r, m, e, k) = dates-select (λ s. leb target s.date && s.trading) work d i in
      ((r, m, k, ground arith), ground arith)

  pub days_from_complete : (d : ℕ) → Listed work d → target ≤ d → In d (days_from work target)
  days_from_complete d (r, m, k, t) le =
      rw k at (In-dates-select (λ s. leb target s.date && s.trading) r work m (ground arith))
