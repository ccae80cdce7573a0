-- ===== src/Calendar/Latest.antt =====
-- The latest trading day on or before a date, the first on or after one, and the trading bounds of
-- a range, against what they are to be.
use native.Mathlib.Nat.{le_antisymm}
use quant_data_center_cn.Prelude.{
  ℕ, ◌≤◌, ◌≡◌, refl, ap, ◌∙◌, ◌↔◌, inl, inr, Option, none, some, List, [], ◌∷◌, false, ok, arith,
  In, All, All-In, All-intro, Option-cases, Bool-cases,
}
use quant_data_center_cn.Prelude.Sort.{
  IsSorted, sort_values, sort_values-IsSorted, In-sort_values, All-sort_values, last?, last?-sorted,
  last?-none, first?, first?-sorted,
}
use quant_data_center_cn.Calendar.{
  Cells, Frame, Day, CalendarError, none_on_or_before, none_on_or_after, days_until, days_from,
  or_error, is_empty, calendar_with_keys, latest_trading_day_on_or_before,
  first_trading_day_on_or_after,
}
use quant_data_center_cn.Calendar.Keys.{
  Listed, days_until_sound, days_until_complete, days_from_sound, days_from_complete,
}

abbrev pub IsLatest : List Day → ℕ → ℕ → Type 0
IsLatest work t d = Listed work d × (d ≤ t) × ((e : ℕ) → Listed work e → e ≤ t → e ≤ d)

abbrev pub IsFirst : List Day → ℕ → ℕ → Type 0
IsFirst work t d = Listed work d × (t ≤ d) × ((e : ℕ) → Listed work e → t ≤ e → d ≤ e)

In-nil : (d : ℕ) (xs : List ℕ) → In d xs → xs ≡ [] → ⊥
In-nil d [] i e = elim i [ ]
In-nil d (x ∷ xs) i e = cc

first?-none : (xs : List ℕ) → first? xs ≡ none → xs ≡ []
first?-none [] h = refl
first?-none (x ∷ xs) h = cc

last?_of_greatest :
    (xs : List ℕ) (d : ℕ) → IsSorted xs → In d xs → All (λ x. x ≤ d) xs → last? xs ≡ some d
last?_of_greatest xs d s i below = elim (Option-cases (last? xs)) [
  | inl e ↦ absurd (In-nil d xs i (last?-none xs e))
  | inr (m, e) ↦
      let (j, above) = last?-sorted xs m s e in
      e ∙ ap some (le_antisymm (All-In (λ x. x ≤ d) j below) (All-In (λ x. x ≤ m) i above))
]

first?_of_least :
    (xs : List ℕ) (d : ℕ) → IsSorted xs → In d xs → All (λ x. d ≤ x) xs → first? xs ≡ some d
first?_of_least xs d s i above = elim (Option-cases (first? xs)) [
  | inl e ↦ absurd (In-nil d xs i (first?-none xs e))
  | inr (m, e) ↦
      let (j, below) = first?-sorted xs m s e in
      e ∙ ap some (le_antisymm (All-In (λ x. m ≤ x) i below) (All-In (λ x. d ≤ x) j above))
]

or_error-eq-ok : (e : CalendarError) (o : Option ℕ) (d : ℕ) → or_error e o ≡ ok d → o ≡ some d
or_error-eq-ok e o d h = ground arith

pub Listed-nonempty : (work : List Day) (d : ℕ) → Listed work d → is_empty work ≡ false
Listed-nonempty [] d (r, i, e, t) = elim i [ ]
Listed-nonempty (r ∷ work) d h = refl

module _ (work : List Day) (t d : ℕ) where
  last-IsLatest : last? (sort_values (days_until work t)) ≡ some d → IsLatest work t d
  last-IsLatest h =
      let (i, below) = last?-sorted _ d (sort_values-IsSorted (days_until work t)) h in
      let (listed, le) =
        All-In (λ x. Listed work x × (x ≤ t)) i
          (All-sort_values _ _ (All-intro (days_until work t) (days_until_sound work t))) in
      (
        listed,
        le,
        λ e l k. All-In (λ x. x ≤ d) (In-sort_values e _ (days_until_complete work t e l k)) below,
      )

  IsLatest-last : IsLatest work t d → last? (sort_values (days_until work t)) ≡ some d
  IsLatest-last (listed, le, greatest) =
      last?_of_greatest _ d (sort_values-IsSorted (days_until work t))
        (In-sort_values d _ (days_until_complete work t d listed le))
        (All-sort_values _ _ (
          All-intro (days_until work t)
            (λ x i. let (l, k) = days_until_sound work t x i in greatest x l k)))

  head-IsFirst : first? (sort_values (days_from work t)) ≡ some d → IsFirst work t d
  head-IsFirst h =
      let (i, above) = first?-sorted _ d (sort_values-IsSorted (days_from work t)) h in
      let (listed, le) =
        All-In (λ x. Listed work x × (t ≤ x)) i
          (All-sort_values _ _ (All-intro (days_from work t) (days_from_sound work t))) in
      (
        listed,
        le,
        λ e l k. All-In (λ x. d ≤ x) (In-sort_values e _ (days_from_complete work t e l k)) above,
      )

  IsFirst-first : IsFirst work t d → first? (sort_values (days_from work t)) ≡ some d
  IsFirst-first (listed, le, least) =
      first?_of_least _ d (sort_values-IsSorted (days_from work t))
        (In-sort_values d _ (days_from_complete work t d listed le))
        (All-sort_values _ _ (
          All-intro (days_from work t)
            (λ x i. let (l, k) = days_from_sound work t x i in least x l k)))

module _ (cells : Cells) (df : Frame) (t d : ℕ) where
  IsLatest-sound :
      latest_trading_day_on_or_before cells df t ≡ ok d → IsLatest (calendar_with_keys cells df) t d
  unfolding latest_trading_day_on_or_before
  IsLatest-sound h = elim (Bool-cases (is_empty (calendar_with_keys cells df))) [
    | inl e ↦ cc (rw e at h)
    | inr e ↦ last-IsLatest _ t d (or_error-eq-ok (none_on_or_before t) _ d (rw e at h))
  ]

  IsLatest-complete :
      IsLatest (calendar_with_keys cells df) t d → latest_trading_day_on_or_before cells df t ≡ ok d
  unfolding latest_trading_day_on_or_before
  IsLatest-complete l =
      rw (Listed-nonempty _ d l.0) (ap (or_error (none_on_or_before t)) (IsLatest-last _ t d l))

  IsFirst-sound :
      first_trading_day_on_or_after cells df t ≡ ok d → IsFirst (calendar_with_keys cells df) t d
  unfolding first_trading_day_on_or_after
  IsFirst-sound h = elim (Bool-cases (is_empty (calendar_with_keys cells df))) [
    | inl e ↦ cc (rw e at h)
    | inr e ↦ head-IsFirst _ t d (or_error-eq-ok (none_on_or_after t) _ d (rw e at h))
  ]

  IsFirst-complete :
      IsFirst (calendar_with_keys cells df) t d → first_trading_day_on_or_after cells df t ≡ ok d
  unfolding first_trading_day_on_or_after
  IsFirst-complete l =
      rw (Listed-nonempty _ d l.0) (ap (or_error (none_on_or_after t)) (IsFirst-first _ t d l))

  -- `latest_trading_day_on_or_before` returns d exactly when d is a flagged day of the calendar, on
  -- or before the given date, and no flagged day on or before that date is later.
  pub IsLatest-iff :
      (latest_trading_day_on_or_before cells df t ≡ ok d)
      ↔ IsLatest (calendar_with_keys cells df) t d
  IsLatest-iff = (IsLatest-sound, IsLatest-complete)

  -- `first_trading_day_on_or_after` returns d exactly when d is a flagged day of the calendar, on or
  -- after the given date, and no flagged day on or after that date is earlier.
  pub IsFirst-iff :
      (first_trading_day_on_or_after cells df t ≡ ok d) ↔ IsFirst (calendar_with_keys cells df) t d
  IsFirst-iff = (IsFirst-sound, IsFirst-complete)
