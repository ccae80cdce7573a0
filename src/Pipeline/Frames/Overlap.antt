-- ===== src/Pipeline/Frames/Overlap.antt =====
-- When a refetch differs from the stored rows on the days of its window.
use quant_data_center_cn.Prelude.{
  is_some, pair_eq, option_eq, string_eq, nat_eq, ◌≡◌, ◌↔◌, refl, sym, ap, ◌∙◌, ℕ, Option, none,
  some, List, [], ◌∷◌, Bool, true, false, any, not, ◌||◌, select, In, here, there, In-cons_cases,
  Bool-cases, inl, inr,
}
use quant_data_center_cn.Pipeline.KeepLast.{keep_last, In-keep_last}
use quant_data_center_cn.Pipeline.Frames.{
  DailyRow, row_key, at_key, is_inside, daily_window_by_key, values_differ, windows_differ,
  compare_windows, daily_frames_differ_on_overlap,
}
use quant_data_center_cn.Pipeline.Frames.LastOf.{
  last_of, last_of-select_kept, last_of-select_dropped, at_key-keep_last,
}

any-none :
    {A : Type 0} (p : A → Bool) (xs : List A) (x : A) → any p xs ≡ false → In x xs → p x ≡ false
any-none p [] x h i = elim i [ ]
any-none p (y ∷ xs) x h i = elim (Bool-cases (p y)) [
  | inl t ↦ let impossible : true ≡ false = sym (rw t refl) ∙ h in cc
  | inr f ↦ elim (In-cons_cases i) [ inl same ↦ rw same f | inr j ↦ any-none p xs x (rw f at h) j ]
]

none-any :
    {A : Type 0} (p : A → Bool) (xs : List A) → ((x : A) → In x xs → p x ≡ false) → any p xs ≡ false
none-any p [] h = refl
none-any p (x ∷ xs) h = rw (h x here) (none-any p xs (λ y i. h y (there i)))

either-false : (a b : Bool) → a || b ≡ false → (a ≡ false) × (b ≡ false)
either-false true b h = cc
either-false false b h = (refl, h)

module _ {V : Type 0} (same_values : V → V → Bool) where
  -- A row has one of the same key and values among some rows.
  abbrev pub SameIn : List (DailyRow V) → DailyRow V → Type 0
  SameIn rows r =
      (q : DailyRow V) × (last_of (row_key r) rows ≡ some q)
      × (same_values r.values q.values ≡ true)

  compared :
      (stored fresh : List (DailyRow V))
      → compare_windows same_values stored fresh ≡ windows_differ same_values stored fresh
  unfolding compare_windows windows_differ at_key
  compared [] fresh = refl
  compared (r ∷ stored) [] = refl
  compared (r ∷ stored) (q ∷ fresh) = refl

  -- One row of the stored window against the fetched window.
  row-SameIn :
      (r : DailyRow V) (rows : List (DailyRow V)) (found : Option (DailyRow V))
      → last_of (row_key r) rows ≡ found
      → not (is_some found) ≡ false
      → values_differ same_values r found ≡ false
      → SameIn rows r
  row-SameIn r rows none e absent differ = cc
  row-SameIn r rows (some q) e absent differ = elim (Bool-cases (same_values r.values q.values)) [
    | inl t ↦ (q, e, t)
    | inr f ↦ let impossible : true ≡ false = sym (rw f refl) ∙ differ in cc
  ]

  windows_differ_iff :
      (stored rows : List (DailyRow V))
      → (windows_differ same_values stored (keep_last row_key rows) ≡ false)
        ↔ ((r : DailyRow V) → In r stored → SameIn rows r)
  unfolding windows_differ
  windows_differ_iff stored rows = (
    λ h r i.
        let parts = either-false _ _ h in
        let found = at_key-keep_last (row_key r) rows in
        row-SameIn r rows (at_key (row_key r) (keep_last row_key rows)) (sym found)
          (any-none _ stored r parts.0 i) (any-none _ stored r parts.1 i),
    λ h.
        let present =
          none-any (λ (r : DailyRow V). not (is_some (at_key (row_key r) (keep_last row_key rows))))
            stored (λ r i. let q = h r i in rw (at_key-keep_last (row_key r) rows, q.1) refl) in
        let same =
          none-any
            (λ (r : DailyRow V).
              values_differ same_values r (at_key (row_key r) (keep_last row_key rows)))
            stored
            (λ r i. let q = h r i in rw (at_key-keep_last (row_key r) rows, q.1, q.2) refl) in
        rw (present, same) refl,
  )

  -- A row of a window: the last of its key, on a day inside.
  window_row :
      (rows : List (DailyRow V)) (start end : ℕ) (r : DailyRow V)
      → In r (daily_window_by_key rows start end)
        ↔ ((is_inside start end r.date ≡ true) × (last_of (row_key r) rows ≡ some r))
  unfolding daily_window_by_key
  window_row rows start end r =
      let inside = select (λ (q : DailyRow V). is_inside start end q.date) rows in
      (
        λ i.
            let last = (In-keep_last row_key inside r).0 i in
            elim (Bool-cases (is_inside start end r.date)) [
              | inl t ↦
                  (t, sym (last_of-select_kept (is_inside start end) (row_key r) rows t) ∙ last)
              | inr f ↦
                  let gone : none ≡ some r =
                    sym (last_of-select_dropped (is_inside start end) (row_key r) rows f) ∙ last in
                  cc
            ],
        λ h.
            (In-keep_last row_key inside r).1
              (last_of-select_kept (is_inside start end) (row_key r) rows h.0 ∙ h.1),
      )

  -- The overlap does not differ exactly if for each stored row on a day inside the range, the last of its
  -- code and date, the fetched rows have a last row of the same code and date with the same values.
  pub daily_frames_differ_on_overlap_iff :
      (existing fresh : List (DailyRow V)) (start end : ℕ)
      → (daily_frames_differ_on_overlap same_values existing fresh start end ≡ false) ↔ (
          (r : DailyRow V)
          → is_inside start end r.date ≡ true
          → last_of (row_key r) existing ≡ some r
          → SameIn fresh r)
  unfolding daily_frames_differ_on_overlap
  daily_frames_differ_on_overlap_iff existing fresh start end =
      let stored = daily_window_by_key existing start end in
      let fetched = select (λ (q : DailyRow V). is_inside start end q.date) fresh in
      let same_window : daily_window_by_key fresh start end ≡ keep_last row_key fetched =
        unfold daily_window_by_key in refl in
      let w = windows_differ_iff stored fetched in
      let c =
        compared stored (daily_window_by_key fresh start end)
        ∙ ap (windows_differ same_values stored) same_window in
      (
        λ h r t last.
            let s = w.0 (sym c ∙ h) r ((window_row existing start end r).1 (t, last)) in
            (s.0, sym (last_of-select_kept (is_inside start end) (row_key r) fresh t) ∙ s.1, s.2),
        λ h.
            c
            ∙ w.1 (λ r i.
              let at = (window_row existing start end r).0 i in
              let s = h r at.0 at.1 in
              (s.0, last_of-select_kept (is_inside start end) (row_key r) fresh at.0 ∙ s.1, s.2)),
      )
