-- ===== src/Pipeline/Frames/Merged.antt =====
-- Which rows a merge and a replacement hold, for a sort that keeps the rows.
use quant_data_center_cn.Prelude.{
  pair_eq, option_eq, string_eq, nat_eq, ◌≡◌, ◌↔◌, sym, ◌∙◌, ℕ, none, some, List, [], ◌∷◌, ◌++◌,
  if◌then◌else◌, select, or_else, In, Bool-cases, inl, inr,
}
use quant_data_center_cn.Pipeline.Dedupe.{latest-append}
use quant_data_center_cn.Pipeline.KeepLast.{keep_last, In-keep_last}
use quant_data_center_cn.Pipeline.Frames.{
  DailyRow, row_key, merged_rows, merge_daily_frames, is_outside, replace_daily_range,
}
use quant_data_center_cn.Pipeline.Frames.LastOf.{
  last_of, last_of-select_kept, last_of-select_dropped,
}

module _ {V : Type 0} (sort : List (DailyRow V) → List (DailyRow V))
    (sorts : (rows : List (DailyRow V)) (r : DailyRow V) → In r (sort rows) ↔ In r rows) where
  merged_rows_iff :
      (rows : List (DailyRow V)) (r : DailyRow V)
      → In r (merged_rows sort rows) ↔ (last_of (row_key r) rows ≡ some r)
  unfolding merged_rows
  merged_rows_iff [] r = (λ i. elim i [ ], λ e. cc)
  merged_rows_iff (q ∷ rows) r =
      let kept = In-keep_last row_key (q ∷ rows) r in
      (
        λ i. kept.0 ((sorts (keep_last row_key (q ∷ rows)) r).0 i),
        λ e. (sorts (keep_last row_key (q ∷ rows)) r).1 (kept.1 e),
      )

  -- A merge holds a row exactly if the row is the last of its code and date in the fetched rows, or
  -- these have none of its code and date and it is the last in the stored rows.
  pub merge_daily_frames_iff :
      (existing fresh : List (DailyRow V)) (r : DailyRow V)
      → In r (merge_daily_frames sort existing fresh)
        ↔ (or_else (last_of (row_key r) fresh) (last_of (row_key r) existing) ≡ some r)
  unfolding merge_daily_frames
  merge_daily_frames_iff existing fresh r =
      let both = latest-append row_key (row_key r) existing fresh in
      let m = merged_rows_iff (existing ++ fresh) r in (λ i. sym both ∙ m.0 i, λ e. m.1 (both ∙ e))

  -- A replacement holds a row exactly if the row is the last of its code and date in the fetched rows,
  -- or these have none of its code and date, the date is outside the range, and the row is the last in
  -- the stored rows.
  pub replace_daily_range_iff :
      (existing fresh : List (DailyRow V)) (start end : ℕ) (r : DailyRow V)
      → In r (replace_daily_range sort existing fresh start end) ↔ (
          or_else
            (last_of (row_key r) fresh)
            (if is_outside start end r.date then last_of (row_key r) existing else none)
          ≡ some r)
  unfolding replace_daily_range
  replace_daily_range_iff existing fresh start end r =
      let outside = select (λ (q : DailyRow V). is_outside start end q.date) existing in
      let m = merge_daily_frames_iff outside fresh r in
      elim (Bool-cases (is_outside start end r.date)) [
        | inl t ↦ rw (t, sym (last_of-select_kept (is_outside start end) (row_key r) existing t)) m
        | inr f ↦
            rw (f, sym (last_of-select_dropped (is_outside start end) (row_key r) existing f)) m
      ]
