-- ===== src/Pipeline/Batch/Bound.antt =====
-- How many rows a batch keeps back.
use quant_data_center_cn.Prelude.{
  ◌≤◌, ◌<◌, ◌≡◌, refl, sym, ◌∙◌, Bool, true, false, Bool-cases, inl, inr, leb→le, leb-false→lt,
  arith, eqb, some, string_eq,
}
use quant_data_center_cn.Pipeline.Batch.{
  Rows, no_rows, joined, Batch, Added, append, pending_count, should_flush, taken, take,
  flush_alone, add_alone, run, checkpoint, CountBy,
}

pending_count-none : (b : Batch) → pending_count (record b { rows = no_rows }) ≡ 0
unfolding pending_count
pending_count-none b = counted b.count_by
  where
    counted : (by : CountBy) → pending_count (record b { count_by = by; rows = no_rows }) ≡ 0
    counted run = refl
    counted checkpoint = refl

take-some :
    (b : Batch) → 0 < pending_count b → take b ≡ some (taken b.rows, record b { rows = no_rows })
unfolding take
take-some b some_rows = let t : eqb (pending_count b) 0 ≡ false = ground arith in rw t refl

flush_alone-works :
    (b : Batch) (stored : Rows)
    → 0 < pending_count b
    → flush_alone true b stored ≡ (false, record b { rows = no_rows }, joined stored (taken b.rows))
unfolding flush_alone
flush_alone-works b stored some_rows = rw (flush_alone, take-some b some_rows) refl

flush_alone-raises :
    (b : Batch) (stored : Rows) → 0 < pending_count b → (flush_alone false b stored).0 ≡ true
unfolding flush_alone
flush_alone-raises b stored some_rows = rw (flush_alone, take-some b some_rows) refl

-- A flush of a batch with rows to count leaves none, unless it raises.
flush_alone_empties :
    (works : Bool) (b : Batch) (stored : Rows)
    → 0 < pending_count b
    → (flush_alone works b stored).0 ≡ false
    → pending_count (flush_alone works b stored).1 ≡ 0
flush_alone_empties true b stored some_rows h =
    rw (flush_alone-works b stored some_rows) (pending_count-none b)
flush_alone_empties false b stored some_rows h =
    let k : true ≡ false = sym (flush_alone-raises b stored some_rows) ∙ h in cc

due_lem : (b : Batch) → should_flush b ≡ true → b.flush_size ≤ pending_count b
unfolding should_flush
due_lem b t = leb→le _ _ t

not_due_lem : (b : Batch) → should_flush b ≡ false → pending_count b < b.flush_size
unfolding should_flush
not_due_lem b t = leb-false→lt _ _ t

-- A call of `add`, with no other thread, that does not raise leaves fewer rows to count than the
-- flush size, in a batch whose flush size is not 0.
pub add_alone-lt :
    (works : Bool) (a : Added) (b : Batch) (stored : Rows)
    → 0 < b.flush_size
    → (add_alone works a b stored).0 ≡ false
    → pending_count (add_alone works a b stored).1 < b.flush_size
unfolding add_alone append
add_alone-lt works a b stored size h = elim (Bool-cases (should_flush (append b a))) [
  | inl t ↦
      let due = due_lem (append b a) t in
      let none_left = flush_alone_empties works (append b a) stored (omega arith) (rw t at h) in
      rw (t, none_left) size
  | inr t ↦ rw t (not_due_lem (append b a) t)
]
