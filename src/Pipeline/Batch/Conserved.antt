-- ===== src/Pipeline/Batch/Conserved.antt =====
-- No row of a batch is lost, repeated or overtaken, however the threads interleave.
use mathlib.Core.List.{append_assoc, append-nil}
use quant_data_center_cn.Prelude.{
  ◌≡◌, refl, sym, ap, ◌∙◌, String, Option, none, some, string_eq, pair_eq, eqb, Bool-cases, inl,
  inr, subst,
}
use quant_data_center_cn.Pipeline.Dedupe.{dedupe_rows-latest, latest, latest-append}
use quant_data_center_cn.Pipeline.Batch.{
  Rows, no_rows, joined, Batch, Added, rows_of, append, status_key, checkpoint_key, CheckpointKey,
  taken, take, put_back, Shared, Step, adds, takes, stores, raises, Reached, start, then_step,
  pending_count, nothing,
}

-- The same run rows in the same order, and for each key the same last status row and the same last
-- checkpoint.
pub record SameRows (a b : Rows) : Type 0 where
  pub runs : a.run_rows ≡ b.run_rows
  pub statuses :
      (k : String × String) → latest status_key k a.status_rows ≡ latest status_key k b.status_rows
  pub checkpoints :
      (k : CheckpointKey)
      → latest checkpoint_key k a.checkpoint_rows ≡ latest checkpoint_key k b.checkpoint_rows

abbrev written : Option Rows → Rows
written none = no_rows
written (some r) = r

-- All that the store took, then the rows that a flush is writing, then the batch's.
abbrev pub held : Shared → Rows
held s = joined s.stored (joined (written s.writing) s.batch.rows)

SameRows-refl : (a : Rows) → SameRows a a
SameRows-refl a = record { runs = refl; statuses = λ k. refl; checkpoints = λ k. refl }

SameRows-trans : {a b c : Rows} → SameRows a b → SameRows b c → SameRows a c
SameRows-trans p q = record {
  runs = p.runs ∙ q.runs;
  statuses = λ k. p.statuses k ∙ q.statuses k;
  checkpoints = λ k. p.checkpoints k ∙ q.checkpoints k;
}

SameRows-joined :
    {a b c d : Rows} → SameRows a b → SameRows c d → SameRows (joined a c) (joined b d)
SameRows-joined {a} {b} {c} {d} p q = record {
  runs = rw (p.runs, q.runs) refl;
  statuses = λ k.
      rw
        (
          latest-append status_key k a.status_rows c.status_rows,
          latest-append status_key k b.status_rows d.status_rows,
          p.statuses k,
          q.statuses k,
        )
        refl;
  checkpoints = λ k.
      rw
        (
          latest-append checkpoint_key k a.checkpoint_rows c.checkpoint_rows,
          latest-append checkpoint_key k b.checkpoint_rows d.checkpoint_rows,
          p.checkpoints k,
          q.checkpoints k,
        )
        refl;
}

joined_assoc : (a b c : Rows) → joined (joined a b) c ≡ joined a (joined b c)
joined_assoc a b c =
    rw
      (
        append_assoc a.run_rows b.run_rows c.run_rows,
        append_assoc a.status_rows b.status_rows c.status_rows,
        append_assoc a.checkpoint_rows b.checkpoint_rows c.checkpoint_rows,
      )
      refl

joined_nil : (a : Rows) → joined a no_rows ≡ a
joined_nil a =
    rw (append-nil a.run_rows, append-nil a.status_rows, append-nil a.checkpoint_rows) refl

SameRows-taken : (r : Rows) → SameRows (taken r) r
unfolding taken
SameRows-taken r = record {
  runs = refl;
  statuses = (dedupe_rows-latest status_key r.status_rows).1;
  checkpoints = (dedupe_rows-latest checkpoint_key r.checkpoint_rows).1;
}

take-taken :
    (b c : Batch) (r : Rows)
    → take b ≡ some (r, c)
    → (r ≡ taken b.rows) × (c ≡ record b { rows = no_rows })
unfolding take
take-taken b c r h = elim (Bool-cases (eqb (pending_count b) 0)) [
  | inl t ↦ let k : ◌≡◌ {A = Option (Rows × Batch)} none (some (r, c)) = sym (rw t refl) ∙ h in cc
  | inr t ↦
      let k : ◌≡◌ {A = Option (Rows × Batch)} (some (taken b.rows, record b { rows = no_rows }))
          (some (r, c)) =
        sym (rw t refl) ∙ h in
      (cc, cc)
]

SameRows-eq : {a b : Rows} → a ≡ b → SameRows a b
SameRows-eq {a} e = subst (SameRows a) e (SameRows-refl a)

SameRows-nothing : {a b : Rows} → SameRows a b → SameRows a (joined b (rows_of nothing))
SameRows-nothing {a} {b} h = SameRows-trans h (SameRows-eq (sym (joined_nil b)))

-- A step holds what was held before it, and the rows that it added behind them.
held-Step :
    {s t : Shared} {a : Added} → Step s a t → SameRows (held t) (joined (held s) (rows_of a))
unfolding append put_back
held-Step (adds s a) =
    let S = s.stored in
    let W = written s.writing in
    let B = s.batch.rows in
    SameRows-eq (
      ap (joined S) (sym (joined_assoc W B (rows_of a)))
      ∙ sym (joined_assoc S (joined W B) (rows_of a)))
held-Step (takes s r b idle h) =
    let k = take-taken s.batch b r h in
    let took : joined r b.rows ≡ taken s.batch.rows =
      rw (k.0, k.1) (joined_nil (taken s.batch.rows)) in
    let before : s.batch.rows ≡ joined (written s.writing) s.batch.rows =
      ap (λ o. joined (written o) s.batch.rows) (sym idle) in
    SameRows-nothing (
      SameRows-joined (SameRows-refl s.stored) (
        SameRows-trans (SameRows-eq took)
          (SameRows-trans (SameRows-taken s.batch.rows) (SameRows-eq before))))
held-Step (stores s r h) = SameRows-nothing (
    SameRows-eq (
      joined_assoc s.stored r s.batch.rows
      ∙ ap (λ o. joined s.stored (joined (written o) s.batch.rows)) (sym h)))
held-Step (raises s r h) =
    SameRows-nothing
      (SameRows-eq (ap (λ o. joined s.stored (joined (written o) s.batch.rows)) (sym h)))

-- However the threads interleave and whichever writes the store refuses, the run rows that the
-- store took, then those of the flush under way, then those of the batch are all the run rows that
-- were added, in that order; and the last status row and the last checkpoint of each key are the
-- last ones added.
pub Reached-SameRows :
    (b : Batch) (all : Rows) (s : Shared) → Reached b all s → SameRows (held s) all
Reached-SameRows b all s start = SameRows-refl no_rows
Reached-SameRows b all s (then_step r step) =
    SameRows-trans (held-Step step) (SameRows-joined (Reached-SameRows b _ _ r) (SameRows-refl _))
