-- ===== src/Baostock/Dispatch/Flushed.antt =====
-- The flush of the records keeps the account of the log, and ends at a number that is not kept.
use quant_data_center_cn.Prelude.{
  ℕ, zero, suc, ◌+◌, ◌≤◌, nat_eq, none, some, List, [], ◌∷◌, ◌++◌, length, get_elem?, ◌≡◌, refl,
  sym, ap, ◌∙◌, arith, Option-cases, inl, inr,
}
use mathlib.Core.List.{append_assoc}
use quant_data_center_cn.Prelude.Dict.{Dict, lookup, remove, lookup-remove_other, length-remove}
use quant_data_center_cn.Baostock.Dispatch.Log.{Turn, get_elem?-lt, first_records-next, Logged}
use quant_data_center_cn.Baostock.Dispatch.{
  Task, ApiFetchRequest, BackgroundTaskResult, Dispatcher, World, flush_rounds,
  flush_ordered_run_records,
}

nothing_kept : {V : Type 0} (d : Dict ℕ V) (n : ℕ) → length d ≤ 0 → lookup n d ≡ none
unfolding lookup
nothing_kept [] n h = refl
nothing_kept (x ∷ d) n h = absurd (omega (arith, h))

module _ {R : Type 0} where
  -- One round of the flush.
  abbrev pub popped : BackgroundTaskResult R → Dispatcher R → Dispatcher R
  popped result d = record d {
    completed_results = remove d.next_record_sequence d.completed_results;
    run_records = d.run_records ++ result.run_records;
    next_record_sequence = suc d.next_record_sequence;
  }

  -- The next records are not there yet.
  abbrev pub IsFlushed : Dispatcher R → Type 0
  IsFlushed d = lookup d.next_record_sequence d.completed_results ≡ none

  flush_rounds-IsFlushed :
      (rounds : ℕ) (d : Dispatcher R)
      → length d.completed_results ≤ rounds
      → IsFlushed (flush_rounds rounds d)
  unfolding flush_rounds
  flush_rounds-IsFlushed zero d h = nothing_kept d.completed_results d.next_record_sequence h
  flush_rounds-IsFlushed (suc rounds) d h =
      elim (Option-cases (lookup d.next_record_sequence d.completed_results)) [
        | inl n ↦ rw (flush_rounds, n) n
        | inr (r, n) ↦
            rw (flush_rounds, n)
              (flush_rounds-IsFlushed rounds (popped r d)
                (omega (arith, h, length-remove d.next_record_sequence r d.completed_results n)))
      ]

  pub flush-IsFlushed : (d : Dispatcher R) → IsFlushed (flush_ordered_run_records d)
  unfolding flush_ordered_run_records
  flush-IsFlushed d = flush_rounds-IsFlushed (length d.completed_results) d (omega arith)

  flush_rounds-pending :
      (rounds : ℕ) (d : Dispatcher R) → (flush_rounds rounds d).pending ≡ d.pending
  unfolding flush_rounds
  flush_rounds-pending zero d = refl
  flush_rounds-pending (suc rounds) d =
      elim (Option-cases (lookup d.next_record_sequence d.completed_results)) [
        | inl n ↦ rw (flush_rounds, n) refl
        | inr (r, n) ↦ rw (flush_rounds, n) (flush_rounds-pending rounds (popped r d))
      ]

  pub flush-pending : (d : Dispatcher R) → (flush_ordered_run_records d).pending ≡ d.pending
  unfolding flush_ordered_run_records
  flush-pending d = flush_rounds-pending (length d.completed_results) d

module _ {R : Type 0} (w : World R) (earlier : List R) (turns : List Turn) (log : List Task) where
  popped-Logged :
      (hand : List ApiFetchRequest) (r : BackgroundTaskResult R) (d : Dispatcher R)
      → Logged w earlier turns log hand d
      → lookup d.next_record_sequence d.completed_results ≡ some r
      → Logged w earlier turns log hand (popped r d)
  popped-Logged hand r d v e = record {
    counted = v.counted;
    distinct = v.distinct;
    in_flight = v.in_flight;
    kept = λ n q h k. v.kept n q (omega (arith, h)) (sym (later n h) ∙ k);
    due = λ n t h k. elim (v.due n t (omega (arith, h)) k) [
      | inl i ↦ inl i
      | inr s ↦ inr (s.0, later n h ∙ s.1)
    ];
    within = get_elem?-lt log d.next_record_sequence task known.1;
    released =
        rw (v.released, known.2)
          (append_assoc earlier _ _
            ∙ sym (
                ap (◌++◌ earlier) (
                  first_records-next w d.next_record_sequence 0 log task known.1
                  ∙ rw zero_add refl)));
    turned = v.turned;
    balance = v.balance;
    waits = v.waits;
  }
    where
      known :
          (task : Task) × (get_elem? log d.next_record_sequence ≡ some task)
          × (r ≡ w.outcome d.next_record_sequence task)
      known = v.kept d.next_record_sequence r (omega arith) e

      task : Task
      task = known.0

      zero_add : 0 + d.next_record_sequence ≡ d.next_record_sequence
      zero_add = omega arith

      later :
          (n : ℕ)
          → suc d.next_record_sequence ≤ n
          → lookup n (remove d.next_record_sequence d.completed_results)
            ≡ lookup n d.completed_results
      later n h =
          lookup-remove_other n d.next_record_sequence d.completed_results
            (λ same. absurd (omega (arith, h, same)))

  flush_rounds-Logged :
      (rounds : ℕ) (hand : List ApiFetchRequest) (d : Dispatcher R)
      → Logged w earlier turns log hand d
      → Logged w earlier turns log hand (flush_rounds rounds d)
  unfolding flush_rounds
  flush_rounds-Logged zero hand d v = v
  flush_rounds-Logged (suc rounds) hand d v =
      elim (Option-cases (lookup d.next_record_sequence d.completed_results)) [
        | inl n ↦ rw (flush_rounds, n) v
        | inr (r, n) ↦
            rw (flush_rounds, n)
              (flush_rounds-Logged rounds hand (popped r d) (popped-Logged hand r d v n))
      ]

  pub flush-Logged :
      (hand : List ApiFetchRequest) (d : Dispatcher R)
      → Logged w earlier turns log hand d
      → Logged w earlier turns log hand (flush_ordered_run_records d)
  unfolding flush_ordered_run_records
  flush-Logged hand d v = flush_rounds-Logged (length d.completed_results) hand d v
