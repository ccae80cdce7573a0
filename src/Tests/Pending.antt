-- ===== src/Tests/Pending.antt =====
-- Tests of the pending queue: 600000 waits twice, and 000001 was done.
use quant_data_center_cn.Prelude.{
  ℕ, ◌≡◌, refl, String, List, [], ◌∷◌, Bool, true, false, All, leb, ◌&&◌, ok, string_eq,
}
use quant_data_center_cn.Prelude.Text.{strip}
use quant_data_center_cn.Pending.{
  PendingRow, is_retryable, is_active, triggered, enqueue_row, replace_active,
  enqueue_capital_structure_pending, normalize_trigger_code, normalize_akshare_code,
  without_exchange, after_stop, all_digits, Update, returned, raised, UpdateRecord, has_failed,
}
use quant_data_center_cn.Pending.Enqueued.{Enqueued, enqueue-Enqueued}
use quant_data_center_cn.Pending.Drained.{AllSettled, queue_after, drain-AllSettled, drain_finishes}

ascii_digit : ℕ → Bool
ascii_digit c = leb 48 c && leb c 57

abbrev waiting : String → String → PendingRow
waiting code status = record (triggered code "factor" "changed" 1) { status = status }

abbrev queue : List PendingRow
queue =
    waiting "600000" "failed_retryable"
    ∷ waiting "000001" "success"
    ∷ waiting "600000" "pending"
    ∷ []

abbrev new_row : PendingRow
new_row = triggered "600000" "factor" "changed again" 5

abbrev queue_then : List PendingRow
queue_then = new_row ∷ waiting "000001" "success" ∷ new_row ∷ []

both_rows_are_new :
    enqueue_capital_structure_pending ascii_digit "sh.600000" "factor" "changed again" 5 queue
    ≡ ok queue_then
unfolding enqueue_capital_structure_pending normalize_trigger_code normalize_akshare_code
    without_exchange after_stop all_digits ascii_digit strip enqueue_row replace_active is_active
    is_retryable triggered string_eq
both_rows_are_new = refl

enqueue-Enqueued_example :
    (stock_code : String) × (normalize_trigger_code ascii_digit "sh.600000" ≡ ok stock_code)
    × (all_digits ascii_digit 6 stock_code ≡ true)
    × Enqueued (triggered stock_code "factor" "changed again" 5) queue queue_then
enqueue-Enqueued_example =
    enqueue-Enqueued ascii_digit "sh.600000" "factor" "changed again" 5 queue queue_then
      both_rows_are_new

no_connection : ℕ → String → Update
no_connection n code = raised "no connection"

abbrev one_record : List UpdateRecord
one_record = record { status = "success"; detail = "rows" } ∷ []

works : ℕ → String → Update
works n code = returned one_record

drain-AllSettled_example : AllSettled 9 queue (queue_after no_connection (λ r. "") 9 queue)
drain-AllSettled_example = drain-AllSettled no_connection (λ r. "") 9 queue

drain_finishes_example :
    All (λ (r : PendingRow). is_retryable r ≡ false) (queue_after works (λ r. "") 9 queue)
unfolding works
drain_finishes_example =
    drain_finishes works (λ r. "") 9
      (λ n code. (one_record, refl, unfold has_failed string_eq in refl)) queue
