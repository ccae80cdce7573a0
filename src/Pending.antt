-- ===== src/Pending.antt =====
-- src/sources/akshare/pipeline/capital_structure_pending.py: the queue of the capital structures that
-- are to be fetched again. The queue is the rows of its file; a file that is missing or unreadable is
-- the empty queue. Each function takes the rows that it reads and returns those that it writes, under
-- the module's lock. Times are milliseconds.
pub mod Enqueued
pub mod Drained
use Prim.Native.Char.{code}
use quant_data_center_cn.Prelude.{
  ℕ, zero, suc, String, Option, none, some, List, [], ◌∷◌, ◌++◌, Bool, true, false, ◌&&◌, ◌||◌,
  if◌then◌else◌, ◌==◌, string_eq, eqb, any, Result, ok, err,
}
use quant_data_center_cn.Prelude.Text.{strip}

pub record PendingRow : Type 0 where
  pub code : String
  pub trigger_dataset : String
  pub trigger_reason : String
  pub triggered_at : Option ℕ
  pub status : String
  pub last_attempt_at : Option ℕ
  pub error_stack : String

-- RETRYABLE_STATUSES
unfoldable pub is_retryable : PendingRow → Bool
is_retryable r = r.status == "pending" || r.status == "failed_retryable"

-- `value.split(".", 1)[1]` where there is a full stop, else the text.
unfoldable pub after_stop : String → Option String
after_stop String.[] = none
after_stop (String.◌∷◌ c s) = let rest = after_stop s in if eqb (code c) 46 then some s else rest

unfoldable pub without_exchange : String → String
unfolding after_stop
without_exchange s = elim (after_stop s) [ none ↦ s | some rest ↦ rest ]

-- `^\d{6}$`, matched as a whole; `is_decimal` is Python's table of the decimal digits.
unfoldable pub all_digits : (ℕ → Bool) → ℕ → String → Bool
all_digits is_decimal zero String.[] = true
all_digits is_decimal (suc n) String.[] = false
all_digits is_decimal zero (String.◌∷◌ c s) = false
all_digits is_decimal (suc n) (String.◌∷◌ c s) = is_decimal (code c) && all_digits is_decimal n s

pub data CodeError : Type 0 where
  not_six_digits : String → CodeError

-- `normalize_akshare_code` of src/sources/akshare/core/symbols.py, on a text
unfoldable pub normalize_akshare_code : (ℕ → Bool) → String → Result CodeError String
unfolding all_digits
normalize_akshare_code is_decimal s =
    if all_digits is_decimal 6 (strip s) then ok (strip s) else err (not_six_digits (strip s))

-- `_normalize_trigger_code`
unfoldable pub normalize_trigger_code : (ℕ → Bool) → String → Result CodeError String
unfolding without_exchange normalize_akshare_code
normalize_trigger_code is_decimal code =
    normalize_akshare_code is_decimal (without_exchange (strip code))

-- The row that a trigger writes.
unfoldable pub triggered : String → String → String → ℕ → PendingRow
triggered code trigger_dataset trigger_reason now = record {
  code = code;
  trigger_dataset = trigger_dataset;
  trigger_reason = trigger_reason;
  triggered_at = some now;
  status = "pending";
  last_attempt_at = none;
  error_stack = "";
}

-- `active_mask`
unfoldable pub is_active : String → PendingRow → Bool
unfolding is_retryable
is_active code r = r.code == code && is_retryable r

-- `current.loc[active_mask, list(row)] = list(row.values())`
unfoldable pub replace_active : PendingRow → List PendingRow → List PendingRow
replace_active row [] = []
replace_active row (r ∷ rows) = (if is_active row.code r then row else r) ∷ replace_active row rows

unfoldable pub enqueue_row : PendingRow → List PendingRow → List PendingRow
enqueue_row row current =
    if any (is_active row.code) current then replace_active row current else current ++ (row ∷ [])

-- `enqueue_capital_structure_pending`
unfoldable pub enqueue_capital_structure_pending :
    (ℕ → Bool) → String → String → String → ℕ → List PendingRow → Result CodeError (List PendingRow)
enqueue_capital_structure_pending is_decimal code trigger_dataset trigger_reason now current =
    elim (normalize_trigger_code is_decimal code) [
      | err e ↦ err e
      | ok stock_code ↦
          ok (enqueue_row (triggered stock_code trigger_dataset trigger_reason now) current)
    ]

-- A record of the updater: its status, and the rest of it.
pub record UpdateRecord : Type 0 where
  pub status : String
  pub detail : String

-- The updater returns records or raises, with a text for the traceback.
pub data Update : Type 0 where
  returned : List UpdateRecord → Update
  raised : String → Update

unfoldable pub has_failed : List UpdateRecord → Bool
has_failed = any (λ (r : UpdateRecord). r.status == "failed")

abbrev success_row : ℕ → PendingRow → PendingRow
success_row now r = record r { status = "success"; error_stack = ""; last_attempt_at = some now }

abbrev failed_row : ℕ → String → PendingRow → PendingRow
failed_row now trace r = record r {
  status = "failed_retryable";
  error_stack = trace;
  last_attempt_at = some now;
}

-- The `try` of the loop and what follows it, with the records that it adds. `trace` is the text of the
-- RuntimeError for records of which one has failed.
unfoldable pub attempt_row :
    (List UpdateRecord → String) → ℕ → Update → PendingRow → PendingRow × List UpdateRecord
attempt_row trace now (returned records) r =
    if has_failed records
    then (failed_row now (trace records) r, [])
    else (success_row now r, records)
attempt_row trace now (raised text) r = (failed_row now text r, [])

module _ (updater : ℕ → String → Update) (trace : List UpdateRecord → String) (now : ℕ) where
  -- The loop over the rows; the number counts the calls of the updater.
  unfoldable pub drain_rows : ℕ → List PendingRow → List PendingRow × List UpdateRecord
  drain_rows n [] = ([], [])
  drain_rows n (r ∷ rows) = elim (is_retryable r) [
    | false ↦ let (rest, records) = drain_rows n rows in (r ∷ rest, records)
    | true ↦
        let (r', first) = attempt_row trace now (updater n r.code) r in
        let (rest, records) = drain_rows (suc n) rows in (r' ∷ rest, first ++ records)
  ]

  -- `drain_capital_structure_pending`; an empty queue is not written.
  unfoldable pub drain_capital_structure_pending :
      List PendingRow → Option (List PendingRow) × List UpdateRecord
  unfolding drain_rows
  drain_capital_structure_pending [] = (none, [])
  drain_capital_structure_pending (r ∷ rows) =
      let (written, records) = drain_rows 0 (r ∷ rows) in (some written, records)
