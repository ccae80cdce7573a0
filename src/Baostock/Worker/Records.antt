-- ===== src/Baostock/Worker/Records.antt =====
-- Every plan has one record: in the result of the first pass, or in that of the refetch that it asks for.
use quant_data_center_cn.Prelude.{
  ℕ, ◌+◌, String, string_eq, List, [], ◌∷◌, ◌++◌, Bool, if◌then◌else◌, ◌≡◌, refl, subst, arith,
}
use quant_data_center_cn.Pipeline.Rows.{RunRow, run_row, success_rows, failure_rows}
use quant_data_center_cn.Pipeline.Frames.{DailyRow}
use quant_data_center_cn.Baostock.Adjusted.{Bar, FactorRow}
use quant_data_center_cn.Baostock.Worker.{
  Plan, Desk, Tools, Try, gives, raises, Step, ◌>>=◌, or_raise, add_rows, write_bars,
}
use quant_data_center_cn.Baostock.Worker.Daily.{
  write_daily_success, write_daily_failure, write_daily_failures, daily_frame_from_unadjusted,
  write_from_unadjusted, write_or_fail, write_each, write_all,
}

-- How many records, or plans, are of a data set that a test holds for.
abbrev pub count_records : (String → Bool) → List RunRow → ℕ
count_records p [] = 0
count_records p (row ∷ rows) = (if p row.dataset then 1 else 0) + count_records p rows

abbrev pub count_plans : (String → Bool) → List Plan → ℕ
count_plans p [] = 0
count_plans p (plan ∷ plans) = (if p plan.dataset then 1 else 0) + count_plans p plans

pub count-append :
    (p : String → Bool) (xs ys : List RunRow)
    → count_records p (xs ++ ys) ≡ count_records p xs + count_records p ys
count-append p [] ys = omega arith
count-append p (x ∷ xs) ys = omega (arith, count-append p xs ys)

-- Records for plans, one each and in their order.
abbrev pub RecordsOf : List RunRow → List Plan → Type 0
RecordsOf [] [] = Unit
RecordsOf [] (plan ∷ plans) = ⊥
RecordsOf (row ∷ rows) [] = ⊥
RecordsOf (row ∷ rows) (plan ∷ plans) =
    ((row.dataset ≡ plan.dataset) × (row.code ≡ plan.code)) × RecordsOf rows plans

pub RecordsOf-count :
    (p : String → Bool) (rows : List RunRow) (plans : List Plan)
    → RecordsOf rows plans
    → count_records p rows ≡ count_plans p plans
RecordsOf-count p [] [] h = refl
RecordsOf-count p [] (plan ∷ plans) h = elim h [ ]
RecordsOf-count p (row ∷ rows) [] h = elim h [ ]
RecordsOf-count p (row ∷ rows) (plan ∷ plans) h = rw (h.0.0, RecordsOf-count p rows plans h.1) refl

-- A result that a step gives, and the desk with it, if it gives one.
abbrev pub Gives : {P X A : Type 0} → (A → Desk P X → Type 0) → Try P X A → Type 0
Gives Q (gives a e) = Q a e
Gives Q (raises e) = Unit

module _ {P X A B : Type 0} (Q : B → Desk P X → Type 0) (f : A → Step P X B) where
  then-Gives :
      (r : Try P X A)
      → ((a : A) (e : Desk P X) → r ≡ gives a e → Gives Q (f a e))
      → Gives Q (elim r [ gives a e ↦ f a e | raises e ↦ raises e ])
  then-Gives (gives a e) h = h a e refl
  then-Gives (raises e) h = tt

  -- What a chain gives, its last part gives.
  pub bind-Gives :
      (m : Step P X A) (d : Desk P X)
      → ((a : A) (e : Desk P X) → m d ≡ gives a e → Gives Q (f a e))
      → Gives Q ((m >>= f) d)
  bind-Gives m d h = then-Gives (m d) h

module _ {P X : Type 0} (t : Tools P X) where
  abbrev pub IsRecordOf : Plan → RunRow → Type 0
  IsRecordOf plan row = (row.dataset ≡ plan.dataset) × (row.code ≡ plan.code)

  pub failure-IsRecordOf :
      (plan : Plan) (stack : String) (d : Desk P X)
      → IsRecordOf plan (write_daily_failure t plan stack d).0
  unfolding write_daily_failure failure_rows run_row
  failure-IsRecordOf plan stack d = (refl, refl)

  pub success-IsRecordOf :
      (plan : Plan) (start : String) (rows : List (DailyRow (Bar P X))) (d : Desk P X)
      → Gives (λ row z. IsRecordOf plan row) (write_daily_success t plan start rows d)
  unfolding write_daily_success success_rows run_row
  success-IsRecordOf plan start rows d =
      bind-Gives (λ row z. IsRecordOf plan row) _ (write_bars t plan.dataset plan.code rows) d
        (λ a e g.
          bind-Gives (λ row z. IsRecordOf plan row) _ (add_rows t _) e (λ b f h. (refl, refl)))

  pub failures-RecordsOf :
      (plans : List Plan) (stack : String) (d : Desk P X)
      → RecordsOf (write_daily_failures t plans stack d).0 plans
  unfolding write_daily_failures
  failures-RecordsOf [] stack d = tt
  failures-RecordsOf (plan ∷ plans) stack d = (
    failure-IsRecordOf plan stack d,
    failures-RecordsOf plans stack (write_daily_failure t plan stack d).1,
  )

  from_unadjusted-IsRecordOf :
      (plan : Plan) (start : String) (rows : List (DailyRow (Bar P X)))
      (factors : List (FactorRow P)) (d : Desk P X)
      → Gives (λ row z. IsRecordOf plan row) (write_from_unadjusted t plan start rows factors d)
  unfolding write_from_unadjusted
  from_unadjusted-IsRecordOf plan start rows factors d =
      bind-Gives (λ row z. IsRecordOf plan row) (write_daily_success t plan start)
        (or_raise (daily_frame_from_unadjusted t plan.dataset rows factors)) d
        (λ frame e g. success-IsRecordOf plan start frame e)

  or_fail-IsRecordOf :
      (plan : Plan) (start : String) (rows : List (DailyRow (Bar P X)))
      (factors : List (FactorRow P)) (d : Desk P X)
      → IsRecordOf plan (write_or_fail t plan start rows factors d).0
  unfolding write_or_fail
  or_fail-IsRecordOf plan start rows factors d =
      handled (write_from_unadjusted t plan start rows factors d)
        (from_unadjusted-IsRecordOf plan start rows factors d)
    where
      handled :
          (r : Try P X RunRow)
          → Gives (λ row z. IsRecordOf plan row) r
          → IsRecordOf plan
              (elim r as (λ x. RunRow × Desk P X) [
                | gives row e ↦ (row, e)
                | raises e ↦ write_daily_failure t plan (t.traceback e.calls) e
              ]).0
      handled (gives row e) h = h
      handled (raises e) h = failure-IsRecordOf plan (t.traceback e.calls) e

  pub each-RecordsOf :
      (plans : List Plan) (start : String) (rows : List (DailyRow (Bar P X)))
      (factors : List (FactorRow P)) (d : Desk P X)
      → RecordsOf (write_each t plans start rows factors d).0 plans
  unfolding write_each
  each-RecordsOf [] start rows factors d = tt
  each-RecordsOf (plan ∷ plans) start rows factors d = (
    or_fail-IsRecordOf plan start rows factors d,
    each-RecordsOf plans start rows factors (write_or_fail t plan start rows factors d).1,
  )

  pub all-RecordsOf :
      (plans : List Plan) (rows : List (DailyRow (Bar P X))) (factors : List (FactorRow P))
      (d : Desk P X)
      → Gives (λ made z. RecordsOf made plans) (write_all t plans rows factors d)
  unfolding write_all
  all-RecordsOf [] rows factors d = tt
  all-RecordsOf (plan ∷ plans) rows factors d =
      bind-Gives (λ made z. RecordsOf made (plan ∷ plans)) _
        (write_from_unadjusted t plan _ rows factors) d
        (λ row e g.
          bind-Gives (λ made z. RecordsOf made (plan ∷ plans)) _ (write_all t plans rows factors) e
            (λ more f h. (
              subst (Gives (λ row z. IsRecordOf plan row)) g
                  (from_unadjusted-IsRecordOf plan _ rows factors d),
              subst (Gives (λ made z. RecordsOf made plans)) h (all-RecordsOf plans rows factors e),
            )))
