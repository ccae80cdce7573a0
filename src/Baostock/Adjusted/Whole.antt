-- ===== src/Baostock/Adjusted/Whole.antt =====
-- The whole calculation: each row in its place, by the factor of its own code and date.
use quant_data_center_cn.Prelude.{
  ℕ, String, string_eq, Option, none, some, List, [], ◌∷◌, if◌then◌else◌, ◌==◌, map, ◌≡◌,
}
use quant_data_center_cn.Prelude.SortBy.{SortOf}
use quant_data_center_cn.Pipeline.Frames.{DailyRow}
use quant_data_center_cn.Baostock.Adjusted.{
  FactorColumn, Bar, FactorRow, Factor, factor_values, Work, match_date, assign_group, of_code,
  group_turns, scaled, flagged, group_codes,
}
use quant_data_center_cn.Baostock.Adjusted.Latest.{date_of, Effective}

-- Two lists of the same length, item by item.
abbrev pub Pairs : {A B : Type 0} → (A → B → Type 0) → List A → List B → Type 0
Pairs R [] [] = Unit
Pairs R [] (y ∷ ys) = ⊥
Pairs R (x ∷ xs) [] = ⊥
Pairs R (x ∷ xs) (y ∷ ys) = R x y × Pairs R xs ys

module _ {P : Type 0} (sort : List (Factor P) → List (Factor P)) (one : P) where
  -- The factor of a row whose own group has its turn.
  abbrev own_of : List (Factor P) → Option ℕ → P → P
  own_of [] date old = old
  own_of (first ∷ rest) date old = match_date one (sort (first ∷ rest)) date old

  abbrev own : List (Factor P) → String → Option ℕ → P → P
  own factors code = own_of (of_code code factors)

module _ {P X : Type 0} (sort : List (Factor P) → List (Factor P)) (one : P)
    (factors : List (Factor P)) where
  step : String → DailyRow (Bar P X) → P → P
  step code row old = if row.code == code then own sort one factors code row.date old else old

  final : List String → DailyRow (Bar P X) → P → P
  final [] row old = old
  final (code ∷ codes) row old = final codes row (step code row old)

  abbrev stepped : String → Work P X → Work P X
  stepped code x = (x.0, step code x.0 x.1)

  abbrev finished : List String → Work P X → Work P X
  finished codes x = (x.0, final codes x.0 x.1)

  turn_of : List (Factor P) → String → List (Work P X) → List (Work P X)
  turn_of fs code work = elim fs [
    | [] ↦ work
    | first ∷ rest ↦ assign_group one (sort (first ∷ rest)) code work
  ]

  abbrev own_value : DailyRow (Bar P X) → P
  own_value row = own sort one factors row.code row.date one

module _ {P X : Type 0} (sort : List (Factor P) → List (Factor P))
    (sorts : (fs : List (Factor P)) → SortOf date_of fs (sort fs)) (times : P → P → P)
    (one : P) where
  -- An adjusted row is the row with the flag, its prices multiplied by the factor in force.
  abbrev pub IsAdjusted :
      List (Factor P) → String → DailyRow (Bar P X) → DailyRow (Bar P X) → Type 0
  IsAdjusted factors flag row out =
      (p : P) × Effective one factors row.code row.date p
      × (out ≡ scaled times (flagged flag row, p))

  abbrev by_column :
      List (DailyRow (Bar P X))
      → List (FactorRow P)
      → String
      → Option FactorColumn
      → Option (List (DailyRow (Bar P X)))
  by_column unadjusted rows flag found = elim found [
    | none ↦ none
    | some column ↦
        let result = map (flagged flag) unadjusted in
        some (
          map (scaled times) (
            group_turns sort one (factor_values column rows) (group_codes result)
              (map (λ row. (row, one)) result)))
  ]
