-- ===== src/Prelude/Equality.antt =====
-- Python's `==` and `in`, for every type whose equality can be decided.
use Prim.Native.String.{String}
use Prim.Native.Nat.{ℕ}
use mathlib.Core.Path.{◌≡◌, refl, ap}
use mathlib.Core.Logic.{ite, dite, ◌↔◌}
use mathlib.Core.Bool.{Bool, true, false, ◌||◌, ◌&&◌, Bool-discrete}
use mathlib.Core.HLevel.{×_discrete}
use mathlib.Core.Option.{Option}
use mathlib.Core.List.{List, [], ◌∷◌}
use native.Mathlib.Decide.{ℕ_discrete}
use native.Mathlib.Omega.{arith}
use text.Mathlib.Text
use text.Mathlib.TextEquality.{eq_iff}

pub record Eq {ℓ} (A : Type ℓ) : Type ℓ where
  pub dec : Discrete A

module _ {ℓ} {A : Type ℓ} ⦃e : Eq A⦄ where
  infix 50 ◌==◌
  abbrev pub ◌==◌ : A → A → Bool
  a == b = ite (e.dec a b) true false

  abbrev pub contains : List A → A → Bool
  contains [] a = false
  contains (x ∷ xs) a = a == x || contains xs a

  pub ==_iff : (a b : A) → ((a == b) ≡ true) ↔ (a ≡ b)
  ==_iff a b = ground arith

-- Shut in proofs, where a split on `s == t` yields the equation or its negation.
instance unfoldable pub string_eq : Eq String
string_eq = record {
  dec = λ s t.
      dite (Bool-discrete (Text.◌==◌ s t) true) (λ same. yes ((eq_iff s t).0 same))
        (λ differ. no (λ p. differ ((eq_iff s t).1 p)));
}

instance unfoldable pub nat_eq : Eq ℕ
unfolding ℕ_discrete
nat_eq = record { dec = ℕ_discrete }

instance abbrev pub pair_eq {ℓ κ} : {A : Type ℓ} {B : Type κ} ⦃e : Eq A⦄ ⦃f : Eq B⦄ → Eq (A × B)
pair_eq ⦃e⦄ ⦃f⦄ = record { dec = ×_discrete e.dec f.dec }

instance abbrev pub option_eq {ℓ} : {A : Type ℓ} ⦃e : Eq A⦄ → Eq (Option A)
option_eq ⦃e⦄ = record { dec = hlevel (e.dec) }

pub same_truth : (x y : Bool) → (x ≡ true → y ≡ true) → (y ≡ true → x ≡ true) → x ≡ y
same_truth true y f g = ground (arith, f refl)
same_truth false true f g = ground (arith, g refl)
same_truth false false f g = refl

module _ {ℓ κ} {A : Type ℓ} {B : Type κ} ⦃e : Eq A⦄ ⦃f : Eq B⦄ where
  -- Pairs are equal where both parts are.
  pub pair-== :
      (x y : A × B) → ◌==◌ {A = A × B} x y ≡ (◌==◌ {A = A} x.0 y.0 && ◌==◌ {A = B} x.1 y.1)
  pair-== x y =
      same_truth _ _
        (λ h.
          let p : x ≡ y = (==_iff {A = A × B} x y).0 h in
          both ((==_iff {A = A} x.0 y.0).1 (ap (λ z. z.0) p))
            ((==_iff {A = B} x.1 y.1).1 (ap (λ z. z.1) p)))
        (λ h.
          let (l, r) = parts h in
          (==_iff {A = A × B} x y).1
            (pair_path ((==_iff {A = A} x.0 y.0).0 l) ((==_iff {A = B} x.1 y.1).0 r)))
    where
      both : {b c : Bool} → b ≡ true → c ≡ true → (b && c) ≡ true
      both h k = rw (h, k) refl

      parts : {b c : Bool} → (b && c) ≡ true → (b ≡ true) × (c ≡ true)
      parts h = ground arith

      pair_path : x.0 ≡ y.0 → x.1 ≡ y.1 → x ≡ y
      pair_path h k = cc
