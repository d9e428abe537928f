-- ===== src/Prelude/Equality.antt =====
-- Decidable equality as a Boolean test, by instances: Go's `==` on comparable values.
use Prim.Native.Nat.{ℕ}
use mathlib.Core.Path.{◌≡◌, refl}
use mathlib.Core.Logic.{◌↔◌, ◌≢◌}
use mathlib.Core.Bool.{Bool, true, false, ◌&&◌}
use mathlib.Core.List.{List, [], ◌∷◌}
use native.Mathlib.Omega.{arith}
use nineteenseventytwo_platf.Prelude.Tests.{eqb, eqb_iff}

-- What a Go type offers that `==` and map keys may use.
pub record Comparable {ℓ} (T : Type ℓ) : Type ℓ where
  pub same : T → T → Bool
  pub same_iff : (x y : T) → (same x y ≡ true) ↔ (x ≡ y)

module _ {ℓ} {T : Type ℓ} ⦃c : Comparable T⦄ where
  infix 50 ◌==◌
  abbrev pub ◌==◌ : T → T → Bool
  x == y = c.same x y

instance abbrev pub nat_eq : Comparable ℕ
nat_eq = record { same_iff = eqb_iff; same = eqb }

module _ {ℓ} {A : Type ℓ} ⦃e : Comparable A⦄ where
  abbrev pub list_same : List A → List A → Bool
  list_same [] [] = true
  list_same (x ∷ xs) (y ∷ ys) = e.same x y && list_same xs ys
  list_same _ _ = false

  pub list_same_iff : (xs ys : List A) → (list_same xs ys ≡ true) ↔ (xs ≡ ys)
  list_same_iff [] [] = ground arith
  list_same_iff [] (y ∷ ys) = ground arith
  list_same_iff (x ∷ xs) [] = ground arith
  list_same_iff (x ∷ xs) (y ∷ ys) = ground (arith, e.same_iff x y, list_same_iff xs ys)

instance abbrev pub list_eq {ℓ} : {A : Type ℓ} ⦃e : Comparable A⦄ → Comparable (List A)
list_eq ⦃e⦄ = record { same = list_same; same_iff = list_same_iff }

module _ {ℓ κ} {A : Type ℓ} {B : Type κ} ⦃e : Comparable A⦄ ⦃f : Comparable B⦄ where
  abbrev pub pair_same : A × B → A × B → Bool
  pair_same (a, b) (c, d) = e.same a c && f.same b d

  pub pair_same_iff : (p q : A × B) → (pair_same p q ≡ true) ↔ (p ≡ q)
  pair_same_iff (a, b) (c, d) = ground (arith, e.same_iff a c, f.same_iff b d)

instance abbrev pub pair_eq {ℓ κ} :
    {A : Type ℓ} {B : Type κ} ⦃e : Comparable A⦄ ⦃f : Comparable B⦄ → Comparable (A × B)
pair_eq = record { same = pair_same; same_iff = pair_same_iff }

module _ {ℓ} {A : Type ℓ} ⦃e : Comparable A⦄ where
  pub same_refl : (a : A) → (a == a) ≡ true
  same_refl a = (e.same_iff a a).1 refl

  pub same→eq : (a b : A) → (a == b) ≡ true → a ≡ b
  same→eq a b h = (e.same_iff a b).0 h

  pub same-false : (a b : A) → a ≢ b → (a == b) ≡ false
  same-false a b h = ground (arith, e.same_iff a b)

  pub ne_of_same : (a b : A) → (a == b) ≡ false → a ≢ b
  ne_of_same a b h = ground (arith, e.same_iff a b)

  pub same_comm : (a b : A) → (a == b) ≡ (b == a)
  same_comm a b = ground (arith, e.same_iff a b, e.same_iff b a)
