-- ===== src/Prelude/Results.antt =====
-- Go's `(value, error)` returns.
use mathlib.Core.Path.{◌≡◌, refl}
use mathlib.Core.Logic.{◌⊎◌, inl, inr}
use mathlib.Core.Bool.{Bool, true, false}
use nineteenseventytwo_platf.Prelude.Tests.{if◌then◌else◌}

pub data Result {ℓ κ} (F : Type ℓ) (V : Type κ) : Type (ℓ ⊔ κ) where
  err : F → Result F V
  ok : V → Result F V

-- `if err != nil { return fmt.Errorf("…: %w", err) }`
abbrev pub wrap {ℓ κ μ} : {F : Type ℓ} {G : Type κ} {V : Type μ} → (F → G) → Result F V → Result G V
wrap more (err why) = err (more why)
wrap more (ok got) = ok got

module _ {ℓ κ μ} {F : Type ℓ} {V : Type κ} {W : Type μ} where
  infixl 5 ◌>>=◌
  abbrev pub ◌>>=◌ : Result F V → (V → Result F W) → Result F W
  err why >>= next = err why
  ok got >>= next = next got

  pub bind-ok :
      (r : Result F V) (next : V → Result F W) {w : W}
      → (r >>= next) ≡ ok w
      → (v : V) × (r ≡ ok v) × (next v ≡ ok w)
  bind-ok (err why) next h = cc
  bind-ok (ok got) next h = (got, refl, h)

module _ {ℓ κ} {F : Type ℓ} {V : Type κ} where
  pub Result-cases : (r : Result F V) → ((why : F) × (r ≡ err why)) ⊎ ((got : V) × (r ≡ ok got))
  Result-cases (err why) = inl (why, refl)
  Result-cases (ok got) = inr (got, refl)

  -- a guard with an early return
  pub guard-ok :
      (b : Bool) (why : F) (r : Result F V) {w : V}
      → (if b then err why else r) ≡ ok w
      → (b ≡ false) × (r ≡ ok w)
  guard-ok true why r h = cc
  guard-ok false why r h = (refl, h)

  pub ok_unique : (r : Result F V) {v w : V} → r ≡ ok v → r ≡ ok w → v ≡ w
  ok_unique r h k = cc

module _ {ℓ κ μ} {F : Type ℓ} {G : Type κ} {V : Type μ} where
  pub wrap-ok : (more : F → G) (r : Result F V) {v : V} → wrap more r ≡ ok v → r ≡ ok v
  wrap-ok more (err why) h = cc
  wrap-ok more (ok got) h = cc
