-- ===== src/Prelude/Maps.antt =====
-- Go maps as association lists in some order of iteration, with no key twice.
use mathlib.Core.Path.{◌≡◌, refl, sym, ap, ap₂, ◌∙◌}
use mathlib.Core.Bool.{Bool, true, false, ◌||◌}
use mathlib.Core.List.{List, [], ◌∷◌}
use mathlib.Core.Option.{Option, none, some}
use native.Mathlib.Omega.{arith}
use nineteenseventytwo_platf.Prelude.Tests.{if◌then◌else◌}
use nineteenseventytwo_platf.Prelude.Equality.{Comparable, ◌==◌}
use nineteenseventytwo_platf.Prelude.Lists.{contains, Distinct}

abbrev pub Assoc {ℓ κ} : Type ℓ → Type κ → Type (ℓ ⊔ κ)
Assoc K V = List (K × V)

abbrev pub is_some {ℓ} : {V : Type ℓ} → Option V → Bool
is_some none = false
is_some (some v) = true

module _ {ℓ κ} {K : Type ℓ} {V : Type κ} where
  abbrev pub keys : Assoc K V → List K
  keys [] = []
  keys ((k, v) ∷ m) = k ∷ keys m

module _ {ℓ κ} {K : Type ℓ} {V : Type κ} ⦃e : Comparable K⦄ where
  -- `v, ok := m[k]`
  unfoldable pub lookup : K → Assoc K V → Option V
  lookup k [] = none
  lookup k ((j, v) ∷ m) = if k == j then some v else lookup k m

  -- `m[k] = v`
  unfoldable pub insert : K → V → Assoc K V → Assoc K V
  insert k v [] = (k, v) ∷ []
  insert k v ((j, w) ∷ m) = if k == j then (j, v) ∷ m else (j, w) ∷ insert k v m

  -- `m[k]`, which is the zero value of the element type where the key is missing
  abbrev pub lookup_or : V → K → Assoc K V → V
  lookup_or d k m = elim (lookup k m) [ none ↦ d | some v ↦ v ]

  pub lookup-cons :
      (k j : K) (v : V) (m : Assoc K V)
      → lookup k ((j, v) ∷ m) ≡ (if k == j then some v else lookup k m)
  unfolding lookup
  lookup-cons k j v m = refl

  pub lookup_or-cons :
      (d : V) (k j : K) (v : V) (m : Assoc K V)
      → lookup_or d k ((j, v) ∷ m) ≡ (if k == j then v else lookup_or d k m)
  unfolding lookup
  lookup_or-cons d k j v m = ground arith

  pub lookup_of_absent : (k : K) (m : Assoc K V) → contains k (keys m) ≡ false → lookup k m ≡ none
  unfolding lookup
  lookup_of_absent k [] h = refl
  lookup_of_absent k ((j, v) ∷ m) h = ground (arith, lookup_of_absent k m)

  pub lookup-insert :
      (j k : K) (v : V) (m : Assoc K V)
      → lookup j (insert k v m) ≡ (if j == k then some v else lookup j m)
  unfolding lookup insert
  lookup-insert j k v [] = refl
  lookup-insert j k v ((i, w) ∷ m) =
      ground (arith, e.same_iff j k, e.same_iff k i, e.same_iff j i, lookup-insert j k v m)

  pub contains-keys-insert :
      (j k : K) (v : V) (m : Assoc K V)
      → contains j (keys (insert k v m)) ≡ (contains j (keys m) || j == k)
  unfolding insert
  contains-keys-insert j k v [] = ground arith
  contains-keys-insert j k v ((i, w) ∷ m) =
      ground (arith, e.same_iff j k, e.same_iff k i, e.same_iff j i, contains-keys-insert j k v m)

  pub Distinct-insert :
      (k : K) (v : V) (m : Assoc K V) → Distinct (keys m) → Distinct (keys (insert k v m))
  unfolding insert
  Distinct-insert k v [] h = (refl, tt)
  Distinct-insert k v ((i, w) ∷ m) h =
      ground
        (arith, e.same_iff k i, e.same_iff i k, contains-keys-insert i k v m, Distinct-insert k v m)

  pub contains-keys : (k : K) (m : Assoc K V) → contains k (keys m) ≡ is_some (lookup k m)
  unfolding lookup
  contains-keys k [] = refl
  contains-keys k ((j, v) ∷ m) = ground (arith, contains-keys k m)

  -- two maps of the same entries, in whatever order
  abbrev pub SameMap : Assoc K V → Assoc K V → Type (ℓ ⊔ κ)
  SameMap m n = (k : K) → lookup k m ≡ lookup k n

  pub contains-keys_of_SameMap :
      (m n : Assoc K V) → SameMap m n → (k : K) → contains k (keys m) ≡ contains k (keys n)
  contains-keys_of_SameMap m n h k = contains-keys k m ∙ ap is_some (h k) ∙ sym (contains-keys k n)

  pub lookup_or-same :
      (d : V) (k : K) (m n : Assoc K V) → SameMap m n → lookup_or d k m ≡ lookup_or d k n
  lookup_or-same d k m n h = rw (h k, lookup_or)

  pub lookup_or-insert :
      (d : V) (j k : K) (v : V) (m : Assoc K V)
      → lookup_or d j (insert k v m) ≡ (if j == k then v else lookup_or d j m)
  lookup_or-insert d j k v m = ground (arith, lookup-insert j k v m)

  pub lookup_of_keys :
      (d : V) (k : K) (m : Assoc K V)
      → lookup k m ≡ (if contains k (keys m) then some (lookup_or d k m) else none)
  lookup_of_keys d k m = ground (arith, contains-keys k m)

  pub lookup-same :
      (d : V) (k : K) (m n : Assoc K V)
      → contains k (keys m) ≡ contains k (keys n)
      → lookup_or d k m ≡ lookup_or d k n
      → lookup k m ≡ lookup k n
  lookup-same d k m n h e =
      lookup_of_keys d k m
      ∙ ap₂ (λ b v. if b then some v else none) h e
      ∙ sym (lookup_of_keys d k n)

  pub lookup_or_of_keys :
      (d : V) (k : K) (m : Assoc K V)
      → (if contains k (keys m) then lookup_or d k m else d) ≡ lookup_or d k m
  lookup_or_of_keys d k m = ground (arith, contains-keys k m)
