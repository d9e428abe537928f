-- ===== src/Prelude/Lists.antt =====
-- Lists by native numbers and Boolean tests: lengths, membership, filters, predicates.
use Prim.Native.Nat.{ℕ, zero, suc, ◌+◌}
use mathlib.Core.Path.{◌≡◌, refl, subst}
use mathlib.Core.Logic.{◌⊎◌, inl, inr}
use mathlib.Core.Bool.{Bool, true, false, ◌&&◌, ◌||◌}
use mathlib.Core.List.{List, [], ◌∷◌, ◌++◌, map}
use native.Mathlib.Omega.{arith}
use nineteenseventytwo_platf.Prelude.Tests.{if◌then◌else◌, Bool-cases}
use nineteenseventytwo_platf.Prelude.Equality.{Comparable, ◌==◌}

module _ {ℓ} {A : Type ℓ} where
  abbrev pub length : List A → ℕ
  length [] = 0
  length (x ∷ xs) = suc (length xs)

  abbrev pub is_empty : List A → Bool
  is_empty [] = true
  is_empty (x ∷ xs) = false

  -- keep what passes the test, in order
  abbrev pub keep : (A → Bool) → List A → List A
  keep p [] = []
  keep p (x ∷ xs) = if p x then x ∷ keep p xs else keep p xs

  abbrev pub All {κ} : (A → Type κ) → List A → Type κ
  All P [] = Unit
  All P (x ∷ xs) = P x × All P xs

  pub length-append : (xs ys : List A) → length (xs ++ ys) ≡ length xs + length ys
  length-append [] ys = omega arith
  length-append (x ∷ xs) ys = omega (arith, length-append xs ys)

  pub All-append {κ} :
      (Q : A → Type κ) (front back : List A) → All Q front → All Q back → All Q (front ++ back)
  All-append Q (a ∷ rest) back on_front on_back =
      (on_front.0, All-append Q rest back on_front.1 on_back)
  All-append Q [] back on_front on_back = on_back

  pub All-map {κ μ} :
      {P : A → Type κ} {Q : A → Type μ} (f : (a : A) → P a → Q a) (xs : List A)
      → All P xs
      → All Q xs
  All-map f [] h = tt
  All-map f (x ∷ xs) h = (f x h.0, All-map f xs h.1)

  pub keep-append : (p : A → Bool) (xs ys : List A) → keep p (xs ++ ys) ≡ keep p xs ++ keep p ys
  keep-append p [] ys = refl
  keep-append p (x ∷ xs) ys = ground (arith, keep-append p xs ys)

  All-if {κ} :
      (P : A → Type κ) (b : Bool) (x : A) (xs : List A)
      → P x
      → All P xs
      → All P (if b then x ∷ xs else xs)
  All-if P true x xs h k = (h, k)
  All-if P false x xs h k = k

  pub All-keep {κ} : (P : A → Type κ) (p : A → Bool) (xs : List A) → All P xs → All P (keep p xs)
  All-keep P p [] h = tt
  All-keep P p (x ∷ xs) h = All-if P (p x) x (keep p xs) h.0 (All-keep P p xs h.1)

-- one of the elements
abbrev pub Any {ℓ} : {A : Type ℓ} → (A → Type 0) → List A → Type 0
Any P [] = ⊥
Any P (x ∷ xs) = P x ⊎ Any P xs

module _ {ℓ} {A : Type ℓ} ⦃e : Comparable A⦄ where
  abbrev pub contains : A → List A → Bool
  contains a [] = false
  contains a (x ∷ xs) = a == x || contains a xs

  -- no element twice
  abbrev pub Distinct : List A → Type 0
  Distinct [] = Unit
  Distinct (x ∷ xs) = (contains x xs ≡ false) × Distinct xs

  pub contains-append :
      (a : A) (xs ys : List A) → contains a (xs ++ ys) ≡ (contains a xs || contains a ys)
  contains-append a [] ys = refl
  contains-append a (x ∷ xs) ys = ground (arith, contains-append a xs ys)

  pub Distinct-append :
      (a : A) (xs : List A) → Distinct xs → contains a xs ≡ false → Distinct (xs ++ a ∷ [])
  Distinct-append a [] h k = (refl, tt)
  Distinct-append a (x ∷ xs) h k =
      ground
        (arith, contains-append x xs (a ∷ []), Distinct-append a xs, e.same_iff a x, e.same_iff x a)

  pub contains-keep :
      (p : A → Bool) (a : A) (xs : List A) → contains a (keep p xs) ≡ (contains a xs && p a)
  contains-keep p a [] = refl
  contains-keep p a (x ∷ xs) = ground (arith, contains-keep p a xs, e.same_iff a x)

  pub Distinct-keep : (p : A → Bool) (xs : List A) → Distinct xs → Distinct (keep p xs)
  Distinct-keep p [] h = tt
  Distinct-keep p (x ∷ xs) h = ground (arith, contains-keep p x xs, Distinct-keep p xs)

  -- the elements of one list that are among those of another
  pub All-members {κ} :
      (P : A → Type κ) (xs : List A) → ((a : A) → contains a xs ≡ true → P a) → All P xs
  All-members P [] h = tt
  All-members P (x ∷ xs) h =
      (h x (ground (arith, e.same_iff x x)), All-members P xs (λ a c. h a (ground arith)))

  pub All-subset :
      (xs ys : List A)
      → ((a : A) → contains a xs ≡ true → contains a ys ≡ true)
      → All (λ a. contains a ys ≡ true) xs
  All-subset xs ys h = All-members (λ a. contains a ys ≡ true) xs h

  pub All_of_contains {κ} :
      (P : A → Type κ) (a : A) (xs : List A) → All P xs → contains a xs ≡ true → P a
  All_of_contains P a [] h c = cc
  All_of_contains P a (x ∷ xs) h c = elim (Bool-cases (a == x)) [
    | inl same ↦ rw ((e.same_iff a x).0 same) h.0
    | inr other ↦ All_of_contains P a xs h.1 (ground arith)
  ]

module _ {ℓ} {A : Type ℓ} where
  abbrev pub take : ℕ → List A → List A
  take zero xs = []
  take (suc n) [] = []
  take (suc n) (x ∷ xs) = x ∷ take n xs

  abbrev pub drop : ℕ → List A → List A
  drop zero xs = xs
  drop (suc n) [] = []
  drop (suc n) (x ∷ xs) = drop n xs

pub Any-map {ℓ κ} :
    {A : Type ℓ} {B : Type κ} ⦃e : Comparable A⦄ (P : B → Type 0) (f : A → B) (a : A) (xs : List A)
    → contains a xs ≡ true
    → P (f a)
    → Any P (map f xs)
Any-map P f a [] c h = cc
Any-map ⦃e⦄ P f a (x ∷ xs) c h = elim (Bool-cases (a == x)) [
  | inl same ↦ inl (subst (λ y. P (f y)) ((e.same_iff a x).0 same) h)
  | inr other ↦ inr (Any-map P f a xs (ground arith) h)
]

pub Any-imp {ℓ} :
    {A : Type ℓ} {P Q : A → Type 0} (xs : List A) → ((a : A) → P a → Q a) → Any P xs → Any Q xs
Any-imp [] f h = absurd h
Any-imp (x ∷ xs) f (inl h) = inl (f x h)
Any-imp (x ∷ xs) f (inr h) = inr (Any-imp xs f h)
