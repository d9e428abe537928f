-- ===== src/Prelude/Sort.antt =====
-- `sort.Slice` and `sort.Strings`: a permutation in ascending order. Insertion sort stands for the
-- library's pattern-defeating quicksort; the two agree wherever the order has no ties.
pub mod Texts
use mathlib.Core.Path.{◌≡◌, refl, sym, ◌∙◌}
use mathlib.Core.Logic.{inl, inr}
use mathlib.Core.Bool.{Bool, true, false, ◌||◌}
use mathlib.Core.List.{List, [], ◌∷◌, Perm}
use mathlib.Core.List.Perm
use native.Mathlib.Omega.{arith}
use nineteenseventytwo_platf.Prelude.Tests.{if◌then◌else◌, Bool-cases}
use nineteenseventytwo_platf.Prelude.Equality.{Comparable, ◌==◌}
use nineteenseventytwo_platf.Prelude.Lists.{contains, Distinct, All, All-map, All_of_contains}

-- What a `less` function must satisfy for a sort to have a meaning.
pub record IsOrder {ℓ} {A : Type ℓ} (lt : A → A → Bool) : Type ℓ where
  pub asym : (a b : A) → lt a b ≡ true → lt b a ≡ false
  pub trans_not : (a b c : A) → lt b a ≡ false → lt c b ≡ false → lt c a ≡ false

module _ {ℓ} {A : Type ℓ} (lt : A → A → Bool) where
  insert_sorted : A → List A → List A
  insert_sorted x [] = x ∷ []
  insert_sorted x (y ∷ ys) = if lt y x then y ∷ insert_sorted x ys else x ∷ y ∷ ys

  unfoldable pub sort : List A → List A
  unfolding insert_sorted
  sort [] = []
  sort (x ∷ xs) = insert_sorted x (sort xs)

  -- every element is at most all behind it
  abbrev pub IsSorted : List A → Type 0
  IsSorted [] = Unit
  IsSorted (x ∷ xs) = All (λ y. lt y x ≡ false) xs × IsSorted xs

module _ {ℓ} {A : Type ℓ} (lt : A → A → Bool) where
  insert_sorted-perm : (x : A) (xs : List A) → Perm (insert_sorted lt x xs) (x ∷ xs)
  unfolding insert_sorted
  insert_sorted-perm x [] = Perm.refl _
  insert_sorted-perm x (y ∷ ys) = elim (Bool-cases (lt y x)) [
    | inl h ↦ rw h (Perm.trans (Perm.cons y (insert_sorted-perm x ys)) (Perm.swap x y ys))
    | inr h ↦ rw h (Perm.refl _)
  ]

  -- A sort neither loses nor invents an element.
  pub sort-perm : (xs : List A) → Perm (sort lt xs) xs
  unfolding sort
  sort-perm [] = Perm.refl _
  sort-perm (x ∷ xs) = Perm.trans (insert_sorted-perm x (sort lt xs)) (Perm.cons x (sort-perm xs))

  All-insert_sorted {κ} :
      (P : A → Type κ) (x : A) (xs : List A) → P x → All P xs → All P (insert_sorted lt x xs)
  unfolding insert_sorted
  All-insert_sorted P x [] h k = (h, tt)
  All-insert_sorted P x (y ∷ ys) h k = elim (Bool-cases (lt y x)) [
    | inl e ↦ rw e (k.0, All-insert_sorted P x ys h k.1)
    | inr e ↦ rw e (h, k)
  ]

  pub All-sort {κ} : (P : A → Type κ) (xs : List A) → All P xs → All P (sort lt xs)
  unfolding sort
  All-sort P [] h = tt
  All-sort P (x ∷ xs) h = All-insert_sorted P x (sort lt xs) h.0 (All-sort P xs h.1)

module _ {ℓ} {A : Type ℓ} {lt : A → A → Bool} (o : IsOrder lt) where
  below-All :
      (x y : A) (ys : List A)
      → lt y x ≡ false
      → All (λ z. lt z y ≡ false) ys
      → All (λ z. lt z x ≡ false) ys
  below-All x y ys h k = All-map (λ z hz. o.trans_not x y z h hz) ys k

  insert_sorted-IsSorted :
      (x : A) (ys : List A) → IsSorted lt ys → IsSorted lt (insert_sorted lt x ys)
  unfolding insert_sorted
  insert_sorted-IsSorted x [] h = (tt, tt)
  insert_sorted-IsSorted x (y ∷ ys) h = elim (Bool-cases (lt y x)) [
    | inl e ↦ rw e (
      All-insert_sorted lt (λ z. lt z y ≡ false) x ys (o.asym y x e) h.0,
      insert_sorted-IsSorted x ys h.1,
    )
    | inr e ↦ rw e ((e, below-All x y ys e h.0), h)
  ]

  -- A sort leaves its elements in ascending order.
  pub sort-IsSorted : (xs : List A) → IsSorted lt (sort lt xs)
  unfolding sort
  sort-IsSorted [] = tt
  sort-IsSorted (x ∷ xs) = insert_sorted-IsSorted x (sort lt xs) (sort-IsSorted xs)

module _ {ℓ} {A : Type ℓ} ⦃e : Comparable A⦄ (lt : A → A → Bool) where
  contains-insert_sorted :
      (a x : A) (xs : List A) → contains a (insert_sorted lt x xs) ≡ (a == x || contains a xs)
  unfolding insert_sorted
  contains-insert_sorted a x [] = refl
  contains-insert_sorted a x (y ∷ ys) = ground (arith, contains-insert_sorted a x ys)

  pub contains-sort : (a : A) (xs : List A) → contains a (sort lt xs) ≡ contains a xs
  unfolding sort
  contains-sort a [] = refl
  contains-sort a (x ∷ xs) =
      ground (arith, contains-insert_sorted a x (sort lt xs), contains-sort a xs)

  Distinct-insert_sorted :
      (x : A) (xs : List A) → contains x xs ≡ false → Distinct xs → Distinct (insert_sorted lt x xs)
  unfolding insert_sorted
  Distinct-insert_sorted x [] h d = (refl, tt)
  Distinct-insert_sorted x (y ∷ ys) h d = ground (
    arith,
    contains-insert_sorted y x ys,
    Distinct-insert_sorted x ys,
    e.same_iff x y,
    e.same_iff y x,
  )

  pub Distinct-sort : (xs : List A) → Distinct xs → Distinct (sort lt xs)
  unfolding sort
  Distinct-sort [] d = tt
  Distinct-sort (x ∷ xs) d =
      Distinct-insert_sorted x (sort lt xs) (rw contains-sort d.0) (Distinct-sort xs d.1)

  head_least :
      (a x : A) (xs : List A)
      → IsSorted lt (x ∷ xs)
      → lt x x ≡ false
      → contains a (x ∷ xs) ≡ true
      → lt a x ≡ false
  head_least a x xs s r c = All_of_contains (λ z. lt z x ≡ false) a (x ∷ xs) (r, s.0) c

  -- An order that tells the elements of a list apart.
  abbrev pub Separates : List A → Type ℓ
  Separates l =
      (a b : A)
      → contains a l ≡ true
      → contains b l ≡ true
      → lt a b ≡ false
      → lt b a ≡ false
      → a ≡ b

  -- Two ascending lists of the same distinct elements are one list.
  pub IsSorted-unique :
      (xs ys : List A)
      → ((a : A) → lt a a ≡ false)
      → IsSorted lt xs
      → IsSorted lt ys
      → Distinct xs
      → Distinct ys
      → ((a : A) → contains a xs ≡ contains a ys)
      → Separates xs
      → xs ≡ ys
  IsSorted-unique [] [] r s t d f same sep = refl
  IsSorted-unique [] (y ∷ ys) r s t d f same sep = ground (arith, same y, e.same_iff y y)
  IsSorted-unique (x ∷ xs) [] r s t d f same sep = ground (arith, same x, e.same_iff x x)
  IsSorted-unique (x ∷ xs) (y ∷ ys) r s t d f same sep =
      let hx : contains x (x ∷ xs) ≡ true = ground (arith, e.same_iff x x) in
      let hy : contains y (x ∷ xs) ≡ true = ground (arith, same y, e.same_iff y y) in
      let one : x ≡ y =
        sep x y hx hy (head_least x y ys t (r y) (sym (same x) ∙ hx))
          (head_least y x xs s (r x) hy) in
      let rest : xs ≡ ys =
        IsSorted-unique xs ys r s.1 t.1 d.1 f.1
          (λ a. ground (arith, same a, e.same_iff a x, e.same_iff a y))
          (λ a b ha hb. sep a b (ground arith) (ground arith)) in
      cc

  -- Lists of the same distinct elements are sorted alike by an order that tells them apart.
  pub sort-same :
      (xs ys : List A)
      → IsOrder lt
      → ((a : A) → lt a a ≡ false)
      → ((a b : A) → lt a b ≡ false → lt b a ≡ false → a ≡ b)
      → Distinct xs
      → Distinct ys
      → ((a : A) → contains a xs ≡ contains a ys)
      → sort lt xs ≡ sort lt ys
  sort-same xs ys o irrefl antisym d f same =
      IsSorted-unique (sort lt xs) (sort lt ys) irrefl (sort-IsSorted o xs) (sort-IsSorted o ys)
        (Distinct-sort xs d) (Distinct-sort ys f)
        (λ a. contains-sort a xs ∙ same a ∙ sym (contains-sort a ys))
        (λ a b ha hb l m. antisym a b l m)
