-- ===== src/Gate/Difference/Order.antt =====
-- What `difference` of images/kubescape-gate/main.go returns, whatever order the map is visited in.
use nineteenseventytwo_platf.Prelude.{
  ◌≡◌, ◌∙◌, false, not, ◌&&◌, List, [], ◌∷◌, ◌++◌, Bytes, arith, contains, Distinct, keep,
  contains-keep, Distinct-keep, All, All_of_contains, less_irrefl, less_asym, less_trans_not,
  less_antisym,
}
use nineteenseventytwo_platf.Prelude.Sort.{
  IsOrder, IsSorted, sort-IsSorted, contains-sort, Distinct-sort, Separates, IsSorted-unique,
}
use nineteenseventytwo_platf.Text.Parts.{Lacks}
use nineteenseventytwo_platf.Gate.Types.{Pair, Pair_eq, pair_string}
use nineteenseventytwo_platf.Gate.Difference.{pair_less, difference}

pair_less-IsOrder : IsOrder pair_less
unfolding pair_less
pair_less-IsOrder = record {
  asym = λ a b. less_asym (pair_string a) (pair_string b);
  trans_not = λ a b c. less_trans_not (pair_string a) (pair_string b) (pair_string c);
}

pub contains-difference :
    (p : Pair) (a b : List Pair)
    → contains p (difference a b) ≡ (contains p a && not (contains p b))
unfolding difference
contains-difference p a b =
    contains-sort pair_less p (keep (λ q. not (contains q b)) a)
    ∙ contains-keep (λ q. not (contains q b)) p a

pub difference-Distinct : (a b : List Pair) → Distinct a → Distinct (difference a b)
unfolding difference
difference-Distinct a b d = Distinct-sort pair_less _ (Distinct-keep (λ q. not (contains q b)) a d)

pub difference-IsSorted : (a b : List Pair) → IsSorted pair_less (difference a b)
unfolding difference
difference-IsSorted a b = sort-IsSorted pair_less-IsOrder (keep (λ q. not (contains q b)) a)

-- Of a set `a` without repetitions, `difference a b` holds exactly the pairs of `a` that are not in
-- `b`, each once, and in ascending order of their texts.
pub difference_lem :
    (a b : List Pair)
    → Distinct a
    → ((p : Pair) → contains p (difference a b) ≡ (contains p a && not (contains p b)))
      × Distinct (difference a b)
      × IsSorted pair_less (difference a b)
difference_lem a b d =
    (λ p. contains-difference p a b, difference-Distinct a b d, difference-IsSorted a b)

-- a control ID is what stands before the first space of the pair's text
cut_at_space :
    (c d r s : Bytes)
    → Lacks b' ' c
    → Lacks b' ' d
    → c ++ b' ' ∷ r ≡ d ++ b' ' ∷ s
    → (c ≡ d) × (r ≡ s)
cut_at_space [] [] r s h k e = ground arith
cut_at_space [] (y ∷ d) r s h k e = ground arith
cut_at_space (x ∷ c) [] r s h k e = ground arith
cut_at_space (x ∷ c) (y ∷ d) r s h k e = ground (arith, cut_at_space c d r s)

-- no control ID of the set has a space in it
abbrev pub SpaceFree : List Pair → Type 0
SpaceFree = All (λ p. Lacks b' ' p.control)

SpaceFree-Separates : (a : List Pair) → SpaceFree a → Separates pair_less a
unfolding pair_less
SpaceFree-Separates a f p q hp hq h k =
    let (c, r) =
      cut_at_space p.control q.control p.resource q.resource
        (All_of_contains (λ x. Lacks b' ' x.control) p a f hp)
        (All_of_contains (λ x. Lacks b' ' x.control) q a f hq)
        (less_antisym (pair_string p) (pair_string q) h k) in
    λ i. record { control = c i; resource = r i }

-- If no control ID has a space in it, the result does not depend on the order in which the maps are
-- visited: sets with the same pairs have the same difference, as a list.
pub difference_order :
    (a a' b b' : List Pair)
    → Distinct a
    → Distinct a'
    → SpaceFree a
    → ((p : Pair) → contains p a ≡ contains p a')
    → ((p : Pair) → contains p b ≡ contains p b')
    → difference a b ≡ difference a' b'
difference_order a a' b b' d d' f same same' =
    IsSorted-unique pair_less (difference a b) (difference a' b') pair_less_irrefl
      (difference-IsSorted a b) (difference-IsSorted a' b') (difference-Distinct a b d)
      (difference-Distinct a' b' d')
      (λ p. ground (arith, contains-difference p a b, contains-difference p a' b', same p, same' p))
      (λ p q hp hq.
        SpaceFree-Separates a f p q (ground (arith, contains-difference p a b))
          (ground (arith, contains-difference q a b)))
  where
    pair_less_irrefl : (p : Pair) → pair_less p p ≡ false
    pair_less_irrefl p = unfold pair_less in less_irrefl (pair_string p)
