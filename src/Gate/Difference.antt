-- ===== src/Gate/Difference.antt =====
-- `difference`: the pairs of one set that are not in another, sorted by their text.
pub mod Order
use nineteenseventytwo_platf.Prelude.{Bool, not, List, less, contains, keep}
use nineteenseventytwo_platf.Prelude.Sort.{sort}
use nineteenseventytwo_platf.Gate.Types.{Pair, Pair_eq, pair_string}

unfoldable pub pair_less : Pair → Pair → Bool
unfolding less
pair_less p q = less (pair_string p) (pair_string q)

-- The list `a` is in the order in which `range` happens to visit the map.
unfoldable pub difference : List Pair → List Pair → List Pair
unfolding sort pair_less
difference a b = sort pair_less (keep (λ p. not (contains p b)) a)
