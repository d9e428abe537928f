-- ===== src/Prelude/Sort/Texts.antt =====
-- Texts in ascending order: the sorted list is fixed by the texts that it holds.
use mathlib.Core.Path.{◌≡◌}
use mathlib.Core.List.{List}
use nineteenseventytwo_platf.Prelude.Equality.{nat_eq, list_eq}
use nineteenseventytwo_platf.Prelude.Lists.{contains, Distinct}
use nineteenseventytwo_platf.Prelude.ByteText.{
  Bytes, less, less_irrefl, less_asym, less_trans_not, less_antisym,
}
use nineteenseventytwo_platf.Prelude.Sort.{IsOrder, sort, sort-same}

pub less-IsOrder : IsOrder less
less-IsOrder = record { asym = less_asym; trans_not = less_trans_not }

-- The same texts in another order, none twice, are sorted alike.
pub sort_texts_same :
    (xs ys : List Bytes)
    → Distinct xs
    → Distinct ys
    → ((a : Bytes) → contains a xs ≡ contains a ys)
    → sort less xs ≡ sort less ys
sort_texts_same xs ys d f same = sort-same less xs ys less-IsOrder less_irrefl less_antisym d f same
