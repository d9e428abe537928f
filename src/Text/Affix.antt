-- ===== src/Text/Affix.antt =====
-- `strings.HasPrefix`, `strings.HasSuffix`, `strings.TrimRight` and `strings.Trim`.
use nineteenseventytwo_platf.Prelude.{
  Bool, true, false, ◌&&◌, [], ◌∷◌, reverse, Bytes, eqb, if◌then◌else◌, contains, nat_eq,
}

unfoldable pub has_prefix : Bytes → Bytes → Bool
has_prefix s [] = true
has_prefix [] (p ∷ ps) = false
has_prefix (c ∷ s) (p ∷ ps) = eqb c p && has_prefix s ps

unfoldable pub has_suffix : Bytes → Bytes → Bool
unfolding has_prefix
has_suffix s p = has_prefix (reverse s) (reverse p)

-- `strings.TrimLeft(s, cutset)` for a set of ASCII bytes
unfoldable pub trim_left : Bytes → Bytes → Bytes
trim_left cutset [] = []
trim_left cutset (c ∷ s) =
    let rest = trim_left cutset s in if contains c cutset then rest else c ∷ s

-- `strings.TrimRight(s, cutset)`
unfoldable pub trim_right : Bytes → Bytes → Bytes
unfolding trim_left
trim_right cutset s = reverse (trim_left cutset (reverse s))

-- `strings.Trim(s, cutset)`
unfoldable pub trim : Bytes → Bytes → Bytes
unfolding trim_right
trim cutset s = trim_right cutset (trim_left cutset s)
