-- ===== src/Text/Case.antt =====
-- `strings.ToLower` and `strings.EqualFold`.
use nineteenseventytwo_platf.Prelude.{
  ℕ, ◌+◌, ◌≡◌, Bool, true, ◌&&◌, [], ◌∷◌, Bytes, leb, ltb, if◌then◌else◌, arith, map, ◌==◌, nat_eq,
  list_eq,
}

unfoldable pub lower : ℕ → ℕ
lower c = if leb b'A' c && leb c b'Z' then c + 32 else c

unfoldable pub is_ascii : Bytes → Bool
is_ascii [] = true
is_ascii (c ∷ s) = ltb c 128 && is_ascii s

-- `strings.ToLower(s)`: an ASCII text is lowered bytewise, any other by `strings.Map` over the tables
-- of `unicode`, which is the argument `unicode_lower`.
unfoldable pub to_lower : (Bytes → Bytes) → Bytes → Bytes
unfolding lower is_ascii
to_lower unicode_lower s = if is_ascii s then map lower s else unicode_lower s

-- `strings.EqualFold(s, t)` for a text `t` of ASCII bytes without the letters k and s, which are the
-- only ASCII letters with a case variant outside ASCII.
unfoldable pub equal_fold : Bytes → Bytes → Bool
unfolding lower
equal_fold s t = map lower s == map lower t

pub lower_idem : (c : ℕ) → lower (lower c) ≡ lower c
unfolding lower
lower_idem c = ground arith
