-- ===== src/Text/Space.antt =====
-- White space: `strings.TrimSpace` and `strings.Fields`, on UTF-8 bytes. The encodings of the white
-- space runes begin with a byte that occurs inside no other encoding, so they can be found bytewise.
pub mod Words
use nineteenseventytwo_platf.Prelude.{
  ℕ, zero, suc, ◌-◌, Bool, true, false, not, ◌&&◌, ◌||◌, List, [], ◌∷◌, ◌++◌, reverse, Bytes, eqb,
  leb, if◌then◌else◌, is_empty,
}

unfoldable pub ascii_space : ℕ → Bool
ascii_space c = eqb c 32 || (leb 9 c && leb c 13)

-- U+0085 and U+00A0
abbrev two_bytes : ℕ → ℕ → Bool
two_bytes a b = eqb a 0xc2 && (eqb b 0x85 || eqb b 0xa0)

-- U+1680, U+2000 to U+200A, U+2028, U+2029, U+202F, U+205F, U+3000
abbrev three_bytes : ℕ → ℕ → ℕ → Bool
three_bytes a b c =
    (eqb a 0xe1 && eqb b 0x9a && eqb c 0x80)
    || (eqb a 0xe2
        && eqb b 0x80
        && ((leb 0x80 c && leb c 0x8a) || eqb c 0xa8 || eqb c 0xa9 || eqb c 0xaf))
    || (eqb a 0xe2 && eqb b 0x81 && eqb c 0x9f)
    || (eqb a 0xe3 && eqb b 0x80 && eqb c 0x80)

third : ℕ → ℕ → Bytes → ℕ
third a b [] = 0
third a b (c ∷ s) = if three_bytes a b c then 3 else 0

second : ℕ → Bytes → ℕ
unfolding third
second a [] = 0
second a (b ∷ s) = if two_bytes a b then 2 else third a b s

-- `unicode.IsSpace` of the first rune: the length of its encoding, or 0 if it is no white space
unfoldable pub space_width : Bytes → ℕ
unfolding second ascii_space
space_width [] = 0
space_width (a ∷ s) = if ascii_space a then 1 else second a s

-- Each byte, and whether it belongs to white space; the number is of bytes still to be marked.
unfoldable pub mark : ℕ → Bytes → List (ℕ × Bool)
unfolding space_width
mark n [] = []
mark (suc n) (c ∷ s) = (c, true) ∷ mark n s
mark zero (c ∷ s) = let w = space_width (c ∷ s) in (c, not (eqb w 0)) ∷ mark (w - 1) s

drop_marked : List (ℕ × Bool) → List (ℕ × Bool)
drop_marked [] = []
drop_marked ((c, b) ∷ m) = if b then drop_marked m else (c, b) ∷ m

abbrev pub bytes_of : List (ℕ × Bool) → Bytes
bytes_of [] = []
bytes_of ((c, b) ∷ m) = c ∷ bytes_of m

-- `strings.TrimSpace`
unfoldable pub trim_space : Bytes → Bytes
unfolding mark drop_marked
trim_space s = bytes_of (reverse (drop_marked (reverse (drop_marked (mark 0 s)))))

abbrev pub flush : Bytes → List Bytes → List Bytes
flush cur rest = if is_empty cur then rest else cur ∷ rest

unfoldable pub fields_from : Bytes → List (ℕ × Bool) → List Bytes
fields_from cur [] = flush cur []
fields_from cur ((c, true) ∷ m) = flush cur (fields_from [] m)
fields_from cur ((c, false) ∷ m) = fields_from (cur ++ c ∷ []) m

-- `strings.Fields`
unfoldable pub fields : Bytes → List Bytes
unfolding mark fields_from
fields s = fields_from [] (mark 0 s)
