-- ===== src/Text/Utf8.antt =====
-- `strings.ToValidUTF8(s, "")`: the bytes that belong to no valid encoding are dropped.
use nineteenseventytwo_platf.Prelude.{
  ℕ, zero, suc, ◌-◌, Bool, true, false, ◌&&◌, [], ◌∷◌, Bytes, leb, ltb, eqb, if◌then◌else◌,
}

-- a continuation byte
abbrev pub tail_byte : ℕ → Bool
tail_byte c = leb 0x80 c && leb c 0xbf

-- The second byte of an encoding is restricted by the first, so that no encoding is overlong, a
-- surrogate, or above U+10FFFF.
abbrev lowest : ℕ → ℕ
lowest a = if eqb a 0xe0 then 0xa0 else if eqb a 0xf0 then 0x90 else 0x80

abbrev highest : ℕ → ℕ
highest a = if eqb a 0xed then 0x9f else if eqb a 0xf4 then 0x8f else 0xbf

-- the length that the first byte announces
unfoldable pub announced : ℕ → ℕ
announced a =
    if ltb a 0x80
    then 1
    else if leb 0xc2 a && leb a 0xdf
    then 2
    else if leb 0xe0 a && leb a 0xef
    then 3
    else if leb 0xf0 a && leb a 0xf4
    then 4
    else 0

-- whether `n` continuation bytes stand at the head
tails : ℕ → Bytes → Bool
tails zero s = true
tails (suc n) [] = false
tails (suc n) (c ∷ s) = tail_byte c && tails n s

after : ℕ → Bytes → Bool
unfolding tails announced
after a [] = eqb (announced a) 1
after a (b ∷ s) =
    if ltb (announced a) 2
    then eqb (announced a) 1
    else leb (lowest a) b && leb b (highest a) && tails (announced a - 2) s

-- the length of the valid encoding at the head, or 0
unfoldable pub rune_width : Bytes → ℕ
unfolding after announced
rune_width [] = 0
rune_width (a ∷ s) = if after a s then announced a else 0

-- The number is of bytes still to be kept.
unfoldable pub valid_from : ℕ → Bytes → Bytes
unfolding rune_width
valid_from n [] = []
valid_from (suc n) (c ∷ s) = c ∷ valid_from n s
valid_from zero (c ∷ s) =
    let w = rune_width (c ∷ s) in
    let rest = valid_from (w - 1) s in if eqb w 0 then rest else c ∷ rest

unfoldable pub to_valid : Bytes → Bytes
unfolding valid_from
to_valid = valid_from 0
