-- ===== src/Text/Percent/Decode.antt =====
-- An independent reading of an escaped path segment, and what the escaping keeps out.
use nineteenseventytwo_platf.Prelude.{
  ℕ, ◌+◌, ◌-◌, ◌*◌, ◌/◌, ◌%◌, ◌<◌, ◌≡◌, refl, ap, ◌∙◌, true, false, [], ◌∷◌, ◌++◌, Bytes, codes,
  contains, nat_eq, eqb, ltb, if◌then◌else◌, All, All-append, arith, Bool-cases, inl, inr,
}
use nineteenseventytwo_platf.Text.Percent.{path_keeps, hex_digit, percent, path_byte, path_escape}

unfoldable pub hex_value : ℕ → ℕ
hex_value c = if ltb c 65 then c - 48 else c - 55

unfoldable pub unescape : Bytes → Bytes
unfolding hex_value
unescape [] = []
unescape (c ∷ []) = c ∷ []
unescape (c ∷ d ∷ []) = c ∷ d ∷ []
unescape (c ∷ d ∷ e ∷ s) =
    let coded = unescape s in
    let plain = unescape (d ∷ e ∷ s) in
    if eqb c b'%' then (16 * hex_value d + hex_value e) ∷ coded else c ∷ plain

hex_value-hex_digit : (n : ℕ) → n < 16 → hex_value (hex_digit n) ≡ n
unfolding hex_value hex_digit
hex_value-hex_digit n h = ground arith

unescape-plain : (c : ℕ) (s : Bytes) → eqb c b'%' ≡ false → unescape (c ∷ s) ≡ c ∷ unescape s
unfolding unescape
unescape-plain c [] h = refl
unescape-plain c (d ∷ []) h = refl
unescape-plain c (d ∷ e ∷ s) h = rw h refl

path_keeps-percent : (c : ℕ) → path_keeps c ≡ true → eqb c b'%' ≡ false
unfolding path_keeps
path_keeps-percent c h = ground arith

unescape-percent : (c : ℕ) (s : Bytes) → c < 256 → unescape (percent c ++ s) ≡ c ∷ unescape s
unfolding unescape
unescape-percent c s h =
    let high = hex_value-hex_digit (c / 16) (omega arith) in
    let low = hex_value-hex_digit (c % 16) (omega arith) in ap (λ d. d ∷ unescape s) (omega arith)

unescape-path_byte : (c : ℕ) (s : Bytes) → c < 256 → unescape (path_byte c ++ s) ≡ c ∷ unescape s
unfolding path_byte
unescape-path_byte c s h = elim (Bool-cases (path_keeps c)) [
  | inl kept ↦ rw kept (unescape-plain c s (path_keeps-percent c kept))
  | inr coded ↦ rw coded (unescape-percent c s h)
]

-- The segment's bytes are read back.
pub unescape-path_escape : (s : Bytes) → All (λ c. c < 256) s → unescape (path_escape s) ≡ s
unfolding path_escape unescape
unescape-path_escape [] h = refl
unescape-path_escape (c ∷ s) h =
    unescape-path_byte c (path_escape s) h.0 ∙ ap (λ r. c ∷ r) (unescape-path_escape s h.1)

-- No byte ends a segment or the path.
abbrev pub Inside : Bytes → Type 0
Inside = All (λ c. contains c (codes "/?#") ≡ false)

hex_digit-inside : (n : ℕ) → contains (hex_digit n) (codes "/?#") ≡ false
unfolding hex_digit
hex_digit-inside n = ground arith

path_byte-Inside : (c : ℕ) → Inside (path_byte c)
unfolding path_byte path_keeps
path_byte-Inside c = elim (Bool-cases (path_keeps c)) [
  | inl kept ↦ rw kept (ground arith, tt)
  | inr coded ↦ rw coded (refl, (hex_digit-inside (c / 16), (hex_digit-inside (c % 16), tt)))
]

pub path_escape-Inside : (s : Bytes) → Inside (path_escape s)
unfolding path_escape
path_escape-Inside [] = tt
path_escape-Inside (c ∷ s) =
    All-append (λ d. contains d (codes "/?#") ≡ false) (path_byte c) (path_escape s)
      (path_byte-Inside c) (path_escape-Inside s)
