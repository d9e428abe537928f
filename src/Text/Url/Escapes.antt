-- ===== src/Text/Url/Escapes.antt =====
-- What is escaped is read back, whatever set of bytes the escaping keeps.
use nineteenseventytwo_platf.Prelude.{
  ℕ, ◌+◌, ◌*◌, ◌/◌, ◌%◌, ◌<◌, ◌≡◌, refl, ap, ◌∙◌, Bool, true, false, [], ◌∷◌, ◌++◌, Bytes, codes,
  contains, nat_eq, eqb, if◌then◌else◌, some, All, All-append, arith, Bool-cases, inl, inr,
}
use nineteenseventytwo_platf.Text.Parts.{Lacks}
use nineteenseventytwo_platf.Text.Percent.{hex_digit, percent, unreserved, query_byte, query_escape}
use nineteenseventytwo_platf.Text.Url.{
  hexadecimal, unhex, cons_some, unescape_with, escape_with, query_unescape,
}

hex_digit-hexadecimal : (n : ℕ) → n < 16 → hexadecimal (hex_digit n) ≡ true
unfolding hex_digit
hex_digit-hexadecimal n h = ground arith

unhex-hex_digit : (n : ℕ) → n < 16 → unhex (hex_digit n) ≡ n
unfolding unhex hex_digit
unhex-hex_digit n h = ground arith

unescape_with-plain :
    (plus c : ℕ) (s t : Bytes)
    → eqb c b'%' ≡ false
    → (if eqb c b'+' then plus else c) ≡ c
    → unescape_with plus s ≡ some t
    → unescape_with plus (c ∷ s) ≡ some (c ∷ t)
unfolding unescape_with
unescape_with-plain plus c [] t h k e = rw h (rw k (ap (cons_some c) e))
unescape_with-plain plus c (d ∷ []) t h k e = rw h (rw k (ap (cons_some c) e))
unescape_with-plain plus c (d ∷ d' ∷ s) t h k e = rw h (rw k (ap (cons_some c) e))

unescape_with-percent :
    (plus c : ℕ) (s t : Bytes)
    → c < 256
    → unescape_with plus s ≡ some t
    → unescape_with plus (percent c ++ s) ≡ some (c ∷ t)
unfolding unescape_with
unescape_with-percent plus c s t h e =
    let high = unhex-hex_digit (c / 16) (omega arith) in
    let low = unhex-hex_digit (c % 16) (omega arith) in
    rw (hex_digit-hexadecimal (c / 16) (omega arith)) (
      rw (hex_digit-hexadecimal (c % 16) (omega arith)) (
        ap (cons_some (16 * unhex (hex_digit (c / 16)) + unhex (hex_digit (c % 16)))) e
        ∙ ap (λ (n : ℕ). some (n ∷ t)) (omega arith)))

-- a byte that is kept is read as itself
abbrev pub Plain : ℕ → (ℕ → Bool) → Type 0
Plain plus keeps =
    (c : ℕ) → keeps c ≡ true → (eqb c b'%' ≡ false) × ((if eqb c b'+' then plus else c) ≡ c)

pub unescape_with-escape_with :
    (plus : ℕ) (keeps : ℕ → Bool) (s : Bytes)
    → Plain plus keeps
    → All (λ c. c < 256) s
    → unescape_with plus (escape_with keeps s) ≡ some s
unfolding escape_with unescape_with
unescape_with-escape_with plus keeps [] p h = refl
unescape_with-escape_with plus keeps (c ∷ s) p h =
    let rest = unescape_with-escape_with plus keeps s p h.1 in
    elim (Bool-cases (keeps c)) [
      | inl kept ↦
          rw kept
            (unescape_with-plain plus c (escape_with keeps s) s (p c kept).0 (p c kept).1 rest)
      | inr coded ↦ rw coded (unescape_with-percent plus c (escape_with keeps s) s h.0 rest)
    ]

-- a byte that is kept nowhere, and is no part of an escape, does not occur
pub escape_with-Lacks :
    (b : ℕ) (keeps : ℕ → Bool) (s : Bytes)
    → ((n : ℕ) → eqb (hex_digit n) b ≡ false)
    → eqb b'%' b ≡ false
    → All (λ c. keeps c ≡ true → eqb c b ≡ false) s
    → Lacks b (escape_with keeps s)
unfolding escape_with
escape_with-Lacks b keeps [] d p h = tt
escape_with-Lacks b keeps (c ∷ s) d p h =
    let rest = escape_with-Lacks b keeps s d p h.1 in
    elim (Bool-cases (keeps c)) [
      | inl kept ↦ rw kept (h.0 kept, rest)
      | inr coded ↦ rw coded (p, (d (c / 16), (d (c % 16), rest)))
    ]

unescape_with-plus :
    (plus : ℕ) (s t : Bytes)
    → unescape_with plus s ≡ some t
    → unescape_with plus (b'+' ∷ s) ≡ some (plus ∷ t)
unfolding unescape_with
unescape_with-plus plus [] t e = ap (cons_some plus) e
unescape_with-plus plus (d ∷ []) t e = ap (cons_some plus) e
unescape_with-plus plus (d ∷ d' ∷ s) t e = ap (cons_some plus) e

-- A query's text is read back.
pub query_unescape-query_escape :
    (s : Bytes) → All (λ c. c < 256) s → query_unescape (query_escape s) ≡ some s
unfolding query_unescape query_escape query_byte unescape_with
query_unescape-query_escape [] h = refl
query_unescape-query_escape (c ∷ s) h =
    let rest = query_unescape-query_escape s h.1 in
    elim (Bool-cases (eqb c 32)) [
      | inl space ↦ rw space (
          unescape_with-plus 32 (query_escape s) s rest
          ∙ ap (λ (n : ℕ). some (n ∷ s)) (ground arith))
      | inr other ↦ rw other (elim (Bool-cases (unreserved c)) [
        | inl kept ↦
            rw kept (unescape_with-plain 32 c (query_escape s) s (ground arith) (ground arith) rest)
        | inr coded ↦ rw coded (unescape_with-percent 32 c (query_escape s) s h.0 rest)
      ])
    ]

abbrev pub Separator : ℕ → Type 0
Separator b = contains b (codes "&=;") ≡ true

hex_digit_other : (b n : ℕ) → Separator b → eqb (hex_digit n) b ≡ false
unfolding hex_digit
hex_digit_other b n h = ground arith

query_byte-Lacks : (b c : ℕ) → Separator b → Lacks b (query_byte c)
unfolding query_byte
query_byte-Lacks b c h = elim (Bool-cases (eqb c 32)) [
  | inl space ↦ rw space (ground arith, tt)
  | inr other ↦ rw other (elim (Bool-cases (unreserved c)) [
    | inl kept ↦ rw kept (ground arith, tt)
    | inr coded ↦
        rw coded (ground arith, (hex_digit_other b (c / 16) h, (hex_digit_other b (c % 16) h, tt)))
  ])
]

-- Separators of queries do not occur in an escaped text.
pub query_escape-Lacks : (b : ℕ) (s : Bytes) → Separator b → Lacks b (query_escape s)
unfolding query_escape
query_escape-Lacks b [] h = tt
query_escape-Lacks b (c ∷ s) h =
    All-append (λ d. eqb d b ≡ false) (query_byte c) (query_escape s) (query_byte-Lacks b c h)
      (query_escape-Lacks b s h)
