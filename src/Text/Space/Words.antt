-- ===== src/Text/Space/Words.antt =====
-- The fields of a text are words: not empty, and free of white space.
use nineteenseventytwo_platf.Prelude.{
  ℕ, zero, suc, ◌-◌, ◌≤◌, ◌≡◌, refl, ap, ◌∙◌, Bool, true, false, not, List, [], ◌∷◌, ◌++◌, Bytes,
  eqb, arith, All, All-append, is_empty, append-nil, append_assoc,
}
use nineteenseventytwo_platf.Text.Space.{ascii_space, space_width, mark, flush, fields_from, fields}

abbrev pub IsWord : Bytes → Type 0
IsWord w = (is_empty w ≡ false) × All (λ c. ascii_space c ≡ false) w

-- a byte that is not marked is no white space
abbrev Unmarked : ℕ × Bool → Type 0
Unmarked (c, b) = b ≡ false → ascii_space c ≡ false

space_width_pos :
    (c : ℕ) (s : Bytes) → not (eqb (space_width (c ∷ s)) 0) ≡ false → ascii_space c ≡ false
unfolding space_width
space_width_pos c s h = ground arith

mark-Unmarked : (n : ℕ) (s : Bytes) → All Unmarked (mark n s)
unfolding mark
mark-Unmarked zero [] = tt
mark-Unmarked (suc n) [] = tt
mark-Unmarked (suc n) (c ∷ s) = (λ h. cc, mark-Unmarked n s)
mark-Unmarked zero (c ∷ s) = (space_width_pos c s, mark-Unmarked (space_width (c ∷ s) - 1) s)

flush-IsWord :
    (cur : Bytes) (rest : List Bytes)
    → All (λ c. ascii_space c ≡ false) cur
    → All IsWord rest
    → All IsWord (flush cur rest)
flush-IsWord [] rest h k = k
flush-IsWord (c ∷ cur) rest h k = ((refl, h), k)

fields_from-IsWord :
    (cur : Bytes) (m : List (ℕ × Bool))
    → All (λ c. ascii_space c ≡ false) cur
    → All Unmarked m
    → All IsWord (fields_from cur m)
unfolding fields_from
fields_from-IsWord cur [] h k = flush-IsWord cur [] h tt
fields_from-IsWord cur ((c, true) ∷ m) h k =
    flush-IsWord cur (fields_from [] m) h (fields_from-IsWord [] m tt k.1)
fields_from-IsWord cur ((c, false) ∷ m) h k =
    fields_from-IsWord (cur ++ c ∷ []) m (All-append _ cur (c ∷ []) h (k.0 refl, tt)) k.1

-- Every field is a word.
pub fields-IsWord : (s : Bytes) → All IsWord (fields s)
unfolding fields
fields-IsWord s = fields_from-IsWord [] (mark 0 s) tt (mark-Unmarked 0 s)

module _ {κ} (P : ℕ → Type κ) where
  abbrev Kept : ℕ × Bool → Type κ
  Kept (c, b) = P c

  mark-Kept : (n : ℕ) (s : Bytes) → All P s → All Kept (mark n s)
  unfolding mark
  mark-Kept zero [] h = tt
  mark-Kept (suc n) [] h = tt
  mark-Kept (suc n) (c ∷ s) h = (h.0, mark-Kept n s h.1)
  mark-Kept zero (c ∷ s) h = (h.0, mark-Kept (space_width (c ∷ s) - 1) s h.1)

  flush-Kept :
      (cur : Bytes) (rest : List Bytes)
      → All P cur
      → All (All P) rest
      → All (All P) (flush cur rest)
  flush-Kept [] rest h k = k
  flush-Kept (c ∷ cur) rest h k = (h, k)

  fields_from-Kept :
      (cur : Bytes) (m : List (ℕ × Bool)) → All P cur → All Kept m → All (All P) (fields_from cur m)
  unfolding fields_from
  fields_from-Kept cur [] h k = flush-Kept cur [] h tt
  fields_from-Kept cur ((c, true) ∷ m) h k =
      flush-Kept cur (fields_from [] m) h (fields_from-Kept [] m tt k.1)
  fields_from-Kept cur ((c, false) ∷ m) h k =
      fields_from-Kept (cur ++ c ∷ []) m (All-append P cur (c ∷ []) h (k.0, tt)) k.1

  -- The bytes of the fields are bytes of the text.
  pub fields-Kept : (s : Bytes) → All P s → All (All P) (fields s)
  unfolding fields
  fields-Kept s h = fields_from-Kept [] (mark 0 s) tt (mark-Kept 0 s h)

-- A visible ASCII byte.
abbrev pub IsPlain : ℕ → Type 0
IsPlain c = (33 ≤ c) × (c ≤ 126)

space_width-plain : (c : ℕ) (s : Bytes) → IsPlain c → space_width (c ∷ s) ≡ 0
unfolding space_width
space_width-plain c [] h = ground arith
space_width-plain c (d ∷ []) h = ground arith
space_width-plain c (d ∷ e ∷ s) h = ground arith

fields_from-plain :
    (cur w s : Bytes)
    → All IsPlain w
    → fields_from cur (mark 0 (w ++ s)) ≡ fields_from (cur ++ w) (mark 0 s)
fields_from-plain cur [] s h = rw append-nil
fields_from-plain cur (c ∷ w) s h =
    step ∙ fields_from-plain (cur ++ c ∷ []) w s h.1 ∙ rw append_assoc
  where
    step : fields_from cur (mark 0 (c ∷ (w ++ s))) ≡ fields_from (cur ++ c ∷ []) (mark 0 (w ++ s))
    step = unfold fields_from mark in rw (space_width-plain c (w ++ s) h.0)

fields_from-space :
    (cur s : Bytes)
    → is_empty cur ≡ false
    → fields_from cur (mark 0 (b' ' ∷ s)) ≡ cur ∷ fields_from [] (mark 0 s)
unfolding fields_from mark space_width
fields_from-space cur s h = rw h

-- Two visible words, each with a space behind it, are the fields of their text.
pub fields-two :
    (v w : Bytes)
    → All IsPlain v
    → All IsPlain w
    → is_empty v ≡ false
    → is_empty w ≡ false
    → fields (v ++ b' ' ∷ (w ++ b' ' ∷ [])) ≡ v ∷ w ∷ []
unfolding fields
fields-two v w hv hw nv nw =
    fields_from-plain [] v (b' ' ∷ (w ++ b' ' ∷ [])) hv
    ∙ fields_from-space v (w ++ b' ' ∷ []) nv
    ∙ ap (λ x. v ∷ x)
        (fields_from-plain [] w (b' ' ∷ []) hw ∙ fields_from-space w [] nw ∙ ap (λ x. w ∷ x) end)
  where
    end : fields_from [] (mark 0 []) ≡ []
    end = unfold fields_from mark in refl
