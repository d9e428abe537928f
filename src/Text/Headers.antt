-- ===== src/Text/Headers.antt =====
-- `http.Header`: values by canonical names (`textproto.CanonicalMIMEHeaderKey`, on ASCII tokens).
use nineteenseventytwo_platf.Prelude.{
  ℕ, ◌-◌, ◌≡◌, refl, ap, ap₂, ◌∙◌, Bool, true, false, ◌&&◌, List, [], ◌∷◌, Bytes, map, Assoc,
  lookup, lookup_or, insert, nat_eq, list_eq, eqb, leb, if◌then◌else◌, arith,
}
use nineteenseventytwo_platf.Text.Case.{lower, is_ascii, to_lower}

abbrev pub Header : Type 0
Header = Assoc Bytes (List Bytes)

abbrev pub first_value : List Bytes → Bytes
first_value [] = []
first_value (v ∷ vs) = v

-- `h.Get(name)` and `h.Set(name, value)`, for a canonical name
unfoldable pub get_header : Bytes → Header → Bytes
unfolding lookup
get_header name h = first_value (lookup_or [] name h)

unfoldable pub set_header : Bytes → Bytes → Header → Header
unfolding insert
set_header name value h = insert name (value ∷ []) h

unfoldable pub upper : ℕ → ℕ
upper c = if leb b'a' c && leb c b'z' then c - 32 else c

-- `start` says whether the next byte begins a word
unfoldable pub canonical_from : Bool → Bytes → Bytes
canonical_from start [] = []
canonical_from start (c ∷ s) = (if start then upper c else lower c) ∷ canonical_from (eqb c b'-') s

unfoldable pub canonical_key : Bytes → Bytes
unfolding canonical_from
canonical_key s = canonical_from true s

case_of_lower :
    (start : Bool) (c : ℕ)
    → (if start then upper (lower c) else lower (lower c)) ≡ (if start then upper c else lower c)
unfolding upper lower
case_of_lower true c = ground arith
case_of_lower false c = ground arith

hyphen_of_lower : (c : ℕ) → eqb (lower c) b'-' ≡ eqb c b'-'
unfolding lower
hyphen_of_lower c = ground arith

canonical_from-lower :
    (start : Bool) (s : Bytes) → canonical_from start (map lower s) ≡ canonical_from start s
unfolding canonical_from
canonical_from-lower start [] = refl
canonical_from-lower start (c ∷ s) =
    let here = case_of_lower start c in
    let hyphen = hyphen_of_lower c in
    ap₂ (λ (d : ℕ) r. d ∷ r) here
      (ap (λ b. canonical_from b (map lower s)) hyphen ∙ canonical_from-lower (eqb c b'-') s)

-- a name as it stands in a header
abbrev pub IsName : Bytes → Type 0
IsName k = (is_ascii k ≡ true) × (canonical_key k ≡ k)

-- Lower case and back.
pub canonical_key-to_lower :
    (unicode_lower : Bytes → Bytes) (k : Bytes)
    → IsName k
    → canonical_key (to_lower unicode_lower k) ≡ k
unfolding canonical_key to_lower
canonical_key-to_lower unicode_lower k h = rw h.0 (canonical_from-lower true k ∙ h.1)
