-- ===== src/Text/Base64.antt =====
-- `base64.RawURLEncoding.EncodeToString`.
use nineteenseventytwo_platf.Prelude.{
  ℕ, ◌+◌, ◌-◌, ◌*◌, ◌/◌, ◌%◌, ◌≡◌, false, [], ◌∷◌, Bytes, ltb, eqb, if◌then◌else◌, arith,
}
use nineteenseventytwo_platf.Text.Parts.{Lacks}

unfoldable pub base64_symbol : ℕ → ℕ
base64_symbol n =
    if ltb n 26
    then b'A' + n
    else if ltb n 52
    then b'a' + (n - 26)
    else if ltb n 62
    then b'0' + (n - 52)
    else if ltb n 63
    then b'-'
    else b'_'

unfoldable pub raw_url : Bytes → Bytes
unfolding base64_symbol
raw_url [] = []
raw_url (a ∷ []) = base64_symbol (a / 4) ∷ base64_symbol (a % 4 * 16) ∷ []
raw_url (a ∷ b ∷ []) =
    base64_symbol (a / 4) ∷ base64_symbol (a % 4 * 16 + b / 16) ∷ base64_symbol (b % 16 * 4) ∷ []
raw_url (a ∷ b ∷ c ∷ s) =
    base64_symbol (a / 4)
    ∷ base64_symbol (a % 4 * 16 + b / 16)
    ∷ base64_symbol (b % 16 * 4 + c / 64)
    ∷ base64_symbol (c % 64)
    ∷ raw_url s

symbol_no_dot : (n : ℕ) → eqb (base64_symbol n) b'.' ≡ false
unfolding base64_symbol
symbol_no_dot n = ground arith

-- No encoded text holds a dot.
pub raw_url-Lacks : (s : Bytes) → Lacks b'.' (raw_url s)
unfolding raw_url
raw_url-Lacks [] = tt
raw_url-Lacks (a ∷ []) = (symbol_no_dot (a / 4), (symbol_no_dot (a % 4 * 16), tt))
raw_url-Lacks (a ∷ b ∷ []) =
    (symbol_no_dot (a / 4), (symbol_no_dot (a % 4 * 16 + b / 16), (symbol_no_dot (b % 16 * 4), tt)))
raw_url-Lacks (a ∷ b ∷ c ∷ s) = (
  symbol_no_dot (a / 4),
  (
    symbol_no_dot (a % 4 * 16 + b / 16),
    (symbol_no_dot (b % 16 * 4 + c / 64), (symbol_no_dot (c % 64), raw_url-Lacks s)),
  ),
)
