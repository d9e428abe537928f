-- ===== src/Text/Decimal.antt =====
-- `%d` of an integer, and `%02X` of a byte.
use nineteenseventytwo_platf.Prelude.{
  ℕ, zero, suc, ◌+◌, ◌/◌, ◌%◌, [], ◌∷◌, Bytes, ltb, if◌then◌else◌,
}

-- The digits of `n` in front of `out`; the fuel is a bound on their number.
unfoldable pub digits : ℕ → ℕ → Bytes → Bytes
digits zero n out = out
digits (suc fuel) n out =
    let out' = (b'0' + n % 10) ∷ out in
    let rest = digits fuel (n / 10) out' in if ltb n 10 then out' else rest

-- `strconv.Itoa` of a number that is not negative: `n` has at most `n + 1` digits
unfoldable pub decimal : ℕ → Bytes
unfolding digits
decimal n = digits (suc n) n []
