-- ===== src/Dash/Int32.antt =====
-- Go's int32 as its bit pattern, a number below 2 ^ 32.
use nineteenseventytwo_platf.Prelude.{ℕ, ◌+◌, ◌%◌, ◌^◌, ◌≤◌, ◌<◌, ◌≡◌, ◌↔◌, true, Bool, leb, arith}

-- `a + b`, which wraps around
unfoldable pub add32 : ℕ → ℕ → ℕ
add32 a b = (a + b) % 2 ^ 32

-- `a >= b`, on the signed values
unfoldable pub at_least32 : ℕ → ℕ → Bool
at_least32 a b = leb ((b + 2 ^ 31) % 2 ^ 32) ((a + 2 ^ 31) % 2 ^ 32)

pub add32-add32 : (a b c : ℕ) → add32 (add32 a b) c ≡ (a + (b + c)) % 2 ^ 32
unfolding add32
add32-add32 a b c = omega arith

-- Below 2 ^ 31 the pattern is the value.
pub at_least32_iff : (a b : ℕ) → a < 2 ^ 31 → b < 2 ^ 31 → (at_least32 a b ≡ true) ↔ (b ≤ a)
unfolding at_least32
at_least32_iff a b ha hb = ground arith
