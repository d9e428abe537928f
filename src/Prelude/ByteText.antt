-- ===== src/Prelude/ByteText.antt =====
-- Go strings: finite sequences of bytes, compared bytewise.
use Prim.Native.Nat.{ℕ}
use Prim.Native.Char.{code}
use Prim.Native.String.{String}
use mathlib.Core.Path.{◌≡◌, refl}
use mathlib.Core.Bool.{Bool, true, false, ◌&&◌, ◌||◌}
use mathlib.Core.List.{List, [], ◌∷◌}
use native.Mathlib.Omega.{arith}
use nineteenseventytwo_platf.Prelude.Tests.{ltb, eqb}

abbrev pub Bytes : Type 0
Bytes = List ℕ

-- The bytes of a literal: all literals of the program are ASCII.
abbrev pub codes : String → Bytes
codes String.[] = []
codes (String.◌∷◌ c s) = code c ∷ codes s

-- `a < b` on strings
unfoldable pub less : Bytes → Bytes → Bool
less [] [] = false
less [] (y ∷ ys) = true
less (x ∷ xs) [] = false
less (x ∷ xs) (y ∷ ys) = ltb x y || (eqb x y && less xs ys)

pub less_irrefl : (a : Bytes) → less a a ≡ false
unfolding less
less_irrefl [] = refl
less_irrefl (x ∷ xs) = ground (arith, less_irrefl xs)

pub less_asym : (a b : Bytes) → less a b ≡ true → less b a ≡ false
unfolding less
less_asym [] [] h = refl
less_asym [] (y ∷ ys) h = refl
less_asym (x ∷ xs) [] h = ground arith
less_asym (x ∷ xs) (y ∷ ys) h = ground (arith, less_asym xs ys)

-- `≤` is transitive, in the form in which a sort uses it
pub less_trans_not : (a b c : Bytes) → less b a ≡ false → less c b ≡ false → less c a ≡ false
unfolding less
less_trans_not [] b [] h k = refl
less_trans_not [] [] (z ∷ c) h k = refl
less_trans_not [] (y ∷ b) (z ∷ c) h k = refl
less_trans_not (x ∷ a) [] c h k = ground arith
less_trans_not (x ∷ a) (y ∷ b) [] h k = ground arith
less_trans_not (x ∷ a) (y ∷ b) (z ∷ c) h k = ground (arith, less_trans_not a b c)

pub less_antisym : (a b : Bytes) → less a b ≡ false → less b a ≡ false → a ≡ b
unfolding less
less_antisym [] [] h k = refl
less_antisym [] (y ∷ ys) h k = ground arith
less_antisym (x ∷ xs) [] h k = ground arith
less_antisym (x ∷ xs) (y ∷ ys) h k = ground (arith, less_antisym xs ys)
