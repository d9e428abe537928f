-- ===== src/Text/Percent.antt =====
-- `url.PathEscape` and `url.QueryEscape`.
pub mod Decode
use nineteenseventytwo_platf.Prelude.{
  ℕ, ◌+◌, ◌/◌, ◌%◌, Bool, ◌&&◌, ◌||◌, List, [], ◌∷◌, ◌++◌, Bytes, codes, contains, nat_eq, eqb, ltb,
  leb, if◌then◌else◌,
}

-- letters, digits and `-_.~`
abbrev pub unreserved : ℕ → Bool
unreserved c =
    (leb 97 c && leb c 122)
    || (leb 65 c && leb c 90)
    || (leb 48 c && leb c 57)
    || contains c (codes "-_.~")

-- the bytes that a segment of a path may hold as they are
unfoldable pub path_keeps : ℕ → Bool
path_keeps c = unreserved c || contains c (codes "$&+:=@")

unfoldable pub hex_digit : ℕ → ℕ
hex_digit n = if ltb n 10 then 48 + n else 55 + n

abbrev pub percent : ℕ → Bytes
percent c = b'%' ∷ hex_digit (c / 16) ∷ hex_digit (c % 16) ∷ []

unfoldable pub path_byte : ℕ → Bytes
unfolding path_keeps hex_digit
path_byte c = if path_keeps c then c ∷ [] else percent c

unfoldable pub path_escape : Bytes → Bytes
unfolding path_byte
path_escape [] = []
path_escape (c ∷ s) = path_byte c ++ path_escape s

unfoldable pub query_byte : ℕ → Bytes
unfolding hex_digit
query_byte c = if eqb c 32 then b'+' ∷ [] else if unreserved c then c ∷ [] else percent c

unfoldable pub query_escape : Bytes → Bytes
unfolding query_byte
query_escape [] = []
query_escape (c ∷ s) = query_byte c ++ query_escape s
