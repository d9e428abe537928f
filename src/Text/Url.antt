-- ===== src/Text/Url.antt =====
-- What the programs use of `net/url` besides the escapes of Text.Percent: reading escapes, query
-- strings, and `URL.EscapedPath`.
pub mod Escapes
pub mod Pairs
pub mod RoundTrip
use nineteenseventytwo_platf.Prelude.{
  ℕ, ◌+◌, ◌-◌, ◌*◌, Bool, true, false, not, ◌&&◌, ◌||◌, List, [], ◌∷◌, ◌++◌, Bytes, codes, contains,
  nat_eq, list_eq, eqb, ltb, leb, if◌then◌else◌, Option, none, some, Assoc, keys, lookup, lookup_or,
  insert, is_empty, less, ◌==◌,
}
use nineteenseventytwo_platf.Prelude.Sort.{sort}
use nineteenseventytwo_platf.Text.Parts.{split, join, cut_before}
use nineteenseventytwo_platf.Text.Percent.{unreserved, percent, hex_digit, query_escape}

-- `ishex`
abbrev pub hexadecimal : ℕ → Bool
hexadecimal c = (leb 48 c && leb c 57) || (leb 97 c && leb c 102) || (leb 65 c && leb c 70)

-- `unhex`
unfoldable pub unhex : ℕ → ℕ
unhex c = if leb c 57 then c - 48 else if leb 97 c then c - 87 else c - 55

abbrev pub cons_some : ℕ → Option Bytes → Option Bytes
cons_some c none = none
cons_some c (some s) = some (c ∷ s)

-- `PathUnescape`, and `QueryUnescape` where `plus` is 32: what a plus sign stands for
unfoldable pub unescape_with : ℕ → Bytes → Option Bytes
unfolding unhex
unescape_with plus [] = some []
unescape_with plus (c ∷ []) =
    if eqb c b'%' then none else some ((if eqb c b'+' then plus else c) ∷ [])
unescape_with plus (c ∷ d ∷ []) =
    let rest = unescape_with plus (d ∷ []) in
    if eqb c b'%' then none else cons_some (if eqb c b'+' then plus else c) rest
unescape_with plus (c ∷ d ∷ e ∷ s) =
    let coded = unescape_with plus s in
    let plain = unescape_with plus (d ∷ e ∷ s) in
    if eqb c b'%'
    then (if hexadecimal d && hexadecimal e then cons_some (16 * unhex d + unhex e) coded else none)
    else cons_some (if eqb c b'+' then plus else c) plain

unfoldable pub path_unescape : Bytes → Option Bytes
unfolding unescape_with
path_unescape s = unescape_with b'+' s

unfoldable pub query_unescape : Bytes → Option Bytes
unfolding unescape_with
query_unescape s = unescape_with 32 s

-- `url.Values`
abbrev pub Values : Type 0
Values = Assoc Bytes (List Bytes)

-- the pairs of one key
unfoldable pub encode_values : Bytes → List Bytes → List Bytes
encode_values k [] = []
encode_values k (v ∷ vs) = (query_escape k ++ b'=' ∷ query_escape v) ∷ encode_values k vs

unfoldable pub encode_keys : Values → List Bytes → List Bytes
encode_keys q [] = []
encode_keys q (k ∷ ks) = encode_values k (lookup_or [] k q) ++ encode_keys q ks

-- `Values.Encode`
unfoldable pub encode : Values → Bytes
unfolding encode_keys
encode q = join (b'&' ∷ []) (encode_keys q (sort less (keys q)))

-- the second result of `strings.Cut(s, sep)`: what stands behind the first separator
unfoldable pub cut_after : ℕ → Bytes → Bytes
cut_after sep [] = []
cut_after sep (c ∷ s) = let rest = cut_after sep s in if eqb c sep then s else rest

-- `m[key] = append(m[key], value)`, if both could be unescaped
abbrev pub add_pair : Values → Option Bytes → Option Bytes → Values
add_pair q none v = q
add_pair q (some k) none = q
add_pair q (some k) (some v) = insert k (lookup_or [] k q ++ v ∷ []) q

-- `parseQuery` on one part: what is empty, holds a semicolon or a wrong escape is dropped
unfoldable pub parse_pair : Bytes → Values → Values
unfolding cut_before cut_after
parse_pair part q =
    if is_empty part || contains b';' part
    then q
    else add_pair q (query_unescape (cut_before b'=' part)) (query_unescape (cut_after b'=' part))

unfoldable pub parse_pairs : List Bytes → Values → Values
parse_pairs [] q = q
parse_pairs (part ∷ parts) q = parse_pairs parts (parse_pair part q)

-- `URL.Query`
unfoldable pub parse_query : Bytes → Values
unfolding parse_pairs
parse_query raw = parse_pairs (split b'&' raw) []

-- the parts of a `url.URL` that the programs read
pub record Url : Type 0 where
  pub host : Bytes
  pub path : Bytes
  pub raw_path : Bytes
  pub raw_query : Bytes

-- the bytes that `escape` leaves in a whole path
abbrev pub whole_path_keeps : ℕ → Bool
whole_path_keeps c = unreserved c || contains c (codes "$&+,/:;=@")

-- every byte that `keeps` refuses is escaped
unfoldable pub escape_with : (ℕ → Bool) → Bytes → Bytes
unfolding hex_digit
escape_with keeps [] = []
escape_with keeps (c ∷ s) = (if keeps c then c ∷ [] else percent c) ++ escape_with keeps s

unfoldable pub escape_path : Bytes → Bytes
unfolding escape_with
escape_path s = escape_with whole_path_keeps s

-- `validEncoded`
unfoldable pub valid_encoded : Bytes → Bool
valid_encoded [] = true
valid_encoded (c ∷ s) = (whole_path_keeps c || contains c (codes "!'()*[]%")) && valid_encoded s

unfoldable pub raw_path_serves : Url → Bool
unfolding valid_encoded
raw_path_serves u =
    not (is_empty u.raw_path)
    && valid_encoded u.raw_path
    && elim (path_unescape u.raw_path) [ none ↦ false | some p ↦ p == u.path ]

unfoldable pub escaped_path : Url → Bytes
unfolding raw_path_serves escape_path
escaped_path u =
    if raw_path_serves u
    then u.raw_path
    else if u.path == codes "*"
    then codes "*"
    else escape_path u.path
