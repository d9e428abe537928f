-- ===== src/Exporter/Aws/Canonical.antt =====
-- `awsEscape`, `canonicalPath` and `canonicalQuery` of images/findings-exporter/sigv4.go.
pub mod Paths
pub mod Queries
use nineteenseventytwo_platf.Prelude.{
  ℕ, Bool, ◌&&◌, ◌||◌, List, [], ◌∷◌, ◌++◌, Bytes, codes, eqb, leb, if◌then◌else◌, none, some, keys,
  lookup, lookup_or, nat_eq, list_eq, is_empty, less,
}
use nineteenseventytwo_platf.Prelude.Sort.{sort}
use nineteenseventytwo_platf.Text.Parts.{split, join}
use nineteenseventytwo_platf.Text.Url.{Url, Values, escaped_path, path_unescape, escape_with}

abbrev pub aws_keeps : ℕ → Bool
aws_keeps c =
    (leb b'A' c && leb c b'Z')
    || (leb b'a' c && leb c b'z')
    || (leb b'0' c && leb c b'9')
    || eqb c b'-'
    || eqb c b'_'
    || eqb c b'.'
    || eqb c b'~'

unfoldable pub aws_escape : Bytes → Bytes
unfolding escape_with
aws_escape s = escape_with aws_keeps s

-- a segment that cannot be decoded stays as it is
unfoldable pub canonical_segments : List Bytes → List Bytes
unfolding path_unescape aws_escape
canonical_segments [] = []
canonical_segments (s ∷ segs) =
    elim (path_unescape s) [ none ↦ s | some dec ↦ aws_escape dec ] ∷ canonical_segments segs

unfoldable pub canonical_path : Url → Bytes
unfolding escaped_path canonical_segments split join
canonical_path u =
    let p = escaped_path u in
    if is_empty p then codes "/" else join (codes "/") (canonical_segments (split b'/' p))

-- the inner loop, over the values of one key
unfoldable pub query_values : Bytes → List Bytes → List Bytes
unfolding aws_escape
query_values k [] = []
query_values k (v ∷ vs) = (aws_escape k ++ (codes "=" ++ aws_escape v)) ∷ query_values k vs

unfoldable pub query_keys : Values → List Bytes → List Bytes
unfolding query_values
query_keys q [] = []
query_keys q (k ∷ ks) = query_values k (sort less (lookup_or [] k q)) ++ query_keys q ks

unfoldable pub canonical_query : Values → Bytes
unfolding query_keys sort less join
canonical_query q = join (codes "&") (query_keys q (sort less (keys q)))
