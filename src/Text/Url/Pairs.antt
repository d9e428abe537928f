-- ===== src/Text/Url/Pairs.antt =====
-- What `parseQuery` makes of the pairs that `Values.Encode` writes for one key.
use nineteenseventytwo_platf.Prelude.{
  ℕ, ◌<◌, ◌≡◌, refl, ap, sym, ◌∙◌, true, false, not, ◌&&◌, ◌||◌, List, [], ◌∷◌, ◌++◌, Bytes, All,
  All-append, keys, lookup_or, insert, nat_eq, list_eq, list_same_iff, same_refl, lookup_or-insert,
  subst, contains-keys-insert, Distinct-insert, Distinct, codes, contains, arith, append_assoc,
  append-nil, is_empty, eqb, Bool-cases, inl, inr, ◌==◌, if◌then◌else◌,
}
use nineteenseventytwo_platf.Text.Parts.{Lacks, cut_before}
use nineteenseventytwo_platf.Text.Percent.{query_escape}
use nineteenseventytwo_platf.Text.Url.{
  Values, encode_values, cut_after, parse_pair, parse_pairs, query_unescape,
}
use nineteenseventytwo_platf.Text.Url.Escapes.{query_unescape-query_escape, query_escape-Lacks}

abbrev pub IsText : Bytes → Type 0
IsText = All (λ c. c < 256)

cut_before-first : (sep : ℕ) (a b : Bytes) → Lacks sep a → cut_before sep (a ++ sep ∷ b) ≡ a
unfolding cut_before
cut_before-first sep [] b h = ground arith
cut_before-first sep (c ∷ a) b h = ground (arith, cut_before-first sep a b)

cut_after-first : (sep : ℕ) (a b : Bytes) → Lacks sep a → cut_after sep (a ++ sep ∷ b) ≡ b
unfolding cut_after
cut_after-first sep [] b h = ground arith
cut_after-first sep (c ∷ a) b h = ground (arith, cut_after-first sep a b)

contains_of_Lacks : (b : ℕ) (s : Bytes) → Lacks b s → contains b s ≡ false
contains_of_Lacks b [] h = refl
contains_of_Lacks b (c ∷ s) h = ground (arith, contains_of_Lacks b s)

abbrev pair : Bytes → Bytes → Bytes
pair k v = query_escape k ++ b'=' ∷ query_escape v

pub pair-Lacks : (b : ℕ) (k v : Bytes) → contains b (codes "&;") ≡ true → Lacks b (pair k v)
pair-Lacks b k v h =
    All-append (λ d. eqb d b ≡ false) (query_escape k) (b'=' ∷ query_escape v)
      (query_escape-Lacks b k (ground arith)) (ground arith, query_escape-Lacks b v (ground arith))

is_empty-pair : (k s : Bytes) → is_empty (k ++ b'=' ∷ s) ≡ false
is_empty-pair [] s = refl
is_empty-pair (c ∷ k) s = refl

-- what one pair does to the map
abbrev add_value : Bytes → Bytes → Values → Values
add_value k v q = insert k (lookup_or [] k q ++ v ∷ []) q

parse_pair-pair :
    (k v : Bytes) (q : Values) → IsText k → IsText v → parse_pair (pair k v) q ≡ add_value k v q
unfolding parse_pair
parse_pair-pair k v q hk hv =
    let escaped = query_escape-Lacks b'=' k refl in
    let keyed =
      ap query_unescape (cut_before-first b'=' (query_escape k) (query_escape v) escaped)
      ∙ query_unescape-query_escape k hk in
    let valued =
      ap query_unescape (cut_after-first b'=' (query_escape k) (query_escape v) escaped)
      ∙ query_unescape-query_escape v hv in
    let plain = contains_of_Lacks b';' (pair k v) (pair-Lacks b';' k v refl) in
    rw (is_empty-pair (query_escape k) (query_escape v)) (rw plain (rw keyed (rw valued refl)))

unparsed :
    (j k : Bytes) (q : Values)
    → lookup_or [] j q ≡ (if j == k then lookup_or [] k q ++ [] else lookup_or [] j q)
unparsed j k q = elim (Bool-cases (j == k)) [
  | inl same ↦ rw same (
      ap (λ i. lookup_or [] i q) ((list_same_iff j k).0 same) ∙ sym (append-nil (lookup_or [] k q)))
  | inr other ↦ rw other refl
]

appended :
    (j k v : Bytes) (vs : List Bytes) (q : Values)
    → (if j == k then lookup_or [] k (add_value k v q) ++ vs else lookup_or [] j (add_value k v q))
      ≡ (if j == k then lookup_or [] k q ++ v ∷ vs else lookup_or [] j q)
appended j k v vs q =
    let added = lookup_or-insert [] k k (lookup_or [] k q ++ v ∷ []) q in
    let others = lookup_or-insert [] j k (lookup_or [] k q ++ v ∷ []) q in
    elim (Bool-cases (j == k)) [
      | inl same ↦ rw same (
          ap (λ l. l ++ vs) (rw (same_refl k) at added)
          ∙ append_assoc (lookup_or [] k q) (v ∷ []) vs)
      | inr other ↦ rw other (rw other at others)
    ]

parse_pairs-values :
    (k v : Bytes) (vs : List Bytes) (q : Values)
    → IsText k
    → IsText v
    → parse_pairs (encode_values k (v ∷ vs)) q ≡ parse_pairs (encode_values k vs) (add_value k v q)
unfolding parse_pairs encode_values
parse_pairs-values k v vs q hk hv =
    ap (parse_pairs (encode_values k vs)) (parse_pair-pair k v q hk hv)

-- what the pairs of one key do
pub values_parsed :
    (j k : Bytes) (vs : List Bytes) (q : Values)
    → IsText k
    → All IsText vs
    → lookup_or [] j (parse_pairs (encode_values k vs) q)
      ≡ (if j == k then lookup_or [] k q ++ vs else lookup_or [] j q)
unfolding parse_pairs encode_values
values_parsed j k [] q hk h = unparsed j k q
values_parsed j k (v ∷ vs) q hk h =
    let ih = values_parsed j k vs (add_value k v q) hk h.1 in
    ap (lookup_or [] j) (parse_pairs-values k v vs q hk h.0) ∙ ih ∙ appended j k v vs q

pub values_keys :
    (j k : Bytes) (vs : List Bytes) (q : Values)
    → IsText k
    → All IsText vs
    → contains j (keys (parse_pairs (encode_values k vs) q))
      ≡ (contains j (keys q) || (j == k && not (is_empty vs)))
unfolding parse_pairs encode_values
values_keys j k [] q hk h = ground arith
values_keys j k (v ∷ vs) q hk h =
    let ih = values_keys j k vs (add_value k v q) hk h.1 in
    ap (λ r. contains j (keys r)) (parse_pairs-values k v vs q hk h.0)
    ∙ ih
    ∙ ground (arith, contains-keys-insert j k (lookup_or [] k q ++ v ∷ []) q)

pub values_Distinct :
    (k : Bytes) (vs : List Bytes) (q : Values)
    → IsText k
    → All IsText vs
    → Distinct (keys q)
    → Distinct (keys (parse_pairs (encode_values k vs) q))
unfolding parse_pairs encode_values
values_Distinct k [] q hk h d = d
values_Distinct k (v ∷ vs) q hk h d =
    subst (λ r. Distinct (keys r)) (sym (parse_pairs-values k v vs q hk h.0))
      (values_Distinct k vs (add_value k v q) hk h.1
        (Distinct-insert k (lookup_or [] k q ++ v ∷ []) q d))

pub parse_pairs-append :
    (xs ys : List Bytes) (q : Values) → parse_pairs (xs ++ ys) q ≡ parse_pairs ys (parse_pairs xs q)
unfolding parse_pairs
parse_pairs-append [] ys q = refl
parse_pairs-append (x ∷ xs) ys q = parse_pairs-append xs ys (parse_pair x q)
