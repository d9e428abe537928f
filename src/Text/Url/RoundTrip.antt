-- ===== src/Text/Url/RoundTrip.antt =====
-- `parseQuery` reads back what `Values.Encode` wrote.
use nineteenseventytwo_platf.Prelude.{
  ◌≡◌, refl, ap, ap₂, sym, ◌∙◌, true, false, not, ◌&&◌, ◌||◌, List, [], ◌∷◌, ◌++◌, Bytes, All,
  All-append, keys, lookup, lookup_or, nat_eq, list_eq, list_same_iff, SameMap, lookup_or-cons,
  subst, lookup-same, lookup_or_of_keys, All-subset, Distinct, less, contains, arith, append-nil,
  is_empty, Bool-cases, inl, inr, ◌==◌, if◌then◌else◌,
}
use nineteenseventytwo_platf.Prelude.Sort.{sort, contains-sort, Distinct-sort}
use nineteenseventytwo_platf.Text.Parts.{join, split, Lacks, split-join}
use nineteenseventytwo_platf.Text.Url.{
  Values, encode_values, encode_keys, encode, parse_pair, parse_pairs, parse_query,
}
use nineteenseventytwo_platf.Text.Url.Pairs.{
  IsText, pair-Lacks, values_parsed, values_keys, values_Distinct, parse_pairs-append,
}

-- keys and values are bytes, and every key has a value
abbrev pub IsQuery : Values → Type 0
IsQuery = All (λ p. IsText p.0 × All IsText p.1 × (is_empty p.1 ≡ false))

lookup_or-IsQuery :
    (k : Bytes) (q : Values)
    → IsQuery q
    → contains k (keys q) ≡ true
    → IsText k × All IsText (lookup_or [] k q) × (is_empty (lookup_or [] k q) ≡ false)
lookup_or-IsQuery k [] h c = cc
lookup_or-IsQuery k ((j, vs) ∷ q) h c =
    rw (lookup_or-cons [] k j vs q) (elim (Bool-cases (k == j)) [
      | inl same ↦ rw same (rw ((list_same_iff k j).0 same) h.0)
      | inr other ↦ rw other (lookup_or-IsQuery k q h.1 (ground arith))
    ])

-- the pairs of several keys, none twice
module _ (q : Values) (hq : IsQuery q) where
  abbrev Known : List Bytes → Type 0
  Known = All (λ k. contains k (keys q) ≡ true)

  keys_parsed :
      (j : Bytes) (ks : List Bytes) (r : Values)
      → Known ks
      → Distinct ks
      → lookup_or [] j (parse_pairs (encode_keys q ks) r)
        ≡ lookup_or [] j r ++ (if contains j ks then lookup_or [] j q else [])
  unfolding encode_keys
  keys_parsed j [] r h d = unfold parse_pairs in sym (append-nil (lookup_or [] j r))
  keys_parsed j (k ∷ ks) r h d =
      let vs = lookup_or [] k q in
      let texts = lookup_or-IsQuery k q hq h.0 in
      let r' = parse_pairs (encode_values k vs) r in
      ap (lookup_or [] j) (parse_pairs-append (encode_values k vs) (encode_keys q ks) r)
      ∙ keys_parsed j ks r' h.1 d.1
      ∙ ap (λ l. l ++ (if contains j ks then lookup_or [] j q else []))
          (values_parsed j k vs r texts.0 texts.1)
      ∙ joined j k ks r d.0
    where
      joined :
          (j k : Bytes) (ks : List Bytes) (r : Values)
          → contains k ks ≡ false
          → (if j == k then lookup_or [] k r ++ lookup_or [] k q else lookup_or [] j r)
              ++ (if contains j ks then lookup_or [] j q else [])
            ≡ lookup_or [] j r ++ (if j == k || contains j ks then lookup_or [] j q else [])
      joined j k ks r new = elim (Bool-cases (j == k)) [
        | inl same ↦ rw same (rw ((list_same_iff j k).0 same) (rw new (append-nil _)))
        | inr other ↦ rw other refl
      ]

  keys_found :
      (j : Bytes) (ks : List Bytes) (r : Values)
      → Known ks
      → contains j (keys (parse_pairs (encode_keys q ks) r))
        ≡ (contains j (keys r) || contains j ks)
  unfolding encode_keys
  keys_found j [] r h = unfold parse_pairs in ground arith
  keys_found j (k ∷ ks) r h =
      let vs = lookup_or [] k q in
      let texts = lookup_or-IsQuery k q hq h.0 in
      let nonempty = texts.2 in
      ap (λ m. contains j (keys m)) (parse_pairs-append (encode_values k vs) (encode_keys q ks) r)
      ∙ keys_found j ks (parse_pairs (encode_values k vs) r) h.1
      ∙ ap (λ b. b || contains j ks)
          (values_keys j k vs r texts.0 texts.1
            ∙ ap (λ b. contains j (keys r) || (j == k && not b)) nonempty)
      ∙ ground arith

  keys-Distinct :
      (ks : List Bytes) (r : Values)
      → Known ks
      → Distinct (keys r)
      → Distinct (keys (parse_pairs (encode_keys q ks) r))
  unfolding encode_keys
  keys-Distinct [] r h d = unfold parse_pairs in d
  keys-Distinct (k ∷ ks) r h d =
      let vs = lookup_or [] k q in
      let texts = lookup_or-IsQuery k q hq h.0 in
      subst (λ m. Distinct (keys m))
        (sym (parse_pairs-append (encode_values k vs) (encode_keys q ks) r))
        (keys-Distinct ks (parse_pairs (encode_values k vs) r) h.1
          (values_Distinct k vs r texts.0 texts.1 d))

  values_Lacks : (k : Bytes) (vs : List Bytes) → All (Lacks b'&') (encode_values k vs)
  unfolding encode_values
  values_Lacks k [] = tt
  values_Lacks k (v ∷ vs) = (pair-Lacks b'&' k v refl, values_Lacks k vs)

  keys_Lacks : (ks : List Bytes) → All (Lacks b'&') (encode_keys q ks)
  unfolding encode_keys
  keys_Lacks [] = tt
  keys_Lacks (k ∷ ks) =
      All-append (Lacks b'&') (encode_values k (lookup_or [] k q)) (encode_keys q ks)
        (values_Lacks k (lookup_or [] k q)) (keys_Lacks ks)

abbrev no_values : Values
no_values = []

lookup_or-nil : (k : Bytes) → lookup_or [] k no_values ≡ []
unfolding lookup
lookup_or-nil k = refl

-- The parts of a joined list are those of the list, but for the empty list.
parse_joined :
    (parts : List Bytes)
    → All (Lacks b'&') parts
    → parse_query (join (b'&' ∷ []) parts) ≡ parse_pairs parts []
unfolding parse_query
parse_joined [] h = unfold join in unfold split in unfold parse_pairs in unfold parse_pair in refl
parse_joined (p ∷ ps) h = ap (λ l. parse_pairs l []) (split-join b'&' (p ∷ ps) (λ e. cc) h)

-- The map is read back, and has no key twice.
pub parse_query-encode :
    (q : Values)
    → IsQuery q
    → Distinct (keys q)
    → SameMap (parse_query (encode q)) q × Distinct (keys (parse_query (encode q)))
unfolding encode
parse_query-encode q h d =
    let ks = sort less (keys q) in
    let known = All-subset ks (keys q) (λ a c. sym (contains-sort less a (keys q)) ∙ c) in
    let sorted = Distinct-sort less (keys q) d in
    let parsed = parse_joined (encode_keys q ks) (keys_Lacks q h ks) in
    let values = λ (k : Bytes).
      keys_parsed q h k ks [] known sorted
      ∙ ap₂ (λ l b. l ++ (if b then lookup_or [] k q else [])) (lookup_or-nil k)
          (contains-sort less k (keys q))
      ∙ lookup_or_of_keys [] k q in
    let found = λ (k : Bytes). keys_found q h k ks [] known ∙ contains-sort less k (keys q) in
    (
      λ k.
          ap (lookup k) parsed
          ∙ lookup-same [] k (parse_pairs (encode_keys q ks) []) q (found k) (values k),
      subst (λ m. Distinct (keys m)) (sym parsed) (keys-Distinct q h ks [] known tt),
    )
