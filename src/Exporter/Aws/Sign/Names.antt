-- ===== src/Exporter/Aws/Sign/Names.antt =====
-- The names that `signV4` signs, and the values under them, in whatever order the headers come.
use nineteenseventytwo_platf.Prelude.{
  ◌≡◌, refl, ap, sym, ◌∙◌, Bool, true, false, ◌&&◌, ◌||◌, List, [], ◌∷◌, Bytes, Assoc, keys, lookup,
  lookup_or, insert, nat_eq, list_eq, ◌==◌, list_same_iff, same_comm, lookup-insert,
  Distinct-insert, All, arith, contains, Distinct, if◌then◌else◌, some, Option, lookup_or-cons,
  contains-keys, is_some,
}
use nineteenseventytwo_platf.Text.Case.{to_lower}
use nineteenseventytwo_platf.Text.Headers.{Header, canonical_key, IsName, canonical_key-to_lower}
use nineteenseventytwo_platf.Exporter.Aws.Sign.{header_value, lower_headers}

-- headers as `http.Header` keeps them: canonical names, none twice
abbrev pub IsHeader : Header → Type 0
IsHeader h = All (λ p. IsName p.0) h × Distinct (keys h)

-- The choice between an entry that was there and one that is put before the others.
choose :
    (low known first same : Bool) (x v y : List Bytes) (old new : Option Bytes)
    → y ≡ (if first then v else x)
    → new ≡ (if same then some (header_value v) else old)
    → (same ≡ true → (low ≡ true) × (first ≡ true) × (known ≡ false))
    → (same ≡ false → first ≡ true → low ≡ false)
    → (if low && known then some (header_value x) else new)
      ≡ (if low && (first || known) then some (header_value y) else old)
choose true known true true x v y old new hy hn h k = ground arith
choose true known true false x v y old new hy hn h k = ground arith
choose true known false true x v y old new hy hn h k = ground arith
choose true known false false x v y old new hy hn h k = ground arith
choose false known first true x v y old new hy hn h k = ground arith
choose false known first false x v y old new hy hn h k = ground arith

module _ (unicode_lower : Bytes → Bytes) where
  -- whether `n` is a name of the headers in lower case
  abbrev pub lowered : Bytes → Header → Bool
  lowered n h = to_lower unicode_lower (canonical_key n) == n && contains (canonical_key n) (keys h)

  -- one header more
  inserted :
      (n k : Bytes) (vs : List Bytes) (h : Header) (m : Assoc Bytes Bytes)
      → IsHeader ((k, vs) ∷ h)
      → (if lowered n h
          then some (header_value (lookup_or [] (canonical_key n) h))
          else lookup n (insert (to_lower unicode_lower k) (header_value vs) m))
        ≡ (if lowered n ((k, vs) ∷ h)
            then some (header_value (lookup_or [] (canonical_key n) ((k, vs) ∷ h)))
            else lookup n m)
  inserted n k vs h m i =
      let low = to_lower unicode_lower k in
      let c = canonical_key n in
      let back : canonical_key low ≡ k = canonical_key-to_lower unicode_lower k i.0.0 in
      let put = lookup-insert n low (header_value vs) m in
      let found = lookup_or-cons [] c k vs h in
      choose (to_lower unicode_lower c == n) (contains c (keys h)) (c == k) (n == low)
        (lookup_or [] c h) vs (lookup_or [] c ((k, vs) ∷ h)) (lookup n m)
        (lookup n (insert low (header_value vs) m)) found put
        (λ same.
          let is_low : n ≡ low = (list_same_iff n low).0 same in
          let is_k : c ≡ k = ap canonical_key is_low ∙ back in
          (
            (list_same_iff (to_lower unicode_lower c) n).1
                (ap (to_lower unicode_lower) is_k ∙ sym is_low),
            (list_same_iff c k).1 is_k,
            ap (λ x. contains x (keys h)) is_k ∙ i.1.0,
          ))
        (λ other first.
          ap (λ x. to_lower unicode_lower x == n) ((list_same_iff c k).0 first)
          ∙ same_comm low n
          ∙ other)

  pub lookup-lower_headers :
      (n : Bytes) (h : Header) (m : Assoc Bytes Bytes)
      → IsHeader h
      → lookup n (lower_headers unicode_lower h m) ≡ (
          if lowered n h
          then some (header_value (lookup_or [] (canonical_key n) h))
          else lookup n m)
  unfolding lower_headers
  lookup-lower_headers n [] m i = ground arith
  lookup-lower_headers n ((k, vs) ∷ h) m i =
      lookup-lower_headers n h (insert (to_lower unicode_lower k) (header_value vs) m)
        (i.0.1, i.1.1)
      ∙ inserted n k vs h m i

  -- what is a name of the result
  pub contains-lower_headers :
      (n : Bytes) (h : Header) (m : Assoc Bytes Bytes)
      → IsHeader h
      → contains n (keys (lower_headers unicode_lower h m)) ≡ (lowered n h || contains n (keys m))
  contains-lower_headers n h m i =
      contains-keys n (lower_headers unicode_lower h m)
      ∙ ap is_some (lookup-lower_headers n h m i)
      ∙ either (lowered n h) n m _
    where
      either :
          (b : Bool) (n : Bytes) (m : Assoc Bytes Bytes) (v : Bytes)
          → is_some (if b then some v else lookup n m) ≡ (b || contains n (keys m))
      either true n m v = refl
      either false n m v = sym (contains-keys n m)

  pub Distinct-lower_headers :
      (h : Header) (m : Assoc Bytes Bytes)
      → Distinct (keys m)
      → Distinct (keys (lower_headers unicode_lower h m))
  unfolding lower_headers
  Distinct-lower_headers [] m d = d
  Distinct-lower_headers ((k, vs) ∷ h) m d =
      Distinct-lower_headers h (insert (to_lower unicode_lower k) (header_value vs) m)
        (Distinct-insert (to_lower unicode_lower k) (header_value vs) m d)
