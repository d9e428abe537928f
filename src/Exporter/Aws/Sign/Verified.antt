-- ===== src/Exporter/Aws/Sign/Verified.antt =====
-- What a receiver of a signed request computes, and that it reads what was signed.
use nineteenseventytwo_platf.Prelude.{
  and_false, ◌≡◌, refl, ap, ap₂, sym, subst, ◌∙◌, Bool, true, false, ◌&&◌, List, [], ◌∷◌, ◌++◌,
  Bytes, codes, Assoc, keys, lookup, lookup_or, nat_eq, list_eq, ◌==◌, list_same_iff,
  lookup_or-insert, contains-keys, All, arith, contains, Bool-cases, inl, inr, if◌then◌else◌, some,
  none, Option, is_some,
}
use nineteenseventytwo_platf.Text.Case.{to_lower, lower}
use nineteenseventytwo_platf.Text.Headers.{
  Header, get_header, set_header, canonical_key, IsName, upper, first_value, canonical_from,
}
use nineteenseventytwo_platf.Exporter.Aws.Sign.{header_value, header_lines, lower_headers}
use nineteenseventytwo_platf.Exporter.Aws.Sign.Names.{IsHeader, lowered, lookup-lower_headers}

abbrev pub authorization_name : Bytes
authorization_name = codes "Authorization"

-- the value of a signed name in the request as it is received
abbrev pub received_value : Bytes → Header → Bytes → Bytes
received_value host h n =
    if n == codes "host" then host else header_value (lookup_or [] (canonical_key n) h)

abbrev pub received_lines : Bytes → Header → List Bytes → Bytes
received_lines host h [] = []
received_lines host h (n ∷ ns) =
    n ++ (codes ":" ++ (received_value host h n ++ (codes "\n" ++ received_lines host h ns)))

-- the names of an `Assoc` of headers are in canonical form
pub IsName-contains :
    (k : Bytes) (h : Header) → All (λ p. IsName p.0) h → contains k (keys h) ≡ true → IsName k
IsName-contains k [] i c = cc
IsName-contains k ((j, vs) ∷ h) i c = elim (Bool-cases (k == j)) [
  | inl same ↦ subst IsName (sym ((list_same_iff k j).0 same)) i.0
  | inr other ↦ IsName-contains k h i.1 (rw other at c)
]

pub absent : (k : Bytes) (h : Header) → lookup k h ≡ none → contains k (keys h) ≡ false
absent k h e = contains-keys k h ∙ ap is_some e

pub other_name :
    (j k : Bytes) (h : Header) → contains j (keys h) ≡ true → lookup k h ≡ none → (j == k) ≡ false
other_name j k h c e = elim (Bool-cases (j == k)) [
  | inr other ↦ other
  | inl same ↦
      let there : contains k (keys h) ≡ true =
        subst (λ x. contains x (keys h) ≡ true) ((list_same_iff j k).0 same) c in
      let missing = absent k h e in cc
]

pub get_header-set_header :
    (j k v : Bytes) (h : Header)
    → (j == k) ≡ false
    → get_header j (set_header k v h) ≡ get_header j h
unfolding get_header set_header
get_header-set_header j k v h other =
    ap first_value (rw other at (lookup_or-insert [] j k (v ∷ []) h))

canonical_host : canonical_key (codes "host") ≡ codes "Host"
unfolding canonical_key canonical_from lower upper
canonical_host = refl

-- The entry of a signed name, by whether it is the host's.
found_value :
    (is_host known : Bool) (x hv : Bytes) (entry : Option Bytes)
    → entry ≡ (if known then some x else (if is_host then some hv else none))
    → (is_host ≡ true → known ≡ false)
    → is_some entry ≡ true
    → elim entry [ none ↦ [] | some v ↦ v ] ≡ (if is_host then hv else x)
found_value true true x hv entry e h c = ground arith
found_value true false x hv entry e h c = ground arith
found_value false true x hv entry e h c = ground arith
found_value false false x hv entry e h c = ground arith

is_known :
    (low is_host known : Bool) (x hv : Bytes) (entry : Option Bytes)
    → entry ≡ (if low && known then some x else (if is_host then some hv else none))
    → is_host ≡ false
    → is_some entry ≡ true
    → known ≡ true
is_known low is_host true x hv entry e h c = refl
is_known low is_host false x hv entry e h c = ground arith

agree :
    (b : Bool) (x y z : Bytes) → (b ≡ false → y ≡ z) → (if b then x else y) ≡ (if b then x else z)
agree true x y z h = refl
agree false x y z h = h refl

lookup-one : (n k v : Bytes) → lookup n ((k, v) ∷ []) ≡ (if n == k then some v else none)
unfolding lookup
lookup-one n k v = refl

module _ (unicode_lower : Bytes → Bytes) (host : Bytes) (h : Header) (i : IsHeader h) where
  abbrev signed_map : Assoc Bytes Bytes
  signed_map = lower_headers unicode_lower h ((codes "host", host) ∷ [])

  signed_entry :
      (n : Bytes)
      → lookup n signed_map ≡ (
          if lowered unicode_lower n h
          then some (header_value (lookup_or [] (canonical_key n) h))
          else (if n == codes "host" then some host else none))
  signed_entry n =
      rw (lookup-one n (codes "host") host) at
        (lookup-lower_headers unicode_lower n h ((codes "host", host) ∷ []) i)

  module _ (no_host : lookup (codes "Host") h ≡ none)
      (no_authorization : lookup authorization_name h ≡ none) (value : Bytes) where
    host_not_lowered : (n : Bytes) → (n == codes "host") ≡ true → lowered unicode_lower n h ≡ false
    host_not_lowered n e =
        and_false (to_lower unicode_lower (canonical_key n) == n)
          (contains (canonical_key n) (keys h))
          (ap (λ x. contains (canonical_key x) (keys h)) ((list_same_iff n (codes "host")).0 e)
            ∙ ap (λ x. contains x (keys h)) canonical_host
            ∙ absent (codes "Host") h no_host)

    -- what was signed under a name is what is read there afterwards
    signed_value :
        (n : Bytes)
        → contains n (keys signed_map) ≡ true
        → lookup_or [] n signed_map ≡ received_value host (set_header authorization_name value h) n
    unfolding set_header
    signed_value n c =
        let name = canonical_key n in
        let entry = signed_entry n in
        let here = sym (contains-keys n signed_map) ∙ c in
        let x = header_value (lookup_or [] name h) in
        let found =
          found_value (n == codes "host") (lowered unicode_lower n h) x host (lookup n signed_map)
            entry (host_not_lowered n) here in
        found
        ∙ agree (n == codes "host") host x
            (header_value (lookup_or [] name (set_header authorization_name value h)))
            (λ e.
              let known =
                is_known (to_lower unicode_lower name == n) (n == codes "host")
                  (contains name (keys h)) x host (lookup n signed_map) entry e here in
              let other = other_name name authorization_name h known no_authorization in
              ap header_value
                (sym (rw other at (lookup_or-insert [] name authorization_name (value ∷ []) h))))

    pub signed_lines :
        (ns : List Bytes)
        → All (λ n. contains n (keys signed_map) ≡ true) ns
        → header_lines signed_map ns
          ≡ received_lines host (set_header authorization_name value h) ns
    unfolding header_lines
    signed_lines [] a = refl
    signed_lines (n ∷ ns) a =
        ap₂ (λ v l. n ++ (codes ":" ++ (v ++ (codes "\n" ++ l)))) (signed_value n a.0)
          (signed_lines ns a.1)
