-- ===== src/Exporter/Aws/Sign/Prepared.antt =====
-- The headers that `signV4` adds before it signs.
use nineteenseventytwo_platf.Prelude.{
  ◌≡◌, refl, ap, none, Option, ◌∙◌, Bool, false, not, List, [], ◌∷◌, Bytes, lookup, insert, nat_eq,
  list_eq, ◌==◌, lookup-insert, Distinct-insert, All, Bool-cases, inl, inr, if◌then◌else◌, some,
  is_empty,
}
use nineteenseventytwo_platf.Text.Case.{is_ascii, lower}
use nineteenseventytwo_platf.Text.Headers.{
  Header, get_header, set_header, canonical_key, IsName, upper, first_value,
}
use nineteenseventytwo_platf.Exporter.Aws.Sign.{
  Credentials, date_name, content_name, session_name, with_content, with_session, prepared,
  empty_sha256,
}
use nineteenseventytwo_platf.Exporter.Aws.Sign.Names.{IsHeader}

-- headers stay headers
All-IsName-insert :
    (k : Bytes) (vs : List Bytes) (h : Header)
    → IsName k
    → All (λ p. IsName p.0) h
    → All (λ p. IsName p.0) (insert k vs h)
unfolding insert
All-IsName-insert k vs [] n i = (n, tt)
All-IsName-insert k vs ((j, ws) ∷ h) n i = elim (Bool-cases (k == j)) [
  | inl same ↦ rw same i
  | inr other ↦ rw other (i.0, All-IsName-insert k vs h n i.1)
]

pub IsHeader-set_header :
    (k v : Bytes) (h : Header) → IsName k → IsHeader h → IsHeader (set_header k v h)
unfolding set_header
IsHeader-set_header k v h n i =
    (All-IsName-insert k (v ∷ []) h n i.0, Distinct-insert k (v ∷ []) h i.1)

pub lookup-set_header :
    (j k v : Bytes) (h : Header)
    → lookup j (set_header k v h) ≡ (if j == k then some (v ∷ []) else lookup j h)
unfolding set_header
lookup-set_header j k v h = lookup-insert j k (v ∷ []) h

pub get_header_of_lookup :
    (k v : Bytes) (h : Header) → lookup k h ≡ some (v ∷ []) → get_header k h ≡ v
unfolding get_header
get_header_of_lookup k v h e =
    ap (λ (o : Option (List Bytes)). first_value (elim o [ none ↦ [] | some vs ↦ vs ])) e

same_header : (k : Bytes) (g h : Header) → lookup k g ≡ lookup k h → get_header k g ≡ get_header k h
unfolding get_header
same_header k g h e =
    ap (λ (o : Option (List Bytes)). first_value (elim o [ none ↦ [] | some vs ↦ vs ])) e

-- a header that is set on a condition
module _ (b : Bool) (k v : Bytes) (h : Header) where
  IsHeader-if : IsName k → IsHeader h → IsHeader (if b then set_header k v h else h)
  IsHeader-if n i = elim (Bool-cases b) [
    | inl e ↦ rw e (IsHeader-set_header k v h n i)
    | inr e ↦ rw e i
  ]

  lookup-if :
      (j : Bytes) → (j == k) ≡ false → lookup j (if b then set_header k v h else h) ≡ lookup j h
  lookup-if j other = elim (Bool-cases b) [
    | inl e ↦ rw e (rw other at (lookup-set_header j k v h))
    | inr e ↦ rw e refl
  ]

date-IsName : IsName date_name
unfolding is_ascii canonical_key upper lower
date-IsName = (refl, refl)

content-IsName : IsName content_name
unfolding is_ascii canonical_key upper lower
content-IsName = (refl, refl)

session-IsName : IsName session_name
unfolding is_ascii canonical_key upper lower
session-IsName = (refl, refl)

module _ (c : Credentials) (amz_date : Bytes) (h : Header) where
  pub prepared-IsHeader : IsHeader h → IsHeader (prepared c amz_date h)
  unfolding prepared with_session with_content
  prepared-IsHeader i =
      let dated = set_header date_name amz_date h in
      IsHeader-if (not (is_empty c.session_token)) session_name c.session_token (with_content dated)
        session-IsName
        (IsHeader-if (is_empty (get_header content_name dated)) content_name empty_sha256 dated
          content-IsName (IsHeader-set_header date_name amz_date h date-IsName i))

  -- what is set last before the session token and the content's digest stays
  lookup-dated :
      (k : Bytes)
      → (k == content_name) ≡ false
      → (k == session_name) ≡ false
      → lookup k (prepared c amz_date h) ≡ lookup k (set_header date_name amz_date h)
  unfolding prepared with_session with_content
  lookup-dated k b d =
      let dated = set_header date_name amz_date h in
      lookup-if (not (is_empty c.session_token)) session_name c.session_token (with_content dated) k
        d
      ∙ lookup-if (is_empty (get_header content_name dated)) content_name empty_sha256 dated k b

  pub lookup-prepared :
      (k : Bytes)
      → (k == date_name) ≡ false
      → (k == content_name) ≡ false
      → (k == session_name) ≡ false
      → lookup k (prepared c amz_date h) ≡ lookup k h
  lookup-prepared k a b d = lookup-dated k b d ∙ rw a at (lookup-set_header k date_name amz_date h)

  pub date-prepared : lookup date_name (prepared c amz_date h) ≡ some (amz_date ∷ [])
  date-prepared =
      lookup-dated date_name refl refl ∙ lookup-set_header date_name date_name amz_date h

  pub session-prepared :
      is_empty c.session_token ≡ false
      → lookup session_name (prepared c amz_date h) ≡ some (c.session_token ∷ [])
  unfolding prepared with_session
  session-prepared e =
      let more = with_content (set_header date_name amz_date h) in
      rw e (lookup-set_header session_name session_name c.session_token more)

  -- a digest of the payload is there, or it is set to that of none
  with_content-given : (g : Header) → is_empty (get_header content_name (with_content g)) ≡ false
  unfolding with_content
  with_content-given g = elim (Bool-cases (is_empty (get_header content_name g))) [
    | inl nothing ↦ rw nothing (
        ap is_empty (
          get_header_of_lookup content_name empty_sha256 (set_header content_name empty_sha256 g)
            (lookup-set_header content_name content_name empty_sha256 g)))
    | inr given ↦ rw given given
  ]

  pub content-prepared : is_empty (get_header content_name (prepared c amz_date h)) ≡ false
  unfolding prepared with_session
  content-prepared =
      let more = with_content (set_header date_name amz_date h) in
      ap is_empty (
        same_header content_name (with_session c.session_token more) more (
          lookup-if (not (is_empty c.session_token)) session_name c.session_token more content_name
            refl))
      ∙ with_content-given (set_header date_name amz_date h)
