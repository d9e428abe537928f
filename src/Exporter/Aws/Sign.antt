-- ===== src/Exporter/Aws/Sign.antt =====
-- `signV4` of images/findings-exporter/sigv4.go: AWS Signature Version 4 of a request with no body.
pub mod Accepted
pub mod Names
pub mod Prepared
pub mod Receiver
pub mod Verified
use nineteenseventytwo_platf.Prelude.{
  ℕ, ◌+◌, ◌/◌, ◌%◌, ◌<◌, Bool, not, List, [], ◌∷◌, ◌++◌, Bytes, codes, Assoc, keys, lookup,
  lookup_or, insert, nat_eq, list_eq, is_empty, ltb, if◌then◌else◌, take, less,
}
use nineteenseventytwo_platf.Prelude.Sort.{sort}
use nineteenseventytwo_platf.Text.Space.{fields}
use nineteenseventytwo_platf.Text.Parts.{join}
use nineteenseventytwo_platf.Text.Case.{to_lower}
use nineteenseventytwo_platf.Text.Dates.{basic_time}
use nineteenseventytwo_platf.Text.Headers.{Header, get_header, set_header}
use nineteenseventytwo_platf.Text.Url.{Url, parse_query}
use nineteenseventytwo_platf.Exporter.Aws.Canonical.{canonical_path, canonical_query}

pub record Credentials : Type 0 where
  pub access_key_id : Bytes
  pub secret_access_key : Bytes
  pub session_token : Bytes
  pub expiration : ℕ

-- the parts of an `http.Request` that are signed
pub record Outgoing : Type 0 where
  pub method : Bytes
  pub host : Bytes
  pub url : Url
  pub headers : Header

-- `crypto/sha256` and `crypto/hmac`: the digests, by key and text
pub record Digests : Type 0 where
  pub sha256 : Bytes → Bytes
  pub hmac_sha256 : Bytes → Bytes → Bytes

abbrev pub empty_sha256 : Bytes
empty_sha256 = codes "e3b0c44298fc1c149afbf4c8996fb92427ae41e4649b934ca495991b7852b855"

abbrev pub low_hex_digit : ℕ → ℕ
low_hex_digit n = if ltb n 10 then 48 + n else 87 + n

-- `hex.EncodeToString`
unfoldable pub hex : Bytes → Bytes
hex [] = []
hex (c ∷ s) = low_hex_digit (c / 16) ∷ low_hex_digit (c % 16) ∷ hex s

abbrev pub date_name : Bytes
date_name = codes "X-Amz-Date"

abbrev pub content_name : Bytes
content_name = codes "X-Amz-Content-Sha256"

abbrev pub session_name : Bytes
session_name = codes "X-Amz-Security-Token"

-- the headers that are added before signing
unfoldable pub with_content : Header → Header
with_content h =
    if is_empty (get_header content_name h) then set_header content_name empty_sha256 h else h

unfoldable pub with_session : Bytes → Header → Header
with_session token h = if not (is_empty token) then set_header session_name token h else h

unfoldable pub prepared : Credentials → Bytes → Header → Header
prepared c amz_date h =
    with_session c.session_token (with_content (set_header date_name amz_date h))

unfoldable pub signing_host : Outgoing → Bytes
signing_host r = if is_empty r.host then r.url.host else r.host

-- white space in values is folded
unfoldable pub header_value : List Bytes → Bytes
unfolding fields join
header_value vs = join (codes " ") (fields (join (codes ",") vs))

unfoldable pub header_lines : Assoc Bytes Bytes → List Bytes → Bytes
unfolding lookup
header_lines m [] = []
header_lines m (k ∷ ks) =
    k ++ (codes ":" ++ (lookup_or [] k m ++ (codes "\n" ++ header_lines m ks)))

-- the canonical request, by its header lines and the names that are signed
unfoldable pub canonical_request : Outgoing → Header → Bytes → Bytes → Bytes
unfolding canonical_path canonical_query parse_query get_header join
canonical_request r h lines signed = join (codes "\n") (
    r.method
    ∷ canonical_path r.url
    ∷ canonical_query (parse_query r.url.raw_query)
    ∷ lines
    ∷ signed
    ∷ get_header content_name h
    ∷ [])

unfoldable pub scope : Bytes → Bytes → Bytes → Bytes
scope day region service =
    day ++ (codes "/" ++ (region ++ (codes "/" ++ (service ++ codes "/aws4_request"))))

module _ (dig : Digests) where
  unfoldable pub hex_sha256 : Bytes → Bytes
  unfolding hex
  hex_sha256 s = hex (dig.sha256 s)

  unfoldable pub signing_key : Bytes → Bytes → Bytes → Bytes → Bytes
  signing_key secret day region service =
      dig.hmac_sha256
        (dig.hmac_sha256 (dig.hmac_sha256 (dig.hmac_sha256 (codes "AWS4" ++ secret) day) region)
          service)
        (codes "aws4_request")

  unfoldable pub signature : Bytes → Bytes → Bytes → Bytes → Bytes → Bytes
  unfolding hex hex_sha256 signing_key scope
  signature secret amz_date region service canonical =
      let day = take 8 amz_date in
      hex (
        dig.hmac_sha256 (signing_key secret day region service) (
          codes "AWS4-HMAC-SHA256\n"
          ++ (amz_date
              ++ (codes "\n"
                  ++ (scope day region service ++ (codes "\n" ++ hex_sha256 canonical))))))

unfoldable pub authorization : Bytes → Bytes → Bytes → Bytes → Bytes
authorization access_key_id sc signed sig =
    codes "AWS4-HMAC-SHA256 Credential="
    ++ (access_key_id
        ++ (codes "/"
            ++ (sc ++ (codes ", SignedHeaders=" ++ (signed ++ (codes ", Signature=" ++ sig))))))

module _ (unicode_lower : Bytes → Bytes) where
  -- the loop over the headers, in the order of the iteration
  unfoldable pub lower_headers : Header → Assoc Bytes Bytes → Assoc Bytes Bytes
  lower_headers [] m = m
  lower_headers ((k, vs) ∷ h) m =
      lower_headers h (insert (to_lower unicode_lower k) (header_value vs) m)

  unfoldable pub signed_headers : Outgoing → Header → Assoc Bytes Bytes
  unfolding lower_headers signing_host
  signed_headers r h = lower_headers h ((codes "host", signing_host r) ∷ [])

  unfoldable pub sign_v4 : Digests → Credentials → Bytes → Bytes → ℕ → Outgoing → Outgoing
  sign_v4 dig c region service now r =
      let amz_date = basic_time now in
      let h = prepared c amz_date r.headers in
      let m = signed_headers r h in
      let names = sort less (keys m) in
      let signed = join (codes ";") names in
      let canonical = canonical_request r h (header_lines m names) signed in
      let sig = signature dig c.secret_access_key amz_date region service canonical in
      record r {
        headers =
            set_header (codes "Authorization")
              (authorization c.access_key_id (scope (take 8 amz_date) region service) signed sig) h;
      }
