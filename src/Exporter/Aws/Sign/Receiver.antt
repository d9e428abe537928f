-- ===== src/Exporter/Aws/Sign/Receiver.antt =====
-- What the description of AWS Signature Version 4 has a receiver compute from a signed request, written
-- after that description, and that `signV4` writes the same texts.
use nineteenseventytwo_platf.Prelude.{
  ◌≡◌, refl, ap, sym, ◌∙◌, List, [], ◌∷◌, ◌++◌, append_assoc, Bytes, codes, take,
}
use nineteenseventytwo_platf.Text.Parts.{join}
use nineteenseventytwo_platf.Text.Headers.{get_header}
use nineteenseventytwo_platf.Text.Url.{parse_query}
use nineteenseventytwo_platf.Exporter.Aws.Canonical.{canonical_path, canonical_query}
use nineteenseventytwo_platf.Exporter.Aws.Sign.{
  Outgoing, Digests, hex, hex_sha256, signing_key, scope, signature, canonical_request,
  authorization, signing_host,
}
use nineteenseventytwo_platf.Exporter.Aws.Sign.Verified.{received_lines}

-- the parts of a credential's scope, from the date to the fixed last word
abbrev pub scope_parts : Bytes → Bytes → Bytes → List Bytes
scope_parts amz_date region service = take 8 amz_date ∷ region ∷ service ∷ codes "aws4_request" ∷ []

-- each part is digested under the digest of the parts before it
abbrev pub derived_key : Digests → Bytes → List Bytes → Bytes
derived_key dig key [] = key
derived_key dig key (part ∷ parts) = derived_key dig (dig.hmac_sha256 key part) parts

-- the algorithm, the time, the scope and the digest of the request, one to a line
abbrev pub text_to_sign : Digests → Bytes → List Bytes → Bytes → Bytes
text_to_sign dig amz_date parts request =
    join (codes "\n")
      (codes "AWS4-HMAC-SHA256" ∷ amz_date ∷ join (codes "/") parts ∷ hex (dig.sha256 request) ∷ [])

-- the method, the path, the query, the signed headers, their names and the digest of the payload, one
-- to a line
abbrev pub received_request : List Bytes → Outgoing → Bytes
received_request names r =
    r.method
    ++ (codes "\n"
        ++ (canonical_path r.url
            ++ (codes "\n"
                ++ (canonical_query (parse_query r.url.raw_query)
                    ++ (codes "\n"
                        ++ (received_lines (signing_host r) r.headers names
                            ++ (codes "\n"
                                ++ (join (codes ";") names
                                    ++ (codes "\n"
                                        ++ get_header (codes "X-Amz-Content-Sha256")
                                            r.headers)))))))))

-- the signature that a receiver computes from the request and the names that it says are signed
abbrev pub received_signature : Digests → Bytes → Bytes → Bytes → List Bytes → Outgoing → Bytes
received_signature dig secret region service names r =
    let amz_date = get_header (codes "X-Amz-Date") r.headers in
    let parts = scope_parts amz_date region service in
    hex (
      dig.hmac_sha256 (derived_key dig (codes "AWS4" ++ secret) parts)
        (text_to_sign dig amz_date parts (received_request names r)))

-- the header that a receiver expects
abbrev pub expected_authorization : Bytes → List Bytes → List Bytes → Bytes → Bytes
expected_authorization access_key_id parts names sig =
    codes "AWS4-HMAC-SHA256 "
    ++ join (codes ", ") (
        (codes "Credential=" ++ join (codes "/") (access_key_id ∷ parts))
        ∷ (codes "SignedHeaders=" ++ join (codes ";") names)
        ∷ (codes "Signature=" ++ sig)
        ∷ [])

canonical_request-received :
    (names : List Bytes) (r : Outgoing)
    → canonical_request r r.headers
        (received_lines (signing_host r) r.headers names)
        (join (codes ";") names)
      ≡ received_request names r
unfolding canonical_request join
canonical_request-received names r = refl

scope-joined :
    (amz_date region service : Bytes)
    → scope (take 8 amz_date) region service
      ≡ join (codes "/") (scope_parts amz_date region service)
unfolding scope join
scope-joined amz_date region service = refl

pub signature-derived :
    (dig : Digests) (secret amz_date region service request : Bytes)
    → signature dig secret amz_date region service request
      ≡ hex (
          dig.hmac_sha256
            (derived_key dig (codes "AWS4" ++ secret) (scope_parts amz_date region service))
            (text_to_sign dig amz_date (scope_parts amz_date region service) request))
unfolding signature signing_key hex_sha256 scope join
signature-derived dig secret amz_date region service request = refl

pub signature-received :
    (dig : Digests) (secret region service : Bytes) (names : List Bytes) (r : Outgoing)
    → signature dig secret (get_header (codes "X-Amz-Date") r.headers) region service (
        canonical_request r r.headers
          (received_lines (signing_host r) r.headers names)
          (join (codes ";") names))
      ≡ received_signature dig secret region service names r
signature-received dig secret region service names r =
    let amz_date = get_header (codes "X-Amz-Date") r.headers in
    ap (signature dig secret amz_date region service) (canonical_request-received names r)
    ∙ signature-derived dig secret amz_date region service (received_request names r)

pub authorization-expected :
    (access_key_id amz_date region service : Bytes) (names : List Bytes) (sig : Bytes)
    → authorization access_key_id
        (scope (take 8 amz_date) region service)
        (join (codes ";") names)
        sig
      ≡ expected_authorization access_key_id (scope_parts amz_date region service) names sig
unfolding authorization join
authorization-expected access_key_id amz_date region service names sig =
    let parts = join (codes "/") (scope_parts amz_date region service) in
    let signed = join (codes ";") names in
    ap (λ sc. authorization access_key_id sc signed sig) (scope-joined amz_date region service)
    ∙ ap (λ rest. codes "AWS4-HMAC-SHA256 Credential=" ++ rest)
        (sym (
          append_assoc access_key_id (codes "/" ++ parts)
            (codes ", SignedHeaders=" ++ (signed ++ (codes ", Signature=" ++ sig)))))
