-- ===== src/Exporter/Aws/Sign/Accepted.antt =====
-- A receiver that knows the secret accepts what `signV4` signs.
use nineteenseventytwo_platf.Prelude.{
  is_empty, ℕ, ◌≡◌, true, false, ◌||◌, List, [], ◌∷◌, Bytes, codes, Assoc, keys, lookup, nat_eq,
  list_eq, ◌==◌, All, contains, Distinct, some, none, take, less,
}
use nineteenseventytwo_platf.Prelude.Sort.{sort, IsSorted}
use nineteenseventytwo_platf.Text.Parts.{join}
use nineteenseventytwo_platf.Text.Case.{to_lower}
use nineteenseventytwo_platf.Text.Dates.{basic_time}
use nineteenseventytwo_platf.Text.Headers.{Header, get_header, set_header}
use nineteenseventytwo_platf.Exporter.Aws.Sign.{
  Credentials, Outgoing, Digests, date_name, content_name, session_name, prepared, header_lines,
  canonical_request, scope, signature, authorization, signed_headers,
}
use nineteenseventytwo_platf.Exporter.Aws.Sign.Names.{IsHeader}
use nineteenseventytwo_platf.Exporter.Aws.Sign.Verified.{authorization_name}
use nineteenseventytwo_platf.Exporter.Aws.Sign.Receiver.{
  scope_parts, expected_authorization, received_signature,
}

-- The request carries the credential's scope and the signature that a receiver computes from it.
-- It has its date, a digest of its payload and the session token of temporary credentials.
-- The names that are signed are sorted, none is signed twice, and all that is sent is among them.
abbrev pub IsAccepted :
    (Bytes → Bytes) → Digests → Credentials → Bytes → Bytes → Bytes → List Bytes → Outgoing → Type 0
IsAccepted unicode_lower dig c region service amz_date names sent =
    (lookup authorization_name sent.headers
      ≡ some (
          expected_authorization c.access_key_id (scope_parts amz_date region service) names
            (received_signature dig c.secret_access_key region service names sent)
          ∷ []))
    × (get_header date_name sent.headers ≡ amz_date)
    × (is_empty (get_header content_name sent.headers) ≡ false)
    × ((is_empty c.session_token || get_header session_name sent.headers == c.session_token) ≡ true)
    × IsSorted less names
    × Distinct names
    × (contains (codes "host") names ≡ true)
    × All (λ k. (k == authorization_name || contains (to_lower unicode_lower k) names) ≡ true)
        (keys sent.headers)

module _ (unicode_lower : Bytes → Bytes) (dig : Digests) (c : Credentials) (region service : Bytes)
    (now : ℕ) (r : Outgoing) (i : IsHeader r.headers)
    (no_authorization : lookup authorization_name r.headers ≡ none)
    (no_host : lookup (codes "Host") r.headers ≡ none) where
  abbrev ready : Header
  ready = prepared c (basic_time now) r.headers

  abbrev signed : Assoc Bytes Bytes
  signed = signed_headers unicode_lower r ready

  abbrev names : List Bytes
  names = sort less (keys signed)

  module _ (value : Bytes) where
    abbrev sent : Header
    sent = set_header authorization_name value ready

  abbrev value_sent : Bytes
  value_sent =
      authorization c.access_key_id (scope (take 8 (basic_time now)) region service)
        (join (codes ";") names)
        (signature dig c.secret_access_key (basic_time now) region service
          (canonical_request r ready (header_lines signed names) (join (codes ";") names)))
