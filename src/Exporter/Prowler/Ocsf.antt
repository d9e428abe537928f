-- ===== src/Exporter/Prowler/Ocsf.antt =====
-- `parseOCSF` of images/findings-exporter/prowler.go.
pub mod Findings
use nineteenseventytwo_platf.Prelude.{
  ◌≡◌, ◌≢◌, refl, ap, sym, ◌∙◌, ◌↔◌, Bool, true, false, not, ◌&&◌, ◌||◌, List, [], ◌∷◌, ◌++◌, map,
  keep, All, Bytes, codes, Result, ok, err, ◌>>=◌, ◌==◌, nat_eq, list_eq, if◌then◌else◌,
  append_assoc, Bool-cases, inl, inr, append-nil,
}
use nineteenseventytwo_platf.Exporter.Severity.{normalize_severity}
use nineteenseventytwo_platf.Exporter.Store.{Finding}

pub record OcsfFinding : Type 0 where
  pub status_code : Bytes
  pub status : Bytes
  pub severity : Bytes
  pub event_code : Bytes

-- the first token: the `[` of an array, or another one, with its text
pub data OcsfToken : Type 0 where
  open_array : OcsfToken
  other_token : Bytes → OcsfToken

-- What `json.Decoder` reads in a body: the first token, what `Decode` gives as long as there is
-- `More`, and the token behind.
pub record OcsfStream : Type 0 where
  pub opening : Result Bytes OcsfToken
  pub elements : List (Result Bytes OcsfFinding)
  pub closing : Result Bytes OcsfToken

unfoldable pub ignored : OcsfFinding → Bool
ignored f = not (f.status_code == codes "FAIL") || f.status == codes "Suppressed"

module _ (unicode_lower : Bytes → Bytes) where
  unfoldable pub ocsf_finding : OcsfFinding → Finding
  unfolding normalize_severity
  ocsf_finding f = record {
    severity = normalize_severity unicode_lower f.severity;
    item = f.event_code;
    since = 0;
  }

  -- the loop
  unfoldable pub read_elements :
      List (Result Bytes OcsfFinding) → List Finding → Result Bytes (List Finding)
  read_elements [] out = ok out
  read_elements (err e ∷ rest) out = err e
  read_elements (ok f ∷ rest) out =
      read_elements rest (if ignored f then out else out ++ ocsf_finding f ∷ [])

  abbrev pub check_array : OcsfToken → Result Bytes (Unit {0})
  check_array open_array = ok tt
  check_array (other_token text) = err (codes "want a JSON array, got " ++ text)

  unfoldable pub parse_ocsf : OcsfStream → Result Bytes (List Finding)
  unfolding read_elements
  parse_ocsf r = r.opening >>= check_array >>= λ checked.
      read_elements r.elements [] >>= λ out. r.closing >>= λ token. ok out
