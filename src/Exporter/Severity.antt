-- ===== src/Exporter/Severity.antt =====
-- `normalizeSeverity` of images/findings-exporter/main.go: each tool's vocabulary on one scale.
pub mod Scale
use nineteenseventytwo_platf.Prelude.{
  List, [], ◌∷◌, Bytes, codes, contains, nat_eq, list_eq, if◌then◌else◌,
}
use nineteenseventytwo_platf.Text.Space.{trim_space}
use nineteenseventytwo_platf.Text.Case.{to_lower}

abbrev pub critical_words : List Bytes
critical_words = codes "critical" ∷ codes "emergency" ∷ codes "alert" ∷ codes "fatal" ∷ []

abbrev pub high_words : List Bytes
high_words = codes "high" ∷ codes "error" ∷ []

abbrev pub medium_words : List Bytes
medium_words = codes "medium" ∷ codes "warning" ∷ codes "moderate" ∷ []

abbrev pub low_words : List Bytes
low_words = codes "low" ∷ codes "notice" ∷ codes "note" ∷ []

abbrev pub info_words : List Bytes
info_words = codes "informational" ∷ codes "info" ∷ codes "debug" ∷ []

-- the `switch`
unfoldable pub severity_of : Bytes → Bytes
severity_of w =
    if contains w critical_words
    then codes "critical"
    else if contains w high_words
    then codes "high"
    else if contains w medium_words
    then codes "medium"
    else if contains w low_words
    then codes "low"
    else if contains w info_words
    then codes "info"
    else codes "unknown"

-- `unicode_lower` lowers texts that are not ASCII.
unfoldable pub normalize_severity : (Bytes → Bytes) → Bytes → Bytes
unfolding severity_of to_lower trim_space
normalize_severity unicode_lower s = severity_of (to_lower unicode_lower (trim_space s))
