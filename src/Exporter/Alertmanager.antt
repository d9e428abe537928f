-- ===== src/Exporter/Alertmanager.antt =====
-- `alertmanagerSource.collect` of images/findings-exporter/sources.go.
pub mod Findings
use nineteenseventytwo_platf.Prelude.{
  ℕ, Bool, not, List, [], ◌∷◌, ◌++◌, Bytes, codes, Assoc, lookup, lookup_or, insert, contains,
  nat_eq, list_eq, ◌==◌, Result, ok, err, ◌>>=◌, wrap, if◌then◌else◌,
}
use nineteenseventytwo_platf.Text.Affix.{trim_right}
use nineteenseventytwo_platf.Exporter.Severity.{normalize_severity}
use nineteenseventytwo_platf.Exporter.Store.{Finding}
use nineteenseventytwo_platf.Exporter.Collected.{collect_by}
use nineteenseventytwo_platf.Exporter.Fetch.{Web, get_json}

pub record AmAlert : Type 0 where
  pub labels : Assoc Bytes Bytes
  pub starts_at : ℕ

-- `al.Labels[name]`
abbrev pub label_of : Bytes → AmAlert → Bytes
label_of name al = lookup_or [] name al.labels

abbrev pub source_of : AmAlert → Bytes
source_of al = label_of (codes "source") al

-- `url.Values.Encode` orders the keys
unfoldable pub alerts_url : Bytes → Bytes
unfolding trim_right
alerts_url base =
    trim_right (codes "/") base ++ codes "/api/v2/alerts?active=true&inhibited=false&silenced=false"

module _ (unicode_lower : Bytes → Bytes) where
  -- the labels with the severity and with the item
  unfoldable pub finding_by : Bytes → Bytes → AmAlert → Finding
  unfolding lookup normalize_severity
  finding_by severity item al = record {
    severity = normalize_severity unicode_lower (label_of severity al);
    item = label_of item al;
    since = al.starts_at;
  }

  -- the `switch`
  unfoldable pub am_finding : AmAlert → Finding
  unfolding finding_by
  am_finding al =
      if source_of al == codes "falco"
      then finding_by (codes "priority") (codes "rule") al
      else if source_of al == codes "kubescape"
      then finding_by (codes "severity") (codes "control") al
      else finding_by (codes "severity") (codes "alertname") al

  unfoldable pub am_collect :
      Web
      → (Bytes → Result Bytes (List AmAlert))
      → Bytes
      → List Bytes
      → Result Bytes (Assoc Bytes (List Finding))
  unfolding collect_by
  am_collect web decode base sources =
      wrap (λ e. codes "alertmanager: " ++ e) (get_json web decode (alerts_url base) [])
      >>= λ alerts. ok (collect_by source_of am_finding sources alerts [])
