-- ===== src/Exporter/Alertmanager/Findings.antt =====
-- What is collected for a source, against a filter of the alerts.
use nineteenseventytwo_platf.Prelude.{
  ◌≡◌, refl, List, [], ◌++◌, Bytes, Assoc, lookup_or, nat_eq, list_eq, codes, Result, ok, err,
}
use nineteenseventytwo_platf.Exporter.Store.{Finding}
use nineteenseventytwo_platf.Exporter.Collected.{collect_by}
use nineteenseventytwo_platf.Exporter.Collected.Findings.{findings_of, collect_by-findings}
use nineteenseventytwo_platf.Exporter.Fetch.{Web, get_json}
use nineteenseventytwo_platf.Exporter.Alertmanager.{
  AmAlert, source_of, alerts_url, am_finding, am_collect,
}

module _ (unicode_lower : Bytes → Bytes) (sources : List Bytes) where
  -- For every Alertmanager: if its alerts cannot be read, `collect` fails with that error behind
  -- `alertmanager: `; if they are read, `collect` succeeds, and has for each source that is asked for
  -- the findings of the alerts with that `source` label, in the order of the alerts, and none for
  -- any other.
  pub am_collect-findings :
      (web : Web) (decode : Bytes → Result Bytes (List AmAlert)) (base : Bytes)
      → ((e : Bytes)
          → get_json web decode (alerts_url base) [] ≡ err e
          → am_collect unicode_lower web decode base sources ≡ err (codes "alertmanager: " ++ e))
        × ((alerts : List AmAlert)
            → get_json web decode (alerts_url base) [] ≡ ok alerts
            → (found : Assoc Bytes (List Finding)) × (am_collect unicode_lower web decode base
                  sources
                ≡ ok found)
              × ((src : Bytes)
                  → lookup_or [] src found
                    ≡ findings_of source_of (am_finding unicode_lower) sources src alerts))
  unfolding am_collect
  am_collect-findings web decode base = (
    λ e h. rw h refl,
    λ alerts h. (
      collect_by source_of (am_finding unicode_lower) sources alerts [],
      rw h refl,
      λ src. collect_by-findings source_of (am_finding unicode_lower) sources src alerts [],
    ),
  )
