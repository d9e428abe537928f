-- ===== src/Examples/SourceRuns.antt =====
-- The cases of images/findings-exporter/main_test.go on the sources.
use nineteenseventytwo_platf.Prelude.{
  ◌≡◌, refl, List, [], ◌∷◌, some, Bytes, codes, nat_eq, list_eq, Result, ok, if◌then◌else◌, ◌==◌,
  lookup,
}
use nineteenseventytwo_platf.Exporter.Fetch.{Web, get_json_link, get_json}
use nineteenseventytwo_platf.Exporter.Alertmanager.{AmAlert, am_collect, am_finding, alerts_url}
use nineteenseventytwo_platf.Exporter.Github.{
  GhAlert, next_link, gh_collect, gh_finding, tool_of, read_pages, read_repos, alerts_start,
}

abbrev pub keep_case : Bytes → Bytes
keep_case s = s

next_link_next :
    next_link (
      codes
        "<https://api.github.com/x?page=2>; rel=\"next\", <https://api.github.com/x?page=5>; rel=\"last\"")
    ≡ codes "https://api.github.com/x?page=2"
unfolding next_link
next_link_next = refl

next_link_none : next_link (codes "<https://api.github.com/x?page=1>; rel=\"prev\"") ≡ []
unfolding next_link
next_link_none = refl

abbrev labelled_source : Bytes → List (Bytes × Bytes) → AmAlert
labelled_source src rest = record { labels = (codes "source", src) ∷ rest; starts_at = 7 }

abbrev pub am_alerts : List AmAlert
am_alerts =
    labelled_source (codes "falco") (
      (codes "priority", codes "Warning")
      ∷ (codes "rule", codes "Read sensitive file untrusted")
      ∷ [])
    ∷ labelled_source (codes "kubescape")
        ((codes "severity", codes "warning") ∷ (codes "control", codes "C-0013") ∷ [])
    ∷ record {
      labels =
          (codes "alertname", codes "KubeJobFailed") ∷ (codes "severity", codes "warning") ∷ [];
      starts_at = 7;
    }
    ∷ []

abbrev pub am_sources : List Bytes
am_sources = codes "falco" ∷ codes "kubescape" ∷ []

-- every request is answered with 200
abbrev pub am_web : Web
am_web = record {
  new_request = λ u. ok tt;
  send = λ r. ok (record { status_code = 200; status = codes "200 OK"; link = []; body = [] });
}

abbrev pub am_decode : Bytes → Result Bytes (List AmAlert)
am_decode body = ok am_alerts

am_run :
    am_collect keep_case am_web am_decode (codes "http://am/") am_sources
    ≡ ok (
        (
          codes "falco",
          record {
            severity = codes "medium";
            item = codes "Read sensitive file untrusted";
            since = 7;
          }
              ∷ [],
        )
        ∷ (
          codes "kubescape",
          record { severity = codes "medium"; item = codes "C-0013"; since = 7 } ∷ [],
        )
        ∷ [])
unfolding am_collect get_json alerts_url am_finding lookup
am_run = refl

abbrev gh_alert : Bytes → Bytes → Bytes → GhAlert
gh_alert tool level category = record {
  created_at = 9;
  rule_id = codes "CVE-2026-1";
  rule_severity = codes "error";
  security_severity_level = level;
  tool_name = tool;
  category = category;
}

abbrev pub first_page : List GhAlert
first_page = gh_alert (codes "Trivy") (codes "critical") (codes "ghcr_io_x_") ∷ []

abbrev pub second_page : List GhAlert
second_page = gh_alert (codes "CodeQL") [] [] ∷ gh_alert (codes "checkov") [] [] ∷ []

abbrev pub page_one : Bytes
page_one = codes "https://gh/repos/o/n/code-scanning/alerts?state=open&per_page=100"

-- the first page names the second, which names none
abbrev pub gh_web : Web
gh_web = record {
  new_request = λ u. ok tt;
  send = λ r. ok (record {
    status_code = 200;
    status = codes "200 OK";
    link = if r.url == page_one then codes "<https://gh/2>; rel=\"next\"" else [];
    body = r.url;
  });
}

abbrev pub gh_decode : Bytes → Result Bytes (List GhAlert)
gh_decode body = ok (if body == page_one then first_page else second_page)

abbrev pub gh_tools : List Bytes
gh_tools = codes "trivy" ∷ codes "checkov" ∷ []

gh_run :
    gh_collect keep_case gh_web gh_decode gh_tools 2
      (ok (codes "tok"))
      (codes "https://gh/")
      (codes "o/n" ∷ [])
    ≡ some (
        ok (
          (
            codes "trivy",
            record { severity = codes "critical"; item = codes "ghcr_io_x"; since = 9 } ∷ [],
          )
          ∷ (
            codes "checkov",
            record { severity = codes "high"; item = codes "CVE-2026-1"; since = 9 } ∷ [],
          )
          ∷ []))
unfolding gh_collect read_repos read_pages alerts_start get_json_link next_link gh_finding tool_of
    lookup
gh_run = refl
