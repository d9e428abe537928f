-- ===== src/Examples/ScanTheorems.antt =====
-- A theorem on the process of images/findings-exporter at a run with the poller of GitHub.
use nineteenseventytwo_platf.Prelude.{
  ◌≡◌, refl, List, [], ◌∷◌, codes, Bytes, some, nat_eq, list_eq, lookup,
}
use nineteenseventytwo_platf.Exporter.Alertmanager.{am_collect}
use nineteenseventytwo_platf.Exporter.Fetch.{get_json, get_json_link}
use nineteenseventytwo_platf.Exporter.Github.{gh_collect, read_pages, alerts_start, next_link}
use nineteenseventytwo_platf.Exporter.GithubApp.{file_token}
use nineteenseventytwo_platf.Exporter.Poll.{poll_calls}
use nineteenseventytwo_platf.Exporter.Start.{Plan, GithubPlan, file_auth}
use nineteenseventytwo_platf.Exporter.System.{
  alertmanager, github, System, started, Meeting, github_meets, auth_token, Event, begins,
  calls_store, at_start, run_events, advance, collection,
}
use nineteenseventytwo_platf.Exporter.System.Scans.{scanned_after, Reach-scanned}
use nineteenseventytwo_platf.Exporter.System.Shown.{shown}
use nineteenseventytwo_platf.Exporter.System.Steps.{after, run-Reach}
use nineteenseventytwo_platf.Examples.AwsRuns.{aws_time}
use nineteenseventytwo_platf.Examples.SourceRuns.{keep_case, gh_tools, gh_web, gh_decode}
use nineteenseventytwo_platf.Examples.StartTheorems.{app_world}
use nineteenseventytwo_platf.Examples.SystemTheorems.{plan, clock, alerts_meeting, or_started}

abbrev repository : GithubPlan
repository = record {
  api = codes "https://gh";
  repos = codes "o/n" ∷ [];
  tools = gh_tools;
  auth = file_auth (codes "/token");
  interval = 900;
}

abbrev scanning : Plan
scanning = record plan { github = some repository }

abbrev scans_meeting : Meeting Bytes
scans_meeting = github_meets gh_web gh_decode app_world aws_time clock

abbrev scan_events : List (Event Bytes)
scan_events =
    begins alerts_meeting
    ∷ begins scans_meeting
    ∷ calls_store github
    ∷ calls_store alertmanager
    ∷ calls_store github
    ∷ []

abbrev scanned : System
scanned = or_started (run_events keep_case 2 scanning scan_events started)

scanned_runs : run_events keep_case 2 scanning scan_events started ≡ some scanned
unfolding advance collection auth_token file_token gh_collect poll_calls am_collect get_json
    get_json_link next_link read_pages alerts_start
scanned_runs = refl

scanned_idle : scanned.pending github ≡ []
unfolding advance collection auth_token file_token gh_collect poll_calls am_collect get_json
    get_json_link next_link read_pages alerts_start
scanned_idle = refl

-- the poller of Alertmanager is in the midst of its calls
Reach-scanned_example :
    shown (lookup (codes "trivy") scanned.store)
    ≡ scanned_after keep_case 2 repository
        (codes "trivy")
        (after Bytes keep_case 2 scanning scan_events [])
Reach-scanned_example =
    Reach-scanned Bytes keep_case 2 scanning repository (codes "trivy") refl refl refl
      (after Bytes keep_case 2 scanning scan_events []) scanned
      (run-Reach Bytes keep_case 2 scanning scan_events [] started scanned (at_start started refl)
        scanned_runs)
      scanned_idle
