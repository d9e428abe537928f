-- ===== src/Examples/SystemTheorems.antt =====
-- The theorems on the process of images/findings-exporter at a run of two pollers.
use nineteenseventytwo_platf.Prelude.{
  ℕ, ◌≡◌, refl, true, List, [], ◌∷◌, Bytes, codes, Option, none, some, nat_eq, list_eq, lookup,
}
use nineteenseventytwo_platf.Exporter.Start.{Plan, ProwlerPlan, metrics_handler}
use nineteenseventytwo_platf.Exporter.System.{
  Poller, alertmanager, github, prowler, System, started, Meeting, alertmanager_meets,
  prowler_meets, Event, begins, calls_store, Reach, at_start, run_events, advance, collection,
}
use nineteenseventytwo_platf.Exporter.System.Atomic.{
  Atomic, Follows, atomic_after, Reach-Follows, idle-exposition,
}
use nineteenseventytwo_platf.Exporter.Alertmanager.{am_collect}
use nineteenseventytwo_platf.Exporter.Aws.WebIdentity.{get, sts_request, exchange, sts_reply}
use nineteenseventytwo_platf.Exporter.Fetch.{get_json}
use nineteenseventytwo_platf.Exporter.System.Shown.{shown}
use nineteenseventytwo_platf.Exporter.System.Alerts.{shown_after, Reach-shown}
use nineteenseventytwo_platf.Exporter.Poll.{poll_calls}
use nineteenseventytwo_platf.Exporter.Prowler.Listing.{list_page, newest_in, newer}
use nineteenseventytwo_platf.Exporter.Prowler.Ocsf.{ignored, ocsf_finding}
use nineteenseventytwo_platf.Exporter.Severity.{normalize_severity}
use nineteenseventytwo_platf.Exporter.Prowler.{data_times, prowler_collect}
use nineteenseventytwo_platf.Exporter.Store.History.{apply}
use nineteenseventytwo_platf.Exporter.System.Entry.{prowler_name, IsReported}
use nineteenseventytwo_platf.Exporter.System.Reported.{Reach-IsReported}
use nineteenseventytwo_platf.Exporter.System.Steps.{after, run-Reach}
use nineteenseventytwo_platf.Examples.AwsRuns.{identity, sts_world, aws_time}
use nineteenseventytwo_platf.Examples.ProwlerTheorems.{
  bucket, world, report_of, modified_of, world-Dates,
}
use nineteenseventytwo_platf.Examples.SourceRuns.{keep_case, am_sources, am_web, am_decode}

abbrev scans : ProwlerPlan
scans = record { source = bucket; creds = identity; interval = 3600 }

abbrev pub plan : Plan
plan = record {
  alertmanager = some (record { base = codes "http://am"; sources = am_sources; interval = 60 });
  github = none;
  prowler = some scans;
  listen = codes ":8080";
}

abbrev pub clock : ℕ → ℕ
clock i = aws_time

abbrev pub alerts_meeting : Meeting Bytes
alerts_meeting = alertmanager_meets am_web am_decode clock

abbrev scan_meeting : Meeting Bytes
scan_meeting = prowler_meets world sts_world aws_time clock

-- two rounds whose calls take turns
abbrev events : List (Event Bytes)
events =
    begins alerts_meeting
    ∷ begins scan_meeting
    ∷ calls_store alertmanager
    ∷ calls_store prowler
    ∷ calls_store alertmanager
    ∷ calls_store prowler
    ∷ []

abbrev pub or_started : Option System → System
or_started none = started
or_started (some s) = s

abbrev ran : System
ran = or_started (run_events keep_case 1 plan events started)

runs : run_events keep_case 1 plan events started ≡ some ran
unfolding advance collection prowler_collect get sts_request exchange sts_reply list_page poll_calls
    am_collect get_json newest_in newer data_times
runs = refl

reached : Reach keep_case 1 plan (after Bytes keep_case 1 plan events []) ran
reached = run-Reach Bytes keep_case 1 plan events [] started ran (at_start started refl) runs

Reach-Follows_example :
    Follows ran (atomic_after keep_case 1 plan (after Bytes keep_case 1 plan events []))
Reach-Follows_example =
    Reach-Follows Bytes keep_case 1 plan refl (after Bytes keep_case 1 plan events []) ran reached

idle : (w : Poller) → ran.pending w ≡ []
unfolding advance collection prowler_collect get sts_request exchange sts_reply list_page poll_calls
    am_collect get_json newest_in newer data_times
idle alertmanager = refl
idle github = refl
idle prowler = refl

idle-exposition_example :
    (a : Atomic) × (atomic_after keep_case 1 plan (after Bytes keep_case 1 plan events []) ≡ some a)
    × (metrics_handler ran.store ≡ metrics_handler a.store)
idle-exposition_example =
    idle-exposition Bytes keep_case 1 plan refl (after Bytes keep_case 1 plan events []) ran reached
      idle

Reach-IsReported_example :
    IsReported keep_case bucket 1 report_of modified_of ran.kept.prowler_state
      (lookup prowler_name ran.store)
Reach-IsReported_example =
    Reach-IsReported Bytes keep_case 1 plan scans report_of modified_of refl refl
      (after Bytes keep_case 1 plan events []) ran reached
      (tt, (tt, (tt, (tt, ((λ c key body h. refl, world-Dates), (tt, tt)))))) (idle prowler)

-- the report is read, and what fails in it is there
reported_run :
    lookup prowler_name ran.store
    ≡ some (record {
      findings =
          record { severity = codes "high"; item = codes "s3_bucket_no_mfa_delete"; since = 0 }
          ∷ record { severity = codes "low"; item = codes "iam_x"; since = 0 }
          ∷ [];
      up = true;
      last_success = aws_time;
      data_time = 7;
    })
unfolding advance collection prowler_collect get sts_request exchange sts_reply list_page poll_calls
    am_collect get_json newest_in newer data_times lookup apply ignored ocsf_finding
    normalize_severity
reported_run = refl

Reach-shown_example :
    shown (lookup (codes "falco") ran.store)
    ≡ shown_after keep_case
        (record { base = codes "http://am"; sources = am_sources; interval = 60 })
        (codes "falco")
        (after Bytes keep_case 1 plan events [])
Reach-shown_example =
    Reach-shown Bytes keep_case 1 plan
      (record { base = codes "http://am"; sources = am_sources; interval = 60 }) (codes "falco")
      refl refl refl (after Bytes keep_case 1 plan events []) ran reached (idle alertmanager)
