-- ===== src/Examples/GateTheorems.antt =====
-- The theorems on images/kubescape-gate at concrete inputs.
use nineteenseventytwo_platf.Prelude.{
  ℕ, Any, ◌≤◌, ◌≡◌, ◌≢◌, refl, true, not, ◌&&◌, List, [], ◌∷◌, ◌++◌, map, none, some, ok, err,
  Bytes, codes, length, contains, Distinct, All, ◌==◌, nat_eq, list_eq, if◌then◌else◌, arith,
}
use nineteenseventytwo_platf.Prelude.Sort.{IsSorted}
use nineteenseventytwo_platf.Text.Affix.{has_prefix}
use nineteenseventytwo_platf.Text.Parts.{split}
use nineteenseventytwo_platf.Gate.Types.{
  Pair, Pair_eq, Control, ScanResult, Reader, Config, no_results, malformed_line,
}
use nineteenseventytwo_platf.Gate.Normalize.{is_hex, normalize}
use nineteenseventytwo_platf.Gate.Normalize.Rename.{IsGenerated, normalize-rename}
use nineteenseventytwo_platf.Gate.Scan.{Scan, read_scan}
use nineteenseventytwo_platf.Gate.Scan.Failing.{fails_in, Reports, read_scan-Reports}
use nineteenseventytwo_platf.Gate.Accepted.{raw_lines, read_line, bad, parse_accepted}
use nineteenseventytwo_platf.Gate.Accepted.Sound.{AllFine, parse_accepted-first_bad}
use nineteenseventytwo_platf.Gate.Accepted.RoundTrip.{
  Noted, print, pairs, IsPrintable, parse_accepted-print,
}
use nineteenseventytwo_platf.Gate.Difference.{pair_less, difference}
use nineteenseventytwo_platf.Gate.Difference.Order.{difference_lem}
use nineteenseventytwo_platf.Gate.Alerts.{control_alert, build_alerts}
use nineteenseventytwo_platf.Gate.Alerts.Grouping.{
  resources_of, new_controls, has_control, build_alerts_lem,
}
use nineteenseventytwo_platf.Gate.Nights.{Night, IsOpen, IsRaisedAt, nights-IsRaisedAt}
use nineteenseventytwo_platf.Gate.Normalize.Segments.{normalize_idem}
use nineteenseventytwo_platf.Gate.Run.{Outside, run}
use nineteenseventytwo_platf.Gate.Run.Exit.{Read, Ended, run-exit_zero}
use nineteenseventytwo_platf.Gate.Run.Regressions.{Raised, unaccepted-Raised}
use nineteenseventytwo_platf.Gate.Run.Requests.{IsSent, run-posted}

abbrev failing_control : Control
failing_control = record {
  control_id = codes "C-0013";
  name = codes "Non-root";
  status = codes "failed";
}

abbrev scan : ScanResult
scan = record {
  results =
      record { resource_id = codes "apps/v1/a/Deployment/x"; controls = failing_control ∷ [] }
      ∷ record { resource_id = codes "apps/v1/b/Deployment/y"; controls = failing_control ∷ [] }
      ∷ [];
}

abbrev pair_x : Pair
pair_x = record { control = codes "C-0013"; resource = codes "a/Deployment/x" }

abbrev pair_y : Pair
pair_y = record { control = codes "C-0013"; resource = codes "b/Deployment/y" }

abbrev pair_z : Pair
pair_z = record { control = codes "C-0002"; resource = codes "gone/Deployment/z" }

abbrev scan_file : Reader
scan_file = record { content = codes "{}"; failure = none }

abbrev list_file : Reader
list_file = record { content = codes "C-0013 a/Deployment/x\n"; failure = none }

-- files, a codec and an Alertmanager that accepts
abbrev outside : Outside
outside = record {
  open_file = λ path. if path == codes "scan" then ok scan_file else ok list_file;
  decode = λ r. ok scan;
  marshal = λ alerts. ok (codes "[]");
  post = λ r. ok (record { status_code = 200; status = codes "200 OK"; body = [] });
}

abbrev config : Config
config = record {
  scan_path = codes "scan";
  accepted_path = codes "list";
  alertmanager = codes "http://am";
  expire = 90;
}

run_ok : (run outside config 7).result ≡ ok tt
unfolding run normalize
run_ok = refl

fails_y : fails_in pair_y scan.results ≡ true
unfolding normalize
fails_y = refl

list_read : parse_accepted list_file ≡ ok (pair_x ∷ [])
unfolding parse_accepted
list_read = refl

unaccepted-Raised_example : Raised outside config 7 pair_y (run outside config 7).posted
unaccepted-Raised_example =
    unaccepted-Raised outside config 7 pair_y scan_file list_file scan (pair_x ∷ []) refl refl
      fails_y refl list_read refl (λ e. cc e) run_ok

run-exit_zero_example :
    (s : Scan) × (accepted : List Pair) × Read outside config s accepted
    × Ended outside config 7 s accepted (run outside config 7).posted
run-exit_zero_example = run-exit_zero outside config 7 run_ok

posts : (run outside config 7).posted ≢ []
unfolding run normalize
posts = λ e. cc e

run-posted_example :
    (s : Scan) × (accepted : List Pair) × Read outside config s accepted
    × IsSent outside config 7 s accepted (run outside config 7)
run-posted_example = run-posted outside config 7 posts

normalize_idem_example :
    (normalize (normalize (codes "apps/v1/a/Job/backup-29012345"))
      ≡ normalize (codes "apps/v1/a/Job/backup-29012345"))
    × (length (split b'/' (normalize (codes "apps/v1/a/Job/backup-29012345"))) ≤ 3)
normalize_idem_example = normalize_idem (codes "apps/v1/a/Job/backup-29012345")

read_scan-Reports_example :
    (scan.results ≡ [] → read_scan scan ≡ err no_results)
    × (scan.results ≢ [] → (s : Scan) × (read_scan scan ≡ ok s) × Reports scan.results s)
read_scan-Reports_example = read_scan-Reports scan

abbrev bad_file : Reader
bad_file = record { content = codes "# reviewed\nC-0013 a b\nC-0001 c"; failure = none }

bad_lines :
    raw_lines bad_file.content
    ≡ (codes "# reviewed" ∷ []) ++ codes "C-0013 a b" ∷ codes "C-0001 c" ∷ []
unfolding raw_lines
bad_lines = refl

bad_line : read_line 2 (codes "C-0013 a b") ≡ bad (malformed_line 2 (codes "C-0013 a b"))
unfolding read_line
bad_line = refl

comment_fine : AllFine 0 (codes "# reviewed" ∷ [])
unfolding read_line
comment_fine = (refl, λ g e. cc e, tt)

parse_accepted-first_bad_example :
    parse_accepted bad_file ≡ err (malformed_line 2 (codes "C-0013 a b"))
parse_accepted-first_bad_example =
    parse_accepted-first_bad bad_file (codes "# reviewed" ∷ []) (codes "C-0001 c" ∷ [])
      (codes "C-0013 a b") (malformed_line 2 (codes "C-0013 a b")) bad_lines comment_fine refl
      bad_line

abbrev noted : List Noted
noted = record { pair = pair_z; comment = codes " ok" } ∷ []

noted-IsPrintable : All IsPrintable noted
unfolding has_prefix
noted-IsPrintable = ground arith

parse_accepted-print_example :
    parse_accepted (record { content = print noted; failure = none }) ≡ ok (pairs noted)
parse_accepted-print_example = parse_accepted-print noted noted-IsPrintable (refl, tt)

abbrev failing : List Pair
failing = pair_y ∷ pair_x ∷ pair_z ∷ []

difference_lem_example :
    ((p : Pair)
      → contains p (difference failing (pair_x ∷ []))
        ≡ (contains p failing && not (contains p (pair_x ∷ []))))
    × Distinct (difference failing (pair_x ∷ []))
    × IsSorted pair_less (difference failing (pair_x ∷ []))
difference_lem_example = difference_lem failing (pair_x ∷ []) (ground arith)

build_alerts_lem_example :
    (build_alerts failing [] 5 90
      ≡ map (λ c. control_alert [] 5 90 c (resources_of c failing)) (new_controls [] failing))
    × Distinct (new_controls [] failing)
    × ((c : Bytes) → contains c (new_controls [] failing) ≡ has_control c failing)
build_alerts_lem_example = build_alerts_lem failing [] 5 90

generated :
    (h : Bytes)
    → All (λ c. is_hex c ≡ true) h
    → 8 ≤ length h
    → IsGenerated (codes "instance-manager-") h []
unfolding is_hex
generated h a long = record {
  before = ground arith;
  start = refl;
  run_hex = a;
  run_long = long;
  stop = tt;
  rest = tt;
}

first-IsGenerated : IsGenerated (codes "instance-manager-") (codes "46852e75") []
unfolding is_hex
first-IsGenerated = generated (codes "46852e75") (ground arith) (omega arith)

second-IsGenerated : IsGenerated (codes "instance-manager-") (codes "0badcafe1") []
unfolding is_hex
second-IsGenerated = generated (codes "0badcafe1") (ground arith) (omega arith)

normalize-rename_example :
    normalize (codes "/v1/longhorn-system/Pod/instance-manager-46852e75")
    ≡ normalize (codes "/v1/longhorn-system/Pod/instance-manager-0badcafe1")
normalize-rename_example =
    normalize-rename (some (codes "/v1/longhorn-system/Pod")) (codes "instance-manager-")
      (codes "46852e75") (codes "0badcafe1") [] first-IsGenerated second-IsGenerated

abbrev night : ℕ → Night
night now = record { outside = outside; now = now }

night-IsOpen :
    (now : ℕ) → (run outside config now).result ≡ ok tt → IsOpen config pair_y (night now)
night-IsOpen now done = record {
  scan_file = scan_file;
  list_file = list_file;
  decoded = scan;
  accepted = pair_x ∷ [];
  scan_opened = refl;
  scan_decoded = refl;
  failing = fails_y;
  list_opened = refl;
  list_read = list_read;
  unaccepted = refl;
  exit_zero = done;
}

run_later : (run outside config 90).result ≡ ok tt
unfolding run normalize
run_later = refl

-- the alert of the first night ends at 97, after the second night's run
nights-IsRaisedAt_example : Any (IsRaisedAt config pair_y 120) (night 7 ∷ night 90 ∷ [])
nights-IsRaisedAt_example =
    nights-IsRaisedAt config pair_y (λ e. cc e) (night 7) (night 90 ∷ []) 120
      (night-IsOpen 7 run_ok, (night-IsOpen 90 run_later, tt)) (omega arith, tt) (omega arith)
      (omega arith)
