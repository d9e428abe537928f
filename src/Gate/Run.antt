-- ===== src/Gate/Run.antt =====
-- `run` and `postAlerts`. What the run does outside is recorded: the lines it logs and the requests
-- that it sends.
pub mod Exit
pub mod Regressions
pub mod Requests
use nineteenseventytwo_platf.Prelude.{
  ℕ, ◌/◌, ◌||◌, List, [], ◌∷◌, ◌++◌, map, Bytes, codes, length, is_empty, take, eqb, if◌then◌else◌,
  lookup, lookup_or, nat_eq, list_eq, Result, ok, err, ◌>>=◌, wrap,
}
use nineteenseventytwo_platf.Text.Affix.{trim_right}
use nineteenseventytwo_platf.Gate.Types.{
  Pair, Reader, ScanResult, Alert, Config, GateError, open_scan, open_accepted, marshal_alerts,
  post_alerts, refused,
}
use nineteenseventytwo_platf.Gate.Scan.{Scan, parse_scan}
use nineteenseventytwo_platf.Gate.Accepted.{parse_accepted}
use nineteenseventytwo_platf.Gate.Difference.{difference}
use nineteenseventytwo_platf.Gate.Alerts.{build_alerts}

pub record Response : Type 0 where
  pub status_code : ℕ
  pub status : Bytes
  pub body : Bytes

-- one POST of Alertmanager's API
pub record Request : Type 0 where
  pub url : Bytes
  pub body : Bytes

pub data LogLine : Type 0 where
  compared : ℕ → ℕ → ℕ → ℕ → LogLine
  regression : Bytes → Bytes → Bytes → LogLine
  stale : Bytes → Bytes → LogLine

-- What the program calls and does not implement: the files, the JSON codec and the network.
pub record Outside : Type 0 where
  pub open_file : Bytes → Result Bytes Reader
  pub decode : Reader → Result Bytes ScanResult
  pub marshal : List Alert → Result Bytes Bytes
  pub post : Request → Result Bytes Response

pub record Outcome : Type 0 where
  pub logged : List LogLine
  pub posted : List Request
  pub result : Result GateError (Unit {0})

unfoldable pub check_response : Response → Result GateError (Unit {0})
check_response r =
    if eqb (r.status_code / 100) 2 then ok tt else err (refused r.status (take 512 r.body))

unfoldable pub alerts_request : Bytes → Bytes → Request
unfolding trim_right
alerts_request base body = record {
  url = trim_right (b'/' ∷ []) base ++ codes "/api/v2/alerts";
  body = body;
}

-- `postAlerts`: the requests sent, and the result
unfoldable pub send_alerts :
    Outside → Bytes → List Alert → List Request × Result GateError (Unit {0})
unfolding check_response alerts_request
send_alerts o base alerts = elim (o.marshal alerts) [
  | err e ↦ ([], err (marshal_alerts e))
  | ok body ↦
      let r = alerts_request base body in (r ∷ [], wrap post_alerts (o.post r) >>= check_response)
]

-- the two files, read in order
unfoldable pub gather : Outside → Config → Result GateError (Scan × List Pair)
unfolding parse_scan parse_accepted
gather o cfg = wrap open_scan (o.open_file cfg.scan_path) >>= λ scan_file.
    parse_scan o.decode scan_file >>= λ scan.
    wrap open_accepted (o.open_file cfg.accepted_path) >>= λ accepted_file.
    parse_accepted accepted_file >>= λ accepted. ok (scan, accepted)

unfoldable pub log_lines : Scan → List Pair → List Pair → List Pair → List LogLine
unfolding lookup
log_lines scan accepted regressions stales =
    compared (length scan.failing) (length accepted) (length regressions) (length stales)
    ∷ (map (λ p. regression p.control (lookup_or [] p.control scan.names) p.resource) regressions
        ++ map (λ p. stale p.control p.resource) stales)

-- the comparison and what follows from it
unfoldable pub conclude : Outside → Config → ℕ → Scan → List Pair → Outcome
unfolding difference build_alerts send_alerts log_lines
conclude o cfg now scan accepted =
    let regressions = difference scan.failing accepted in
    let stales = difference accepted scan.failing in
    let lines = log_lines scan accepted regressions stales in
    let sent =
      send_alerts o cfg.alertmanager (build_alerts regressions scan.names now cfg.expire) in
    if is_empty regressions || is_empty cfg.alertmanager
    then record { logged = lines; posted = []; result = ok tt }
    else record { logged = lines; posted = sent.0; result = sent.1 }

unfoldable pub run : Outside → Config → ℕ → Outcome
unfolding gather conclude
run o cfg now = elim (gather o cfg) [
  | err e ↦ record { logged = []; posted = []; result = err e }
  | ok (scan, accepted) ↦ conclude o cfg now scan accepted
]
