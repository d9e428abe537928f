-- ===== src/Gate/Run/Exit.antt =====
-- What the exit status of images/kubescape-gate/main.go says: 0 when the comparison ran and its
-- regressions, if there are any, were taken by Alertmanager.
use nineteenseventytwo_platf.Prelude.{
  ℕ, ◌≤◌, ◌<◌, ◌≡◌, ◌≢◌, refl, ap, ◌∙◌, sym, true, false, List, [], ◌∷◌, Bytes, arith, is_empty,
  Result, ok, err, wrap, ◌>>=◌, bind-ok, Result-cases, Bool-cases, inl, inr,
}
use mathlib.Core.Path.{subst}
use nineteenseventytwo_platf.Gate.Types.{
  Pair, Pair_eq, Reader, ScanResult, Alert, Config, GateError, marshal_alerts, post_alerts,
}
use nineteenseventytwo_platf.Gate.Scan.{Scan, parse_scan, read_scan}
use nineteenseventytwo_platf.Gate.Scan.Failing.{Reports, read_scan-Reports}
use nineteenseventytwo_platf.Gate.Accepted.{parse_accepted}
use nineteenseventytwo_platf.Gate.Difference.{difference}
use nineteenseventytwo_platf.Gate.Alerts.{build_alerts}
use nineteenseventytwo_platf.Gate.Run.{
  Response, Request, Outside, Outcome, check_response, alerts_request, send_alerts, gather,
  conclude, run,
}

-- What a run has read: both files are there, the scan is decoded and not empty, and the list is in
-- order.
pub record Read (o : Outside) (cfg : Config) (scan : Scan) (accepted : List Pair) : Type 0 where
  pub scan_file : Reader
  pub scan_opened : o.open_file cfg.scan_path ≡ ok scan_file
  pub decoded : ScanResult
  pub scan_decoded : o.decode scan_file ≡ ok decoded
  pub scan_not_empty : decoded.results ≢ []
  pub reports : Reports decoded.results scan
  pub accepted_file : Reader
  pub accepted_opened : o.open_file cfg.accepted_path ≡ ok accepted_file
  pub accepted_read : parse_accepted accepted_file ≡ ok accepted

wrap-eq-ok : {E F A : Type 0} (f : E → F) (r : Result E A) {a : A} → wrap f r ≡ ok a → r ≡ ok a
wrap-eq-ok f (ok b) h = cc
wrap-eq-ok f (err e) h = cc

read_scan-ok :
    (d : ScanResult) (s : Scan) → read_scan d ≡ ok s → (d.results ≢ []) × Reports d.results s
read_scan-ok d s h =
    let (refuses, reads) = read_scan-Reports d in
    let n : d.results ≢ [] = λ e. cc (refuses e, h) in
    let (s', same, reports) = reads n in
    let e : s' ≡ s = cc (same, h) in (n, subst (Reports d.results) e reports)

-- A run that gets as far as the comparison has read all that it compares.
pub gather-Read :
    (o : Outside) (cfg : Config) (scan : Scan) (accepted : List Pair)
    → gather o cfg ≡ ok (scan, accepted)
    → Read o cfg scan accepted
unfolding gather
gather-Read o cfg scan accepted h =
    let (scan_file, opened, h₁) = bind-ok (wrap _ (o.open_file cfg.scan_path)) _ h in
    let (s, parsed, h₂) = bind-ok (parse_scan o.decode scan_file) _ h₁ in
    let (accepted_file, opened', h₃) = bind-ok (wrap _ (o.open_file cfg.accepted_path)) _ h₂ in
    let (l, read, h₄) = bind-ok (parse_accepted accepted_file) _ h₃ in
    let (d, decoded, parsed') = bind-ok (wrap _ (o.decode scan_file)) read_scan parsed in
    let e : s ≡ scan = cc h₄ in
    let e' : l ≡ accepted = cc h₄ in
    let (n, reports) = read_scan-ok d s parsed' in
    record {
      scan_file = scan_file;
      scan_opened = wrap-eq-ok _ (o.open_file cfg.scan_path) opened;
      decoded = d;
      scan_decoded = wrap-eq-ok _ (o.decode scan_file) decoded;
      scan_not_empty = n;
      reports = subst (Reports d.results) e reports;
      accepted_file = accepted_file;
      accepted_opened = wrap-eq-ok _ (o.open_file cfg.accepted_path) opened';
      accepted_read = read ∙ ap ok e';
    }

-- Alertmanager took the alerts: one request was sent, and answered with a status of 200 to 299.
pub record Delivered (o : Outside) (base : Bytes) (alerts : List Alert) (sent : List Request)
    : Type 0 where
  pub body : Bytes
  pub marshalled : o.marshal alerts ≡ ok body
  pub only : sent ≡ alerts_request base body ∷ []
  pub response : Response
  pub answered : o.post (alerts_request base body) ≡ ok response
  pub taken : (200 ≤ response.status_code) × (response.status_code < 300)

check_response-ok :
    (r : Response) → check_response r ≡ ok tt → (200 ≤ r.status_code) × (r.status_code < 300)
unfolding check_response
check_response-ok r h = ground arith

pub send_alerts-err :
    (o : Outside) (base : Bytes) (alerts : List Alert) (e : Bytes)
    → o.marshal alerts ≡ err e
    → send_alerts o base alerts ≡ ([], err (marshal_alerts e))
unfolding send_alerts
send_alerts-err o base alerts e h = rw (h, send_alerts)

pub send_alerts-ok :
    (o : Outside) (base : Bytes) (alerts : List Alert) (body : Bytes)
    → o.marshal alerts ≡ ok body
    → send_alerts o base alerts ≡ (
      alerts_request base body ∷ [],
      wrap post_alerts (o.post (alerts_request base body)) >>= check_response,
    )
unfolding send_alerts
send_alerts-ok o base alerts body h = rw (h, send_alerts)

send_alerts-Delivered :
    (o : Outside) (base : Bytes) (alerts : List Alert)
    → (send_alerts o base alerts).1 ≡ ok tt
    → Delivered o base alerts (send_alerts o base alerts).0
send_alerts-Delivered o base alerts h = elim (Result-cases (o.marshal alerts)) [
  | inl (e, m) ↦ cc (rw (send_alerts-err o base alerts e m) at h)
  | inr (body, m) ↦
      let (r, answered, checked) =
        bind-ok (wrap post_alerts (o.post (alerts_request base body))) check_response
          (rw (send_alerts-ok o base alerts body m) at h) in
      record {
        body = body;
        marshalled = m;
        only =
            ap (λ (x : List Request × Result GateError (Unit {0})). x.0)
              (send_alerts-ok o base alerts body m);
        response = r;
        answered = wrap-eq-ok post_alerts (o.post (alerts_request base body)) answered;
        taken = check_response-ok r checked;
      }
]

-- the alerts of a comparison
abbrev pub alerts_of : Config → ℕ → Scan → List Pair → List Alert
alerts_of cfg now scan accepted =
    build_alerts (difference scan.failing accepted) scan.names now cfg.expire

-- How a comparison that exits with 0 has ended: with nothing to send, or with all of it delivered.
pub data Ended (o : Outside) (cfg : Config) (now : ℕ) (scan : Scan) (accepted : List Pair)
    (sent : List Request) : Type 0 where
  nothing_new :
      difference scan.failing accepted ≡ [] → sent ≡ [] → Ended o cfg now scan accepted sent
  log_only : cfg.alertmanager ≡ [] → sent ≡ [] → Ended o cfg now scan accepted sent
  delivered :
      Delivered o cfg.alertmanager (alerts_of cfg now scan accepted) sent
      → Ended o cfg now scan accepted sent

empty_of : {A : Type 0} (xs : List A) → is_empty xs ≡ true → xs ≡ []
empty_of [] h = refl
empty_of (x ∷ xs) h = cc

-- the two tests of `run` before the request
pub conclude-sends :
    (o : Outside) (cfg : Config) (now : ℕ) (scan : Scan) (accepted : List Pair)
    → is_empty (difference scan.failing accepted) ≡ false
    → is_empty cfg.alertmanager ≡ false
    → let sent = send_alerts o cfg.alertmanager (alerts_of cfg now scan accepted) in
      ((conclude o cfg now scan accepted).posted ≡ sent.0)
      × ((conclude o cfg now scan accepted).result ≡ sent.1)
unfolding conclude
conclude-sends o cfg now scan accepted e f = (rw (e, f), rw (e, f))

conclude-Ended :
    (o : Outside) (cfg : Config) (now : ℕ) (scan : Scan) (accepted : List Pair)
    → (conclude o cfg now scan accepted).result ≡ ok tt
    → Ended o cfg now scan accepted (conclude o cfg now scan accepted).posted
conclude-Ended o cfg now scan accepted h =
    elim (Bool-cases (is_empty (difference scan.failing accepted))) [
      | inl e ↦ nothing_new (empty_of _ e) (unfold conclude in rw e)
      | inr e ↦ elim (Bool-cases (is_empty cfg.alertmanager)) [
        | inl f ↦ log_only (empty_of _ f) (unfold conclude in rw (e, f))
        | inr f ↦
            let (p, r) = conclude-sends o cfg now scan accepted e f in
            delivered (
              rw p (
                send_alerts-Delivered o cfg.alertmanager (alerts_of cfg now scan accepted)
                  (sym r ∙ h)))
      ]
    ]

pub run-ok :
    (o : Outside) (cfg : Config) (now : ℕ) (scan : Scan) (accepted : List Pair)
    → gather o cfg ≡ ok (scan, accepted)
    → run o cfg now ≡ conclude o cfg now scan accepted
unfolding run
run-ok o cfg now scan accepted h = rw (h, run)

pub run-err :
    (o : Outside) (cfg : Config) (now : ℕ) (e : GateError)
    → gather o cfg ≡ err e
    → run o cfg now ≡ record { logged = []; posted = []; result = err e }
unfolding run
run-err o cfg now e h = rw (h, run)

-- A run that exits with 0 has read a scan that is not empty and an accepted list in good order, and
-- has ended with no regression, or with no Alertmanager to send to, or with one request that
-- carries the alerts of all regressions and was answered with a status of 200 to 299.
pub run-exit_zero :
    (o : Outside) (cfg : Config) (now : ℕ)
    → (run o cfg now).result ≡ ok tt
    → (scan : Scan) × (accepted : List Pair) × Read o cfg scan accepted
      × Ended o cfg now scan accepted (run o cfg now).posted
run-exit_zero o cfg now h = elim (Result-cases (gather o cfg)) [
  | inl (e, g) ↦ cc (sym (ap (λ (x : Outcome). x.result) (run-err o cfg now e g)) ∙ h)
  | inr ((scan, accepted), g) ↦
      let same = run-ok o cfg now scan accepted g in
      (
        scan,
        accepted,
        gather-Read o cfg scan accepted g,
        rw same (conclude-Ended o cfg now scan accepted (rw same at h)),
      )
]
