-- ===== src/Gate/Run/Regressions.antt =====
-- What a run of images/kubescape-gate/main.go does about one failing pair.
use nineteenseventytwo_platf.Prelude.{
  ℕ, ◌+◌, ◌≡◌, ◌≢◌, refl, ap, sym, subst, ◌∙◌, true, false, List, [], ◌∷◌, ◌++◌, Bytes, codes, some,
  Assoc, lookup, arith, contains, Any, Any-map, ok, nat_eq, list_eq, list_same_iff,
}
use nineteenseventytwo_platf.Text.Parts.{join}
use nineteenseventytwo_platf.Gate.Types.{Pair, Pair_eq, Alert, Reader, ScanResult, Config}
use nineteenseventytwo_platf.Gate.Scan.{Scan}
use nineteenseventytwo_platf.Gate.Scan.Failing.{fails_in}
use nineteenseventytwo_platf.Gate.Accepted.{parse_accepted}
use nineteenseventytwo_platf.Gate.Alerts.{advice, control_alert, build_alerts}
use nineteenseventytwo_platf.Gate.Alerts.Grouping.{
  resources_of, has_control, new_controls, build_alerts_lem,
}
use nineteenseventytwo_platf.Gate.Difference.{difference}
use nineteenseventytwo_platf.Gate.Difference.Order.{contains-difference}
use nineteenseventytwo_platf.Gate.Run.{Request, Outside, run}
use nineteenseventytwo_platf.Gate.Run.Exit.{
  Ended, nothing_new, log_only, delivered, Delivered, alerts_of, run-exit_zero,
}

-- a pair's control is among the controls, and its resource among the resources of that control
listed_of_contains :
    (p : Pair) (ps : List Pair)
    → contains p ps ≡ true
    → (has_control p.control ps ≡ true) × (contains p.resource (resources_of p.control ps) ≡ true)
listed_of_contains p [] h = cc
listed_of_contains p (q ∷ ps) h = ground (
  arith,
  listed_of_contains p ps,
  list_same_iff p.control q.control,
  list_same_iff p.resource q.resource,
)

-- An alert for the pair's control, whose text lists the pair's resource, for the configured time.
pub record IsAbout (cfg : Config) (now : ℕ) (p : Pair) (a : Alert) : Type 0 where
  pub control : lookup (codes "control") a.labels ≡ some p.control
  pub resources : List Bytes
  pub resource_listed : contains p.resource resources ≡ true
  pub description :
      lookup (codes "description") a.annotations ≡ some (join (b'\n' ∷ []) resources ++ advice)
  pub begun : a.starts_at ≡ now
  pub lasting : a.ends_at ≡ now + cfg.expire

-- A failing pair that no one accepted, and what was sent about it.
pub record Raised (o : Outside) (cfg : Config) (now : ℕ) (p : Pair) (sent : List Request)
    : Type 0 where
  pub scan : Scan
  pub accepted : List Pair
  pub delivery : Delivered o cfg.alertmanager (alerts_of cfg now scan accepted) sent
  pub alert : Any (IsAbout cfg now p) (alerts_of cfg now scan accepted)

control_alert-IsAbout :
    (cfg : Config) (now : ℕ) (p : Pair) (names : Assoc Bytes Bytes) (resources : List Bytes)
    → contains p.resource resources ≡ true
    → IsAbout cfg now p (control_alert names now cfg.expire p.control resources)
unfolding control_alert lookup
control_alert-IsAbout cfg now p names resources listed = record {
  control = refl;
  resources = resources;
  resource_listed = listed;
  description = refl;
  begun = refl;
  lasting = refl;
}

-- each of the pairs has its alert
build_alerts-IsAbout :
    (cfg : Config) (now : ℕ) (p : Pair) (names : Assoc Bytes Bytes) (ps : List Pair)
    → contains p ps ≡ true
    → Any (IsAbout cfg now p) (build_alerts ps names now cfg.expire)
build_alerts-IsAbout cfg now p names ps h =
    let (control, resource) = listed_of_contains p ps h in
    let (same, distinct, known) = build_alerts_lem ps names now cfg.expire in
    subst (Any (IsAbout cfg now p)) (sym same) (
      Any-map (IsAbout cfg now p) (λ c. control_alert names now cfg.expire c (resources_of c ps))
        p.control (new_controls [] ps) (known p.control ∙ control)
        (control_alert-IsAbout cfg now p names (resources_of p.control ps) resource))

raise :
    (o : Outside) (cfg : Config) (now : ℕ) (p : Pair) (scan : Scan) (accepted : List Pair)
    (sent : List Request)
    → cfg.alertmanager ≢ []
    → contains p scan.failing ≡ true
    → contains p accepted ≡ false
    → Ended o cfg now scan accepted sent
    → Raised o cfg now p sent
raise o cfg now p scan accepted sent n f u (nothing_new e _) =
    cc (ap (contains p) e, contains-difference p scan.failing accepted, f, u)
raise o cfg now p scan accepted sent n f u (log_only e _) = absurd (n e)
raise o cfg now p scan accepted sent n f u (delivered d) = record {
  scan = scan;
  accepted = accepted;
  delivery = d;
  alert =
      build_alerts-IsAbout cfg now p scan.names (difference scan.failing accepted)
        (contains-difference p scan.failing accepted ∙ cc (f, u));
}

-- If a run with an Alertmanager exits with 0, then each pair that fails in the decoded scan and is
-- not in the accepted list was raised: the one request that was sent, and taken, has as its body what
-- the encoder makes of the alerts of the run, and one of these has the pair's control as its
-- label, lists the pair's resource in its description, starts at the time of the run and ends after
-- the configured time.
pub unaccepted-Raised :
    (o : Outside) (cfg : Config) (now : ℕ) (p : Pair) (f g : Reader) (d : ScanResult)
    (l : List Pair)
    → o.open_file cfg.scan_path ≡ ok f
    → o.decode f ≡ ok d
    → fails_in p d.results ≡ true
    → o.open_file cfg.accepted_path ≡ ok g
    → parse_accepted g ≡ ok l
    → contains p l ≡ false
    → cfg.alertmanager ≢ []
    → (run o cfg now).result ≡ ok tt
    → Raised o cfg now p (run o cfg now).posted
unaccepted-Raised o cfg now p f g d l hf hd fails hg hl un n h =
    let (scan, accepted, r, ended) = run-exit_zero o cfg now h in
    let same_file : f ≡ r.scan_file = cc (hf, r.scan_opened) in
    let same_scan : d ≡ r.decoded = cc (hd, r.scan_decoded, same_file) in
    let same_list : g ≡ r.accepted_file = cc (hg, r.accepted_opened) in
    let same_pairs : l ≡ accepted = cc (hl, r.accepted_read, same_list) in
    raise o cfg now p scan accepted (run o cfg now).posted n
      (r.reports.fails p ∙ cc (same_scan, fails)) (cc (same_pairs, un)) ended
