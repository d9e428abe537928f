-- ===== src/Gate/Run/Requests.antt =====
-- When a run of images/kubescape-gate/main.go sends something, and what it is.
use nineteenseventytwo_platf.Prelude.{
  ℕ, ◌≡◌, ◌≢◌, refl, ap, sym, subst, ◌∙◌, true, false, ◌||◌, List, [], ◌∷◌, Bytes, is_empty, ok,
  Result-cases, Bool-cases, inl, inr,
}
use nineteenseventytwo_platf.Gate.Types.{Pair, Pair_eq, Config}
use nineteenseventytwo_platf.Gate.Scan.{Scan}
use nineteenseventytwo_platf.Gate.Difference.{difference}
use nineteenseventytwo_platf.Gate.Run.{
  Request, Outside, Outcome, alerts_request, gather, log_lines, conclude, run,
}
use nineteenseventytwo_platf.Gate.Run.Exit.{
  Read, alerts_of, gather-Read, run-ok, run-err, send_alerts-ok, send_alerts-err, conclude-sends,
}

-- The one request of a run that has compared what it read.
pub record IsSent (o : Outside) (cfg : Config) (now : ℕ) (scan : Scan) (accepted : List Pair)
    (out : Outcome) : Type 0 where
  pub new_failures : difference scan.failing accepted ≢ []
  pub receiver : cfg.alertmanager ≢ []
  pub body : Bytes
  pub marshalled : o.marshal (alerts_of cfg now scan accepted) ≡ ok body
  pub only : out.posted ≡ alerts_request cfg.alertmanager body ∷ []
  pub logged :
      out.logged
      ≡ log_lines scan accepted
          (difference scan.failing accepted)
          (difference accepted scan.failing)

quiet :
    (o : Outside) (cfg : Config) (now : ℕ) (scan : Scan) (accepted : List Pair)
    → (is_empty (difference scan.failing accepted) || is_empty cfg.alertmanager) ≡ true
    → (conclude o cfg now scan accepted).posted ≡ []
unfolding conclude
quiet o cfg now scan accepted h = rw h refl

conclude-logged :
    (o : Outside) (cfg : Config) (now : ℕ) (scan : Scan) (accepted : List Pair)
    → (conclude o cfg now scan accepted).logged
      ≡ log_lines scan accepted
          (difference scan.failing accepted)
          (difference accepted scan.failing)
unfolding conclude
conclude-logged o cfg now scan accepted =
    elim (Bool-cases (is_empty (difference scan.failing accepted) || is_empty cfg.alertmanager)) [
      | inl e ↦ rw e refl
      | inr e ↦ rw e refl
    ]

ne_nil : {A : Type 0} (xs : List A) → is_empty xs ≡ false → xs ≢ []
ne_nil [] h = cc
ne_nil (x ∷ xs) h = λ e. cc e

conclude-IsSent :
    (o : Outside) (cfg : Config) (now : ℕ) (scan : Scan) (accepted : List Pair)
    → (conclude o cfg now scan accepted).posted ≢ []
    → IsSent o cfg now scan accepted (conclude o cfg now scan accepted)
conclude-IsSent o cfg now scan accepted sends =
    elim (Bool-cases (is_empty (difference scan.failing accepted))) [
      | inl e ↦ absurd (sends (quiet o cfg now scan accepted (rw e refl)))
      | inr e ↦ elim (Bool-cases (is_empty cfg.alertmanager)) [
        | inl f ↦ absurd (sends (quiet o cfg now scan accepted (rw (e, f) refl)))
        | inr f ↦
            let (posted, result) = conclude-sends o cfg now scan accepted e f in
            elim (Result-cases (o.marshal (alerts_of cfg now scan accepted))) [
              | inl (why, m) ↦ absurd (
                  sends (
                    posted
                    ∙ ap (λ (x : List Request × _). x.0)
                        (send_alerts-err o cfg.alertmanager (alerts_of cfg now scan accepted) why
                          m)))
              | inr (body, m) ↦ record {
                new_failures = ne_nil (difference scan.failing accepted) e;
                receiver = ne_nil cfg.alertmanager f;
                body = body;
                marshalled = m;
                only =
                    posted
                    ∙ ap (λ (x : List Request × _). x.0)
                        (send_alerts-ok o cfg.alertmanager (alerts_of cfg now scan accepted) body
                          m);
                logged = conclude-logged o cfg now scan accepted;
              }
            ]
      ]
    ]

-- However a run ends, if it sends anything, then it has opened and decoded the scan and read the
-- accepted list without an error, there are failures that are not accepted and an Alertmanager to
-- send to, the one request is a POST to its API of what the encoder makes of the alerts for those
-- failures, and the comparison is logged with each of them. So a run that cannot read what it compares sends nothing.
pub run-posted :
    (o : Outside) (cfg : Config) (now : ℕ)
    → (run o cfg now).posted ≢ []
    → (scan : Scan) × (accepted : List Pair) × Read o cfg scan accepted
      × IsSent o cfg now scan accepted (run o cfg now)
run-posted o cfg now sends = elim (Result-cases (gather o cfg)) [
  | inl (e, g) ↦ absurd (sends (ap (λ (x : Outcome). x.posted) (run-err o cfg now e g)))
  | inr ((scan, accepted), g) ↦
      let same = run-ok o cfg now scan accepted g in
      (
        scan,
        accepted,
        gather-Read o cfg scan accepted g,
        subst (IsSent o cfg now scan accepted) (sym same) (
            conclude-IsSent o cfg now scan accepted
              (λ none_sent. sends (ap (λ (x : Outcome). x.posted) same ∙ none_sent))),
      )
]
