-- ===== src/Gate/Nights.antt =====
-- Runs of images/kubescape-gate/main.go one night after the other: how long a regression stays raised.
use nineteenseventytwo_platf.Prelude.{
  ℕ, ◌+◌, ◌≤◌, ◌≡◌, ◌≢◌, inl, inr, true, false, List, [], ◌∷◌, ◌++◌, Bytes, codes, some, ok, All,
  Any, Any-imp, arith, ltb, lookup, contains, nat_eq, list_eq, Bool-cases,
}
use nineteenseventytwo_platf.Text.Parts.{join}
use nineteenseventytwo_platf.Gate.Types.{Pair, Pair_eq, Alert, Config, Reader, ScanResult}
use nineteenseventytwo_platf.Gate.Accepted.{parse_accepted}
use nineteenseventytwo_platf.Gate.Alerts.{advice}
use nineteenseventytwo_platf.Gate.Run.{Outside, run}
use nineteenseventytwo_platf.Gate.Run.Exit.{alerts_of}
use nineteenseventytwo_platf.Gate.Run.Regressions.{Raised, unaccepted-Raised}
use nineteenseventytwo_platf.Gate.Scan.Failing.{fails_in}

pub record Night : Type 0 where
  pub outside : Outside
  pub now : ℕ

module _ (cfg : Config) (p : Pair) where
  -- The run of this night exits with 0, and the pair fails in its scan and is not accepted.
  pub record IsOpen (n : Night) : Type 0 where
    pub scan_file : Reader
    pub list_file : Reader
    pub decoded : ScanResult
    pub accepted : List Pair
    pub scan_opened : n.outside.open_file cfg.scan_path ≡ ok scan_file
    pub scan_decoded : n.outside.decode scan_file ≡ ok decoded
    pub failing : fails_in p decoded.results ≡ true
    pub list_opened : n.outside.open_file cfg.accepted_path ≡ ok list_file
    pub list_read : parse_accepted list_file ≡ ok accepted
    pub unaccepted : contains p accepted ≡ false
    pub exit_zero : (run n.outside cfg n.now).result ≡ ok tt

  -- an alert for the control that lists the resource and is firing at the time
  pub record IsFiring (t : ℕ) (a : Alert) : Type 0 where
    pub control : lookup (codes "control") a.labels ≡ some p.control
    pub resources : List Bytes
    pub resource_listed : contains p.resource resources ≡ true
    pub description :
        lookup (codes "description") a.annotations ≡ some (join (b'\n' ∷ []) resources ++ advice)
    pub begun : a.starts_at ≤ t
    pub lasting : t ≤ a.ends_at

  -- This night's request was taken, and carries such an alert.
  pub record IsRaisedAt (t : ℕ) (n : Night) : Type 0 where
    pub raised : Raised n.outside cfg n.now p (run n.outside cfg n.now).posted
    pub firing : Any (IsFiring t) (alerts_of cfg n.now raised.scan raised.accepted)

  Raised-IsFiring :
      (n : Night) (t : ℕ) (r : Raised n.outside cfg n.now p (run n.outside cfg n.now).posted)
      → n.now ≤ t
      → t ≤ n.now + cfg.expire
      → Any (IsFiring t) (alerts_of cfg n.now r.scan r.accepted)
  Raised-IsFiring n t r begun lasting =
      Any-imp (alerts_of cfg n.now r.scan r.accepted)
        (λ a h. record {
          control = h.control;
          resources = h.resources;
          resource_listed = h.resource_listed;
          description = h.description;
          begun = omega (arith, h.begun);
          lasting = omega (arith, h.lasting);
        })
        r.alert

  -- From each night to the next is not longer than an alert lasts.
  abbrev pub Spaced : Night → List Night → Type 0
  Spaced n [] = Unit
  Spaced n (m ∷ rest) = (m.now ≤ n.now + cfg.expire) × Spaced m rest

  abbrev pub last_of : Night → List Night → Night
  last_of n [] = n
  last_of n (m ∷ rest) = last_of m rest

  module _ (sends : cfg.alertmanager ≢ []) where
    open-IsRaisedAt :
        (n : Night) (t : ℕ) → IsOpen n → n.now ≤ t → t ≤ n.now + cfg.expire → IsRaisedAt t n
    open-IsRaisedAt n t o begun lasting =
        let r =
          unaccepted-Raised n.outside cfg n.now p o.scan_file o.list_file o.decoded o.accepted
            o.scan_opened o.scan_decoded o.failing o.list_opened o.list_read o.unaccepted sends
            o.exit_zero in
        record { raised = r; firing = Raised-IsFiring n t r begun lasting }

    -- If an Alertmanager is configured, every night's run exits with 0, the pair fails in the scan of
    -- every night and is not in that night's list, and no run comes later after the one before it
    -- than an alert lasts, then at every time from the first run on, until an alert of the last run
    -- would end, one of the runs has raised an alert that is firing, for the pair's control and with
    -- the pair's resource: the regression does not lapse between the nights.
    pub nights-IsRaisedAt :
        (n : Night) (rest : List Night) (t : ℕ)
        → All IsOpen (n ∷ rest)
        → Spaced n rest
        → n.now ≤ t
        → t ≤ (last_of n rest).now + cfg.expire
        → Any (IsRaisedAt t) (n ∷ rest)
    nights-IsRaisedAt n [] t opens spaced begun lasting =
        inl (open-IsRaisedAt n t opens.0 begun lasting)
    nights-IsRaisedAt n (m ∷ rest) t opens spaced begun lasting = elim (Bool-cases (ltb t m.now)) [
      | inl before ↦ inl (open-IsRaisedAt n t opens.0 begun (ground (arith, spaced.0)))
      | inr later ↦ inr (nights-IsRaisedAt m rest t opens.1 spaced.1 (ground arith) lasting)
    ]
