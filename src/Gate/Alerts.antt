-- ===== src/Gate/Alerts.antt =====
-- `buildAlerts`: one alert for each control, listing its new resources.
pub mod Grouping
pub mod Complete
use nineteenseventytwo_platf.Prelude.{
  ℕ, ◌+◌, List, [], ◌∷◌, ◌++◌, map, Bytes, codes, length, none, some, Assoc, lookup, lookup_or,
  insert, nat_eq, list_eq,
}
use nineteenseventytwo_platf.Text.Parts.{join}
use nineteenseventytwo_platf.Text.Decimal.{decimal}
use nineteenseventytwo_platf.Gate.Types.{Pair, Alert}

-- `byControl` and `controls`
pub record Groups : Type 0 where
  pub by_control : Assoc Bytes (List Bytes)
  pub controls : List Bytes

abbrev pub no_groups : Groups
no_groups = record { by_control = []; controls = [] }

-- the body of the first loop
unfoldable pub group : Pair → Groups → Groups
unfolding lookup insert
group p g = record {
  by_control =
      insert p.control (lookup_or [] p.control g.by_control ++ p.resource ∷ []) g.by_control;
  controls = elim (lookup p.control g.by_control) [
    | none ↦ g.controls ++ p.control ∷ []
    | some seen ↦ g.controls
  ];
}

unfoldable pub group_all : List Pair → Groups → Groups
unfolding group
group_all [] g = g
group_all (p ∷ ps) g = group_all ps (group p g)

abbrev pub advice : Bytes
advice =
    codes "\nFix it, or add it to cluster/kubescape/00-accepted.yaml with its reason (ADR-0017)."

-- the alert that the second loop appends for the control `c`
unfoldable pub control_alert : Assoc Bytes Bytes → ℕ → ℕ → Bytes → List Bytes → Alert
unfolding lookup join decimal
control_alert names now expire c resources = record {
  labels =
      (codes "alertname", codes "KubescapeRegression")
      ∷ (codes "source", codes "kubescape")
      ∷ (codes "severity", codes "warning")
      ∷ (codes "control", c)
      ∷ [];
  annotations =
      (
        codes "summary",
        c
            ++ (b' '
                ∷ (lookup_or [] c names
                    ++ (codes ": "
                        ++ (decimal (length resources) ++ codes " resource(s) newly failing")))),
      )
      ∷ (codes "description", join (b'\n' ∷ []) resources ++ advice)
      ∷ [];
  starts_at = now;
  ends_at = now + expire;
}

unfoldable pub build_alerts : List Pair → Assoc Bytes Bytes → ℕ → ℕ → List Alert
unfolding group_all lookup
build_alerts regressions names now expire =
    let g = group_all regressions no_groups in
    map (λ c. control_alert names now expire c (lookup_or [] c g.by_control)) g.controls
