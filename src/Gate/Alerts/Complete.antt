-- ===== src/Gate/Alerts/Complete.antt =====
-- No regression is lost in the grouping by control (`buildAlerts` of images/kubescape-gate/main.go).
use nineteenseventytwo_platf.Prelude.{
  ℕ, ◌+◌, ◌≡◌, refl, ◌∙◌, true, List, [], ◌∷◌, Bytes, arith, nat_eq, list_eq, contains, Distinct,
  length, if◌then◌else◌, list_same_iff,
}
use nineteenseventytwo_platf.Gate.Types.{Pair}
use nineteenseventytwo_platf.Gate.Alerts.Grouping.{
  resources_of, new_controls, has_control, build_alerts_lem,
}

-- the number of resources that the alerts for `cs` list
abbrev pub total : List Bytes → List Pair → ℕ
total [] ps = 0
total (c ∷ cs) ps = length (resources_of c ps) + total cs ps

total-nil : (cs : List Bytes) → total cs [] ≡ 0
total-nil [] = refl
total-nil (c ∷ cs) = omega (arith, total-nil cs)

total-cons :
    (cs : List Bytes) (p : Pair) (ps : List Pair)
    → Distinct cs
    → total cs (p ∷ ps) ≡ (if contains p.control cs then 1 else 0) + total cs ps
total-cons [] p ps d = refl
total-cons (c ∷ cs) p ps d =
    ground (arith, total-cons cs p ps d.1, list_same_iff c p.control, list_same_iff p.control c)

total-all :
    (cs : List Bytes) (ps : List Pair)
    → Distinct cs
    → ((c : Bytes) → has_control c ps ≡ true → contains c cs ≡ true)
    → total cs ps ≡ length ps
total-all cs [] d h = total-nil cs
total-all cs (p ∷ ps) d h = ground (
  arith,
  total-cons cs p ps d,
  total-all cs ps d (λ c k. h c (ground arith)),
  h p.control,
  list_same_iff p.control p.control,
)

-- The alerts together list as many resources as there are regressions, so none is lost or repeated.
pub resources_total : (ps : List Pair) → total (new_controls [] ps) ps ≡ length ps
resources_total ps =
    let (_, distinct, holds) = build_alerts_lem ps [] 0 0 in
    total-all (new_controls [] ps) ps distinct (λ c k. holds c ∙ k)
