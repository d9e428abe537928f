-- ===== src/Dash/Tally/Rows.antt =====
-- The row of a component, against sums and sets that are stated apart from the loops.
use nineteenseventytwo_platf.Prelude.{
  ◌^◌, ◌<◌, ◌≤◌, ◌≡◌, ◌≢◌, ◌↔◌, refl, true, false, List, [], ◌∷◌, ◌++◌, Bytes, is_empty, arith,
  contains, nat_eq, list_eq, same_refl,
}
use nineteenseventytwo_platf.Dash.Int32.{at_least32_iff}
use nineteenseventytwo_platf.Dash.Types.{Workload, Pod, running}
use nineteenseventytwo_platf.Dash.Classify.{classify-Means}
use nineteenseventytwo_platf.Dash.Tally.{
  Troubles, no_replicas, no_troubles, replicas_of, is_crash, count_workloads, count_pods,
  component_row,
}
use nineteenseventytwo_platf.Dash.Tally.Totals.{total, own_workloads, ready_of, replicas-Counted}
use nineteenseventytwo_platf.Dash.Tally.Reasons.{Ailing, waits, own_statuses, count_pods-Ailing}

-- no container of the list waits for a reason to crash
abbrev pub NoCrash : Bytes → List Pod → Type 0
NoCrash comp pods = (r : Bytes) → is_crash r ≡ true → waits r (own_statuses comp pods) ≡ false

empty_of_none : (xs : List Bytes) → ((r : Bytes) → contains r xs ≡ false) → is_empty xs ≡ true
empty_of_none [] h = refl
empty_of_none (x ∷ xs) h = ground (arith, h x, same_refl x)

none_of_empty : (r : Bytes) (xs : List Bytes) → is_empty xs ≡ true → contains r xs ≡ false
none_of_empty r [] h = refl
none_of_empty r (x ∷ xs) h = cc

no_reasons_iff :
    (comp : Bytes) (pods : List Pod) (t : Troubles)
    → Ailing comp pods t
    → (is_empty t.reasons ≡ true) ↔ NoCrash comp pods
no_reasons_iff comp pods t h = (
  λ e r c. ground (arith, h.1 r, none_of_empty r t.reasons e),
  λ n. empty_of_none t.reasons (λ r. ground (arith, h.1 r, n r)),
)

-- nothing is counted without a workload
desired-zero : (ws : List Workload) → is_empty ws ≡ true → total replicas_of ws ≡ 0
unfolding total
desired-zero [] h = refl
desired-zero (w ∷ ws) h = cc

-- For a component whose Deployments and StatefulSets desire, and have ready, fewer than 2 ^ 31
-- replicas in total: its row says running exactly if at least one replica is desired, at least as
-- many are ready as desired, and no container of its pods waits for one of the crash reasons.
pub component_row-running :
    (deps sets : List Workload) (pods : List Pod) (comp : Bytes)
    → total replicas_of (own_workloads comp (deps ++ sets)) < 2 ^ 31
    → total ready_of (own_workloads comp (deps ++ sets)) < 2 ^ 31
    → ((component_row deps sets pods comp).state ≡ running) ↔ (
        (1 ≤ total replicas_of (own_workloads comp (deps ++ sets)))
        × (total replicas_of (own_workloads comp (deps ++ sets))
            ≤ total ready_of (own_workloads comp (deps ++ sets)))
        × NoCrash comp pods)
unfolding component_row
component_row-running deps sets pods comp hd hr =
    let r = count_workloads comp (count_workloads comp no_replicas deps) sets in
    let t = count_pods comp no_troubles pods in
    let means = classify-Means running comp r.found r.desired r.ready t.reasons t.restarts in
    let sums = replicas-Counted comp deps sets in
    let quiet = no_reasons_iff comp pods t (count_pods-Ailing comp pods) in
    let none = desired-zero (own_workloads comp (deps ++ sets)) in
    let desired : r.desired ≡ total replicas_of (own_workloads comp (deps ++ sets)) = omega arith in
    let ready : r.ready ≡ total ready_of (own_workloads comp (deps ++ sets)) = omega arith in
    let signed = at_least32_iff r.ready r.desired (omega arith) (omega arith) in
    (
      λ s.
          let m = means.0 s in
          let ordered = signed.0 m.3 in let counts = m.1 in (omega arith, omega arith, quiet.0 m.2),
      λ g.
          let nonzero : r.desired ≢ 0 = (λ e. omega arith) in
          means.1 (ground arith, nonzero, quiet.1 g.2, signed.1 (omega arith)),
    )
