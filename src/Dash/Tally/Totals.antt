-- ===== src/Dash/Tally/Totals.antt =====
-- What the loop over the workloads computes: sums over the component's own workloads.
use nineteenseventytwo_platf.Prelude.{
  ℕ, ◌+◌, ◌%◌, ◌^◌, ◌<◌, ◌≡◌, refl, not, ◌||◌, List, [], ◌∷◌, ◌++◌, Bytes, keep, is_empty, arith,
  Bool-cases, inl, inr,
}
use nineteenseventytwo_platf.Dash.Int32.{add32}
use nineteenseventytwo_platf.Dash.Types.{Workload}
use nineteenseventytwo_platf.Dash.Tally.{
  Replicas, no_replicas, labelled, replicas_of, count_workload, count_workloads,
}

module _ {ℓ} {A : Type ℓ} where
  unfoldable pub total : (A → ℕ) → List A → ℕ
  total f [] = 0
  total f (x ∷ xs) = f x + total f xs

-- the workloads of a component
abbrev pub own_workloads : Bytes → List Workload → List Workload
own_workloads comp ws = keep (λ w. labelled comp w.labels) ws

abbrev pub ready_of : Workload → ℕ
ready_of w = w.ready_replicas

-- the sums for the component's workloads, added to what was counted before
abbrev pub Counted : Bytes → Replicas → List Workload → Replicas → Type 0
Counted comp r ws s =
    (s.found ≡ (r.found || not (is_empty (own_workloads comp ws))))
    × (s.desired ≡ (r.desired + total replicas_of (own_workloads comp ws)) % 2 ^ 32)
    × (s.ready ≡ (r.ready + total ready_of (own_workloads comp ws)) % 2 ^ 32)

count_workloads-Counted :
    (comp : Bytes) (r : Replicas) (ws : List Workload)
    → r.desired < 2 ^ 32
    → r.ready < 2 ^ 32
    → Counted comp r ws (count_workloads comp r ws)
unfolding count_workloads count_workload add32 total
count_workloads-Counted comp r [] hd hr = (ground arith, omega arith, omega arith)
count_workloads-Counted comp r (w ∷ ws) hd hr = elim (Bool-cases (labelled comp w.labels)) [
  | inl own ↦
      let ih =
        count_workloads-Counted comp (count_workload comp r w) ws (ground arith) (ground arith) in
      (ground arith, grind arith, grind arith)
  | inr other ↦
      let ih = count_workloads-Counted comp r ws hd hr in (ground arith, ground arith, ground arith)
]

pub count_workloads-append :
    (comp : Bytes) (r : Replicas) (vs ws : List Workload)
    → count_workloads comp (count_workloads comp r vs) ws ≡ count_workloads comp r (vs ++ ws)
unfolding count_workloads
count_workloads-append comp r [] ws = refl
count_workloads-append comp r (v ∷ vs) ws =
    count_workloads-append comp (count_workload comp r v) vs ws

-- `found`, `desired` and `ready` after both lists: whether there is a workload of the component in
-- one of them, and the sums over these, as int32.
pub replicas-Counted :
    (comp : Bytes) (deps sets : List Workload)
    → Counted comp no_replicas
        (deps ++ sets)
        (count_workloads comp (count_workloads comp no_replicas deps) sets)
replicas-Counted comp deps sets =
    let h = count_workloads-Counted comp no_replicas (deps ++ sets) (omega arith) (omega arith) in
    rw (count_workloads-append comp no_replicas deps sets) h
