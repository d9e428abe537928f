-- ===== src/Dash/Tally.antt =====
-- The loops of `namespaceView` over the workloads and the pods of one component.
pub mod Totals
pub mod Reasons
pub mod Rows
use nineteenseventytwo_platf.Prelude.{
  ℕ, Bool, true, false, not, ◌&&◌, List, [], ◌∷◌, ◌++◌, Bytes, codes, Option, none, some, Assoc,
  lookup, lookup_or, insert, ◌==◌, nat_eq, list_eq, if◌then◌else◌,
}
use nineteenseventytwo_platf.Dash.Int32.{add32}
use nineteenseventytwo_platf.Dash.Types.{Workload, ContainerStatus, Pod, Row}
use nineteenseventytwo_platf.Dash.Classify.{classify}

abbrev pub crash_reasons : Assoc Bytes Bool
crash_reasons =
    (codes "CrashLoopBackOff", true)
    ∷ (codes "ImagePullBackOff", true)
    ∷ (codes "ErrImagePull", true)
    ∷ (codes "CreateContainerConfigError", true)
    ∷ (codes "CreateContainerError", true)
    ∷ (codes "RunContainerError", true)
    ∷ (codes "InvalidImageName", true)
    ∷ []

-- `crashReasons[r]`
unfoldable pub is_crash : Bytes → Bool
unfolding lookup
is_crash r = lookup_or false r crash_reasons

-- `labels["component"] == comp`
unfoldable pub labelled : Bytes → Assoc Bytes Bytes → Bool
unfolding lookup
labelled comp labels = lookup_or [] (codes "component") labels == comp

-- the variables `found`, `desired` and `ready`
pub record Replicas : Type 0 where
  pub found : Bool
  pub desired : ℕ
  pub ready : ℕ

abbrev pub no_replicas : Replicas
no_replicas = record { found = false; desired = 0; ready = 0 }

-- the API server's default is 1
unfoldable pub replicas_of : Workload → ℕ
replicas_of w = elim w.replicas [ none ↦ 1 | some n ↦ n ]

unfoldable pub count_workload : Bytes → Replicas → Workload → Replicas
unfolding replicas_of add32
count_workload comp r w = if not (labelled comp w.labels) then r else record {
  found = true;
  desired = add32 r.desired (replicas_of w);
  ready = add32 r.ready w.ready_replicas;
}

unfoldable pub count_workloads : Bytes → Replicas → List Workload → Replicas
unfolding count_workload
count_workloads comp r [] = r
count_workloads comp r (w ∷ ws) = count_workloads comp (count_workload comp r w) ws

-- the variables `reasons`, `restarts` and `seen`
pub record Troubles : Type 0 where
  pub reasons : List Bytes
  pub restarts : ℕ
  pub seen : Assoc Bytes Bool

abbrev pub no_troubles : Troubles
no_troubles = record { reasons = []; restarts = 0; seen = [] }

unfoldable pub note_reason : Option Bytes → Troubles → Troubles
unfolding is_crash lookup insert
note_reason none t = t
note_reason (some r) t =
    if is_crash r && not (lookup_or false r t.seen)
    then record {
      reasons = t.reasons ++ r ∷ [];
      restarts = t.restarts;
      seen = insert r true t.seen;
    }
    else t

unfoldable pub count_status : Troubles → ContainerStatus → Troubles
unfolding note_reason add32
count_status t cs =
    note_reason cs.waiting
      (record { reasons = t.reasons; restarts = add32 t.restarts cs.restart_count; seen = t.seen })

unfoldable pub count_statuses : Troubles → List ContainerStatus → Troubles
unfolding count_status
count_statuses t [] = t
count_statuses t (cs ∷ rest) = count_statuses (count_status t cs) rest

unfoldable pub count_pods : Bytes → Troubles → List Pod → Troubles
unfolding count_statuses
count_pods comp t [] = t
count_pods comp t (p ∷ ps) =
    count_pods comp
      (if not (labelled comp p.labels) then t else count_statuses t p.container_statuses) ps

-- the body of the loop over the components
unfoldable pub component_row : List Workload → List Workload → List Pod → Bytes → Row
unfolding count_workloads count_pods classify
component_row deps sets pods comp =
    let r = count_workloads comp (count_workloads comp no_replicas deps) sets in
    let t = count_pods comp no_troubles pods in
    classify comp r.found r.desired r.ready t.reasons t.restarts
