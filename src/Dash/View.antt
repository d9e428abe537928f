-- ===== src/Dash/View.antt =====
-- `namespaceView` of images/dash/main.go.
pub mod Outcomes
pub mod Requests
pub mod Paths
use nineteenseventytwo_platf.Prelude.{
  ℕ, ◌+◌, Bytes, codes, List, [], ◌∷◌, ◌++◌, map, Result, ok, err,
}
use nineteenseventytwo_platf.Text.Percent.{path_escape}
use nineteenseventytwo_platf.Dash.Types.{Config, Workload, Pod, Row, NamespaceView, unknown}
use nineteenseventytwo_platf.Dash.Tally.{component_row}
use nineteenseventytwo_platf.Dash.Client.{Api, ApiRequest, Read, get}

-- the view, the requests sent for it, and the warnings logged (a namespace and an error)
pub record Viewed : Type 0 where
  pub view : NamespaceView
  pub sent : List ApiRequest
  pub warned : List (Bytes × Bytes)

abbrev pub unreadable : Bytes
unreadable = codes "cluster API unreachable or refused - state unknown"

abbrev pub unknown_row : Bytes → Row
unknown_row component = record {
  component = component;
  state = unknown;
  ready = 0;
  desired = 0;
  restarts = 0;
  note = [];
}

-- the closure `unknown`
unfoldable pub unknown_view : Config → Bytes → List ApiRequest → Bytes → Viewed
unknown_view cfg ns sent e = record {
  view = record { name = ns; rows = map unknown_row cfg.components; error = unreadable };
  sent = sent;
  warned = (ns, e) ∷ [];
}

-- the loop over the components
unfoldable pub known_view :
    Config → Bytes → List ApiRequest → List Workload → List Workload → List Pod → Viewed
unfolding component_row
known_view cfg ns sent deps sets pods = record {
  view = record { name = ns; rows = map (component_row deps sets pods) cfg.components; error = [] };
  sent = sent;
  warned = [];
}

abbrev pub apps_path : Bytes → Bytes → Bytes
apps_path ns kind = codes "/apis/apps/v1/namespaces/" ++ (path_escape ns ++ kind)

abbrev pub core_path : Bytes → Bytes → Bytes
core_path ns kind = codes "/api/v1/namespaces/" ++ (path_escape ns ++ kind)

-- the three reads
unfoldable pub get_deployments : Api → Config → ℕ → Bytes → Read (List Workload)
unfolding get path_escape
get_deployments api cfg moment ns =
    get api api.decode_workloads moment (apps_path ns (codes "/deployments"))
      (codes "labelSelector") cfg.selector

unfoldable pub get_stateful_sets : Api → Config → ℕ → Bytes → Read (List Workload)
unfolding get path_escape
get_stateful_sets api cfg moment ns =
    get api api.decode_workloads (moment + 1) (apps_path ns (codes "/statefulsets"))
      (codes "labelSelector") cfg.selector

unfoldable pub get_pods : Api → Config → ℕ → Bytes → Read (List Pod)
unfolding get path_escape
get_pods api cfg moment ns =
    get api api.decode_pods (moment + 2) (core_path ns (codes "/pods")) (codes "labelSelector")
      cfg.selector

-- The rest of the function from each read on, by the requests sent up to it and its result.
unfoldable pub with_pods :
    Config
    → Bytes
    → List Workload
    → List Workload
    → List ApiRequest
    → Result Bytes (List Pod)
    → Viewed
unfolding unknown_view known_view
with_pods cfg ns deps sets sent (err e) = unknown_view cfg ns sent e
with_pods cfg ns deps sets sent (ok pods) = known_view cfg ns sent deps sets pods

unfoldable pub with_stateful_sets :
    Api
    → Config
    → ℕ
    → Bytes
    → List Workload
    → List ApiRequest
    → Result Bytes (List Workload)
    → Viewed
unfolding unknown_view with_pods
with_stateful_sets api cfg moment ns deps sent (err e) = unknown_view cfg ns sent e
with_stateful_sets api cfg moment ns deps sent (ok sets) =
    let r = get_pods api cfg moment ns in with_pods cfg ns deps sets (sent ++ r.sent) r.result

unfoldable pub with_deployments :
    Api → Config → ℕ → Bytes → List ApiRequest → Result Bytes (List Workload) → Viewed
unfolding unknown_view with_stateful_sets
with_deployments api cfg moment ns sent (err e) = unknown_view cfg ns sent e
with_deployments api cfg moment ns sent (ok deps) =
    let r = get_stateful_sets api cfg moment ns in
    with_stateful_sets api cfg moment ns deps (sent ++ r.sent) r.result

-- Its calls of the API happen at `moment` and the two moments after it.
unfoldable pub namespace_view : Api → Config → ℕ → Bytes → Viewed
unfolding with_deployments
namespace_view api cfg moment ns =
    let r = get_deployments api cfg moment ns in with_deployments api cfg moment ns r.sent r.result
