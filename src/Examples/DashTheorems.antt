-- ===== src/Examples/DashTheorems.antt =====
-- The theorems on images/dash at concrete inputs.
use nineteenseventytwo_platf.Prelude.{
  ◌≤◌, ◌≡◌, ◌↔◌, ◌⊎◌, refl, ok, true, [], ◌∷◌, ◌++◌, map, codes, All, arith, nat_eq, list_eq,
}
use nineteenseventytwo_platf.Dash.Types.{running}
use nineteenseventytwo_platf.Dash.Classify.{classify, Means, classify-Means}
use nineteenseventytwo_platf.Dash.Tally.{
  no_troubles, count_pods, component_row, labelled, replicas_of,
}
use nineteenseventytwo_platf.Dash.Tally.Totals.{total, own_workloads, ready_of}
use nineteenseventytwo_platf.Dash.Tally.Reasons.{Ailing, count_pods-Ailing}
use nineteenseventytwo_platf.Dash.Tally.Rows.{NoCrash, component_row-running}
use nineteenseventytwo_platf.Dash.View.{namespace_view}
use nineteenseventytwo_platf.Dash.View.Outcomes.{Readable, Unreadable, namespace_view-Readable}
use nineteenseventytwo_platf.Dash.Process.{
  Assets, new_server, listens, launch, Cluster, api_in, page_requests,
}
use nineteenseventytwo_platf.Dash.Process.Requests.{AskedFor, IsServing, launch-AskedFor}
use nineteenseventytwo_platf.Dash.Start.{ClusterApi, config, start}
use nineteenseventytwo_platf.Examples.StartRuns.{pod}
use nineteenseventytwo_platf.Dash.Server.{Server, page_data, routes}
use nineteenseventytwo_platf.Dash.Server.Headers.{Guarded, routes-Guarded}
use nineteenseventytwo_platf.Dash.Server.Pages.{name_of, Complete, page_data-namespaces}
use nineteenseventytwo_platf.Examples.DashRuns.{
  cfg, deployments, stateful_sets, pods, fake_api, server, get_page,
}

component_row-running_example :
    ((component_row deployments stateful_sets pods (codes "db")).state ≡ running) ↔ (
      (1 ≤ total replicas_of (own_workloads (codes "db") (deployments ++ stateful_sets)))
      × (total replicas_of (own_workloads (codes "db") (deployments ++ stateful_sets))
          ≤ total ready_of (own_workloads (codes "db") (deployments ++ stateful_sets)))
      × NoCrash (codes "db") pods)
unfolding total labelled replicas_of
component_row-running_example =
    component_row-running deployments stateful_sets pods (codes "db") (omega arith) (omega arith)

namespace_view-Readable_example :
    Readable fake_api cfg 0
      (codes "eightbitsaxlounge-prod")
      (namespace_view fake_api cfg 0 (codes "eightbitsaxlounge-prod"))
    ⊎ Unreadable fake_api cfg 0
        (codes "eightbitsaxlounge-prod")
        (namespace_view fake_api cfg 0 (codes "eightbitsaxlounge-prod"))
namespace_view-Readable_example =
    namespace_view-Readable fake_api cfg 0 (codes "eightbitsaxlounge-prod")

count_pods-Ailing_example : Ailing (codes "midi") pods (count_pods (codes "midi") no_troubles pods)
count_pods-Ailing_example = count_pods-Ailing (codes "midi") pods

routes-Guarded_example :
    Guarded (routes server fake_api [] [] (get_page (codes "/anything-else"))).headers
routes-Guarded_example =
    routes-Guarded server fake_api [] [] (get_page (codes "/anything-else")) (λ g kept. kept)

page_data-namespaces_example :
    (map name_of (page_data fake_api cfg [] []).namespaces
      ≡ codes "eightbitsaxlounge-prod" ∷ codes "eightbitsaxlounge-dev" ∷ [])
    × All (Complete cfg) (page_data fake_api cfg [] []).namespaces
page_data-namespaces_example = page_data-namespaces fake_api cfg [] []

classify-Means_example :
    ((classify (codes "chat") true 2 2 [] 5).state ≡ running) ↔ Means running true 2 2 []
classify-Means_example = classify-Means running (codes "chat") true 2 2 [] 5

abbrev assets : Assets
assets = record {
  read_file = λ path. ok (codes "body {}");
  parse_template = λ path. ok (λ p. p.viewer);
  own_answer = server.own_answer;
}

abbrev cluster_api : ClusterApi
cluster_api = record {
  base = codes "https://10.0.0.1:443";
  roots = codes "/var/run/secrets/kubernetes.io/serviceaccount/ca.crt";
  token_path = codes "/var/run/secrets/kubernetes.io/serviceaccount/token";
}

abbrev listening : Server
listening = record {
  cfg = config pod;
  css = codes "body {}";
  execute = λ p. p.viewer;
  own_answer = server.own_answer;
}

-- every file is its path, and every list is empty
abbrev cluster : Cluster
cluster = record {
  read_file = λ moment path. ok path;
  send = λ roots moment r. ok (record { status_code = 200; status = codes "200 OK"; body = [] });
  new_request = λ u. ok tt;
  decode_workloads = λ b. ok [];
  decode_pods = λ b. ok [];
}

launched : launch assets pod ≡ listens listening cluster_api (codes ":8080")
unfolding launch start new_server
launched = refl

launch-AskedFor_example :
    IsServing pod assets listening cluster_api (codes ":8080")
    × All
        (AskedFor (api_in cluster cluster_api) (config pod) (config pod).namespaces)
        (page_requests listening (api_in cluster cluster_api))
launch-AskedFor_example =
    launch-AskedFor pod assets listening cluster_api (codes ":8080") cluster launched
