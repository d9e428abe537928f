-- ===== src/Dash/Process.antt =====
-- `newServer` of images/dash/main.go, and `main` as a whole: how the process ends before it listens,
-- and what it serves when it does.
pub mod Requests
use nineteenseventytwo_platf.Prelude.{ℕ, List, [], ◌∷◌, ◌++◌, Bytes, codes, Result, ok, err, ◌>>=◌}
use nineteenseventytwo_platf.Dash.Client.{Api, ApiRequest, ApiReply}
use nineteenseventytwo_platf.Dash.Server.{Handler, PageData, Server, views, routes}
use nineteenseventytwo_platf.Dash.Start.{PodEnvironment, ClusterApi, Started, start}
use nineteenseventytwo_platf.Dash.Types.{Config, Workload, Pod}
use nineteenseventytwo_platf.Dash.View.{Viewed}

-- `assets.ReadFile`, `template.ParseFS` of the assets with `Execute` of what it gives, and the
-- answers of `http.ServeMux` itself
pub record Assets : Type 0 where
  pub read_file : Bytes → Result Bytes Bytes
  pub parse_template : Bytes → Result Bytes (PageData → Bytes)
  pub own_answer : Handler

-- An error is the value of the panic.
unfoldable pub new_server : Assets → Config → Result Bytes Server
new_server assets cfg = assets.read_file (codes "static/style.css") >>= λ css.
    assets.parse_template (codes "templates/index.html") >>= λ page.
    ok (record { cfg = cfg; css = css; execute = page; own_answer = assets.own_answer })

-- an exit with status 1, a panic, or a server that listens at an address
pub data Launched : Type 0 where
  exits : Bytes → Launched
  panics : Bytes → Launched
  listens : Server → ClusterApi → Bytes → Launched

abbrev pub with_server : Started → Result Bytes Server → Launched
with_server s (err e) = panics e
with_server s (ok server) = listens server s.api s.listen

abbrev pub with_start : Assets → Result Bytes Started → Launched
with_start assets (err e) = exits e
with_start assets (ok s) = with_server s (new_server assets s.config)

unfoldable pub launch : Assets → PodEnvironment → Launched
launch assets e = with_start assets (start e)

-- What the process meets while it serves, by the moments of its calls: the files, the network, which
-- is trusted by the certificates given, and what `Api` leaves open besides.
pub record Cluster : Type 0 where
  pub read_file : ℕ → Bytes → Result Bytes Bytes
  pub send : Bytes → ℕ → ApiRequest → Result Bytes ApiReply
  pub new_request : Bytes → Result Bytes (Unit {0})
  pub decode_workloads : Bytes → Result Bytes (List Workload)
  pub decode_pods : Bytes → Result Bytes (List Pod)

-- the client that `inClusterAPI` makes, at work
abbrev pub api_in : Cluster → ClusterApi → Api
api_in cluster c = record {
  base = c.base;
  read_token = λ moment. cluster.read_file moment c.token_path;
  new_request = cluster.new_request;
  send = cluster.send c.roots;
  decode_workloads = cluster.decode_workloads;
  decode_pods = cluster.decode_pods;
}

unfoldable pub sent_for : List Viewed → List ApiRequest
sent_for [] = []
sent_for (v ∷ vs) = v.sent ++ sent_for vs

-- the requests that `index` sends for a page
unfoldable pub page_requests : Server → Api → List ApiRequest
page_requests s api = sent_for (views api s.cfg 0 s.cfg.namespaces)
