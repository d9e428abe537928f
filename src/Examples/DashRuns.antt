-- ===== src/Examples/DashRuns.antt =====
-- The cases of images/dash/main_test.go.
use nineteenseventytwo_platf.Prelude.{
  ℕ, ◌≡◌, refl, true, false, List, [], ◌∷◌, ◌++◌, map, none, some, Bytes, codes, nat_eq, list_eq,
  Result, ok, err, if◌then◌else◌, ◌==◌, ◌^◌, ◌-◌,
}
use nineteenseventytwo_platf.Dash.Int32.{at_least32}
use nineteenseventytwo_platf.Dash.Types.{
  Config, Workload, Pod, Row, NamespaceView, State, running, degraded, crashing, stopped, unknown,
}
use nineteenseventytwo_platf.Dash.Classify.{state_of}
use nineteenseventytwo_platf.Dash.Tally.{labelled}
use nineteenseventytwo_platf.Dash.Client.{Api, ApiReply}
use nineteenseventytwo_platf.Dash.View.{
  namespace_view, unreadable, get_deployments, get_stateful_sets, get_pods,
}
use nineteenseventytwo_platf.Dash.Server.{HttpRequest, Server, matches, routes, split_list}

absent : state_of false 0 0 [] ≡ unknown
unfolding state_of
absent = refl

scaled_to_zero : state_of true 0 0 [] ≡ stopped
unfolding state_of
scaled_to_zero = refl

all_ready : state_of true 2 2 [] ≡ running
unfolding state_of
all_ready = refl

partly_ready : state_of true 2 1 [] ≡ degraded
unfolding state_of
partly_ready = refl

crash_loop_wins : state_of true 1 1 (codes "CrashLoopBackOff" ∷ []) ≡ crashing
unfolding state_of
crash_loop_wins = refl

stopped_wins : state_of true 0 0 (codes "CrashLoopBackOff" ∷ []) ≡ stopped
unfolding state_of
stopped_wins = refl

-- the order is that of the signed values: -1 is below 0
signed_order : at_least32 (2 ^ 32 - 1) 0 ≡ false
unfolding at_least32
signed_order = refl

abbrev pub cfg : Config
cfg = record {
  namespaces = codes "eightbitsaxlounge-prod" ∷ codes "eightbitsaxlounge-dev" ∷ [];
  selector = codes "app=eightbitsaxlounge";
  components = codes "db" ∷ codes "state" ∷ codes "chat" ∷ codes "midi" ∷ [];
}

abbrev workload : Bytes → ℕ → ℕ → Workload
workload comp desired ready = record {
  labels = (codes "component", comp) ∷ [];
  replicas = some desired;
  ready_replicas = ready;
}

abbrev pub deployments : List Workload
deployments =
    workload (codes "db") 1 1 ∷ workload (codes "chat") 0 0 ∷ workload (codes "midi") 1 0 ∷ []

abbrev pub stateful_sets : List Workload
stateful_sets = workload (codes "state") 1 1 ∷ []

abbrev pub pods : List Pod
pods =
    record {
      labels = (codes "component", codes "db") ∷ [];
      container_statuses = record { restart_count = 2; waiting = none } ∷ [];
    }
    ∷ record {
      labels = (codes "component", codes "midi") ∷ [];
      container_statuses =
          record { restart_count = 7; waiting = some (codes "CrashLoopBackOff") } ∷ [];
    }
    ∷ []

-- The path of each list stands for the JSON that the fake API answers with.
abbrev base : Bytes
base = codes "http://127.0.0.1"

abbrev prod_url : Bytes → Bytes
prod_url kind =
    base
    ++ codes "/apis/apps/v1/namespaces/eightbitsaxlounge-prod/"
    ++ kind
    ++ codes "?labelSelector=app%3Deightbitsaxlounge"

abbrev pods_url : Bytes
pods_url =
    base
    ++ codes "/api/v1/namespaces/eightbitsaxlounge-prod/pods?labelSelector=app%3Deightbitsaxlounge"

abbrev answered : Bytes → Result Bytes ApiReply
answered url =
    if url == prod_url (codes "deployments")
    then ok (record { status_code = 200; status = codes "200 OK"; body = codes "D" })
    else if url == prod_url (codes "statefulsets")
    then ok (record { status_code = 200; status = codes "200 OK"; body = codes "S" })
    else if url == pods_url
    then ok (record { status_code = 200; status = codes "200 OK"; body = codes "P" })
    else ok (record { status_code = 403; status = codes "403 Forbidden"; body = [] })

abbrev pub fake_api : Api
fake_api = record {
  base = base;
  read_token = λ moment. ok (codes "tok\n");
  new_request = λ url. ok tt;
  send = λ moment r.
      if r.authorization == codes "Bearer tok" then answered r.url else err (codes "401");
  decode_workloads = λ body. ok (if body == codes "D" then deployments else stateful_sets);
  decode_pods = λ body. ok pods;
}

abbrev pub state_at : Row → State
state_at r = r.state

abbrev pub restarts_at : Row → ℕ
restarts_at r = r.restarts

abbrev prod_view : NamespaceView
prod_view = (namespace_view fake_api cfg 0 (codes "eightbitsaxlounge-prod")).view

abbrev dev_view : NamespaceView
dev_view = (namespace_view fake_api cfg 3 (codes "eightbitsaxlounge-dev")).view

prod_states : map state_at prod_view.rows ≡ running ∷ running ∷ stopped ∷ crashing ∷ []
unfolding namespace_view get_deployments get_stateful_sets get_pods labelled
prod_states = refl

prod_restarts : map restarts_at prod_view.rows ≡ 2 ∷ 0 ∷ 0 ∷ 7 ∷ []
unfolding namespace_view get_deployments get_stateful_sets get_pods labelled
prod_restarts = refl

dev_states : map state_at dev_view.rows ≡ unknown ∷ unknown ∷ unknown ∷ unknown ∷ []
unfolding namespace_view get_deployments get_stateful_sets get_pods labelled
dev_states = refl

dev_error : dev_view.error ≡ unreadable
unfolding namespace_view get_deployments get_stateful_sets get_pods labelled
dev_error = refl

-- the mux answers what it does not know as `http.NotFound` does
abbrev pub server : Server
server = record {
  cfg = cfg;
  css = codes "body{}";
  execute = λ d. d.viewer;
  own_answer = λ h r. record { status = 404; headers = h; body = codes "404 page not found\n" };
}

abbrev pub get_page : Bytes → HttpRequest
get_page path = record { method = codes "GET"; path = path; headers = [] }

style_status : (routes server fake_api [] [] (get_page (codes "/style.css"))).status ≡ 200
unfolding routes matches
style_status = refl

healthz_status : (routes server fake_api [] [] (get_page (codes "/healthz"))).status ≡ 200
unfolding routes matches
healthz_status = refl

other_status : (routes server fake_api [] [] (get_page (codes "/anything-else"))).status ≡ 404
unfolding routes matches
other_status = refl

default_components :
    split_list (codes "db, state,,data ") ≡ codes "db" ∷ codes "state" ∷ codes "data" ∷ []
unfolding split_list
default_components = refl
