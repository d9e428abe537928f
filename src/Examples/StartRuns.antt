-- ===== src/Examples/StartRuns.antt =====
-- The starts of images/kubescape-gate and images/dash in small environments.
use nineteenseventytwo_platf.Prelude.{
  ◌≡◌, refl, true, false, [], ◌++◌, Bytes, codes, ok, err, ◌==◌, nat_eq, list_eq, if◌then◌else◌,
}
use nineteenseventytwo_platf.Gate.Start
use nineteenseventytwo_platf.Dash.Start.{PodEnvironment, in_cluster_api, start}

abbrev nothing_set : Bytes → Bytes
nothing_set key = []

abbrev pub pod_set : Bytes → Bytes
pod_set key =
    if key == codes "KUBERNETES_SERVICE_HOST"
    then codes "10.0.0.1"
    else if key == codes "KUBERNETES_SERVICE_PORT"
    then codes "443"
    else []

abbrev pub pod : PodEnvironment
pod = record {
  get_env = pod_set;
  read_file = λ path. ok path;
  holds_certificates = λ ca. true;
  join_host_port = λ host port. host ++ (codes ":" ++ port);
}

gate_paths : (Start.config nothing_set).accepted_path ≡ codes "/accepted/accepted.txt"
unfolding Start.config
gate_paths = refl

in_pod_run :
    in_cluster_api pod
    ≡ ok (record {
      base = codes "https://10.0.0.1:443";
      roots = codes "/var/run/secrets/kubernetes.io/serviceaccount/ca.crt";
      token_path = codes "/var/run/secrets/kubernetes.io/serviceaccount/token";
    })
unfolding in_cluster_api
in_pod_run = refl

outside_run :
    start (record pod { get_env = nothing_set })
    ≡ err (codes "KUBERNETES_SERVICE_HOST/PORT unset - not running in a pod")
unfolding start
outside_run = refl

no_roots_run :
    start (record pod { holds_certificates = λ ca. false })
    ≡ err (codes "ca.crt holds no certificates")
unfolding start
no_roots_run = refl
