-- ===== src/Dash/Start.antt =====
-- `main` of images/dash/main.go up to the server, `inClusterAPI` and `env`.
use nineteenseventytwo_platf.Prelude.{
  Bool, not, ◌||◌, ◌++◌, Bytes, codes, Result, ok, err, ◌>>=◌, is_empty, if◌then◌else◌,
}
use nineteenseventytwo_platf.Dash.Types.{Config}
use nineteenseventytwo_platf.Dash.Server.{split_list}

-- `os.Getenv`, `os.ReadFile`, `AppendCertsFromPEM` of an empty pool, and `net.JoinHostPort`
pub record PodEnvironment : Type 0 where
  pub get_env : Bytes → Bytes
  pub read_file : Bytes → Result Bytes Bytes
  pub holds_certificates : Bytes → Bool
  pub join_host_port : Bytes → Bytes → Bytes

-- the client: where the API is, the certificates that it trusts, and where its token is
pub record ClusterApi : Type 0 where
  pub base : Bytes
  pub roots : Bytes
  pub token_path : Bytes

pub record Started : Type 0 where
  pub config : Config
  pub api : ClusterApi
  pub listen : Bytes

abbrev pub sa_dir : Bytes
sa_dir = codes "/var/run/secrets/kubernetes.io/serviceaccount"

module _ (e : PodEnvironment) where
  unfoldable pub env : Bytes → Bytes → Bytes
  env key fallback = let v = e.get_env key in if not (is_empty v) then v else fallback

  unfoldable pub config : Config
  unfolding env split_list
  config = record {
    namespaces =
        split_list
          (env (codes "DASH_NAMESPACES") (codes "eightbitsaxlounge-prod,eightbitsaxlounge-dev"));
    selector = env (codes "DASH_SELECTOR") (codes "app=eightbitsaxlounge");
    components =
        split_list (env (codes "DASH_COMPONENTS") (codes "db,state,data,midi,overlay,chat"));
  }

  abbrev pub with_roots : Bytes → Bytes → Bytes → Result Bytes ClusterApi
  with_roots host port ca =
      if not (e.holds_certificates ca)
      then err (codes "ca.crt holds no certificates")
      else ok (record {
        base = codes "https://" ++ e.join_host_port host port;
        roots = ca;
        token_path = sa_dir ++ codes "/token";
      })

  unfoldable pub in_cluster_api : Result Bytes ClusterApi
  in_cluster_api =
      let host = e.get_env (codes "KUBERNETES_SERVICE_HOST") in
      let port = e.get_env (codes "KUBERNETES_SERVICE_PORT") in
      if is_empty host || is_empty port
      then err (codes "KUBERNETES_SERVICE_HOST/PORT unset - not running in a pod")
      else (e.read_file (sa_dir ++ codes "/ca.crt") >>= with_roots host port)

  -- An error ends the process with status 1.
  unfoldable pub start : Result Bytes Started
  unfolding config in_cluster_api env
  start = in_cluster_api >>= λ api.
      ok (record { config = config; api = api; listen = env (codes "DASH_LISTEN") (codes ":8080") })
