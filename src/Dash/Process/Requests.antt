-- ===== src/Dash/Process/Requests.antt =====
-- What a process of images/dash/main.go that listens asks of the cluster.
use nineteenseventytwo_platf.Prelude.{
  ℕ, ◌+◌, ◌≡◌, refl, sym, subst, ◌∙◌, Bool, true, false, ◌||◌, List, [], ◌∷◌, ◌++◌, Bytes, codes,
  Result, ok, err, bind-ok, guard-ok, ok_unique, All, All-append, All-map, contains, nat_eq,
  list_eq, same_refl, or_left, or_right, ◌==◌, is_empty, not,
}
use nineteenseventytwo_platf.Dash.Client.{Api, ApiRequest}
use nineteenseventytwo_platf.Dash.Process.{
  Assets, new_server, listens, with_server, with_start, launch, Cluster, api_in, sent_for,
  page_requests,
}
use nineteenseventytwo_platf.Dash.Server.{Server, views}
use nineteenseventytwo_platf.Dash.Start.{
  PodEnvironment, ClusterApi, Started, sa_dir, env, config, with_roots, in_cluster_api, start,
}
use nineteenseventytwo_platf.Dash.Types.{Config}
use nineteenseventytwo_platf.Dash.View.{namespace_view}
use nineteenseventytwo_platf.Dash.View.Requests.{Asked, namespace_view-Asked}

-- for a view of one of the namespaces, made at some moment
abbrev pub AskedFor : Api → Config → List Bytes → ApiRequest → Type 0
AskedFor api cfg nss r =
    (ns : Bytes) × (moment : ℕ) × (contains ns nss ≡ true) × Asked api cfg moment ns r

views-AskedFor :
    (api : Api) (cfg : Config) (moment : ℕ) (nss : List Bytes)
    → All (AskedFor api cfg nss) (sent_for (views api cfg moment nss))
unfolding views sent_for
views-AskedFor api cfg moment [] = tt
views-AskedFor api cfg moment (ns ∷ nss) =
    All-append (AskedFor api cfg (ns ∷ nss)) (namespace_view api cfg moment ns).sent
      (sent_for (views api cfg (moment + 3) nss))
      (All-map (λ r h. (ns, moment, or_left (ns == ns) (contains ns nss) (same_refl ns), h))
        (namespace_view api cfg moment ns).sent (namespace_view-Asked api cfg moment ns))
      (All-map
        (λ r (other, at, known, h).
          (other, at, or_right (other == ns) (contains other nss) known, h))
        (sent_for (views api cfg (moment + 3) nss)) (views-AskedFor api cfg (moment + 3) nss))

not-false : (b : Bool) → not b ≡ false → b ≡ true
not-false true h = refl
not-false false h = cc

module _ (e : PodEnvironment) where
  -- The API server that the pod's environment names, trusted by the certificates of the pod's
  -- service account, with the token that is there.
  abbrev pub InCluster : ClusterApi → Type 0
  InCluster c =
      (c.base
        ≡ codes "https://"
          ++ e.join_host_port (e.get_env (codes "KUBERNETES_SERVICE_HOST"))
              (e.get_env (codes "KUBERNETES_SERVICE_PORT")))
      × (e.read_file (sa_dir ++ codes "/ca.crt") ≡ ok c.roots)
      × (e.holds_certificates c.roots ≡ true)
      × (c.token_path ≡ sa_dir ++ codes "/token")

  with_roots-InCluster :
      (ca : Bytes) (c : ClusterApi)
      → e.read_file (sa_dir ++ codes "/ca.crt") ≡ ok ca
      → with_roots e
          (e.get_env (codes "KUBERNETES_SERVICE_HOST"))
          (e.get_env (codes "KUBERNETES_SERVICE_PORT"))
          ca
        ≡ ok c
      → InCluster c
  with_roots-InCluster ca c read h =
      let (holds, same) = guard-ok (not (e.holds_certificates ca)) _ (ok _) h in
      subst InCluster (ok_unique (ok _) refl same)
        (refl, read, not-false (e.holds_certificates ca) holds, refl)

  in_cluster_api-InCluster : (c : ClusterApi) → in_cluster_api e ≡ ok c → InCluster c
  unfolding in_cluster_api
  in_cluster_api-InCluster c h =
      let host = e.get_env (codes "KUBERNETES_SERVICE_HOST") in
      let port = e.get_env (codes "KUBERNETES_SERVICE_PORT") in
      let (named, later) = guard-ok (is_empty host || is_empty port) _ _ h in
      let (ca, read, made) =
        bind-ok (e.read_file (sa_dir ++ codes "/ca.crt")) (with_roots e host port) later in
      with_roots-InCluster ca c read made

  module _ (assets : Assets) where
    -- the pieces of a process that listens
    abbrev pub IsServing : Server → ClusterApi → Bytes → Type 0
    IsServing s c address =
        InCluster c
        × (s.cfg ≡ config e)
        × (assets.read_file (codes "static/style.css") ≡ ok s.css)
        × (assets.parse_template (codes "templates/index.html") ≡ ok s.execute)
        × (address ≡ env e (codes "DASH_LISTEN") (codes ":8080"))

    new_server-pieces :
        (cfg : Config) (s : Server)
        → new_server assets cfg ≡ ok s
        → (s.cfg ≡ cfg)
          × (assets.read_file (codes "static/style.css") ≡ ok s.css)
          × (assets.parse_template (codes "templates/index.html") ≡ ok s.execute)
    unfolding new_server
    new_server-pieces cfg s h =
        let (css, read, later) = bind-ok (assets.read_file (codes "static/style.css")) _ h in
        let (page, parsed, made) =
          bind-ok (assets.parse_template (codes "templates/index.html")) _ later in
        subst
          (λ (s : Server).
            (s.cfg ≡ cfg)
            × (assets.read_file (codes "static/style.css") ≡ ok s.css)
            × (assets.parse_template (codes "templates/index.html") ≡ ok s.execute))
          (ok_unique (ok _) refl made) (refl, read, parsed)

    start-pieces :
        (st : Started)
        → start e ≡ ok st
        → InCluster st.api
          × (st.config ≡ config e)
          × (st.listen ≡ env e (codes "DASH_LISTEN") (codes ":8080"))
    unfolding start
    start-pieces st h =
        let (c, made, same) = bind-ok (in_cluster_api e) _ h in
        subst
          (λ (st : Started).
            InCluster st.api
            × (st.config ≡ config e)
            × (st.listen ≡ env e (codes "DASH_LISTEN") (codes ":8080")))
          (ok_unique (ok _) refl same) (in_cluster_api-InCluster c made, refl, refl)

    with_server-listens :
        (st : Started) (r : Result Bytes Server) (s : Server) (c : ClusterApi) (address : Bytes)
        → with_server st r ≡ listens s c address
        → (r ≡ ok s) × (st.api ≡ c) × (st.listen ≡ address)
    with_server-listens st (err why) s c address h = cc
    with_server-listens st (ok made) s c address h = (cc, cc, cc)

    with_start-listens :
        (r : Result Bytes Started) (s : Server) (c : ClusterApi) (address : Bytes)
        → with_start assets r ≡ listens s c address
        → (st : Started) × (r ≡ ok st)
          × (with_server st (new_server assets st.config) ≡ listens s c address)
    with_start-listens (err why) s c address h = cc
    with_start-listens (ok st) s c address h = (st, refl, h)

    launch-IsServing :
        (s : Server) (c : ClusterApi) (address : Bytes)
        → launch assets e ≡ listens s c address
        → IsServing s c address
    unfolding launch
    launch-IsServing s c address h =
        let (st, begun, later) = with_start-listens (start e) s c address h in
        let (made, api, listen) =
          with_server-listens st (new_server assets st.config) s c address later in
        let (cluster, cfg, at) = start-pieces st begun in
        let (same_cfg, css, page) = new_server-pieces st.config s made in
        (subst InCluster api cluster, same_cfg ∙ cfg, css, page, sym listen ∙ at)

    -- If the process comes to listen, then it serves the embedded style sheet and template and the
    -- configuration of its environment, and its API is the one that the pod's environment names, over
    -- TLS with the pod's certificates. Whatever that cluster answers, every request that is sent for
    -- a page is a GET of the Deployments, StatefulSets or Pods of a configured namespace, with the
    -- token of the service account as it is read for that request.
    pub launch-AskedFor :
        (s : Server) (c : ClusterApi) (address : Bytes) (cluster : Cluster)
        → launch assets e ≡ listens s c address
        → IsServing s c address
          × All
              (AskedFor (api_in cluster c) s.cfg (config e).namespaces)
              (page_requests s (api_in cluster c))
    launch-AskedFor s c address cluster h =
        let serving = launch-IsServing s c address h in
        (
          serving,
          subst
              (λ (cfg : Config).
                All (AskedFor (api_in cluster c) s.cfg cfg.namespaces)
                  (page_requests s (api_in cluster c)))
              serving.1
              (unfold page_requests in views-AskedFor (api_in cluster c) s.cfg 0 s.cfg.namespaces),
        )
