-- ===== src/Dash/View/Requests.antt =====
-- What a view asks of the Kubernetes API.
use nineteenseventytwo_platf.Prelude.{
  ℕ, zero, suc, ◌+◌, ◌<◌, ◌≡◌, refl, Bytes, codes, ◌++◌, Result, ok, inl, inr, Result-cases, All,
  All-append, All-map, subst, arith,
}
use nineteenseventytwo_platf.Text.Space.{trim_space}
use nineteenseventytwo_platf.Dash.Types.{Config}
use nineteenseventytwo_platf.Dash.Client.{
  Api, ApiRequest, get_url, api_request, send_get, get_with, get,
}
use nineteenseventytwo_platf.Dash.View.{
  apps_path, core_path, unknown_view, known_view, get_deployments, get_stateful_sets, get_pods,
  with_deployments, with_stateful_sets, with_pods, namespace_view,
}

-- a GET of the URL, with the token as it is read at that moment
abbrev pub Fresh : Api → ℕ → Bytes → ApiRequest → Type 0
Fresh api moment url r =
    (r.url ≡ url)
    × (token : Bytes) × (api.read_token moment ≡ ok token)
    × (r.authorization ≡ codes "Bearer " ++ trim_space token)

module _ {ℓ} {A : Type ℓ} (api : Api) (decode : Bytes → Result Bytes A) where
  get-Fresh :
      (moment : ℕ) (path key value : Bytes)
      → All
          (Fresh api moment (get_url api.base path key value))
          (get api decode moment path key value).sent
  unfolding get get_with send_get api_request
  get-Fresh moment path key value = elim (Result-cases (api.read_token moment)) [
    | inl (e, t) ↦ rw t tt
    | inr (token, t) ↦ elim (Result-cases (api.new_request (get_url api.base path key value))) [
      | inl (e, n) ↦ rw t (rw n tt)
      | inr (u, n) ↦ rw t (rw n ((refl, token, t, refl), tt))
    ]
  ]

-- the three URLs
abbrev pub list_url : Api → Config → Bytes → ℕ → Bytes
list_url api cfg ns zero =
    get_url api.base (apps_path ns (codes "/deployments")) (codes "labelSelector") cfg.selector
list_url api cfg ns (suc zero) =
    get_url api.base (apps_path ns (codes "/statefulsets")) (codes "labelSelector") cfg.selector
list_url api cfg ns (suc (suc k)) =
    get_url api.base (core_path ns (codes "/pods")) (codes "labelSelector") cfg.selector

abbrev pub Asked : Api → Config → ℕ → Bytes → ApiRequest → Type 0
Asked api cfg moment ns r = (k : ℕ) × (k < 3) × Fresh api (moment + k) (list_url api cfg ns k) r

module _ (api : Api) (cfg : Config) (moment : ℕ) (ns : Bytes) where
  get_deployments-Asked : All (Asked api cfg moment ns) (get_deployments api cfg moment ns).sent
  unfolding get_deployments
  get_deployments-Asked =
      All-map
        (λ r h.
          (0, omega arith, subst (λ m. Fresh api m (list_url api cfg ns 0) r) (omega arith) h))
        (get_deployments api cfg moment ns).sent
        (get-Fresh api api.decode_workloads moment (apps_path ns (codes "/deployments"))
          (codes "labelSelector") cfg.selector)

  get_stateful_sets-Asked : All (Asked api cfg moment ns) (get_stateful_sets api cfg moment ns).sent
  unfolding get_stateful_sets
  get_stateful_sets-Asked =
      All-map (λ r h. (1, omega arith, h)) (get_stateful_sets api cfg moment ns).sent
        (get-Fresh api api.decode_workloads (moment + 1) (apps_path ns (codes "/statefulsets"))
          (codes "labelSelector") cfg.selector)

  get_pods-Asked : All (Asked api cfg moment ns) (get_pods api cfg moment ns).sent
  unfolding get_pods
  get_pods-Asked =
      All-map (λ r h. (2, omega arith, h)) (get_pods api cfg moment ns).sent
        (get-Fresh api api.decode_pods (moment + 2) (core_path ns (codes "/pods"))
          (codes "labelSelector") cfg.selector)

-- Whatever the reads return: each request sent for a view is a GET of one of the three lists of that
-- namespace, Deployments, StatefulSets and Pods, with the configured selector and with the token
-- as it was read for that very request.
pub namespace_view-Asked :
    (api : Api) (cfg : Config) (moment : ℕ) (ns : Bytes)
    → All (Asked api cfg moment ns) (namespace_view api cfg moment ns).sent
unfolding namespace_view with_deployments with_stateful_sets with_pods known_view unknown_view
namespace_view-Asked api cfg moment ns =
    let one = (get_deployments api cfg moment ns).sent in
    let one_two = one ++ (get_stateful_sets api cfg moment ns).sent in
    let two : All (Asked api cfg moment ns) one_two =
      All-append (Asked api cfg moment ns) one (get_stateful_sets api cfg moment ns).sent
        (get_deployments-Asked api cfg moment ns) (get_stateful_sets-Asked api cfg moment ns) in
    let three : All (Asked api cfg moment ns) (one_two ++ (get_pods api cfg moment ns).sent) =
      All-append (Asked api cfg moment ns) one_two (get_pods api cfg moment ns).sent two
        (get_pods-Asked api cfg moment ns) in
    elim (Result-cases (get_deployments api cfg moment ns).result) [
      | inl (e, d) ↦ rw d (get_deployments-Asked api cfg moment ns)
      | inr (deps, d) ↦ elim (Result-cases (get_stateful_sets api cfg moment ns).result) [
        | inl (e, s) ↦ rw d (rw s two)
        | inr (sets, s) ↦ elim (Result-cases (get_pods api cfg moment ns).result) [
          | inl (e, p) ↦ rw d (rw s (rw p three))
          | inr (pods, p) ↦ rw d (rw s (rw p three))
        ]
      ]
    ]
