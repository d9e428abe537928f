-- ===== src/Exporter/Start/Ready.antt =====
-- What a start that succeeds has configured.
use nineteenseventytwo_platf.Prelude.{
  ℕ, ◌*◌, ◌<◌, ◌≡◌, refl, sym, subst, Bool, true, false, not, List, [], ◌∷◌, Bytes, codes, Option,
  none, some, Result, ok, err, ◌>>=◌, bind-ok, ok_unique, is_empty, if◌then◌else◌, All, Bool-cases,
  inl, inr, arith,
}
use nineteenseventytwo_platf.Text.Space.{trim_space}
use nineteenseventytwo_platf.Text.Parts.{split}
use nineteenseventytwo_platf.Exporter.GithubApp.{GithubApp}
use nineteenseventytwo_platf.Exporter.Start.{
  Duration, forward, backward, Environment, Plan, AlertmanagerPlan, GithubPlan, ProwlerPlan, Auth,
  file_auth, app_auth, minute, nonempty_parts, split_list, positive_or, env, every, read_trimmed,
  alertmanager_plan, joined_ids, github_auth, github_plan, prowler_plan, start,
}

abbrev pub IsGiven : Bytes → Type 0
IsGiven s = is_empty s ≡ false

nonempty_parts-IsGiven : (parts : List Bytes) → All IsGiven (nonempty_parts parts)
unfolding nonempty_parts
nonempty_parts-IsGiven [] = tt
nonempty_parts-IsGiven (part ∷ parts) = elim (Bool-cases (is_empty (trim_space part))) [
  | inl e ↦ rw e (nonempty_parts-IsGiven parts)
  | inr e ↦ rw e (e, nonempty_parts-IsGiven parts)
]

split_list-IsGiven : (s : Bytes) → All IsGiven (split_list s)
unfolding split_list
split_list-IsGiven s = nonempty_parts-IsGiven (split b',' s)

positive_or-positive :
    (fallback : ℕ) (d : Result Bytes Duration) → 0 < fallback → 0 < positive_or fallback d
positive_or-positive fallback (err e) h = h
positive_or-positive fallback (ok (backward d)) h = h
positive_or-positive fallback (ok (forward d)) h = ground arith

no_entries : {A : Type 0} (s : List A) → is_empty s ≡ true → s ≡ []
no_entries [] h = refl
no_entries (c ∷ s) h = cc

abbrev given : Auth → Result Bytes Auth
given a = ok a

abbrev found : Option GithubPlan → Result Bytes (Option GithubPlan)
found g = ok g

abbrev whole : Plan → Result Bytes Plan
whole p = ok p

module _ (e : Environment) where
  every-positive : (key : Bytes) (fallback : ℕ) → 0 < fallback → 0 < every e key fallback
  unfolding every
  every-positive key fallback h = positive_or-positive fallback (e.parse_duration (e.get_env key)) h

  abbrev pub AlertmanagerReady : Option AlertmanagerPlan → Type 0
  AlertmanagerReady none = e.get_env (codes "FINDINGS_ALERTMANAGER") ≡ []
  AlertmanagerReady (some a) =
      (a.base ≡ e.get_env (codes "FINDINGS_ALERTMANAGER"))
      × IsGiven a.base
      × All IsGiven a.sources
      × (0 < a.interval)

  -- an App has its two names from files of the directory
  abbrev pub AuthReady : Bytes → Auth → Type 0
  AuthReady api (file_auth path) = e.get_env (codes "FINDINGS_GITHUB_APP_DIR") ≡ []
  AuthReady api (app_auth a) =
      let dir = e.get_env (codes "FINDINGS_GITHUB_APP_DIR") in
      IsGiven dir
      × (a.api ≡ api)
      × (read_trimmed e (e.path_join dir (codes "app-id")) ≡ ok a.app_id)
      × (read_trimmed e (e.path_join dir (codes "installation-id")) ≡ ok a.installation_id)

  abbrev pub GithubReady : Option GithubPlan → Type 0
  GithubReady none = split_list (e.get_env (codes "FINDINGS_GITHUB_REPOS")) ≡ []
  GithubReady (some g) =
      (g.repos ≡ split_list (e.get_env (codes "FINDINGS_GITHUB_REPOS")))
      × (is_empty g.repos ≡ false)
      × All IsGiven g.repos
      × All IsGiven g.tools
      × AuthReady g.api g.auth
      × (0 < g.interval)

  abbrev pub ProwlerReady : Option ProwlerPlan → Type 0
  ProwlerReady none = e.get_env (codes "FINDINGS_PROWLER_BUCKET") ≡ []
  ProwlerReady (some p) =
      IsGiven p.source.bucket
      × (p.creds.region ≡ p.source.region)
      × (p.source.endpoint ≡ [])
      × (0 < p.interval)

  alertmanager-ready : AlertmanagerReady (alertmanager_plan e)
  unfolding alertmanager_plan
  alertmanager-ready = elim (Bool-cases (is_empty (e.get_env (codes "FINDINGS_ALERTMANAGER")))) [
    | inl h ↦ rw h (no_entries (e.get_env (codes "FINDINGS_ALERTMANAGER")) h)
    | inr h ↦ rw h (
      refl,
      h,
      split_list-IsGiven (env e (codes "FINDINGS_ALERTMANAGER_SOURCES") (codes "falco,kubescape")),
      every-positive (codes "FINDINGS_ALERTMANAGER_EVERY") minute (omega arith),
    )
  ]

  prowler-ready : ProwlerReady (prowler_plan e)
  unfolding prowler_plan
  prowler-ready = elim (Bool-cases (is_empty (e.get_env (codes "FINDINGS_PROWLER_BUCKET")))) [
    | inl h ↦ rw h (no_entries (e.get_env (codes "FINDINGS_PROWLER_BUCKET")) h)
    | inr h ↦
        rw h (
          h,
          refl,
          refl,
          every-positive (codes "FINDINGS_PROWLER_EVERY") (60 * minute) (omega arith),
        )
  ]

  joined-ready :
      (api dir : Bytes) (a b : Result Bytes Bytes) (auth : Auth)
      → joined_ids e api dir a b ≡ ok auth
      → (g : GithubApp) × (auth ≡ app_auth g)
        × (g.api ≡ api)
        × (a ≡ ok g.app_id)
        × (b ≡ ok g.installation_id)
  joined-ready api dir (err a) (err b) auth h = cc
  joined-ready api dir (err a) (ok b) auth h = cc
  joined-ready api dir (ok a) (err b) auth h = cc
  joined-ready api dir (ok a) (ok b) auth h = (_, sym (ok_unique (ok _) refl h), refl, refl, refl)

  auth-ready : (api : Bytes) (auth : Auth) → github_auth e api ≡ ok auth → AuthReady api auth
  unfolding github_auth
  auth-ready api auth h = by_dir (is_empty (e.get_env (codes "FINDINGS_GITHUB_APP_DIR"))) refl h
    where
      by_dir :
          (b : Bool)
          → is_empty (e.get_env (codes "FINDINGS_GITHUB_APP_DIR")) ≡ b
          → (if not b
              then joined_ids e api
                  (e.get_env (codes "FINDINGS_GITHUB_APP_DIR"))
                  (read_trimmed e
                    (e.path_join (e.get_env (codes "FINDINGS_GITHUB_APP_DIR")) (codes "app-id")))
                  (read_trimmed e (
                    e.path_join
                      (e.get_env (codes "FINDINGS_GITHUB_APP_DIR"))
                      (codes "installation-id")))
              else ok (
                  file_auth
                    (env e (codes "FINDINGS_GITHUB_TOKEN_FILE") (codes "/secrets/github/token"))))
            ≡ given auth
          → AuthReady api auth
      by_dir true d k =
          subst (AuthReady api) (ok_unique (ok _) refl k)
            (no_entries (e.get_env (codes "FINDINGS_GITHUB_APP_DIR")) d)
      by_dir false d k =
          let dir = e.get_env (codes "FINDINGS_GITHUB_APP_DIR") in
          let (g, same, same_api, app, installation) =
            joined-ready api dir (read_trimmed e (e.path_join dir (codes "app-id")))
              (read_trimmed e (e.path_join dir (codes "installation-id"))) auth k in
          subst (AuthReady api) (sym same) (d, same_api, app, installation)

  github-ready : (g : Option GithubPlan) → github_plan e ≡ ok g → GithubReady g
  unfolding github_plan
  github-ready g h =
      by_repos (is_empty (split_list (e.get_env (codes "FINDINGS_GITHUB_REPOS")))) refl h
    where
      plan_with : Auth → GithubPlan
      plan_with auth = record {
        api = env e (codes "FINDINGS_GITHUB_API") (codes "https://api.github.com");
        repos = split_list (e.get_env (codes "FINDINGS_GITHUB_REPOS"));
        tools = split_list (env e (codes "FINDINGS_GITHUB_TOOLS") (codes "trivy,checkov"));
        auth = auth;
        interval = every e (codes "FINDINGS_GITHUB_EVERY") (15 * minute);
      }

      by_repos :
          (b : Bool)
          → is_empty (split_list (e.get_env (codes "FINDINGS_GITHUB_REPOS"))) ≡ b
          → (if not b
              then (github_auth e
                    (env e (codes "FINDINGS_GITHUB_API") (codes "https://api.github.com"))
                  >>= λ auth. ok (some (plan_with auth)))
              else ok none)
            ≡ found g
          → GithubReady g
      by_repos true d k =
          subst GithubReady (ok_unique (ok _) refl k)
            (no_entries (split_list (e.get_env (codes "FINDINGS_GITHUB_REPOS"))) d)
      by_repos false d k =
          let api = env e (codes "FINDINGS_GITHUB_API") (codes "https://api.github.com") in
          let (auth, chosen, same) =
            bind-ok (github_auth e api) (λ auth. ok (some (plan_with auth))) k in
          subst GithubReady (ok_unique (ok _) refl same) (
            refl,
            d,
            split_list-IsGiven (e.get_env (codes "FINDINGS_GITHUB_REPOS")),
            split_list-IsGiven (env e (codes "FINDINGS_GITHUB_TOOLS") (codes "trivy,checkov")),
            auth-ready api auth chosen,
            every-positive (codes "FINDINGS_GITHUB_EVERY") (15 * minute) (omega arith),
          )

  -- A start that does not fail runs exactly the pollers that the environment asks for, each with what
  -- it needs: an address, repositories or a bucket that is not empty, lists without empty entries, an
  -- interval above zero whatever the durations in the environment are, one region for the bucket and
  -- its credentials, and for a GitHub App both of its names as they stand in their files.
  pub start-Ready :
      (plan : Plan)
      → start e ≡ ok plan
      → AlertmanagerReady plan.alertmanager × GithubReady plan.github × ProwlerReady plan.prowler
  unfolding start
  start-Ready plan h =
      let (g, read, same) = bind-ok (github_plan e) (λ g. ok (plan_with g)) h in
      subst
        (λ (p : Plan).
          AlertmanagerReady p.alertmanager × GithubReady p.github × ProwlerReady p.prowler)
        (ok_unique (ok _) refl same) (alertmanager-ready, github-ready g read, prowler-ready)
    where
      plan_with : Option GithubPlan → Plan
      plan_with g = record {
        alertmanager = alertmanager_plan e;
        github = g;
        prowler = prowler_plan e;
        listen = env e (codes "FINDINGS_LISTEN") (codes ":8080");
      }
