-- ===== src/Exporter/Start.antt =====
-- `main` of images/findings-exporter/main.go up to the listener: what is configured, and the handlers.
pub mod Ready
use nineteenseventytwo_platf.Prelude.{
  ℕ, ◌*◌, Bool, false, not, List, [], ◌∷◌, ◌++◌, Bytes, codes, Option, none, some, Result, ok, err,
  ◌>>=◌, is_empty, ltb, if◌then◌else◌,
}
use nineteenseventytwo_platf.Text.Space.{trim_space}
use nineteenseventytwo_platf.Text.Parts.{split}
use nineteenseventytwo_platf.Exporter.Store.{Store}
use nineteenseventytwo_platf.Exporter.Metrics.{write}
use nineteenseventytwo_platf.Exporter.GithubApp.{GithubApp}
use nineteenseventytwo_platf.Exporter.Prowler.Objects.{ProwlerSource}
use nineteenseventytwo_platf.Exporter.Aws.WebIdentity.{WebIdentity}

-- a `time.Duration` in nanoseconds
pub data Duration : Type 0 where
  forward : ℕ → Duration
  backward : ℕ → Duration

-- `os.Getenv`, `time.ParseDuration`, `os.ReadFile` and `filepath.Join`
pub record Environment : Type 0 where
  pub get_env : Bytes → Bytes
  pub parse_duration : Bytes → Result Bytes Duration
  pub read_file : Bytes → Result Bytes Bytes
  pub path_join : Bytes → Bytes → Bytes

abbrev pub minute : ℕ
minute = 60000000000

-- the loop of `splitList`
unfoldable pub nonempty_parts : List Bytes → List Bytes
unfolding trim_space
nonempty_parts [] = []
nonempty_parts (part ∷ parts) =
    let rest = nonempty_parts parts in
    let p = trim_space part in if not (is_empty p) then p ∷ rest else rest

unfoldable pub split_list : Bytes → List Bytes
unfolding split nonempty_parts
split_list s = nonempty_parts (split b',' s)

abbrev pub positive_or : ℕ → Result Bytes Duration → ℕ
positive_or fallback (err e) = fallback
positive_or fallback (ok (backward d)) = fallback
positive_or fallback (ok (forward d)) = if ltb 0 d then d else fallback

pub record AlertmanagerPlan : Type 0 where
  pub base : Bytes
  pub sources : List Bytes
  pub interval : ℕ

pub data Auth : Type 0 where
  file_auth : Bytes → Auth
  app_auth : GithubApp → Auth

pub record GithubPlan : Type 0 where
  pub api : Bytes
  pub repos : List Bytes
  pub tools : List Bytes
  pub auth : Auth
  pub interval : ℕ

pub record ProwlerPlan : Type 0 where
  pub source : ProwlerSource
  pub creds : WebIdentity
  pub interval : ℕ

-- the pollers that are started, and the address
pub record Plan : Type 0 where
  pub alertmanager : Option AlertmanagerPlan
  pub github : Option GithubPlan
  pub prowler : Option ProwlerPlan
  pub listen : Bytes

module _ (e : Environment) where
  unfoldable pub env : Bytes → Bytes → Bytes
  env key fallback = let v = e.get_env key in if not (is_empty v) then v else fallback

  unfoldable pub every : Bytes → ℕ → ℕ
  every key fallback = positive_or fallback (e.parse_duration (e.get_env key))

  unfoldable pub read_trimmed : Bytes → Result Bytes Bytes
  unfolding trim_space
  read_trimmed path = e.read_file path >>= λ b. ok (trim_space b)

  unfoldable pub alertmanager_plan : Option AlertmanagerPlan
  unfolding split_list env every
  alertmanager_plan =
      let am = e.get_env (codes "FINDINGS_ALERTMANAGER") in
      if not (is_empty am)
      then some (record {
        base = am;
        sources =
            split_list (env (codes "FINDINGS_ALERTMANAGER_SOURCES") (codes "falco,kubescape"));
        interval = every (codes "FINDINGS_ALERTMANAGER_EVERY") minute;
      })
      else none

  -- `errors.Join`: the texts of those that are not nil, in lines
  abbrev pub joined_ids :
      Bytes → Bytes → Result Bytes Bytes → Result Bytes Bytes → Result Bytes Auth
  joined_ids api dir (err a) (err b) = err (a ++ (codes "\n" ++ b))
  joined_ids api dir (err a) (ok b) = err a
  joined_ids api dir (ok a) (err b) = err b
  joined_ids api dir (ok a) (ok b) = ok (
      app_auth (record {
        api = api;
        app_id = a;
        installation_id = b;
        key_file = e.path_join dir (codes "private-key");
      }))

  unfoldable pub github_auth : Bytes → Result Bytes Auth
  unfolding env read_trimmed
  github_auth api =
      let dir = e.get_env (codes "FINDINGS_GITHUB_APP_DIR") in
      if not (is_empty dir)
      then joined_ids api dir (read_trimmed (e.path_join dir (codes "app-id")))
          (read_trimmed (e.path_join dir (codes "installation-id")))
      else ok (file_auth (env (codes "FINDINGS_GITHUB_TOKEN_FILE") (codes "/secrets/github/token")))

  unfoldable pub github_plan : Result Bytes (Option GithubPlan)
  unfolding split_list env every github_auth
  github_plan =
      let repos = split_list (e.get_env (codes "FINDINGS_GITHUB_REPOS")) in
      let api = env (codes "FINDINGS_GITHUB_API") (codes "https://api.github.com") in
      if not (is_empty repos)
      then (github_auth api >>= λ auth. ok (
          some (record {
            api = api;
            repos = repos;
            tools = split_list (env (codes "FINDINGS_GITHUB_TOOLS") (codes "trivy,checkov"));
            auth = auth;
            interval = every (codes "FINDINGS_GITHUB_EVERY") (15 * minute);
          })))
      else ok none

  unfoldable pub prowler_plan : Option ProwlerPlan
  unfolding env every
  prowler_plan =
      let bucket = e.get_env (codes "FINDINGS_PROWLER_BUCKET") in
      let region = env (codes "AWS_REGION") (codes "eu-west-2") in
      if not (is_empty bucket)
      then some (record {
        source = record {
          bucket = bucket;
          prefix = env (codes "FINDINGS_PROWLER_PREFIX") (codes "findings/");
          region = region;
          endpoint = [];
        };
        creds = record {
          region = region;
          role_arn = e.get_env (codes "AWS_ROLE_ARN");
          token_file = e.get_env (codes "AWS_WEB_IDENTITY_TOKEN_FILE");
          session = codes "findings-exporter";
        };
        interval = every (codes "FINDINGS_PROWLER_EVERY") (60 * minute);
      })
      else none

  -- An error ends the process with status 1.
  unfoldable pub start : Result Bytes Plan
  unfolding alertmanager_plan github_plan prowler_plan env
  start = github_plan >>= λ github. ok (record {
    alertmanager = alertmanager_plan;
    github = github;
    prowler = prowler_plan;
    listen = env (codes "FINDINGS_LISTEN") (codes ":8080");
  })

-- the content type that is set, if one is, and the body
pub record Served : Type 0 where
  pub content_type : Option Bytes
  pub body : Bytes

-- every line with its end, as `Fprintln` and `Fprintf` write it
unfoldable pub lines_text : List Bytes → Bytes
lines_text [] = []
lines_text (line ∷ lines) = line ++ (codes "\n" ++ lines_text lines)

unfoldable pub metrics_handler : Store → Served
unfolding write lines_text
metrics_handler s = record {
  content_type = some (codes "text/plain; version=0.0.4");
  body = lines_text (write s);
}

unfoldable pub healthz_handler : Served
healthz_handler = record { content_type = none; body = codes "ok\n" }
