-- ===== src/Examples/StartTheorems.antt =====
-- The theorems on the GitHub tokens and on the start of images/findings-exporter at concrete inputs.
use nineteenseventytwo_platf.Prelude.{
  ℕ, ◌*◌, ◌≡◌, refl, List, [], ◌∷◌, ◌++◌, Bytes, codes, none, some, ok, err, arith, ◌==◌, nat_eq,
  list_eq, if◌then◌else◌,
}
use nineteenseventytwo_platf.Text.Parts.{split, join}
use nineteenseventytwo_platf.Text.Base64.{raw_url}
use nineteenseventytwo_platf.Exporter.Metrics.{unix}
use nineteenseventytwo_platf.Exporter.GithubApp.{
  AppWorld, GithubApp, no_token, jwt_header, app_jwt, file_token,
}
use nineteenseventytwo_platf.Exporter.GithubApp.Jwt.{IsTimely, app_jwt-IsTimely}
use nineteenseventytwo_platf.Exporter.GithubApp.Tokens.{token_all, AllIssued, token_all-AllIssued}
use nineteenseventytwo_platf.Exporter.Start.{Environment, Plan, forward, start, minute, file_auth}
use nineteenseventytwo_platf.Exporter.Start.Ready.{
  AlertmanagerReady, GithubReady, ProwlerReady, start-Ready,
}

header_run : raw_url jwt_header ≡ codes "eyJhbGciOiJSUzI1NiIsInR5cCI6IkpXVCJ9"
unfolding raw_url
header_run = refl

abbrev app : GithubApp
app = record {
  api = codes "https://api.github.com/";
  app_id = codes "42";
  installation_id = codes "7";
  key_file = codes "/key";
}

-- a key is its text
abbrev pub app_world : AppWorld Bytes
app_world = record {
  read_file = λ path. ok (codes "pem");
  pem_decode = λ b. some b;
  parse_pkcs1 = λ b. ok b;
  parse_pkcs8 = λ b. err (codes "not PKCS#8");
  marshal_claims = λ iat exp iss. ok (iat ++ (codes "," ++ (exp ++ (codes "," ++ iss))));
  sha256 = λ s. s;
  sign_pkcs1 = λ key sum. ok (codes "sig");
  new_request = λ u. ok tt;
  send = λ q. ok (record { status_code = 201; status = codes "201 Created"; body = [] });
  decode = λ b. ok (record { token = codes "ghs_x"; expires = 63504954000000000000 });
}

-- 2013-05-24T00:00:00Z
abbrev app_time : ℕ
app_time = 63504950400000000000

abbrev claims : Bytes
claims = codes "1369353540,1369354140,42"

abbrev jwt : Bytes
jwt = raw_url jwt_header ++ (codes "." ++ raw_url claims) ++ (codes "." ++ raw_url (codes "sig"))

app_jwt-IsTimely_example :
    (issued : ℕ) × (expires : ℕ) × (claims : Bytes) × (sig : Bytes) × IsTimely app_time issued
      expires
    × (app_world.marshal_claims (unix issued) (unix expires) (codes "42") ≡ ok claims)
    × (app_world.sign_pkcs1
          (codes "pem")
          (app_world.sha256 (join (codes ".") (raw_url jwt_header ∷ raw_url claims ∷ [])))
        ≡ ok sig)
    × (split b'.' jwt ≡ raw_url jwt_header ∷ raw_url claims ∷ raw_url sig ∷ [])
unfolding app_jwt unix
app_jwt-IsTimely_example =
    app_jwt-IsTimely app_world (codes "pem") (codes "42") app_time jwt (omega arith) refl

abbrev broken_world : AppWorld Bytes
broken_world = record app_world { read_file = λ path. err (codes "no such file") }

abbrev token_calls : List (AppWorld Bytes × ℕ)
token_calls = (broken_world, app_time) ∷ (app_world, app_time) ∷ (broken_world, app_time) ∷ []

token_all-AllIssued_example :
    AllIssued app token_calls no_token (token_all app token_calls no_token)
token_all-AllIssued_example = token_all-AllIssued app token_calls no_token

-- a file's token, trimmed
file_run : file_token (λ path. ok (codes " t\n")) (codes "/t") ≡ ok (codes "t")
unfolding file_token
file_run = refl

abbrev given : Bytes → Bytes
given key =
    if key == codes "FINDINGS_GITHUB_REPOS"
    then codes "o/a, o/b,,"
    else if key == codes "FINDINGS_GITHUB_EVERY"
    then codes "30m"
    else []

abbrev environment : Environment
environment = record {
  get_env = given;
  parse_duration =
      λ s. if s == codes "30m" then ok (forward (30 * minute)) else err (codes "no duration");
  read_file = λ path. err (codes "no such file");
  path_join = λ a b. a ++ (codes "/" ++ b);
}

abbrev plan : Plan
plan = record {
  alertmanager = none;
  github = some (record {
    api = codes "https://api.github.com";
    repos = codes "o/a" ∷ codes "o/b" ∷ [];
    tools = codes "trivy" ∷ codes "checkov" ∷ [];
    auth = file_auth (codes "/secrets/github/token");
    interval = 30 * minute;
  });
  prowler = none;
  listen = codes ":8080";
}

start-Ready_example :
    AlertmanagerReady environment plan.alertmanager
    × GithubReady environment plan.github
    × ProwlerReady environment plan.prowler
unfolding start
start-Ready_example = start-Ready environment plan refl
