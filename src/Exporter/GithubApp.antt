-- ===== src/Exporter/GithubApp.antt =====
-- `fileToken` and `githubApp` of images/findings-exporter/githubapp.go: the bearer token for GitHub.
pub mod Jwt
pub mod Tokens
use nineteenseventytwo_platf.Prelude.{
  ℕ, ◌+◌, ◌-◌, ◌*◌, Bool, not, ◌&&◌, List, [], ◌∷◌, ◌++◌, Bytes, codes, Assoc, Option, none, some,
  Result, ok, err, ◌>>=◌, wrap, is_empty, eqb, ltb, if◌then◌else◌, take,
}
use nineteenseventytwo_platf.Text.Space.{trim_space}
use nineteenseventytwo_platf.Text.Affix.{trim_right}
use nineteenseventytwo_platf.Text.Base64.{raw_url}
use nineteenseventytwo_platf.Exporter.Metrics.{unix}

-- `fileToken.token`: the file is read on every call
unfoldable pub file_token : (Bytes → Result Bytes Bytes) → Bytes → Result Bytes Bytes
unfolding trim_space
file_token read_file path =
    wrap (λ e. codes "github token: " ++ e) (read_file path) >>= λ b. ok (trim_space b)

-- the fields that do not change
pub record GithubApp : Type 0 where
  pub api : Bytes
  pub app_id : Bytes
  pub installation_id : Bytes
  pub key_file : Bytes

-- `cached` and `expires`
pub record KeptToken : Type 0 where
  pub token : Bytes
  pub expires : ℕ

abbrev pub no_token : KeptToken
no_token = record { token = []; expires = 0 }

pub record TokenRequest : Type 0 where
  pub url : Bytes
  pub body : Bytes
  pub headers : Assoc Bytes Bytes

pub record TokenReply : Type 0 where
  pub status_code : ℕ
  pub status : Bytes
  pub body : Bytes

-- What a call meets: `os.ReadFile`, `pem.Decode` (the bytes of the block), the two parsers of
-- `crypto/x509` (nothing for a key that is not RSA), `json.Marshal` of the claims by their issue and
-- expiry in seconds and the issuer, `sha256.Sum256`, `rsa.SignPKCS1v15`, the checks of
-- `http.NewRequestWithContext`, the network, and the JSON decoder.
pub record AppWorld (Key : Type 0) : Type 0 where
  pub read_file : Bytes → Result Bytes Bytes
  pub pem_decode : Bytes → Option Bytes
  pub parse_pkcs1 : Bytes → Result Bytes Key
  pub parse_pkcs8 : Bytes → Result Bytes (Option Key)
  pub marshal_claims : Bytes → Bytes → Bytes → Result Bytes Bytes
  pub sha256 : Bytes → Bytes
  pub sign_pkcs1 : Key → Bytes → Result Bytes Bytes
  pub new_request : Bytes → Result Bytes (Unit {0})
  pub send : TokenRequest → Result Bytes TokenReply
  pub decode : Bytes → Result Bytes KeptToken

-- what a call returns, what it keeps, and the requests that it sent
pub record Issued : Type 0 where
  pub returned : Result Bytes Bytes
  pub kept : KeptToken
  pub sent : List TokenRequest

-- Instants are nanoseconds since the zero `time.Time`; a clock reads no instant of its first minute.
abbrev pub one_minute : ℕ
one_minute = 60000000000

unfoldable pub serves : ℕ → KeptToken → Bool
serves now k = not (is_empty k.token) && ltb (now + 5 * one_minute) k.expires

abbrev pub jwt_header : Bytes
jwt_header = codes "{\"alg\":\"RS256\",\"typ\":\"JWT\"}"

unfoldable pub token_url : GithubApp → Bytes
unfolding trim_right
token_url g =
    trim_right (codes "/") g.api
    ++ (codes "/app/installations/" ++ (g.installation_id ++ codes "/access_tokens"))

unfoldable pub token_request : GithubApp → Bytes → TokenRequest
unfolding token_url
token_request g jwt = record {
  url = token_url g;
  body = codes "{\"permissions\":{\"security_events\":\"read\"}}";
  headers =
      (codes "Authorization", codes "Bearer " ++ jwt)
      ∷ (codes "Accept", codes "application/vnd.github+json")
      ∷ (codes "X-GitHub-Api-Version", codes "2022-11-28")
      ∷ [];
}

module _ {Key : Type 0} (world : AppWorld Key) where
  abbrev pub rsa_key : Option Key → Result Bytes Key
  rsa_key none = err (codes "github app key: not an RSA key")
  rsa_key (some k) = ok k

  abbrev pub pkcs8_key : Bytes → Result Bytes Key
  pkcs8_key block = wrap (λ e. codes "github app key: " ++ e) (world.parse_pkcs8 block) >>= rsa_key

  abbrev pub block_key : Bytes → Option Bytes → Result Bytes Key
  block_key path none = err (codes "github app key: no PEM block in " ++ path)
  block_key path (some block) = elim (world.parse_pkcs1 block) [
    | err e ↦ pkcs8_key block
    | ok k ↦ ok k
  ]

  unfoldable pub load_rsa_key : Bytes → Result Bytes Key
  load_rsa_key path = wrap (λ e. codes "github app key: " ++ e) (world.read_file path) >>= λ b.
      block_key path (world.pem_decode b)

  unfoldable pub app_jwt : Key → Bytes → ℕ → Result Bytes Bytes
  unfolding raw_url unix
  app_jwt key app_id now =
      world.marshal_claims (unix (now - one_minute)) (unix (now + 9 * one_minute)) app_id
      >>= λ claims.
          let signing = raw_url jwt_header ++ (codes "." ++ raw_url claims) in
          world.sign_pkcs1 key (world.sha256 signing) >>= λ sig.
          ok (signing ++ (codes "." ++ raw_url sig))

  -- what comes before the request is sent
  unfoldable pub prepare_token : GithubApp → ℕ → Result Bytes TokenRequest
  unfolding load_rsa_key app_jwt token_request
  prepare_token g now = load_rsa_key g.key_file >>= λ key. app_jwt key g.app_id now >>= λ jwt.
      world.new_request (token_url g) >>= λ checked. ok (token_request g jwt)

  unfoldable pub token_reply : TokenReply → Result Bytes KeptToken
  unfolding trim_space
  token_reply r =
      if not (eqb r.status_code 201)
      then err
          (codes "github app token: " ++ (r.status ++ (codes ": " ++ trim_space (take 512 r.body))))
      else wrap (λ e. codes "github app token: " ++ e) (world.decode r.body)

  unfoldable pub ask_token : TokenRequest → Result Bytes KeptToken
  unfolding token_reply
  ask_token q = wrap (λ e. codes "github app token: " ++ e) (world.send q) >>= token_reply

  abbrev pub answered : KeptToken → TokenRequest → Result Bytes KeptToken → Issued
  answered old q (err e) = record { returned = err e; kept = old; sent = q ∷ [] }
  answered old q (ok k) = record { returned = ok k.token; kept = k; sent = q ∷ [] }

  abbrev pub asked : KeptToken → Result Bytes TokenRequest → Issued
  asked old (err e) = record { returned = err e; kept = old; sent = [] }
  asked old (ok q) = answered old q (ask_token q)

  -- The whole method holds the mutex, so it is one step.
  unfoldable pub app_token : GithubApp → ℕ → KeptToken → Issued
  unfolding serves
  app_token g now old =
      if serves now old
      then record { returned = ok old.token; kept = old; sent = [] }
      else asked old (prepare_token g now)
