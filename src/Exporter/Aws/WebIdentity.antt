-- ===== src/Exporter/Aws/WebIdentity.antt =====
-- `webIdentity` of images/findings-exporter/sigv4.go: temporary credentials from STS, kept until
-- shortly before they expire.
pub mod Calls
pub mod Exchanges
pub mod Parameters
use nineteenseventytwo_platf.Prelude.{
  ℕ, ◌+◌, ◌*◌, Bool, not, ◌&&◌, ◌||◌, List, [], ◌∷◌, ◌++◌, Bytes, codes, Result, ok, err, ◌>>=◌,
  wrap, is_empty, eqb, ltb, if◌then◌else◌, take,
}
use nineteenseventytwo_platf.Text.Space.{trim_space}
use nineteenseventytwo_platf.Text.Url.{Values, encode}
use nineteenseventytwo_platf.Exporter.Aws.Sign.{Credentials}

-- the fields that do not change
pub record WebIdentity : Type 0 where
  pub region : Bytes
  pub role_arn : Bytes
  pub token_file : Bytes
  pub session : Bytes

-- `credentials{}`
abbrev pub no_credentials : Credentials
no_credentials = record {
  access_key_id = [];
  secret_access_key = [];
  session_token = [];
  expiration = 0;
}

-- a POST with its `Content-Type`
pub record FormPost : Type 0 where
  pub url : Bytes
  pub content_type : Bytes
  pub body : Bytes

pub record StsReply : Type 0 where
  pub status_code : ℕ
  pub status : Bytes
  pub body : Bytes

-- What a call meets: `os.ReadFile`, the checks of `http.NewRequestWithContext`, the network, and
-- `xml.Unmarshal` into the struct.
pub record StsWorld : Type 0 where
  pub read_file : Bytes → Result Bytes Bytes
  pub new_request : Bytes → Result Bytes (Unit {0})
  pub send : FormPost → Result Bytes StsReply
  pub unmarshal : Bytes → Result Bytes Credentials

-- what a call returns, what it leaves in `cached`, and the requests that it sent
pub record Fetched : Type 0 where
  pub returned : Result Bytes Credentials
  pub cached : Credentials
  pub sent : List FormPost

-- five minutes in nanoseconds
abbrev pub five_minutes : ℕ
five_minutes = 300000000000

unfoldable pub usable : ℕ → Credentials → Bool
usable now c = not (is_empty c.access_key_id) && ltb (now + five_minutes) c.expiration

unfoldable pub sts_form : WebIdentity → Bytes → Values
unfolding trim_space
sts_form w token =
    (codes "Action", codes "AssumeRoleWithWebIdentity" ∷ [])
    ∷ (codes "Version", codes "2011-06-15" ∷ [])
    ∷ (codes "RoleArn", w.role_arn ∷ [])
    ∷ (codes "RoleSessionName", w.session ∷ [])
    ∷ (codes "WebIdentityToken", trim_space token ∷ [])
    ∷ (codes "DurationSeconds", codes "3600" ∷ [])
    ∷ []

unfoldable pub sts_post : WebIdentity → Bytes → FormPost
unfolding encode sts_form
sts_post w token = record {
  url = codes "https://sts." ++ (w.region ++ codes ".amazonaws.com/");
  content_type = codes "application/x-www-form-urlencoded";
  body = encode (sts_form w token);
}

-- what comes before the request is sent
unfoldable pub sts_request : StsWorld → WebIdentity → Result Bytes FormPost
sts_request world w =
    if is_empty w.role_arn || is_empty w.token_file
    then err (
        codes
          "AWS_ROLE_ARN and AWS_WEB_IDENTITY_TOKEN_FILE must be set (is the ServiceAccount annotated?)")
    else (wrap (λ e. codes "web identity token: " ++ e) (world.read_file w.token_file) >>= λ token.
        world.new_request ((sts_post w token).url) >>= λ checked. ok (sts_post w token))

abbrev pub with_key : Credentials → Result Bytes Credentials
with_key c =
    if is_empty c.access_key_id then err (codes "sts response had no credentials") else ok c

-- what comes after it
unfoldable pub sts_reply : StsWorld → StsReply → Result Bytes Credentials
unfolding trim_space
sts_reply world r =
    let body = take 65536 r.body in
    if not (eqb r.status_code 200)
    then err (codes "sts: " ++ (r.status ++ (codes ": " ++ trim_space body)))
    else (wrap (λ e. codes "sts response: " ++ e) (world.unmarshal body) >>= with_key)

unfoldable pub exchange : StsWorld → FormPost → Result Bytes Credentials
exchange world post = wrap (λ e. codes "sts: " ++ e) (world.send post) >>= sts_reply world

-- `w.cached = credentials(c)`, unless there was an error
abbrev pub stored : Credentials → Result Bytes Credentials → Credentials
stored old (err e) = old
stored old (ok c) = c

abbrev pub exchanged : Credentials → Result Bytes Credentials → FormPost → Fetched
exchanged old r post = record { returned = r; cached = stored old r; sent = post ∷ [] }

abbrev pub requested : StsWorld → Credentials → Result Bytes FormPost → Fetched
requested world old (err e) = record { returned = err e; cached = old; sent = [] }
requested world old (ok post) = exchanged old (exchange world post) post

-- The whole method holds the mutex, so it is one step.
unfoldable pub get : StsWorld → WebIdentity → ℕ → Credentials → Fetched
unfolding usable
get world w now cached =
    if usable now cached
    then record { returned = ok cached; cached = cached; sent = [] }
    else requested world cached (sts_request world w)
