-- ===== src/Dash/Client.antt =====
-- `apiClient.get` of images/dash/main.go: one authenticated GET of the Kubernetes API.
use nineteenseventytwo_platf.Prelude.{
  ℕ, Bytes, codes, List, [], ◌∷◌, ◌++◌, Result, ok, err, eqb, if◌then◌else◌,
}
use nineteenseventytwo_platf.Text.Space.{trim_space}
use nineteenseventytwo_platf.Text.Percent.{query_escape}
use nineteenseventytwo_platf.Dash.Types.{Workload, Pod}

pub record ApiRequest : Type 0 where
  pub url : Bytes
  pub authorization : Bytes
  pub accept : Bytes

pub record ApiReply : Type 0 where
  pub status_code : ℕ
  pub status : Bytes
  pub body : Bytes

-- What the client calls and does not implement: the file of the token and the network, which answer
-- each call by themselves (the number is the place of the call in time), the checks of
-- `http.NewRequestWithContext`, and the JSON decoder.
pub record Api : Type 0 where
  pub base : Bytes
  pub read_token : ℕ → Result Bytes Bytes
  pub new_request : Bytes → Result Bytes (Unit {0})
  pub send : ℕ → ApiRequest → Result Bytes ApiReply
  pub decode_workloads : Bytes → Result Bytes (List Workload)
  pub decode_pods : Bytes → Result Bytes (List Pod)

-- what a part of the program sent, and its result
pub record Read {ℓ} (A : Type ℓ) : Type ℓ where
  pub sent : List ApiRequest
  pub result : Result Bytes A

-- `u`, for a query of one key with one value
unfoldable pub get_url : Bytes → Bytes → Bytes → Bytes → Bytes
unfolding query_escape
get_url base path key value =
    base ++ (path ++ (codes "?" ++ (query_escape key ++ (codes "=" ++ query_escape value))))

unfoldable pub api_request : Bytes → Bytes → ApiRequest
unfolding trim_space
api_request token url = record {
  url = url;
  authorization = codes "Bearer " ++ trim_space token;
  accept = codes "application/json";
}

-- the reply is used only with the status 200
unfoldable pub read_reply {ℓ} :
    {A : Type ℓ} → (Bytes → Result Bytes A) → Bytes → Result Bytes ApiReply → Result Bytes A
read_reply decode path (err e) = err e
read_reply decode path (ok r) =
    if eqb r.status_code 200
    then decode r.body
    else err (codes "GET " ++ (path ++ (codes ": " ++ r.status)))

unfoldable pub send_get {ℓ} :
    {A : Type ℓ}
    → Api
    → (Bytes → Result Bytes A)
    → ℕ
    → Bytes
    → ApiRequest
    → Result Bytes (Unit {0})
    → Read A
unfolding read_reply
send_get api decode moment path r (err e) = record { sent = []; result = err e }
send_get api decode moment path r (ok u) = record {
  sent = r ∷ [];
  result = read_reply decode path (api.send moment r);
}

unfoldable pub get_with {ℓ} :
    {A : Type ℓ} → Api → (Bytes → Result Bytes A) → ℕ → Bytes → Bytes → Result Bytes Bytes → Read A
unfolding send_get api_request
get_with api decode moment path url (err e) = record { sent = []; result = err e }
get_with api decode moment path url (ok token) =
    send_get api decode moment path (api_request token url) (api.new_request url)

-- the token is read anew for every call
unfoldable pub get {ℓ} :
    {A : Type ℓ} → Api → (Bytes → Result Bytes A) → ℕ → Bytes → Bytes → Bytes → Read A
unfolding get_with get_url
get api decode moment path key value =
    get_with api decode moment path (get_url api.base path key value) (api.read_token moment)
