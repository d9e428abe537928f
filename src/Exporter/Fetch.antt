-- ===== src/Exporter/Fetch.antt =====
-- `getJSONLink` and `getJSON` of images/findings-exporter/sources.go.
use nineteenseventytwo_platf.Prelude.{
  ℕ, Bytes, codes, ◌++◌, Assoc, Result, ok, err, ◌>>=◌, eqb, if◌then◌else◌, take,
}
use nineteenseventytwo_platf.Text.Space.{trim_space}

pub record JsonRequest : Type 0 where
  pub url : Bytes
  pub headers : Assoc Bytes Bytes

-- `link` is the header of that name, `body` what can be read of the body
pub record JsonReply : Type 0 where
  pub status_code : ℕ
  pub status : Bytes
  pub link : Bytes
  pub body : Bytes

-- the checks of `http.NewRequestWithContext`, and the network
pub record Web : Type 0 where
  pub new_request : Bytes → Result Bytes (Unit {0})
  pub send : JsonRequest → Result Bytes JsonReply

module _ {ℓ} {A : Type ℓ} (web : Web) (decode : Bytes → Result Bytes A) where
  unfoldable pub read_json : JsonReply → Result Bytes (Bytes × A)
  unfolding trim_space
  read_json r =
      if eqb r.status_code 200
      then (decode r.body >>= λ v. ok (r.link, v))
      else err (r.status ++ (codes ": " ++ trim_space (take 512 r.body)))

  unfoldable pub get_json_link : Bytes → Assoc Bytes Bytes → Result Bytes (Bytes × A)
  unfolding read_json
  get_json_link u headers = web.new_request u >>= λ checked.
      web.send (record { url = u; headers = headers }) >>= read_json

  unfoldable pub get_json : Bytes → Assoc Bytes Bytes → Result Bytes A
  unfolding get_json_link
  get_json u headers = get_json_link u headers >>= λ page. ok page.1
