-- ===== src/Exporter/Prowler/Objects.antt =====
-- `prowlerSource.get` of images/findings-exporter/prowler.go: a signed GET of the bucket.
use nineteenseventytwo_platf.Prelude.{
  ℕ, Bool, List, [], ◌++◌, Bytes, codes, Result, ok, err, ◌>>=◌, wrap, is_empty, eqb, if◌then◌else◌,
  take,
}
use nineteenseventytwo_platf.Text.Space.{trim_space}
use nineteenseventytwo_platf.Text.Url.{Url, Values, encode}
use nineteenseventytwo_platf.Exporter.Aws.Sign.{Credentials, Outgoing, Digests, sign_v4}
use nineteenseventytwo_platf.Exporter.Prowler.Ocsf.{OcsfStream}

-- the fields that do not change
pub record ProwlerSource : Type 0 where
  pub bucket : Bytes
  pub prefix : Bytes
  pub region : Bytes
  pub endpoint : Bytes

pub record S3Object : Type 0 where
  pub key : Bytes
  pub last_modified : ℕ

pub record ListResult : Type 0 where
  pub contents : List S3Object
  pub is_truncated : Bool
  pub next_continuation_token : Bytes

pub record S3Reply : Type 0 where
  pub status_code : ℕ
  pub status : Bytes
  pub body : Bytes

-- What a call meets: `url.Parse` of the endpoint (its scheme and host), the request that
-- `http.NewRequestWithContext` makes of a scheme and a URL, the network, the time, the digests, and
-- the XML and JSON decoders.
pub record S3World : Type 0 where
  pub parse_endpoint : Bytes → Result Bytes (Bytes × Bytes)
  pub new_request : Bytes → Url → Result Bytes Outgoing
  pub send : Outgoing → Result Bytes S3Reply
  pub now : ℕ
  pub digests : Digests
  pub list : Bytes → Result Bytes ListResult
  pub ocsf : Bytes → OcsfStream

unfoldable pub s3_url : ProwlerSource → Bytes → Values → Url
unfolding encode
s3_url p path q = record {
  host = p.bucket ++ (codes ".s3." ++ (p.region ++ codes ".amazonaws.com"));
  path = path;
  raw_path = [];
  raw_query = encode q;
}

-- the scheme, and the URL at the endpoint if one is set
unfoldable pub s3_target : S3World → ProwlerSource → Url → Result Bytes (Bytes × Url)
s3_target world p u =
    if is_empty p.endpoint
    then ok (codes "https", u)
    else (world.parse_endpoint p.endpoint >>= λ base. ok (base.0, record u { host = base.1 }))

unfoldable pub s3_body : Bytes → S3Reply → Result Bytes Bytes
unfolding trim_space
s3_body path r =
    if eqb r.status_code 200
    then ok r.body
    else err (
        codes "s3 "
        ++ (path ++ (codes ": " ++ (r.status ++ (codes ": " ++ trim_space (take 512 r.body))))))

unfoldable pub s3_get :
    (Bytes → Bytes) → S3World → ProwlerSource → Credentials → Bytes → Values → Result Bytes Bytes
unfolding s3_url s3_target s3_body sign_v4
s3_get unicode_lower world p c path q = s3_target world p (s3_url p path q) >>= λ target.
    world.new_request target.0 target.1 >>= λ r.
    wrap (λ e. codes "s3 " ++ (path ++ (codes ": " ++ e)))
      (world.send (sign_v4 unicode_lower world.digests c p.region (codes "s3") world.now r))
    >>= s3_body path
