-- ===== src/Exporter/GithubApp/Jwt.antt =====
-- The JWT that `appJWT` makes.
use nineteenseventytwo_platf.Prelude.{
  ℕ, ◌+◌, ◌-◌, ◌*◌, ◌/◌, ◌≤◌, ◌<◌, ◌≡◌, ap, sym, refl, ◌∙◌, [], ◌∷◌, ◌++◌, Bytes, codes, Result, ok,
  bind-ok, ok_unique, append_assoc, arith,
}
use nineteenseventytwo_platf.Text.Parts.{split, split-append, split_of_Lacks, join}
use nineteenseventytwo_platf.Text.Base64.{raw_url, raw_url-Lacks}
use nineteenseventytwo_platf.Exporter.Metrics.{unix}
use nineteenseventytwo_platf.Exporter.GithubApp.{AppWorld, jwt_header, one_minute, app_jwt}

abbrev done : Bytes → Result Bytes Bytes
done s = ok s

-- three encoded texts between dots are read back as such
split-three :
    (a b c : Bytes)
    → split b'.' (raw_url a ++ (codes "." ++ (raw_url b ++ (codes "." ++ raw_url c))))
      ≡ raw_url a ∷ raw_url b ∷ raw_url c ∷ []
split-three a b c =
    split-append b'.' (raw_url a) (raw_url b ++ (codes "." ++ raw_url c)) (raw_url-Lacks a)
    ∙ ap (λ l. raw_url a ∷ l)
        (split-append b'.' (raw_url b) (raw_url c) (raw_url-Lacks b)
          ∙ ap (λ l. raw_url b ∷ l) (split_of_Lacks b'.' (raw_url c) (raw_url-Lacks c)))

jwt_parts :
    (a b c jwt : Bytes)
    → ok ((raw_url a ++ (codes "." ++ raw_url b)) ++ (codes "." ++ raw_url c)) ≡ done jwt
    → split b'.' jwt ≡ raw_url a ∷ raw_url b ∷ raw_url c ∷ []
jwt_parts a b c jwt h =
    ap (split b'.') (
      sym (ok_unique (ok _) refl h)
      ∙ append_assoc (raw_url a) (codes "." ++ raw_url b) (codes "." ++ raw_url c))
    ∙ split-three a b c

-- nanoseconds of a second
abbrev pub second : ℕ
second = 1000000000

-- issued a minute ago, for ten minutes
abbrev pub IsTimely : ℕ → ℕ → ℕ → Type 0
IsTimely now issued expires =
    (issued + one_minute ≡ now)
    × (now < expires)
    × (expires < now + 10 * one_minute)
    × (expires / second ≡ issued / second + 600)

timely : (now : ℕ) → one_minute ≤ now → IsTimely now (now - one_minute) (now + 9 * one_minute)
timely now h = (omega arith, omega arith, omega arith, omega arith)

-- The JWT of a clock reading has three parts between dots: the header, the claims and the signature
-- of the two before it by the App's key. The claims name the App, an issue a minute ago and an expiry
-- exactly 600 seconds after it, which is still to come and less than ten minutes away.
pub app_jwt-IsTimely :
    {Key : Type 0} (world : AppWorld Key) (key : Key) (app_id : Bytes) (now : ℕ) (jwt : Bytes)
    → one_minute ≤ now
    → app_jwt world key app_id now ≡ ok jwt
    → (issued : ℕ) × (expires : ℕ) × (claims : Bytes) × (sig : Bytes) × IsTimely now issued expires
      × (world.marshal_claims (unix issued) (unix expires) app_id ≡ ok claims)
      × (world.sign_pkcs1 key
            (world.sha256 (join (codes ".") (raw_url jwt_header ∷ raw_url claims ∷ [])))
          ≡ ok sig)
      × (split b'.' jwt ≡ raw_url jwt_header ∷ raw_url claims ∷ raw_url sig ∷ [])
unfolding app_jwt join
app_jwt-IsTimely world key app_id now jwt late h =
    let (claims, marshalled, signed) =
      bind-ok (world.marshal_claims (unix (now - one_minute)) (unix (now + 9 * one_minute)) app_id)
        _ h in
    let (sig, made, same) =
      bind-ok
        (world.sign_pkcs1 key (world.sha256 (raw_url jwt_header ++ (codes "." ++ raw_url claims))))
        _ signed in
    (
      now - one_minute,
      now + 9 * one_minute,
      claims,
      sig,
      timely now late,
      marshalled,
      made,
      jwt_parts jwt_header claims sig jwt same,
    )
