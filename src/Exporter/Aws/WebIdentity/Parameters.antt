-- ===== src/Exporter/Aws/WebIdentity/Parameters.antt =====
-- What STS reads in the body that `webIdentity.get` posts.
use nineteenseventytwo_platf.Prelude.{
  ◌≡◌, refl, Bool, true, false, ◌&&◌, ltb, arith, [], ◌∷◌, Bytes, codes, All, SameMap, nat_eq,
  list_eq,
}
use nineteenseventytwo_platf.Text.Space.{trim_space}
use nineteenseventytwo_platf.Text.Url.{parse_query}
use nineteenseventytwo_platf.Text.Url.Pairs.{IsText}
use nineteenseventytwo_platf.Text.Url.RoundTrip.{IsQuery, parse_query-encode}
use nineteenseventytwo_platf.Exporter.Aws.WebIdentity.{WebIdentity, sts_form, sts_post}

abbrev pub is_text : Bytes → Bool
is_text [] = true
is_text (c ∷ s) = ltb c 256 && is_text s

pub text : (s : Bytes) → is_text s ≡ true → IsText s
text [] h = tt
text (c ∷ s) h = (ground arith, text s (ground arith))

pub entry-IsQuery :
    (k v : Bytes) → is_text k ≡ true → IsText v → IsText k × All IsText (v ∷ []) × (false ≡ false)
entry-IsQuery k v h t = (text k h, (t, tt), refl)

sts_form-IsQuery :
    (w : WebIdentity) (token : Bytes)
    → IsText w.role_arn
    → IsText w.session
    → IsText (trim_space token)
    → IsQuery (sts_form w token)
unfolding sts_form
sts_form-IsQuery w token a b t = (
  entry-IsQuery (codes "Action") (codes "AssumeRoleWithWebIdentity") refl
      (text (codes "AssumeRoleWithWebIdentity") refl),
  (
    entry-IsQuery (codes "Version") (codes "2011-06-15") refl (text (codes "2011-06-15") refl),
    (
      entry-IsQuery (codes "RoleArn") w.role_arn refl a,
      (
        entry-IsQuery (codes "RoleSessionName") w.session refl b,
        (
          entry-IsQuery (codes "WebIdentityToken") (trim_space token) refl t,
          (
            entry-IsQuery (codes "DurationSeconds") (codes "3600") refl (text (codes "3600") refl),
            tt,
          ),
        ),
      ),
    ),
  ),
)

-- The posted body is read back as the six parameters, with the trimmed token: whatever bytes the
-- role, the session and the token have.
pub sts_post-parameters :
    (w : WebIdentity) (token : Bytes)
    → IsText w.role_arn
    → IsText w.session
    → IsText (trim_space token)
    → SameMap (parse_query (sts_post w token).body) (sts_form w token)
unfolding sts_post sts_form
sts_post-parameters w token a b t =
    (parse_query-encode (sts_form w token) (sts_form-IsQuery w token a b t)
      (refl, (refl, (refl, (refl, (refl, (refl, tt))))))).0
