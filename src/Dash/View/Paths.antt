-- ===== src/Dash/View/Paths.antt =====
-- The paths of the API that a view reads.
use nineteenseventytwo_platf.Prelude.{
  ◌<◌, ◌≡◌, refl, ap, ◌∙◌, Bytes, codes, [], ◌∷◌, ◌++◌, All, All-map, arith, nat_eq,
}
use nineteenseventytwo_platf.Text.Parts.{split, Lacks, split-append, split_of_Lacks}
use nineteenseventytwo_platf.Text.Percent.{path_escape}
use nineteenseventytwo_platf.Text.Percent.Decode.{
  unescape, unescape-path_escape, path_escape-Inside,
}
use nineteenseventytwo_platf.Dash.View.{apps_path, core_path}

path_escape-Lacks : (ns : Bytes) → Lacks b'/' (path_escape ns)
path_escape-Lacks ns = All-map (λ c h. ground arith) (path_escape ns) (path_escape-Inside ns)

-- For every namespace, given as bytes, and every kind without a slash: both paths have, between
-- their slashes, just the segments written in the code, the escaped namespace as one of them, and
-- the kind; a slash or a question mark in the namespace adds no segment. An independent
-- decoder of the escapes reads the namespace back.
pub split-apps_path :
    (ns kind : Bytes)
    → All (λ c. c < 256) ns
    → Lacks b'/' kind
    → (split b'/' (apps_path ns (codes "/" ++ kind))
        ≡ []
          ∷ codes "apis"
          ∷ codes "apps"
          ∷ codes "v1"
          ∷ codes "namespaces"
          ∷ path_escape ns
          ∷ kind
          ∷ [])
      × (split b'/' (core_path ns (codes "/" ++ kind))
          ≡ [] ∷ codes "api" ∷ codes "v1" ∷ codes "namespaces" ∷ path_escape ns ∷ kind ∷ [])
      × (unescape (path_escape ns) ≡ ns)
unfolding split
split-apps_path ns kind bytes lacks =
    let tail =
      split-append b'/' (path_escape ns) kind (path_escape-Lacks ns)
      ∙ ap (λ r. path_escape ns ∷ r) (split_of_Lacks b'/' kind lacks) in
    (rw tail refl, rw tail refl, unescape-path_escape ns bytes)
