-- ===== src/Exporter/Aws/Canonical/Paths.antt =====
-- The canonical path: each segment decoded once and escaped once.
use nineteenseventytwo_platf.Prelude.{
  ℕ, ◌<◌, ◌≡◌, refl, ap, ◌∙◌, sym, false, List, [], ◌∷◌, ◌++◌, map, append_assoc, Bytes, codes, eqb,
  if◌then◌else◌, some, All, All-map, arith, nat_eq, list_eq,
}
use nineteenseventytwo_platf.Text.Parts.{join, Lacks, split-join}
use nineteenseventytwo_platf.Text.Percent.{hex_digit, percent}
use nineteenseventytwo_platf.Text.Url.{
  Url, escape_with, escape_path, whole_path_keeps, path_unescape, raw_path_serves, escaped_path,
}
use nineteenseventytwo_platf.Text.Url.Escapes.{Plain, unescape_with-escape_with, escape_with-Lacks}
use nineteenseventytwo_platf.Exporter.Aws.Canonical.{
  aws_keeps, aws_escape, canonical_segments, canonical_path,
}

abbrev pub IsBytes : Bytes → Type 0
IsBytes = All (λ c. c < 256)

whole_path_keeps-Plain : Plain b'+' whole_path_keeps
whole_path_keeps-Plain c h = (ground arith, ground arith)

path_unescape-escape_path : (s : Bytes) → IsBytes s → path_unescape (escape_path s) ≡ some s
unfolding path_unescape escape_path
path_unescape-escape_path s h =
    unescape_with-escape_with b'+' whole_path_keeps s whole_path_keeps-Plain h

hex_digit-slash : (n : ℕ) → eqb (hex_digit n) b'/' ≡ false
unfolding hex_digit
hex_digit-slash n = ground arith

escape_path-Lacks : (s : Bytes) → Lacks b'/' s → Lacks b'/' (escape_path s)
unfolding escape_path
escape_path-Lacks s h =
    escape_with-Lacks b'/' whole_path_keeps s hex_digit-slash refl (All-map (λ c l k. l) s h)

escape_path-append : (s t : Bytes) → escape_path (s ++ t) ≡ escape_path s ++ escape_path t
unfolding escape_path escape_with
escape_path-append [] t = refl
escape_path-append (c ∷ s) t =
    ap (λ r. (if whole_path_keeps c then c ∷ [] else percent c) ++ r) (escape_path-append s t)
    ∙ sym (append_assoc (if whole_path_keeps c then c ∷ [] else percent c) _ _)

escape_path-slash : (t : Bytes) → escape_path (b'/' ∷ t) ≡ b'/' ∷ escape_path t
unfolding escape_path escape_with
escape_path-slash t = refl

escape_path-join :
    (segs : List Bytes)
    → escape_path (join (codes "/") segs) ≡ join (codes "/") (map escape_path segs)
unfolding join
escape_path-join [] = unfold escape_path in unfold escape_with in refl
escape_path-join (s ∷ []) = refl
escape_path-join (s ∷ t ∷ segs) =
    escape_path-append s (b'/' ∷ join (codes "/") (t ∷ segs))
    ∙ ap (λ r. escape_path s ++ r)
        (escape_path-slash (join (codes "/") (t ∷ segs))
          ∙ ap (λ r. b'/' ∷ r) (escape_path-join (t ∷ segs)))

canonical_segments-map :
    (segs : List Bytes)
    → All IsBytes segs
    → canonical_segments (map escape_path segs) ≡ map aws_escape segs
unfolding canonical_segments
canonical_segments-map [] h = refl
canonical_segments-map (s ∷ segs) h =
    rw (path_unescape-escape_path s h.0)
      (ap (λ r. aws_escape s ∷ r) (canonical_segments-map segs h.1))

aws_keeps-Plain : Plain b'+' aws_keeps
aws_keeps-Plain c h = (ground arith, ground arith)

path_unescape-aws_escape : (s : Bytes) → IsBytes s → path_unescape (aws_escape s) ≡ some s
unfolding path_unescape aws_escape
path_unescape-aws_escape s h = unescape_with-escape_with b'+' aws_keeps s aws_keeps-Plain h

map-Lacks : (segs : List Bytes) → All (Lacks b'/') segs → All (Lacks b'/') (map escape_path segs)
map-Lacks [] h = tt
map-Lacks (s ∷ segs) h = (escape_path-Lacks s h.0, map-Lacks segs h.1)

-- the path of a request, by the segments behind its first slash
abbrev pub slashed : Bytes → List Bytes → Bytes
slashed s segs = join (codes "/") ([] ∷ s ∷ segs)

escaped_path-slashed :
    (u : Url) (s : Bytes) (segs : List Bytes)
    → u.raw_path ≡ []
    → u.path ≡ slashed s segs
    → escaped_path u ≡ join (codes "/") (map escape_path ([] ∷ s ∷ segs))
unfolding escaped_path raw_path_serves join
escaped_path-slashed u s segs raw path = rw raw (rw path (escape_path-join ([] ∷ s ∷ segs)))

-- For a URL whose path is a slash and segments without slashes, given as bytes, and that has no raw
-- path of its own: the canonical path is a slash and the same segments, each escaped once as
-- `awsEscape` does, although the path is escaped by package url first, and `url.PathUnescape` reads
-- each escaped segment back.
pub canonical_path-slashed :
    (u : Url) (s : Bytes) (segs : List Bytes)
    → u.raw_path ≡ []
    → u.path ≡ slashed s segs
    → All IsBytes (s ∷ segs)
    → All (Lacks b'/') (s ∷ segs)
    → (canonical_path u ≡ slashed (aws_escape s) (map aws_escape segs))
      × All (λ t. path_unescape (aws_escape t) ≡ some t) (s ∷ segs)
unfolding canonical_path join
canonical_path-slashed u s segs raw path bytes lacks =
    let parts = map escape_path ([] ∷ s ∷ segs) in
    let parted = split-join b'/' parts (λ e. cc) (map-Lacks ([] ∷ s ∷ segs) (tt, lacks)) in
    let each = canonical_segments-map ([] ∷ s ∷ segs) (tt, bytes) in
    (
      rw (escaped_path-slashed u s segs raw path) (
          ap (join (codes "/")) (
            ap canonical_segments parted
            ∙ each
            ∙ ap (λ e. e ∷ map aws_escape (s ∷ segs)) (unfold aws_escape in refl))),
      All-map (λ t h. path_unescape-aws_escape t h) (s ∷ segs) bytes,
    )
