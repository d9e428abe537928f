-- ===== src/Exporter/Prowler/Listing.antt =====
-- `newestReport` of images/findings-exporter/prowler.go.
pub mod Ends
pub mod Latest
pub mod Pages
use nineteenseventytwo_platf.Prelude.{
  ℕ, zero, suc, Bool, not, ◌&&◌, ◌||◌, List, [], ◌∷◌, ◌++◌, Bytes, codes, Option, none, some,
  Result, ok, err, ◌>>=◌, wrap, is_empty, ltb, if◌then◌else◌,
}
use nineteenseventytwo_platf.Text.Affix.{has_suffix}
use nineteenseventytwo_platf.Text.Url.{Values}
use nineteenseventytwo_platf.Exporter.Aws.Sign.{Credentials}
use nineteenseventytwo_platf.Exporter.Prowler.Objects.{
  S3World, ProwlerSource, S3Object, ListResult, s3_get,
}

pub record Newest : Type 0 where
  pub key : Bytes
  pub at : ℕ

abbrev pub no_report : Newest
no_report = record { key = []; at = 0 }

unfoldable pub newer : S3Object → Newest → Bool
unfolding has_suffix
newer o n = has_suffix o.key (codes ".ocsf.json") && ltb n.at o.last_modified

-- the loop over the objects of a page
unfoldable pub newest_in : List S3Object → Newest → Newest
newest_in [] n = n
newest_in (o ∷ os) n =
    newest_in os (if newer o n then record { key = o.key; at = o.last_modified } else n)

unfoldable pub list_query : ProwlerSource → Bytes → Values
list_query p token =
    if is_empty token
    then (codes "list-type", codes "2" ∷ []) ∷ (codes "prefix", p.prefix ∷ []) ∷ []
    else (codes "list-type", codes "2" ∷ [])
      ∷ (codes "prefix", p.prefix ∷ [])
      ∷ (codes "continuation-token", token ∷ [])
      ∷ []

unfoldable pub is_last : ListResult → Bool
is_last page = not page.is_truncated || is_empty page.next_continuation_token

module _ (unicode_lower : Bytes → Bytes) (world : S3World) (p : ProwlerSource) where
  -- one page of the listing
  unfoldable pub list_page : Credentials → Bytes → Result Bytes ListResult
  unfolding s3_get list_query
  list_page c token = s3_get unicode_lower world p c (codes "/") (list_query p token) >>= λ body.
      wrap (λ e. codes "list " ++ (p.bucket ++ (codes ": " ++ e))) (world.list body)

  -- The loop over the pages, for at most the given number of pages. Nothing in the program bounds
  -- it: it ends when a reply names no further page.
  unfoldable pub newest_pages : ℕ → Credentials → Bytes → Newest → Option (Result Bytes Newest)
  unfolding is_last
  newest_pages zero c token n = none
  newest_pages (suc fuel) c token n = elim (list_page c token) [
    | err e ↦ some (err e)
    | ok page ↦
        let rest = newest_pages fuel c page.next_continuation_token (newest_in page.contents n) in
        if is_last page then some (ok (newest_in page.contents n)) else rest
  ]

  unfoldable pub found_report : Newest → Result Bytes Newest
  found_report n =
      if is_empty n.key
      then err (codes "no *.ocsf.json under s3://" ++ (p.bucket ++ (codes "/" ++ p.prefix)))
      else ok n

  unfoldable pub newest_report : ℕ → Credentials → Option (Result Bytes Newest)
  unfolding newest_pages found_report
  newest_report fuel c = elim (newest_pages fuel c [] no_report) [
    | none ↦ none
    | some (err e) ↦ some (err e)
    | some (ok n) ↦ some (found_report n)
  ]
