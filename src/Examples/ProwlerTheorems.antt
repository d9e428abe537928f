-- ===== src/Examples/ProwlerTheorems.antt =====
-- The case `TestProwlerSourcePicksNewestAndCaches` of images/findings-exporter/main_test.go, and the
-- theorems on the Prowler source at its bucket.
use nineteenseventytwo_platf.Prelude.{
  ℕ, ◌≡◌, ◌⊎◌, inl, inr, refl, Bool, true, subst, wrap, bind-ok, wrap-ok, ok_unique, ◌++◌, false,
  List, [], ◌∷◌, Bytes, codes, nat_eq, list_eq, ok, err, some, All, arith, ◌==◌, if◌then◌else◌,
}
use nineteenseventytwo_platf.Exporter.Aws.Sign.{sign_v4}
use nineteenseventytwo_platf.Exporter.Prowler.Objects.{
  S3World, ProwlerSource, S3Object, ListResult, s3_get, s3_target, s3_url, s3_body,
}
use nineteenseventytwo_platf.Exporter.Prowler.Listing.{
  Newest, newest_report, newest_pages, newest_in, newer, found_report, list_page, list_query,
  is_last,
}
use nineteenseventytwo_platf.Exporter.Prowler.Listing.Latest.{is_report, IsLatest}
use nineteenseventytwo_platf.Exporter.Prowler.Listing.Pages.{all_contents, newest_report-IsLatest}
use nineteenseventytwo_platf.Exporter.Prowler.Ocsf.{OcsfStream}
use nineteenseventytwo_platf.Exporter.Prowler.{new_prowler, data_times}
use nineteenseventytwo_platf.Exporter.Prowler.Cache.{
  Visit, collect_all, AllCurrent, collect_all-AllCurrent,
}
use nineteenseventytwo_platf.Exporter.Prowler.Dated.{AllModified, Dates}
use nineteenseventytwo_platf.Text.Affix.{has_suffix}
use nineteenseventytwo_platf.Examples.SourceRuns.{keep_case}
use nineteenseventytwo_platf.Examples.AwsRuns.{aws_example, aws_time, short_digests, ocsf_report}

abbrev pub bucket : ProwlerSource
bucket = record {
  bucket = codes "b";
  prefix = codes "findings/";
  region = codes "eu-west-2";
  endpoint = [];
}

abbrev object : Bytes → ℕ → S3Object
object key t = record { key = key; last_modified = t }

abbrev page : ListResult
page = record {
  contents =
      object (codes "findings/json-ocsf/old.ocsf.json") 5
      ∷ object (codes "findings/html/new.html") 7
      ∷ object (codes "findings/json-ocsf/new.ocsf.json") 7
      ∷ [];
  is_truncated = false;
  next_continuation_token = [];
}

abbrev pub world : S3World
world = record {
  parse_endpoint = λ s. err (codes "no endpoint");
  new_request =
      λ scheme u. ok (record { method = codes "GET"; host = u.host; url = u; headers = [] });
  send = λ r. ok (record { status_code = 200; status = codes "200 OK"; body = r.url.path });
  now = aws_time;
  digests = short_digests;
  list = λ body. if body == codes "/" then ok page else err (codes "no list");
  ocsf = λ body. ocsf_report;
}

lists_page : list_page keep_case world bucket aws_example [] ≡ ok page
unfolding list_page s3_get s3_target s3_url s3_body sign_v4
lists_page = refl

newest_run :
    newest_report keep_case world bucket 1 aws_example
    ≡ some (ok (record { key = codes "findings/json-ocsf/new.ocsf.json"; at = 7 }))
unfolding newest_report newest_pages list_page s3_get s3_target s3_url s3_body sign_v4 newest_in
    newer found_report is_last has_suffix
newest_run = refl

times_run : data_times (record new_prowler { last_at = 7 }) ≡ (codes "prowler", 7) ∷ []
unfolding data_times
times_run = refl

newest_report-IsLatest_example :
    ((n : Newest) × (newest_report keep_case world bucket 1 aws_example ≡ some (ok n))
      × IsLatest (all_contents (page ∷ [])) n)
    ⊎ ((e : Bytes) × (newest_report keep_case world bucket 1 aws_example ≡ some (err e))
        × All (λ o. is_report o ≡ false) (all_contents (page ∷ [])))
unfolding is_last
newest_report-IsLatest_example =
    newest_report-IsLatest keep_case world bucket aws_example 1 (page ∷ []) (lists_page, refl)
      (omega arith)

abbrev pub report_of : Bytes → OcsfStream
report_of key = ocsf_report

abbrev old_key : Bytes
old_key = codes "findings/json-ocsf/old.ocsf.json"

-- the times of the bucket's objects
abbrev pub modified_of : Bytes → ℕ
modified_of key = if key == old_key then 5 else 7

pub world-Dates : Dates keep_case bucket 1 report_of modified_of world
unfolding list_page
world-Dates c token found h =
    let (body, got, read) =
      bind-ok (s3_get keep_case world bucket c (codes "/") (list_query bucket token))
        (λ body. wrap (λ e. codes "list " ++ (codes "b" ++ (codes ": " ++ e))) (world.list body))
        h in
    by_body (body == codes "/")
      (wrap-ok (λ e. codes "list " ++ (codes "b" ++ (codes ": " ++ e))) (world.list body) read)
  where
    by_body :
        (b : Bool)
        → (if b then ok page else err (codes "no list")) ≡ ok found
        → AllModified modified_of found.contents
    by_body true e =
        subst (λ (p : ListResult). AllModified modified_of p.contents) (ok_unique (ok page) refl e)
          (refl, (refl, (refl, tt)))
    by_body false e = cc

-- a bucket that cannot be listed
abbrev closed : S3World
closed = record world { list = λ body. err (codes "access denied") }

closed_page : (e : Bytes) × (list_page keep_case closed bucket aws_example [] ≡ err e)
unfolding list_page s3_get s3_target s3_url s3_body sign_v4
closed_page = (_, refl)

-- twice, with no credentials and a listing that fails in between
abbrev visits : List Visit
visits =
    (world, ok aws_example)
    ∷ (world, err (codes "sts down"))
    ∷ (closed, ok aws_example)
    ∷ (world, ok aws_example)
    ∷ []

collect_all-AllCurrent_example :
    AllCurrent keep_case bucket 1 report_of visits new_prowler
      (collect_all keep_case bucket 1 report_of visits new_prowler)
unfolding is_last
collect_all-AllCurrent_example = collect_all-AllCurrent keep_case bucket 1 report_of visits (
  (λ c key body h. refl, inr (page, lists_page, inl refl)),
  (
    (λ c key body h. refl, tt),
    (
      (λ c key body h. refl, inl closed_page),
      ((λ c key body h. refl, inr (page, lists_page, inl refl)), tt),
    ),
  ),
)
