-- ===== src/Exporter/Prowler.antt =====
-- `prowlerSource` of images/findings-exporter/prowler.go: the newest report of a bucket, read once.
pub mod Objects
pub mod Listing
pub mod Ocsf
pub mod Cache
pub mod Dated
use nineteenseventytwo_platf.Prelude.{
  ℕ, zero, suc, Bool, not, ◌&&◌, ◌||◌, List, [], ◌∷◌, ◌++◌, Bytes, codes, Assoc, Option, none, some,
  Result, ok, err, ◌>>=◌, wrap, is_empty, eqb, ◌==◌, nat_eq, list_eq, if◌then◌else◌,
}
use nineteenseventytwo_platf.Exporter.Store.{Finding}
use nineteenseventytwo_platf.Exporter.Aws.Sign.{Credentials}
use nineteenseventytwo_platf.Exporter.Prowler.Objects.{S3World, ProwlerSource, s3_get}
use nineteenseventytwo_platf.Exporter.Prowler.Listing.{Newest, newest_report}
use nineteenseventytwo_platf.Exporter.Prowler.Ocsf.{OcsfStream, parse_ocsf}

-- what changes from call to call
pub record ProwlerState : Type 0 where
  pub last_key : Bytes
  pub last_at : ℕ
  pub last_find : List Finding

abbrev pub new_prowler : ProwlerState
new_prowler = record { last_key = []; last_at = 0; last_find = [] }

abbrev pub prowler_names : List Bytes
prowler_names = codes "prowler" ∷ []

-- nothing as long as there was no report
unfoldable pub data_times : ProwlerState → Assoc Bytes ℕ
data_times s = if eqb s.last_at 0 then [] else (codes "prowler", s.last_at) ∷ []

-- what `collect` returns, and the state it leaves
pub record Round : Type 0 where
  pub returned : Result Bytes (Assoc Bytes (List Finding))
  pub after : ProwlerState

abbrev pub failed_round : ProwlerState → Bytes → Round
failed_round s e = record { returned = err e; after = s }

abbrev pub read_round : ProwlerState → Newest → Result Bytes (List Finding) → Round
read_round s n (err e) = failed_round s e
read_round s n (ok fs) = record {
  returned = ok ((codes "prowler", fs) ∷ []);
  after = record { last_key = n.key; last_at = n.at; last_find = fs };
}

module _ (unicode_lower : Bytes → Bytes) (world : S3World) (p : ProwlerSource) (fuel : ℕ) where
  -- the report is downloaded and decoded
  unfoldable pub read_report : Credentials → Bytes → Result Bytes (List Finding)
  unfolding parse_ocsf
  read_report c key = s3_get unicode_lower world p c (b'/' ∷ key) [] >>= λ body.
      wrap (λ e. codes "prowler " ++ (key ++ (codes ": " ++ e)))
        (parse_ocsf unicode_lower (world.ocsf body))

  unfoldable pub report_round : ProwlerState → Credentials → Result Bytes Newest → Round
  unfolding read_report
  report_round s c (err e) = failed_round s e
  report_round s c (ok n) =
      if n.key == s.last_key
      then record { returned = ok ((codes "prowler", s.last_find) ∷ []); after = s }
      else read_round s n (read_report c n.key)

  -- One poller calls `collect`, one call after the other, so that nothing comes between the reading
  -- and the writing of the kept report. `creds` is what `p.creds.get` returns. Nothing if the fuel does not suffice for the listing.
  unfoldable pub prowler_collect : Result Bytes Credentials → ProwlerState → Option Round
  unfolding report_round newest_report
  prowler_collect (err e) s = some (failed_round s e)
  prowler_collect (ok c) s = elim (newest_report unicode_lower world p fuel c) [
    | none ↦ none
    | some listed ↦ some (report_round s c listed)
  ]
