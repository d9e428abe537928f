-- ===== src/Examples/AwsTheorems.antt =====
-- The theorems on signing, on credentials and on the Prowler source at concrete inputs.
use nineteenseventytwo_platf.Prelude.{
  ◌≡◌, arith, some, ◌↔◌, refl, List, [], ◌∷◌, codes, map, nat_eq, list_eq, ok, All, lookup, less,
}
use nineteenseventytwo_platf.Prelude.Sort.{sort}
use nineteenseventytwo_platf.Text.Url.{Url, Values, encode_values, path_unescape}
use nineteenseventytwo_platf.Text.Percent.{query_escape}
use nineteenseventytwo_platf.Text.Parts.{join}
use nineteenseventytwo_platf.Exporter.Aws.Canonical.{canonical_path, aws_escape}
use nineteenseventytwo_platf.Exporter.Aws.Canonical.Paths.{slashed, canonical_path-slashed}
use nineteenseventytwo_platf.Exporter.Aws.WebIdentity.{
  no_credentials, usable, exchange, sts_request, sts_post, sts_reply,
}
use nineteenseventytwo_platf.Exporter.Aws.WebIdentity.Exchanges.{get_all-once, all_sent}
use nineteenseventytwo_platf.Exporter.Aws.WebIdentity.Calls.{
  CallTime, get_all, AllServed, get_all-AllServed,
}
use nineteenseventytwo_platf.Exporter.Prowler.Ocsf.{OcsfFinding, OcsfToken, open_array, parse_ocsf}
use nineteenseventytwo_platf.Exporter.Prowler.Ocsf.Findings.{open_findings, parse_ocsf-findings}
use nineteenseventytwo_platf.Examples.SourceRuns.{keep_case}
use nineteenseventytwo_platf.Examples.AwsRuns.{
  aws_example, aws_time, identity, sts_world, bad_world, posted, ocsf_report, ocsf_found,
}

abbrev asked : Values
asked = (codes "prefix", codes "a/" ∷ []) ∷ (codes "list-type", codes "2" ∷ []) ∷ []

abbrev turned : Values
turned = (codes "list-type", codes "2" ∷ []) ∷ (codes "prefix", codes "a/" ∷ []) ∷ []

-- a key with a space, a plus sign and a percent sign
abbrev spaced : Url
spaced = record { host = codes "b"; path = codes "/a b/c+%"; raw_path = []; raw_query = [] }

canonical_path-slashed_example :
    (canonical_path spaced ≡ slashed (aws_escape (codes "a b")) (map aws_escape (codes "c+%" ∷ [])))
    × All (λ t. path_unescape (aws_escape t) ≡ some t) (codes "a b" ∷ codes "c+%" ∷ [])
unfolding join
canonical_path-slashed_example =
    canonical_path-slashed spaced (codes "a b") (codes "c+%" ∷ []) refl refl
      (
        (omega arith, (omega arith, (omega arith, tt))),
        ((omega arith, (omega arith, (omega arith, tt))), tt),
      )
      ((refl, (refl, (refl, tt))), ((refl, (refl, (refl, tt))), tt))

abbrev two_calls : List CallTime
two_calls = (bad_world, aws_time) ∷ (sts_world, aws_time) ∷ []

get_all-AllServed_example :
    AllServed identity two_calls no_credentials (get_all identity two_calls no_credentials)
get_all-AllServed_example = get_all-AllServed identity two_calls no_credentials

get_all-once_example :
    (all_sent identity
        (get_all identity ((sts_world, aws_time) ∷ (bad_world, aws_time) ∷ []) no_credentials)
      ≡ posted ∷ [])
    × All
        (λ f. f.returned ≡ ok aws_example)
        (get_all identity ((sts_world, aws_time) ∷ (bad_world, aws_time) ∷ []) no_credentials)
unfolding usable sts_request exchange sts_post join sort less encode_values lookup query_escape
    sts_reply
get_all-once_example =
    get_all-once identity ((bad_world, aws_time) ∷ []) no_credentials sts_world aws_time posted
      aws_example refl refl refl (refl, tt)

parse_ocsf-findings_example :
    (parse_ocsf keep_case ocsf_report ≡ ok (open_findings keep_case ocsf_found)) ↔ (
      (all : List OcsfFinding) × (ocsf_report.opening ≡ ok open_array)
      × (ocsf_report.elements ≡ map ok all)
      × ((last : OcsfToken) × (ocsf_report.closing ≡ ok last))
      × (open_findings keep_case ocsf_found ≡ open_findings keep_case all))
parse_ocsf-findings_example =
    parse_ocsf-findings keep_case ocsf_report (open_findings keep_case ocsf_found)
