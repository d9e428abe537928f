-- ===== src/Examples/SourceTheorems.antt =====
-- The theorems on the sources of images/findings-exporter at concrete inputs.
use nineteenseventytwo_platf.Prelude.{
  ◌≡◌, refl, List, [], ◌∷◌, ◌++◌, some, Bytes, Assoc, codes, nat_eq, list_eq, ok, lookup_or, arith,
}
use nineteenseventytwo_platf.Exporter.Store.{Finding}
use nineteenseventytwo_platf.Exporter.Fetch.{get_json_link}
use nineteenseventytwo_platf.Exporter.Collected.Findings.{findings_of}
use nineteenseventytwo_platf.Exporter.Github.{
  GhAlert, gh_finding, tool_of, next_link, gh_collect, alerts_start,
}
use nineteenseventytwo_platf.Exporter.Github.Pages.{gh_collect-findings}
use nineteenseventytwo_platf.Examples.SourceRuns.{
  keep_case, first_page, second_page, gh_web, gh_decode, gh_tools,
}

abbrev read : List (Bytes × List (List GhAlert))
read = (codes "o/n", first_page ∷ second_page ∷ []) ∷ []

gh_collect-findings_example :
    (found : Assoc Bytes (List Finding)) × (gh_collect keep_case gh_web gh_decode gh_tools 2
        (ok (codes "tok"))
        (codes "https://gh")
        (codes "o/n" ∷ [])
      ≡ some (ok found))
    × ((tool : Bytes)
        → lookup_or [] tool found
          ≡ findings_of
              (tool_of keep_case)
              (gh_finding keep_case)
              gh_tools
              tool
              (first_page ++ second_page))
unfolding alerts_start get_json_link next_link
gh_collect-findings_example =
    gh_collect-findings keep_case gh_web gh_decode gh_tools 2 (codes "tok") (codes "https://gh")
      read
      (((λ e. cc), codes "<https://gh/2>; rel=\"next\"", refl, ((λ e. cc), [], refl, refl)), tt)
      (omega arith, tt)
