-- ===== src/Exporter/Github.antt =====
-- `githubSource.collect`, `ghFinding` and `nextLink` of images/findings-exporter/sources.go.
pub mod Pages
pub mod Whole
use nineteenseventytwo_platf.Prelude.{
  ℕ, zero, suc, Bool, false, not, ◌&&◌, ◌||◌, List, [], ◌∷◌, ◌++◌, Bytes, codes, Assoc, Option,
  none, some, Result, ok, err, ◌>>=◌, wrap, if◌then◌else◌, is_empty, ◌==◌, nat_eq, list_eq,
}
use nineteenseventytwo_platf.Text.Space.{trim_space}
use nineteenseventytwo_platf.Text.Parts.{split}
use nineteenseventytwo_platf.Text.Affix.{trim, trim_right}
use nineteenseventytwo_platf.Text.Case.{to_lower, equal_fold}
use nineteenseventytwo_platf.Exporter.Severity.{normalize_severity}
use nineteenseventytwo_platf.Exporter.Store.{Finding}
use nineteenseventytwo_platf.Exporter.Collected.{collect_by}
use nineteenseventytwo_platf.Exporter.Fetch.{Web, get_json_link}

pub record GhAlert : Type 0 where
  pub created_at : ℕ
  pub rule_id : Bytes
  pub rule_severity : Bytes
  pub security_severity_level : Bytes
  pub tool_name : Bytes
  pub category : Bytes

unfoldable pub gh_severity : GhAlert → Bytes
gh_severity al =
    if is_empty al.security_severity_level then al.rule_severity else al.security_severity_level

unfoldable pub gh_item : GhAlert → Bytes
unfolding equal_fold trim_right
gh_item al =
    if equal_fold al.tool_name (codes "trivy") && not (is_empty al.category)
    then trim_right (codes "_") al.category
    else al.rule_id

module _ (unicode_lower : Bytes → Bytes) where
  unfoldable pub gh_finding : GhAlert → Finding
  unfolding normalize_severity gh_severity gh_item
  gh_finding al = record {
    severity = normalize_severity unicode_lower (gh_severity al);
    item = gh_item al;
    since = al.created_at;
  }

  unfoldable pub tool_of : GhAlert → Bytes
  unfolding to_lower
  tool_of al = to_lower unicode_lower al.tool_name

-- whether one of the segments behind the first is `rel="next"`
unfoldable pub has_next : List Bytes → Bool
unfolding trim_space
has_next [] = false
has_next (s ∷ segs) = trim_space s == codes "rel=\"next\"" || has_next segs

unfoldable pub next_of : List Bytes → Option Bytes
unfolding has_next trim trim_space
next_of [] = none
next_of (first ∷ segs) = if has_next segs then some (trim (codes "<>") (trim_space first)) else none

unfoldable pub first_next : List Bytes → Bytes
unfolding next_of split
first_next [] = []
first_next (part ∷ parts) =
    let rest = first_next parts in elim (next_of (split b';' part)) [ none ↦ rest | some u ↦ u ]

unfoldable pub next_link : Bytes → Bytes
unfolding first_next split
next_link header = first_next (split b',' header)

unfoldable pub alerts_start : Bytes → Bytes → Bytes
unfolding trim_right
alerts_start api repo =
    trim_right (codes "/") api
    ++ (codes "/repos/" ++ (repo ++ codes "/code-scanning/alerts?state=open&per_page=100"))

abbrev pub gh_headers : Bytes → Assoc Bytes Bytes
gh_headers token =
    (codes "Authorization", codes "Bearer " ++ token)
    ∷ (codes "Accept", codes "application/vnd.github+json")
    ∷ (codes "X-GitHub-Api-Version", codes "2022-11-28")
    ∷ []

-- what `collect` returns
abbrev pub Collecting : Type 0
Collecting = Result Bytes (Assoc Bytes (List Finding))

module _ (unicode_lower : Bytes → Bytes) (web : Web) (decode : Bytes → Result Bytes (List GhAlert))
    (tools : List Bytes) where
  -- The loop over the pages of one repository, for at most the given number of pages. Nothing in the
  -- program bounds it: it ends when the replies name no next page.
  unfoldable pub read_pages :
      ℕ → Bytes → Assoc Bytes Bytes → Bytes → Assoc Bytes (List Finding) → Option Collecting
  unfolding collect_by
  read_pages fuel repo headers [] out = some (ok out)
  read_pages zero repo headers (c ∷ next) out = none
  read_pages (suc fuel) repo headers (c ∷ next) out =
      elim (get_json_link web decode (c ∷ next) headers) [
        | err e ↦ some (err (codes "github " ++ (repo ++ (codes ": " ++ e))))
        | ok (link, page) ↦
            read_pages fuel repo headers (next_link link)
              (collect_by (tool_of unicode_lower) (gh_finding unicode_lower) tools page out)
      ]

  unfoldable pub read_repos :
      ℕ → Bytes → Assoc Bytes Bytes → List Bytes → Assoc Bytes (List Finding) → Option Collecting
  read_repos fuel api headers [] out = some (ok out)
  read_repos fuel api headers (repo ∷ repos) out =
      elim (read_pages fuel repo headers (alerts_start api repo) out) [
        | none ↦ none
        | some (err e) ↦ some (err e)
        | some (ok more) ↦ read_repos fuel api headers repos more
      ]

  -- `token` is what `g.auth.token` returns
  unfoldable pub gh_collect : ℕ → Result Bytes Bytes → Bytes → List Bytes → Option Collecting
  unfolding read_repos
  gh_collect fuel (err e) api repos = some (err e)
  gh_collect fuel (ok token) api repos = read_repos fuel api (gh_headers token) repos []
