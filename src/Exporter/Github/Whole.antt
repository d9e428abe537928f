-- ===== src/Exporter/Github/Whole.antt =====
-- `githubSource.collect` of images/findings-exporter/sources.go against a reading of all alerts first.
use nineteenseventytwo_platf.Prelude.{
  ℕ, zero, suc, ◌≡◌, refl, ap, sym, ◌∙◌, List, [], ◌∷◌, ◌++◌, Bytes, codes, Assoc, Option, none,
  some, Result, ok, err, Result-cases, inl, inr,
}
use nineteenseventytwo_platf.Exporter.Store.{Finding}
use nineteenseventytwo_platf.Exporter.Collected.{collect_by}
use nineteenseventytwo_platf.Exporter.Fetch.{Web, get_json_link}
use nineteenseventytwo_platf.Exporter.Github.{
  GhAlert, Collecting, next_link, alerts_start, gh_headers, read_pages, read_repos, gh_collect,
}
use nineteenseventytwo_platf.Exporter.Github.Pages.{collected, collected-append}

-- what is read, or why not
abbrev pub Alerts : Type 0
Alerts = Option (Result Bytes (List GhAlert))

abbrev pub before : List GhAlert → Alerts → Alerts
before page none = none
before page (some (err e)) = some (err e)
before page (some (ok rest)) = some (ok (page ++ rest))

module _ (web : Web) (decode : Bytes → Result Bytes (List GhAlert)) where
  abbrev pub page_then : Bytes → Result Bytes (Bytes × List GhAlert) → (Bytes → Alerts) → Alerts
  page_then repo (err e) next = some (err (codes "github " ++ (repo ++ (codes ": " ++ e))))
  page_then repo (ok (link, page)) next = before page (next (next_link link))

  -- all alerts of a repository
  abbrev pub repo_alerts : ℕ → Bytes → Assoc Bytes Bytes → Bytes → Alerts
  repo_alerts fuel repo headers [] = some (ok [])
  repo_alerts zero repo headers (c ∷ next) = none
  repo_alerts (suc fuel) repo headers (c ∷ next) =
      page_then repo (get_json_link web decode (c ∷ next) headers) (repo_alerts fuel repo headers)

  abbrev pub repo_then : Alerts → Alerts → Alerts
  repo_then none rest = none
  repo_then (some (err e)) rest = some (err e)
  repo_then (some (ok alerts)) rest = before alerts rest

  -- all alerts of all repositories
  abbrev pub repos_alerts : ℕ → Bytes → Assoc Bytes Bytes → List Bytes → Alerts
  repos_alerts fuel api headers [] = some (ok [])
  repos_alerts fuel api headers (repo ∷ repos) =
      repo_then (repo_alerts fuel repo headers (alerts_start api repo))
        (repos_alerts fuel api headers repos)

  abbrev pub all_alerts : ℕ → Result Bytes Bytes → Bytes → List Bytes → Alerts
  all_alerts fuel (err e) api repos = some (err e)
  all_alerts fuel (ok token) api repos = repos_alerts fuel api (gh_headers token) repos

  module _ (unicode_lower : Bytes → Bytes) (tools : List Bytes) where
    -- the findings of what is read, behind those before
    abbrev pub gathered : Assoc Bytes (List Finding) → Alerts → Option Collecting
    gathered out none = none
    gathered out (some (err e)) = some (err e)
    gathered out (some (ok alerts)) =
        some (ok (collected unicode_lower web decode tools alerts out))

    gathered-before :
        (page : List GhAlert) (out : Assoc Bytes (List Finding)) (rest : Alerts)
        → gathered (collected unicode_lower web decode tools page out) rest
          ≡ gathered out (before page rest)
    gathered-before page out none = refl
    gathered-before page out (some (err e)) = refl
    gathered-before page out (some (ok alerts)) =
        ap (λ m. some (ok m))
          (sym (collected-append unicode_lower web decode tools page alerts out))

    read_pages-gathered :
        (fuel : ℕ) (repo : Bytes) (headers : Assoc Bytes Bytes) (u : Bytes)
        (out : Assoc Bytes (List Finding))
        → read_pages unicode_lower web decode tools fuel repo headers u out
          ≡ gathered out (repo_alerts fuel repo headers u)
    unfolding read_pages
    read_pages-gathered fuel repo headers [] out = unfold collect_by in refl
    read_pages-gathered zero repo headers (c ∷ u) out = refl
    read_pages-gathered (suc fuel) repo headers (c ∷ u) out =
        elim (Result-cases (get_json_link web decode (c ∷ u) headers)) [
          | inl (e, failed) ↦ rw (failed, read_pages) refl
          | inr ((link, page), got) ↦
              rw (got, read_pages)
                (read_pages-gathered fuel repo headers (next_link link)
                    (collected unicode_lower web decode tools page out)
                  ∙ gathered-before page out (repo_alerts fuel repo headers (next_link link)))
        ]

    repos_by :
        (fuel : ℕ) (repo : Bytes) (headers : Assoc Bytes Bytes) (u : Bytes)
        (out : Assoc Bytes (List Finding)) (next : Assoc Bytes (List Finding) → Option Collecting)
        (rest : Alerts)
        → ((more : Assoc Bytes (List Finding)) → next more ≡ gathered more rest)
        → elim (read_pages unicode_lower web decode tools fuel repo headers u out) [
          | none ↦ none
          | some (err e) ↦ some (err e)
          | some (ok more) ↦ next more
        ]
          ≡ gathered out (repo_then (repo_alerts fuel repo headers u) rest)
    repos_by fuel repo headers u out next rest h =
        ap (λ o. elim o [ none ↦ none | some (err e) ↦ some (err e) | some (ok more) ↦ next more ])
          (read_pages-gathered fuel repo headers u out)
        ∙ by_alerts (repo_alerts fuel repo headers u)
      where
        by_alerts :
            (read : Alerts)
            → elim (gathered out read) [
              | none ↦ none
              | some (err e) ↦ some (err e)
              | some (ok more) ↦ next more
            ]
              ≡ gathered out (repo_then read rest)
        by_alerts none = refl
        by_alerts (some (err e)) = refl
        by_alerts (some (ok alerts)) =
            h (collected unicode_lower web decode tools alerts out)
            ∙ gathered-before alerts out rest

    read_repos-gathered :
        (fuel : ℕ) (api : Bytes) (headers : Assoc Bytes Bytes) (repos : List Bytes)
        (out : Assoc Bytes (List Finding))
        → read_repos unicode_lower web decode tools fuel api headers repos out
          ≡ gathered out (repos_alerts fuel api headers repos)
    unfolding read_repos
    read_repos-gathered fuel api headers [] out = unfold collect_by in refl
    read_repos-gathered fuel api headers (repo ∷ repos) out =
        repos_by fuel repo headers (alerts_start api repo) out
          (read_repos unicode_lower web decode tools fuel api headers repos)
          (repos_alerts fuel api headers repos) (read_repos-gathered fuel api headers repos)

    -- Whatever GitHub answers, `collect` that sorts each page when it is read returns what a reading of
    -- all alerts of all repositories first, sorted then in one pass, returns: the same findings, or
    -- the first error of the two readings.
    pub gh_collect-gathered :
        (fuel : ℕ) (token : Result Bytes Bytes) (api : Bytes) (repos : List Bytes)
        → gh_collect unicode_lower web decode tools fuel token api repos
          ≡ gathered [] (all_alerts fuel token api repos)
    unfolding gh_collect
    gh_collect-gathered fuel (err e) api repos = refl
    gh_collect-gathered fuel (ok token) api repos =
        read_repos-gathered fuel api (gh_headers token) repos []
