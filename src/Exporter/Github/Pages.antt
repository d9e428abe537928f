-- ===== src/Exporter/Github/Pages.antt =====
-- What is collected over all pages of all repositories.
use nineteenseventytwo_platf.Prelude.{
  ℕ, zero, suc, ◌≤◌, ◌≡◌, ◌≢◌, refl, sym, ap, ◌∙◌, List, [], ◌∷◌, ◌++◌, Bytes, Assoc, some, Result,
  ok, length, arith, lookup_or, lookup, nat_eq, list_eq, All,
}
use nineteenseventytwo_platf.Exporter.Store.{Finding}
use nineteenseventytwo_platf.Exporter.Collected.{collect_by}
use nineteenseventytwo_platf.Exporter.Collected.Findings.{findings_of, collect_by-findings}
use nineteenseventytwo_platf.Exporter.Fetch.{Web, get_json_link}
use nineteenseventytwo_platf.Exporter.Github.{
  GhAlert, gh_finding, tool_of, next_link, alerts_start, gh_headers, read_pages, read_repos,
  gh_collect,
}

-- the pages one behind the other
abbrev pub joined : List (List GhAlert) → List GhAlert
joined [] = []
joined (page ∷ pages) = page ++ joined pages

abbrev pub repos_of : List (Bytes × List (List GhAlert)) → List Bytes
repos_of [] = []
repos_of ((repo, pages) ∷ read) = repo ∷ repos_of read

abbrev pub all_alerts : List (Bytes × List (List GhAlert)) → List GhAlert
all_alerts [] = []
all_alerts ((repo, pages) ∷ read) = joined pages ++ all_alerts read

module _ (unicode_lower : Bytes → Bytes) (web : Web) (decode : Bytes → Result Bytes (List GhAlert))
    (tools : List Bytes) where
  -- from this URL the replies lead through these pages, and the last names no next one
  abbrev pub Leads : Assoc Bytes Bytes → Bytes → List (List GhAlert) → Type 0
  Leads headers u [] = u ≡ []
  Leads headers u (page ∷ pages) =
      (u ≢ [])
      × (link : Bytes) × (get_json_link web decode u headers ≡ ok (link, page))
      × Leads headers (next_link link) pages

  abbrev pub collected : List GhAlert → Assoc Bytes (List Finding) → Assoc Bytes (List Finding)
  collected = collect_by (tool_of unicode_lower) (gh_finding unicode_lower) tools

  pub collected-append :
      (xs ys : List GhAlert) (out : Assoc Bytes (List Finding))
      → collected (xs ++ ys) out ≡ collected ys (collected xs out)
  unfolding collect_by
  collected-append [] ys out = refl
  collected-append (x ∷ xs) ys out = collected-append xs ys _

  read_pages-Leads :
      (fuel : ℕ) (repo : Bytes) (headers : Assoc Bytes Bytes) (u : Bytes)
      (pages : List (List GhAlert)) (out : Assoc Bytes (List Finding))
      → Leads headers u pages
      → length pages ≤ fuel
      → read_pages unicode_lower web decode tools fuel repo headers u out
        ≡ some (ok (collected (joined pages) out))
  unfolding read_pages
  read_pages-Leads fuel repo headers [] [] out h n = refl
  read_pages-Leads fuel repo headers (c ∷ u) [] out h n = cc
  read_pages-Leads fuel repo headers [] (page ∷ pages) out h n = absurd (h.0 refl)
  read_pages-Leads zero repo headers (c ∷ u) (page ∷ pages) out h n = absurd (omega arith)
  read_pages-Leads (suc fuel) repo headers (c ∷ u) (page ∷ pages) out (nonempty, link, got, more)
        n =
      rw (got, read_pages)
        (read_pages-Leads fuel repo headers (next_link link) pages (collected page out) more
            (omega arith)
          ∙ ap (λ m. some (ok m)) (sym (collected-append page (joined pages) out)))

  -- the pages of each repository, in order
  abbrev pub AllLead : Bytes → Assoc Bytes Bytes → List (Bytes × List (List GhAlert)) → Type 0
  AllLead api headers = All (λ r. Leads headers (alerts_start api r.0) r.1)

  abbrev pub Within : ℕ → List (Bytes × List (List GhAlert)) → Type 0
  Within fuel = All (λ r. length r.1 ≤ fuel)

  read_repos-Leads :
      (fuel : ℕ) (api : Bytes) (headers : Assoc Bytes Bytes)
      (read : List (Bytes × List (List GhAlert))) (out : Assoc Bytes (List Finding))
      → AllLead api headers read
      → Within fuel read
      → read_repos unicode_lower web decode tools fuel api headers (repos_of read) out
        ≡ some (ok (collected (all_alerts read) out))
  unfolding read_repos collect_by
  read_repos-Leads fuel api headers [] out h n = refl
  read_repos-Leads fuel api headers ((repo, pages) ∷ read) out h n =
      rw (read_pages-Leads fuel repo headers (alerts_start api repo) pages out h.0 n.0, read_repos)
        (read_repos-Leads fuel api headers read (collected (joined pages) out) h.1 n.1
          ∙ ap (λ m. some (ok m)) (sym (collected-append (joined pages) (all_alerts read) out)))

  -- If there is a token, and from the first URL of each repository on the replies lead through a
  -- finite number of pages, then with fuel for the longest of these runs `collect` returns, without
  -- an error, and has for each tool that is asked for the findings of the alerts with that tool's
  -- name, of all pages of all repositories, in their order; and none for any other.
  pub gh_collect-findings :
      (fuel : ℕ) (token api : Bytes) (read : List (Bytes × List (List GhAlert)))
      → AllLead api (gh_headers token) read
      → Within fuel read
      → (found : Assoc Bytes (List Finding)) × (gh_collect unicode_lower web decode tools fuel
            (ok token)
            api
            (repos_of read)
          ≡ some (ok found))
        × ((tool : Bytes)
            → lookup_or [] tool found
              ≡ findings_of
                  (tool_of unicode_lower)
                  (gh_finding unicode_lower)
                  tools
                  tool
                  (all_alerts read))
  unfolding gh_collect lookup
  gh_collect-findings fuel token api read h n = (
    collected (all_alerts read) [],
    read_repos-Leads fuel api (gh_headers token) read [] h n,
    λ tool.
        collect_by-findings (tool_of unicode_lower) (gh_finding unicode_lower) tools tool
          (all_alerts read) [],
  )
