-- ===== src/Exporter/System/Scans.antt =====
-- What the store of images/findings-exporter says of a tool of GitHub's code scanning, against the
-- replies of GitHub alone.
use nineteenseventytwo_platf.Prelude.{
  ℕ, ◌≡◌, refl, ap, ap₂, sym, subst, ◌∙◌, true, false, List, [], ◌∷◌, Bytes, Option, none, some,
  some_unique, Result, ok, err, lookup_or, lookup, contains, nat_eq, list_eq,
}
use nineteenseventytwo_platf.Exporter.Collected.{collect_by}
use nineteenseventytwo_platf.Exporter.Collected.Findings.{findings_of, collect_by-findings}
use nineteenseventytwo_platf.Exporter.Github.{GhAlert, gh_finding, tool_of}
use nineteenseventytwo_platf.Exporter.Github.Whole.{
  Alerts, all_alerts, gathered, gh_collect-gathered,
}
use nineteenseventytwo_platf.Exporter.GithubApp.{KeptToken, no_token}
use nineteenseventytwo_platf.Exporter.Fetch.{Web}
use nineteenseventytwo_platf.Exporter.Start.{Plan, GithubPlan}
use nineteenseventytwo_platf.Exporter.Store.{SourceState}
use nineteenseventytwo_platf.Exporter.Store.History.{own_calls, replay}
use nineteenseventytwo_platf.Exporter.System.Shown.{
  Shown, shown, went_down, failed-shown, answered-shown,
}
use nineteenseventytwo_platf.Exporter.System.Induction.{entry_induction}
use nineteenseventytwo_platf.Exporter.System.Others.{
  alertmanager_collection-token, prowler_collection-token,
}
use nineteenseventytwo_platf.Exporter.System.Names.{
  names_of, names_apart, names_of-apart, MakesOwn, collection-MakesOwn,
}
use nineteenseventytwo_platf.Exporter.System.{
  github, poller_eq, Kept, System, Meeting, alertmanager_meets, github_meets, prowler_meets,
  poller_of, Collection, auth_token, github_round, github_collection, collection, Event, begins,
  calls_store, Reach,
}

module _ (unicode_lower : Bytes → Bytes) (fuel : ℕ) (p : GithubPlan) (k : Bytes) where
  -- the token that is kept
  abbrev pub token_after : {Key : Type 0} → List (Event Key) → KeptToken
  token_after [] = no_token
  token_after (begins (github_meets web decode world now clock) ∷ es) =
      (auth_token world now p.auth (token_after es)).token
  token_after (begins (alertmanager_meets web decode clock) ∷ es) = token_after es
  token_after (begins (prowler_meets world sts now clock) ∷ es) = token_after es
  token_after (calls_store w ∷ es) = token_after es

  -- All alerts of all repositories show those of the tool; a failure leaves what was shown, but down.
  abbrev pub after_alerts : Alerts → Shown → Shown
  after_alerts none o = o
  after_alerts (some (err e)) o = went_down o
  after_alerts (some (ok alerts)) o =
      some (findings_of (tool_of unicode_lower) (gh_finding unicode_lower) p.tools k alerts, true)

  -- what the replies alone say, the last event first
  abbrev pub scanned_after : {Key : Type 0} → List (Event Key) → Shown
  scanned_after [] = none
  scanned_after (begins (github_meets web decode world now clock) ∷ es) =
      after_alerts
        (all_alerts web decode fuel (auth_token world now p.auth (token_after es)).returned p.api
          p.repos)
        (scanned_after es)
  scanned_after (begins (alertmanager_meets web decode clock) ∷ es) = scanned_after es
  scanned_after (begins (prowler_meets world sts now clock) ∷ es) = scanned_after es
  scanned_after (calls_store w ∷ es) = scanned_after es

  collected-findings :
      (alerts : List GhAlert)
      → lookup_or [] k
          (collect_by (tool_of unicode_lower) (gh_finding unicode_lower) p.tools alerts [])
        ≡ findings_of (tool_of unicode_lower) (gh_finding unicode_lower) p.tools k alerts
  unfolding lookup
  collected-findings alerts =
      collect_by-findings (tool_of unicode_lower) (gh_finding unicode_lower) p.tools k alerts []

  -- a round by what is read, with its calls and the token that is kept
  gathered-shown :
      (web : Web) (decode : Bytes → Result Bytes (List GhAlert)) (clock : ℕ → ℕ) (kept : Kept)
      (token : KeptToken) (read : Alerts) (col : Collection) (o : Option SourceState)
      → contains k p.tools ≡ true
      → github_round p clock kept token (gathered web decode unicode_lower p.tools [] read)
        ≡ some col
      → (shown (replay (own_calls k col.calls) o) ≡ after_alerts read (shown o))
        × (col.kept.token ≡ token)
  gathered-shown web decode clock kept token none col o known h = cc
  gathered-shown web decode clock kept token (some (err e)) col o known h =
      let same = some_unique _ h in
      (
        ap (λ (c : Collection). shown (replay (own_calls k c.calls) o)) (sym same)
            ∙ failed-shown p.tools k clock o e known,
        ap (λ (c : Collection). c.kept.token) (sym same),
      )
  gathered-shown web decode clock kept token (some (ok alerts)) col o known h =
      let same = some_unique _ h in
      let found = collect_by (tool_of unicode_lower) (gh_finding unicode_lower) p.tools alerts [] in
      (
        ap (λ (c : Collection). shown (replay (own_calls k c.calls) o)) (sym same)
            ∙ answered-shown p.tools k clock o found known
            ∙ ap (λ fs. some (fs, true)) (collected-findings alerts),
        ap (λ (c : Collection). c.kept.token) (sym same),
      )

module _ (Key : Type 0) (unicode_lower : Bytes → Bytes) (fuel : ℕ) (plan : Plan) (p : GithubPlan)
    (k : Bytes) (planned : plan.github ≡ some p) (apart : names_apart plan ≡ true)
    (known : contains k p.tools ≡ true) where
  abbrev IsScanned : List (Event Key) → Option SourceState → Kept → Type 0
  IsScanned es o kept =
      (shown o ≡ scanned_after unicode_lower fuel p k es)
      × (kept.token ≡ token_after unicode_lower fuel p k es)

  own_tool : contains k (names_of plan github) ≡ true
  own_tool = rw planned known

  other-IsScanned :
      (es : List (Event Key)) (m : Meeting Key) (col : Collection) (kept : Kept)
      (o : Option SourceState)
      → poller_eq (poller_of m) github ≡ false
      → collection unicode_lower fuel plan m kept ≡ some col
      → col.kept.token ≡ kept.token
      → IsScanned es o kept
      → IsScanned es (replay (own_calls k col.calls) o) col.kept
  other-IsScanned es m col kept o other made same h =
      let makes =
        subst (MakesOwn k (names_of plan (poller_of m))) made
          (collection-MakesOwn k unicode_lower fuel plan m kept) in
      (
        ap (λ own. shown (replay own o))
              (makes (names_of-apart plan k (poller_of m) github apart other own_tool))
            ∙ h.0,
        same ∙ h.1,
      )

  rounds-IsScanned :
      (es : List (Event Key)) (m : Meeting Key) (col : Collection) (kept : Kept)
      (o : Option SourceState)
      → collection unicode_lower fuel plan m kept ≡ some col
      → IsScanned es o kept
      → IsScanned (begins m ∷ es) (replay (own_calls k col.calls) o) col.kept
  unfolding collection
  rounds-IsScanned es (alertmanager_meets web decode clock) col kept o made h =
      other-IsScanned es (alertmanager_meets web decode clock) col kept o refl made
        (alertmanager_collection-token unicode_lower fuel web decode clock kept plan.alertmanager
          col made)
        h
  rounds-IsScanned es (prowler_meets world sts now clock) col kept o made h =
      other-IsScanned es (prowler_meets world sts now clock) col kept o refl made
        (prowler_collection-token unicode_lower fuel world sts now clock kept plan.prowler col made)
        h
  rounds-IsScanned es (github_meets web decode world now clock) col kept o made (same, token) =
      let given = auth_token world now p.auth kept.token in
      let read = all_alerts web decode fuel given.returned p.api p.repos in
      let (shows, keeps) =
        gathered-shown unicode_lower fuel p k web decode clock kept given.token read col o known (
          ap (github_round p clock kept given.token) (
            sym (
              gh_collect-gathered web decode unicode_lower p.tools fuel given.returned p.api
                p.repos))
          ∙ ap (github_collection unicode_lower fuel web decode world now clock kept) (sym planned)
          ∙ made) in
      (
        shows
            ∙ ap₂
                (λ t shown.
                  after_alerts unicode_lower fuel p k
                    (all_alerts web decode fuel (auth_token world now p.auth t).returned p.api
                      p.repos)
                    shown)
                token same,
        keeps ∙ ap (λ t. (auth_token world now p.auth t).token) token,
      )

  -- If GitHub is configured and no two pollers report under one name, then in every state that the
  -- process can reach with the poller of GitHub not in the midst of its calls, the entry of each of
  -- its tools shows what the replies of GitHub alone say: nothing before the first round; then the
  -- findings of the alerts with that tool's name in the last complete reading of all pages of all
  -- repositories, in their order, or none before there was one, and that the tool is up just if the
  -- last round was complete.
  pub Reach-scanned :
      (es : List (Event Key)) (s : System)
      → Reach unicode_lower fuel plan es s
      → s.pending github ≡ []
      → shown (lookup k s.store) ≡ scanned_after unicode_lower fuel p k es
  Reach-scanned es s reach idle =
      (entry_induction Key unicode_lower fuel plan k IsScanned (refl, refl) rounds-IsScanned
        (λ es w kept o h. h) es s github apart own_tool reach idle).0
