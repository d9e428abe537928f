-- ===== src/Exporter/System/Alerts.antt =====
-- What the store of images/findings-exporter says of a source of Alertmanager, against the replies of
-- Alertmanager alone.
use nineteenseventytwo_platf.Prelude.{
  ℕ, ◌≡◌, refl, ap, sym, subst, ◌∙◌, true, false, List, [], ◌∷◌, ◌++◌, Bytes, codes, Option, none,
  some, some_unique, Result, ok, err, Result-cases, inl, inr, lookup, contains, nat_eq, list_eq,
}
use nineteenseventytwo_platf.Exporter.Alertmanager.{
  AmAlert, source_of, alerts_url, am_finding, am_collect,
}
use nineteenseventytwo_platf.Exporter.Alertmanager.Findings.{am_collect-findings}
use nineteenseventytwo_platf.Exporter.Collected.Findings.{findings_of}
use nineteenseventytwo_platf.Exporter.Fetch.{Web, get_json}
use nineteenseventytwo_platf.Exporter.Poll.{poll_calls}
use nineteenseventytwo_platf.Exporter.Start.{Plan, AlertmanagerPlan}
use nineteenseventytwo_platf.Exporter.Store.{SourceState}
use nineteenseventytwo_platf.Exporter.Store.History.{own_calls, replay}
use nineteenseventytwo_platf.Exporter.System.Shown.{
  Shown, shown, went_down, after_collect, failed-shown, answered-shown,
}
use nineteenseventytwo_platf.Exporter.System.Induction.{entry_induction}
use nineteenseventytwo_platf.Exporter.System.Names.{
  names_of, names_apart, names_of-apart, MakesOwn, collection-MakesOwn,
}
use nineteenseventytwo_platf.Exporter.System.{
  alertmanager, poller_eq, Kept, System, Meeting, alertmanager_meets, github_meets, prowler_meets,
  poller_of, Collection, alertmanager_collection, collection, Event, begins, calls_store, Reach,
}

module _ (unicode_lower : Bytes → Bytes) (p : AlertmanagerPlan) (k : Bytes) where
  -- A reply with alerts shows those of the source, and no reply leaves what was shown, but down.
  abbrev pub after_reply : Result Bytes (List AmAlert) → Shown → Shown
  after_reply (ok alerts) o =
      some (findings_of source_of (am_finding unicode_lower) p.sources k alerts, true)
  after_reply (err e) o = went_down o

  -- what the replies alone say, the last event first
  abbrev pub shown_after : {Key : Type 0} → List (Event Key) → Shown
  shown_after [] = none
  shown_after (begins (alertmanager_meets web decode clock) ∷ es) =
      after_reply (get_json web decode (alerts_url p.base) []) (shown_after es)
  shown_after (begins (github_meets web decode world now clock) ∷ es) = shown_after es
  shown_after (begins (prowler_meets world sts now clock) ∷ es) = shown_after es
  shown_after (calls_store w ∷ es) = shown_after es

  round-shown :
      (web : Web) (decode : Bytes → Result Bytes (List AmAlert)) (clock : ℕ → ℕ)
      (o : Option SourceState)
      → contains k p.sources ≡ true
      → shown
          (after_collect p.sources k clock o (am_collect unicode_lower web decode p.base p.sources))
        ≡ after_reply (get_json web decode (alerts_url p.base) []) (shown o)
  round-shown web decode clock o known =
      let (failing, answering) = am_collect-findings unicode_lower p.sources web decode p.base in
      elim (Result-cases (get_json web decode (alerts_url p.base) [])) [
        | inl (e, failed) ↦
            ap (λ c. shown (after_collect p.sources k clock o c)) (failing e failed)
            ∙ failed-shown p.sources k clock o (codes "alertmanager: " ++ e) known
            ∙ ap (λ r. after_reply r (shown o)) (sym failed)
        | inr (alerts, replied) ↦
            let (found, collected, exact) = answering alerts replied in
            ap (λ c. shown (after_collect p.sources k clock o c)) collected
            ∙ answered-shown p.sources k clock o found known
            ∙ ap (λ fs. some (fs, true)) (exact k)
            ∙ ap (λ r. after_reply r (shown o)) (sym replied)
      ]

calls_of_alerts :
    (unicode_lower : Bytes → Bytes) (fuel : ℕ) (web : Web)
    (decode : Bytes → Result Bytes (List AmAlert)) (clock : ℕ → ℕ) (kept : Kept)
    (p : AlertmanagerPlan) (col : Collection)
    → alertmanager_collection unicode_lower fuel web decode clock kept (some p) ≡ some col
    → poll_calls p.sources (am_collect unicode_lower web decode p.base p.sources) [] clock
      ≡ col.calls
calls_of_alerts unicode_lower fuel web decode clock kept p col h =
    ap (λ (c : Collection). c.calls) (some_unique _ h)

module _ (Key : Type 0) (unicode_lower : Bytes → Bytes) (fuel : ℕ) (plan : Plan)
    (p : AlertmanagerPlan) (k : Bytes) (planned : plan.alertmanager ≡ some p)
    (apart : names_apart plan ≡ true) (known : contains k p.sources ≡ true) where
  abbrev IsShown : List (Event Key) → Option SourceState → Kept → Type 0
  IsShown es o kept = shown o ≡ shown_after unicode_lower p k es

  own_name : contains k (names_of plan alertmanager) ≡ true
  own_name = rw planned known

  other-IsShown :
      (es : List (Event Key)) (m : Meeting Key) (col : Collection) (kept : Kept)
      (o : Option SourceState)
      → poller_eq (poller_of m) alertmanager ≡ false
      → collection unicode_lower fuel plan m kept ≡ some col
      → IsShown es o kept
      → shown (replay (own_calls k col.calls) o) ≡ shown_after unicode_lower p k es
  other-IsShown es m col kept o other made h =
      let makes =
        subst (MakesOwn k (names_of plan (poller_of m))) made
          (collection-MakesOwn k unicode_lower fuel plan m kept) in
      ap (λ own. shown (replay own o))
        (makes (names_of-apart plan k (poller_of m) alertmanager apart other own_name))
      ∙ h

  rounds-IsShown :
      (es : List (Event Key)) (m : Meeting Key) (col : Collection) (kept : Kept)
      (o : Option SourceState)
      → collection unicode_lower fuel plan m kept ≡ some col
      → IsShown es o kept
      → IsShown (begins m ∷ es) (replay (own_calls k col.calls) o) col.kept
  unfolding collection
  rounds-IsShown es (alertmanager_meets web decode clock) col kept o made h =
      ap (λ cs. shown (replay (own_calls k cs) o))
        (sym (
          calls_of_alerts unicode_lower fuel web decode clock kept p col (
            ap (alertmanager_collection unicode_lower fuel web decode clock kept) (sym planned)
            ∙ made)))
      ∙ round-shown unicode_lower p k web decode clock o known
      ∙ ap (after_reply unicode_lower p k (get_json web decode (alerts_url p.base) [])) h
  rounds-IsShown es (github_meets web decode world now clock) col kept o made h =
      other-IsShown es (github_meets web decode world now clock) col kept o refl made h
  rounds-IsShown es (prowler_meets world sts now clock) col kept o made h =
      other-IsShown es (prowler_meets world sts now clock) col kept o refl made h

  -- If Alertmanager is configured and no two pollers report under one name, then in every state
  -- that the process can reach with the poller of Alertmanager not in the midst of its calls, the
  -- entry of each of its sources shows what the replies of Alertmanager alone say: nothing before
  -- the first round; then the findings of the alerts with that label in the last reply that gave
  -- alerts, in their order, or none before there was one, and that the source is up just if the
  -- last round had such a reply.
  pub Reach-shown :
      (es : List (Event Key)) (s : System)
      → Reach unicode_lower fuel plan es s
      → s.pending alertmanager ≡ []
      → shown (lookup k s.store) ≡ shown_after unicode_lower p k es
  Reach-shown es s reach idle =
      entry_induction Key unicode_lower fuel plan k IsShown refl rounds-IsShown (λ es w kept o h. h)
        es s alertmanager apart own_name reach idle
