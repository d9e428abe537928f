-- ===== src/Exporter/System/Reported.antt =====
-- Prowler's entry of the store of images/findings-exporter in every state of the process.
use nineteenseventytwo_platf.Prelude.{
  ℕ, ◌≡◌, refl, ap, sym, subst, ◌∙◌, true, false, List, [], Bytes, Option, none, some, some_unique,
  All, lookup, contains, nat_eq, list_eq,
}
use nineteenseventytwo_platf.Exporter.Aws.Sign.{Credentials}
use nineteenseventytwo_platf.Exporter.Aws.WebIdentity.{get}
use nineteenseventytwo_platf.Exporter.Poll.{poll_calls}
use nineteenseventytwo_platf.Exporter.Prowler.Cache.{Serves}
use nineteenseventytwo_platf.Exporter.Prowler.Dated.{Dates, prowler_collect-IsTold}
use nineteenseventytwo_platf.Exporter.Prowler.Ocsf.{OcsfStream}
use nineteenseventytwo_platf.Exporter.Prowler.{Round, prowler_names, data_times, prowler_collect}
use nineteenseventytwo_platf.Exporter.Start.{Plan, ProwlerPlan}
use nineteenseventytwo_platf.Exporter.Store.{SourceState}
use nineteenseventytwo_platf.Exporter.Store.History.{own_calls, replay}
use nineteenseventytwo_platf.Exporter.System.{
  Poller, prowler, poller_eq, Kept, System, Meeting, alertmanager_meets, github_meets,
  prowler_meets, poller_of, Collection, prowler_round, prowler_collection, collection, Event,
  begins, calls_store, Reach,
}
use nineteenseventytwo_platf.Exporter.System.Others.{
  alertmanager_collection-kept, github_collection-kept,
}
use nineteenseventytwo_platf.Exporter.System.Names.{
  names_of, names_apart, names_of-apart, MakesOwn, collection-MakesOwn,
}
use nineteenseventytwo_platf.Exporter.System.Entry.{
  prowler_name, IsReported, IsReported-IsKnown, round-IsReported,
}
use nineteenseventytwo_platf.Exporter.System.Induction.{entry_induction}

prowler_round_inv :
    (clock : ℕ → ℕ) (kept : Kept) (cached : Credentials) (o : Option Round) (col : Collection)
    → prowler_round clock kept cached o ≡ some col
    → (r : Round) × (o ≡ some r)
      × (poll_calls prowler_names r.returned (data_times r.after) clock ≡ col.calls)
      × (r.after ≡ col.kept.prowler_state)
prowler_round_inv clock kept cached none col h = cc
prowler_round_inv clock kept cached (some r) col h =
    let same = some_unique _ h in
    (
      r,
      refl,
      ap (λ (c : Collection). c.calls) same,
      ap (λ (c : Collection). c.kept.prowler_state) same,
    )

module _ (Key : Type 0) (unicode_lower : Bytes → Bytes) (fuel : ℕ) (plan : Plan) (p : ProwlerPlan)
    (report : Bytes → OcsfStream) (modified : Bytes → ℕ) (planned : plan.prowler ≡ some p)
    (apart : names_apart plan ≡ true) where
  -- in this round every download of a report's key gives that report, and every listing gives an
  -- object the time of its key
  abbrev pub MeetingServes : Meeting Key → Type 0
  MeetingServes (alertmanager_meets web decode clock) = Unit
  MeetingServes (github_meets web decode world now clock) = Unit
  MeetingServes (prowler_meets world sts now clock) =
      Serves unicode_lower p.source fuel report world
      × Dates unicode_lower p.source fuel report modified world

  abbrev pub EventServes : Event Key → Type 0
  EventServes (begins m) = MeetingServes m
  EventServes (calls_store w) = Unit

  abbrev Holds : Option SourceState → Kept → Type 0
  Holds o kept = IsReported unicode_lower p.source fuel report modified kept.prowler_state o

  prowler_absent :
      (w : Poller) → poller_eq w prowler ≡ false → contains prowler_name (names_of plan w) ≡ false
  prowler_absent w other = names_of-apart plan prowler_name w prowler apart other (rw planned refl)

  other-Holds :
      (m : Meeting Key) (kept : Kept) (col : Collection) (o : Option SourceState)
      → poller_eq (poller_of m) prowler ≡ false
      → collection unicode_lower fuel plan m kept ≡ some col
      → kept.prowler_state ≡ col.kept.prowler_state
      → Holds o kept
      → Holds (replay (own_calls prowler_name col.calls) o) col.kept
  other-Holds m kept col o other made same h =
      let makes =
        subst (MakesOwn prowler_name (names_of plan (poller_of m))) made
          (collection-MakesOwn prowler_name unicode_lower fuel plan m kept) in
      subst (λ own. Holds (replay own o) col.kept)
        (sym (makes (prowler_absent (poller_of m) other)))
        (subst (λ ps. IsReported unicode_lower p.source fuel report modified ps o) same h)

  collection-Holds :
      (m : Meeting Key) (kept : Kept) (col : Collection) (o : Option SourceState)
      → MeetingServes m
      → collection unicode_lower fuel plan m kept ≡ some col
      → Holds o kept
      → Holds (replay (own_calls prowler_name col.calls) o) col.kept
  unfolding collection
  collection-Holds (alertmanager_meets web decode clock) kept col o serves made h =
      other-Holds (alertmanager_meets web decode clock) kept col o refl made
        (alertmanager_collection-kept unicode_lower fuel web decode clock kept plan.alertmanager col
          made)
        h
  collection-Holds (github_meets web decode world now clock) kept col o serves made h =
      other-Holds (github_meets web decode world now clock) kept col o refl made
        (github_collection-kept unicode_lower fuel web decode world now clock kept plan.github col
          made)
        h
  collection-Holds (prowler_meets world sts now clock) kept col o serves made h =
      let fetched = get sts p.creds now kept.credentials in
      let (r, returns, calls, same) =
        prowler_round_inv clock kept fetched.cached
          (prowler_collect unicode_lower world p.source fuel fetched.returned kept.prowler_state)
          col
          (ap (prowler_collection unicode_lower fuel world sts now clock kept) (sym planned)
            ∙ made) in
      let told =
        prowler_collect-IsTold unicode_lower p.source fuel report modified world fetched.returned
          kept.prowler_state r serves.0 serves.1
          (IsReported-IsKnown unicode_lower p.source fuel report modified kept.prowler_state o h)
          returns in
      let right =
        round-IsReported unicode_lower p.source fuel report modified kept.prowler_state o clock r h
          told in
      let after =
        replay
          (own_calls prowler_name (poll_calls prowler_names r.returned (data_times r.after) clock))
          o in
      subst (λ cs. Holds (replay (own_calls prowler_name cs) o) col.kept) calls
        (subst (λ ps. IsReported unicode_lower p.source fuel report modified ps after) same right)

  abbrev IsSoFar : List (Event Key) → Option SourceState → Kept → Type 0
  IsSoFar es o kept = All EventServes es → Holds o kept

  -- If prowler is configured, no two pollers report under one name, and neither a report nor
  -- the time that the listings give its object changes under its name from round to round, then in every state that the process can reach with prowler's
  -- poller not in the midst of its calls, however the other pollers' calls took turns, there is no
  -- entry for prowler, or an empty one that is down, as long as no report was read; from then on
  -- the entry has the findings that the decoder reads in one report, the one that the source keeps,
  -- and the time, not zero, that the listings give the object of that report.
  pub Reach-IsReported :
      (es : List (Event Key)) (s : System)
      → Reach unicode_lower fuel plan es s
      → All EventServes es
      → s.pending prowler ≡ []
      → IsReported unicode_lower p.source fuel report modified s.kept.prowler_state
          (lookup prowler_name s.store)
  Reach-IsReported es s reach serves idle =
      entry_induction Key unicode_lower fuel plan prowler_name IsSoFar (λ none_yet. refl)
        (λ es m col kept o made h (serve, more). collection-Holds m kept col o serve made (h more))
        (λ es w kept o h (serve, more). h more) es s prowler apart (rw planned refl) reach idle
        serves
