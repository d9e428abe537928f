-- ===== src/Exporter/System/Names.antt =====
-- The names under which the pollers of images/findings-exporter/main.go report, and that a poller
-- makes calls for its own names alone.
use nineteenseventytwo_platf.Prelude.{
  ℕ, ◌≡◌, refl, sym, ◌∙◌, Bool, true, false, not, ◌&&◌, List, [], ◌∷◌, Bytes, Option, none, some,
  keys, arith, nat_eq, list_eq, ◌==◌, list_same_iff, contains, eqb, Bool-cases, inl, inr,
  false_ne_true,
}
use nineteenseventytwo_platf.Exporter.Aws.Sign.{Credentials}
use nineteenseventytwo_platf.Exporter.Aws.WebIdentity.{get}
use nineteenseventytwo_platf.Exporter.Alertmanager.{am_collect}
use nineteenseventytwo_platf.Exporter.Github.{Collecting, gh_collect}
use nineteenseventytwo_platf.Exporter.GithubApp.{KeptToken}
use nineteenseventytwo_platf.Exporter.Poll.Rounds.{poll_calls-absent}
use nineteenseventytwo_platf.Exporter.Prowler.{
  Round, ProwlerState, prowler_names, data_times, prowler_collect,
}
use nineteenseventytwo_platf.Exporter.Start.{Plan, AlertmanagerPlan, GithubPlan, ProwlerPlan}
use nineteenseventytwo_platf.Exporter.Store.History.{own_calls}
use nineteenseventytwo_platf.Exporter.System.{
  Poller, alertmanager, github, prowler, poller_eq, Kept, Meeting, alertmanager_meets, github_meets,
  prowler_meets, poller_of, Collection, auth_token, github_round, prowler_round, collection,
}

abbrev pub alertmanager_names : Option AlertmanagerPlan → List Bytes
alertmanager_names none = []
alertmanager_names (some p) = p.sources

abbrev pub github_names : Option GithubPlan → List Bytes
github_names none = []
github_names (some p) = p.tools

abbrev pub prowler_plan_names : Option ProwlerPlan → List Bytes
prowler_plan_names none = []
prowler_plan_names (some p) = prowler_names

-- `src.names()`
abbrev pub names_of : Plan → Poller → List Bytes
names_of plan alertmanager = alertmanager_names plan.alertmanager
names_of plan github = github_names plan.github
names_of plan prowler = prowler_plan_names plan.prowler

-- no name of the first list is in the second
abbrev pub disjoint : List Bytes → List Bytes → Bool
disjoint [] ys = true
disjoint (x ∷ xs) ys = not (contains x ys) && disjoint xs ys

-- No two pollers report under the same name.
abbrev pub names_apart : Plan → Bool
names_apart plan =
    disjoint (names_of plan alertmanager) (names_of plan github)
    && (disjoint (names_of plan alertmanager) (names_of plan prowler)
        && disjoint (names_of plan github) (names_of plan prowler))

disjoint-left :
    (k : Bytes) (xs ys : List Bytes)
    → disjoint xs ys ≡ true
    → contains k xs ≡ true
    → contains k ys ≡ false
disjoint-left k [] ys d h = cc
disjoint-left k (x ∷ xs) ys d h = elim (Bool-cases (k == x)) [
  | inl same ↦ rw ((list_same_iff k x).0 same) (ground arith)
  | inr other ↦ disjoint-left k xs ys (ground arith) (ground arith)
]

disjoint-right :
    (k : Bytes) (xs ys : List Bytes)
    → disjoint xs ys ≡ true
    → contains k ys ≡ true
    → contains k xs ≡ false
disjoint-right k xs ys d h = elim (Bool-cases (contains k xs)) [
  | inl found ↦ absurd (false_ne_true (sym (disjoint-left k xs ys d found) ∙ h))
  | inr absent ↦ absent
]

-- A name of one poller is a name of no other.
pub names_of-apart :
    (plan : Plan) (k : Bytes) (v w : Poller)
    → names_apart plan ≡ true
    → poller_eq v w ≡ false
    → contains k (names_of plan w) ≡ true
    → contains k (names_of plan v) ≡ false
names_of-apart plan k alertmanager alertmanager d e h = cc
names_of-apart plan k alertmanager github d e h = disjoint-right k _ _ (ground arith) h
names_of-apart plan k alertmanager prowler d e h = disjoint-right k _ _ (ground arith) h
names_of-apart plan k github alertmanager d e h = disjoint-left k _ _ (ground arith) h
names_of-apart plan k github github d e h = cc
names_of-apart plan k github prowler d e h = disjoint-right k _ _ (ground arith) h
names_of-apart plan k prowler alertmanager d e h = disjoint-left k _ _ (ground arith) h
names_of-apart plan k prowler github d e h = disjoint-left k _ _ (ground arith) h
names_of-apart plan k prowler prowler d e h = cc

data_times-absent :
    (k : Bytes) (s : ProwlerState)
    → contains k prowler_names ≡ false
    → contains k (keys (data_times s)) ≡ false
unfolding data_times
data_times-absent k s h = elim (Bool-cases (eqb s.last_at 0)) [ inl e ↦ rw e refl | inr e ↦ rw e h ]

abbrev plan_of : Option AlertmanagerPlan → Option GithubPlan → Option ProwlerPlan → Bytes → Plan
plan_of am gh pr listen = record { alertmanager = am; github = gh; prowler = pr; listen = listen }

module _ (k : Bytes) where
  -- calls for the given names alone
  abbrev pub MakesOwn : List Bytes → Option Collection → Type 0
  MakesOwn names none = Unit
  MakesOwn names (some col) = contains k names ≡ false → own_calls k col.calls ≡ []

  github_round-MakesOwn :
      (p : GithubPlan) (clock : ℕ → ℕ) (kept : Kept) (token : KeptToken) (o : Option Collecting)
      → MakesOwn p.tools (github_round p clock kept token o)
  github_round-MakesOwn p clock kept token none = tt
  github_round-MakesOwn p clock kept token (some collected) =
      λ absent. poll_calls-absent p.tools collected [] clock k absent refl

  prowler_round-MakesOwn :
      (clock : ℕ → ℕ) (kept : Kept) (cached : Credentials) (o : Option Round)
      → MakesOwn prowler_names (prowler_round clock kept cached o)
  prowler_round-MakesOwn clock kept cached none = tt
  prowler_round-MakesOwn clock kept cached (some r) = λ absent.
      poll_calls-absent prowler_names r.returned (data_times r.after) clock k absent
        (data_times-absent k r.after absent)

  module _ {Key : Type 0} (unicode_lower : Bytes → Bytes) (fuel : ℕ) where
    collection-MakesOwn_by :
        (am : Option AlertmanagerPlan) (gh : Option GithubPlan) (pr : Option ProwlerPlan)
        (listen : Bytes) (m : Meeting Key) (kept : Kept)
        → MakesOwn
            (names_of (plan_of am gh pr listen) (poller_of m))
            (collection unicode_lower fuel (plan_of am gh pr listen) m kept)
    unfolding collection
    collection-MakesOwn_by none gh pr listen (alertmanager_meets web decode clock) kept = tt
    collection-MakesOwn_by (some p) gh pr listen (alertmanager_meets web decode clock) kept =
        λ absent.
          poll_calls-absent p.sources (am_collect unicode_lower web decode p.base p.sources) []
            clock k absent refl
    collection-MakesOwn_by am none pr listen (github_meets web decode world now clock) kept = tt
    collection-MakesOwn_by am (some p) pr listen (github_meets web decode world now clock) kept =
        github_round-MakesOwn p clock kept (auth_token world now p.auth kept.token).token (
          gh_collect unicode_lower web decode p.tools fuel
            (auth_token world now p.auth kept.token).returned p.api p.repos)
    collection-MakesOwn_by am gh none listen (prowler_meets world sts now clock) kept = tt
    collection-MakesOwn_by am gh (some p) listen (prowler_meets world sts now clock) kept =
        prowler_round-MakesOwn clock kept (get sts p.creds now kept.credentials).cached (
          prowler_collect unicode_lower world p.source fuel
            (get sts p.creds now kept.credentials).returned kept.prowler_state)

    -- A round makes calls for the names of its poller alone.
    pub collection-MakesOwn :
        (plan : Plan) (m : Meeting Key) (kept : Kept)
        → MakesOwn (names_of plan (poller_of m)) (collection unicode_lower fuel plan m kept)
    collection-MakesOwn plan m kept =
        collection-MakesOwn_by plan.alertmanager plan.github plan.prowler plan.listen m kept
