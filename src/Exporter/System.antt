-- ===== src/Exporter/System.antt =====
-- The whole process of images/findings-exporter/main.go: the pollers that `main` starts as goroutines,
-- and the store that they share. What a round collects is private to its poller, so the start of a
-- round is one step; every call of the store holds its mutex, and is one more.
pub mod Names
pub mod Settled
pub mod Steps
pub mod Atomic
pub mod Induction
pub mod Others
pub mod Entry
pub mod Reported
pub mod Shown
pub mod Alerts
pub mod Scans
use nineteenseventytwo_platf.Prelude.{
  ℕ, ◌≡◌, Bool, true, false, List, [], ◌∷◌, Bytes, Option, none, some, Result, ok, err,
  if◌then◌else◌,
}
use nineteenseventytwo_platf.Exporter.Aws.Sign.{Credentials}
use nineteenseventytwo_platf.Exporter.Aws.WebIdentity.{StsWorld, no_credentials, get}
use nineteenseventytwo_platf.Exporter.Alertmanager.{AmAlert, am_collect}
use nineteenseventytwo_platf.Exporter.Fetch.{Web}
use nineteenseventytwo_platf.Exporter.Github.{GhAlert, Collecting, gh_collect}
use nineteenseventytwo_platf.Exporter.GithubApp.{
  AppWorld, KeptToken, Issued, no_token, file_token, app_token,
}
use nineteenseventytwo_platf.Exporter.Poll.{poll_calls}
use nineteenseventytwo_platf.Exporter.Prowler.Objects.{S3World}
use nineteenseventytwo_platf.Exporter.Prowler.{
  ProwlerState, Round, new_prowler, prowler_names, data_times, prowler_collect,
}
use nineteenseventytwo_platf.Exporter.Start.{
  Plan, AlertmanagerPlan, GithubPlan, ProwlerPlan, Auth, file_auth, app_auth,
}
use nineteenseventytwo_platf.Exporter.Store.{Store, new_store}
use nineteenseventytwo_platf.Exporter.Store.History.{Call, apply}

pub data Poller : Type 0 where
  alertmanager : Poller
  github : Poller
  prowler : Poller

-- what the sources keep from round to round
pub record Kept : Type 0 where
  pub prowler_state : ProwlerState
  pub credentials : Credentials
  pub token : KeptToken

-- `pending` are the calls of the store that are left of each poller's round
pub record System : Type 0 where
  pub store : Store
  pub pending : Poller → List Call
  pub kept : Kept

abbrev pub started : System
started = record {
  store = new_store;
  pending = λ w. [];
  kept = record { prowler_state = new_prowler; credentials = no_credentials; token = no_token };
}

-- What a round meets: the network and the files, the time where the source reads it, and the
-- readings of the clock for its calls of `store.set`.
pub data Meeting (Key : Type 0) : Type 0 where
  alertmanager_meets : Web → (Bytes → Result Bytes (List AmAlert)) → (ℕ → ℕ) → Meeting Key
  github_meets :
      Web → (Bytes → Result Bytes (List GhAlert)) → AppWorld Key → ℕ → (ℕ → ℕ) → Meeting Key
  prowler_meets : S3World → StsWorld → ℕ → (ℕ → ℕ) → Meeting Key

abbrev pub poller_of : {Key : Type 0} → Meeting Key → Poller
poller_of (alertmanager_meets web decode clock) = alertmanager
poller_of (github_meets web decode world now clock) = github
poller_of (prowler_meets world sts now clock) = prowler

-- the calls that a round makes, and what it leaves
pub record Collection : Type 0 where
  pub calls : List Call
  pub kept : Kept

-- `g.auth.token`
pub record Given : Type 0 where
  pub returned : Result Bytes Bytes
  pub token : KeptToken

unfoldable pub auth_token : {Key : Type 0} → AppWorld Key → ℕ → Auth → KeptToken → Given
auth_token world now (file_auth path) kept = record {
  returned = file_token world.read_file path;
  token = kept;
}
auth_token world now (app_auth g) kept =
    let issued = app_token world g now kept in
    record { returned = issued.returned; token = issued.kept }

abbrev pub github_round :
    GithubPlan → (ℕ → ℕ) → Kept → KeptToken → Option Collecting → Option Collection
github_round p clock kept token none = none
github_round p clock kept token (some collected) =
    some (record {
      calls = poll_calls p.tools collected [] clock;
      kept = record kept { token = token };
    })

abbrev pub prowler_round : (ℕ → ℕ) → Kept → Credentials → Option Round → Option Collection
prowler_round clock kept cached none = none
prowler_round clock kept cached (some r) = some (record {
  calls = poll_calls prowler_names r.returned (data_times r.after) clock;
  kept = record kept { prowler_state = r.after; credentials = cached };
})

module _ (unicode_lower : Bytes → Bytes) (fuel : ℕ) where
  abbrev pub alertmanager_collection :
      Web
      → (Bytes → Result Bytes (List AmAlert))
      → (ℕ → ℕ)
      → Kept
      → Option AlertmanagerPlan
      → Option Collection
  alertmanager_collection web decode clock kept none = none
  alertmanager_collection web decode clock kept (some p) = some (record {
    calls = poll_calls p.sources (am_collect unicode_lower web decode p.base p.sources) [] clock;
    kept = kept;
  })

  abbrev pub github_collection :
      {Key : Type 0}
      → Web
      → (Bytes → Result Bytes (List GhAlert))
      → AppWorld Key
      → ℕ
      → (ℕ → ℕ)
      → Kept
      → Option GithubPlan
      → Option Collection
  github_collection web decode world now clock kept none = none
  github_collection web decode world now clock kept (some p) =
      let given = auth_token world now p.auth kept.token in
      github_round p clock kept given.token
        (gh_collect unicode_lower web decode p.tools fuel given.returned p.api p.repos)

  abbrev pub prowler_collection :
      S3World → StsWorld → ℕ → (ℕ → ℕ) → Kept → Option ProwlerPlan → Option Collection
  prowler_collection world sts now clock kept none = none
  prowler_collection world sts now clock kept (some p) =
      let fetched = get sts p.creds now kept.credentials in
      prowler_round clock kept fetched.cached
        (prowler_collect unicode_lower world p.source fuel fetched.returned kept.prowler_state)

module _ {Key : Type 0} (unicode_lower : Bytes → Bytes) (fuel : ℕ) (plan : Plan) where
  -- Nothing if there is no such poller, or the fuel does not suffice for the pages that it meets.
  unfoldable pub collection : Meeting Key → Kept → Option Collection
  collection (alertmanager_meets web decode clock) kept =
      alertmanager_collection unicode_lower fuel web decode clock kept plan.alertmanager
  collection (github_meets web decode world now clock) kept =
      github_collection unicode_lower fuel web decode world now clock kept plan.github
  collection (prowler_meets world sts now clock) kept =
      prowler_collection unicode_lower fuel world sts now clock kept plan.prowler

abbrev pub poller_eq : Poller → Poller → Bool
poller_eq alertmanager alertmanager = true
poller_eq github github = true
poller_eq prowler prowler = true
poller_eq alertmanager github = false
poller_eq alertmanager prowler = false
poller_eq github alertmanager = false
poller_eq github prowler = false
poller_eq prowler alertmanager = false
poller_eq prowler github = false

abbrev pub replaced : Poller → List Call → (Poller → List Call) → Poller → List Call
replaced w cs pending v = if poller_eq v w then cs else pending v

pub data Event (Key : Type 0) : Type 0 where
  begins : Meeting Key → Event Key
  calls_store : Poller → Event Key

-- A poller begins a round when the calls of its last one are made.
abbrev pub begun : Poller → System → List Call → Option Collection → Option System
begun w s (c ∷ cs) o = none
begun w s [] none = none
begun w s [] (some col) =
    some (record { store = s.store; pending = replaced w col.calls s.pending; kept = col.kept })

abbrev pub called : Poller → System → List Call → Option System
called w s [] = none
called w s (c ∷ cs) =
    some (record { store = apply c s.store; pending = replaced w cs s.pending; kept = s.kept })

module _ {Key : Type 0} (unicode_lower : Bytes → Bytes) (fuel : ℕ) (plan : Plan) where
  unfoldable pub advance : Event Key → System → Option System
  advance (begins m) s =
      begun (poller_of m) s (s.pending (poller_of m)) (collection unicode_lower fuel plan m s.kept)
  advance (calls_store w) s = called w s (s.pending w)

  -- the events one after the other, if each can happen
  abbrev pub run_events : List (Event Key) → System → Option System
  run_events [] s = some s
  run_events (e ∷ es) s = elim (advance e s) [ none ↦ none | some r ↦ run_events es r ]

  -- the states that the process can be in, with what happened until then, the last first
  pub data Reach : List (Event Key) → System → Type 0 where
    at_start : (s : System) → s ≡ started → Reach [] s
    advanced :
        (es : List (Event Key)) (e : Event Key) (s r : System)
        → Reach es s
        → advance e s ≡ some r
        → Reach (e ∷ es) r
