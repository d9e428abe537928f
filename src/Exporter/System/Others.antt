-- ===== src/Exporter/System/Others.antt =====
-- What a round of one poller of images/findings-exporter/main.go leaves of what another source keeps.
use nineteenseventytwo_platf.Prelude.{
  ℕ, ◌≡◌, ap, sym, List, Bytes, Option, none, some, some_unique, Result,
}
use nineteenseventytwo_platf.Exporter.Alertmanager.{AmAlert}
use nineteenseventytwo_platf.Exporter.Aws.Sign.{Credentials}
use nineteenseventytwo_platf.Exporter.Aws.WebIdentity.{StsWorld, get}
use nineteenseventytwo_platf.Exporter.Fetch.{Web}
use nineteenseventytwo_platf.Exporter.Github.{GhAlert, Collecting, gh_collect}
use nineteenseventytwo_platf.Exporter.GithubApp.{AppWorld, KeptToken}
use nineteenseventytwo_platf.Exporter.Prowler.Objects.{S3World}
use nineteenseventytwo_platf.Exporter.Prowler.{Round, prowler_collect}
use nineteenseventytwo_platf.Exporter.Start.{AlertmanagerPlan, GithubPlan, ProwlerPlan}
use nineteenseventytwo_platf.Exporter.System.{
  Kept, Collection, auth_token, github_round, prowler_round, alertmanager_collection,
  github_collection, prowler_collection,
}

github_round-kept :
    (p : GithubPlan) (clock : ℕ → ℕ) (kept : Kept) (token : KeptToken) (o : Option Collecting)
    (col : Collection)
    → github_round p clock kept token o ≡ some col
    → kept.prowler_state ≡ col.kept.prowler_state
github_round-kept p clock kept token none col h = cc
github_round-kept p clock kept token (some collected) col h =
    ap (λ (c : Collection). c.kept.prowler_state) (some_unique _ h)

pub alertmanager_collection-kept :
    (unicode_lower : Bytes → Bytes) (fuel : ℕ) (web : Web)
    (decode : Bytes → Result Bytes (List AmAlert)) (clock : ℕ → ℕ) (kept : Kept)
    (o : Option AlertmanagerPlan) (col : Collection)
    → alertmanager_collection unicode_lower fuel web decode clock kept o ≡ some col
    → kept.prowler_state ≡ col.kept.prowler_state
alertmanager_collection-kept unicode_lower fuel web decode clock kept none col h = cc
alertmanager_collection-kept unicode_lower fuel web decode clock kept (some p) col h =
    ap (λ (c : Collection). c.kept.prowler_state) (some_unique _ h)

pub github_collection-kept :
    {Key : Type 0} (unicode_lower : Bytes → Bytes) (fuel : ℕ) (web : Web)
    (decode : Bytes → Result Bytes (List GhAlert)) (world : AppWorld Key) (now : ℕ) (clock : ℕ → ℕ)
    (kept : Kept) (o : Option GithubPlan) (col : Collection)
    → github_collection unicode_lower fuel web decode world now clock kept o ≡ some col
    → kept.prowler_state ≡ col.kept.prowler_state
github_collection-kept unicode_lower fuel web decode world now clock kept none col h = cc
github_collection-kept unicode_lower fuel web decode world now clock kept (some p) col h =
    let given = auth_token world now p.auth kept.token in
    github_round-kept p clock kept given.token
      (gh_collect unicode_lower web decode p.tools fuel given.returned p.api p.repos) col h

pub alertmanager_collection-token :
    (unicode_lower : Bytes → Bytes) (fuel : ℕ) (web : Web)
    (decode : Bytes → Result Bytes (List AmAlert)) (clock : ℕ → ℕ) (kept : Kept)
    (o : Option AlertmanagerPlan) (col : Collection)
    → alertmanager_collection unicode_lower fuel web decode clock kept o ≡ some col
    → col.kept.token ≡ kept.token
alertmanager_collection-token unicode_lower fuel web decode clock kept none col h = cc
alertmanager_collection-token unicode_lower fuel web decode clock kept (some p) col h =
    ap (λ (c : Collection). c.kept.token) (sym (some_unique _ h))

prowler_round-token :
    (clock : ℕ → ℕ) (kept : Kept) (cached : Credentials) (o : Option Round) (col : Collection)
    → prowler_round clock kept cached o ≡ some col
    → col.kept.token ≡ kept.token
prowler_round-token clock kept cached none col h = cc
prowler_round-token clock kept cached (some r) col h =
    ap (λ (c : Collection). c.kept.token) (sym (some_unique _ h))

pub prowler_collection-token :
    (unicode_lower : Bytes → Bytes) (fuel : ℕ) (world : S3World) (sts : StsWorld) (now : ℕ)
    (clock : ℕ → ℕ) (kept : Kept) (o : Option ProwlerPlan) (col : Collection)
    → prowler_collection unicode_lower fuel world sts now clock kept o ≡ some col
    → col.kept.token ≡ kept.token
prowler_collection-token unicode_lower fuel world sts now clock kept none col h = cc
prowler_collection-token unicode_lower fuel world sts now clock kept (some p) col h =
    let fetched = get sts p.creds now kept.credentials in
    prowler_round-token clock kept fetched.cached
      (prowler_collect unicode_lower world p.source fuel fetched.returned kept.prowler_state) col h
