-- ===== src/Exporter/System/Settled.antt =====
-- The state that a source of images/findings-exporter/main.go has once the calls that are left of the
-- rounds are made, and what the steps of the process make of it.
use nineteenseventytwo_platf.Prelude.{
  ◌≡◌, refl, ap, sym, ◌∙◌, true, false, List, [], Bytes, Option, nat_eq, list_eq, contains, lookup,
  Bool-cases, inl, inr,
}
use nineteenseventytwo_platf.Exporter.Start.{Plan}
use nineteenseventytwo_platf.Exporter.Store.{SourceState}
use nineteenseventytwo_platf.Exporter.Store.History.{Call, own_calls, replay}
use nineteenseventytwo_platf.Exporter.System.{
  Poller, alertmanager, github, prowler, poller_eq, replaced, System,
}
use nineteenseventytwo_platf.Exporter.System.Names.{names_of, names_apart, names_of-apart}

-- the calls that are left for one source, those of one poller after those of another
abbrev pub settle : Bytes → (Poller → List Call) → Option SourceState → Option SourceState
settle k pending o =
    replay (own_calls k (pending prowler))
      (replay (own_calls k (pending github)) (replay (own_calls k (pending alertmanager)) o))

abbrev pub settled : Bytes → System → Option SourceState
settled k s = settle k s.pending (lookup k s.store)

-- The calls that are left of a poller are for its own names.
abbrev pub IsOwned : Plan → (Poller → List Call) → Type 0
IsOwned plan pending =
    (w : Poller) (k : Bytes) → contains k (names_of plan w) ≡ false → own_calls k (pending w) ≡ []

pub poller_eq_refl : (w : Poller) → poller_eq w w ≡ true
poller_eq_refl alertmanager = refl
poller_eq_refl github = refl
poller_eq_refl prowler = refl

pub poller_eq_same : (v w : Poller) → poller_eq v w ≡ true → v ≡ w
poller_eq_same alertmanager alertmanager h = refl
poller_eq_same alertmanager github h = cc
poller_eq_same alertmanager prowler h = cc
poller_eq_same github alertmanager h = cc
poller_eq_same github github h = refl
poller_eq_same github prowler h = cc
poller_eq_same prowler alertmanager h = cc
poller_eq_same prowler github h = cc
poller_eq_same prowler prowler h = refl

module _ (k : Bytes) where
  -- If only one poller has calls left for a source, those decide.
  settle-one :
      (w : Poller) (pending : Poller → List Call) (o : Option SourceState)
      → ((v : Poller) → poller_eq v w ≡ false → own_calls k (pending v) ≡ [])
      → settle k pending o ≡ replay (own_calls k (pending w)) o
  settle-one alertmanager pending o h = rw (h github refl, h prowler refl) refl
  settle-one github pending o h = rw (h alertmanager refl, h prowler refl) refl
  settle-one prowler pending o h = rw (h alertmanager refl, h github refl) refl

  pub settle-same :
      (p q : Poller → List Call) (o : Option SourceState)
      → ((v : Poller) → own_calls k (p v) ≡ own_calls k (q v))
      → settle k p o ≡ settle k q o
  settle-same p q o h = rw (h alertmanager, h github, h prowler) refl

  module _ (w : Poller) (cs : List Call) (pending : Poller → List Call) where
    replaced_own : own_calls k (replaced w cs pending w) ≡ own_calls k cs
    replaced_own = rw (poller_eq_refl w) refl

    replaced_other :
        (v : Poller)
        → poller_eq v w ≡ false
        → own_calls k (replaced w cs pending v) ≡ own_calls k (pending v)
    replaced_other v h = rw h refl

    pub replaced_same :
        own_calls k cs ≡ own_calls k (pending w)
        → (v : Poller) → own_calls k (replaced w cs pending v) ≡ own_calls k (pending v)
    replaced_same h v = elim (Bool-cases (poller_eq v w)) [
      | inl same ↦ rw same (h ∙ ap (λ u. own_calls k (pending u)) (sym (poller_eq_same v w same)))
      | inr other ↦ rw other refl
    ]

module _ (plan : Plan) (apart : names_apart plan ≡ true) where
  others-absent :
      (k : Bytes) (w : Poller) (pending : Poller → List Call)
      → IsOwned plan pending
      → contains k (names_of plan w) ≡ true
      → (v : Poller) → poller_eq v w ≡ false
      → own_calls k (pending v) ≡ []
  others-absent k w pending owned known v other =
      owned v k (names_of-apart plan k v w apart other known)

  others_left :
      (k : Bytes) (w : Poller) (cs : List Call) (pending : Poller → List Call)
      → IsOwned plan pending
      → contains k (names_of plan w) ≡ true
      → (v : Poller) → poller_eq v w ≡ false
      → own_calls k (replaced w cs pending v) ≡ []
  others_left k w cs pending owned known v other =
      replaced_other k w cs pending v other ∙ others-absent k w pending owned known v other

  -- Whatever replaces the calls of a poller, its own names settle by them alone.
  pub settle-own :
      (k : Bytes) (w : Poller) (cs : List Call) (pending : Poller → List Call)
      (o : Option SourceState)
      → IsOwned plan pending
      → contains k (names_of plan w) ≡ true
      → settle k (replaced w cs pending) o ≡ replay (own_calls k cs) o
  settle-own k w cs pending o owned known =
      settle-one k w (replaced w cs pending) o (others_left k w cs pending owned known)
      ∙ ap (λ own. replay own o) (replaced_own k w cs pending)

  pub settle_before :
      (k : Bytes) (w : Poller) (pending : Poller → List Call) (o : Option SourceState)
      → IsOwned plan pending
      → contains k (names_of plan w) ≡ true
      → settle k pending o ≡ replay (own_calls k (pending w)) o
  settle_before k w pending o owned known =
      settle-one k w pending o (others-absent k w pending owned known)
