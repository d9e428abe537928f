-- ===== src/Exporter/System/Steps.antt =====
-- What a step of the process of images/findings-exporter/main.go does, by its kind.
use nineteenseventytwo_platf.Prelude.{
  ℕ, ◌≡◌, refl, ap, sym, ◌∙◌, true, false, List, [], ◌∷◌, Bytes, Option, none, some, some_unique,
  nat_eq, list_eq, ◌==◌, contains, lookup, Bool-cases, inl, inr, subst,
}
use nineteenseventytwo_platf.Exporter.Start.{Plan}
use nineteenseventytwo_platf.Exporter.Store.History.{
  Call, source_of, apply, after_call, own_calls, replay, lookup-apply,
}
use nineteenseventytwo_platf.Exporter.System.{
  Poller, poller_eq, replaced, System, Meeting, poller_of, Collection, collection, Event, begins,
  calls_store, begun, called, advance, run_events, Reach, advanced,
}
use nineteenseventytwo_platf.Exporter.System.Names.{
  names_of, names_apart, MakesOwn, collection-MakesOwn,
}
use nineteenseventytwo_platf.Exporter.System.Settled.{
  IsOwned, settle, settled, settle-own, settle_before, settle-same, replaced_same, poller_eq_same,
}

-- the state when the next call of a poller is made, and others are left
abbrev pub call_made : Poller → Call → List Call → System → System
call_made w c cs s = record {
  store = apply c s.store;
  pending = replaced w cs s.pending;
  kept = s.kept;
}

-- the state when a round is begun
abbrev pub round_begun : Poller → Collection → System → System
round_begun w col s = record {
  store = s.store;
  pending = replaced w col.calls s.pending;
  kept = col.kept;
}

called_inv :
    (w : Poller) (s r : System) (left : List Call)
    → called w s left ≡ some r
    → (c : Call) × (cs : List Call) × (left ≡ c ∷ cs) × (r ≡ call_made w c cs s)
called_inv w s r [] h = cc
called_inv w s r (c ∷ cs) h = (c, cs, refl, cc)

begun_inv :
    (w : Poller) (s r : System) (left : List Call) (o : Option Collection)
    → begun w s left o ≡ some r
    → (col : Collection) × (left ≡ []) × (o ≡ some col) × (r ≡ round_begun w col s)
begun_inv w s r (c ∷ cs) o h = cc
begun_inv w s r [] none h = cc
begun_inv w s r [] (some col) h = (col, refl, refl, cc)

module _ (Key : Type 0) (unicode_lower : Bytes → Bytes) (fuel : ℕ) (plan : Plan) where
  -- A call of the store is the next one that is left of its poller's round.
  pub calls_store_inv :
      (w : Poller) (s r : System)
      → advance {Key = Key} unicode_lower fuel plan (calls_store w) s ≡ some r
      → (c : Call) × (cs : List Call) × (s.pending w ≡ c ∷ cs) × (r ≡ call_made w c cs s)
  unfolding advance
  calls_store_inv w s r h = called_inv w s r (s.pending w) h

  -- A round begins when nothing is left of the last one.
  pub begins_inv :
      (m : Meeting Key) (s r : System)
      → advance unicode_lower fuel plan (begins m) s ≡ some r
      → (col : Collection) × (s.pending (poller_of m) ≡ [])
        × (collection unicode_lower fuel plan m s.kept ≡ some col)
        × (r ≡ round_begun (poller_of m) col s)
  unfolding advance
  begins_inv m s r h =
      begun_inv (poller_of m) s r (s.pending (poller_of m))
        (collection unicode_lower fuel plan m s.kept) h

  pub owned_collection :
      (m : Meeting Key) (s : System) (col : Collection)
      → collection unicode_lower fuel plan m s.kept ≡ some col
      → (k : Bytes) → contains k (names_of plan (poller_of m)) ≡ false
      → own_calls k col.calls ≡ []
  owned_collection m s col h k =
      subst (MakesOwn k (names_of plan (poller_of m))) h
        (collection-MakesOwn k unicode_lower fuel plan m s.kept)

  -- the events of a run, after those before it, the last first
  abbrev pub after : List (Event Key) → List (Event Key) → List (Event Key)
  after [] before = before
  after (e ∷ es) before = after es (e ∷ before)

  -- A run leads to a state that can be reached.
  pub run-Reach :
      (es before : List (Event Key)) (s r : System)
      → Reach unicode_lower fuel plan before s
      → run_events unicode_lower fuel plan es s ≡ some r
      → Reach unicode_lower fuel plan (after es before) r
  run-Reach [] before s r reach h =
      subst (Reach unicode_lower fuel plan before) (some_unique s h) reach
  run-Reach (e ∷ es) before s r reach h =
      by_step (advance unicode_lower fuel plan e s)
        (λ t step. run-Reach es (e ∷ before) t r (advanced before e s t reach step)) refl h
    where
      by_step :
          (o : Option System)
          → ((t : System)
              → advance unicode_lower fuel plan e s ≡ some t
              → run_events unicode_lower fuel plan es t ≡ some r
              → Reach unicode_lower fuel plan (after es (e ∷ before)) r)
          → advance unicode_lower fuel plan e s ≡ o
          → elim o [ none ↦ none | some t ↦ run_events unicode_lower fuel plan es t ] ≡ some r
          → Reach unicode_lower fuel plan (after es (e ∷ before)) r
      by_step none next step k = cc
      by_step (some t) next step k = next t step k

pub IsOwned-replaced :
    (plan : Plan) (w : Poller) (cs : List Call) (pending : Poller → List Call)
    → IsOwned plan pending
    → ((k : Bytes) → contains k (names_of plan w) ≡ false → own_calls k cs ≡ [])
    → IsOwned plan (replaced w cs pending)
IsOwned-replaced plan w cs pending owned h v k absent = elim (Bool-cases (poller_eq v w)) [
  | inl same ↦
      rw same
        (h k (ap (λ u. contains k (names_of plan u)) (sym (poller_eq_same v w same)) ∙ absent))
  | inr other ↦ rw other (owned v k absent)
]

pub own_calls-rest :
    (k : Bytes) (c : Call) (cs : List Call)
    → own_calls k (c ∷ cs) ≡ []
    → ((k == source_of c) ≡ false) × (own_calls k cs ≡ [])
own_calls-rest k c cs h = elim (Bool-cases (k == source_of c)) [
  | inl same ↦ absurd (nonempty (own_calls k cs) (by_same same))
  | inr other ↦ (other, by_other other)
]
  where
    nonempty : (ds : List Call) → (c ∷ ds) ≡ [] → ⊥
    nonempty ds e = cc

    by_same : (k == source_of c) ≡ true → (c ∷ own_calls k cs) ≡ []
    by_same same = sym (rw same refl) ∙ h

    by_other : (k == source_of c) ≡ false → own_calls k cs ≡ []
    by_other other = sym (rw other refl) ∙ h

module _ (plan : Plan) (apart : names_apart plan ≡ true) (s : System)
    (owned : IsOwned plan s.pending) (k : Bytes) where
  module _ (w : Poller) (c : Call) (cs : List Call) (left : s.pending w ≡ c ∷ cs) where
    lookup-own :
        (k == source_of c) ≡ true → lookup k (apply c s.store) ≡ after_call c (lookup k s.store)
    lookup-own same = lookup-apply k c s.store ∙ rw same refl

    lookup-other : (k == source_of c) ≡ false → lookup k (apply c s.store) ≡ lookup k s.store
    lookup-other other = lookup-apply k c s.store ∙ rw other refl

    own_call :
        (k == source_of c) ≡ true
        → contains k (names_of plan w) ≡ true
        → settled k (call_made w c cs s) ≡ settled k s
    own_call same known =
        settle-own plan apart k w cs s.pending (lookup k (apply c s.store)) owned known
        ∙ ap (replay (own_calls k cs)) (lookup-own same)
        ∙ sym (
            settle_before plan apart k w s.pending (lookup k s.store) owned known
            ∙ ap (λ cs. replay (own_calls k cs) (lookup k s.store)) left
            ∙ rw same refl)

    other_call : (k == source_of c) ≡ false → settled k (call_made w c cs s) ≡ settled k s
    other_call other =
        ap (settle k (replaced w cs s.pending)) (lookup-other other)
        ∙ settle-same k (replaced w cs s.pending) s.pending (lookup k s.store)
            (replaced_same k w cs s.pending (sym (ap (own_calls k) left ∙ rw other refl)))

    -- A call of the store that was to come settles no source otherwise.
    pub settled-call_made : settled k (call_made w c cs s) ≡ settled k s
    settled-call_made = elim (Bool-cases (k == source_of c)) [
      | inr other ↦ other_call other
      | inl same ↦ elim (Bool-cases (contains k (names_of plan w))) [
        | inl known ↦ own_call same known
        | inr absent ↦
            let (other, rest) =
              own_calls-rest k c cs (ap (own_calls k) (sym left) ∙ owned w k absent) in
            other_call other
      ]
    ]

  module _ (w : Poller) (col : Collection) (idle : s.pending w ≡ [])
      (makes : contains k (names_of plan w) ≡ false → own_calls k col.calls ≡ []) where
    -- A round that begins settles a source as its calls do, one after the other.
    pub settled-round_begun :
        settled k (round_begun w col s) ≡ replay (own_calls k col.calls) (settled k s)
    settled-round_begun = elim (Bool-cases (contains k (names_of plan w))) [
      | inl known ↦
          settle-own plan apart k w col.calls s.pending (lookup k s.store) owned known
          ∙ ap (replay (own_calls k col.calls)) (
              sym (
                settle_before plan apart k w s.pending (lookup k s.store) owned known
                ∙ ap (λ cs. replay (own_calls k cs) (lookup k s.store)) idle))
      | inr absent ↦
          settle-same k (replaced w col.calls s.pending) s.pending (lookup k s.store)
            (replaced_same k w col.calls s.pending (makes absent ∙ sym (ap (own_calls k) idle)))
          ∙ ap (λ own. replay own (settled k s)) (sym (makes absent))
    ]
