-- ===== src/Exporter/Poll/Rounds.antt =====
-- What one round of `poll` (images/findings-exporter/main.go) makes of the state of each source.
use nineteenseventytwo_platf.Prelude.{
  ℕ, suc, ◌≡◌, refl, ap, ap₂, subst, sym, ◌∙◌, true, false, List, [], ◌∷◌, ◌++◌, Bytes, Option,
  some, arith, ◌==◌, nat_eq, list_eq, list_same_iff, contains, Distinct, keep-append, Assoc, keys,
  lookup, lookup_or, lookup_or-cons, ok, err, Bool-cases, inl, inr,
}
use nineteenseventytwo_platf.Exporter.Store.{
  Finding, SourceState, Store, prev_data_time, state_or_zero,
}
use nineteenseventytwo_platf.Exporter.Store.History.{
  Call, source_of, after_call, own_calls, replay, apply_all, lookup-apply_all,
}
use nineteenseventytwo_platf.Exporter.Poll.{
  Collected, set_calls, fail_calls, data_time_calls, poll_calls, poll_round,
}

-- a source that failed: its last good findings and times stay, and it is down
abbrev pub downed : Option SourceState → SourceState
downed o = record (state_or_zero o) { up = false }

pub replay-append :
    (cs ds : List Call) (o : Option SourceState) → replay (cs ++ ds) o ≡ replay ds (replay cs o)
replay-append [] ds o = refl
replay-append (c ∷ cs) ds o = replay-append cs ds (after_call c o)

fail_calls-absent :
    (k : Bytes) (names : List Bytes)
    → contains k names ≡ false
    → own_calls k (fail_calls names) ≡ []
unfolding fail_calls
fail_calls-absent k [] h = refl
fail_calls-absent k (n ∷ names) h = ground (arith, fail_calls-absent k names)

pub fail_calls-down :
    (k : Bytes) (names : List Bytes) (o : Option SourceState)
    → contains k names ≡ true
    → replay (own_calls k (fail_calls names)) o ≡ some (downed o)
unfolding fail_calls
fail_calls-down k [] o h = cc
fail_calls-down k (n ∷ names) o h = elim (Bool-cases (k == n)) [
  | inl e ↦ rw e (elim (Bool-cases (contains k names)) [
    | inl again ↦ fail_calls-down k names (some (downed o)) again
    | inr last ↦ rw (fail_calls-absent k names last)
  ])
  | inr e ↦ rw e (fail_calls-down k names o (ground arith))
]

-- a source that answered
abbrev pub refreshed : List Finding → ℕ → ℕ → SourceState
refreshed fs success time = record {
  findings = fs;
  up = true;
  last_success = success;
  data_time = time;
}

module _ (clock : ℕ → ℕ) (results : Assoc Bytes (List Finding)) (k : Bytes) where
  set_calls-absent :
      (i : ℕ) (names : List Bytes)
      → contains k names ≡ false
      → own_calls k (set_calls clock i names results) ≡ []
  unfolding set_calls
  set_calls-absent i [] h = refl
  set_calls-absent i (n ∷ names) h = ground (arith, set_calls-absent (suc i) names)

  set_calls-up :
      (i : ℕ) (names : List Bytes) (o : Option SourceState)
      → contains k names ≡ true
      → (j : ℕ) × (replay (own_calls k (set_calls clock i names results)) o
          ≡ some (refreshed (lookup_or [] k results) (clock j) (prev_data_time o)))
  unfolding set_calls
  set_calls-up i [] o h = cc
  set_calls-up i (n ∷ names) o h = elim (Bool-cases (k == n)) [
    | inl e ↦
        let same : n ≡ k = sym ((list_same_iff k n).0 e) in
        rw e (
          rw same (elim (Bool-cases (contains k names)) [
            | inl again ↦ set_calls-up (suc i) names _ again
            | inr last ↦ (i, rw (set_calls-absent (suc i) names last))
          ]))
    | inr e ↦ rw e (set_calls-up (suc i) names o (ground arith))
  ]

data_time_calls-absent :
    (k : Bytes) (times : Assoc Bytes ℕ)
    → contains k (keys times) ≡ false
    → own_calls k (data_time_calls times) ≡ []
unfolding data_time_calls
data_time_calls-absent k [] h = refl
data_time_calls-absent k ((n, t) ∷ times) h = ground (arith, data_time_calls-absent k times)

data_time_calls-time :
    (k : Bytes) (times : Assoc Bytes ℕ) (st : SourceState)
    → Distinct (keys times)
    → replay (own_calls k (data_time_calls times)) (some st)
      ≡ some (record st { data_time = lookup_or st.data_time k times })
unfolding data_time_calls
data_time_calls-time k [] st d = unfold lookup in refl
data_time_calls-time k ((n, t) ∷ times) st d =
    rw (lookup_or-cons st.data_time k n t times) (elim (Bool-cases (k == n)) [
      | inl e ↦
          let same : n ≡ k = sym ((list_same_iff k n).0 e) in
          rw (
            e,
            data_time_calls-absent k times (subst (λ x. contains x (keys times) ≡ false) same d.0),
          )
      | inr e ↦ rw e (data_time_calls-time k times st d.1)
    ])

-- The states that one round of a source leaves.
pub record RoundDone (names : List Bytes) (collected : Collected) (times : Assoc Bytes ℕ)
    (clock : ℕ → ℕ) (s : Store) (k : Bytes) : Type 0 where
  pub failed :
      (e : Bytes)
      → collected ≡ err e
      → contains k names ≡ true
      → lookup k (poll_round names collected times clock s) ≡ some (downed (lookup k s))
  pub answered :
      (results : Assoc Bytes (List Finding))
      → collected ≡ ok results
      → contains k names ≡ true
      → (j : ℕ) × (lookup k (poll_round names collected times clock s)
          ≡ some (
              refreshed
                (lookup_or [] k results)
                (clock j)
                (lookup_or (prev_data_time (lookup k s)) k times)))
  pub others :
      contains k names ≡ false
      → contains k (keys times) ≡ false
      → lookup k (poll_round names collected times clock s) ≡ lookup k s

round_calls :
    (names : List Bytes) (collected : Collected) (times : Assoc Bytes ℕ) (clock : ℕ → ℕ) (s : Store)
    (k : Bytes)
    → lookup k (poll_round names collected times clock s)
      ≡ replay (own_calls k (poll_calls names collected times clock)) (lookup k s)
round_calls names collected times clock s k =
    unfold_round ∙ lookup-apply_all k (poll_calls names collected times clock) s
  where
    unfold_round :
        lookup k (poll_round names collected times clock s)
        ≡ lookup k (apply_all (poll_calls names collected times clock) s)
    unfold_round = unfold poll_round in refl

ok_calls :
    (names : List Bytes) (results : Assoc Bytes (List Finding)) (times : Assoc Bytes ℕ)
    (clock : ℕ → ℕ) (k : Bytes)
    → own_calls k (poll_calls names (ok results) times clock)
      ≡ own_calls k (set_calls clock 0 names results) ++ own_calls k (data_time_calls times)
ok_calls names results times clock k =
    unfold_calls
    ∙ keep-append (λ c. k == source_of c) (set_calls clock 0 names results) (data_time_calls times)
  where
    unfold_calls :
        own_calls k (poll_calls names (ok results) times clock)
        ≡ own_calls k (set_calls clock 0 names results ++ data_time_calls times)
    unfold_calls = unfold poll_calls in refl

pub err_calls :
    (names : List Bytes) (e : Bytes) (times : Assoc Bytes ℕ) (clock : ℕ → ℕ)
    → poll_calls names (err e) times clock ≡ fail_calls names
unfolding poll_calls
err_calls names e times clock = refl

pub round-answered :
    (names : List Bytes) (results : Assoc Bytes (List Finding)) (times : Assoc Bytes ℕ)
    (clock : ℕ → ℕ) (k : Bytes) (o : Option SourceState)
    → Distinct (keys times)
    → contains k names ≡ true
    → (j : ℕ) × (replay (own_calls k (poll_calls names (ok results) times clock)) o
        ≡ some
            (refreshed (lookup_or [] k results) (clock j) (lookup_or (prev_data_time o) k times)))
round-answered names results times clock k o d h =
    let (j, e) = set_calls-up clock results k 0 names o h in
    (
      j,
      ap (λ cs. replay cs o) (ok_calls names results times clock k)
          ∙ replay-append (own_calls k (set_calls clock 0 names results))
              (own_calls k (data_time_calls times)) o
          ∙ ap (replay (own_calls k (data_time_calls times))) e
          ∙ data_time_calls-time k times _ d,
    )

-- A round makes no calls for what is neither a name of its source nor has a data time.
pub poll_calls-absent :
    (names : List Bytes) (collected : Collected) (times : Assoc Bytes ℕ) (clock : ℕ → ℕ) (k : Bytes)
    → contains k names ≡ false
    → contains k (keys times) ≡ false
    → own_calls k (poll_calls names collected times clock) ≡ []
poll_calls-absent names (ok results) times clock k h t =
    ok_calls names results times clock k
    ∙ ap₂ (λ x y. x ++ y) (set_calls-absent clock results k 0 names h)
        (data_time_calls-absent k times t)
poll_calls-absent names (err e) times clock k h t =
    ap (own_calls k) (err_calls names e times clock) ∙ fail_calls-absent k names h

-- One round of a source that gives no data time twice. If it failed, each of its names keeps its
-- last findings and times and is down. If it answered, each of its names is up with the findings
-- that it gave for it (none, if it gave none), a reading of the clock, and the data time that it
-- reports, or the one before if it reports none. A name that is not the source's, and for which it
-- gives no data time, stays as it was.
pub poll_round-RoundDone :
    (names : List Bytes) (collected : Collected) (times : Assoc Bytes ℕ) (clock : ℕ → ℕ) (s : Store)
    (k : Bytes)
    → Distinct (keys times)
    → RoundDone names collected times clock s k
poll_round-RoundDone names collected times clock s k d = record {
  failed = λ e h c.
      round_calls names collected times clock s k
      ∙ ap (λ x. replay (own_calls k (poll_calls names x times clock)) (lookup k s)) h
      ∙ ap (λ cs. replay (own_calls k cs) (lookup k s)) (err_calls names e times clock)
      ∙ fail_calls-down k names (lookup k s) c;
  answered = λ results h c.
      let (j, e) = round-answered names results times clock k (lookup k s) d c in
      (
        j,
        round_calls names collected times clock s k
            ∙ ap (λ x. replay (own_calls k (poll_calls names x times clock)) (lookup k s)) h
            ∙ e,
      );
  others = λ h t.
      round_calls names collected times clock s k
      ∙ ap (λ cs. replay cs (lookup k s)) (poll_calls-absent names collected times clock k h t);
}
