-- ===== src/Exporter/System/Shown.antt =====
-- What the exposition of images/findings-exporter shows of a source: its findings, and whether it is up.
use nineteenseventytwo_platf.Prelude.{
  ℕ, ◌≡◌, refl, ap, ◌∙◌, Bool, true, false, List, [], Bytes, Option, none, some, ok, err, Assoc,
  lookup_or, contains, nat_eq, list_eq,
}
use nineteenseventytwo_platf.Exporter.Poll.{Collected, poll_calls}
use nineteenseventytwo_platf.Exporter.Poll.Rounds.{
  downed, err_calls, fail_calls-down, round-answered,
}
use nineteenseventytwo_platf.Exporter.Store.{Finding, SourceState}
use nineteenseventytwo_platf.Exporter.Store.History.{own_calls, replay}

abbrev pub Shown : Type 0
Shown = Option (List Finding × Bool)

abbrev pub shown : Option SourceState → Shown
shown none = none
shown (some st) = some (st.findings, st.up)

-- what was shown, but down
abbrev pub went_down : Shown → Shown
went_down none = some ([], false)
went_down (some (fs, up)) = some (fs, false)

shown-downed : (o : Option SourceState) → shown (some (downed o)) ≡ went_down (shown o)
shown-downed none = refl
shown-downed (some st) = refl

-- one round of a source that has no data times
module _ (names : List Bytes) (k : Bytes) (clock : ℕ → ℕ) (o : Option SourceState) where
  abbrev pub after_collect : Collected → Option SourceState
  after_collect collected = replay (own_calls k (poll_calls names collected [] clock)) o

  pub failed-shown :
      (e : Bytes) → contains k names ≡ true → shown (after_collect (err e)) ≡ went_down (shown o)
  failed-shown e known =
      ap (λ cs. shown (replay (own_calls k cs) o)) (err_calls names e [] clock)
      ∙ ap shown (fail_calls-down k names o known)
      ∙ shown-downed o

  pub answered-shown :
      (found : Assoc Bytes (List Finding))
      → contains k names ≡ true
      → shown (after_collect (ok found)) ≡ some (lookup_or [] k found, true)
  answered-shown found known =
      let (j, e) = round-answered names found [] clock k o tt known in ap shown e
