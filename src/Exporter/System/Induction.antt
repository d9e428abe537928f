-- ===== src/Exporter/System/Induction.antt =====
-- Induction over what happened to the process of images/findings-exporter/main.go, for the entry of
-- one source: no other poller's calls have to be considered.
use nineteenseventytwo_platf.Prelude.{
  ℕ, ◌≡◌, refl, sym, subst, ◌∙◌, true, List, [], ◌∷◌, Bytes, Option, none, some, lookup, contains,
  nat_eq, list_eq,
}
use nineteenseventytwo_platf.Exporter.Start.{Plan}
use nineteenseventytwo_platf.Exporter.Store.{SourceState}
use nineteenseventytwo_platf.Exporter.Store.History.{own_calls, replay, lookup-apply_all}
use nineteenseventytwo_platf.Exporter.System.{
  Poller, Kept, System, started, Meeting, Collection, collection, Event, begins, calls_store, Reach,
}
use nineteenseventytwo_platf.Exporter.System.Atomic.{
  Atomic, at_once, whole_step, atomic_after, Reach-Follows, settled-idle,
}
use nineteenseventytwo_platf.Exporter.System.Names.{names_of, names_apart}

module _ (Key : Type 0) (unicode_lower : Bytes → Bytes) (fuel : ℕ) (plan : Plan) (k : Bytes)
    (P : List (Event Key) → Option SourceState → Kept → Type 0) where
  -- what holds of the entry at the start
  abbrev pub Starts : Type 0
  Starts = P [] none started.kept

  -- and is kept by a round, made at once, with what happened before it
  abbrev pub Rounds : Type 0
  Rounds =
      (es : List (Event Key)) (m : Meeting Key) (col : Collection) (kept : Kept)
      (o : Option SourceState)
      → collection unicode_lower fuel plan m kept ≡ some col
      → P es o kept
      → P (begins m ∷ es) (replay (own_calls k col.calls) o) col.kept

  -- and by the calls, which are no events of their own
  abbrev pub Calls : Type 0
  Calls =
      (es : List (Event Key)) (w : Poller) (kept : Kept) (o : Option SourceState)
      → P es o kept
      → P (calls_store w ∷ es) o kept

  module _ (starts : Starts) (rounds : Rounds) (calls : Calls) where
    abbrev HoldsIn : List (Event Key) → Option Atomic → Type 0
    HoldsIn es none = Unit
    HoldsIn es (some a) = P es (lookup k a.store) a.kept

    at_once-HoldsIn :
        (es : List (Event Key)) (m : Meeting Key) (a : Atomic) (o : Option Collection)
        → collection unicode_lower fuel plan m a.kept ≡ o
        → HoldsIn es (some a)
        → HoldsIn (begins m ∷ es) (at_once a.store o)
    at_once-HoldsIn es m a none made h = tt
    at_once-HoldsIn es m a (some col) made h =
        subst (λ entry. P (begins m ∷ es) entry col.kept)
          (sym (lookup-apply_all k col.calls a.store))
          (rounds es m col a.kept (lookup k a.store) made h)

    whole_step-HoldsIn :
        (es : List (Event Key)) (e : Event Key) (o : Option Atomic)
        → HoldsIn es o
        → HoldsIn (e ∷ es) (whole_step unicode_lower fuel plan e o)
    whole_step-HoldsIn es (begins m) none h = tt
    whole_step-HoldsIn es (calls_store w) none h = tt
    whole_step-HoldsIn es (calls_store w) (some a) h = calls es w a.kept (lookup k a.store) h
    whole_step-HoldsIn es (begins m) (some a) h =
        at_once-HoldsIn es m a (collection unicode_lower fuel plan m a.kept) refl h

    atomic_after-HoldsIn :
        (es : List (Event Key)) → HoldsIn es (atomic_after unicode_lower fuel plan es)
    atomic_after-HoldsIn [] = unfold lookup in starts
    atomic_after-HoldsIn (e ∷ es) =
        whole_step-HoldsIn es e (atomic_after unicode_lower fuel plan es) (atomic_after-HoldsIn es)

    -- Then it holds whenever the poller of the source is not in the midst of its calls.
    pub entry_induction :
        (es : List (Event Key)) (s : System) (w : Poller)
        → names_apart plan ≡ true
        → contains k (names_of plan w) ≡ true
        → Reach unicode_lower fuel plan es s
        → s.pending w ≡ []
        → P es (lookup k s.store) s.kept
    entry_induction es s w apart known reach idle =
        let (a, same, kept, follows) = Reach-Follows Key unicode_lower fuel plan apart es s reach in
        let held = subst (HoldsIn es) same (atomic_after-HoldsIn es) in
        let there = settled-idle Key unicode_lower fuel plan apart es s w k reach idle known in
        subst (λ entry. P es entry s.kept) (follows k ∙ there)
          (subst (P es (lookup k a.store)) kept held)
