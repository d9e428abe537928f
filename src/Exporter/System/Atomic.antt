-- ===== src/Exporter/System/Atomic.antt =====
-- The pollers of images/findings-exporter/main.go against a process in which a round is one step: how
-- their calls of the store take turns is not seen.
use nineteenseventytwo_platf.Prelude.{
  ℕ, ◌≡◌, refl, ap, sym, ◌∙◌, true, List, [], ◌∷◌, Bytes, Option, none, some, keys, lookup,
  contains, Distinct, nat_eq, list_eq, subst, codes,
}
use nineteenseventytwo_platf.Exporter.Exposition.{Distinct-apply, Distinct-apply_all}
use nineteenseventytwo_platf.Exporter.Metrics.Iteration.{write-same}
use nineteenseventytwo_platf.Exporter.Metrics.{write}
use nineteenseventytwo_platf.Exporter.Start.{Plan, metrics_handler, lines_text}
use nineteenseventytwo_platf.Exporter.Store.{Store, new_store}
use nineteenseventytwo_platf.Exporter.Store.History.{
  Call, apply_all, own_calls, replay, lookup-apply_all,
}
use nineteenseventytwo_platf.Exporter.System.{
  Poller, alertmanager, github, prowler, Kept, System, started, Meeting, poller_of, Collection,
  collection, Event, begins, calls_store, Reach, at_start, advanced,
}
use nineteenseventytwo_platf.Exporter.System.Names.{names_of, names_apart}
use nineteenseventytwo_platf.Exporter.System.Settled.{IsOwned, settled, settle_before}
use nineteenseventytwo_platf.Exporter.System.Steps.{
  call_made, round_begun, calls_store_inv, begins_inv, owned_collection, IsOwned-replaced,
  own_calls-rest, settled-call_made, settled-round_begun,
}

pub record Atomic : Type 0 where
  pub store : Store
  pub kept : Kept

-- a round with all its calls
abbrev pub at_once : Store → Option Collection → Option Atomic
at_once s none = none
at_once s (some col) = some (record { store = apply_all col.calls s; kept = col.kept })

metrics_handler-same : (s r : Store) → write s ≡ write r → metrics_handler s ≡ metrics_handler r
unfolding metrics_handler
metrics_handler-same s r h =
    ap
      (λ lines. record {
        content_type = some (codes "text/plain; version=0.0.4");
        body = lines_text lines;
      })
      h

-- Every state is that of the other process, but for the calls that are left.
abbrev pub Follows : System → Option Atomic → Type 0
Follows s o =
    (a : Atomic) × (o ≡ some a) × (a.kept ≡ s.kept) × ((k : Bytes) → lookup k a.store ≡ settled k s)

abbrev IsSound : Plan → System → Option Atomic → Type 0
IsSound plan s o =
    IsOwned plan s.pending
    × Distinct (keys s.store)
    × (a : Atomic) × (o ≡ some a)
    × (a.kept ≡ s.kept)
    × Distinct (keys a.store)
    × ((k : Bytes) → lookup k a.store ≡ settled k s)

module _ {Key : Type 0} (unicode_lower : Bytes → Bytes) (fuel : ℕ) (plan : Plan) where
  abbrev pub whole_step : Event Key → Option Atomic → Option Atomic
  whole_step e none = none
  whole_step (begins m) (some a) = at_once a.store (collection unicode_lower fuel plan m a.kept)
  whole_step (calls_store w) (some a) = some a

  -- the process in which a round is made when it begins, the last event first
  abbrev pub atomic_after : List (Event Key) → Option Atomic
  atomic_after [] = some (record { store = new_store; kept = started.kept })
  atomic_after (e ∷ es) = whole_step e (atomic_after es)

module _ (Key : Type 0) (unicode_lower : Bytes → Bytes) (fuel : ℕ) (plan : Plan)
    (apart : names_apart plan ≡ true) where
  call_made-IsSound :
      (w : Poller) (c : Call) (cs : List Call) (s : System) (o : Option Atomic)
      → s.pending w ≡ c ∷ cs
      → IsSound plan s o
      → IsSound plan
          (call_made w c cs s)
          (whole_step {Key = Key} unicode_lower fuel plan (calls_store w) o)
  call_made-IsSound w c cs s o left (owned, d, a, same, kept, f, follows) = (
    IsOwned-replaced plan w cs s.pending owned
        (λ k absent. (own_calls-rest k c cs (ap (own_calls k) (sym left) ∙ owned w k absent)).1),
    Distinct-apply c s.store d,
    a,
    ap (whole_step {Key = Key} unicode_lower fuel plan (calls_store w)) same,
    kept,
    f,
    λ k. follows k ∙ sym (settled-call_made plan apart s owned k w c cs left),
  )

  round_begun-IsSound :
      (m : Meeting Key) (col : Collection) (s : System) (o : Option Atomic)
      → s.pending (poller_of m) ≡ []
      → collection unicode_lower fuel plan m s.kept ≡ some col
      → IsSound plan s o
      → IsSound plan
          (round_begun (poller_of m) col s)
          (whole_step unicode_lower fuel plan (begins m) o)
  round_begun-IsSound m col s o idle made (owned, d, a, same, kept, f, follows) =
      let own = owned_collection Key unicode_lower fuel plan m s col made in
      (
        IsOwned-replaced plan (poller_of m) col.calls s.pending owned own,
        d,
        record { store = apply_all col.calls a.store; kept = col.kept },
        ap (whole_step unicode_lower fuel plan (begins m)) same
            ∙ ap (λ k. at_once a.store (collection unicode_lower fuel plan m k)) kept
            ∙ ap (at_once a.store) made,
        refl,
        Distinct-apply_all col.calls a.store f,
        λ k.
            lookup-apply_all k col.calls a.store
            ∙ ap (replay (own_calls k col.calls)) (follows k)
            ∙ sym (settled-round_begun plan apart s owned k (poller_of m) col idle (own k)),
      )

  Reach-IsSound :
      (es : List (Event Key)) (s : System)
      → Reach unicode_lower fuel plan es s
      → IsSound plan s (atomic_after {Key = Key} unicode_lower fuel plan es)
  Reach-IsSound es s (at_start _ same) =
      subst (λ s. IsSound plan s (atomic_after {Key = Key} unicode_lower fuel plan [])) (sym same)
        (
          λ w k h. refl,
          tt,
          record { store = new_store; kept = started.kept },
          refl,
          refl,
          tt,
          λ k. unfold lookup in refl,
        )
  Reach-IsSound es r (advanced es' (calls_store w) s _ before step) =
      let (c, cs, left, same) = calls_store_inv Key unicode_lower fuel plan w s r step in
      subst
        (λ r.
          IsSound plan r (atomic_after {Key = Key} unicode_lower fuel plan (calls_store w ∷ es')))
        (sym same)
        (call_made-IsSound w c cs s (atomic_after {Key = Key} unicode_lower fuel plan es') left
          (Reach-IsSound es' s before))
  Reach-IsSound es r (advanced es' (begins m) s _ before step) =
      let (col, idle, made, same) = begins_inv Key unicode_lower fuel plan m s r step in
      subst
        (λ r. IsSound plan r (atomic_after {Key = Key} unicode_lower fuel plan (begins m ∷ es')))
        (sym same)
        (round_begun-IsSound m col s (atomic_after {Key = Key} unicode_lower fuel plan es') idle
          made (Reach-IsSound es' s before))

  -- If no two pollers report under one name, then in every state that the process can reach, however
  -- the calls of its pollers took turns, each source has, once the calls that are left are made, the
  -- state that it has in the process in which every round is one step; and the sources kept the same.
  pub Reach-Follows :
      (es : List (Event Key)) (s : System)
      → Reach unicode_lower fuel plan es s
      → Follows s (atomic_after unicode_lower fuel plan es)
  Reach-Follows es s reach =
      let (owned, d, a, same, kept, f, follows) = Reach-IsSound es s reach in
      (a, same, kept, follows)

  -- What settles for a name of a poller that makes no calls is there.
  pub settled-idle :
      (es : List (Event Key)) (s : System) (w : Poller) (k : Bytes)
      → Reach unicode_lower fuel plan es s
      → s.pending w ≡ []
      → contains k (names_of plan w) ≡ true
      → settled k s ≡ lookup k s.store
  settled-idle es s w k reach idle known =
      settle_before plan apart k w s.pending (lookup k s.store) (Reach-IsSound es s reach).0 known
      ∙ ap (λ cs. replay (own_calls k cs) (lookup k s.store)) idle

  -- If no two pollers report under one name, then whenever no poller is in the midst of its calls the
  -- metrics are, to the last byte, those of the process in which every round is one step.
  pub idle-exposition :
      (es : List (Event Key)) (s : System)
      → Reach unicode_lower fuel plan es s
      → ((w : Poller) → s.pending w ≡ [])
      → (a : Atomic) × (atomic_after unicode_lower fuel plan es ≡ some a)
        × (metrics_handler s.store ≡ metrics_handler a.store)
  idle-exposition es s reach idle =
      let (owned, d, a, same, kept, f, follows) = Reach-IsSound es s reach in
      (
        a,
        same,
        metrics_handler-same s.store a.store (
            write-same s.store a.store d f
              (λ k. sym (follows k ∙ rw (idle alertmanager, idle github, idle prowler) refl))),
      )
