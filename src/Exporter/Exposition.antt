-- ===== src/Exporter/Exposition.antt =====
-- The exposition of images/findings-exporter/metrics.go as a function of the calls of the store.
use nineteenseventytwo_platf.Prelude.{
  ℕ, ◌≡◌, ap, sym, ◌∙◌, List, [], ◌∷◌, Bytes, Option, none, some, keys, lookup, Distinct,
  Distinct-insert, nat_eq, list_eq,
}
use nineteenseventytwo_platf.Exporter.Store.{
  Store, new_store, set, set_data_time, with_data_time, fail,
}
use nineteenseventytwo_platf.Exporter.Store.History.{
  Call, set_call, data_time_call, fail_call, apply, apply_all, own_calls, replay, lookup-apply_all,
}
use nineteenseventytwo_platf.Exporter.Metrics.{write}
use nineteenseventytwo_platf.Exporter.Metrics.Iteration.{write-same}

Distinct-with_data_time :
    (n : Bytes) (t : ℕ) (s : Store) (o : Option _)
    → Distinct (keys s)
    → Distinct (keys (with_data_time n t s o))
Distinct-with_data_time n t s none d = d
Distinct-with_data_time n t s (some st) d = Distinct-insert n (record st { data_time = t }) s d

-- A source is in the store once.
pub Distinct-apply : (c : Call) (s : Store) → Distinct (keys s) → Distinct (keys (apply c s))
unfolding apply set set_data_time fail
Distinct-apply (set_call n fs t) s d = Distinct-insert n _ s d
Distinct-apply (data_time_call n t) s d = Distinct-with_data_time n t s (lookup n s) d
Distinct-apply (fail_call n) s d = Distinct-insert n _ s d

pub Distinct-apply_all :
    (cs : List Call) (s : Store) → Distinct (keys s) → Distinct (keys (apply_all cs s))
unfolding apply_all
Distinct-apply_all [] s d = d
Distinct-apply_all (c ∷ cs) s d = Distinct-apply_all cs (apply c s) (Distinct-apply c s d)

-- Two orders of calls on a new store that give every source its own calls in the same order are
-- exposed alike, to the last byte: neither how the sources take turns nor how Go orders its maps is
-- seen in the metrics.
pub write-own_calls :
    (cs ds : List Call)
    → ((k : Bytes) → own_calls k cs ≡ own_calls k ds)
    → write (apply_all cs new_store) ≡ write (apply_all ds new_store)
write-own_calls cs ds h =
    write-same (apply_all cs new_store) (apply_all ds new_store)
      (Distinct-apply_all cs new_store tt) (Distinct-apply_all ds new_store tt)
      (λ k.
        lookup-apply_all k cs new_store
        ∙ ap (λ own. replay own (lookup k new_store)) (h k)
        ∙ sym (lookup-apply_all k ds new_store))
