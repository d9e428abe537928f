-- ===== src/Exporter/Store/History.antt =====
-- What the store of images/findings-exporter/metrics.go holds, as a function of the calls that were
-- made: the sources do not disturb one another, whatever the order of their calls.
use nineteenseventytwo_platf.Prelude.{
  ℕ, ◌≡◌, refl, ◌∙◌, true, false, List, [], ◌∷◌, Bytes, Option, none, some, arith, keep, lookup,
  insert, lookup-insert, nat_eq, list_eq, ◌==◌, list_same_iff, if◌then◌else◌, Bool-cases, inl, inr,
}
use nineteenseventytwo_platf.Exporter.Store.{
  Finding, SourceState, Store, prev_data_time, with_data_time, state_or_zero, set, set_data_time,
  fail,
}

-- a call of a method of the store
pub data Call : Type 0 where
  set_call : Bytes → List Finding → ℕ → Call
  data_time_call : Bytes → ℕ → Call
  fail_call : Bytes → Call

abbrev pub source_of : Call → Bytes
source_of (set_call n fs t) = n
source_of (data_time_call n t) = n
source_of (fail_call n) = n

unfoldable pub apply : Call → Store → Store
unfolding set set_data_time fail
apply (set_call n fs t) s = set n fs t s
apply (data_time_call n t) s = set_data_time n t s
apply (fail_call n) s = fail n s

unfoldable pub apply_all : List Call → Store → Store
unfolding apply
apply_all [] s = s
apply_all (c ∷ cs) s = apply_all cs (apply c s)

-- What a call of its own does to the state of one source.
abbrev pub after_call : Call → Option SourceState → Option SourceState
after_call (set_call n fs t) o =
    some (record { findings = fs; up = true; last_success = t; data_time = prev_data_time o })
after_call (data_time_call n t) none = none
after_call (data_time_call n t) (some st) = some (record st { data_time = t })
after_call (fail_call n) o = some (record (state_or_zero o) { up = false })

lookup-with_data_time :
    (k n : Bytes) (t : ℕ) (s : Store) (o : Option SourceState)
    → lookup n s ≡ o
    → lookup k (with_data_time n t s o)
      ≡ (if k == n then after_call (data_time_call n t) o else lookup k s)
lookup-with_data_time k n t s none h = ground (arith, list_same_iff k n)
lookup-with_data_time k n t s (some st) h = lookup-insert k n (record st { data_time = t }) s

module _ (k n : Bytes) (s : Store) where
  lookup-set :
      (fs : List Finding) (t : ℕ)
      → lookup k (set n fs t s)
        ≡ (if k == n then after_call (set_call n fs t) (lookup k s) else lookup k s)
  lookup-set fs t = unfold_set ∙ ground (arith, list_same_iff k n, lookup-insert k n new s)
    where
      new : SourceState
      new = record {
        findings = fs;
        up = true;
        last_success = t;
        data_time = prev_data_time (lookup n s);
      }

      unfold_set : lookup k (set n fs t s) ≡ lookup k (insert n new s)
      unfold_set = unfold set in refl

  lookup-fail :
      lookup k (fail n s) ≡ (if k == n then after_call (fail_call n) (lookup k s) else lookup k s)
  lookup-fail = unfold_fail ∙ ground (arith, list_same_iff k n, lookup-insert k n new s)
    where
      new : SourceState
      new = record (state_or_zero (lookup n s)) { up = false }

      unfold_fail : lookup k (fail n s) ≡ lookup k (insert n new s)
      unfold_fail = unfold fail in refl

  lookup-set_data_time :
      (t : ℕ)
      → lookup k (set_data_time n t s)
        ≡ (if k == n then after_call (data_time_call n t) (lookup k s) else lookup k s)
  lookup-set_data_time t =
      unfold_set
      ∙ lookup-with_data_time k n t s (lookup n s) refl
      ∙ ground (arith, list_same_iff k n)
    where
      unfold_set : lookup k (set_data_time n t s) ≡ lookup k (with_data_time n t s (lookup n s))
      unfold_set = unfold set_data_time in refl

-- A call changes the state of its own source alone.
pub lookup-apply :
    (k : Bytes) (c : Call) (s : Store)
    → lookup k (apply c s) ≡ (if k == source_of c then after_call c (lookup k s) else lookup k s)
unfolding apply
lookup-apply k (set_call n fs t) s = lookup-set k n s fs t
lookup-apply k (data_time_call n t) s = lookup-set_data_time k n s t
lookup-apply k (fail_call n) s = lookup-fail k n s

-- the history of one source: its own calls, in their order
abbrev pub own_calls : Bytes → List Call → List Call
own_calls k = keep (λ c. k == source_of c)

abbrev pub replay : List Call → Option SourceState → Option SourceState
replay [] o = o
replay (c ∷ cs) o = replay cs (after_call c o)

-- After any calls, interleaved in any way, the state of a source is that which its own calls alone,
-- in their order, make of its state before: no source disturbs another.
pub lookup-apply_all :
    (k : Bytes) (cs : List Call) (s : Store)
    → lookup k (apply_all cs s) ≡ replay (own_calls k cs) (lookup k s)
lookup-apply_all k [] s = unfold apply_all in refl
lookup-apply_all k (c ∷ cs) s =
    unfold_step ∙ lookup-apply_all k cs (apply c s) ∙ elim (Bool-cases (k == source_of c)) [
      | inl e ↦ rw (lookup-apply k c s, e)
      | inr e ↦ rw (lookup-apply k c s, e)
    ]
  where
    unfold_step : lookup k (apply_all (c ∷ cs) s) ≡ lookup k (apply_all cs (apply c s))
    unfold_step = unfold apply_all in refl
