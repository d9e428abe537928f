-- ===== src/Exporter/Metrics/Least.antt =====
-- The least of the times at which findings were first seen, as a loop over them finds it.
use nineteenseventytwo_platf.Prelude.{
  ℕ, ◌≤◌, ◌≡◌, refl, sym, ◌∙◌, Bool, true, false, not, ◌&&◌, ◌||◌, List, [], ◌∷◌, ◌++◌, Bytes,
  Option, none, some, eqb, ltb, contains, ◌==◌, nat_eq, list_eq, if◌then◌else◌, Bool-cases, inl,
  inr, arith, All, append-nil, append_assoc, subst, or_left,
}
use nineteenseventytwo_platf.Exporter.Store.{Finding}
use nineteenseventytwo_platf.Exporter.Metrics.{earlier}
use nineteenseventytwo_platf.Exporter.Metrics.Keys.{AgeKey_eq}

-- a time that is known, and one finding more
abbrev pub noted : Option ℕ → ℕ → Option ℕ
noted o t = if eqb t 0 then o else if earlier t o then some t else o

abbrev pub note_all : Bytes → List Finding → Option ℕ → Option ℕ
note_all severity [] o = o
note_all severity (f ∷ fs) o =
    note_all severity fs (if severity == f.severity then noted o f.since else o)

-- the times at which the findings with a severity were first seen, where that is known
abbrev pub times_seen : Bytes → List Finding → List ℕ
times_seen severity [] = []
times_seen severity (f ∷ fs) =
    if severity == f.severity && not (eqb f.since 0)
    then f.since ∷ times_seen severity fs
    else times_seen severity fs

-- the least of some times, if there is one
abbrev pub IsLeast : List ℕ → Option ℕ → Type 0
IsLeast ts none = ts ≡ []
IsLeast ts (some t) = (contains t ts ≡ true) × All (λ u. t ≤ u) ts

earlier-IsLeast :
    (ts : List ℕ) (t u : ℕ) → t ≤ u → All (λ x. u ≤ x) ts → All (λ x. t ≤ x) (ts ++ t ∷ [])
earlier-IsLeast [] t u h a = (omega arith, tt)
earlier-IsLeast (x ∷ ts) t u h a = (omega (arith, a.0), earlier-IsLeast ts t u h a.1)

contains-snoc : (a t : ℕ) (ts : List ℕ) → contains a (ts ++ t ∷ []) ≡ (contains a ts || eqb a t)
contains-snoc a t [] = ground arith
contains-snoc a t (x ∷ ts) = ground (arith, contains-snoc a t ts)

snoc-All : (t u : ℕ) (ts : List ℕ) → t ≤ u → All (λ x. t ≤ x) ts → All (λ x. t ≤ x) (ts ++ u ∷ [])
snoc-All t u [] h a = (h, tt)
snoc-All t u (x ∷ ts) h a = (a.0, snoc-All t u ts h a.1)

pub noted-IsLeast :
    (ts : List ℕ) (o : Option ℕ) (t : ℕ)
    → IsLeast ts o
    → eqb t 0 ≡ false
    → IsLeast (ts ++ t ∷ []) (noted o t)
noted-IsLeast ts none t h z = rw z (
    subst (λ l. (contains t (l ++ t ∷ []) ≡ true) × All (λ u. t ≤ u) (l ++ t ∷ [])) (sym h)
      (ground arith, (omega arith, tt)))
noted-IsLeast ts (some u) t h z = rw z (elim (Bool-cases (ltb t u)) [
  | inl e ↦ rw e (contains-snoc t t ts ∙ ground arith, earlier-IsLeast ts t u (ground arith) h.1)
  | inr e ↦ rw e (
    contains-snoc u t ts ∙ or_left (contains u ts) (eqb u t) h.0,
    snoc-All u t ts (ground arith) h.1,
  )
])

pub note_all-IsLeast :
    (severity : Bytes) (fs : List Finding) (ts : List ℕ) (o : Option ℕ)
    → IsLeast ts o
    → IsLeast (ts ++ times_seen severity fs) (note_all severity fs o)
note_all-IsLeast severity [] ts o h = subst (λ l. IsLeast l o) (sym (append-nil ts)) h
note_all-IsLeast severity (f ∷ fs) ts o h =
    by_tests (severity == f.severity) (eqb f.since 0) refl (note_all-IsLeast severity fs ts o h)
      (λ z.
        note_all-IsLeast severity fs (ts ++ f.since ∷ []) (noted o f.since)
          (noted-IsLeast ts o f.since h z))
  where
    by_tests :
        (b z : Bool)
        → eqb f.since 0 ≡ z
        → IsLeast (ts ++ times_seen severity fs) (note_all severity fs o)
        → (eqb f.since 0 ≡ false
            → IsLeast
                ((ts ++ f.since ∷ []) ++ times_seen severity fs)
                (note_all severity fs (noted o f.since)))
        → IsLeast
            (ts
              ++ (if b && not z then f.since ∷ times_seen severity fs else times_seen severity fs))
            (note_all severity fs (if b then noted o f.since else o))
    by_tests false z e skip take = skip
    by_tests true true e skip take = rw e skip
    by_tests true false e skip take =
        subst (λ l. IsLeast l (note_all severity fs (noted o f.since)))
          (append_assoc ts (f.since ∷ []) (times_seen severity fs)) (take e)
