-- ===== src/Exporter/Prowler/Listing/Latest.antt =====
-- The first of the latest reports among objects.
use nineteenseventytwo_platf.Prelude.{
  ℕ, ◌<◌, ◌≡◌, ◌⊎◌, inl, inr, refl, ap, sym, subst, Bool, true, false, ◌&&◌, List, [], ◌∷◌, ◌++◌,
  codes, ltb, leb, if◌then◌else◌, All, arith,
}
use nineteenseventytwo_platf.Text.Affix.{has_suffix}
use nineteenseventytwo_platf.Exporter.Prowler.Objects.{S3Object}
use nineteenseventytwo_platf.Exporter.Prowler.Listing.{Newest, newer, newest_in}

-- a report, with a time of writing
abbrev pub is_report : S3Object → Bool
is_report o = has_suffix o.key (codes ".ocsf.json") && ltb 0 o.last_modified

-- reports among the objects were written before the time, or not after it
abbrev pub AllBefore : ℕ → List S3Object → Type 0
AllBefore t = All (λ o. (is_report o && leb t o.last_modified) ≡ false)

abbrev pub AllUntil : ℕ → List S3Object → Type 0
AllUntil t = All (λ o. (is_report o && ltb t o.last_modified) ≡ false)

-- `n` is the first of the latest reports
abbrev pub IsLatest : List S3Object → Newest → Type 0
IsLatest os n =
    (before : List S3Object) × (o : S3Object) × (after : List S3Object) × (os ≡ before ++ o ∷ after)
    × (is_report o ≡ true)
    × (n ≡ record { key = o.key; at = o.last_modified })
    × AllBefore n.at before
    × AllUntil n.at after

-- the loop from a time on: nothing later, or the first of the latest
abbrev pub IsFound : List S3Object → Newest → Newest → Type 0
IsFound os n m = ((m ≡ n) × AllUntil n.at os) ⊎ (IsLatest os m × (n.at < m.at))

-- the tests of an object, by the test of its name
report_tests :
    (named : Bool) (at t : ℕ) → (named && ltb t at) ≡ true → ((named && ltb 0 at) ≡ true) × (t < at)
report_tests true at t h = ground arith
report_tests false at t h = ground arith

older_tests :
    (named : Bool) (at t m : ℕ)
    → (named && ltb t at) ≡ false
    → t < m
    → (named && ltb 0 at && leb m at) ≡ false
older_tests true at t m h l = ground arith
older_tests false at t m h l = ground arith

same_tests :
    (named : Bool) (at t : ℕ)
    → (named && ltb t at) ≡ false
    → (named && ltb 0 at && ltb t at) ≡ false
same_tests true at t h = ground arith
same_tests false at t h = ground arith

before_tests : (b : Bool) (at m : ℕ) → at < m → (b && leb m at) ≡ false
before_tests true at m l = ground arith
before_tests false at m l = ground arith

IsFound-later :
    (o : S3Object) (os : List S3Object) (n m : Newest)
    → newer o n ≡ true
    → IsFound os (record { key = o.key; at = o.last_modified }) m
    → IsFound (o ∷ os) n m
unfolding newer
IsFound-later o os n m e (inl (same, until)) =
    let (report, later) =
      report_tests (has_suffix o.key (codes ".ocsf.json")) o.last_modified n.at e in
    let times : o.last_modified ≡ m.at = ap (λ (k : Newest). k.at) (sym same) in
    inr (
      ([], o, os, refl, report, same, tt, subst (λ t. AllUntil t os) times until),
      subst (λ t. n.at < t) times later,
    )
IsFound-later o os n m e (inr ((before, p, after, split, report, same, old, until), later)) =
    let (here, first) =
      report_tests (has_suffix o.key (codes ".ocsf.json")) o.last_modified n.at e in
    inr (
      (
        o ∷ before,
        p,
        after,
        ap (λ l. o ∷ l) split,
        report,
        same,
        (before_tests (is_report o) o.last_modified m.at later, old),
        until,
      ),
      omega (arith, first, later),
    )

IsFound-same :
    (o : S3Object) (os : List S3Object) (n m : Newest)
    → newer o n ≡ false
    → IsFound os n m
    → IsFound (o ∷ os) n m
unfolding newer
IsFound-same o os n m e (inl (same, until)) =
    inl (same, (same_tests (has_suffix o.key (codes ".ocsf.json")) o.last_modified n.at e, until))
IsFound-same o os n m e (inr ((before, p, after, split, report, same, old, until), later)) = inr (
  (
    o ∷ before,
    p,
    after,
    ap (λ l. o ∷ l) split,
    report,
    same,
    (older_tests (has_suffix o.key (codes ".ocsf.json")) o.last_modified n.at m.at e later, old),
    until,
  ),
  later,
)

pub newest_in-IsFound : (os : List S3Object) (n : Newest) → IsFound os n (newest_in os n)
unfolding newest_in
newest_in-IsFound [] n = inl (refl, tt)
newest_in-IsFound (o ∷ os) n =
    by_test (newer o n) refl (newest_in-IsFound os (record { key = o.key; at = o.last_modified }))
      (newest_in-IsFound os n)
  where
    by_test :
        (b : Bool)
        → newer o n ≡ b
        → IsFound os
            (record { key = o.key; at = o.last_modified })
            (newest_in os (record { key = o.key; at = o.last_modified }))
        → IsFound os n (newest_in os n)
        → IsFound
            (o ∷ os)
            n
            (newest_in os (if b then record { key = o.key; at = o.last_modified } else n))
    by_test true e later same = IsFound-later o os n _ e later
    by_test false e later same = IsFound-same o os n _ e same
