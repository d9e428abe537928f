-- ===== src/Exporter/Metrics/Ages.antt =====
-- The second metric that `store.write` exposes: when the oldest open finding was first seen.
use nineteenseventytwo_platf.Prelude.{
  ℕ, ◌≡◌, refl, ap, ap₂, sym, ◌∙◌, Bool, true, false, ◌&&◌, List, [], ◌∷◌, map, Bytes, Option, none,
  some, is_some, Assoc, keys, lookup, lookup-insert, contains, Distinct, contains-keys,
  Distinct-insert, ◌==◌, nat_eq, list_eq, list_same_iff, if◌then◌else◌, Bool-cases, inl, inr, arith,
  or_left, or_right, false_ne_true,
}
use nineteenseventytwo_platf.Prelude.Sort.{
  sort, IsSorted, sort-IsSorted, contains-sort, Distinct-sort,
}
use nineteenseventytwo_platf.Exporter.Store.{Finding, SourceState, Store}
use nineteenseventytwo_platf.Exporter.Metrics.{
  Tally, no_tally, note_age, tally_finding, tally_findings, tally_sources, age_line, age_lines,
  age_section,
}
use nineteenseventytwo_platf.Exporter.Metrics.Keys.{AgeKey, AgeKey_same_iff, AgeKey_eq, age_less}
use nineteenseventytwo_platf.Exporter.Metrics.Order.{age_less-IsOrder}
use nineteenseventytwo_platf.Exporter.Metrics.Least.{
  noted, note_all, times_seen, IsLeast, note_all-IsLeast,
}

-- the time of a key, in the state of the key's source
abbrev pub oldest_open : AgeKey → Option SourceState → Option ℕ
oldest_open k none = none
oldest_open k (some st) = note_all k.severity st.findings none

lookup-note_age :
    (k : AgeKey) (name : Bytes) (f : Finding) (m : Assoc AgeKey ℕ)
    → lookup k (note_age name f m) ≡ (
        if k.source == name && k.severity == f.severity
        then noted (lookup k m) f.since
        else lookup k m)
unfolding note_age
lookup-note_age k name f m =
    let j : AgeKey = record { source = name; severity = f.severity } in
    ground (arith, lookup-insert k j f.since m, AgeKey_same_iff k j)

-- the first finding and the others, for whether it has the source and the severity
joined :
    (a b : Bool) (severity : Bytes) (fs : List Finding) (o x y : Option ℕ)
    → o ≡ (if a && b then x else y)
    → (if a then note_all severity fs o else o)
      ≡ (if a then note_all severity fs (if b then x else y) else y)
joined true true severity fs o x y h = ap (note_all severity fs) h
joined true false severity fs o x y h = ap (note_all severity fs) h
joined false b severity fs o x y h = h

lookup-findings :
    (k : AgeKey) (name : Bytes) (fs : List Finding) (t : Tally)
    → lookup k (tally_findings name fs t).oldest
      ≡ (if k.source == name then note_all k.severity fs (lookup k t.oldest) else lookup k t.oldest)
unfolding tally_findings
lookup-findings k name [] t = ground arith
lookup-findings k name (f ∷ fs) t =
    lookup-findings k name fs (tally_finding name f t)
    ∙ joined (k.source == name) (k.severity == f.severity) k.severity fs
        (lookup k (tally_finding name f t).oldest) (noted (lookup k t.oldest) f.since)
        (lookup k t.oldest) (unfold tally_finding in lookup-note_age k name f t.oldest)

lookup-sources :
    (k : AgeKey) (s : Store) (t : Tally)
    → Distinct (keys s)
    → (contains k.source (keys s) ≡ true → lookup k t.oldest ≡ none)
    → lookup k (tally_sources s t).oldest ≡ (
        if contains k.source (keys s) then oldest_open k (lookup k.source s) else lookup k t.oldest)
unfolding tally_sources
lookup-sources k [] t d new = refl
lookup-sources k ((n, st) ∷ s) t d new = elim (Bool-cases (k.source == n)) [
  | inl e ↦
      let absent : contains k.source (keys s) ≡ false =
        ap (λ x. contains x (keys s)) ((list_same_iff k.source n).0 e) ∙ d.0 in
      let before : lookup k t.oldest ≡ none =
        new (or_left (k.source == n) (contains k.source (keys s)) e) in
      let rest =
        lookup-sources k s (tally_findings n st.findings t) d.1
          (λ c. absurd (false_ne_true (sym absent ∙ c))) in
      let others = rw absent at rest in
      let own = rw e at (lookup-findings k n st.findings t) in
      rw e (others ∙ own ∙ ap (note_all k.severity st.findings) before)
  | inr e ↦
      let own = rw e at (lookup-findings k n st.findings t) in
      rw e (
        lookup-sources k s (tally_findings n st.findings t) d.1
          (λ c. own ∙ new (or_right (k.source == n) (contains k.source (keys s)) c))
        ∙ ap (λ o. if contains k.source (keys s) then oldest_open k (lookup k.source s) else o) own)
]

-- The time that is exposed for a key is that of its source's state, if no source stands twice.
pub lookup-oldest :
    (k : AgeKey) (s : Store)
    → Distinct (keys s)
    → lookup k (tally_sources s no_tally).oldest ≡ oldest_open k (lookup k.source s)
unfolding lookup
lookup-oldest k s d =
    lookup-sources k s no_tally d (λ c. refl) ∙ ground (arith, contains-keys k.source s)

abbrev pub findings_in : Option SourceState → List Finding
findings_in none = []
findings_in (some st) = st.findings

oldest_open-IsLeast :
    (k : AgeKey) (o : Option SourceState)
    → IsLeast (times_seen k.severity (findings_in o)) (oldest_open k o)
oldest_open-IsLeast k none = refl
oldest_open-IsLeast k (some st) = note_all-IsLeast k.severity st.findings [] none refl

-- no key stands twice
note_age-Distinct :
    (name : Bytes) (f : Finding) (m : Assoc AgeKey ℕ)
    → Distinct (keys m)
    → Distinct (keys (note_age name f m))
unfolding note_age
note_age-Distinct name f m d =
    ground (arith, Distinct-insert (record { source = name; severity = f.severity }) f.since m d)

tally-Distinct :
    (name : Bytes) (fs : List Finding) (t : Tally)
    → Distinct (keys t.oldest)
    → Distinct (keys (tally_findings name fs t).oldest)
unfolding tally_findings
tally-Distinct name [] t d = d
tally-Distinct name (f ∷ fs) t d =
    tally-Distinct name fs (tally_finding name f t)
      (unfold tally_finding in note_age-Distinct name f t.oldest d)

pub sources-Distinct :
    (s : Store) (t : Tally) → Distinct (keys t.oldest) → Distinct (keys (tally_sources s t).oldest)
unfolding tally_sources
sources-Distinct [] t d = d
sources-Distinct ((n, st) ∷ s) t d =
    sources-Distinct s (tally_findings n st.findings t) (tally-Distinct n st.findings t d)

-- the keys of the samples
abbrev pub aged_keys : Store → List AgeKey
aged_keys s = sort age_less (keys (tally_sources s no_tally).oldest)

abbrev pub time_or_zero : Option ℕ → ℕ
time_or_zero none = 0
time_or_zero (some t) = t

age_lines-map :
    (m : Assoc AgeKey ℕ) (time : AgeKey → Option ℕ) (ks : List AgeKey)
    → ((k : AgeKey) → lookup k m ≡ time k)
    → age_lines m ks ≡ map (λ k. age_line k (time_or_zero (time k))) ks
unfolding age_lines
age_lines-map m time [] h = refl
age_lines-map m time (k ∷ ks) h =
    ap₂ (λ (o : Option ℕ) rest. age_line k (elim o [ none ↦ 0 | some t ↦ t ]) ∷ rest) (h k)
      (age_lines-map m time ks h)
    ∙ ap (λ t. age_line k t ∷ map (λ k. age_line k (time_or_zero (time k))) ks) (same (time k))
  where
    same : (o : Option ℕ) → (elim o [ none ↦ 0 | some t ↦ t ]) ≡ time_or_zero o
    same none = refl
    same (some t) = refl

-- The samples of `findings_oldest_open_timestamp_seconds`, for a store in which no source stands
-- twice: one for each source and severity with a finding whose first sight is known and for no
-- other, none twice, in ascending order, and each with the least of these times.
pub age_section-exact :
    (s : Store)
    → Distinct (keys s)
    → (age_section (tally_sources s no_tally)
        ≡ map (λ k. age_line k (time_or_zero (oldest_open k (lookup k.source s)))) (aged_keys s))
      × IsSorted age_less (aged_keys s)
      × Distinct (aged_keys s)
      × ((k : AgeKey)
          → (contains k (aged_keys s) ≡ is_some (oldest_open k (lookup k.source s)))
            × IsLeast
                (times_seen k.severity (findings_in (lookup k.source s)))
                (oldest_open k (lookup k.source s)))
unfolding age_section
age_section-exact s d =
    let m = (tally_sources s no_tally).oldest in
    (
      age_lines-map m (λ k. oldest_open k (lookup k.source s)) (aged_keys s)
          (λ k. lookup-oldest k s d),
      sort-IsSorted age_less-IsOrder (keys m),
      Distinct-sort age_less (keys m) (sources-Distinct s no_tally tt),
      λ k. (
        contains-sort age_less k (keys m) ∙ contains-keys k m ∙ ap is_some (lookup-oldest k s d),
        oldest_open-IsLeast k (lookup k.source s),
      ),
    )
