-- ===== src/Exporter/Metrics/Counts.antt =====
-- The open findings that `store.write` (images/findings-exporter/metrics.go) counts.
use nineteenseventytwo_platf.Prelude.{
  ℕ, ◌+◌, ◌≡◌, refl, ap, ap₂, ◌∙◌, false, ◌&&◌, List, [], ◌∷◌, map, Bytes, ◌==◌, nat_eq, list_eq,
  list_same_iff, arith, if◌then◌else◌, Option, none, some, ltb, contains, Distinct, Assoc, keys,
  lookup, lookup_or, insert, lookup-insert, lookup-cons, lookup_of_absent, contains-keys-insert,
  Distinct-insert, Bool-cases, inl, inr,
}
use nineteenseventytwo_platf.Prelude.Sort.{
  sort, IsSorted, sort-IsSorted, contains-sort, Distinct-sort,
}
use nineteenseventytwo_platf.Exporter.Store.{Finding, SourceState, Store}
use nineteenseventytwo_platf.Exporter.Metrics.{
  Tally, no_tally, count_key, tally_finding, tally_findings, tally_sources, count_line, count_lines,
  count_section,
}
use nineteenseventytwo_platf.Exporter.Metrics.Keys.{
  CountKey, CountKey_eq, CountKey_same_iff, count_less,
}
use nineteenseventytwo_platf.Exporter.Metrics.Order.{count_less-IsOrder}

-- the findings of a list with a severity and an item
abbrev pub occurrences : Bytes → Bytes → List Finding → ℕ
occurrences severity item [] = 0
occurrences severity item (f ∷ fs) =
    (if severity == f.severity && item == f.item then 1 else 0) + occurrences severity item fs

-- the open findings with a key, in the state of the key's source
abbrev pub open_findings : CountKey → Option SourceState → ℕ
open_findings k none = 0
open_findings k (some st) = occurrences k.severity k.item st.findings

count_of : CountKey → Tally → ℕ
count_of k t = lookup_or 0 k t.counts

count-finding :
    (k : CountKey) (name : Bytes) (f : Finding) (t : Tally)
    → count_of k (tally_finding name f t) ≡ (if k == count_key name f then 1 else 0) + count_of k t
unfolding count_of
count-finding k name f t =
    unfold_step
    ∙ ground (
      arith,
      lookup-insert k (count_key name f) (lookup_or 0 (count_key name f) t.counts + 1) t.counts,
      CountKey_same_iff k (count_key name f),
    )
  where
    unfold_step :
        lookup_or 0 k (tally_finding name f t).counts
        ≡ lookup_or 0 k
            (insert (count_key name f) (lookup_or 0 (count_key name f) t.counts + 1) t.counts)
    unfold_step = unfold tally_finding in refl

count-findings :
    (k : CountKey) (name : Bytes) (fs : List Finding) (t : Tally)
    → count_of k (tally_findings name fs t)
      ≡ (if k.source == name then occurrences k.severity k.item fs else 0) + count_of k t
count-findings k name [] t = unfold tally_findings in ground arith
count-findings k name (f ∷ fs) t =
    unfold_step
    ∙ count-findings k name fs (tally_finding name f t)
    ∙ ground (arith, count-finding k name f t)
  where
    unfold_step :
        count_of k (tally_findings name (f ∷ fs) t)
        ≡ count_of k (tally_findings name fs (tally_finding name f t))
    unfold_step = unfold tally_findings in refl

-- the first entry of a store and the others count apart
open_findings-cons :
    (k : CountKey) (n : Bytes) (st : SourceState) (s : Store)
    → contains n (keys s) ≡ false
    → open_findings k (lookup k.source ((n, st) ∷ s))
      ≡ (if k.source == n then occurrences k.severity k.item st.findings else 0)
        + open_findings k (lookup k.source s)
open_findings-cons k n st s absent = rw lookup-cons (elim (Bool-cases (k.source == n)) [
  | inl e ↦
      let none_left : lookup k.source s ≡ none =
        ap (λ x. lookup x s) ((list_same_iff k.source n).0 e) ∙ lookup_of_absent n s absent in
      rw (e, none_left) (ground arith)
  | inr e ↦ rw e (ground arith)
])

count-sources :
    (k : CountKey) (s : Store) (t : Tally)
    → Distinct (keys s)
    → count_of k (tally_sources s t) ≡ open_findings k (lookup k.source s) + count_of k t
count-sources k [] t d = unfold tally_sources lookup in ground arith
count-sources k ((n, st) ∷ s) t d =
    unfold_step
    ∙ count-sources k s (tally_findings n st.findings t) d.1
    ∙ ground (arith, count-findings k n st.findings t, open_findings-cons k n st s d.0)
  where
    unfold_step :
        count_of k (tally_sources ((n, st) ∷ s) t)
        ≡ count_of k (tally_sources s (tally_findings n st.findings t))
    unfold_step = unfold tally_sources in refl

-- The number that is exposed for a key is the number of open findings of its source with its
-- severity and item, if no source stands twice in the store.
pub counts-open_findings :
    (k : CountKey) (s : Store)
    → Distinct (keys s)
    → lookup_or 0 k (tally_sources s no_tally).counts ≡ open_findings k (lookup k.source s)
counts-open_findings k s d = unfold count_of lookup in count-sources k s no_tally d ∙ ground arith

-- a key is in the map exactly when its count is positive
abbrev IsTidy : Tally → Type 0
IsTidy t =
    Distinct (keys t.counts)
    × ((k : CountKey) → contains k (keys t.counts) ≡ ltb 0 (lookup_or 0 k t.counts))

finding-IsTidy :
    (name : Bytes) (f : Finding) (t : Tally) → IsTidy t → IsTidy (tally_finding name f t)
finding-IsTidy name f t h =
    unfold tally_finding in
    (
      Distinct-insert (count_key name f) new t.counts h.0,
      λ k. ground (
        arith,
        contains-keys-insert k (count_key name f) new t.counts,
        lookup-insert k (count_key name f) new t.counts,
        h.1 k,
      ),
    )
  where
    new : ℕ
    new = lookup_or 0 (count_key name f) t.counts + 1

findings-IsTidy :
    (name : Bytes) (fs : List Finding) (t : Tally) → IsTidy t → IsTidy (tally_findings name fs t)
unfolding tally_findings
findings-IsTidy name [] t h = h
findings-IsTidy name (f ∷ fs) t h =
    findings-IsTidy name fs (tally_finding name f t) (finding-IsTidy name f t h)

sources-IsTidy : (s : Store) (t : Tally) → IsTidy t → IsTidy (tally_sources s t)
unfolding tally_sources
sources-IsTidy [] t h = h
sources-IsTidy ((n, st) ∷ s) t h =
    sources-IsTidy s (tally_findings n st.findings t) (findings-IsTidy n st.findings t h)

pub tally-IsTidy : (s : Store) → IsTidy (tally_sources s no_tally)
tally-IsTidy s = sources-IsTidy s no_tally (tt, λ k. unfold lookup in refl)

-- the keys of the samples of `findings_open`
abbrev pub open_keys : Store → List CountKey
open_keys s = sort count_less (keys (tally_sources s no_tally).counts)

count_lines-map :
    (counts : Assoc CountKey ℕ) (number : CountKey → ℕ) (ks : List CountKey)
    → ((k : CountKey) → lookup_or 0 k counts ≡ number k)
    → count_lines counts ks ≡ map (λ k. count_line k (number k)) ks
count_lines-map counts number [] h = unfold count_lines in refl
count_lines-map counts number (k ∷ ks) h =
    step ∙ ap₂ (λ n rest. count_line k n ∷ rest) (h k) (count_lines-map counts number ks h)
  where
    step : count_lines counts (k ∷ ks) ≡ count_line k (lookup_or 0 k counts) ∷ count_lines counts ks
    step = unfold count_lines in refl

-- The samples of `findings_open`, for a store in which no source stands twice: one for each
-- combination of source, severity and item with an open finding and for no other, none twice, in
-- ascending order, and each with the number of those findings in the state of its source.
pub count_section-exact :
    (s : Store)
    → Distinct (keys s)
    → (count_section (tally_sources s no_tally)
        ≡ map (λ k. count_line k (open_findings k (lookup k.source s))) (open_keys s))
      × IsSorted count_less (open_keys s)
      × Distinct (open_keys s)
      × ((k : CountKey) → contains k (open_keys s) ≡ ltb 0 (open_findings k (lookup k.source s)))
count_section-exact s d =
    let t = tally_sources s no_tally in
    (
      section_lines ∙ count_lines-map t.counts _ (open_keys s) (λ k. counts-open_findings k s d),
      sort-IsSorted count_less-IsOrder (keys t.counts),
      Distinct-sort count_less (keys t.counts) (tally-IsTidy s).0,
      λ k.
          contains-sort count_less k (keys t.counts)
          ∙ (tally-IsTidy s).1 k
          ∙ ap (ltb 0) (counts-open_findings k s d),
    )
  where
    section_lines :
        count_section (tally_sources s no_tally)
        ≡ count_lines (tally_sources s no_tally).counts (open_keys s)
    section_lines = unfold count_section in refl
