-- ===== src/Exporter/Metrics/Iteration.antt =====
-- The exposition of `store.write` does not depend on the order in which Go iterates its maps.
use nineteenseventytwo_platf.Prelude.{
  ℕ, ◌≡◌, refl, ap, ap₂, sym, ◌∙◌, List, [], ◌∷◌, ◌++◌, map, Bytes, ltb, eqb, is_some, codes, keys,
  lookup, SameMap, lookup_or-same, contains-keys_of_SameMap, contains-keys, Distinct, nat_eq,
  list_eq, if◌then◌else◌, less,
}
use nineteenseventytwo_platf.Prelude.Sort.{sort, sort-same}
use nineteenseventytwo_platf.Prelude.Sort.Texts.{sort_texts_same}
use nineteenseventytwo_platf.Text.Decimal.{decimal}
use nineteenseventytwo_platf.Exporter.Store.{SourceState, Store, zero_state}
use nineteenseventytwo_platf.Exporter.Metrics.{
  unix, open_header, oldest_header, up_header, success_header, data_header, no_tally, tally_sources,
  count_line, count_section, age_line, age_section, up_lines, time_lines, write_data_times,
  state_of, write, source_line,
}
use nineteenseventytwo_platf.Exporter.Metrics.Keys.{CountKey_eq, AgeKey_eq, count_less, age_less}
use nineteenseventytwo_platf.Exporter.Metrics.Order.{
  count_less-IsOrder, count_less_irrefl, count_less_antisym, age_less-IsOrder, age_less_irrefl,
  age_less_antisym,
}
use nineteenseventytwo_platf.Exporter.Metrics.Counts.{
  open_keys, open_findings, count_section-exact, tally-IsTidy, counts-open_findings,
}
use nineteenseventytwo_platf.Exporter.Metrics.Ages.{
  aged_keys, oldest_open, time_or_zero, age_section-exact, lookup-oldest, sources-Distinct,
}

map-same {ℓ κ} :
    {A : Type ℓ} {B : Type κ} (f g : A → B) (xs : List A)
    → ((a : A) → f a ≡ g a)
    → map f xs ≡ map g xs
map-same f g [] h = refl
map-same f g (x ∷ xs) h = ap₂ (λ y ys. y ∷ ys) (h x) (map-same f g xs h)

abbrev names : Store → List Bytes
names s = sort less (keys s)

abbrev success_metric : Bytes
success_metric = codes "findings_source_last_success_timestamp_seconds"

abbrev ups : Store → List Bytes
ups s = up_lines s (names s)

abbrev successes : Store → List Bytes
successes s = time_lines success_metric (λ st. st.last_success) s (names s)

abbrev sections : List Bytes → List Bytes → List Bytes → List Bytes → List Bytes → List Bytes
sections counts ages up_samples success_samples data_samples =
    open_header
    ++ (counts
        ++ (oldest_header
            ++ (ages
                ++ (up_header
                    ++ (up_samples ++ (success_header ++ (success_samples ++ data_samples)))))))

written :
    (s : Store)
    → write s
      ≡ sections
          (count_section (tally_sources s no_tally))
          (age_section (tally_sources s no_tally))
          (ups s)
          (successes s)
          (write_data_times s (names s))
written s = unfold write in refl

module _ (s r : Store) (d : Distinct (keys s)) (f : Distinct (keys r)) (same : SameMap s r) where
  open_keys-same : open_keys s ≡ open_keys r
  open_keys-same =
      sort-same count_less (keys (tally_sources s no_tally).counts)
        (keys (tally_sources r no_tally).counts) count_less-IsOrder count_less_irrefl
        count_less_antisym (tally-IsTidy s).0 (tally-IsTidy r).0
        (λ k.
          (tally-IsTidy s).1 k
          ∙ ap (ltb 0) (
              counts-open_findings k s d
              ∙ ap (open_findings k) (same k.source)
              ∙ sym (counts-open_findings k r f))
          ∙ sym ((tally-IsTidy r).1 k))

  count_section-same :
      count_section (tally_sources s no_tally) ≡ count_section (tally_sources r no_tally)
  count_section-same =
      (count_section-exact s d).0
      ∙ ap (map (λ k. count_line k (open_findings k (lookup k.source s)))) open_keys-same
      ∙ map-same (λ k. count_line k (open_findings k (lookup k.source s)))
          (λ k. count_line k (open_findings k (lookup k.source r))) (open_keys r)
          (λ k. ap (λ o. count_line k (open_findings k o)) (same k.source))
      ∙ sym (count_section-exact r f).0

  aged_keys-same : aged_keys s ≡ aged_keys r
  aged_keys-same =
      sort-same age_less (keys (tally_sources s no_tally).oldest)
        (keys (tally_sources r no_tally).oldest) age_less-IsOrder age_less_irrefl age_less_antisym
        (sources-Distinct s no_tally tt) (sources-Distinct r no_tally tt)
        (λ k.
          contains-keys k (tally_sources s no_tally).oldest
          ∙ ap is_some
              (lookup-oldest k s d ∙ ap (oldest_open k) (same k.source) ∙ sym (lookup-oldest k r f))
          ∙ sym (contains-keys k (tally_sources r no_tally).oldest))

  age_section-same : age_section (tally_sources s no_tally) ≡ age_section (tally_sources r no_tally)
  age_section-same =
      (age_section-exact s d).0
      ∙ ap (map (λ k. age_line k (time_or_zero (oldest_open k (lookup k.source s))))) aged_keys-same
      ∙ map-same (λ k. age_line k (time_or_zero (oldest_open k (lookup k.source s))))
          (λ k. age_line k (time_or_zero (oldest_open k (lookup k.source r)))) (aged_keys r)
          (λ k. ap (λ o. age_line k (time_or_zero (oldest_open k o))) (same k.source))
      ∙ sym (age_section-exact r f).0

  state_of-same : (n : Bytes) → state_of n s ≡ state_of n r
  state_of-same n = lookup_or-same zero_state n s r same

  up_lines-same : (ns : List Bytes) → up_lines s ns ≡ up_lines r ns
  unfolding up_lines
  up_lines-same [] = refl
  up_lines-same (n ∷ ns) =
      ap₂
        (λ (st : SourceState) rest.
          source_line (codes "findings_source_up") n (decimal (if st.up then 1 else 0)) ∷ rest)
        (state_of-same n) (up_lines-same ns)

  time_lines-same :
      (metric : Bytes) (time : SourceState → ℕ) (ns : List Bytes)
      → time_lines metric time s ns ≡ time_lines metric time r ns
  unfolding time_lines
  time_lines-same metric time [] = refl
  time_lines-same metric time (n ∷ ns) =
      ap₂
        (λ st rest. if eqb (time st) 0 then rest else source_line metric n (unix (time st)) ∷ rest)
        (state_of-same n) (time_lines-same metric time ns)

  names-same : names s ≡ names r
  names-same = sort_texts_same (keys s) (keys r) d f (contains-keys_of_SameMap s r same)

  data_times-same : (ns : List Bytes) → write_data_times s ns ≡ write_data_times r ns
  unfolding write_data_times
  data_times-same ns =
      ap (λ l. data_header ++ l)
        (time_lines-same (codes "findings_source_data_timestamp_seconds") (λ st. st.data_time) ns)

  -- Two stores that hold the same states, whatever the order of their maps, are exposed alike.
  pub write-same : write s ≡ write r
  write-same =
      written s
      ∙ ap₂
          (λ counts ages. sections counts ages (ups s) (successes s) (write_data_times s (names s)))
          count_section-same age_section-same
      ∙ ap₂
          (λ u t.
            sections (count_section (tally_sources r no_tally))
              (age_section (tally_sources r no_tally)) u t (write_data_times s (names s)))
          (ap (up_lines s) names-same ∙ up_lines-same (names r))
          (ap (time_lines success_metric (λ st. st.last_success) s) names-same
            ∙ time_lines-same success_metric (λ st. st.last_success) (names r))
      ∙ ap
          (sections (count_section (tally_sources r no_tally))
            (age_section (tally_sources r no_tally)) (ups r) (successes r))
          (ap (write_data_times s) names-same ∙ data_times-same (names r))
      ∙ sym (written r)
