-- ===== src/Examples/ExporterTheorems.antt =====
-- The theorems on images/findings-exporter at concrete inputs.
use nineteenseventytwo_platf.Prelude.{
  ◌≡◌, refl, true, List, [], ◌∷◌, ◌++◌, map, some, err, codes, lookup, contains, Distinct, ltb,
  is_some, nat_eq, list_eq,
}
use nineteenseventytwo_platf.Prelude.Sort.{IsSorted}
use nineteenseventytwo_platf.Text.Utf8.{to_valid}
use nineteenseventytwo_platf.Exporter.Store.{Finding, Store, new_store}
use nineteenseventytwo_platf.Exporter.Store.History.{
  Call, set_call, fail_call, apply_all, own_calls, replay, lookup-apply_all,
}
use nineteenseventytwo_platf.Exporter.Poll.Rounds.{RoundDone, poll_round-RoundDone}
use nineteenseventytwo_platf.Exporter.Quote.{quote}
use nineteenseventytwo_platf.Exporter.Quote.RoundTrip.{read_label, read_label-quote}
use nineteenseventytwo_platf.Exporter.Metrics.{
  no_tally, tally_sources, count_line, count_section, age_line, age_section,
}
use nineteenseventytwo_platf.Exporter.Metrics.Keys.{
  CountKey, CountKey_eq, AgeKey, AgeKey_eq, count_less, age_less,
}
use nineteenseventytwo_platf.Exporter.Metrics.Least.{times_seen, IsLeast}
use nineteenseventytwo_platf.Exporter.Metrics.Ages.{
  oldest_open, findings_in, aged_keys, time_or_zero, age_section-exact,
}
use nineteenseventytwo_platf.Exporter.Metrics.Counts.{open_findings, open_keys, count_section-exact}

abbrev high_finding : Finding
high_finding = record { severity = codes "high"; item = codes "img"; since = 5 }

abbrev calls : List Call
calls =
    set_call (codes "trivy") (high_finding ∷ []) 9
    ∷ fail_call (codes "prowler")
    ∷ fail_call (codes "trivy")
    ∷ []

lookup-apply_all_example :
    lookup (codes "trivy") (apply_all calls new_store)
    ≡ replay (own_calls (codes "trivy") calls) (lookup (codes "trivy") new_store)
lookup-apply_all_example = lookup-apply_all (codes "trivy") calls new_store

poll_round-RoundDone_example :
    RoundDone (codes "prowler" ∷ []) (err (codes "timeout")) [] (λ i. 7) new_store (codes "prowler")
poll_round-RoundDone_example =
    poll_round-RoundDone (codes "prowler" ∷ []) (err (codes "timeout")) [] (λ i. 7) new_store
      (codes "prowler") tt

read_label-quote_example :
    read_label (quote (codes "rule \"quoted\"") ++ codes "} 2")
    ≡ some (codes "rule \"quoted\"", codes "} 2")
unfolding to_valid
read_label-quote_example = read_label-quote (codes "rule \"quoted\"") (codes "} 2")

abbrev store : Store
store =
    (
      codes "trivy",
      record {
        findings = high_finding ∷ high_finding ∷ [];
        up = true;
        last_success = 9;
        data_time = 0;
      },
    )
    ∷ []

count_section-exact_example :
    (count_section (tally_sources store no_tally)
      ≡ map (λ k. count_line k (open_findings k (lookup k.source store))) (open_keys store))
    × IsSorted count_less (open_keys store)
    × Distinct (open_keys store)
    × ((k : CountKey)
        → contains k (open_keys store) ≡ ltb 0 (open_findings k (lookup k.source store)))
count_section-exact_example = count_section-exact store (refl, tt)

age_section-exact_example :
    (age_section (tally_sources store no_tally)
      ≡ map
          (λ k. age_line k (time_or_zero (oldest_open k (lookup k.source store))))
          (aged_keys store))
    × IsSorted age_less (aged_keys store)
    × Distinct (aged_keys store)
    × ((k : AgeKey)
        → (contains k (aged_keys store) ≡ is_some (oldest_open k (lookup k.source store)))
          × IsLeast
              (times_seen k.severity (findings_in (lookup k.source store)))
              (oldest_open k (lookup k.source store)))
age_section-exact_example = age_section-exact store (refl, tt)
