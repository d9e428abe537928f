-- ===== src/Examples/ExporterRuns.antt =====
-- The cases of images/findings-exporter/main_test.go.
use nineteenseventytwo_platf.Prelude.{
  ℕ, ◌+◌, ◌-◌, ◌*◌, ◌≡◌, refl, true, List, [], ◌∷◌, Bytes, codes, contains, nat_eq, list_eq,
}
use nineteenseventytwo_platf.Exporter.Severity.{normalize_severity}
use nineteenseventytwo_platf.Exporter.Store.{Finding, Store, new_store, set, set_data_time, fail}
use nineteenseventytwo_platf.Exporter.Metrics.{write}

-- the lowering of texts that are not ASCII does not matter here
abbrev keep_text : Bytes → Bytes
keep_text s = s

severity_critical : normalize_severity keep_text (codes "Emergency") ≡ codes "critical"
unfolding normalize_severity
severity_critical = refl

severity_info : normalize_severity keep_text (codes " Informational\n") ≡ codes "info"
unfolding normalize_severity
severity_info = refl

severity_unknown : normalize_severity keep_text (codes "bogus") ≡ codes "unknown"
unfolding normalize_severity
severity_unknown = refl

-- 2023-11-14T22:13:20Z, which is 1700000000 in Unix time
abbrev t0 : ℕ
t0 = (62135596800 + 1700000000) * 1000000000

abbrev hour : ℕ
hour = 3600 * 1000000000

abbrev quoted_rule : ℕ → Finding
quoted_rule t = record { severity = codes "medium"; item = codes "rule \"quoted\""; since = t }

sample : Store
unfolding set set_data_time fail
sample = set_data_time (codes "kubescape") (t0 - hour) (
    set (codes "kubescape") [] t0 (
      fail (codes "prowler") (
        set (codes "trivy") [] t0
          (set (codes "falco") (quoted_rule (t0 + hour) ∷ quoted_rule t0 ∷ []) t0 new_store))))

abbrev HasLine : Bytes → List Bytes → Type 0
HasLine l ls = contains l ls ≡ true

write_open :
    HasLine
      (codes "findings_open{source=\"falco\",severity=\"medium\",item=\"rule \\\"quoted\\\"\"} 2")
      (write sample)
unfolding write sample
write_open = refl

write_oldest :
    HasLine
      (codes
        "findings_oldest_open_timestamp_seconds{source=\"falco\",severity=\"medium\"} 1700000000")
      (write sample)
unfolding write sample
write_oldest = refl

write_down : HasLine (codes "findings_source_up{source=\"prowler\"} 0") (write sample)
unfolding write sample
write_down = refl

write_success :
    HasLine
      (codes "findings_source_last_success_timestamp_seconds{source=\"trivy\"} 1700000000")
      (write sample)
unfolding write sample
write_success = refl

write_data_time :
    HasLine
      (codes "findings_source_data_timestamp_seconds{source=\"kubescape\"} 1699996400")
      (write sample)
unfolding write sample
write_data_time = refl
