-- ===== src/Exporter/Metrics.antt =====
-- `store.write` and `writeDataTimes` of images/findings-exporter/metrics.go: the exposition of the
-- store, as lines.
pub mod Keys
pub mod Order
pub mod Counts
pub mod Least
pub mod Ages
pub mod Iteration
use nineteenseventytwo_platf.Prelude.{
  ℕ, ◌+◌, ◌-◌, ◌/◌, Bool, true, false, ◌&&◌, ◌||◌, List, [], ◌∷◌, ◌++◌, Bytes, codes, Option, none,
  some, eqb, ltb, leb, if◌then◌else◌, Assoc, keys, lookup, lookup_or, insert, nat_eq, list_eq, less,
}
use nineteenseventytwo_platf.Prelude.Sort.{sort}
use nineteenseventytwo_platf.Text.Decimal.{decimal}
use nineteenseventytwo_platf.Exporter.Store.{Finding, SourceState, zero_state, Store}
use nineteenseventytwo_platf.Exporter.Quote.{quote}
use nineteenseventytwo_platf.Exporter.Metrics.Keys.{
  CountKey, CountKey_eq, AgeKey, AgeKey_eq, count_less, age_less,
}

-- the two maps that the first loop fills
pub record Tally : Type 0 where
  pub counts : Assoc CountKey ℕ
  pub oldest : Assoc AgeKey ℕ

abbrev pub no_tally : Tally
no_tally = record { counts = []; oldest = [] }

-- `if o, ok := oldest[k]; !ok || f.Since.Before(o)`
abbrev pub earlier : ℕ → Option ℕ → Bool
earlier t none = true
earlier t (some o) = ltb t o

unfoldable pub note_age : Bytes → Finding → Assoc AgeKey ℕ → Assoc AgeKey ℕ
unfolding lookup insert
note_age name f oldest =
    let k : AgeKey = record { source = name; severity = f.severity } in
    if eqb f.since 0
    then oldest
    else if earlier f.since (lookup k oldest)
    then insert k f.since oldest
    else oldest

abbrev pub count_key : Bytes → Finding → CountKey
count_key name f = record { source = name; severity = f.severity; item = f.item }

-- the body of the inner loop
unfoldable pub tally_finding : Bytes → Finding → Tally → Tally
unfolding lookup insert note_age
tally_finding name f t = record {
  counts = let k = count_key name f in insert k (lookup_or 0 k t.counts + 1) t.counts;
  oldest = note_age name f t.oldest;
}

unfoldable pub tally_findings : Bytes → List Finding → Tally → Tally
unfolding tally_finding
tally_findings name [] t = t
tally_findings name (f ∷ fs) t = tally_findings name fs (tally_finding name f t)

unfoldable pub tally_sources : Store → Tally → Tally
unfolding tally_findings
tally_sources [] t = t
tally_sources ((name, st) ∷ s) t = tally_sources s (tally_findings name st.findings t)

-- `t.Unix()` in decimal; the Unix epoch is 62135596800 seconds behind the zero time
unfoldable pub unix : ℕ → Bytes
unfolding decimal
unix t =
    let s = t / 1000000000 in
    if leb 62135596800 s then decimal (s - 62135596800) else b'-' ∷ decimal (62135596800 - s)

abbrev pub label : Bytes → Bytes → Bytes
label name value = name ++ (b'=' ∷ quote value)

-- `findings_open{source=%s,severity=%s,item=%s} %d`
unfoldable pub count_line : CountKey → ℕ → Bytes
unfolding quote decimal
count_line k n =
    codes "findings_open{"
    ++ (label (codes "source") k.source
        ++ (b','
            ∷ (label (codes "severity") k.severity
                ++ (b',' ∷ (label (codes "item") k.item ++ (codes "} " ++ decimal n))))))

unfoldable pub age_line : AgeKey → ℕ → Bytes
unfolding quote unix
age_line k t =
    codes "findings_oldest_open_timestamp_seconds{"
    ++ (label (codes "source") k.source
        ++ (b',' ∷ (label (codes "severity") k.severity ++ (codes "} " ++ unix t))))

-- a line of a metric that has the source for its only label
unfoldable pub source_line : Bytes → Bytes → Bytes → Bytes
unfolding quote
source_line metric name value =
    metric ++ (b'{' ∷ (label (codes "source") name ++ (codes "} " ++ value)))

unfoldable pub count_lines : Assoc CountKey ℕ → List CountKey → List Bytes
unfolding lookup count_line
count_lines counts [] = []
count_lines counts (k ∷ ks) = count_line k (lookup_or 0 k counts) ∷ count_lines counts ks

unfoldable pub age_lines : Assoc AgeKey ℕ → List AgeKey → List Bytes
unfolding lookup age_line
age_lines oldest [] = []
age_lines oldest (k ∷ ks) = age_line k (lookup_or 0 k oldest) ∷ age_lines oldest ks

-- `s.sources[n]`; the names are keys of the map
abbrev pub state_of : Bytes → Store → SourceState
state_of n s = lookup_or zero_state n s

unfoldable pub up_lines : Store → List Bytes → List Bytes
unfolding lookup source_line decimal
up_lines s [] = []
up_lines s (n ∷ ns) =
    source_line (codes "findings_source_up") n (decimal (if (state_of n s).up then 1 else 0))
    ∷ up_lines s ns

-- a line for each source whose time is not the zero time
unfoldable pub time_lines : Bytes → (SourceState → ℕ) → Store → List Bytes → List Bytes
unfolding lookup source_line unix
time_lines metric time s [] = []
time_lines metric time s (n ∷ ns) =
    let rest = time_lines metric time s ns in
    let t = time (state_of n s) in if eqb t 0 then rest else source_line metric n (unix t) ∷ rest

abbrev pub open_header : List Bytes
open_header =
    codes
      "# HELP findings_open Open findings by source, normalised severity and item (rule, control, image or check)."
    ∷ codes "# TYPE findings_open gauge"
    ∷ []

abbrev pub oldest_header : List Bytes
oldest_header =
    codes
      "# HELP findings_oldest_open_timestamp_seconds When the oldest open finding was first seen, by source and severity."
    ∷ codes "# TYPE findings_oldest_open_timestamp_seconds gauge"
    ∷ []

abbrev pub up_header : List Bytes
up_header =
    codes "# HELP findings_source_up 1 if the source's last refresh succeeded."
    ∷ codes "# TYPE findings_source_up gauge"
    ∷ []

abbrev pub success_header : List Bytes
success_header =
    codes
      "# HELP findings_source_last_success_timestamp_seconds When the source last refreshed successfully."
    ∷ codes "# TYPE findings_source_last_success_timestamp_seconds gauge"
    ∷ []

abbrev pub data_header : List Bytes
data_header =
    codes
      "# HELP findings_source_data_timestamp_seconds When the source's data was produced (the Prowler report's write time)."
    ∷ codes "# TYPE findings_source_data_timestamp_seconds gauge"
    ∷ []

unfoldable pub write_data_times : Store → List Bytes → List Bytes
unfolding time_lines
write_data_times s names =
    data_header
    ++ time_lines (codes "findings_source_data_timestamp_seconds") (λ st. st.data_time) s names

-- the samples of `findings_open`, by their sorted keys
unfoldable pub count_section : Tally → List Bytes
unfolding count_lines sort count_less
count_section t = count_lines t.counts (sort count_less (keys t.counts))

-- the samples of `findings_oldest_open_timestamp_seconds`, by their sorted keys
unfoldable pub age_section : Tally → List Bytes
unfolding age_lines sort age_less
age_section t = age_lines t.oldest (sort age_less (keys t.oldest))

unfoldable pub write : Store → List Bytes
unfolding tally_sources sort count_section age_section up_lines time_lines write_data_times less
write s =
    let t = tally_sources s no_tally in
    let names = sort less (keys s) in
    open_header
    ++ (count_section t
        ++ (oldest_header
            ++ (age_section t
                ++ (up_header
                    ++ (up_lines s names
                        ++ (success_header
                            ++ (time_lines (codes "findings_source_last_success_timestamp_seconds")
                                  (λ st. st.last_success) s names
                                ++ write_data_times s names)))))))
