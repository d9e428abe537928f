-- ===== src/Exporter/Metrics/Keys.antt =====
-- `countKey` and `ageKey` of images/findings-exporter/metrics.go, and the orders of their sorts.
use nineteenseventytwo_platf.Prelude.{
  ◌≡◌, ◌↔◌, Bool, true, not, ◌&&◌, Bytes, Comparable, ◌==◌, nat_eq, list_eq, list_same_iff, arith,
  if◌then◌else◌, less,
}

pub record CountKey : Type 0 where
  pub source : Bytes
  pub severity : Bytes
  pub item : Bytes

pub record AgeKey : Type 0 where
  pub source : Bytes
  pub severity : Bytes

abbrev pub CountKey_same : CountKey → CountKey → Bool
CountKey_same a b = a.source == b.source && (a.severity == b.severity && a.item == b.item)

pub CountKey_same_iff : (a b : CountKey) → (CountKey_same a b ≡ true) ↔ (a ≡ b)
CountKey_same_iff a b = ground (
  arith,
  list_same_iff a.source b.source,
  list_same_iff a.severity b.severity,
  list_same_iff a.item b.item,
)

instance abbrev pub CountKey_eq : Comparable CountKey
CountKey_eq = record { same = CountKey_same; same_iff = CountKey_same_iff }

abbrev pub AgeKey_same : AgeKey → AgeKey → Bool
AgeKey_same a b = a.source == b.source && a.severity == b.severity

pub AgeKey_same_iff : (a b : AgeKey) → (AgeKey_same a b ≡ true) ↔ (a ≡ b)
AgeKey_same_iff a b =
    ground (arith, list_same_iff a.source b.source, list_same_iff a.severity b.severity)

instance abbrev pub AgeKey_eq : Comparable AgeKey
AgeKey_eq = record { same = AgeKey_same; same_iff = AgeKey_same_iff }

-- the comparison of two keys by source, severity and item
unfoldable pub count_less : CountKey → CountKey → Bool
unfolding less
count_less a b =
    if not (a.source == b.source)
    then less a.source b.source
    else if not (a.severity == b.severity)
    then less a.severity b.severity
    else less a.item b.item

unfoldable pub age_less : AgeKey → AgeKey → Bool
unfolding less
age_less a b =
    if not (a.source == b.source) then less a.source b.source else less a.severity b.severity
