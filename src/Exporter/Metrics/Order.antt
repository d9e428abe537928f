-- ===== src/Exporter/Metrics/Order.antt =====
-- The sorts of `store.write` (images/findings-exporter/metrics.go) have proper orders: the keys are
-- compared like words.
use nineteenseventytwo_platf.Prelude.{
  ◌≡◌, Bool, true, false, not, Bytes, ◌==◌, nat_eq, list_eq, list_same_iff, arith, less,
  less_irrefl, less_asym, less_trans_not, less_antisym, if◌then◌else◌,
}
use nineteenseventytwo_platf.Prelude.Sort.{IsOrder}
use nineteenseventytwo_platf.Exporter.Metrics.Keys.{CountKey, AgeKey, count_less, age_less}

-- two texts compared first, and a tie broken by `tie`
abbrev first_then : Bytes → Bytes → Bool → Bool
first_then a b tie = if not (a == b) then less a b else tie

module _ (a b : Bytes) (s t : Bool) where
  first_then_asym : (s ≡ true → t ≡ false) → first_then a b s ≡ true → first_then b a t ≡ false
  first_then_asym h k = ground (arith, list_same_iff a b, list_same_iff b a, less_asym a b)

  first_then_antisym :
      first_then a b s ≡ false → first_then b a t ≡ false → (a ≡ b) × (s ≡ false) × (t ≡ false)
  first_then_antisym h k =
      ground (arith, list_same_iff a b, list_same_iff b a, less_antisym a b, less_irrefl a)

first_then_trans :
    (a b c : Bytes) (s t u : Bool)
    → (s ≡ false → t ≡ false → u ≡ false)
    → first_then b a s ≡ false
    → first_then c b t ≡ false
    → first_then c a u ≡ false
first_then_trans a b c s t u h k l = ground (
  arith,
  list_same_iff b a,
  list_same_iff c b,
  list_same_iff c a,
  less_trans_not a b c,
  less_antisym a b,
  less_antisym b c,
  less_irrefl a,
)

pub age_less-IsOrder : IsOrder age_less
unfolding age_less
age_less-IsOrder = record {
  asym = λ a b. first_then_asym a.source b.source _ _ (less_asym a.severity b.severity);
  trans_not = λ a b c.
      first_then_trans a.source b.source c.source _ _ _
        (less_trans_not a.severity b.severity c.severity);
}

pub count_less-IsOrder : IsOrder count_less
unfolding count_less
count_less-IsOrder = record {
  asym = λ a b.
      first_then_asym a.source b.source _ _
        (first_then_asym a.severity b.severity _ _ (less_asym a.item b.item));
  trans_not = λ a b c. first_then_trans a.source b.source c.source _ _ _ (
      first_then_trans a.severity b.severity c.severity _ _ _
        (less_trans_not a.item b.item c.item));
}

-- keys that the orders do not tell apart are the same
pub age_less_antisym : (a b : AgeKey) → age_less a b ≡ false → age_less b a ≡ false → a ≡ b
unfolding age_less
age_less_antisym a b h k =
    let (e, h', k') = first_then_antisym a.source b.source _ _ h k in
    let f = less_antisym a.severity b.severity h' k' in λ i. record { source = e i; severity = f i }

pub count_less_antisym : (a b : CountKey) → count_less a b ≡ false → count_less b a ≡ false → a ≡ b
unfolding count_less
count_less_antisym a b h k =
    let (e, h', k') = first_then_antisym a.source b.source _ _ h k in
    let (f, h″, k″) = first_then_antisym a.severity b.severity _ _ h' k' in
    let g = less_antisym a.item b.item h″ k″ in
    λ i. record { source = e i; severity = f i; item = g i }

pub count_less_irrefl : (a : CountKey) → count_less a a ≡ false
unfolding count_less
count_less_irrefl a = ground (
  arith,
  less_irrefl a.item,
  list_same_iff a.source a.source,
  list_same_iff a.severity a.severity,
)

pub age_less_irrefl : (a : AgeKey) → age_less a a ≡ false
unfolding age_less
age_less_irrefl a = ground (arith, less_irrefl a.severity, list_same_iff a.source a.source)
