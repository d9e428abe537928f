-- ===== src/Gate/Scan/Failing.antt =====
-- Which pairs `parseScan` of images/kubescape-gate/main.go reports, and under which names.
use nineteenseventytwo_platf.Prelude.{
  ◌≡◌, ◌≢◌, refl, ap, ◌∙◌, Bool, true, false, ◌&&◌, ◌||◌, List, [], ◌∷◌, ◌++◌, Bytes, arith, ◌==◌,
  nat_eq, list_eq, contains, Distinct, contains-append, Bool-cases, inl, inr, Option, none, some,
  lookup, lookup-insert, if◌then◌else◌, ok, err,
}
use nineteenseventytwo_platf.Gate.Types.{
  Pair, Pair_eq, Pair_same_iff, Control, ScanItem, ScanResult, no_results,
}
use nineteenseventytwo_platf.Gate.Normalize.{normalize}
use nineteenseventytwo_platf.Gate.Scan.{
  Scan, add, failed, scan_control, scan_controls, scan_items, read_scan,
}

module _ where
  pub contains-add : (p q : Pair) (s : List Pair) → contains p (add q s) ≡ (p == q || contains p s)
  unfolding add
  contains-add p q s = elim (Bool-cases (contains q s)) [
    | inl e ↦ rw e (ground (arith, Pair_same_iff p q))
    | inr e ↦ rw (e, contains-append p s (q ∷ [])) (ground arith)
  ]

  Distinct-concat :
      (q : Pair) (s : List Pair) → contains q s ≡ false → Distinct s → Distinct (s ++ q ∷ [])
  Distinct-concat q [] h d = (refl, tt)
  Distinct-concat q (p ∷ s) h d = ground (
    arith,
    contains-append p s (q ∷ []),
    Distinct-concat q s,
    Pair_same_iff p q,
    Pair_same_iff q p,
  )

  pub Distinct-add : (q : Pair) (s : List Pair) → Distinct s → Distinct (add q s)
  unfolding add
  Distinct-add q s d = elim (Bool-cases (contains q s)) [
    | inl e ↦ rw e d
    | inr e ↦ rw e (Distinct-concat q s e d)
  ]

-- what the scan says of a pair, read off its items
abbrev pub pair_of : Bytes → Control → Pair
pair_of id c = record { control = c.control_id; resource = normalize id }

abbrev pub fails_here : Pair → Bytes → List Control → Bool
fails_here p id [] = false
fails_here p id (c ∷ cs) = (failed c && p == pair_of id c) || fails_here p id cs

abbrev pub fails_in : Pair → List ScanItem → Bool
fails_in p [] = false
fails_in p (item ∷ items) = fails_here p item.resource_id item.controls || fails_in p items

failing-scan_control :
    (p : Pair) (id : Bytes) (c : Control) (s : Scan)
    → contains p (scan_control id c s).failing
      ≡ ((failed c && p == pair_of id c) || contains p s.failing)
unfolding scan_control
failing-scan_control p id c s = elim (Bool-cases (failed c)) [
  | inl e ↦ rw e (contains-add p (pair_of id c) s.failing)
  | inr e ↦ rw e
]

failing-scan_controls :
    (p : Pair) (id : Bytes) (cs : List Control) (s : Scan)
    → contains p (scan_controls id cs s).failing ≡ (fails_here p id cs || contains p s.failing)
unfolding scan_controls
failing-scan_controls p id [] s = refl
failing-scan_controls p id (c ∷ cs) s =
    failing-scan_controls p id cs (scan_control id c s)
    ∙ ground (arith, failing-scan_control p id c s)

pub failing-scan_items :
    (p : Pair) (items : List ScanItem) (s : Scan)
    → contains p (scan_items items s).failing ≡ (fails_in p items || contains p s.failing)
unfolding scan_items
failing-scan_items p [] s = refl
failing-scan_items p (item ∷ items) s =
    failing-scan_items p items (scan_controls item.resource_id item.controls s)
    ∙ ground (arith, failing-scan_controls p item.resource_id item.controls s)

Distinct-scan_controls :
    (id : Bytes) (cs : List Control) (s : Scan)
    → Distinct s.failing
    → Distinct (scan_controls id cs s).failing
unfolding scan_controls scan_control
Distinct-scan_controls id [] s d = d
Distinct-scan_controls id (c ∷ cs) s d =
    Distinct-scan_controls id cs (scan_control id c s) (Distinct-if (failed c))
  where
    Distinct-if : (b : Bool) → Distinct (if b then add (pair_of id c) s.failing else s.failing)
    Distinct-if true = Distinct-add (pair_of id c) s.failing d
    Distinct-if false = d

Distinct-scan_items :
    (items : List ScanItem) (s : Scan) → Distinct s.failing → Distinct (scan_items items s).failing
unfolding scan_items
Distinct-scan_items [] s d = d
Distinct-scan_items (item ∷ items) s d =
    Distinct-scan_items items _ (Distinct-scan_controls item.resource_id item.controls s d)

-- the name that the last control of that ID carries
abbrev pub name_here : Bytes → List Control → Option Bytes → Option Bytes
name_here k [] o = o
name_here k (c ∷ cs) o = name_here k cs (if k == c.control_id then some c.name else o)

abbrev pub name_in : Bytes → List ScanItem → Option Bytes → Option Bytes
name_in k [] o = o
name_in k (item ∷ items) o = name_in k items (name_here k item.controls o)

names-scan_controls :
    (k id : Bytes) (cs : List Control) (s : Scan)
    → lookup k (scan_controls id cs s).names ≡ name_here k cs (lookup k s.names)
unfolding scan_controls scan_control
names-scan_controls k id [] s = refl
names-scan_controls k id (c ∷ cs) s =
    names-scan_controls k id cs (scan_control id c s)
    ∙ ap (name_here k cs) (lookup-insert k c.control_id c.name s.names)

names-scan_items :
    (k : Bytes) (items : List ScanItem) (s : Scan)
    → lookup k (scan_items items s).names ≡ name_in k items (lookup k s.names)
unfolding scan_items
names-scan_items k [] s = refl
names-scan_items k (item ∷ items) s =
    names-scan_items k items (scan_controls item.resource_id item.controls s)
    ∙ ap (name_in k items) (names-scan_controls k item.resource_id item.controls s)

-- What a scan comes to: its failing pairs, each once, and the controls' names.
pub record Reports (items : List ScanItem) (s : Scan) : Type 0 where
  pub fails : (p : Pair) → contains p s.failing ≡ fails_in p items
  pub once : Distinct s.failing
  pub named : (k : Bytes) → lookup k s.names ≡ name_in k items none

pub start : Scan
start = record { failing = []; names = [] }

read_items : (items : List ScanItem) → Reports items (scan_items items start)
unfolding start lookup
read_items items = record {
  fails = λ p. failing-scan_items p items start ∙ ground arith;
  once = Distinct-scan_items items start tt;
  named = λ k. names-scan_items k items start;
}

read_scan_cases :
    (items : List ScanItem)
    → items ≢ []
    → read_scan (record { results = items }) ≡ ok (scan_items items start)
unfolding read_scan start
read_scan_cases [] n = absurd (n refl)
read_scan_cases (item ∷ items) n = refl

-- A scan without results is refused. Any other is read, a pair is failing exactly when some item
-- with that normal form has the control with status "failed", no pair is listed twice, and a
-- control's name is the one that it carries last.
pub read_scan-Reports :
    (scan : ScanResult)
    → (scan.results ≡ [] → read_scan scan ≡ err no_results)
      × (scan.results ≢ [] → (s : Scan) × (read_scan scan ≡ ok s) × Reports scan.results s)
unfolding read_scan
read_scan-Reports scan = (
  λ e. rw e,
  λ n. (scan_items scan.results start, read_scan_cases scan.results n, read_items scan.results),
)
