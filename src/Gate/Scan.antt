-- ===== src/Gate/Scan.antt =====
-- `parseScan`: the failing pairs and the controls' names, from the decoded scan.
pub mod Failing
use nineteenseventytwo_platf.Prelude.{
  Bool, List, [], ◌∷◌, ◌++◌, Bytes, codes, if◌then◌else◌, ◌==◌, nat_eq, list_eq, contains, Assoc,
  insert, Result, ok, err, ◌>>=◌, wrap, is_empty,
}
use nineteenseventytwo_platf.Gate.Types.{
  Pair, Pair_eq, Control, ScanItem, ScanResult, Reader, GateError, decode_scan, no_results,
}
use nineteenseventytwo_platf.Gate.Normalize.{normalize}

-- The two maps that the loops fill: `failing` holds the keys of a `map[pair]bool`, all true.
pub record Scan : Type 0 where
  pub failing : List Pair
  pub names : Assoc Bytes Bytes

-- `set[p] = true`
unfoldable pub add : Pair → List Pair → List Pair
add p set = if contains p set then set else set ++ p ∷ []

abbrev pub failed : Control → Bool
failed c = c.status == codes "failed"

-- the body of the inner loop
unfoldable pub scan_control : Bytes → Control → Scan → Scan
unfolding add insert
scan_control resource_id c s = record {
  failing =
      if failed c
      then add (record { control = c.control_id; resource = normalize resource_id }) s.failing
      else s.failing;
  names = insert c.control_id c.name s.names;
}

unfoldable pub scan_controls : Bytes → List Control → Scan → Scan
unfolding scan_control
scan_controls resource_id [] s = s
scan_controls resource_id (c ∷ cs) s = scan_controls resource_id cs (scan_control resource_id c s)

unfoldable pub scan_items : List ScanItem → Scan → Scan
unfolding scan_controls
scan_items [] s = s
scan_items (item ∷ items) s = scan_items items (scan_controls item.resource_id item.controls s)

unfoldable pub read_scan : ScanResult → Result GateError Scan
unfolding scan_items
read_scan scan =
    if is_empty scan.results
    then err no_results
    else ok (scan_items scan.results (record { failing = []; names = [] }))

-- `json.NewDecoder(r).Decode(&scan)` is the argument `decode`.
unfoldable pub parse_scan : (Reader → Result Bytes ScanResult) → Reader → Result GateError Scan
unfolding read_scan
parse_scan decode r = wrap decode_scan (decode r) >>= read_scan
