-- ===== src/Exporter/Collected.antt =====
-- The loops of images/findings-exporter/sources.go that sort alerts into a map of findings.
pub mod Findings
use nineteenseventytwo_platf.Prelude.{
  ℕ, Bool, not, List, [], ◌∷◌, ◌++◌, Bytes, Assoc, lookup, lookup_or, insert, contains, nat_eq,
  list_eq, if◌then◌else◌,
}
use nineteenseventytwo_platf.Exporter.Store.{Finding}

-- `out[src] = append(out[src], f)`
unfoldable pub add_finding :
    Bytes → Finding → Assoc Bytes (List Finding) → Assoc Bytes (List Finding)
unfolding lookup insert
add_finding src f out = insert src (lookup_or [] src out ++ f ∷ []) out

-- The loop over the alerts: what `slices.Contains` does not find among the wanted names is skipped.
module _ {ℓ} {A : Type ℓ} (name_of : A → Bytes) (finding_of : A → Finding)
    (wanted : List Bytes) where
  unfoldable pub collect_by : List A → Assoc Bytes (List Finding) → Assoc Bytes (List Finding)
  unfolding add_finding
  collect_by [] out = out
  collect_by (al ∷ rest) out = collect_by rest (
      if not (contains (name_of al) wanted)
      then out
      else add_finding (name_of al) (finding_of al) out)
