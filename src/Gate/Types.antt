-- ===== src/Gate/Types.antt =====
-- The types of kubescape-gate: pairs, the decoded scan, alerts and errors.
use nineteenseventytwo_platf.Prelude.{
  ℕ, ◌≡◌, ◌↔◌, Bool, true, ◌&&◌, List, ◌∷◌, ◌++◌, Bytes, Assoc, Comparable, ◌==◌, nat_eq, list_eq,
  list_same_iff, arith, Option,
}

-- one control failing on one resource
pub record Pair : Type 0 where
  pub control : Bytes
  pub resource : Bytes

abbrev pub Pair_same : Pair → Pair → Bool
Pair_same p q = p.control == q.control && p.resource == q.resource

pub Pair_same_iff : (p q : Pair) → (Pair_same p q ≡ true) ↔ (p ≡ q)
Pair_same_iff p q =
    ground (arith, list_same_iff p.control q.control, list_same_iff p.resource q.resource)

instance abbrev pub Pair_eq : Comparable Pair
Pair_eq = record { same = Pair_same; same_iff = Pair_same_iff }

-- `func (p pair) String() string`
abbrev pub pair_string : Pair → Bytes
pair_string p = p.control ++ (b' ' ∷ p.resource)

pub record Control : Type 0 where
  pub control_id : Bytes
  pub name : Bytes
  pub status : Bytes

pub record ScanItem : Type 0 where
  pub resource_id : Bytes
  pub controls : List Control

-- `scanResult`, as `encoding/json` decodes it
pub record ScanResult : Type 0 where
  pub results : List ScanItem

-- An open file: what its bytes are, and the error with which reading them ends, if any.
pub record Reader : Type 0 where
  pub content : Bytes
  pub failure : Option Bytes

-- The reasons for which the gate exits with 1; a text is the wrapped error's.
pub data GateError : Type 0 where
  open_scan : Bytes → GateError
  decode_scan : Bytes → GateError
  no_results : GateError
  open_accepted : Bytes → GateError
  not_control_id : ℕ → Bytes → GateError
  malformed_line : ℕ → Bytes → GateError
  read_accepted : Bytes → GateError
  marshal_alerts : Bytes → GateError
  post_alerts : Bytes → GateError
  refused : Bytes → Bytes → GateError

-- Instants and durations are nanoseconds.
pub record Alert : Type 0 where
  pub labels : Assoc Bytes Bytes
  pub annotations : Assoc Bytes Bytes
  pub starts_at : ℕ
  pub ends_at : ℕ

pub record Config : Type 0 where
  pub scan_path : Bytes
  pub accepted_path : Bytes
  pub alertmanager : Bytes
  pub expire : ℕ
