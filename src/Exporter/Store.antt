-- ===== src/Exporter/Store.antt =====
-- The store of images/findings-exporter/metrics.go: the last state of each source. Its methods hold
-- the mutex from beginning to end, so each is one step.
pub mod History
use nineteenseventytwo_platf.Prelude.{
  ℕ, Bool, true, false, List, [], ◌∷◌, Bytes, Option, none, some, Assoc, lookup, insert, nat_eq,
  list_eq,
}

-- Instants are nanoseconds since the zero `time.Time`, which is 0.
pub record Finding : Type 0 where
  pub severity : Bytes
  pub item : Bytes
  pub since : ℕ

pub record SourceState : Type 0 where
  pub findings : List Finding
  pub up : Bool
  pub last_success : ℕ
  pub data_time : ℕ

-- `&sourceState{}`
abbrev pub zero_state : SourceState
zero_state = record { findings = []; up = false; last_success = 0; data_time = 0 }

abbrev pub Store : Type 0
Store = Assoc Bytes SourceState

abbrev pub new_store : Store
new_store = []

-- `st.dataTime = prev.dataTime`, if there is a previous state
abbrev pub prev_data_time : Option SourceState → ℕ
prev_data_time none = 0
prev_data_time (some prev) = prev.data_time

unfoldable pub set : Bytes → List Finding → ℕ → Store → Store
unfolding lookup insert
set name fs now s =
    insert name
      (record {
        findings = fs;
        up = true;
        last_success = now;
        data_time = prev_data_time (lookup name s);
      })
      s

abbrev pub with_data_time : Bytes → ℕ → Store → Option SourceState → Store
with_data_time name t s none = s
with_data_time name t s (some st) = insert name (record st { data_time = t }) s

unfoldable pub set_data_time : Bytes → ℕ → Store → Store
unfolding lookup insert
set_data_time name t s = with_data_time name t s (lookup name s)

abbrev pub state_or_zero : Option SourceState → SourceState
state_or_zero none = zero_state
state_or_zero (some st) = st

unfoldable pub fail : Bytes → Store → Store
unfolding lookup insert
fail name s = insert name (record (state_or_zero (lookup name s)) { up = false }) s
