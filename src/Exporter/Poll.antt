-- ===== src/Exporter/Poll.antt =====
-- `poll` of images/findings-exporter/main.go: one round of the loop, as the calls of the store that
-- it makes.
pub mod Rounds
use nineteenseventytwo_platf.Prelude.{
  ℕ, zero, suc, ◌+◌, List, [], ◌∷◌, ◌++◌, map, Bytes, Option, none, some, Assoc, lookup, lookup_or,
  nat_eq, list_eq, Result, ok, err,
}
use nineteenseventytwo_platf.Exporter.Store.{Finding, Store}
use nineteenseventytwo_platf.Exporter.Store.History.{
  Call, set_call, data_time_call, fail_call, apply_all,
}

-- what `src.collect` returns
abbrev pub Collected : Type 0
Collected = Result Bytes (Assoc Bytes (List Finding))

-- `clock i` is the reading of `time.Now` for the name at place `i`
unfoldable pub set_calls : (ℕ → ℕ) → ℕ → List Bytes → Assoc Bytes (List Finding) → List Call
unfolding lookup
set_calls clock i [] results = []
set_calls clock i (name ∷ names) results =
    set_call name (lookup_or [] name results) (clock i) ∷ set_calls clock (suc i) names results

unfoldable pub fail_calls : List Bytes → List Call
fail_calls [] = []
fail_calls (name ∷ names) = fail_call name ∷ fail_calls names

unfoldable pub data_time_calls : Assoc Bytes ℕ → List Call
data_time_calls [] = []
data_time_calls ((name, t) ∷ times) = data_time_call name t ∷ data_time_calls times

-- One round: `times` is what `dataTimes` returns, and empty for a source that has no such method.
unfoldable pub poll_calls : List Bytes → Collected → Assoc Bytes ℕ → (ℕ → ℕ) → List Call
unfolding set_calls fail_calls data_time_calls
poll_calls names (err e) times clock = fail_calls names
poll_calls names (ok results) times clock = set_calls clock 0 names results ++ data_time_calls times

unfoldable pub poll_round : List Bytes → Collected → Assoc Bytes ℕ → (ℕ → ℕ) → Store → Store
unfolding poll_calls apply_all
poll_round names collected times clock = apply_all (poll_calls names collected times clock)
