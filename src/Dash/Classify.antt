-- ===== src/Dash/Classify.antt =====
-- `classify` of images/dash/main.go.
use nineteenseventytwo_platf.Prelude.{
  ℕ, ◌≡◌, ◌≢◌, ◌↔◌, Bool, true, false, not, List, [], Bytes, codes, eqb, if◌then◌else◌, is_empty,
  arith,
}
use nineteenseventytwo_platf.Text.Parts.{join}
use nineteenseventytwo_platf.Dash.Int32.{at_least32}
use nineteenseventytwo_platf.Dash.Types.{State, Row, running, degraded, crashing, stopped, unknown}

-- the cases of the `switch`
unfoldable pub state_of : Bool → ℕ → ℕ → List Bytes → State
unfolding at_least32
state_of found desired ready reasons =
    if not found
    then unknown
    else if eqb desired 0
    then stopped
    else if not (is_empty reasons)
    then crashing
    else if at_least32 ready desired
    then running
    else degraded

unfoldable pub note_of : State → List Bytes → Bytes
unfolding join
note_of unknown reasons = codes "no workload found"
note_of crashing reasons = join (codes ", ") reasons
note_of _ reasons = []

unfoldable pub classify : Bytes → Bool → ℕ → ℕ → List Bytes → ℕ → Row
unfolding state_of note_of
classify component found desired ready reasons restarts =
    let state = state_of found desired ready reasons in
    record {
      component = component;
      state = state;
      ready = ready;
      desired = desired;
      restarts = restarts;
      note = note_of state reasons;
    }

-- what each state says of the component
abbrev pub Means : State → Bool → ℕ → ℕ → List Bytes → Type 0
Means unknown found desired ready reasons = found ≡ false
Means stopped found desired ready reasons = (found ≡ true) × (desired ≡ 0)
Means crashing found desired ready reasons =
    (found ≡ true) × (desired ≢ 0) × (is_empty reasons ≡ false)
Means running found desired ready reasons =
    (found ≡ true) × (desired ≢ 0) × (is_empty reasons ≡ true) × (at_least32 ready desired ≡ true)
Means degraded found desired ready reasons =
    (found ≡ true) × (desired ≢ 0) × (is_empty reasons ≡ true) × (at_least32 ready desired ≡ false)

state_of_iff :
    (s : State) (found : Bool) (desired ready : ℕ) (reasons : List Bytes)
    → (state_of found desired ready reasons ≡ s) ↔ Means s found desired ready reasons
unfolding state_of
state_of_iff running found desired ready reasons = ground arith
state_of_iff degraded found desired ready reasons = ground arith
state_of_iff crashing found desired ready reasons = ground arith
state_of_iff stopped found desired ready reasons = ground arith
state_of_iff unknown found desired ready reasons = ground arith

-- For every state and all arguments of `classify`: the row has that state exactly if the arguments
-- fulfil the condition of that state. Unknown means that no workload was found; the other four mean
-- that one was found and that: nothing is desired (stopped), something is desired and there is a
-- reason (crashing), or there is none and at least as many are ready as desired, by the signed
-- order (running), or fewer (degraded).
pub classify-Means :
    (s : State) (component : Bytes) (found : Bool) (desired ready : ℕ) (reasons : List Bytes)
    (restarts : ℕ)
    → ((classify component found desired ready reasons restarts).state ≡ s)
      ↔ Means s found desired ready reasons
unfolding classify
classify-Means s component found desired ready reasons restarts =
    state_of_iff s found desired ready reasons
