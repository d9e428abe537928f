-- ===== src/Gate/Accepted/Steps.antt =====
-- One round of the loop of `parseAccepted` (images/kubescape-gate/main.go), for each kind of line.
use nineteenseventytwo_platf.Prelude.{
  ℕ, ◌+◌, ◌≡◌, refl, true, false, List, ◌∷◌, Bytes, codes, length, leb, Option, err, ◌⊎◌, inl, inr,
}
use nineteenseventytwo_platf.Gate.Types.{Pair, GateError, read_accepted}
use nineteenseventytwo_platf.Gate.Scan.{add}
use nineteenseventytwo_platf.Gate.Accepted.{
  max_token, LineEntry, blank, entry, bad, read_line, accepted_loop,
}

abbrev pub Short : Bytes → Type 0
Short raw = leb max_token (length raw) ≡ false

module _ (failure : Option Bytes) (line : ℕ) (raw : Bytes) (rest : List Bytes)
    (acc : List Pair) where
  pub loop-long :
      leb max_token (length raw) ≡ true
      → accepted_loop failure line (raw ∷ rest) acc
        ≡ err (read_accepted (codes "bufio.Scanner: token too long"))
  unfolding accepted_loop
  loop-long h = rw h

  pub loop-blank :
      Short raw
      → read_line (line + 1) raw ≡ blank
      → accepted_loop failure line (raw ∷ rest) acc ≡ accepted_loop failure (line + 1) rest acc
  unfolding accepted_loop
  loop-blank h e = rw (h, e, accepted_loop)

  pub loop-entry :
      {p : Pair}
      → Short raw
      → read_line (line + 1) raw ≡ entry p
      → accepted_loop failure line (raw ∷ rest) acc
        ≡ accepted_loop failure (line + 1) rest (add p acc)
  unfolding accepted_loop
  loop-entry h e = rw (h, e, accepted_loop)

  pub loop-bad :
      {e : GateError}
      → Short raw
      → read_line (line + 1) raw ≡ bad e
      → accepted_loop failure line (raw ∷ rest) acc ≡ err e
  unfolding accepted_loop
  loop-bad h e = rw (h, e, accepted_loop)

pub LineEntry-cases :
    (l : LineEntry) → (l ≡ blank) ⊎ ((p : Pair) × (l ≡ entry p)) ⊎ ((e : GateError) × (l ≡ bad e))
LineEntry-cases blank = inl refl
LineEntry-cases (entry p) = inr (inl (p, refl))
LineEntry-cases (bad e) = inr (inr (e, refl))
