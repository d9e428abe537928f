-- ===== src/Gate/Accepted.antt =====
-- `parseAccepted`: the reviewed list, one pair to a line, read by a `bufio.Scanner`.
pub mod Steps
pub mod Sound
pub mod RoundTrip
use nineteenseventytwo_platf.Prelude.{
  ℕ, ◌+◌, List, [], ◌∷◌, reverse, Bytes, codes, if◌then◌else◌, leb, eqb, length, Option, none, some,
  Result, ok, err,
}
use nineteenseventytwo_platf.Text.Space.{fields}
use nineteenseventytwo_platf.Text.Parts.{split, cut_before}
use nineteenseventytwo_platf.Text.Affix.{has_prefix}
use nineteenseventytwo_platf.Gate.Types.{
  Pair, Reader, GateError, not_control_id, malformed_line, read_accepted,
}
use nineteenseventytwo_platf.Gate.Scan.{add}

-- `bufio.MaxScanTokenSize`
abbrev pub max_token : ℕ
max_token = 65536

-- `bufio.dropCR`
unfoldable pub drop_cr : Bytes → Bytes
drop_cr [] = []
drop_cr (c ∷ []) = if eqb c b'\r' then [] else c ∷ []
drop_cr (c ∷ d ∷ s) = c ∷ drop_cr (d ∷ s)

-- what follows the last newline is a line only if it is not empty
pub drop_empty_last : List Bytes → List Bytes
drop_empty_last [] = []
drop_empty_last ([] ∷ []) = []
drop_empty_last ((c ∷ s) ∷ []) = (c ∷ s) ∷ []
drop_empty_last (p ∷ q ∷ ps) = p ∷ drop_empty_last (q ∷ ps)

-- the lines, still with their carriage returns
unfoldable pub raw_lines : Bytes → List Bytes
unfolding split drop_empty_last
raw_lines content = drop_empty_last (split b'\n' content)

-- what one line does
pub data LineEntry : Type 0 where
  blank : LineEntry
  entry : Pair → LineEntry
  bad : GateError → LineEntry

-- the `switch`
unfoldable pub line_entry : ℕ → Bytes → List Bytes → LineEntry
unfolding has_prefix
line_entry line text [] = blank
line_entry line text (control ∷ []) = bad (malformed_line line text)
line_entry line text (control ∷ resource ∷ []) =
    if has_prefix control (codes "C-")
    then entry (record { control = control; resource = resource })
    else bad (not_control_id line control)
line_entry line text (a ∷ b ∷ c ∷ more) = bad (malformed_line line text)

unfoldable pub read_line : ℕ → Bytes → LineEntry
unfolding line_entry fields cut_before drop_cr
read_line line raw = let text = drop_cr raw in line_entry line text (fields (cut_before b'#' text))

-- the test of `sc.Err()` behind the loop
pub finish : Option Bytes → List Pair → Result GateError (List Pair)
finish none accepted = ok accepted
finish (some e) accepted = err (read_accepted e)

-- The loop; `line` is the number of lines read. A line that does not fit the scanner's buffer ends
-- it with `bufio.ErrTooLong`.
unfoldable pub accepted_loop :
    Option Bytes → ℕ → List Bytes → List Pair → Result GateError (List Pair)
unfolding add read_line finish
accepted_loop failure line [] accepted = finish failure accepted
accepted_loop failure line (raw ∷ rest) accepted =
    if leb max_token (length raw)
    then finish (some (codes "bufio.Scanner: token too long")) accepted
    else elim (read_line (line + 1) raw) [
      | blank ↦ accepted_loop failure (line + 1) rest accepted
      | entry p ↦ accepted_loop failure (line + 1) rest (add p accepted)
      | bad e ↦ err e
    ]

unfoldable pub parse_accepted : Reader → Result GateError (List Pair)
unfolding accepted_loop raw_lines
parse_accepted r = accepted_loop r.failure 0 (raw_lines r.content) []
