-- ===== src/Gate/Accepted/Sound.antt =====
-- What `parseAccepted` of images/kubescape-gate/main.go lets through, and where it stops.
use nineteenseventytwo_platf.Prelude.{
  ℕ, ◌+◌, ◌≡◌, ◌≢◌, ◌∙◌, ap, subst, true, false, List, [], ◌∷◌, ◌++◌, Bytes, codes, length, leb,
  eqb, arith, Option, none, some, ok, err, inl, inr, All, All-append, contains, Distinct,
  Bool-cases,
}
use nineteenseventytwo_platf.Text.Space.{fields}
use nineteenseventytwo_platf.Text.Space.Words.{IsWord, fields-IsWord, fields-Kept}
use nineteenseventytwo_platf.Text.Parts.{Lacks, cut_before, cut_before-Lacks}
use nineteenseventytwo_platf.Text.Affix.{has_prefix}
use nineteenseventytwo_platf.Gate.Types.{Pair, Pair_eq, Reader, GateError}
use nineteenseventytwo_platf.Gate.Scan.{add}
use nineteenseventytwo_platf.Gate.Scan.Failing.{Distinct-add}
use nineteenseventytwo_platf.Gate.Accepted.{
  max_token, entry, bad, drop_cr, line_entry, read_line, finish, accepted_loop, parse_accepted,
  raw_lines,
}
use nineteenseventytwo_platf.Gate.Accepted.Steps.{
  Short, loop-long, loop-blank, loop-entry, loop-bad, LineEntry-cases,
}

-- an entry of the reviewed list
pub record IsEntry (p : Pair) : Type 0 where
  pub control_id : has_prefix p.control (codes "C-") ≡ true
  pub control_word : IsWord p.control
  pub resource_word : IsWord p.resource
  pub uncommented : Lacks b'#' p.control × Lacks b'#' p.resource

line_entry-IsEntry :
    (line : ℕ) (text : Bytes) (fs : List Bytes) (p : Pair)
    → All IsWord fs
    → All (Lacks b'#') fs
    → line_entry line text fs ≡ entry p
    → IsEntry p
unfolding line_entry
line_entry-IsEntry line text [] p w l h = cc
line_entry-IsEntry line text (c ∷ []) p w l h = cc
line_entry-IsEntry line text (c ∷ r ∷ []) p w l h = elim (Bool-cases (has_prefix c (codes "C-"))) [
  | inl e ↦
      let same : record { control = c; resource = r } ≡ p = cc (rw e at h) in
      subst IsEntry same (record {
        control_id = e;
        control_word = w.0;
        resource_word = w.1.0;
        uncommented = (l.0, l.1.0);
      })
  | inr e ↦ cc (rw e at h)
]
line_entry-IsEntry line text (a ∷ b ∷ c ∷ more) p w l h = cc

read_line-IsEntry : (line : ℕ) (raw : Bytes) (p : Pair) → read_line line raw ≡ entry p → IsEntry p
read_line-IsEntry line raw p h =
    let text : Bytes = cut_before b'#' (drop_cr raw) in
    line_entry-IsEntry line (drop_cr raw) (fields text) p (fields-IsWord text)
      (fields-Kept (λ c. eqb c b'#' ≡ false) text (cut_before-Lacks b'#' (drop_cr raw)))
      (unfold read_line in h)

add-All : (p : Pair) (acc : List Pair) → IsEntry p → All IsEntry acc → All IsEntry (add p acc)
add-All p acc h a = elim (Bool-cases (contains p acc)) [
  | inl e ↦ unfold add in rw e a
  | inr e ↦ unfold add in rw e (All-append IsEntry acc (p ∷ []) a (h, tt))
]

module _ (failure : Option Bytes) where
  loop-IsEntry :
      (line : ℕ) (raws : List Bytes) (acc out : List Pair)
      → All IsEntry acc
      → Distinct acc
      → accepted_loop failure line raws acc ≡ ok out
      → All IsEntry out × Distinct out
  loop-IsEntry line [] acc out a d h =
      let same : acc ≡ out = finish-ok failure (unfold accepted_loop in h) in
      (subst (All IsEntry) same a, subst Distinct same d)
    where
      finish-ok : (f : Option Bytes) → finish f acc ≡ ok out → acc ≡ out
      finish-ok none k = unfold finish in cc
      finish-ok (some e) k = unfold finish in cc
  loop-IsEntry line (raw ∷ rest) acc out a d h = elim (Bool-cases (leb max_token (length raw))) [
    | inl long ↦ cc (loop-long failure line raw rest acc long, h)
    | inr short ↦ elim (LineEntry-cases (read_line (line + 1) raw)) [
      | inl e ↦
          loop-IsEntry (line + 1) rest acc out a d
            (rw (loop-blank failure line raw rest acc short e) at h)
      | inr (inl (p, e)) ↦
          loop-IsEntry (line + 1) rest (add p acc) out
            (add-All p acc (read_line-IsEntry (line + 1) raw p e) a) (Distinct-add p acc d)
            (rw (loop-entry failure line raw rest acc short e) at h)
      | inr (inr (g, e)) ↦ cc (loop-bad failure line raw rest acc short e, h)
    ]
  ]

-- Each pair of an accepted list has a control ID that begins with "C-", and a resource; both are
-- words without a comment sign. No pair is there twice.
pub parse_accepted-IsEntry :
    (r : Reader) (out : List Pair) → parse_accepted r ≡ ok out → All IsEntry out × Distinct out
parse_accepted-IsEntry r out h =
    loop-IsEntry r.failure 0 (raw_lines r.content) [] out tt tt (unfold parse_accepted in h)

-- Lines that put nothing wrong before the reader: short ones, blank or an entry.
abbrev pub AllFine : ℕ → List Bytes → Type 0
AllFine line [] = Unit
AllFine line (raw ∷ rest) =
    Short raw × ((g : GateError) → read_line (line + 1) raw ≢ bad g) × AllFine (line + 1) rest

loop-stops :
    (failure : Option Bytes) (line : ℕ) (fine : List Bytes) (raw : Bytes) (rest : List Bytes)
    (acc : List Pair) (g : GateError)
    → AllFine line fine
    → Short raw
    → read_line (line + length fine + 1) raw ≡ bad g
    → accepted_loop failure line (fine ++ raw ∷ rest) acc ≡ err g
loop-stops failure line [] raw rest acc g a s e =
    loop-bad failure line raw rest acc s (ap (λ n. read_line n raw) (omega arith) ∙ e)
loop-stops failure line (first ∷ fine) raw rest acc g a s e =
    elim (LineEntry-cases (read_line (line + 1) first)) [
      | inl b ↦
          loop-blank failure line first (fine ++ raw ∷ rest) acc a.0 b
          ∙ loop-stops failure (line + 1) fine raw rest acc g a.2 s e'
      | inr (inl (p, b)) ↦
          loop-entry failure line first (fine ++ raw ∷ rest) acc a.0 b
          ∙ loop-stops failure (line + 1) fine raw rest (add p acc) g a.2 s e'
      | inr (inr (k, b)) ↦ absurd (a.1 k b)
    ]
  where
    e' : read_line (line + 1 + length fine + 1) raw ≡ bad g
    e' = ap (λ n. read_line n raw) (omega arith) ∙ e

-- The first line that is wrong ends the reading with its own error, whatever follows it; the error
-- carries the line's number, counted from 1.
pub parse_accepted-first_bad :
    (r : Reader) (fine rest : List Bytes) (raw : Bytes) (g : GateError)
    → raw_lines r.content ≡ fine ++ raw ∷ rest
    → AllFine 0 fine
    → Short raw
    → read_line (length fine + 1) raw ≡ bad g
    → parse_accepted r ≡ err g
unfolding parse_accepted
parse_accepted-first_bad r fine rest raw g lines a s e =
    ap (λ l. accepted_loop r.failure 0 l []) lines
    ∙ loop-stops r.failure 0 fine raw rest [] g a s (ap (λ n. read_line n raw) (omega arith) ∙ e)
