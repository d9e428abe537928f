-- ===== src/Gate/Accepted/RoundTrip.antt =====
-- A list of entries, printed one to a line with a comment behind each, is read back
-- (`parseAccepted` of images/kubescape-gate/main.go).
use nineteenseventytwo_platf.Prelude.{
  ℕ, ◌+◌, ◌≡◌, refl, ◌∙◌, ap, true, false, List, [], ◌∷◌, ◌++◌, Bytes, codes, eqb, arith,
  append_assoc, append-nil, none, ok, All, All-append, All-map, contains, Distinct, is_empty,
  contains-append,
}
use nineteenseventytwo_platf.Text.Space.{fields}
use nineteenseventytwo_platf.Text.Space.Words.{IsPlain, fields-two}
use nineteenseventytwo_platf.Text.Parts.{split, Lacks, cut_before, split-append}
use nineteenseventytwo_platf.Text.Affix.{has_prefix}
use nineteenseventytwo_platf.Gate.Types.{Pair, Pair_eq, Pair_same_iff}
use nineteenseventytwo_platf.Gate.Scan.{add}
use nineteenseventytwo_platf.Gate.Accepted.{
  entry, drop_cr, line_entry, read_line, drop_empty_last, raw_lines, accepted_loop, parse_accepted,
}
use nineteenseventytwo_platf.Gate.Accepted.Steps.{Short, loop-entry}

-- An entry and its comment.
pub record Noted : Type 0 where
  pub pair : Pair
  pub comment : Bytes

abbrev pub print_line : Noted → Bytes
print_line n = n.pair.control ++ b' ' ∷ (n.pair.resource ++ b' ' ∷ (b'#' ∷ n.comment))

abbrev pub print : List Noted → Bytes
print [] = []
print (n ∷ ns) = print_line n ++ b'\n' ∷ print ns

abbrev pub pairs : List Noted → List Pair
pairs [] = []
pairs (n ∷ ns) = n.pair ∷ pairs ns

-- a word that can stand in the list: visible ASCII without a comment sign
abbrev pub IsListed : Bytes → Type 0
IsListed w = All IsPlain w × Lacks b'#' w × (is_empty w ≡ false)

pub record IsPrintable (n : Noted) : Type 0 where
  pub control_id : has_prefix n.pair.control (codes "C-") ≡ true
  pub control : IsListed n.pair.control
  pub resource : IsListed n.pair.resource
  pub one_line : Lacks b'\n' n.comment
  pub short : Short (print_line n)

cut_before-append : (sep : ℕ) (a c : Bytes) → Lacks sep a → cut_before sep (a ++ sep ∷ c) ≡ a
unfolding cut_before
cut_before-append sep [] c h = ground arith
cut_before-append sep (x ∷ a) c h = ground (arith, cut_before-append sep a c)

-- dropping a carriage return does not reach back over a comment sign
drop_cr-hash : (a c : Bytes) → (c' : Bytes) × (drop_cr (a ++ b'#' ∷ c) ≡ a ++ b'#' ∷ c')
unfolding drop_cr
drop_cr-hash [] [] = ([], refl)
drop_cr-hash [] (x ∷ c) = (drop_cr (x ∷ c), refl)
drop_cr-hash (x ∷ []) c = let (c', e) = drop_cr-hash [] c in (c', ap (λ s. x ∷ s) e)
drop_cr-hash (x ∷ y ∷ a) c = let (c', e) = drop_cr-hash (y ∷ a) c in (c', ap (λ s. x ∷ s) e)

-- the part of a printed line before its comment
abbrev front : Pair → Bytes
front p = p.control ++ b' ' ∷ (p.resource ++ b' ' ∷ [])

front-append : (p : Pair) (s : Bytes) → p.control ++ b' ' ∷ (p.resource ++ b' ' ∷ s) ≡ front p ++ s
front-append p s = simp append_assoc

front-Lacks : (n : Noted) → IsPrintable n → Lacks b'#' (front n.pair)
front-Lacks n h =
    All-append _ n.pair.control _ h.control.1
      (refl, All-append _ n.pair.resource (b' ' ∷ []) h.resource.1 (refl, tt))

read_line-print :
    (line : ℕ) (n : Noted) → IsPrintable n → read_line line (print_line n) ≡ entry n.pair
read_line-print line n h =
    let (c', e) = drop_cr-hash (front n.pair) n.comment in
    let text : drop_cr (print_line n) ≡ front n.pair ++ b'#' ∷ c' =
      ap drop_cr (front-append n.pair (b'#' ∷ n.comment)) ∙ e in
    unfold_read
    ∙ ap (λ s. line_entry line (drop_cr (print_line n)) (fields s))
        (ap (cut_before b'#') text ∙ cut_before-append b'#' (front n.pair) c' (front-Lacks n h))
    ∙ ap (line_entry line (drop_cr (print_line n))) (
        fields-two n.pair.control n.pair.resource h.control.0 h.resource.0 h.control.2 h.resource.2)
    ∙ unfold line_entry in rw h.control_id
  where
    unfold_read :
        read_line line (print_line n)
        ≡ line_entry line
            (drop_cr (print_line n))
            (fields (cut_before b'#' (drop_cr (print_line n))))
    unfold_read = unfold read_line in refl

abbrev lines_of : List Noted → List Bytes
lines_of [] = []
lines_of (n ∷ ns) = print_line n ∷ lines_of ns

plain-ne-newline : (c : ℕ) → IsPlain c → eqb c b'\n' ≡ false
plain-ne-newline c h = ground arith

print_line-Lacks : (n : Noted) → IsPrintable n → Lacks b'\n' (print_line n)
print_line-Lacks n h =
    All-append _ n.pair.control _ (All-map plain-ne-newline n.pair.control h.control.0) (
      refl,
      All-append _ n.pair.resource _ (All-map plain-ne-newline n.pair.resource h.resource.0)
          (refl, (refl, h.one_line)),
    )

split-print :
    (ns : List Noted) → All IsPrintable ns → split b'\n' (print ns) ≡ lines_of ns ++ [] ∷ []
split-print [] h = unfold split in refl
split-print (n ∷ ns) h =
    split-append b'\n' (print_line n) (print ns) (print_line-Lacks n h.0)
    ∙ ap (λ l. print_line n ∷ l) (split-print ns h.1)

drop_empty_last-append : (ls : List Bytes) → drop_empty_last (ls ++ [] ∷ []) ≡ ls
unfolding drop_empty_last
drop_empty_last-append [] = refl
drop_empty_last-append (l ∷ []) = refl
drop_empty_last-append (l ∷ m ∷ ls) = ap (λ x. l ∷ x) (drop_empty_last-append (m ∷ ls))

raw_lines-print : (ns : List Noted) → All IsPrintable ns → raw_lines (print ns) ≡ lines_of ns
unfolding raw_lines
raw_lines-print ns h = ap drop_empty_last (split-print ns h) ∙ drop_empty_last-append (lines_of ns)

-- no pair of the second list is in the first
abbrev Avoids : List Pair → List Pair → Type 0
Avoids acc = All (λ p. contains p acc ≡ false)

Avoids-cons :
    (acc ps : List Pair) (p : Pair)
    → Avoids acc ps
    → contains p ps ≡ false
    → Avoids (acc ++ p ∷ []) ps
Avoids-cons acc [] p a h = tt
Avoids-cons acc (q ∷ ps) p a h = (
  contains-append q acc (p ∷ []) ∙ ground (arith, Pair_same_iff p q, Pair_same_iff q p),
  Avoids-cons acc ps p a.1 (ground arith),
)

loop-print :
    (line : ℕ) (ns : List Noted) (acc : List Pair)
    → All IsPrintable ns
    → Distinct (pairs ns)
    → Avoids acc (pairs ns)
    → accepted_loop none line (lines_of ns) acc ≡ ok (acc ++ pairs ns)
loop-print line [] acc h d a = unfold accepted_loop in rw append-nil
loop-print line (n ∷ ns) acc h d a =
    loop-entry none line (print_line n) (lines_of ns) acc h.0.short
      (read_line-print (line + 1) n h.0)
    ∙ ap (accepted_loop none (line + 1) (lines_of ns)) added
    ∙ loop-print (line + 1) ns (acc ++ n.pair ∷ []) h.1 d.1
        (Avoids-cons acc (pairs ns) n.pair a.1 d.0)
    ∙ ap ok (append_assoc acc (n.pair ∷ []) (pairs ns))
  where
    added : add n.pair acc ≡ acc ++ n.pair ∷ []
    added = unfold add in rw a.0

Avoids-nil : (ps : List Pair) → Avoids [] ps
Avoids-nil [] = tt
Avoids-nil (p ∷ ps) = (refl, Avoids-nil ps)

-- Entries, no pair twice, printed one to a line with a comment behind each, are read back as the list
-- of their pairs, if each control starts with `C-`, both words of each entry are not empty and of
-- visible ASCII other than `#`, the lines are short enough for the scanner, and no comment holds a
-- newline.
pub parse_accepted-print :
    (ns : List Noted)
    → All IsPrintable ns
    → Distinct (pairs ns)
    → parse_accepted (record { content = print ns; failure = none }) ≡ ok (pairs ns)
parse_accepted-print ns h d =
    unfold parse_accepted in
    ap (λ l. accepted_loop none 0 l []) (raw_lines-print ns h)
    ∙ loop-print 0 ns [] h d (Avoids-nil (pairs ns))
