-- ===== src/Exporter/Quote/RoundTrip.antt =====
-- A reader of the text exposition format gets a label's value back (`quote` of
-- images/findings-exporter/metrics.go).
use nineteenseventytwo_platf.Prelude.{
  ℕ, ◌≡◌, refl, ap, ◌∙◌, Bool, true, false, [], ◌∷◌, ◌++◌, Bytes, eqb, arith, append_assoc, Option,
  none, some, if◌then◌else◌,
}
use nineteenseventytwo_platf.Text.Utf8.{to_valid}
use nineteenseventytwo_platf.Exporter.Quote.{escape_byte, escape, quote}

-- what stands for the byte behind a backslash
abbrev pub escaped : ℕ → Option ℕ
escaped c =
    if eqb c b'\\'
    then some b'\\'
    else if eqb c b'"'
    then some b'"'
    else if eqb c b'n'
    then some b'\n'
    else none

abbrev prepend : Option ℕ → Option (Bytes × Bytes) → Option (Bytes × Bytes)
prepend none o = none
prepend (some c) none = none
prepend (some c) (some (v, rest)) = some (c ∷ v, rest)

-- The format's label value, behind the opening quote: the value and what follows the closing quote.
-- A newline inside a value is an error. The flag says that the byte before was a backslash.
pub read_value : Bool → Bytes → Option (Bytes × Bytes)
read_value b [] = none
read_value true (c ∷ s) = prepend (escaped c) (read_value false s)
read_value false (c ∷ s) =
    let value = prepend (some c) (read_value false s) in
    let special = read_value true s in
    if eqb c b'"'
    then some ([], s)
    else if eqb c b'\\'
    then special
    else if eqb c b'\n'
    then none
    else value

-- The whole label value.
pub read_label : Bytes → Option (Bytes × Bytes)
read_label [] = none
read_label (c ∷ s) = if eqb c b'"' then read_value false s else none

read_value-escape_byte :
    (c : ℕ) (s : Bytes)
    → read_value false (escape_byte c ++ s) ≡ prepend (some c) (read_value false s)
unfolding read_value escape_byte
read_value-escape_byte c s = ground arith

read_value-escape : (v rest : Bytes) → read_value false (escape v ++ b'"' ∷ rest) ≡ some (v, rest)
read_value-escape [] rest = unfold escape read_value in refl
read_value-escape (c ∷ v) rest =
    escape_cons
    ∙ ap (read_value false) (append_assoc (escape_byte c) (escape v) (b'"' ∷ rest))
    ∙ read_value-escape_byte c (escape v ++ b'"' ∷ rest)
    ∙ ap (prepend (some c)) (read_value-escape v rest)
  where
    escape_cons :
        read_value false (escape (c ∷ v) ++ b'"' ∷ rest)
        ≡ read_value false ((escape_byte c ++ escape v) ++ b'"' ∷ rest)
    escape_cons = unfold escape in refl

-- Whatever the text, and whatever follows, a reader of the format that refuses a newline inside a
-- value reads exactly the valid part of the text back from its quoted form, and stops behind it.
pub read_label-quote : (s rest : Bytes) → read_label (quote s ++ rest) ≡ some (to_valid s, rest)
read_label-quote s rest =
    unfold_quote
    ∙ ap (read_value false) (append_assoc (escape (to_valid s)) (b'"' ∷ []) rest)
    ∙ read_value-escape (to_valid s) rest
  where
    unfold_quote :
        read_label (quote s ++ rest) ≡ read_value false ((escape (to_valid s) ++ b'"' ∷ []) ++ rest)
    unfold_quote = unfold read_label quote in refl

-- Two texts with the same quoted form have the same valid part.
pub quote-injective : (s t : Bytes) → quote s ≡ quote t → to_valid s ≡ to_valid t
quote-injective s t h =
    cc (read_label-quote s [], read_label-quote t [], ap (λ q. read_label (q ++ [])) h)
