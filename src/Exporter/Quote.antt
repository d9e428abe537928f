-- ===== src/Exporter/Quote.antt =====
-- `quote` of images/findings-exporter/metrics.go: a label value of the text exposition format.
pub mod RoundTrip
use nineteenseventytwo_platf.Prelude.{ℕ, [], ◌∷◌, ◌++◌, Bytes, eqb, if◌then◌else◌}
use nineteenseventytwo_platf.Text.Utf8.{to_valid}

-- what `labelEscaper` puts in place of a byte
unfoldable pub escape_byte : ℕ → Bytes
escape_byte c =
    if eqb c b'\\'
    then b'\\' ∷ b'\\' ∷ []
    else if eqb c b'"'
    then b'\\' ∷ b'"' ∷ []
    else if eqb c b'\n'
    then b'\\' ∷ b'n' ∷ []
    else c ∷ []

unfoldable pub escape : Bytes → Bytes
unfolding escape_byte
escape [] = []
escape (c ∷ s) = escape_byte c ++ escape s

unfoldable pub quote : Bytes → Bytes
unfolding escape to_valid
quote s = b'"' ∷ (escape (to_valid s) ++ b'"' ∷ [])
