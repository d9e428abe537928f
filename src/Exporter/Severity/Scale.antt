-- ===== src/Exporter/Severity/Scale.antt =====
-- The scale that the severities are brought to.
use nineteenseventytwo_platf.Prelude.{
  ◌≡◌, refl, List, [], ◌∷◌, Bytes, codes, contains, nat_eq, list_eq, All, All_of_contains, true,
  arith,
}
use nineteenseventytwo_platf.Text.Space.{trim_space}
use nineteenseventytwo_platf.Text.Case.{to_lower}
use nineteenseventytwo_platf.Exporter.Severity.{severity_of, normalize_severity}

abbrev pub scale : List Bytes
scale =
    codes "critical"
    ∷ codes "high"
    ∷ codes "medium"
    ∷ codes "low"
    ∷ codes "info"
    ∷ codes "unknown"
    ∷ []

severity_of-scale : (w : Bytes) → contains (severity_of w) scale ≡ true
unfolding severity_of
severity_of-scale w = ground arith

scale-fixed : (f : Bytes → Bytes) → All (λ w. normalize_severity f w ≡ w) scale
unfolding normalize_severity severity_of
scale-fixed f = (refl, (refl, (refl, (refl, (refl, (refl, tt))))))

-- Every text, in whatever vocabulary, is brought to one of the six words of the scale, and these are
-- left as they are: bringing a severity to the scale again changes nothing.
pub normalize_severity_idem :
    (f g : Bytes → Bytes) (s : Bytes)
    → (contains (normalize_severity f s) scale ≡ true)
      × (normalize_severity g (normalize_severity f s) ≡ normalize_severity f s)
unfolding normalize_severity
normalize_severity_idem f g s =
    let word = to_lower f (trim_space s) in
    (
      severity_of-scale word,
      All_of_contains (λ w. normalize_severity g w ≡ w) (severity_of word) scale (scale-fixed g)
          (severity_of-scale word),
    )
