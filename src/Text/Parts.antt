-- ===== src/Text/Parts.antt =====
-- `strings.Split` and `strings.Cut` at a separator of one byte, and `strings.Join`.
use nineteenseventytwo_platf.Prelude.{
  ℕ, ◌≡◌, ◌≢◌, refl, ap, List, [], ◌∷◌, ◌++◌, Bytes, false, eqb, if◌then◌else◌, All, arith, ◌∙◌,
}

abbrev pub cons_first : ℕ → List Bytes → List Bytes
cons_first c [] = (c ∷ []) ∷ []
cons_first c (p ∷ ps) = (c ∷ p) ∷ ps

-- `strings.Split(s, sep)`: one part more than there are separators
unfoldable pub split : ℕ → Bytes → List Bytes
split sep [] = [] ∷ []
split sep (c ∷ s) = let rest = split sep s in if eqb c sep then [] ∷ rest else cons_first c rest

-- `strings.Join(parts, sep)`
unfoldable pub join : Bytes → List Bytes → Bytes
join sep [] = []
join sep (p ∷ []) = p
join sep (p ∷ q ∷ ps) = p ++ (sep ++ join sep (q ∷ ps))

-- the first result of `strings.Cut(s, sep)`: what stands before the first separator
unfoldable pub cut_before : ℕ → Bytes → Bytes
cut_before sep [] = []
cut_before sep (c ∷ s) = let rest = cut_before sep s in if eqb c sep then [] else c ∷ rest

abbrev pub Lacks : ℕ → Bytes → Type 0
Lacks b = All (λ c. eqb c b ≡ false)

pub split-ne-nil : (sep : ℕ) (s : Bytes) → split sep s ≢ []
unfolding split
split-ne-nil sep [] h = cc
split-ne-nil sep (c ∷ s) h = ground (arith, split-ne-nil sep s)

pub split-Lacks : (sep : ℕ) (s : Bytes) → All (Lacks sep) (split sep s)
unfolding split
split-Lacks sep [] = (tt, tt)
split-Lacks sep (c ∷ s) = ground (arith, split-Lacks sep s)

pub split_of_Lacks : (sep : ℕ) (s : Bytes) → Lacks sep s → split sep s ≡ s ∷ []
unfolding split
split_of_Lacks sep [] h = refl
split_of_Lacks sep (c ∷ s) h = ground (arith, split_of_Lacks sep s)

pub split-append :
    (sep : ℕ) (p s : Bytes) → Lacks sep p → split sep (p ++ sep ∷ s) ≡ p ∷ split sep s
unfolding split
split-append sep [] s h = ground arith
split-append sep (c ∷ p) s h = ground (arith, split-append sep p s)

-- Splitting a join gives the parts back, if there is a part and none holds the separator.
pub split-join :
    (sep : ℕ) (ps : List Bytes) → ps ≢ [] → All (Lacks sep) ps → split sep (join (sep ∷ []) ps) ≡ ps
unfolding join
split-join sep [] n h = absurd (n refl)
split-join sep (p ∷ []) n h = split_of_Lacks sep p h.0
split-join sep (p ∷ q ∷ ps) n h =
    split-append sep p (join (sep ∷ []) (q ∷ ps)) h.0
    ∙ ap (λ r. p ∷ r) (split-join sep (q ∷ ps) (λ e. cc) h.1)

pub cut_before-Lacks : (sep : ℕ) (s : Bytes) → Lacks sep (cut_before sep s)
unfolding cut_before
cut_before-Lacks sep [] = tt
cut_before-Lacks sep (c ∷ s) = ground (arith, cut_before-Lacks sep s)

pub cut_before_of_Lacks : (sep : ℕ) (s : Bytes) → Lacks sep s → cut_before sep s ≡ s
unfolding cut_before
cut_before_of_Lacks sep [] h = refl
cut_before_of_Lacks sep (c ∷ s) h = ground (arith, cut_before_of_Lacks sep s)
