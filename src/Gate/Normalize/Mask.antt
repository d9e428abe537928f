-- ===== src/Gate/Normalize/Mask.antt =====
-- What `generated.ReplaceAllString` of images/kubescape-gate/main.go does to one segment.
use nineteenseventytwo_platf.Prelude.{
  ℕ, ◌≤◌, ◌≡◌, refl, ap, ap₂, sym, ◌∙◌, ◌⊎◌, true, false, [], ◌∷◌, ◌++◌, Bytes, eqb, length, All,
  All-append, arith, append_assoc, append-nil, Bool-cases, inl, inr,
}
use nineteenseventytwo_platf.Text.Parts.{Lacks}
use nineteenseventytwo_platf.Gate.Normalize.{is_hex, end_run, mask_from, mask}

abbrev pub AllHex : Bytes → Type 0
AllHex = All (λ c. is_hex c ≡ true)

mask_from-hex :
    (run s : Bytes) (c : ℕ) → is_hex c ≡ true → mask_from run (c ∷ s) ≡ mask_from (run ++ c ∷ []) s
unfolding mask_from
mask_from-hex run s c h = rw (h, mask_from)

mask_from-other :
    (run s : Bytes) (c : ℕ)
    → is_hex c ≡ false
    → mask_from run (c ∷ s) ≡ end_run run ++ c ∷ mask_from [] s
unfolding mask_from
mask_from-other run s c h = rw (h, mask_from)

-- what stands before a byte that is no hex digit is masked by itself
mask_from-append :
    (run p s : Bytes) (c : ℕ)
    → is_hex c ≡ false
    → mask_from run (p ++ c ∷ s) ≡ mask_from run p ++ c ∷ mask_from [] s
mask_from-append run [] s c h = mask_from-other run s c h ∙ unfold mask_from in refl
mask_from-append run (d ∷ p) s c h = elim (Bool-cases (is_hex d)) [
  | inl e ↦
      rw (mask_from-hex run (p ++ c ∷ s) d e, mask_from-hex run p d e)
        (mask_from-append (run ++ d ∷ []) p s c h)
  | inr e ↦ simp (mask_from-other run _ d e, mask_from-append [] p s c h, append_assoc)
]

mask_from-AllHex : (run h : Bytes) → AllHex h → mask_from run h ≡ end_run (run ++ h)
mask_from-AllHex run [] a = unfold mask_from in rw append-nil
mask_from-AllHex run (c ∷ h) a =
    mask_from-hex run h c a.0
    ∙ mask_from-AllHex (run ++ c ∷ []) h a.1
    ∙ ap end_run (append_assoc run (c ∷ []) h)

mask_from_star : mask_from [] (b'*' ∷ []) ≡ b'*' ∷ []
unfolding mask_from end_run is_hex
mask_from_star = refl

-- a run is replaced if it is long, and kept if it is short
end_run_cases : (run : Bytes) → ((8 ≤ length run) × (end_run run ≡ b'*' ∷ [])) ⊎ (end_run run ≡ run)
unfolding end_run
end_run_cases run = ground arith

end_run_long : (run : Bytes) → 8 ≤ length run → end_run run ≡ b'*' ∷ []
unfolding end_run
end_run_long run h = ground arith

mask_from-end_run : (run : Bytes) → AllHex run → mask_from [] (end_run run) ≡ end_run run
mask_from-end_run run a = elim (end_run_cases run) [
  | inl e ↦ rw e.1 mask_from_star
  | inr e ↦ cc (e, mask_from-AllHex [] run a)
]

mask_from_idem : (run s : Bytes) → AllHex run → mask_from [] (mask_from run s) ≡ mask_from run s
mask_from_idem run [] a = unfold mask_from in mask_from-end_run run a
mask_from_idem run (c ∷ s) a = elim (Bool-cases (is_hex c)) [
  | inl e ↦
      rw (mask_from-hex run s c e)
        (mask_from_idem (run ++ c ∷ []) s (All-append _ run (c ∷ []) a (e, tt)))
  | inr e ↦ rw (mask_from-other run s c e) (
      mask_from-append [] (end_run run) (mask_from [] s) c e
      ∙ ap₂ (λ x y. x ++ c ∷ y) (mask_from-end_run run a) (mask_from_idem [] s tt))
]

pub mask_idem : (s : Bytes) → mask (mask s) ≡ mask s
unfolding mask
mask_idem s = mask_from_idem [] s tt

-- no hex digit stands first
abbrev pub Stops : Bytes → Type 0
Stops [] = Unit
Stops (d ∷ s) = is_hex d ≡ false

end_run-nil : end_run [] ≡ []
unfolding end_run
end_run-nil = refl

mask_from-long :
    (h s : Bytes)
    → Stops s
    → AllHex h
    → 8 ≤ length h
    → mask_from [] (h ++ s) ≡ b'*' ∷ mask_from [] s
mask_from-long h [] hs a long =
    ap (mask_from []) (append-nil h)
    ∙ mask_from-AllHex [] h a
    ∙ end_run_long h long
    ∙ unfold mask_from end_run in refl
mask_from-long h (d ∷ s) hs a long =
    mask_from-append [] h s d hs
    ∙ ap (λ x. x ++ d ∷ mask_from [] s) (mask_from-AllHex [] h a ∙ end_run_long h long)
    ∙ ap (λ x. b'*' ∷ x)
        (sym (mask_from-other [] s d hs ∙ ap (λ x. x ++ d ∷ mask_from [] s) end_run-nil))

-- A run of eight or more hex digits that no hex digit adjoins becomes one star, whatever it is.
mask-run :
    (p h s : Bytes) (c : ℕ)
    → is_hex c ≡ false
    → Stops s
    → AllHex h
    → 8 ≤ length h
    → mask (p ++ c ∷ (h ++ s)) ≡ mask p ++ c ∷ b'*' ∷ mask s
unfolding mask
mask-run p h s c hc hs a long =
    mask_from-append [] p (h ++ s) c hc
    ∙ ap (λ x. mask_from [] p ++ c ∷ x) (mask_from-long h s hs a long)

-- no hex digit stands last
abbrev pub Ends : Bytes → Type 0
Ends [] = Unit
Ends (c ∷ []) = is_hex c ≡ false
Ends (c ∷ d ∷ p) = Ends (d ∷ p)

last_byte :
    (p : Bytes)
    → Ends p
    → (p ≡ []) ⊎ ((q : Bytes) × (c : ℕ) × (p ≡ q ++ c ∷ []) × (is_hex c ≡ false))
last_byte [] h = inl refl
last_byte (c ∷ []) h = inr ([], c, refl, h)
last_byte (c ∷ d ∷ p) h = elim (last_byte (d ∷ p) h) [
  | inl e ↦ cc e
  | inr (q, last, same, other) ↦ inr (c ∷ q, last, ap (λ x. c ∷ x) same, other)
]

-- Which long run it is does not matter, wherever it stands.
pub mask-runs :
    (p h h' s : Bytes)
    → Ends p
    → Stops s
    → (AllHex h × (8 ≤ length h))
    → (AllHex h' × (8 ≤ length h'))
    → mask (p ++ (h ++ s)) ≡ mask (p ++ (h' ++ s))
unfolding mask
mask-runs p h h' s ends stops (a, long) (a', long') = elim (last_byte p ends) [
  | inl none_before ↦
      ap (λ q. mask (q ++ (h ++ s))) none_before
      ∙ mask_from-long h s stops a long
      ∙ sym (mask_from-long h' s stops a' long')
      ∙ ap (λ q. mask (q ++ (h' ++ s))) (sym none_before)
  | inr (q, c, same, other) ↦
      ap (λ x. mask (x ++ (h ++ s))) same
      ∙ ap mask (append_assoc q (c ∷ []) (h ++ s))
      ∙ mask-run q h s c other stops a long
      ∙ sym (mask-run q h' s c other stops a' long')
      ∙ ap mask (sym (append_assoc q (c ∷ []) (h' ++ s)))
      ∙ ap (λ x. mask (x ++ (h' ++ s))) (sym same)
]

end_run-Lacks : (b : ℕ) (run : Bytes) → eqb b'*' b ≡ false → Lacks b run → Lacks b (end_run run)
end_run-Lacks b run n l = elim (end_run_cases run) [ inl e ↦ rw e.1 (n, tt) | inr e ↦ rw e l ]

pub mask_from-Lacks :
    (b : ℕ) (run s : Bytes)
    → eqb b'*' b ≡ false
    → Lacks b run
    → Lacks b s
    → Lacks b (mask_from run s)
mask_from-Lacks b run [] n l m = unfold mask_from in end_run-Lacks b run n l
mask_from-Lacks b run (c ∷ s) n l m = elim (Bool-cases (is_hex c)) [
  | inl e ↦
      rw (mask_from-hex run s c e)
        (mask_from-Lacks b (run ++ c ∷ []) s n (All-append _ run (c ∷ []) l (m.0, tt)) m.1)
  | inr e ↦ rw (mask_from-other run s c e) (
      All-append _ (end_run run) (c ∷ mask_from [] s) (end_run-Lacks b run n l)
        (m.0, mask_from-Lacks b [] s n tt m.1))
]

pub mask-Lacks : (b : ℕ) (s : Bytes) → eqb b'*' b ≡ false → Lacks b s → Lacks b (mask s)
unfolding mask
mask-Lacks b s n l = mask_from-Lacks b [] s n tt l
