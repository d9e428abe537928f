-- ===== src/Gate/Normalize/Rename.antt =====
-- Generated names in resource IDs do not reach the normal form (`normalize` of
-- images/kubescape-gate/main.go).
use nineteenseventytwo_platf.Prelude.{
  ℕ, suc, ◌≤◌, ◌≡◌, ◌≢◌, refl, ap, sym, ◌∙◌, zero, ◌-◌, true, false, List, [], ◌∷◌, ◌++◌, Bytes,
  Option, none, some, ltb, eqb, length, drop, if◌then◌else◌, All-append, All-map, arith, Bool-cases,
  inl, inr, length-append,
}
use nineteenseventytwo_platf.Text.Parts.{
  split, join, Lacks, split-ne-nil, split_of_Lacks, cons_first,
}
use nineteenseventytwo_platf.Gate.Normalize.{is_hex, mask, map_last, last_three, normalize}
use nineteenseventytwo_platf.Gate.Normalize.Mask.{AllHex, Ends, Stops, mask-runs}

module _ (sep : ℕ) where
  cons_first-append :
      (c : ℕ) (ps : List Bytes) (name : Bytes)
      → ps ≢ []
      → cons_first c (ps ++ name ∷ []) ≡ cons_first c ps ++ name ∷ []
  cons_first-append c [] name n = absurd (n refl)
  cons_first-append c (p ∷ ps) name n = refl

  split-last :
      (dir name : Bytes)
      → Lacks sep name
      → split sep (dir ++ sep ∷ name) ≡ split sep dir ++ name ∷ []
  unfolding split
  split-last [] name h = ground (arith, split_of_Lacks sep name h)
  split-last (c ∷ dir) name h = elim (Bool-cases (eqb c sep)) [
    | inl e ↦ rw (e, split-last dir name h)
    | inr e ↦
        rw (e, split-last dir name h)
          (cons_first-append c (split sep dir) name (split-ne-nil sep dir))
  ]

drop-append {ℓ} :
    {A : Type ℓ} (n : ℕ) (xs ys : List A) → n ≤ length xs → drop n (xs ++ ys) ≡ drop n xs ++ ys
drop-append zero xs ys h = refl
drop-append (suc n) [] ys h = absurd (omega arith)
drop-append (suc n) (x ∷ xs) ys h = drop-append n xs ys (omega arith)

-- the segments before the last that a normal form keeps
kept : List Bytes → List Bytes
kept ps = if ltb 2 (length ps) then drop (length ps - 2) ps else ps

last_three-append :
    (ps : List Bytes) (name : Bytes) → last_three (ps ++ name ∷ []) ≡ kept ps ++ name ∷ []
unfolding last_three kept
last_three-append ps name =
    ground (arith, length-append ps (name ∷ []), drop-append (length ps - 2) ps (name ∷ []))

map_last-append :
    (f : Bytes → Bytes) (ps : List Bytes) (p : Bytes) → map_last f (ps ++ p ∷ []) ≡ ps ++ f p ∷ []
unfolding map_last
map_last-append f [] p = refl
map_last-append f (q ∷ []) p = refl
map_last-append f (q ∷ r ∷ ps) p = ap (λ x. q ∷ x) (map_last-append f (r ∷ ps) p)

-- the normal form of an ID depends on its last segment through `mask` alone
normalize-last :
    (dir name : Bytes)
    → Lacks b'/' name
    → normalize (dir ++ b'/' ∷ name) ≡ join (b'/' ∷ []) (kept (split b'/' dir) ++ mask name ∷ [])
unfolding normalize
normalize-last dir name h =
    ap (λ x. join (b'/' ∷ []) (map_last mask (last_three x))) (split-last b'/' dir name h)
    ∙ ap (λ x. join (b'/' ∷ []) (map_last mask x)) (last_three-append (split b'/' dir) name)
    ∙ ap (join (b'/' ∷ [])) (map_last-append mask (kept (split b'/' dir)) name)

hex-ne-slash : (c : ℕ) → is_hex c ≡ true → eqb c b'/' ≡ false
unfolding is_hex
hex-ne-slash c h = ground arith

-- an ID without a slash is masked as a whole
normalize-single : (name : Bytes) → Lacks b'/' name → normalize name ≡ mask name
unfolding normalize
normalize-single name h =
    ap (λ ps. join (b'/' ∷ []) (map_last mask (last_three ps))) (split_of_Lacks b'/' name h)
    ∙ single_part name
  where
    single_part :
        (name : Bytes) → join (b'/' ∷ []) (map_last mask (last_three (name ∷ []))) ≡ mask name
    single_part name = refl

-- a name below a path, or alone
abbrev pub in_path : Option Bytes → Bytes → Bytes
in_path none name = name
in_path (some dir) name = dir ++ b'/' ∷ name

-- A last segment, cut into what stands before a run of hex digits, the run, and the rest. Neither
-- side has a hex digit next to the run; each may be empty.
pub record IsGenerated (p h s : Bytes) : Type 0 where
  pub before : Lacks b'/' p
  pub start : Ends p
  pub run_hex : AllHex h
  pub run_long : 8 ≤ length h
  pub stop : Stops s
  pub rest : Lacks b'/' s

name-Lacks : (p h s : Bytes) → IsGenerated p h s → Lacks b'/' (p ++ (h ++ s))
name-Lacks p h s g =
    All-append _ p (h ++ s) g.before (All-append _ h s (All-map hex-ne-slash h g.run_hex) g.rest)

normalize-mask :
    (dir : Option Bytes) (name other : Bytes)
    → Lacks b'/' name
    → Lacks b'/' other
    → mask name ≡ mask other
    → normalize (in_path dir name) ≡ normalize (in_path dir other)
normalize-mask none name other h k same =
    normalize-single name h ∙ same ∙ sym (normalize-single other k)
normalize-mask (some dir) name other h k same =
    normalize-last dir name h
    ∙ ap (λ x. join (b'/' ∷ []) (kept (split b'/' dir) ++ x ∷ [])) same
    ∙ sym (normalize-last dir other k)

-- Two resource IDs, of one segment or of more, that differ only in the digits of a generated run of
-- the last segment (eight or more hex digits that no hex digit adjoins, at the start, at the end or
-- within) have the same normal form.
pub normalize-rename :
    (dir : Option Bytes) (p h h' s : Bytes)
    → IsGenerated p h s
    → IsGenerated p h' s
    → normalize (in_path dir (p ++ (h ++ s))) ≡ normalize (in_path dir (p ++ (h' ++ s)))
normalize-rename dir p h h' s g g' =
    normalize-mask dir (p ++ (h ++ s)) (p ++ (h' ++ s)) (name-Lacks p h s g) (name-Lacks p h' s g')
      (mask-runs p h h' s g.start g.stop (g.run_hex, g.run_long) (g'.run_hex, g'.run_long))
