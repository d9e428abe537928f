-- ===== src/Gate/Normalize/Segments.antt =====
-- Normal forms of resource IDs (`normalize` of images/kubescape-gate/main.go).
use nineteenseventytwo_platf.Prelude.{
  ℕ, suc, ◌≤◌, ◌≡◌, ◌≢◌, refl, ap, sym, ◌∙◌, zero, ◌-◌, List, [], ◌∷◌, Bytes, ltb, length, drop,
  All, arith, Bool-cases, inl, inr,
}
use nineteenseventytwo_platf.Text.Parts.{split, join, Lacks, split-ne-nil, split-Lacks, split-join}
use nineteenseventytwo_platf.Gate.Normalize.{mask, map_last, last_three, normalize}
use nineteenseventytwo_platf.Gate.Normalize.Mask.{mask_idem, mask-Lacks}

-- the segments of a normal form
pub segments : Bytes → List Bytes
segments id = map_last mask (last_three (split b'/' id))

All-drop {ℓ κ} : {A : Type ℓ} (P : A → Type κ) (n : ℕ) (xs : List A) → All P xs → All P (drop n xs)
All-drop P zero xs h = h
All-drop P (suc n) [] h = tt
All-drop P (suc n) (x ∷ xs) h = All-drop P n xs h.1

length-drop {ℓ} : {A : Type ℓ} (n : ℕ) (xs : List A) → length (drop n xs) ≡ length xs - n
length-drop zero xs = omega arith
length-drop (suc n) [] = omega arith
length-drop (suc n) (x ∷ xs) = omega (arith, length-drop n xs)

last_three-length :
    (ps : List Bytes) → 1 ≤ length ps → (1 ≤ length (last_three ps)) × (length (last_three ps) ≤ 3)
unfolding last_three
last_three-length ps n = ground (arith, length-drop (length ps - 3) ps)

last_three_short : (ps : List Bytes) → length ps ≤ 3 → last_three ps ≡ ps
unfolding last_three
last_three_short ps h = ground arith

last_three-All {κ} : (P : Bytes → Type κ) (ps : List Bytes) → All P ps → All P (last_three ps)
last_three-All P ps h = elim (Bool-cases (ltb 3 (length ps))) [
  | inl e ↦ unfold last_three in rw e (All-drop P (length ps - 3) ps h)
  | inr e ↦ unfold last_three in rw e h
]

length_pos : (ps : List Bytes) → ps ≢ [] → 1 ≤ length ps
length_pos [] n = absurd (n refl)
length_pos (p ∷ ps) n = omega arith

ne-nil_of_length : (ps : List Bytes) → 1 ≤ length ps → ps ≢ []
ne-nil_of_length [] h e = absurd (omega arith)
ne-nil_of_length (p ∷ ps) h e = cc

module _ (f : Bytes → Bytes) where
  length-map_last : (ps : List Bytes) → length (map_last f ps) ≡ length ps
  unfolding map_last
  length-map_last [] = refl
  length-map_last (p ∷ []) = refl
  length-map_last (p ∷ q ∷ ps) = ap suc (length-map_last (q ∷ ps))

  map_last-All {κ} :
      (P : Bytes → Type κ) (ps : List Bytes)
      → ((p : Bytes) → P p → P (f p))
      → All P ps
      → All P (map_last f ps)
  unfolding map_last
  map_last-All P [] k h = tt
  map_last-All P (p ∷ []) k h = (k p h.0, tt)
  map_last-All P (p ∷ q ∷ ps) k h = (h.0, map_last-All P (q ∷ ps) k h.1)

  map_last_idem :
      ((p : Bytes) → f (f p) ≡ f p) → (ps : List Bytes) → map_last f (map_last f ps) ≡ map_last f ps
  unfolding map_last
  map_last_idem k [] = refl
  map_last_idem k (p ∷ []) = ap (λ x. x ∷ []) (k p)
  map_last_idem k (p ∷ q ∷ []) = ap (λ x. p ∷ x ∷ []) (k q)
  map_last_idem k (p ∷ q ∷ r ∷ ps) = ap (λ x. p ∷ x) (map_last_idem k (q ∷ r ∷ ps))

segments-length : (id : Bytes) → (1 ≤ length (segments id)) × (length (segments id) ≤ 3)
unfolding segments
segments-length id =
    rw (length-map_last mask _)
      (last_three-length (split b'/' id) (length_pos _ (split-ne-nil b'/' id)))

segments-Lacks : (id : Bytes) → All (Lacks b'/') (segments id)
unfolding segments
segments-Lacks id =
    map_last-All mask (Lacks b'/') (last_three (split b'/' id)) (λ p h. mask-Lacks b'/' p refl h)
      (last_three-All (Lacks b'/') _ (split-Lacks b'/' id))

split-normalize : (id : Bytes) → split b'/' (normalize id) ≡ segments id
unfolding normalize segments
split-normalize id =
    split-join b'/' (segments id) (ne-nil_of_length _ (segments-length id).0) (segments-Lacks id)

-- A normal form has at most three segments between its slashes.
pub length-normalize : (id : Bytes) → length (split b'/' (normalize id)) ≤ 3
length-normalize id = rw (split-normalize id) (segments-length id).1

segments_idem : (id : Bytes) → map_last mask (last_three (segments id)) ≡ segments id
segments_idem id =
    ap (map_last mask) (last_three_short (segments id) (segments-length id).1)
    ∙ unfold segments in map_last_idem mask mask_idem (last_three (split b'/' id))

-- For every resource ID: normalising twice is normalising once, so that a normal form in the accepted
-- list is the normal form of itself, and a normal form has at most three segments between its slashes.
pub normalize_idem :
    (id : Bytes)
    → (normalize (normalize id) ≡ normalize id) × (length (split b'/' (normalize id)) ≤ 3)
normalize_idem id = (
  unfold_normalize (normalize id)
      ∙ ap (λ x. join (b'/' ∷ []) (map_last mask (last_three x))) (split-normalize id)
      ∙ ap (join (b'/' ∷ [])) (segments_idem id)
      ∙ sym (unfold_segments id),
  length-normalize id,
)
  where
    unfold_normalize :
        (x : Bytes) → normalize x ≡ join (b'/' ∷ []) (map_last mask (last_three (split b'/' x)))
    unfold_normalize x = unfold normalize in refl

    unfold_segments : (x : Bytes) → normalize x ≡ join (b'/' ∷ []) (segments x)
    unfold_segments x = unfold normalize segments in refl
