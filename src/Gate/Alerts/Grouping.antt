-- ===== src/Gate/Alerts/Grouping.antt =====
-- One alert for each control, with all of its resources (`buildAlerts` of
-- images/kubescape-gate/main.go).
use nineteenseventytwo_platf.Prelude.{
  ℕ, ◌≡◌, refl, ap, ap₂, ◌∙◌, sym, Bool, true, false, ◌||◌, List, [], ◌∷◌, ◌++◌, Bytes, Option,
  none, some, arith, map, append-nil, append_assoc, ◌==◌, nat_eq, list_eq, contains,
  contains-append, Distinct, lookup, lookup_or, lookup-insert, if◌then◌else◌, Bool-cases, inl, inr,
  list_same_iff, Assoc,
}
use mathlib.Core.Path.{fun_ext}
use nineteenseventytwo_platf.Gate.Types.{Pair, Pair_eq}
use nineteenseventytwo_platf.Gate.Alerts.{
  Groups, no_groups, group, group_all, control_alert, build_alerts,
}

-- the resources of one control, in order
abbrev pub resources_of : Bytes → List Pair → List Bytes
resources_of c [] = []
resources_of c (p ∷ ps) =
    if c == p.control then p.resource ∷ resources_of c ps else resources_of c ps

-- the controls in the order in which they are first seen, after those in `seen`
abbrev pub new_controls : List Bytes → List Pair → List Bytes
new_controls seen [] = []
new_controls seen (p ∷ ps) = elim (contains p.control seen) [
  | true ↦ new_controls seen ps
  | false ↦ p.control ∷ new_controls (seen ++ p.control ∷ []) ps
]

abbrev pub has_control : Bytes → List Pair → Bool
has_control c [] = false
has_control c (p ∷ ps) = c == p.control || has_control c ps

resources-group :
    (c : Bytes) (p : Pair) (g : Groups)
    → lookup_or [] c (group p g).by_control ≡ (
        if c == p.control
        then lookup_or [] c g.by_control ++ p.resource ∷ []
        else lookup_or [] c g.by_control)
unfolding group
resources-group c p g = ground (
  arith,
  list_same_iff c p.control,
  lookup-insert c p.control (lookup_or [] p.control g.by_control ++ p.resource ∷ []) g.by_control,
)

resources-group_all :
    (c : Bytes) (ps : List Pair) (g : Groups)
    → lookup_or [] c (group_all ps g).by_control ≡ lookup_or [] c g.by_control ++ resources_of c ps
unfolding group_all
resources-group_all c [] g = sym (append-nil (lookup_or [] c g.by_control))
resources-group_all c (p ∷ ps) g = elim (Bool-cases (c == p.control)) [
  | inl e ↦ rw e (
      resources-group_all c ps (group p g)
      ∙ ap (λ x. x ++ resources_of c ps) (resources-group c p g ∙ rw e)
      ∙ append_assoc (lookup_or [] c g.by_control) (p.resource ∷ []) (resources_of c ps))
  | inr e ↦ rw e (
      resources-group_all c ps (group p g)
      ∙ ap (λ x. x ++ resources_of c ps) (resources-group c p g ∙ rw e))
]

abbrev is_some : {A : Type 0} → Option A → Bool
is_some none = false
is_some (some a) = true

-- the two maps of the loop know the same controls
abbrev Agree : Groups → Type 0
Agree g = (c : Bytes) → is_some (lookup c g.by_control) ≡ contains c g.controls

append_if_new :
    {A : Type 0} (o : Option A) (b : Bool) (cs ds : List Bytes)
    → is_some o ≡ b
    → (elim o [ none ↦ ds | some seen ↦ cs ]) ≡ (if b then cs else ds)
append_if_new none b cs ds h = ground arith
append_if_new (some a) b cs ds h = ground arith

controls-group :
    (p : Pair) (g : Groups)
    → Agree g
    → (group p g).controls
      ≡ (if contains p.control g.controls then g.controls else g.controls ++ p.control ∷ [])
unfolding group
controls-group p g a =
    append_if_new (lookup p.control g.by_control) (contains p.control g.controls) g.controls
      (g.controls ++ p.control ∷ []) (a p.control)

contains-group :
    (c : Bytes) (p : Pair) (g : Groups)
    → Agree g
    → contains c (group p g).controls ≡ (contains c g.controls || c == p.control)
contains-group c p g a =
    rw (controls-group p g a)
      (ground (arith, contains-append c g.controls (p.control ∷ []), list_same_iff c p.control))

lookup-group :
    (c : Bytes) (p : Pair) (g : Groups)
    → is_some (lookup c (group p g).by_control)
      ≡ (is_some (lookup c g.by_control) || c == p.control)
unfolding group
lookup-group c p g = ground (
  arith,
  lookup-insert c p.control (lookup_or [] p.control g.by_control ++ p.resource ∷ []) g.by_control,
)

Agree-group : (p : Pair) (g : Groups) → Agree g → Agree (group p g)
Agree-group p g a c = cc (lookup-group c p g, contains-group c p g a, a c)

new_controls-seen :
    (seen : List Bytes) (p : Pair) (ps : List Pair)
    → contains p.control seen ≡ true
    → new_controls seen (p ∷ ps) ≡ new_controls seen ps
new_controls-seen seen p ps e = rw (e, new_controls)

new_controls-unseen :
    (seen : List Bytes) (p : Pair) (ps : List Pair)
    → contains p.control seen ≡ false
    → new_controls seen (p ∷ ps) ≡ p.control ∷ new_controls (seen ++ p.control ∷ []) ps
new_controls-unseen seen p ps e = rw (e, new_controls)

controls_step :
    (p : Pair) (ps : List Pair) (g : Groups)
    → (group_all (p ∷ ps) g).controls ≡ (group_all ps (group p g)).controls
unfolding group_all
controls_step p ps g = refl

controls-group_all :
    (ps : List Pair) (g : Groups)
    → Agree g
    → (group_all ps g).controls ≡ g.controls ++ new_controls g.controls ps
controls-group_all [] g a = unfold group_all in sym (append-nil g.controls)
controls-group_all (p ∷ ps) g a =
    let step : (group_all (p ∷ ps) g).controls
        ≡ (group p g).controls ++ new_controls (group p g).controls ps =
      controls_step p ps g ∙ controls-group_all ps (group p g) (Agree-group p g a) in
    elim (Bool-cases (contains p.control g.controls)) [
      | inl e ↦
          rw (new_controls-seen g.controls p ps e)
            (step ∙ ap (λ l. l ++ new_controls l ps) (controls-group p g a ∙ rw e))
      | inr e ↦ rw (new_controls-unseen g.controls p ps e) (
          step
          ∙ ap (λ l. l ++ new_controls l ps) (controls-group p g a ∙ rw e)
          ∙ append_assoc g.controls (p.control ∷ [])
              (new_controls (g.controls ++ p.control ∷ []) ps))
    ]

contains-new_controls :
    (c : Bytes) (seen : List Bytes) (ps : List Pair)
    → (contains c seen || contains c (new_controls seen ps)) ≡ (contains c seen || has_control c ps)
contains-new_controls c seen [] = refl
contains-new_controls c seen (p ∷ ps) = elim (Bool-cases (contains p.control seen)) [
  | inl e ↦
      rw (e, new_controls)
        (ground (arith, contains-new_controls c seen ps, list_same_iff c p.control))
  | inr e ↦
      rw (e, new_controls)
        (ground (
          arith,
          contains-new_controls c (seen ++ p.control ∷ []) ps,
          contains-append c seen (p.control ∷ []),
          list_same_iff c p.control,
        ))
]

new_controls-avoids :
    (c : Bytes) (seen : List Bytes) (ps : List Pair)
    → contains c seen ≡ true
    → contains c (new_controls seen ps) ≡ false
new_controls-avoids c seen [] h = refl
new_controls-avoids c seen (p ∷ ps) h = elim (Bool-cases (contains p.control seen)) [
  | inl e ↦ rw (new_controls-seen seen p ps e) (new_controls-avoids c seen ps h)
  | inr e ↦ rw (new_controls-unseen seen p ps e) (
      ground (
        arith,
        new_controls-avoids c (seen ++ p.control ∷ []) ps,
        contains-append c seen (p.control ∷ []),
        list_same_iff c p.control,
      ))
]

new_controls-Distinct : (seen : List Bytes) (ps : List Pair) → Distinct (new_controls seen ps)
new_controls-Distinct seen [] = tt
new_controls-Distinct seen (p ∷ ps) = elim (Bool-cases (contains p.control seen)) [
  | inl e ↦ rw (new_controls-seen seen p ps e) (new_controls-Distinct seen ps)
  | inr e ↦ rw (new_controls-unseen seen p ps e) (
    new_controls-avoids p.control (seen ++ p.control ∷ []) ps (
        ground (
          arith,
          contains-append p.control seen (p.control ∷ []),
          list_same_iff p.control p.control,
        )),
    new_controls-Distinct (seen ++ p.control ∷ []) ps,
  )
]

Agree-no_groups : Agree no_groups
unfolding lookup
Agree-no_groups c = refl

-- The alerts are one for each control of the regressions, in the order in which the controls are
-- first seen and no control twice, and each lists all the resources of its control, in order.
pub build_alerts_lem :
    (ps : List Pair) (names : Assoc Bytes Bytes) (now expire : ℕ)
    → (build_alerts ps names now expire
        ≡ map (λ c. control_alert names now expire c (resources_of c ps)) (new_controls [] ps))
      × Distinct (new_controls [] ps)
      × ((c : Bytes) → contains c (new_controls [] ps) ≡ has_control c ps)
build_alerts_lem ps names now expire = (
  unfold build_alerts in
      ap₂ (λ f cs. map f cs)
        (fun_ext (λ c. ap (control_alert names now expire c) (resources-group_all c ps no_groups)))
        (controls-group_all ps no_groups Agree-no_groups),
  new_controls-Distinct [] ps,
  λ c. contains-new_controls c [] ps,
)
