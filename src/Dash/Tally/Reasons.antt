-- ===== src/Dash/Tally/Reasons.antt =====
-- What the loop over the pods computes: each reason to crash once, and the restarts.
use nineteenseventytwo_platf.Prelude.{
  ℕ, ◌+◌, ◌%◌, ◌^◌, ◌<◌, ◌≡◌, refl, Bool, true, false, not, ◌||◌, ◌&&◌, List, [], ◌∷◌, ◌++◌, Bytes,
  arith, Bool-cases, inl, inr, if◌then◌else◌, contains, Distinct, lookup_or, Option, some, none,
  nat_eq, list_eq, contains-append, lookup, lookup-insert, subst, sym, same_refl, Distinct-append,
  list_same_iff, ◌==◌,
}
use nineteenseventytwo_platf.Dash.Int32.{add32}
use nineteenseventytwo_platf.Dash.Types.{ContainerStatus, Pod}
use nineteenseventytwo_platf.Dash.Tally.{
  Troubles, no_troubles, labelled, is_crash, note_reason, count_status, count_statuses, count_pods,
}

-- the container statuses of a component's pods
unfoldable pub own_statuses : Bytes → List Pod → List ContainerStatus
own_statuses comp [] = []
own_statuses comp (p ∷ ps) =
    let rest = own_statuses comp ps in
    if labelled comp p.labels then p.container_statuses ++ rest else rest

unfoldable pub waits_for : Bytes → Option Bytes → Bool
waits_for r none = false
waits_for r (some s) = r == s

-- whether a container waits for the given reason
unfoldable pub waits : Bytes → List ContainerStatus → Bool
waits r [] = false
waits r (cs ∷ rest) = waits_for r cs.waiting || waits r rest

unfoldable pub restarts_total : List ContainerStatus → ℕ
restarts_total [] = 0
restarts_total (cs ∷ rest) = cs.restart_count + restarts_total rest

count_statuses-append :
    (t : Troubles) (xs ys : List ContainerStatus)
    → count_statuses t (xs ++ ys) ≡ count_statuses (count_statuses t xs) ys
unfolding count_statuses
count_statuses-append t [] ys = refl
count_statuses-append t (cs ∷ xs) ys = count_statuses-append (count_status t cs) xs ys

count_pods-flat :
    (comp : Bytes) (t : Troubles) (ps : List Pod)
    → count_pods comp t ps ≡ count_statuses t (own_statuses comp ps)
unfolding count_pods own_statuses
count_pods-flat comp t [] = refl
count_pods-flat comp t (p ∷ ps) = elim (Bool-cases (labelled comp p.labels)) [
  | inl own ↦ grind (
    arith,
    count_pods-flat comp (count_statuses t p.container_statuses) ps,
    count_statuses-append t p.container_statuses (own_statuses comp ps),
  )
  | inr other ↦ grind (arith, count_pods-flat comp t ps)
]

abbrev restarted : Troubles → ContainerStatus → Troubles
restarted t cs = record {
  reasons = t.reasons;
  restarts = add32 t.restarts cs.restart_count;
  seen = t.seen;
}

-- `seen` holds exactly the reasons that were appended.
abbrev Sound : Troubles → Type 0
Sound t = Distinct t.reasons × ((r : Bytes) → lookup_or false r t.seen ≡ contains r t.reasons)

note_reason-Sound : (o : Option Bytes) (t : Troubles) → Sound t → Sound (note_reason o t)
unfolding note_reason
note_reason-Sound none t h = h
note_reason-Sound (some r) t h = elim (Bool-cases (is_crash r && not (lookup_or false r t.seen))) [
  | inl new ↦ rw new (
    Distinct-append r t.reasons h.0 (ground (arith, h.1 r)),
    λ s. ground (arith, h.1 s, lookup-insert s r true t.seen, contains-append s t.reasons (r ∷ [])),
  )
  | inr old ↦ rw old h
]

note_reason-contains :
    (r : Bytes) (o : Option Bytes) (t : Troubles)
    → Sound t
    → contains r (note_reason o t).reasons ≡ (contains r t.reasons || (is_crash r && waits_for r o))
unfolding note_reason waits_for
note_reason-contains r none t h = ground arith
note_reason-contains r (some s) t h = elim (Bool-cases (r == s)) [
  | inl same ↦
      rw ((list_same_iff r s).0 same)
        (elim (Bool-cases (is_crash s && not (lookup_or false s t.seen))) [
          | inl new ↦ rw new (ground (arith, contains-append s t.reasons (s ∷ []), same_refl s))
          | inr old ↦ rw old (ground (arith, h.1 s, same_refl s))
        ])
  | inr other ↦ elim (Bool-cases (is_crash s && not (lookup_or false s t.seen))) [
    | inl new ↦ rw new (ground (arith, contains-append r t.reasons (s ∷ [])))
    | inr old ↦ rw old (ground arith)
  ]
]

note_reason-restarts : (o : Option Bytes) (t : Troubles) → (note_reason o t).restarts ≡ t.restarts
unfolding note_reason
note_reason-restarts none t = refl
note_reason-restarts (some r) t = ground arith

count_statuses-Sound :
    (t : Troubles) (xs : List ContainerStatus) → Sound t → Sound (count_statuses t xs)
unfolding count_statuses count_status
count_statuses-Sound t [] h = h
count_statuses-Sound t (cs ∷ xs) h =
    count_statuses-Sound (count_status t cs) xs (note_reason-Sound cs.waiting (restarted t cs) h)

count_statuses-contains :
    (r : Bytes) (t : Troubles) (xs : List ContainerStatus)
    → Sound t
    → contains r (count_statuses t xs).reasons
      ≡ (contains r t.reasons || (is_crash r && waits r xs))
unfolding count_statuses count_status waits
count_statuses-contains r t [] h = ground arith
count_statuses-contains r t (cs ∷ xs) h =
    let step = note_reason-contains r cs.waiting (restarted t cs) h in
    let ih =
      count_statuses-contains r (count_status t cs) xs
        (note_reason-Sound cs.waiting (restarted t cs) h) in
    ground arith

count_statuses-restarts :
    (t : Troubles) (xs : List ContainerStatus)
    → t.restarts < 2 ^ 32
    → (count_statuses t xs).restarts ≡ (t.restarts + restarts_total xs) % 2 ^ 32
unfolding count_statuses count_status restarts_total add32
count_statuses-restarts t [] h = omega arith
count_statuses-restarts t (cs ∷ xs) h =
    let step = note_reason-restarts cs.waiting (restarted t cs) in
    let ih = count_statuses-restarts (count_status t cs) xs (ground arith) in grind arith

-- the reasons are those of the component's containers that mean a crash, each once; the restarts
-- are their sum as an int32
abbrev pub Ailing : Bytes → List Pod → Troubles → Type 0
Ailing comp pods t =
    Distinct t.reasons
    × ((r : Bytes) → contains r t.reasons ≡ (is_crash r && waits r (own_statuses comp pods)))
    × (t.restarts ≡ restarts_total (own_statuses comp pods) % 2 ^ 32)

-- For every component and all pods: what `namespaceView` collects of the pods holds no reason twice,
-- holds a reason exactly if it is one of the crash reasons and a container of a pod of the
-- component waits for it, and counts the restarts of these containers as an int32.
pub count_pods-Ailing :
    (comp : Bytes) (pods : List Pod) → Ailing comp pods (count_pods comp no_troubles pods)
unfolding lookup
count_pods-Ailing comp pods =
    let own = own_statuses comp pods in
    let start : Sound no_troubles = (tt, λ r. refl) in
    let all : Ailing comp pods (count_statuses no_troubles own) = (
      (count_statuses-Sound no_troubles own start).0,
      λ r. count_statuses-contains r no_troubles own start,
      omega (arith, count_statuses-restarts no_troubles own (omega arith)),
    ) in
    subst (Ailing comp pods) (sym (count_pods-flat comp no_troubles pods)) all
