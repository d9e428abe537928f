-- ===== src/Exporter/Collected/Findings.antt =====
-- What is collected under a name, against a filter of the alerts.
use nineteenseventytwo_platf.Prelude.{
  ◌≡◌, sym, ap, ◌∙◌, true, false, ◌&&◌, List, [], ◌∷◌, ◌++◌, map, append_assoc, append-nil, Bytes,
  Assoc, lookup_or, contains, nat_eq, list_eq, ◌==◌, keep, arith, lookup-insert, list_same_iff,
  same_refl, Bool-cases, inl, inr,
}
use nineteenseventytwo_platf.Exporter.Store.{Finding}
use nineteenseventytwo_platf.Exporter.Collected.{add_finding, collect_by}

add_finding-same :
    (src s : Bytes) (f : Finding) (out : Assoc Bytes (List Finding))
    → (src == s) ≡ true
    → lookup_or [] src (add_finding s f out) ≡ lookup_or [] src out ++ f ∷ []
unfolding add_finding
add_finding-same src s f out same =
    rw ((list_same_iff src s).0 same)
      (ground (arith, lookup-insert s s (lookup_or [] s out ++ f ∷ []) out, same_refl s))

add_finding-other :
    (src s : Bytes) (f : Finding) (out : Assoc Bytes (List Finding))
    → (src == s) ≡ false
    → lookup_or [] src (add_finding s f out) ≡ lookup_or [] src out
unfolding add_finding
add_finding-other src s f out other =
    ground (arith, lookup-insert src s (lookup_or [] s out ++ f ∷ []) out)

module _ {ℓ} {A : Type ℓ} (name_of : A → Bytes) (finding_of : A → Finding)
    (wanted : List Bytes) where
  -- the findings of one source: those of the alerts with its name, in their order
  abbrev pub findings_of : Bytes → List A → List Finding
  findings_of src als =
      map finding_of (keep (λ al. contains (name_of al) wanted && src == name_of al) als)

  pub collect_by-findings :
      (src : Bytes) (als : List A) (out : Assoc Bytes (List Finding))
      → lookup_or [] src (collect_by name_of finding_of wanted als out)
        ≡ lookup_or [] src out ++ findings_of src als
  unfolding collect_by
  collect_by-findings src [] out = sym (append-nil (lookup_or [] src out))
  collect_by-findings src (al ∷ rest) out = elim (Bool-cases (contains (name_of al) wanted)) [
    | inl asked ↦
        let f = finding_of al in
        let more = findings_of src rest in
        let ih = collect_by-findings src rest (add_finding (name_of al) f out) in
        elim (Bool-cases (src == name_of al)) [
          | inl same ↦ rw asked (
              rw same (
                ih
                ∙ ap (λ l. l ++ more) (add_finding-same src (name_of al) f out same)
                ∙ append_assoc (lookup_or [] src out) (f ∷ []) more))
          | inr other ↦
              rw asked (
                rw other
                  (ih ∙ ap (λ l. l ++ more) (add_finding-other src (name_of al) f out other)))
        ]
    | inr unwanted ↦ rw unwanted (collect_by-findings src rest out)
  ]
