-- ===== src/Exporter/Prowler/Ocsf/Findings.antt =====
-- Which findings `parseOCSF` counts, and when it returns any.
use nineteenseventytwo_platf.Prelude.{
  ◌≡◌, refl, ap, sym, ◌∙◌, ◌↔◌, Bool, true, false, not, List, [], ◌∷◌, ◌++◌, map, keep, Bytes,
  Result, ok, err, ◌>>=◌, bind-ok, ok_unique, if◌then◌else◌, append_assoc, append-nil,
}
use nineteenseventytwo_platf.Exporter.Store.{Finding}
use nineteenseventytwo_platf.Exporter.Prowler.Ocsf.{
  OcsfFinding, OcsfToken, OcsfStream, open_array, other_token, ignored, ocsf_finding, read_elements,
  check_array, parse_ocsf,
}

module _ (unicode_lower : Bytes → Bytes) where
  -- the findings that are open, in order
  abbrev pub open_findings : List OcsfFinding → List Finding
  open_findings fs = map (ocsf_finding unicode_lower) (keep (λ f. not (ignored f)) fs)

  read_elements-all :
      (fs : List OcsfFinding) (out : List Finding)
      → read_elements unicode_lower (map ok fs) out ≡ ok (out ++ open_findings fs)
  unfolding read_elements
  read_elements-all [] out = ap ok (sym (append-nil out))
  read_elements-all (f ∷ fs) out =
      read_elements-all fs (if ignored f then out else out ++ ocsf_finding unicode_lower f ∷ [])
      ∙ ap ok (one_more (ignored f) f (keep (λ g. not (ignored g)) fs) out)
    where
      one_more :
          (b : Bool) (f : OcsfFinding) (rest : List OcsfFinding) (out : List Finding)
          → (if b then out else out ++ ocsf_finding unicode_lower f ∷ [])
              ++ map (ocsf_finding unicode_lower) rest
            ≡ out ++ map (ocsf_finding unicode_lower) (if not b then f ∷ rest else rest)
      one_more true f rest out = refl
      one_more false f rest out =
          append_assoc out (ocsf_finding unicode_lower f ∷ [])
            (map (ocsf_finding unicode_lower) rest)

  read_elements-ok :
      (es : List (Result Bytes OcsfFinding)) (out got : List Finding)
      → read_elements unicode_lower es out ≡ ok got
      → (fs : List OcsfFinding) × (es ≡ map ok fs)
  unfolding read_elements
  read_elements-ok [] out got h = ([], refl)
  read_elements-ok (err e ∷ es) out got h = cc
  read_elements-ok (ok f ∷ es) out got h =
      let (fs, same) = read_elements-ok es _ got h in (f ∷ fs, ap (λ l. ok f ∷ l) same)

  check_array-ok : (t : OcsfToken) → check_array unicode_lower t ≡ ok tt → t ≡ open_array
  check_array-ok open_array h = refl
  check_array-ok (other_token text) h = cc

  -- the same by the three parts of what is read
  abbrev parse_parts :
      Result Bytes OcsfToken
      → List (Result Bytes OcsfFinding)
      → Result Bytes OcsfToken
      → Result Bytes (List Finding)
  parse_parts opening elements closing = opening >>= check_array unicode_lower >>= λ checked.
      read_elements unicode_lower elements [] >>= λ out. closing >>= λ token. ok out

  -- A body gives findings exactly if it starts as an array, every element can be decoded and the
  -- array is closed; they are then those of the elements that failed and are not suppressed, in their
  -- order. So a report that is cut short gives an error, never a part of its findings.
  pub parse_ocsf-findings :
      (r : OcsfStream) (found : List Finding)
      → (parse_ocsf unicode_lower r ≡ ok found) ↔ (
          (all : List OcsfFinding) × (r.opening ≡ ok open_array)
          × (r.elements ≡ map ok all)
          × ((last : OcsfToken) × (r.closing ≡ ok last))
          × (found ≡ open_findings all))
  unfolding parse_ocsf
  parse_ocsf-findings r found = (
    λ h.
        let (checked, opened, more) = bind-ok (r.opening >>= check_array unicode_lower) _ h in
        let (token, first, is_array) = bind-ok r.opening (check_array unicode_lower) opened in
        let (out, read, rest) = bind-ok (read_elements unicode_lower r.elements []) _ more in
        let (last, closed, same) = bind-ok r.closing _ rest in
        let (all, decoded) = read_elements-ok r.elements [] out read in
        (
          all,
          first ∙ ap ok (check_array-ok token is_array),
          decoded,
          (last, closed),
          ok_unique (ok out) same (
              sym read
              ∙ ap (λ l. read_elements unicode_lower l []) decoded
              ∙ read_elements-all all []),
        ),
    λ (all, opened, decoded, (last, closed), same).
        ap (λ o. parse_parts o r.elements r.closing) opened
        ∙ ap (λ es. parse_parts (ok open_array) es r.closing) decoded
        ∙ ap (λ c. parse_parts (ok open_array) (map ok all) c) closed
        ∙ ap (λ x. x >>= λ out. ok out) (read_elements-all all [])
        ∙ ap ok (sym same),
  )
