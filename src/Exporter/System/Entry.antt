-- ===== src/Exporter/System/Entry.antt =====
-- What the store of images/findings-exporter says of prowler, against the report that its source keeps.
use nineteenseventytwo_platf.Prelude.{
  ℕ, ◌≡◌, ◌⊎◌, inl, inr, refl, ap, sym, subst, ◌∙◌, true, false, List, [], ◌∷◌, Bytes, codes,
  Option, none, some, ok, err, arith, eqb, ltb, Assoc, keys, lookup, lookup_or, Distinct, nat_eq,
  list_eq, Bool-cases,
}
use nineteenseventytwo_platf.Exporter.Poll.{Collected, poll_calls}
use nineteenseventytwo_platf.Exporter.Poll.Rounds.{
  downed, refreshed, err_calls, fail_calls-down, round-answered,
}
use nineteenseventytwo_platf.Exporter.Prowler.Dated.{IsDecoded, IsKnown, IsTold}
use nineteenseventytwo_platf.Exporter.Prowler.Objects.{ProwlerSource}
use nineteenseventytwo_platf.Exporter.Prowler.Ocsf.{OcsfStream}
use nineteenseventytwo_platf.Exporter.Prowler.{ProwlerState, Round, prowler_names, data_times}
use nineteenseventytwo_platf.Exporter.Store.{Finding, SourceState, prev_data_time}
use nineteenseventytwo_platf.Exporter.Store.History.{own_calls, replay}

abbrev pub prowler_name : Bytes
prowler_name = codes "prowler"

data_times-Distinct : (s : ProwlerState) → Distinct (keys (data_times s))
unfolding data_times
data_times-Distinct s = elim (Bool-cases (eqb s.last_at 0)) [
  | inl e ↦ rw e tt
  | inr e ↦ rw e (refl, tt)
]

data_times-at :
    (s : ProwlerState) (t : ℕ)
    → ltb 0 s.last_at ≡ true
    → lookup_or t prowler_name (data_times s) ≡ s.last_at
unfolding data_times lookup
data_times-at s t h = elim (Bool-cases (eqb s.last_at 0)) [
  | inl e ↦ absurd (ground arith)
  | inr e ↦ rw e refl
]

module _ (unicode_lower : Bytes → Bytes) (p : ProwlerSource) (fuel : ℕ)
    (report : Bytes → OcsfStream) (modified : Bytes → ℕ) where
  -- The entry of prowler: none before the first round; empty and down as long as no report was read;
  -- and then the findings and the time of the report that is kept.
  abbrev pub IsReported : ProwlerState → Option SourceState → Type 0
  IsReported s none = s.last_key ≡ []
  IsReported s (some st) =
      ((s.last_key ≡ []) × (st.findings ≡ []) × (st.data_time ≡ 0) × (st.up ≡ false))
      ⊎ (IsDecoded unicode_lower p fuel report modified s
          × (st.findings ≡ s.last_find)
          × (st.data_time ≡ s.last_at))

  pub IsReported-IsKnown :
      (s : ProwlerState) (o : Option SourceState)
      → IsReported s o
      → IsKnown unicode_lower p fuel report modified s
  IsReported-IsKnown s none h = inl h
  IsReported-IsKnown s (some st) (inl (nothing, empty, never, down)) = inl nothing
  IsReported-IsKnown s (some st) (inr (decoded, found, time)) = inr decoded

  IsReported-downed :
      (s : ProwlerState) (o : Option SourceState) → IsReported s o → IsReported s (some (downed o))
  IsReported-downed s none h = inl (h, refl, refl, refl)
  IsReported-downed s (some st) (inl (nothing, empty, never, down)) =
      inl (nothing, empty, never, refl)
  IsReported-downed s (some st) (inr more) = inr more

  module _ (s : ProwlerState) (o : Option SourceState) (clock : ℕ → ℕ) where
    abbrev pub after_calls : Collected → Assoc Bytes ℕ → Option SourceState
    after_calls collected times =
        replay (own_calls prowler_name (poll_calls prowler_names collected times clock)) o

    failed_calls : (e : Bytes) (times : Assoc Bytes ℕ) → after_calls (err e) times ≡ some (downed o)
    failed_calls e times =
        ap (λ cs. replay (own_calls prowler_name cs) o) (err_calls prowler_names e times clock)
        ∙ fail_calls-down prowler_name prowler_names o refl

    told_calls :
        (fs : List Finding) (t : ProwlerState)
        → ltb 0 t.last_at ≡ true
        → (j : ℕ) × (after_calls (ok ((codes "prowler", fs) ∷ [])) (data_times t)
            ≡ some (refreshed fs (clock j) t.last_at))
    unfolding lookup
    told_calls fs t dated =
        let (j, e) =
          round-answered prowler_names ((codes "prowler", fs) ∷ []) (data_times t) clock
            prowler_name o (data_times-Distinct t) refl in
        (
          j,
          e
              ∙ ap (λ time. some (refreshed fs (clock j) time))
                  (data_times-at t (prev_data_time o) dated),
        )

    pub round-IsReported :
        (r : Round)
        → IsReported s o
        → IsTold unicode_lower p fuel report modified s r
        → IsReported r.after (after_calls r.returned (data_times r.after))
    round-IsReported r h (inl (e, same)) =
        subst (λ (r : Round). IsReported r.after (after_calls r.returned (data_times r.after)))
          (sym same)
          (subst (IsReported s) (sym (failed_calls e (data_times s))) (IsReported-downed s o h))
    round-IsReported r h (inr (told, decoded)) =
        let (j, e) = told_calls r.after.last_find r.after decoded.1 in
        subst (λ c. IsReported r.after (after_calls c (data_times r.after))) (sym told)
          (subst (IsReported r.after) (sym e) (inr (decoded, refl, refl)))
