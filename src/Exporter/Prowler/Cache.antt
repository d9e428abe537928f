-- ===== src/Exporter/Prowler/Cache.antt =====
-- Sequences of calls of `prowlerSource.collect`: the report that is kept in place of a download.
use nineteenseventytwo_platf.Prelude.{
  false_ne_true, ℕ, ◌≡◌, ◌⊎◌, inl, inr, refl, ap, sym, subst, ◌∙◌, true, false, List, [], ◌∷◌, ◌++◌,
  Bytes, codes, Option, none, some, Result, ok, err, wrap, bind-ok, wrap-ok, is_empty, All, ◌==◌,
  nat_eq, list_eq, list_same_iff, Bool-cases,
}
use nineteenseventytwo_platf.Exporter.Store.{Finding}
use nineteenseventytwo_platf.Exporter.Aws.Sign.{Credentials}
use nineteenseventytwo_platf.Exporter.Prowler.Objects.{S3World, ProwlerSource, s3_get}
use nineteenseventytwo_platf.Exporter.Prowler.Listing.{Newest, newest_report}
use nineteenseventytwo_platf.Exporter.Prowler.Listing.Ends.{
  EndsWithin, newest_report-ends, newest_report-given,
}
use nineteenseventytwo_platf.Exporter.Prowler.Ocsf.{OcsfStream, parse_ocsf}
use nineteenseventytwo_platf.Exporter.Prowler.{
  ProwlerState, new_prowler, Round, read_round, read_report, report_round, prowler_collect,
  failed_round,
}

-- One call: what it meets, and what `p.creds.get` returns.
abbrev pub Visit : Type 0
Visit = S3World × Result Bytes Credentials

module _ (unicode_lower : Bytes → Bytes) (p : ProwlerSource) (fuel : ℕ)
    (report : Bytes → OcsfStream) where
  -- every download of a key gives the same report, in this call too
  abbrev pub Serves : S3World → Type 0
  Serves world =
      (c : Credentials) (key body : Bytes)
      → s3_get unicode_lower world p c (b'/' ∷ key) [] ≡ ok body
      → world.ocsf body ≡ report key

  -- what is kept was read in the report of that name
  abbrev pub IsKept : ProwlerState → Type 0
  IsKept s =
      ((s.last_key ≡ []) × (s.last_at ≡ 0))
      ⊎ ((is_empty s.last_key ≡ false)
          × (parse_ocsf unicode_lower (report s.last_key) ≡ ok s.last_find))

  -- a failure for want of credentials, of a listing, or of a report that is not the one that is kept
  abbrev pub IsFailure : Visit → ProwlerState → Bytes → Type 0
  IsFailure (world, creds) before e =
      (creds ≡ err e)
      ⊎ ((c : Credentials) × (creds ≡ ok c)
          × ((newest_report unicode_lower world p fuel c ≡ some (err e))
              ⊎ ((n : Newest) × (newest_report unicode_lower world p fuel c ≡ some (ok n))
                  × ((n.key == before.last_key) ≡ false)
                  × (read_report unicode_lower world p fuel c n.key ≡ err e))))

  -- a call that returns findings lists and decodes as one without a memory would
  abbrev pub IsCurrent : Visit → ProwlerState → Round → Type 0
  IsCurrent (world, creds) before r =
      ((e : Bytes) × (r ≡ failed_round before e) × IsFailure (world, creds) before e)
      ⊎ ((c : Credentials) × (n : Newest) × (fs : List Finding) × (creds ≡ ok c)
          × (newest_report unicode_lower world p fuel c ≡ some (ok n))
          × (parse_ocsf unicode_lower (report n.key) ≡ ok fs)
          × (r.returned ≡ ok ((codes "prowler", fs) ∷ []))
          × (r.after.last_key ≡ n.key))

  unfoldable IsRight : Visit → ProwlerState → Round → Type 0
  IsRight visit before r = IsCurrent visit before r × IsKept r.after

  module _ (world : S3World) (serves : Serves world) (c : Credentials) where
    pub read_report-report :
        (key : Bytes) (fs : List Finding)
        → read_report unicode_lower world p fuel c key ≡ ok fs
        → parse_ocsf unicode_lower (report key) ≡ ok fs
    unfolding read_report
    read_report-report key fs h =
        let (body, got, read) =
          bind-ok (s3_get unicode_lower world p c (b'/' ∷ key) [])
            (λ body.
              wrap (λ e. codes "prowler " ++ (key ++ (codes ": " ++ e)))
                (parse_ocsf unicode_lower (world.ocsf body)))
            h in
        ap (parse_ocsf unicode_lower) (sym (serves c key body got))
        ∙ wrap-ok (λ e. codes "prowler " ++ (key ++ (codes ": " ++ e)))
            (parse_ocsf unicode_lower (world.ocsf body)) read

    module _ (n : Newest) (s : ProwlerState)
        (found : newest_report unicode_lower world p fuel c ≡ some (ok n))
        (given : is_empty n.key ≡ false) (kept : IsKept s) where
      read_round-IsRight :
          (r : Result Bytes (List Finding))
          → (n.key == s.last_key) ≡ false
          → read_report unicode_lower world p fuel c n.key ≡ r
          → IsRight (world, ok c) s (read_round s n r)
      unfolding IsRight
      read_round-IsRight (err e) new h =
          (inl (e, refl, inr (c, refl, inr (n, found, new, h))), kept)
      read_round-IsRight (ok fs) new h =
          let right = read_report-report n.key fs h in
          (inr (c, n, fs, refl, found, right, refl, refl), inr (given, right))

      hit-IsRight :
          (n.key == s.last_key) ≡ true
          → IsRight
              (world, ok c)
              s
              (record { returned = ok ((codes "prowler", s.last_find) ∷ []); after = s })
      unfolding IsRight
      hit-IsRight same =
          let equal : n.key ≡ s.last_key = (list_same_iff n.key s.last_key).0 same in
          elim kept [
            | inl (none_kept, at) ↦
                absurd (false_ne_true (sym given ∙ ap is_empty (equal ∙ none_kept)))
            | inr (known, right) ↦ (
              inr (
                c,
                n,
                s.last_find,
                refl,
                found,
                subst (λ k. parse_ocsf unicode_lower (report k) ≡ ok s.last_find) (sym equal) right,
                refl,
                sym equal,
              ),
              inr (known, right),
            )
          ]

      report_round-IsRight :
          IsRight (world, ok c) s (report_round unicode_lower world p fuel s c (ok n))
      unfolding report_round
      report_round-IsRight = elim (Bool-cases (n.key == s.last_key)) [
        | inl same ↦ rw same (hit-IsRight same)
        | inr other ↦
            rw other
              (read_round-IsRight (read_report unicode_lower world p fuel c n.key) other refl)
      ]

  -- with fuel for the listing, if there are credentials to list with: among so many of its pages one
  -- is the last one, or cannot be fetched or decoded
  abbrev pub IsListed : Visit → Type 0
  IsListed (world, creds) = elim creds [
    | err e ↦ Unit {0}
    | ok c ↦ EndsWithin unicode_lower world p c fuel []
  ]

  collect-IsRight :
      (world : S3World) (creds : Result Bytes Credentials) (s : ProwlerState)
      → Serves world
      → IsListed (world, creds)
      → IsKept s
      → (r : Round) × (prowler_collect unicode_lower world p fuel creds s ≡ some r)
        × IsCurrent (world, creds) s r
        × IsKept r.after
  unfolding prowler_collect IsRight
  collect-IsRight world (err e) s serves listed kept =
      (failed_round s e, refl, inl (e, refl, inl refl), kept)
  collect-IsRight world (ok c) s serves ends kept =
      let (listed, found) = newest_report-ends unicode_lower world p c fuel ends in
      by_listed listed found
    where
      by_listed :
          (listed : Result Bytes Newest)
          → newest_report unicode_lower world p fuel c ≡ some listed
          → (r : Round) × (prowler_collect unicode_lower world p fuel (ok c) s ≡ some r)
            × IsCurrent (world, ok c) s r
            × IsKept r.after
      by_listed (err e) failed = (
        failed_round s e,
        rw (failed, prowler_collect) (unfold report_round in refl),
        inl (e, refl, inr (c, refl, inl failed)),
        kept,
      )
      by_listed (ok n) found =
          let given = newest_report-given unicode_lower world p c fuel n found in
          let right = report_round-IsRight world serves c n s found given kept in
          (
            report_round unicode_lower world p fuel s c (ok n),
            rw (found, prowler_collect) refl,
            right.0,
            right.1,
          )

  -- the rounds of the calls, one after the other
  abbrev pub state_after : ProwlerState → Option Round → ProwlerState
  state_after s none = s
  state_after s (some r) = r.after

  unfoldable pub collect_all : List Visit → ProwlerState → List (Option Round)
  unfolding prowler_collect
  collect_all [] s = []
  collect_all ((world, creds) ∷ visits) s =
      let r = prowler_collect unicode_lower world p fuel creds s in
      r ∷ collect_all visits (state_after s r)

  abbrev pub AllCurrent : List Visit → ProwlerState → List (Option Round) → Type 0
  AllCurrent [] s [] = Unit
  AllCurrent [] s (r ∷ rs) = ⊥
  AllCurrent (visit ∷ visits) s [] = ⊥
  AllCurrent (visit ∷ visits) s (none ∷ rs) = ⊥
  AllCurrent (visit ∷ visits) s (some r ∷ rs) = IsCurrent visit s r × AllCurrent visits r.after rs

  collect_from :
      (visits : List Visit) (s : ProwlerState)
      → All (λ v. Serves v.0 × IsListed v) visits
      → IsKept s
      → AllCurrent visits s (collect_all visits s)
  unfolding collect_all
  collect_from [] s h kept = tt
  collect_from ((world, creds) ∷ visits) s ((serves, listed), more) kept =
      let (r, done, current, next) = collect-IsRight world creds s serves listed kept in
      subst (λ o. AllCurrent ((world, creds) ∷ visits) s (o ∷ collect_all visits (state_after s o)))
        (sym done) (current, collect_from visits r.after more next)

  -- If every listing ends within the fuel, by its last page or by a page that cannot be fetched or
  -- decoded, and a report does not change under its name, then every call from the start on returns. It either returns the findings of the report that is the newest
  -- at that time, as if it had just been read, or fails and leaves what is kept as it was: there are no
  -- credentials, the listing gives no report, or the newest is not the one kept and cannot be read.
  pub collect_all-AllCurrent :
      (visits : List Visit)
      → All (λ v. Serves v.0 × IsListed v) visits
      → AllCurrent visits new_prowler (collect_all visits new_prowler)
  collect_all-AllCurrent visits h = collect_from visits new_prowler h (inl (refl, refl))
