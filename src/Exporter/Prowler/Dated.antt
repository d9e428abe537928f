-- ===== src/Exporter/Prowler/Dated.antt =====
-- What `prowlerSource.collect` of images/findings-exporter/prowler.go keeps and returns, whatever its
-- listings are: a report with the time of its object.
use nineteenseventytwo_platf.Prelude.{
  ℕ, All, zero, suc, Bool, ◌≡◌, ◌⊎◌, inl, inr, refl, ap, sym, subst, ◌∙◌, true, false, List, [],
  ◌∷◌, Bytes, codes, Option, none, some, some_unique, Result, ok, err, arith, is_empty, ltb,
  if◌then◌else◌, ◌==◌, nat_eq, list_eq, list_same_iff, Bool-cases, false_ne_true,
}
use nineteenseventytwo_platf.Exporter.Store.{Finding}
use nineteenseventytwo_platf.Exporter.Aws.Sign.{Credentials}
use nineteenseventytwo_platf.Exporter.Prowler.Objects.{S3World, ProwlerSource, S3Object, ListResult}
use nineteenseventytwo_platf.Exporter.Prowler.Listing.{
  Newest, no_report, newer, newest_in, newest_pages, newest_report, found_report, list_page,
  is_last,
}
use nineteenseventytwo_platf.Exporter.Prowler.Listing.Ends.{found_report-given}
use nineteenseventytwo_platf.Exporter.Prowler.Ocsf.{OcsfStream, parse_ocsf}
use nineteenseventytwo_platf.Exporter.Prowler.{
  ProwlerState, Round, read_round, read_report, report_round, prowler_collect, failed_round,
}
use nineteenseventytwo_platf.Exporter.Prowler.Cache.{Serves, read_report-report}

module _ (modified : Bytes → ℕ) where
  -- nothing yet, or an object with its time, which is not zero
  abbrev IsDated : Newest → Type 0
  IsDated n = (is_empty n.key ≡ true) ⊎ ((ltb 0 n.at ≡ true) × (n.at ≡ modified n.key))

  abbrev pub AllModified : List S3Object → Type 0
  AllModified = All (λ o. o.last_modified ≡ modified o.key)

newer-later : (o : S3Object) (n : Newest) → newer o n ≡ true → ltb 0 o.last_modified ≡ true
unfolding newer
newer-later o n h = ground arith

newest_in-IsDated :
    (modified : Bytes → ℕ) (os : List S3Object) (n : Newest)
    → AllModified modified os
    → IsDated modified n
    → IsDated modified (newest_in os n)
unfolding newest_in
newest_in-IsDated modified [] n a h = h
newest_in-IsDated modified (o ∷ os) n a h = elim (Bool-cases (newer o n)) [
  | inl later ↦
      rw (later, newest_in)
        (newest_in-IsDated modified os (record { key = o.key; at = o.last_modified }) a.1
          (inr (newer-later o n later, a.0)))
  | inr older ↦ rw (older, newest_in) (newest_in-IsDated modified os n a.1 h)
]

with_time :
    (modified : Bytes → ℕ) (n : Newest)
    → is_empty n.key ≡ false
    → IsDated modified n
    → (ltb 0 n.at ≡ true) × (n.at ≡ modified n.key)
with_time modified n given (inl empty) = absurd (false_ne_true (sym given ∙ empty))
with_time modified n given (inr timed) = timed

module _ (unicode_lower : Bytes → Bytes) (world : S3World) (p : ProwlerSource) (c : Credentials)
    (modified : Bytes → ℕ)
    (dates : (token : Bytes) (page : ListResult)
      → list_page unicode_lower world p c token ≡ ok page
      → AllModified modified page.contents) where
  newest_pages-IsDated :
      (fuel : ℕ) (token : Bytes) (n m : Newest)
      → IsDated modified n
      → newest_pages unicode_lower world p fuel c token n ≡ some (ok m)
      → IsDated modified m
  unfolding newest_pages
  newest_pages-IsDated zero token n m h k = cc
  newest_pages-IsDated (suc fuel) token n m h k =
      by_page (list_page unicode_lower world p c token) refl
        (λ page dated.
          newest_pages-IsDated fuel page.next_continuation_token (newest_in page.contents n) m
            dated)
        k
    where
      same_newest :
          (a : Newest) → ◌≡◌ {A = Option (Result Bytes Newest)} (some (ok a)) (some (ok m)) → a ≡ m
      same_newest a e = cc

      next : ListResult → Option (Result Bytes Newest)
      next page =
          newest_pages unicode_lower world p fuel c page.next_continuation_token
            (newest_in page.contents n)

      by_last :
          (page : ListResult) (b : Bool)
          → IsDated modified (newest_in page.contents n)
          → (next page ≡ some (ok m) → IsDated modified m)
          → (if b then some (ok (newest_in page.contents n)) else next page) ≡ some (ok m)
          → IsDated modified m
      by_last page true dated again k =
          subst (IsDated modified) (same_newest (newest_in page.contents n) k) dated
      by_last page false dated again k = again k

      by_page :
          (r : Result Bytes ListResult)
          → list_page unicode_lower world p c token ≡ r
          → ((page : ListResult)
              → IsDated modified (newest_in page.contents n)
              → next page ≡ some (ok m)
              → IsDated modified m)
          → elim r [
            | err e ↦ some (err e)
            | ok page ↦ if is_last page then some (ok (newest_in page.contents n)) else next page
          ]
            ≡ some (ok m)
          → IsDated modified m
      by_page (err e) listed again k = cc
      by_page (ok page) listed again k =
          let dated = newest_in-IsDated modified page.contents n (dates token page listed) h in
          by_last page (is_last page) dated (again page dated) k

  pub newest_report-dated :
      (fuel : ℕ) (n : Newest)
      → newest_report unicode_lower world p fuel c ≡ some (ok n)
      → (is_empty n.key ≡ false) × (ltb 0 n.at ≡ true) × (n.at ≡ modified n.key)
  unfolding newest_report
  newest_report-dated fuel n h =
      by_pages (newest_pages unicode_lower world p fuel c [] no_report)
        (λ m. newest_pages-IsDated fuel [] no_report m (inl refl)) h
    where
      by_pages :
          (o : Option (Result Bytes Newest))
          → ((m : Newest) → o ≡ some (ok m) → IsDated modified m)
          → elim o [
            | none ↦ none
            | some (err e) ↦ some (err e)
            | some (ok m) ↦ some (found_report unicode_lower world p m)
          ]
            ≡ some (ok n)
          → (is_empty n.key ≡ false) × (ltb 0 n.at ≡ true) × (n.at ≡ modified n.key)
      by_pages none dated k = cc
      by_pages (some (err e)) dated k = cc
      by_pages (some (ok m)) dated k =
          let (given, same) = found_report-given unicode_lower world p m n (some_unique _ k) in
          subst
            (λ (n : Newest).
              (is_empty n.key ≡ false) × (ltb 0 n.at ≡ true) × (n.at ≡ modified n.key))
            same
            (
              given,
              (with_time modified m given (dated m refl)).0,
              (with_time modified m given (dated m refl)).1,
            )

module _ (unicode_lower : Bytes → Bytes) (p : ProwlerSource) (fuel : ℕ)
    (report : Bytes → OcsfStream) (modified : Bytes → ℕ) where
  -- every listing gives an object the same time, in this call too
  abbrev pub Dates : S3World → Type 0
  Dates world =
      (c : Credentials) (token : Bytes) (page : ListResult)
      → list_page unicode_lower world p c token ≡ ok page
      → AllModified modified page.contents

  -- what is kept was read in the report of that name, and has the time of its object
  abbrev pub IsDecoded : ProwlerState → Type 0
  IsDecoded s =
      (is_empty s.last_key ≡ false)
      × (ltb 0 s.last_at ≡ true)
      × (s.last_at ≡ modified s.last_key)
      × (parse_ocsf unicode_lower (report s.last_key) ≡ ok s.last_find)

  abbrev pub IsKnown : ProwlerState → Type 0
  IsKnown s = (s.last_key ≡ []) ⊎ IsDecoded s

  -- a failure, or the findings that are kept then
  abbrev pub IsTold : ProwlerState → Round → Type 0
  IsTold s r =
      ((e : Bytes) × (r ≡ failed_round s e))
      ⊎ ((r.returned ≡ ok ((codes "prowler", r.after.last_find) ∷ [])) × IsDecoded r.after)

  module _ (world : S3World) (serves : Serves unicode_lower p fuel report world)
      (dates : Dates world) (s : ProwlerState) (known : IsKnown s) (c : Credentials) where
    read_round-IsTold :
        (n : Newest) (o : Result Bytes (List Finding))
        → is_empty n.key ≡ false
        → ltb 0 n.at ≡ true
        → n.at ≡ modified n.key
        → read_report unicode_lower world p fuel c n.key ≡ o
        → IsTold s (read_round s n o)
    read_round-IsTold n (err e) given dated own h = inl (e, refl)
    read_round-IsTold n (ok fs) given dated own h = inr (
      refl,
      (given, dated, own, read_report-report unicode_lower p fuel report world serves c n.key fs h),
    )

    hit-IsTold :
        (n : Newest)
        → is_empty n.key ≡ false
        → (n.key == s.last_key) ≡ true
        → IsTold s (record { returned = ok ((codes "prowler", s.last_find) ∷ []); after = s })
    hit-IsTold n given same = elim known [
      | inl nothing ↦ absurd (
          false_ne_true
            (sym given ∙ ap is_empty ((list_same_iff n.key s.last_key).0 same ∙ nothing)))
      | inr decoded ↦ inr (refl, decoded)
    ]

    report_round-IsTold :
        (o : Result Bytes Newest)
        → newest_report unicode_lower world p fuel c ≡ some o
        → IsTold s (report_round unicode_lower world p fuel s c o)
    unfolding report_round
    report_round-IsTold (err e) h = inl (e, refl)
    report_round-IsTold (ok n) h =
        let (given, dated, own) =
          newest_report-dated unicode_lower world p c modified (dates c) fuel n h in
        elim (Bool-cases (n.key == s.last_key)) [
          | inl same ↦ rw same (hit-IsTold n given same)
          | inr other ↦ rw other (
              read_round-IsTold n (read_report unicode_lower world p fuel c n.key) given dated own
                refl)
        ]

  -- Every call that returns fails and keeps what it had, or returns the findings of the report that
  -- it then keeps.
  pub prowler_collect-IsTold :
      (world : S3World) (creds : Result Bytes Credentials) (s : ProwlerState) (r : Round)
      → Serves unicode_lower p fuel report world
      → Dates world
      → IsKnown s
      → prowler_collect unicode_lower world p fuel creds s ≡ some r
      → IsTold s r
  unfolding prowler_collect
  prowler_collect-IsTold world (err e) s r serves dates known h = inl (e, cc)
  prowler_collect-IsTold world (ok c) s r serves dates known h =
      by_listed (newest_report unicode_lower world p fuel c) refl h
    where
      by_listed :
          (o : Option (Result Bytes Newest))
          → newest_report unicode_lower world p fuel c ≡ o
          → elim o [
            | none ↦ none
            | some listed ↦ some (report_round unicode_lower world p fuel s c listed)
          ]
            ≡ some r
          → IsTold s r
      by_listed none e k = cc
      by_listed (some listed) e k =
          subst (IsTold s) (some_unique _ k)
            (report_round-IsTold world serves dates s known c listed e)
