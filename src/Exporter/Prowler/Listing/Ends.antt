-- ===== src/Exporter/Prowler/Listing/Ends.antt =====
-- When the loop of `newestReport` over the pages of a listing ends, by a last page or by an error.
use nineteenseventytwo_platf.Prelude.{
  ℕ, zero, suc, Bool-cases, [], ◌≡◌, ◌⊎◌, inl, inr, refl, subst, true, false, Bytes, Option, none,
  some, some_unique, Result, ok, err, guard-ok, ok_unique, is_empty,
}
use nineteenseventytwo_platf.Exporter.Aws.Sign.{Credentials}
use nineteenseventytwo_platf.Exporter.Prowler.Objects.{S3World, ProwlerSource, ListResult}
use nineteenseventytwo_platf.Exporter.Prowler.Listing.{
  Newest, no_report, newest_in, newest_pages, newest_report, found_report, list_page, is_last,
}

module _ (unicode_lower : Bytes → Bytes) (world : S3World) (p : ProwlerSource) where
  pub found_report-given :
      (m n : Newest)
      → found_report unicode_lower world p m ≡ ok n
      → (is_empty m.key ≡ false) × (m ≡ n)
  unfolding found_report
  found_report-given m n h =
      let (given, same) = guard-ok (is_empty m.key) _ (ok m) h in
      (given, ok_unique (ok m) refl same)

  module _ (c : Credentials) where
    -- among so many pages, one is the last one or cannot be read
    abbrev pub EndsWithin : ℕ → Bytes → Type 0
    EndsWithin zero token = ⊥
    EndsWithin (suc n) token =
        ((e : Bytes) × (list_page unicode_lower world p c token ≡ err e))
        ⊎ ((page : ListResult) × (list_page unicode_lower world p c token ≡ ok page)
            × ((is_last page ≡ true) ⊎ EndsWithin n page.next_continuation_token))

    newest_pages-ends :
        (fuel : ℕ) (token : Bytes) (n : Newest)
        → EndsWithin fuel token
        → (r : Result Bytes Newest) × (newest_pages unicode_lower world p fuel c token n ≡ some r)
    unfolding newest_pages
    newest_pages-ends zero token n h = absurd h
    newest_pages-ends (suc fuel) token n (inl (e, failed)) = (err e, rw (failed, newest_pages) refl)
    newest_pages-ends (suc fuel) token n (inr (page, listed, inl last)) =
        (ok (newest_in page.contents n), rw (listed, newest_pages) (rw last refl))
    newest_pages-ends (suc fuel) token n (inr (page, listed, inr more)) =
        let (r, e) =
          newest_pages-ends fuel page.next_continuation_token (newest_in page.contents n) more in
        elim (Bool-cases (is_last page)) [
          | inl last ↦ (ok (newest_in page.contents n), rw (listed, newest_pages) (rw last refl))
          | inr goes_on ↦ (r, rw (listed, newest_pages) (rw (goes_on, e) refl))
        ]

    pub newest_report-ends :
        (fuel : ℕ)
        → EndsWithin fuel []
        → (r : Result Bytes Newest) × (newest_report unicode_lower world p fuel c ≡ some r)
    unfolding newest_report
    newest_report-ends fuel h = let (r, e) = newest_pages-ends fuel [] no_report h in by_result r e
      where
        by_result :
            (r : Result Bytes Newest)
            → newest_pages unicode_lower world p fuel c [] no_report ≡ some r
            → (s : Result Bytes Newest) × (newest_report unicode_lower world p fuel c ≡ some s)
        by_result (err e) h = (err e, rw (h, newest_report) refl)
        by_result (ok n) h = (found_report unicode_lower world p n, rw (h, newest_report) refl)

    pub newest_report-given :
        (fuel : ℕ) (n : Newest)
        → newest_report unicode_lower world p fuel c ≡ some (ok n)
        → is_empty n.key ≡ false
    unfolding newest_report
    newest_report-given fuel n h =
        by_pages (newest_pages unicode_lower world p fuel c [] no_report) h
      where
        by_pages :
            (o : Option (Result Bytes Newest))
            → elim o [
              | none ↦ none
              | some (err e) ↦ some (err e)
              | some (ok m) ↦ some (found_report unicode_lower world p m)
            ]
              ≡ some (ok n)
            → is_empty n.key ≡ false
        by_pages none k = cc
        by_pages (some (err e)) k = cc
        by_pages (some (ok m)) k =
            let (given, same) = found_report-given m n (some_unique _ k) in
            subst (λ (n : Newest). is_empty n.key ≡ false) same given
