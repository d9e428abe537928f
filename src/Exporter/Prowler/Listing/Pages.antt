-- ===== src/Exporter/Prowler/Listing/Pages.antt =====
-- What `newestReport` finds over all pages of the listing.
use nineteenseventytwo_platf.Prelude.{
  ℕ, zero, suc, ◌≤◌, ◌≡◌, ◌⊎◌, inl, inr, refl, ap, sym, ◌∙◌, Bool, true, false, ◌&&◌, List, [], ◌∷◌,
  ◌++◌, Bytes, codes, some, ok, err, is_empty, ltb, length, if◌then◌else◌, All, All-map, arith,
  append-nil,
}
use nineteenseventytwo_platf.Text.Affix.{has_suffix, has_prefix}
use nineteenseventytwo_platf.Exporter.Aws.Sign.{Credentials}
use nineteenseventytwo_platf.Exporter.Prowler.Objects.{S3World, ProwlerSource, S3Object, ListResult}
use nineteenseventytwo_platf.Exporter.Prowler.Listing.{
  Newest, no_report, newer, newest_in, is_last, list_page, newest_pages, found_report,
  newest_report,
}
use nineteenseventytwo_platf.Exporter.Prowler.Listing.Latest.{
  is_report, AllUntil, IsLatest, newest_in-IsFound,
}

-- the objects of the pages, in order
abbrev pub all_contents : List ListResult → List S3Object
all_contents [] = []
all_contents (page ∷ pages) = page.contents ++ all_contents pages

newest_in-append :
    (xs ys : List S3Object) (n : Newest) → newest_in (xs ++ ys) n ≡ newest_in ys (newest_in xs n)
unfolding newest_in
newest_in-append [] ys n = refl
newest_in-append (x ∷ xs) ys n =
    newest_in-append xs ys (if newer x n then record { key = x.key; at = x.last_modified } else n)

module _ (unicode_lower : Bytes → Bytes) (world : S3World) (p : ProwlerSource)
    (c : Credentials) where
  -- from this token on the replies lead through these pages, and only the last is marked as such
  abbrev pub Lists : Bytes → List ListResult → Type 0
  Lists token [] = ⊥
  Lists token (page ∷ []) =
      (list_page unicode_lower world p c token ≡ ok page) × (is_last page ≡ true)
  Lists token (page ∷ next ∷ pages) =
      (list_page unicode_lower world p c token ≡ ok page)
      × (is_last page ≡ false)
      × Lists page.next_continuation_token (next ∷ pages)

  newest_pages-Lists :
      (fuel : ℕ) (token : Bytes) (pages : List ListResult) (n : Newest)
      → Lists token pages
      → length pages ≤ fuel
      → newest_pages unicode_lower world p fuel c token n
        ≡ some (ok (newest_in (all_contents pages) n))
  unfolding newest_pages
  newest_pages-Lists fuel token [] n h l = absurd h
  newest_pages-Lists zero token (page ∷ pages) n h l = absurd (omega arith)
  newest_pages-Lists (suc fuel) token (page ∷ []) n h l =
      rw (h.0, newest_pages)
        (rw h.1 (ap (λ os. some (ok (newest_in os n))) (sym (append-nil page.contents))))
  newest_pages-Lists (suc fuel) token (page ∷ next ∷ pages) n h l =
      rw (h.0, newest_pages)
        (rw h.1 (
          newest_pages-Lists fuel page.next_continuation_token (next ∷ pages)
            (newest_in page.contents n) h.2 (omega arith)
          ∙ ap (λ m. some (ok m))
              (sym (newest_in-append page.contents (all_contents (next ∷ pages)) n))))

  key_given : (o : S3Object) → is_report o ≡ true → is_empty o.key ≡ false
  unfolding has_suffix has_prefix
  key_given o h = named o.key (ltb 0 o.last_modified) h
    where
      named :
          (key : Bytes) (b : Bool)
          → (has_suffix key (codes ".ocsf.json") && b) ≡ true
          → is_empty key ≡ false
      named [] b h = cc
      named (k ∷ key) b h = refl

  pub IsLatest-key : (os : List S3Object) (n : Newest) → IsLatest os n → is_empty n.key ≡ false
  IsLatest-key os n (before, o, after, split, report, same, old, until) =
      ap (λ (m : Newest). is_empty m.key) same ∙ key_given o report

  report_found :
      (os : List S3Object) (n : Newest)
      → IsLatest os n
      → found_report unicode_lower world p n ≡ ok n
  unfolding found_report
  report_found os n latest = rw (IsLatest-key os n latest) refl

  abbrev no_report_error : Bytes
  no_report_error = codes "no *.ocsf.json under s3://" ++ (p.bucket ++ (codes "/" ++ p.prefix))

  none_reported : found_report unicode_lower world p no_report ≡ err no_report_error
  unfolding found_report
  none_reported = refl

  none_found : (os : List S3Object) → AllUntil 0 os → All (λ o. is_report o ≡ false) os
  none_found os h =
      All-map (λ o k. twice (has_suffix o.key (codes ".ocsf.json")) (ltb 0 o.last_modified) k) os h
    where
      twice : (a b : Bool) → (a && b && b) ≡ false → (a && b) ≡ false
      twice a b h = ground arith

  -- If the listing leads through a finite number of pages, then with fuel for these `newestReport`
  -- returns: the first of the latest reports among the objects of all pages, or an error if there is
  -- no report among them.
  pub newest_report-IsLatest :
      (fuel : ℕ) (pages : List ListResult)
      → Lists [] pages
      → length pages ≤ fuel
      → ((n : Newest) × (newest_report unicode_lower world p fuel c ≡ some (ok n))
          × IsLatest (all_contents pages) n)
        ⊎ ((e : Bytes) × (newest_report unicode_lower world p fuel c ≡ some (err e))
            × All (λ o. is_report o ≡ false) (all_contents pages))
  unfolding newest_report
  newest_report-IsLatest fuel pages h l =
      let os = all_contents pages in
      let read = newest_pages-Lists fuel [] pages no_report h l in
      elim (newest_in-IsFound os no_report) [
        | inl (same, until) ↦ inr (
          no_report_error,
          rw (read, newest_report)
              (ap (λ n. some (found_report unicode_lower world p n)) same ∙ ap some none_reported),
          none_found os until,
        )
        | inr (latest, later) ↦ inl (
          newest_in os no_report,
          rw (read, newest_report) (ap some (report_found os (newest_in os no_report) latest)),
          latest,
        )
      ]
