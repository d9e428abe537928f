-- ===== src/Exporter/Aws/WebIdentity/Exchanges.antt =====
-- How many requests a sequence of calls of `webIdentity.get` takes.
use nineteenseventytwo_platf.Prelude.{
  ℕ, ◌≡◌, refl, ap, ◌∙◌, true, false, List, [], ◌∷◌, ◌++◌, ok, All,
}
use nineteenseventytwo_platf.Exporter.Aws.Sign.{Credentials}
use nineteenseventytwo_platf.Exporter.Aws.WebIdentity.{
  WebIdentity, StsWorld, Fetched, FormPost, usable, get, requested, exchanged, exchange,
  sts_request,
}
use nineteenseventytwo_platf.Exporter.Aws.WebIdentity.Calls.{CallTime, get_all}

module _ (w : WebIdentity) where
  -- what a call does that has to ask STS, and is answered
  get-exchanged :
      (world : StsWorld) (now : ℕ) (before c : Credentials) (post : FormPost)
      → usable now before ≡ false
      → sts_request world w ≡ ok post
      → exchange world post ≡ ok c
      → get world w now before ≡ record { returned = ok c; cached = c; sent = post ∷ [] }
  unfolding get
  get-exchanged world now before c post u q a =
      rw u (ap (requested world before) q ∙ ap (λ r. exchanged before r post) a)

  abbrev pub all_sent : List Fetched → List FormPost
  all_sent [] = []
  all_sent (f ∷ fs) = f.sent ++ all_sent fs

  -- the times of the calls at which the credentials still serve
  abbrev pub AllUsable : Credentials → List CallTime → Type 0
  AllUsable c = All (λ call. usable call.1 c ≡ true)

  get-usable :
      (world : StsWorld) (now : ℕ) (c : Credentials)
      → usable now c ≡ true
      → get world w now c ≡ record { returned = ok c; cached = c; sent = [] }
  unfolding get
  get-usable world now c u = rw u refl

  reused :
      (calls : List CallTime) (c : Credentials)
      → AllUsable c calls
      → (all_sent (get_all w calls c) ≡ []) × All (λ f. f.returned ≡ ok c) (get_all w calls c)
  unfolding get_all
  reused [] c u = (refl, tt)
  reused ((world, now) ∷ calls) c u =
      rw (get-usable world now c u.0) ((reused calls c u.1).0, (refl, (reused calls c u.1).1))

  -- One exchange serves all calls in which the credentials have more than five minutes left: they
  -- return what it brought, and it is the only request that is sent.
  pub get_all-once :
      (calls : List CallTime) (before : Credentials) (world : StsWorld) (now : ℕ) (post : FormPost)
      (c : Credentials)
      → usable now before ≡ false
      → sts_request world w ≡ ok post
      → exchange world post ≡ ok c
      → AllUsable c calls
      → (all_sent (get_all w ((world, now) ∷ calls) before) ≡ post ∷ [])
        × All (λ f. f.returned ≡ ok c) (get_all w ((world, now) ∷ calls) before)
  unfolding get_all
  get_all-once calls before world now post c u q a later =
      rw (get-exchanged world now before c post u q a)
        (ap (λ ps. post ∷ ps) (reused calls c later).0, (refl, (reused calls c later).1))
