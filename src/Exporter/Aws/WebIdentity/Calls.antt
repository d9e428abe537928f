-- ===== src/Exporter/Aws/WebIdentity/Calls.antt =====
-- Sequences of calls of `webIdentity.get`, and what each of them may do.
use nineteenseventytwo_platf.Prelude.{
  ℕ, ◌+◌, ◌<◌, ◌≡◌, refl, ap, sym, ◌∙◌, Bool, true, false, not, List, [], ◌∷◌, ◌++◌, Bytes, codes,
  Result, ok, err, wrap, bind-ok, is_empty, eqb, if◌then◌else◌, arith, ◌⊎◌, inl, inr, Bool-cases,
}
use nineteenseventytwo_platf.Exporter.Aws.Sign.{Credentials}
use nineteenseventytwo_platf.Exporter.Aws.WebIdentity.{
  WebIdentity, StsWorld, Fetched, FormPost, five_minutes, usable, get, requested, exchanged,
  exchange, with_key, sts_request, sts_reply,
}

-- One call: the world that it meets and the time.
abbrev pub CallTime : Type 0
CallTime = StsWorld × ℕ

module _ (w : WebIdentity) where
  -- the results of the calls, one after the other, each on the cache that the one before left
  unfoldable pub get_all : List CallTime → Credentials → List Fetched
  get_all [] cached = []
  get_all ((world, now) ∷ calls) cached =
      get world w now cached ∷ get_all calls (get world w now cached).cached

  -- what a call at `now` hands out on the cache `before`
  abbrev pub IsServed : StsWorld → ℕ → Credentials → Fetched → Type 0
  IsServed world now before f = elim f.returned [
    | err e ↦
        (f.cached ≡ before)
        × (usable now before ≡ false)
        × (((sts_request world w ≡ err e) × (f.sent ≡ []))
            ⊎ ((post : FormPost) × (sts_request world w ≡ ok post)
                × (exchange world post ≡ err e)
                × (f.sent ≡ post ∷ [])))
    | ok c ↦
        (f.cached ≡ c)
        × (is_empty c.access_key_id ≡ false)
        × (((f.sent ≡ []) × (c ≡ before) × (now + five_minutes < c.expiration))
            ⊎ ((post : FormPost) × (sts_request world w ≡ ok post)
                × (exchange world post ≡ ok c)
                × (f.sent ≡ post ∷ [])))
  ]

  ok_of_if :
      (b : Bool) (e : Bytes) (r c : Credentials)
      → (if b then err e else ok r) ≡ ok c
      → (b ≡ false) × (r ≡ c)
  ok_of_if true e r c h = cc
  ok_of_if false e r c h = (refl, cc)

  with_key-ok : (r c : Credentials) → with_key r ≡ ok c → is_empty c.access_key_id ≡ false
  with_key-ok r c e =
      let (given, same) = ok_of_if (is_empty r.access_key_id) _ r c e in
      ap (λ (x : Credentials). is_empty x.access_key_id) (sym same) ∙ given

  status_checked :
      (b : Bool) (e : Bytes) (r : Result Bytes Credentials) (c : Credentials)
      → (if b then err e else r) ≡ ok c
      → r ≡ ok c
  status_checked true e r c h = cc
  status_checked false e r c h = h

  exchange-ok :
      (world : StsWorld) (post : FormPost) (c : Credentials)
      → exchange world post ≡ ok c
      → is_empty c.access_key_id ≡ false
  unfolding exchange sts_reply
  exchange-ok world post c e =
      let (reply, sent, read) =
        bind-ok (wrap (λ e. codes "sts: " ++ e) (world.send post)) (sts_reply world) e in
      let parsed = status_checked (not (eqb reply.status_code 200)) _ _ c read in
      let (r, decoded, keyed) = bind-ok _ with_key parsed in with_key-ok r c keyed

  module _ (world : StsWorld) (now : ℕ) (before : Credentials)
      (used : usable now before ≡ false) where
    exchanged-IsServed :
        (post : FormPost) (r : Result Bytes Credentials)
        → sts_request world w ≡ ok post
        → exchange world post ≡ r
        → IsServed world now before (exchanged before r post)
    exchanged-IsServed post (err e) q a = (refl, used, inr (post, q, a, refl))
    exchanged-IsServed post (ok c) q a = (refl, exchange-ok world post c a, inr (post, q, a, refl))

    requested-IsServed :
        (r : Result Bytes FormPost)
        → sts_request world w ≡ r
        → IsServed world now before (requested world before r)
    requested-IsServed (err e) q = (refl, used, inl (q, refl))
    requested-IsServed (ok post) q = exchanged-IsServed post (exchange world post) q refl

  usable-true :
      (now : ℕ) (c : Credentials)
      → usable now c ≡ true
      → (is_empty c.access_key_id ≡ false) × (now + five_minutes < c.expiration)
  unfolding usable
  usable-true now c e = ground arith

  pub get-IsServed :
      (world : StsWorld) (now : ℕ) (before : Credentials)
      → IsServed world now before (get world w now before)
  unfolding get
  get-IsServed world now before = elim (Bool-cases (usable now before)) [
    | inl e ↦
        rw e (refl, (usable-true now before e).0, inl (refl, refl, (usable-true now before e).1))
    | inr e ↦ rw e (requested-IsServed world now before e (sts_request world w) refl)
  ]

  -- Sequences of calls in which every one is served.
  abbrev pub AllServed : List CallTime → Credentials → List Fetched → Type 0
  AllServed [] before [] = Unit
  AllServed [] before (f ∷ fs) = ⊥
  AllServed (call ∷ calls) before [] = ⊥
  AllServed ((world, now) ∷ calls) before (f ∷ fs) =
      IsServed world now before f × AllServed calls f.cached fs

  -- In a sequence of calls from any cache on, whatever each of them meets: what a call returns is
  -- what it leaves in the cache and has a key, and was either just exchanged, by one request, or was
  -- there before, has more than five minutes left, and took no request. A call fails only if what was
  -- there does not serve any more and the request cannot be made, or its exchange fails; it then
  -- leaves the cache as it was.
  pub get_all-AllServed :
      (calls : List CallTime) (before : Credentials) → AllServed calls before (get_all calls before)
  unfolding get_all
  get_all-AllServed [] before = tt
  get_all-AllServed ((world, now) ∷ calls) before =
      (get-IsServed world now before, get_all-AllServed calls (get world w now before).cached)
