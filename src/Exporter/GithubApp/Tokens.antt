-- ===== src/Exporter/GithubApp/Tokens.antt =====
-- Sequences of calls of `githubApp.token`.
use nineteenseventytwo_platf.Prelude.{
  ℕ, ◌+◌, ◌*◌, ◌<◌, ◌≡◌, ◌⊎◌, inl, inr, refl, sym, true, false, List, [], ◌∷◌, Bytes, Result, ok,
  err, bind-ok, ok_unique, is_empty, Bool-cases, arith,
}
use nineteenseventytwo_platf.Exporter.GithubApp.{
  AppWorld, GithubApp, KeptToken, TokenRequest, Issued, one_minute, serves, token_url,
  token_request, load_rsa_key, app_jwt, prepare_token, ask_token, answered, asked, app_token,
}

abbrev wanted : TokenRequest → Result Bytes TokenRequest
wanted q = ok q

serves-true :
    (now : ℕ) (k : KeptToken)
    → serves now k ≡ true
    → (is_empty k.token ≡ false) × (now + 5 * one_minute < k.expires)
unfolding serves
serves-true now k e = ground arith

module _ {Key : Type 0} (g : GithubApp) where
  -- a request with a JWT that the App's key signed
  abbrev pub IsAsked : AppWorld Key → ℕ → TokenRequest → Type 0
  IsAsked world now q =
      (key : Key) × (jwt : Bytes) × (load_rsa_key world g.key_file ≡ ok key)
      × (app_jwt world key g.app_id now ≡ ok jwt)
      × (q ≡ token_request g jwt)

  -- what a call at `now` does on the token `before`
  abbrev pub IsIssued : AppWorld Key → ℕ → KeptToken → Issued → Type 0
  IsIssued world now before f = elim f.returned [
    | err e ↦
        (f.kept ≡ before)
        × (serves now before ≡ false)
        × (((prepare_token world g now ≡ err e) × (f.sent ≡ []))
            ⊎ ((q : TokenRequest) × (f.sent ≡ q ∷ [])
                × IsAsked world now q
                × (ask_token world q ≡ err e)))
    | ok t ↦
        (f.kept.token ≡ t)
        × (((f.sent ≡ [])
              × (f.kept ≡ before)
              × (is_empty t ≡ false)
              × (now + 5 * one_minute < f.kept.expires))
            ⊎ ((q : TokenRequest) × (f.sent ≡ q ∷ [])
                × IsAsked world now q
                × (ask_token world q ≡ ok f.kept)))
  ]

  answered-IsIssued :
      (world : AppWorld Key) (now : ℕ) (before : KeptToken) (q : TokenRequest)
      (r : Result Bytes KeptToken)
      → serves now before ≡ false
      → IsAsked world now q
      → ask_token world q ≡ r
      → IsIssued world now before (answered world before q r)
  answered-IsIssued world now before q (err e) u a h = (refl, u, inr (q, refl, a, h))
  answered-IsIssued world now before q (ok k) u a h = (refl, inr (q, refl, a, h))

  asked-IsIssued :
      (world : AppWorld Key) (now : ℕ) (before : KeptToken) (r : Result Bytes TokenRequest)
      → serves now before ≡ false
      → prepare_token world g now ≡ r
      → IsIssued world now before (asked world before r)
  unfolding prepare_token
  asked-IsIssued world now before (err e) u h = (refl, u, inl (h, refl))
  asked-IsIssued world now before (ok q) u h =
      let (key, loaded, more) = bind-ok (load_rsa_key world g.key_file) _ h in
      let (jwt, signed, rest) = bind-ok (app_jwt world key g.app_id now) _ more in
      let (checked, fine, same) = bind-ok (world.new_request (token_url g)) _ rest in
      answered-IsIssued world now before q (ask_token world q) u
        (key, jwt, loaded, signed, sym (ok_unique (ok (token_request g jwt)) refl same)) refl

  app_token-IsIssued :
      (world : AppWorld Key) (now : ℕ) (before : KeptToken)
      → IsIssued world now before (app_token world g now before)
  unfolding app_token
  app_token-IsIssued world now before = elim (Bool-cases (serves now before)) [
    | inl e ↦
        let (known, later) = serves-true now before e in rw e (refl, inl (refl, refl, known, later))
    | inr e ↦ rw e (asked-IsIssued world now before (prepare_token world g now) e refl)
  ]

  -- the results of the calls, one after the other, each on what the one before kept
  unfoldable pub token_all : List (AppWorld Key × ℕ) → KeptToken → List Issued
  token_all [] before = []
  token_all ((world, now) ∷ calls) before =
      let f = app_token world g now before in f ∷ token_all calls f.kept

  abbrev pub AllIssued : List (AppWorld Key × ℕ) → KeptToken → List Issued → Type 0
  AllIssued [] before [] = Unit
  AllIssued [] before (f ∷ fs) = ⊥
  AllIssued (call ∷ calls) before [] = ⊥
  AllIssued ((world, now) ∷ calls) before (f ∷ fs) =
      IsIssued world now before f × AllIssued calls f.kept fs

  -- In a sequence of calls from any token on, whatever each of them meets: a token that is returned
  -- was either answered to the one request that the call sent, with a JWT that the App's key signed at
  -- that time, or was there before, has more than five minutes left, and took no request. It is
  -- what stays. A call
  -- fails only if the token does not serve any more and no request can be made, or the one that is
  -- sent does not get a token; it then leaves the token as it was.
  pub token_all-AllIssued :
      (calls : List (AppWorld Key × ℕ)) (before : KeptToken)
      → AllIssued calls before (token_all calls before)
  unfolding token_all
  token_all-AllIssued [] before = tt
  token_all-AllIssued ((world, now) ∷ calls) before = (
    app_token-IsIssued world now before,
    token_all-AllIssued calls (app_token world g now before).kept,
  )
