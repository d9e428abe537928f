-- ===== src/Dash/Server/Headers.antt =====
-- The security headers of every reply.
use nineteenseventytwo_platf.Prelude.{
  ◌≡◌, Bytes, codes, [], ◌∷◌, some, Assoc, insert, lookup, nat_eq, list_eq, All, lookup-insert,
  Bool-cases, inl, inr, ◌∙◌,
}
use nineteenseventytwo_platf.Dash.Client.{Api}
use nineteenseventytwo_platf.Dash.Server.{
  HttpRequest, Server, policy, with_security, matches, index, style, healthz, mux, security_headers,
  routes,
}

-- the headers, with their values
abbrev pub guarded : Assoc Bytes Bytes
guarded =
    (codes "Cache-Control", codes "no-store")
    ∷ (codes "Referrer-Policy", codes "no-referrer")
    ∷ (codes "X-Content-Type-Options", codes "nosniff")
    ∷ (codes "Content-Security-Policy", policy)
    ∷ []

-- all of them are set
abbrev pub Guarded : Assoc Bytes Bytes → Type 0
Guarded h = All (λ p. lookup p.0 h ≡ some p.1) guarded

abbrev cache : Bytes
cache = codes "Cache-Control"

abbrev referrer : Bytes
referrer = codes "Referrer-Policy"

abbrev options : Bytes
options = codes "X-Content-Type-Options"

abbrev content_policy : Bytes
content_policy = codes "Content-Security-Policy"

pub Guarded-insert :
    (v : Bytes) (h : Assoc Bytes Bytes) → Guarded h → Guarded (insert (codes "Content-Type") v h)
Guarded-insert v h g =
    let other = (λ (k : Bytes). lookup-insert k (codes "Content-Type") v h) in
    (
      other cache ∙ g.0,
      (other referrer ∙ g.1.0, (other options ∙ g.1.1.0, (other content_policy ∙ g.1.1.1.0, tt))),
    )

Guarded-start : (h : Assoc Bytes Bytes) → Guarded (with_security h)
Guarded-start h =
    let one = insert content_policy policy h in
    let two = insert options (codes "nosniff") one in
    let three = insert referrer (codes "no-referrer") two in
    let past_cache = (λ (k : Bytes). lookup-insert k cache (codes "no-store") three) in
    let past_referrer = (λ (k : Bytes). lookup-insert k referrer (codes "no-referrer") two) in
    let past_options = (λ (k : Bytes). lookup-insert k options (codes "nosniff") one) in
    (
      past_cache cache,
      (
        past_cache referrer ∙ past_referrer referrer,
        (
          past_cache options ∙ past_referrer options ∙ past_options options,
          (
            past_cache content_policy
                ∙ past_referrer content_policy
                ∙ past_options content_policy
                ∙ lookup-insert content_policy content_policy policy h,
            tt,
          ),
        ),
      ),
    )

-- For every request and whatever headers the reply had before, if what `http.ServeMux` answers by
-- itself (not found, method not allowed, a redirect) keeps headers that are set: the reply has
-- the four security headers with their values, whichever route it comes from.
pub routes-Guarded :
    (s : Server) (api : Api) (now : Bytes) (h : Assoc Bytes Bytes) (r : HttpRequest)
    → ((g : Assoc Bytes Bytes) → Guarded g → Guarded (s.own_answer g r).headers)
    → Guarded (routes s api now h r).headers
unfolding routes security_headers mux index style healthz
routes-Guarded s api now h r keeps =
    let start = Guarded-start h in
    elim (Bool-cases (matches r (codes "/"))) [
      | inl page ↦
          rw page (Guarded-insert (codes "text/html; charset=utf-8") (with_security h) start)
      | inr no_page ↦ elim (Bool-cases (matches r (codes "/style.css"))) [
        | inl css ↦
            rw no_page
              (rw css (Guarded-insert (codes "text/css; charset=utf-8") (with_security h) start))
        | inr no_css ↦ elim (Bool-cases (matches r (codes "/healthz"))) [
          | inl health ↦ rw no_page (
              rw no_css (
                rw health
                  (Guarded-insert (codes "text/plain; charset=utf-8") (with_security h) start)))
          | inr own ↦ rw no_page (rw no_css (rw own (keeps (with_security h) start)))
        ]
      ]
    ]
