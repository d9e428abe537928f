-- ===== src/Dash/Server.antt =====
-- The HTTP side of images/dash/main.go: `routes`, `securityHeaders`, `index`, `style`, `splitList`.
pub mod Headers
pub mod Pages
use nineteenseventytwo_platf.Prelude.{
  ℕ, zero, suc, ◌+◌, ◌*◌, Bool, ◌&&◌, ◌||◌, Bytes, codes, List, [], ◌∷◌, ◌++◌, map, Option, none,
  some, Assoc, insert, lookup, lookup_or, nat_eq, list_eq, ◌==◌, if◌then◌else◌, is_empty, not, keep,
}
use nineteenseventytwo_platf.Text.Space.{trim_space}
use nineteenseventytwo_platf.Text.Parts.{split}
use nineteenseventytwo_platf.Dash.Types.{Config, NamespaceView}
use nineteenseventytwo_platf.Dash.Client.{Api, ApiRequest}
use nineteenseventytwo_platf.Dash.View.{Viewed, namespace_view}

-- headers by their canonical names
pub record HttpRequest : Type 0 where
  pub method : Bytes
  pub path : Bytes
  pub headers : Assoc Bytes Bytes

pub record HttpReply : Type 0 where
  pub status : ℕ
  pub headers : Assoc Bytes Bytes
  pub body : Bytes

-- a handler, by the headers that the reply has when it is called
abbrev pub Handler : Type 0
Handler = Assoc Bytes Bytes → HttpRequest → HttpReply

pub record PageData : Type 0 where
  pub generated : Bytes
  pub viewer : Bytes
  pub namespaces : List NamespaceView

-- `execute` is the template: the bytes that it writes before it ends or fails. `own_answer` is what
-- `http.ServeMux` answers where no pattern matches.
pub record Server : Type 0 where
  pub cfg : Config
  pub css : Bytes
  pub execute : PageData → Bytes
  pub own_answer : Handler

-- the loop over the namespaces, whose views make at most three calls each
unfoldable pub views : Api → Config → ℕ → List Bytes → List Viewed
unfolding namespace_view
views api cfg moment [] = []
views api cfg moment (ns ∷ rest) =
    namespace_view api cfg moment ns ∷ views api cfg (moment + 3) rest

abbrev pub view_of : Viewed → NamespaceView
view_of v = v.view

unfoldable pub page_data : Api → Config → Bytes → Bytes → PageData
unfolding views
page_data api cfg now viewer = record {
  generated = now;
  viewer = viewer;
  namespaces = map view_of (views api cfg 0 cfg.namespaces);
}

unfoldable pub index : Server → Api → Bytes → Handler
unfolding page_data insert lookup
index s api now h r =
    let viewer = lookup_or [] (codes "Cf-Access-Authenticated-User-Email") r.headers in
    record {
      status = 200;
      headers = insert (codes "Content-Type") (codes "text/html; charset=utf-8") h;
      body = s.execute (page_data api s.cfg now viewer);
    }

unfoldable pub style : Server → Handler
unfolding insert
style s h r = record {
  status = 200;
  headers = insert (codes "Content-Type") (codes "text/css; charset=utf-8") h;
  body = s.css;
}

unfoldable pub healthz : Handler
unfolding insert
healthz h r = record {
  status = 200;
  headers = insert (codes "Content-Type") (codes "text/plain; charset=utf-8") h;
  body = codes "ok" ++ 10 ∷ [];
}

-- a pattern `GET path`, which takes HEAD requests too
unfoldable pub matches : HttpRequest → Bytes → Bool
matches r path = r.path == path && (r.method == codes "GET" || r.method == codes "HEAD")

unfoldable pub mux : Server → Api → Bytes → Handler
unfolding index style healthz
mux s api now h r =
    if matches r (codes "/")
    then index s api now h r
    else if matches r (codes "/style.css")
    then style s h r
    else if matches r (codes "/healthz")
    then healthz h r
    else s.own_answer h r

abbrev pub policy : Bytes
policy =
    codes
      "default-src 'none'; style-src 'self'; base-uri 'none'; form-action 'none'; frame-ancestors 'none'"

-- the four calls of `Set`
abbrev pub with_security : Assoc Bytes Bytes → Assoc Bytes Bytes
with_security h = insert (codes "Cache-Control") (codes "no-store") (
    insert (codes "Referrer-Policy") (codes "no-referrer") (
      insert (codes "X-Content-Type-Options") (codes "nosniff")
        (insert (codes "Content-Security-Policy") policy h)))

unfoldable pub security_headers : Handler → Handler
unfolding insert
security_headers next h r = next (with_security h) r

unfoldable pub routes : Server → Api → Bytes → Handler
unfolding mux security_headers
routes s api now = security_headers (mux s api now)

unfoldable pub trim_parts : List Bytes → List Bytes
unfolding trim_space
trim_parts [] = []
trim_parts (part ∷ parts) =
    let rest = trim_parts parts in
    let p = trim_space part in if not (is_empty p) then p ∷ rest else rest

unfoldable pub split_list : Bytes → List Bytes
unfolding split trim_parts
split_list s = trim_parts (split b',' s)
