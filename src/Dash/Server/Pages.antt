-- ===== src/Dash/Server/Pages.antt =====
-- What the page shows of the configuration, and how the configuration is read.
use nineteenseventytwo_platf.Prelude.{
  ℕ, ◌+◌, ◌≡◌, ◌≢◌, refl, ap, ap₂, ◌∙◌, Bytes, List, [], ◌∷◌, map, All, false, is_empty,
}
use nineteenseventytwo_platf.Text.Space.{trim_space}
use nineteenseventytwo_platf.Text.Parts.{join, Lacks, split-join}
use nineteenseventytwo_platf.Dash.Types.{Config, NamespaceView}
use nineteenseventytwo_platf.Dash.Client.{Api}
use nineteenseventytwo_platf.Dash.View.Outcomes.{component_of, namespace_view-components}
use nineteenseventytwo_platf.Dash.Server.{view_of, views, page_data, trim_parts, split_list}

abbrev pub name_of : NamespaceView → Bytes
name_of v = v.name

-- the rows are those of the configured components, in order
abbrev pub Complete : Config → NamespaceView → Type 0
Complete cfg v = map component_of v.rows ≡ cfg.components

views-names :
    (api : Api) (cfg : Config) (moment : ℕ) (nss : List Bytes)
    → (map name_of (map view_of (views api cfg moment nss)) ≡ nss)
      × All (Complete cfg) (map view_of (views api cfg moment nss))
unfolding views
views-names api cfg moment [] = (refl, tt)
views-names api cfg moment (ns ∷ rest) =
    let here = namespace_view-components api cfg moment ns in
    let later = views-names api cfg (moment + 3) rest in
    (ap₂ (λ n ns. n ∷ ns) here.0 later.0, (here.1, later.1))

-- Whatever the API answers: the page has the configured namespaces, each once and in the configured
-- order, and for each of them a row for each of the configured components, in order.
pub page_data-namespaces :
    (api : Api) (cfg : Config) (now viewer : Bytes)
    → (map name_of (page_data api cfg now viewer).namespaces ≡ cfg.namespaces)
      × All (Complete cfg) (page_data api cfg now viewer).namespaces
unfolding page_data
page_data-namespaces api cfg now viewer = views-names api cfg 0 cfg.namespaces

-- a name that `splitList` leaves as it is
abbrev pub Clean : Bytes → Type 0
Clean p = (trim_space p ≡ p) × (is_empty p ≡ false)

trim_parts-Clean : (ps : List Bytes) → All Clean ps → trim_parts ps ≡ ps
unfolding trim_parts
trim_parts-Clean [] h = refl
trim_parts-Clean (p ∷ ps) h = rw h.0.0 (rw h.0.1 (ap (λ r. p ∷ r) (trim_parts-Clean ps h.1)))

-- Names that are not empty, hold no comma and have no white space around them are read back from
-- their list with commas between them, if there is at least one.
pub split_list-join :
    (ps : List Bytes)
    → ps ≢ []
    → All (Lacks b',') ps
    → All Clean ps
    → split_list (join (b',' ∷ []) ps) ≡ ps
unfolding split_list
split_list-join ps n l c = ap trim_parts (split-join b',' ps n l) ∙ trim_parts-Clean ps c
