-- ===== src/Dash/View/Outcomes.antt =====
-- What a view shows, by the outcomes of the three reads.
use nineteenseventytwo_platf.Prelude.{
  ℕ, ◌≡◌, refl, ap, Bytes, List, [], ◌∷◌, map, ok, err, ◌⊎◌, inl, inr, Result-cases, ◌∙◌,
}
use nineteenseventytwo_platf.Dash.Types.{Config, Workload, Pod, Row}
use nineteenseventytwo_platf.Dash.Classify.{classify}
use nineteenseventytwo_platf.Dash.Tally.{component_row}
use nineteenseventytwo_platf.Dash.Client.{Api}
use nineteenseventytwo_platf.Dash.View.{
  Viewed, unreadable, unknown_row, unknown_view, known_view, get_deployments, get_stateful_sets,
  get_pods, with_deployments, with_stateful_sets, with_pods, namespace_view,
}

-- all three reads succeed: the rows are those of the objects read, without an error or a warning
abbrev pub Readable : Api → Config → ℕ → Bytes → Viewed → Type 0
Readable api cfg moment ns v =
    (deps : List Workload) × (sets : List Workload) × (pods : List Pod) × ((get_deployments api cfg
        moment ns).result
      ≡ ok deps)
    × ((get_stateful_sets api cfg moment ns).result ≡ ok sets)
    × ((get_pods api cfg moment ns).result ≡ ok pods)
    × (v.view ≡ record {
      name = ns;
      rows = map (component_row deps sets pods) cfg.components;
      error = [];
    })
    × (v.warned ≡ [])

-- the first of the reads that fails, fails with that error
abbrev pub FailsWith : Api → Config → ℕ → Bytes → Bytes → Type 0
FailsWith api cfg moment ns e =
    ((get_deployments api cfg moment ns).result ≡ err e)
    ⊎ ((deps : List Workload) × ((get_deployments api cfg moment ns).result ≡ ok deps)
        × (((get_stateful_sets api cfg moment ns).result ≡ err e)
            ⊎ ((sets : List Workload) × ((get_stateful_sets api cfg moment ns).result ≡ ok sets)
                × ((get_pods api cfg moment ns).result ≡ err e))))

-- a read fails: every component's state is unknown, the view has an error, and the first failure is
-- logged
abbrev pub Unreadable : Api → Config → ℕ → Bytes → Viewed → Type 0
Unreadable api cfg moment ns v =
    (e : Bytes) × FailsWith api cfg moment ns e
    × (v.view ≡ record { name = ns; rows = map unknown_row cfg.components; error = unreadable })
    × (v.warned ≡ (ns, e) ∷ [])

-- For every API and configuration, whatever the reads return: either all three reads succeed, and
-- the view has the row of each component as computed from what they returned, no error and no
-- warning; or one fails, and the view has each component as unknown, the error text, and one
-- warning with the failure of the first read that failed. No row comes from a partial reading.
pub namespace_view-Readable :
    (api : Api) (cfg : Config) (moment : ℕ) (ns : Bytes)
    → Readable api cfg moment ns (namespace_view api cfg moment ns)
      ⊎ Unreadable api cfg moment ns (namespace_view api cfg moment ns)
unfolding namespace_view with_deployments with_stateful_sets with_pods known_view unknown_view
namespace_view-Readable api cfg moment ns =
    elim (Result-cases (get_deployments api cfg moment ns).result) [
      | inl (e, d) ↦ inr (e, inl d, rw d refl, rw d refl)
      | inr (deps, d) ↦ elim (Result-cases (get_stateful_sets api cfg moment ns).result) [
        | inl (e, s) ↦ inr (e, inr (deps, d, inl s), rw d (rw s refl), rw d (rw s refl))
        | inr (sets, s) ↦ elim (Result-cases (get_pods api cfg moment ns).result) [
          | inl (e, p) ↦
              inr (
                e,
                inr (deps, d, inr (sets, s, p)),
                rw d (rw s (rw p refl)),
                rw d (rw s (rw p refl)),
              )
          | inr (pods, p) ↦
              inl (deps, sets, pods, d, s, p, rw d (rw s (rw p refl)), rw d (rw s (rw p refl)))
        ]
      ]
    ]

abbrev pub component_of : Row → Bytes
component_of r = r.component

components-map :
    (f : Bytes → Row) (cs : List Bytes)
    → ((c : Bytes) → (f c).component ≡ c)
    → map component_of (map f cs) ≡ cs
components-map f [] h = refl
components-map f (c ∷ cs) h =
    ap (λ d. d ∷ map component_of (map f cs)) (h c) ∙ ap (λ d. c ∷ d) (components-map f cs h)

-- Whatever the reads return: the view is named after the namespace, and its rows are those of the
-- configured components, each once and in the configured order.
pub namespace_view-components :
    (api : Api) (cfg : Config) (moment : ℕ) (ns : Bytes)
    → ((namespace_view api cfg moment ns).view.name ≡ ns)
      × (map component_of (namespace_view api cfg moment ns).view.rows ≡ cfg.components)
unfolding component_row classify
namespace_view-components api cfg moment ns = elim (namespace_view-Readable api cfg moment ns) [
  | inl (deps, sets, pods, d, s, p, v, w) ↦
      rw v (refl, components-map (component_row deps sets pods) cfg.components (λ c. refl))
  | inr (e, f, v, w) ↦ rw v (refl, components-map unknown_row cfg.components (λ c. refl))
]
