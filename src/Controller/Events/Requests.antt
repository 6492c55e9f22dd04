-- ===== src/Controller/Events/Requests.antt =====
-- The requests that events of plans and charts make, in release_controller.go.
use elemental_lifecycle_mana.Prelude.{
  String, Bool, true, false, List, [], ◌∷◌, ◌≡◌, refl, ◌==◌, any, text_at, sym, subst,
  if◌then◌else◌, arith, eq_iff,
}
use elemental_lifecycle_mana.Api.{Release, release_name_label}
use elemental_lifecycle_mana.Errors.{Result, ok, err, settle}
use elemental_lifecycle_mana.Cluster.{Labels, Client}
use elemental_lifecycle_mana.Reconcilers.HelmCharts.Chart.{helm_chart_namespace}
use elemental_lifecycle_mana.Controller.Events.{
  Request, find_release, map_plan_to_release, map_helm_chart_to_release, requests_for,
}

-- The requests are for the release of the name, if one of the releases has it.
abbrev pub TargetsRelease : String → List Release → List Request → Type 0
TargetsRelease name releases [] = any (λ r. r.name == name) releases ≡ false
TargetsRelease name releases (q ∷ []) =
    (q.name ≡ name) × (any (λ r. r.name == name) releases ≡ true)
TargetsRelease name releases (q ∷ p ∷ qs) = ⊥

targets-skip :
    (name : String) (r : Release) (rs : List Release) (qs : List Request)
    → (r.name == name) ≡ false
    → TargetsRelease name rs qs
    → TargetsRelease name (r ∷ rs) qs
targets-skip name r rs [] e h = rw e h
targets-skip name r rs (q ∷ []) e (n, h) = (n, rw e h)
targets-skip name r rs (q ∷ p ∷ qs) e h = h

targets-cons :
    (name : String) (r : Release) (rs : List Release) (qs : List Request) (b : Bool)
    → (r.name == name) ≡ b
    → TargetsRelease name rs qs
    → TargetsRelease name
        (r ∷ rs)
        (if b then record { namespace = r.namespace; name = r.name } ∷ [] else qs)
targets-cons name r rs qs true e h = ((eq_iff r.name name).0 e, rw e refl)
targets-cons name r rs qs false e h = targets-skip name r rs qs e h

find_release-TargetsRelease :
    (name : String) (releases : List Release)
    → TargetsRelease name releases (find_release name releases)
unfolding find_release
find_release-TargetsRelease name [] = refl
find_release-TargetsRelease name (r ∷ rs) =
    targets-cons name r rs (find_release name rs) (r.name == name) refl
      (find_release-TargetsRelease name rs)

abbrev pub RequestsTarget : String → List Release → Result (List Request) → Type 0
RequestsTarget name releases (ok qs) = TargetsRelease name releases qs
RequestsTarget name releases (err e) = ⊥

module _ {W : Type 0} (client : Client W) where
  requests_for-target :
      (name : String) (releases : List Release) (r : Result (List Release) × W)
      → r.0 ≡ ok releases
      → RequestsTarget name releases (settle r (requests_for client name)).0
  requests_for-target name releases (ok rs, w) e =
      subst (λ q. RequestsTarget name releases (settle (q, w) (requests_for client name)).0) (sym e)
        (find_release-TargetsRelease name releases)
  requests_for-target name releases (err d, w) e = cc

  -- An event of a plan whose label names a release asks for exactly one request, for the release of
  -- that name, if the releases can be listed and one of them has it, and for none if none has it.
  pub map_plan_to_release-RequestsTarget :
      (labels : Labels) (releases : List Release) (w : W)
      → (text_at release_name_label labels == "") ≡ false
      → (client.list_releases w).0 ≡ ok releases
      → RequestsTarget
          (text_at release_name_label labels)
          releases
          (map_plan_to_release client labels w).0
  unfolding map_plan_to_release
  map_plan_to_release-RequestsTarget labels releases w named listed = rw named (
      requests_for-target (text_at release_name_label labels) releases (client.list_releases w)
        listed)

  -- An event of a chart is treated as an event of a plan with its labels if the chart is in the
  -- namespace of the charts; otherwise it asks for nothing and reads nothing.
  pub map_helm_chart_to_release-namespace :
      (namespace : String) (labels : Labels) (w : W)
      → map_helm_chart_to_release client namespace labels w ≡ (
          if namespace == helm_chart_namespace
          then map_plan_to_release client labels w
          else (ok [], w))
  unfolding map_plan_to_release map_helm_chart_to_release
  map_helm_chart_to_release-namespace namespace labels w = ground arith
