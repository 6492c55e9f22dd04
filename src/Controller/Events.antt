-- ===== src/Controller/Events.antt =====
-- The functions of internal/controller/release_controller.go that follow plans: the removal of the
-- plans of an old version, and the reconcile requests that events of plans and charts make.
pub mod Requests
pub mod Cleanup
pub mod Spares
use Prim.Native.String.{◌++◌}
use elemental_lifecycle_mana.Prelude.{
  String, Bool, Option, none, some, List, [], ◌∷◌, ◌==◌, not, text_at, if◌then◌else◌,
}
use elemental_lifecycle_mana.Api.{Release, release_name_label, release_version_label}
use elemental_lifecycle_mana.Api.Sanitize.{sanitize_version}
use elemental_lifecycle_mana.Errors.{
  Error, wrap, join, Result, ok, err, M, pure, throw, ◌>>=◌, attempt, context,
}
use elemental_lifecycle_mana.Cluster.{Plan, Labels, Client}
use elemental_lifecycle_mana.Plan.{plan_namespace}
use elemental_lifecycle_mana.Reconcilers.HelmCharts.Chart.{helm_chart_namespace}

-- `append(errs, err)` and `errors.Join(errs...)`, with the nil error as `none`.
abbrev pub join_option : Option Error → Error → Error
join_option none e = e
join_option (some d) e = join d e

abbrev pub to_outcome : {W : Type 0} → Option Error → M W (Unit {0})
to_outcome none = pure tt
to_outcome (some e) = throw e

-- ctrl.Request.
pub record Request : Type 0 where
  pub namespace : String
  pub name : String

-- The loop over the listed releases.
unfoldable pub find_release : String → List Release → List Request
find_release name [] = []
find_release name (r ∷ rs) =
    let rest = find_release name rs in
    if r.name == name then record { namespace = r.namespace; name = r.name } ∷ [] else rest

module _ {W : Type 0} (client : Client W) where
  abbrev pub after_delete :
      Plan
      → Option Error
      → (Option Error → M W (Option Error))
      → Result (Unit {0})
      → M W (Option Error)
  after_delete p errs rest (ok u) = rest errs
  after_delete p errs rest (err e) =
      rest (some (join_option errs (wrap ("deleting plan " ++ p.name) e)))

  -- The loop over the old plans: an error does not end it.
  unfoldable pub delete_plans : List Plan → Option Error → M W (Option Error)
  delete_plans [] errs = pure errs
  delete_plans (p ∷ ps) errs =
      attempt (client.delete_plan p) (after_delete p errs (delete_plans ps))

  unfoldable pub cleanup_old_version_plans : String → String → M W (Unit {0})
  unfolding delete_plans sanitize_version
  cleanup_old_version_plans release_name old_version = do
    plans ← context "listing old plans" (
        client.list_plans plan_namespace (
          (release_name_label, release_name)
          ∷ (release_version_label, sanitize_version old_version)
          ∷ []))
    errs ← delete_plans plans none
    to_outcome errs

  abbrev pub requests_for : String → Result (List Release) → M W (List Request)
  requests_for name (ok releases) = pure (find_release name releases)
  requests_for name (err e) = pure []

  -- Both take the labels and the namespace of the object of the event.
  unfoldable pub map_plan_to_release : Labels → M W (List Request)
  unfolding find_release
  map_plan_to_release labels =
      let name = text_at release_name_label labels in
      if name == "" then pure [] else attempt client.list_releases (requests_for name)

  unfoldable pub map_helm_chart_to_release : String → Labels → M W (List Request)
  unfolding find_release
  map_helm_chart_to_release namespace labels =
      let name = text_at release_name_label labels in
      if not (namespace == helm_chart_namespace)
      then pure []
      else if name == ""
      then pure []
      else attempt client.list_releases (requests_for name)
