-- ===== src/Reconcilers/Rke2.antt =====
-- internal/upgrade/reconcilers/rke2_core.go: the packaged components of RKE2.
pub mod Changes
pub mod Snapshot
pub mod Availability
use Prim.Native.String.{◌++◌}
use elemental_lifecycle_mana.Prelude.{
  ℕ, String, Bool, true, false, Option, none, some, List, [], ◌∷◌, ◌++◌ as concat, ◌==◌, ◌&&◌, ◌||◌,
  not, ltb, nat_eq, is_some, lookup, insert, text_at, any, if◌then◌else◌,
}
use elemental_lifecycle_mana.Api.{status_is_true}
use elemental_lifecycle_mana.Phase.Names.{has_prefix}
use elemental_lifecycle_mana.Errors.{Result, M, ◌>>=◌, pure, context}
use elemental_lifecycle_mana.Cluster.{HelmChart, Client}
use elemental_lifecycle_mana.Reconcilers.Kubernetes.{ChartSnapshot, ComponentsHandler}
use Changes.{FindComponents, Charts, chart_url_annotation}
use Snapshot.{SnapshotLibs, generate_snapshot}
use Availability.{reconcile_availability}
use elemental_lifecycle_mana.Helm.{HelmClient}

abbrev has_addon_owner : Option String → Bool
has_addon_owner none = false
has_addon_owner (some v) = v == "k3s.cattle.io/v1, Kind=Addon"

-- The tests of the loop of `findRKE2PackagedComponents`.
unfoldable pub is_packaged_component : HelmChart → Bool
unfolding has_prefix
is_packaged_component chart =
    if not (has_prefix chart.name "rke2-")
    then false
    else if not (is_some (lookup "objectset.rio.cattle.io/owner-name" chart.annotations))
    then false
    else if not (has_addon_owner (lookup "objectset.rio.cattle.io/owner-gvk" chart.annotations))
    then false
    else is_some (lookup chart_url_annotation chart.annotations)

unfoldable pub collect_components : Charts → List HelmChart → Charts
unfolding is_packaged_component
collect_components found [] = found
collect_components found (c ∷ cs) =
    collect_components (if is_packaged_component c then insert c.name c found else found) cs

unfoldable pub find_rke2_packaged_components : {W : Type 0} → Client W → M W Charts
unfolding collect_components
find_rke2_packaged_components client =
    context "listing HelmChart resources in \"kube-system\" namespace"
      (client.list_charts "kube-system")
    >>= λ charts. pure (collect_components [] charts)

abbrev pub components_or_default :
    {W : Type 0} → Client W → Option (FindComponents W) → FindComponents W
components_or_default client none = find_rke2_packaged_components client
components_or_default client (some find) = find

-- NewRKE2PackagedComponentsHandler, as the interface that the Kubernetes phase uses.
unfoldable pub rke2_handler :
    {W : Type 0}
    → SnapshotLibs
    → Client W
    → HelmClient W
    → Option (FindComponents W)
    → ComponentsHandler W
unfolding generate_snapshot reconcile_availability
rke2_handler libs client helm find = record {
  generate_snapshot = generate_snapshot libs client helm (components_or_default client find);
  reconcile_availability =
      reconcile_availability client helm libs.hash (components_or_default client find);
}
