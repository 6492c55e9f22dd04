-- ===== src/Controller/Wiring/Kubernetes.antt =====
-- The Kubernetes phase as cmd/main.go builds it: with the reconciler of plans and the handler of
-- the packaged components of RKE2.
use elemental_lifecycle_mana.Prelude.{Option, some, ◌≡◌, ◌↔◌}
use elemental_lifecycle_mana.Cluster.{Client}
use elemental_lifecycle_mana.Helm.{HelmClient}
use elemental_lifecycle_mana.Config.{Config, KubernetesConfig}
use elemental_lifecycle_mana.Reconcilers.SucPlan.{reconcile_plan}
use elemental_lifecycle_mana.Reconcilers.SucPlan.Laws.{reconcile_plan-ReportsPlanState}
use elemental_lifecycle_mana.Reconcilers.Os.Order.{Succeeds}
use elemental_lifecycle_mana.Reconcilers.Kubernetes.{reconcile_kubernetes}
use elemental_lifecycle_mana.Reconcilers.Kubernetes.Verified.{
  IsUpgradedCluster, reconcile_kubernetes-Succeeds_iff,
}
use elemental_lifecycle_mana.Reconcilers.Rke2.{rke2_handler, components_or_default}
use elemental_lifecycle_mana.Reconcilers.Rke2.Snapshot.{SnapshotLibs}
use elemental_lifecycle_mana.Reconcilers.Rke2.Changes.{FindComponents}
use elemental_lifecycle_mana.Reconcilers.Rke2.Availability.Laws.{
  reconcile_availability-ReportsNoSuccess,
}

-- With the real reconciler of plans and the real handler of the packaged components, for a
-- configuration with a Kubernetes part: the phase reports success exactly when the snapshot of the
-- components is at hand, the plans could be prepared, every plan in order is complete and has nodes
-- that are all ready, schedulable and at the target version, and at last the packaged components
-- are available.
pub rke2_phase-Succeeds_iff :
    {W : Type 0} (libs : SnapshotLibs) (client : Client W) (helm : HelmClient W)
    (find : Option (FindComponents W)) (config : Config) (k8s : KubernetesConfig) (w : W)
    → config.kubernetes ≡ some k8s
    → let components = rke2_handler libs client helm find in
      Succeeds (reconcile_kubernetes client (reconcile_plan client) components (some config) w).0
      ↔ IsUpgradedCluster (reconcile_plan client) components client config k8s w
unfolding rke2_handler
rke2_phase-Succeeds_iff libs client helm find config k8s w given =
    reconcile_kubernetes-Succeeds_iff (reconcile_plan client) (rke2_handler libs client helm find)
      client (reconcile_plan-ReportsPlanState client)
      (reconcile_availability-ReportsNoSuccess client helm libs.hash
        (components_or_default client find))
      config k8s w given
