-- ===== src/Examples/Round.antt =====
-- A whole round of the reconciler, over the small cluster with the handler for RKE2, that reaches
-- the version of the release.
use elemental_lifecycle_mana.Prelude.{true, false, some, none, [], ◌∷◌, ◌≡◌, ◌↔◌, ◌⊎◌, refl}
use elemental_lifecycle_mana.Errors.{message, ok, err}
use elemental_lifecycle_mana.Cluster.{ConfigMap, Client}
use elemental_lifecycle_mana.Reconcilers.Rke2.{rke2_handler, components_or_default}
use elemental_lifecycle_mana.Reconcilers.Kubernetes.{ComponentsSnapshot}
use elemental_lifecycle_mana.Reconcilers.Rke2.Snapshot.Origin.{IsTaken, generate_snapshot-IsTaken}
use elemental_lifecycle_mana.Reconcilers.Rke2.Snapshot.{
  generate_snapshot, SnapshotLibs, source_annotation,
}
use elemental_lifecycle_mana.Controller.Manifests.{WithRaw}
use elemental_lifecycle_mana.Controller.Reconcile.{Outcome, reconcile_normal}
use elemental_lifecycle_mana.Controller.Wiring.{release_reconciler}
use elemental_lifecycle_mana.Controller.Wiring.Done.{handler}
use elemental_lifecycle_mana.Controller.Wiring.Upgraded.{Attains, release_reconciler-IsUpgraded}
use elemental_lifecycle_mana.Examples.World.{
  config, World, done_by, libraries, small_release, cluster, helm_store, config,
}

-- The stored text of a snapshot is not read in this example.
abbrev snapshot_libs : SnapshotLibs
snapshot_libs = record {
  hash = λ s. s;
  encode = λ s. ok "{}";
  decode = λ s. err (message "not supported");
  polls = 3;
}

-- The small cluster with the snapshot of an upgrade that did not change the version of Kubernetes.
abbrev stored_snapshot : ConfigMap
stored_snapshot = record {
  name = "rke2-packaged-components-snapshot";
  namespace = "";
  labels = ("lifecycle.suse.com/release", "release") ∷ ("lifecycle.suse.com/version", "1-1-0") ∷ [];
  annotations = (source_annotation, "v1.35.1+rke2r1") ∷ [];
  entries = [];
  creation_timestamp = 1;
  deletion_timestamp = none;
}

abbrev prepared_cluster : Client World
prepared_cluster = record cluster {
  get_config_map = λ namespace name. done_by stored_snapshot;
  delete_plan = λ p. done_by tt;
}

abbrev upgraded : Outcome × WithRaw World
upgraded =
    reconcile_normal
      (release_reconciler libraries prepared_cluster helm_store
        (handler libraries snapshot_libs prepared_cluster helm_store none))
      small_release ([], 0)

-- The round reaches the version.
upgraded_test : upgraded.0.release.status.version ≡ "1.1.0"
unfolding reconcile_normal release_reconciler rke2_handler
    elemental_lifecycle_mana.Examples.World.find_in
    elemental_lifecycle_mana.Reconcilers.HelmCharts.Sort.sort_chart_configs
    elemental_lifecycle_mana.Reconcilers.HelmCharts.Sort.visit
    elemental_lifecycle_mana.Prelude.insert
    elemental_lifecycle_mana.Reconcilers.HelmCharts.Chart.reconcile_chart
    elemental_lifecycle_mana.Errors.is_release_not_found
    elemental_lifecycle_mana.Reconcilers.HelmCharts.Aggregate.aggregate_results
    elemental_lifecycle_mana.Plan.os_control_plane
    elemental_lifecycle_mana.Plan.Script.parse_upgrade_script
    elemental_lifecycle_mana.Reconcilers.Nodes.is_control_plane_only_cluster
    elemental_lifecycle_mana.Plan.os_worker
    elemental_lifecycle_mana.Reconcilers.Nodes.all_nodes_at_kubernetes_version
    elemental_lifecycle_mana.Reconcilers.Rke2.find_rke2_packaged_components
    elemental_lifecycle_mana.Phase.put_state elemental_lifecycle_mana.Examples.World.set_in
upgraded_test = refl

release_reconciler-IsUpgraded_example :
    (upgraded.0.release.status.version ≡ "1.0.0")
    ⊎ Attains libraries snapshot_libs prepared_cluster helm_store none small_release
        ([], 0)
        upgraded
release_reconciler-IsUpgraded_example =
    release_reconciler-IsUpgraded libraries snapshot_libs prepared_cluster helm_store none
      small_release [] 0

-- What is read of the stored map.
abbrev taken : ComponentsSnapshot
taken = record { creation_time = 1; source_kubernetes_version = "v1.35.1+rke2r1"; charts = [] }

generate_snapshot-IsTaken_example :
    IsTaken snapshot_libs prepared_cluster helm_store
      (components_or_default prepared_cluster none)
      config
      0
      taken
unfolding generate_snapshot elemental_lifecycle_mana.Prelude.lookup
    elemental_lifecycle_mana.Api.Sanitize.sanitize_version
generate_snapshot-IsTaken_example =
    generate_snapshot-IsTaken snapshot_libs prepared_cluster helm_store
      (components_or_default prepared_cluster none) config 0 taken refl
