-- ===== src/Examples/Requests.antt =====
-- Examples of what reaches the controller: configurations, events of plans, and admissions.
use elemental_lifecycle_mana.Prelude.{
  ℕ, suc, String, Bool, true, false, Option, none, some, List, [], ◌∷◌, ◌≡◌, ◌≢◌, All, inr, ◌⊎◌,
  refl, ◌==◌, text_at, if◌then◌else◌,
}
use elemental_lifecycle_mana.Api.{
  Release, release_name_label, release_version_label, condition_applied,
}
use elemental_lifecycle_mana.Api.Sanitize.{sanitize_version}
use elemental_lifecycle_mana.Config.{
  KubernetesConfig, DrainOpts, HelmChartConfig, Config, ResolvedManifest, new_config,
}
use elemental_lifecycle_mana.Plan.{kubernetes_control_plane, kubernetes_worker}
use elemental_lifecycle_mana.Reconcilers.Kubernetes.{prepare_kubernetes_plans}
use elemental_lifecycle_mana.Reconcilers.Kubernetes.Plans.{
  HasUpgradeOrder, prepare_kubernetes_plans-HasUpgradeOrder,
}
use elemental_lifecycle_mana.Controller.Events.Spares.{cleanup_old_version_plans-spares}
use elemental_lifecycle_mana.Errors.{ok}
use elemental_lifecycle_mana.Cluster.{Plan, Labels, Client}
use elemental_lifecycle_mana.Controller.Conditions.{find_condition}
use elemental_lifecycle_mana.Controller.Drain.{parse_drain_opts}
use elemental_lifecycle_mana.Controller.Drain.Table.{
  expected_drain, control_planes_of, workers_of, parse_drain_opts-expected,
}
use elemental_lifecycle_mana.Controller.Events.{cleanup_old_version_plans, map_plan_to_release}
use elemental_lifecycle_mana.Controller.Events.Requests.{
  RequestsTarget, map_plan_to_release-RequestsTarget,
}
use elemental_lifecycle_mana.Controller.Events.Cleanup.{
  is_ok, world_after_deletes, all_deleted, cleanup_old_version_plans-tries_all,
}
use elemental_lifecycle_mana.Helm.Values.{end}
use elemental_lifecycle_mana.Controller.Configs.{
  LcmChart, LcmManifest, runtime_helm_chart_configs, parse_upgrade_config,
}
use elemental_lifecycle_mana.Controller.Configs.LcmCharts.{
  WithoutLcm, parse_upgrade_config-HasNoLcmChart,
}
use elemental_lifecycle_mana.Webhook.{
  Comparison, greater, same, less, VersionLib, validate_release_version, validate_create,
  validate_update,
}
use elemental_lifecycle_mana.Webhook.Admission.{
  Accepts, is_settled, validate_create-admits, validate_update-admits,
}
use elemental_lifecycle_mana.Examples.World.{
  World, cluster, nodes, small_release, list_ops, libraries, tag_of, manifest, complete_plan,
  done_by, config, chart, chart_config_for,
}

parse_drain_opts-expected_example :
    parse_drain_opts cluster small_release 0
    ≡ (ok (expected_drain (control_planes_of nodes) (workers_of nodes)), 1)
parse_drain_opts-expected_example =
    parse_drain_opts-expected cluster small_release nodes 0 1 refl refl

abbrev old_plans : List Plan
old_plans = complete_plan "old" ∷ complete_plan "older" ∷ []

cleanup_old_version_plans-tries_all_example :
    ((cleanup_old_version_plans cluster "release" "1.0.0" 0).1
      ≡ world_after_deletes cluster old_plans 1)
    × (is_ok (cleanup_old_version_plans cluster "release" "1.0.0" 0).0
        ≡ all_deleted cluster old_plans 1)
cleanup_old_version_plans-tries_all_example =
    cleanup_old_version_plans-tries_all cluster "release" "1.0.0" old_plans 0 1 refl

-- A cluster with a plan of the version before.
abbrev labelled_plan : Plan
labelled_plan = record (complete_plan "old") {
  labels = (release_name_label, "release") ∷ (release_version_label, "1-0-0") ∷ [];
}

abbrev labelled_cluster : Client World
labelled_cluster = record cluster { list_plans = λ namespace labels. done_by (labelled_plan ∷ []) }

abbrev prepared_plans : List Plan
prepared_plans =
    kubernetes_control_plane "release" "1.1.0" "v1.35.1+rke2r1" false
    ∷ kubernetes_worker "release" "1.1.0" "v1.35.1+rke2r1" true
    ∷ []

abbrev kubernetes_config : KubernetesConfig
kubernetes_config = record {
  image = "rancher/rke2-upgrade";
  version = "v1.35.1+rke2r1";
  drain_opts = record { control_plane = false; worker = true };
}

cleanup_old_version_plans-spares_example :
    ((cleanup_old_version_plans labelled_cluster "release" "1.0.0" 0).1
      ≡ world_after_deletes labelled_cluster (labelled_plan ∷ []) 1)
    × All (λ p. All (λ q. p.labels ≢ q.labels) prepared_plans) (labelled_plan ∷ [])
unfolding sanitize_version elemental_lifecycle_mana.Prelude.lookup prepare_kubernetes_plans
    elemental_lifecycle_mana.Reconcilers.Nodes.is_control_plane_only_cluster
cleanup_old_version_plans-spares_example =
    cleanup_old_version_plans-spares labelled_cluster tag_of "" config "1.0.0" (labelled_plan ∷ [])
      prepared_plans 0 1 refl refl ((refl, (refl, tt)), tt) (inr (kubernetes_config, 0, refl))

prepare_kubernetes_plans-HasUpgradeOrder_example :
    HasUpgradeOrder kubernetes_config
      (ok nodes)
      (prepare_kubernetes_plans cluster config kubernetes_config 0).0
prepare_kubernetes_plans-HasUpgradeOrder_example =
    prepare_kubernetes_plans-HasUpgradeOrder cluster config kubernetes_config 0

abbrev plan_labels : Labels
plan_labels = (release_name_label, "release") ∷ []

map_plan_to_release-RequestsTarget_example :
    RequestsTarget
      (text_at release_name_label plan_labels)
      (small_release ∷ [])
      (map_plan_to_release cluster plan_labels 0).0
unfolding elemental_lifecycle_mana.Prelude.lookup
map_plan_to_release-RequestsTarget_example =
    map_plan_to_release-RequestsTarget cluster plan_labels (small_release ∷ []) 0 refl refl

-- A manifest that lists a chart of the lifecycle manager beside another one.
abbrev lcm_manifest : ResolvedManifest
lcm_manifest = record manifest {
  core_platform = some (record {
    os_image_base = "registry.example/os:1.1.0";
    kubernetes_image = "rancher/rke2-upgrade";
    kubernetes_version = "v1.35.1+rke2r1";
    helm = some (record {
      charts = chart "elemental-lifecycle-manager-crds" [] ∷ chart "database" [] ∷ [];
      repositories = [];
    });
  });
}

abbrev no_drain : DrainOpts
no_drain = record { control_plane = false; worker = false }

abbrev quiet_release : Release
quiet_release =
    let spec = small_release.spec in
    record small_release { spec = record spec { disable_drain = true } }

abbrev made : Config
made = record config {
  os =
      some
        (record { image = "registry.example/os:1.1.0"; version = "1.1.0"; drain_opts = no_drain });
  kubernetes = some (record kubernetes_config { drain_opts = no_drain });
  helm_charts =
      chart_config_for "elemental-lifecycle-manager-crds" [] ∷ chart_config_for "database" [] ∷ [];
}

parse_upgrade_config-HasNoLcmChart_example :
    (kept : List HelmChartConfig) × (parse_upgrade_config cluster tag_of lcm_manifest quiet_release
        0
      ≡ (ok (record made { helm_charts = kept }), 0))
    × WithoutLcm made.helm_charts kept
unfolding new_config parse_drain_opts runtime_helm_chart_configs
parse_upgrade_config-HasNoLcmChart_example =
    parse_upgrade_config-HasNoLcmChart cluster tag_of lcm_manifest quiet_release 0 0 no_drain made
      refl refl

abbrev lcm_chart : String → LcmChart
lcm_chart name = record { chart = name; repository = ""; version = "1.1.0"; values = end }

abbrev core : LcmManifest
core = record {
  charts =
      lcm_chart "elemental-lifecycle-manager"
      ∷ lcm_chart "database"
      ∷ lcm_chart "elemental-lifecycle-manager-crds"
      ∷ [];
  repositories = [];
}

-- Versions are texts here, and are compared as such.
abbrev compare_texts : String → String → Comparison
compare_texts s t = if s == t then same else if t == "1.0.0" then greater else less

abbrev texts : VersionLib
texts = record { Version = String; parse = ok; compare = λ s t. ok (compare_texts s t) }

-- A cluster with no release yet.
abbrev empty_cluster : Client World
empty_cluster = record cluster { list_releases = done_by [] }

validate_create-admits_example :
    ((small_release.spec.registry == "") ≡ false)
    × Accepts (validate_release_version texts small_release.spec.version)
    × ((empty_cluster.list_releases 0).0 ≡ ok [])
unfolding validate_create
validate_create-admits_example =
    validate_create-admits empty_cluster texts list_ops small_release 0 tt

abbrev next_release : Release
next_release =
    let spec = small_release.spec in
    record small_release { spec = record spec { version = "1.2.0" } }

validate_update-admits_example :
    ((next_release.spec.registry == "") ≡ false)
    × (is_settled (find_condition list_ops condition_applied small_release) ≡ true)
    × ((v : String) × (validate_release_version texts next_release.spec.version ≡ ok v)
        × (((small_release.status.version == "") ≡ true)
            ⊎ (texts.compare v small_release.status.version ≡ ok greater)))
unfolding validate_update elemental_lifecycle_mana.Examples.World.find_in
validate_update-admits_example =
    validate_update-admits cluster texts list_ops small_release next_release 0 tt
