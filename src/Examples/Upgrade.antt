-- ===== src/Examples/Upgrade.antt =====
-- Examples of the phases of an upgrade on the small cluster.
use elemental_lifecycle_mana.Prelude.{
  ℕ, suc, String, Bool, true, false, Option, none, some, List, [], ◌∷◌, ◌++◌, ◌≡◌, ◌↔◌, ◌≢◌, refl,
  inl, inr, All, if◌then◌else◌,
}
use elemental_lifecycle_mana.Errors.{ok, M}
use elemental_lifecycle_mana.Cluster.{Plan}
use elemental_lifecycle_mana.Config.{
  Config, OsConfig, KubernetesConfig, HelmChartConfig, RuntimeCharts, build_helm_chart_config,
  no_runtime_config, Dependency, helm_dependency, other_dependency,
}
use elemental_lifecycle_mana.Config.Charts.{all_listed, Decides, build_helm_chart_config-Decides}
use elemental_lifecycle_mana.Config.Charts.Processed.{configs_of}
use elemental_lifecycle_mana.Reconcilers.SucPlan.{PlanResult, reconcile_plan}
use elemental_lifecycle_mana.Reconcilers.SucPlan.Laws.{reconcile_plan-ReportsPlanState}
use elemental_lifecycle_mana.Reconcilers.Os.{prepare_os_plans, reconcile_os}
use elemental_lifecycle_mana.Reconcilers.Os.Order.{
  Succeeds, AllPlansComplete, HasPlanOrder, prepare_os_plans-HasPlanOrder,
  reconcile_os-Succeeds_iff,
}
use elemental_lifecycle_mana.Reconcilers.Kubernetes.{reconcile_kubernetes}
use elemental_lifecycle_mana.Reconcilers.Kubernetes.Verified.{
  IsUpgradedCluster, ComponentsAvailable, reconcile_kubernetes-Succeeds_iff,
}
use elemental_lifecycle_mana.Reconcilers.Rke2.{find_rke2_packaged_components, rke2_handler}
use elemental_lifecycle_mana.Reconcilers.Rke2.Availability.{reconcile_availability}
use elemental_lifecycle_mana.Reconcilers.Rke2.Availability.Laws.{
  HasRolledOut, reconcile_availability-available_iff,
}
use elemental_lifecycle_mana.Reconcilers.HelmCharts.Sort.{sort_chart_configs}
use elemental_lifecycle_mana.Reconcilers.HelmCharts.Sort.Total.{Sorts, sort_chart_configs-Sorts}
use elemental_lifecycle_mana.Examples.World.{
  World, cluster, helm_store, config, snapshot, components, tag_of, manifest_helm, chart_config_for,
}

-- Two charts of which the first depends on the second.
abbrev charts : List HelmChartConfig
charts =
    chart_config_for "dashboard" (record { name = "database"; type = helm_dependency } ∷ [])
    ∷ chart_config_for "database" []
    ∷ []

sort_chart_configs-Sorts_example :
    Sorts (λ c. c.name) charts (sort_chart_configs (λ c. c.name) charts)
sort_chart_configs-Sorts_example = sort_chart_configs-Sorts (λ c. c.name) charts

sort_test :
    sort_chart_configs (λ c. c.name) charts
    ≡ ok (
        chart_config_for "database" []
        ∷ chart_config_for "dashboard" (record { name = "database"; type = helm_dependency } ∷ [])
        ∷ [])
unfolding sort_chart_configs elemental_lifecycle_mana.Reconcilers.HelmCharts.Sort.visit
    elemental_lifecycle_mana.Prelude.lookup elemental_lifecycle_mana.Prelude.insert
    elemental_lifecycle_mana.Config.delete_key
sort_test = refl

abbrev os_config : OsConfig
os_config = record {
  image = "registry.example/os:1.1.0";
  version = "1.1.0";
  drain_opts = record { control_plane = false; worker = true };
}

abbrev kubernetes_config : KubernetesConfig
kubernetes_config = record {
  image = "rancher/rke2-upgrade";
  version = "v1.35.1+rke2r1";
  drain_opts = record { control_plane = false; worker = true };
}

abbrev suc_plans : Plan → M World PlanResult
suc_plans = reconcile_plan cluster

reconcile_os-Succeeds_example :
    Succeeds (reconcile_os cluster tag_of "" suc_plans (some config) 0).0 ↔ (
      (ps : List Plan) × ((prepare_os_plans cluster tag_of "" config os_config 0).0 ≡ ok ps)
      × AllPlansComplete suc_plans ps (prepare_os_plans cluster tag_of "" config os_config 0).1)
reconcile_os-Succeeds_example =
    reconcile_os-Succeeds_iff cluster tag_of "" suc_plans config os_config refl
      (reconcile_plan-ReportsPlanState cluster) 0

prepare_os_plans-HasPlanOrder_example :
    HasPlanOrder (cluster.list_nodes 0).0 (prepare_os_plans cluster tag_of "" config os_config 0).0
prepare_os_plans-HasPlanOrder_example =
    prepare_os_plans-HasPlanOrder cluster tag_of "" config os_config 0

reconcile_kubernetes-Succeeds_example :
    Succeeds (reconcile_kubernetes cluster suc_plans components (some config) 0).0
    ↔ IsUpgradedCluster suc_plans components cluster config kubernetes_config 0
reconcile_kubernetes-Succeeds_example =
    reconcile_kubernetes-Succeeds_iff suc_plans components cluster
      (reconcile_plan-ReportsPlanState cluster) (λ version s v. λ e. cc) config kubernetes_config 0
      refl

reconcile_availability-available_example :
    ComponentsAvailable
      (reconcile_availability cluster helm_store
        (λ s. s)
        (find_rke2_packaged_components cluster)
        "v1.34.0"
        snapshot
        0).0
    ↔ HasRolledOut cluster helm_store
        (λ s. s)
        (find_rke2_packaged_components cluster)
        "v1.34.0"
        snapshot
        []
        1
unfolding find_rke2_packaged_components
    elemental_lifecycle_mana.Reconcilers.Rke2.Changes.find_new_or_changed
reconcile_availability-available_example =
    reconcile_availability-available_iff cluster helm_store (λ s. s)
      (find_rke2_packaged_components cluster) "v1.34.0" snapshot [] 0 1 refl

-- The user configures a chart that no manifest lists.
abbrev runtime : RuntimeCharts
runtime = ("monitoring", no_runtime_config) ∷ ("logging", no_runtime_config) ∷ []

build_helm_chart_config-Decides_example :
    Decides
      (all_listed runtime (some manifest_helm) none)
      (configs_of runtime (some manifest_helm) ++ configs_of runtime none)
      (build_helm_chart_config (some manifest_helm) none runtime)
build_helm_chart_config-Decides_example =
    build_helm_chart_config-Decides (some manifest_helm) none runtime
