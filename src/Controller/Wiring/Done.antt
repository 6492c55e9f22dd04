-- ===== src/Controller/Wiring/Done.antt =====
-- What the phases of the pipeline of cmd/main.go, with the handler of the packaged components of
-- RKE2, say of the cluster when they complete.
use elemental_lifecycle_mana.Prelude.{
  true, false, Option, none, some, List, ◌≡◌, ◌⊎◌, inl, inr, is_empty, Option-cases, Bool-cases,
  arith,
}
use elemental_lifecycle_mana.Errors.{ok}
use elemental_lifecycle_mana.Config.{Config, OsConfig, KubernetesConfig, HelmChartConfig}
use elemental_lifecycle_mana.Cluster.{Plan, Client}
use elemental_lifecycle_mana.Helm.{HelmClient}
use elemental_lifecycle_mana.Pipeline.Order.{Completes, AllComplete}
use elemental_lifecycle_mana.Reconcilers.SucPlan.{reconcile_plan}
use elemental_lifecycle_mana.Reconcilers.SucPlan.Laws.{reconcile_plan-ReportsPlanState}
use elemental_lifecycle_mana.Reconcilers.Os.{prepare_os_plans, reconcile_os}
use elemental_lifecycle_mana.Reconcilers.Os.Order.{AllPlansComplete, reconcile_os-Succeeds_iff}
use elemental_lifecycle_mana.Reconcilers.Kubernetes.{ComponentsHandler, reconcile_kubernetes}
use elemental_lifecycle_mana.Reconcilers.Kubernetes.Verified.{IsUpgradedCluster}
use elemental_lifecycle_mana.Reconcilers.HelmCharts.{reconcile_helm, reconcile_helm_charts}
use elemental_lifecycle_mana.Reconcilers.HelmCharts.Sort.{sort_chart_configs}
use elemental_lifecycle_mana.Reconcilers.HelmCharts.Chart.{ReleaseRef}
use elemental_lifecycle_mana.Reconcilers.HelmCharts.Success.{
  AllUpToDate, reconcile_helm_charts-Succeeds_iff,
}
use elemental_lifecycle_mana.Reconcilers.Rke2.{rke2_handler, components_or_default}
use elemental_lifecycle_mana.Reconcilers.Rke2.Changes.{FindComponents}
use elemental_lifecycle_mana.Reconcilers.Rke2.Snapshot.{SnapshotLibs}
use elemental_lifecycle_mana.Reconcilers.Rke2.Availability.Laws.{reconcile_availability-NotDone}
use elemental_lifecycle_mana.Controller.Wiring.{Libraries, pipeline}
use elemental_lifecycle_mana.Controller.Wiring.Kubernetes.{rke2_phase-Succeeds_iff}
use elemental_lifecycle_mana.Controller.Wiring.Phases.{
  success, reconcile_os-NotSkipped, reconcile_kubernetes-NotSkipped,
  reconcile_helm_charts-NotSkipped,
}

module _ {W : Type 0} (libs : Libraries W) (snapshots : SnapshotLibs) (client : Client W)
    (helm : HelmClient W) (find : Option (FindComponents W)) where
  abbrev pub handler : ComponentsHandler W
  handler = rke2_handler snapshots client helm find

  -- Every plan for the operating system is complete, in order.
  abbrev pub OsDone : Config → W → Type 0
  OsDone config w =
      (config.os ≡ none)
      ⊎ ((c : OsConfig) × (config.os ≡ some c)
          × (let prepared = prepare_os_plans client libs.new_tag libs.env config c w in
              (ps : List Plan) × (prepared.0 ≡ ok ps)
              × AllPlansComplete (reconcile_plan client) ps prepared.1))

  -- Every plan for Kubernetes is complete on nodes that are at the version, and the packaged
  -- components are available.
  abbrev pub KubernetesDone : Config → W → Type 0
  KubernetesDone config w =
      (config.kubernetes ≡ none)
      ⊎ ((k8s : KubernetesConfig) × (config.kubernetes ≡ some k8s)
          × IsUpgradedCluster (reconcile_plan client) handler client config k8s w)

  -- Every chart of the release is up to date, in the order of their dependencies.
  abbrev pub ChartsDone : Config → W → Type 0
  ChartsDone config w =
      let ref : ReleaseRef = record {
        release_name = config.release_name;
        release_version = config.release_version;
      } in
      (is_empty config.helm_charts ≡ true)
      ⊎ ((ordered : List HelmChartConfig) × (sort_chart_configs libs.helm_libs.chart_name
              config.helm_charts
            ≡ ok ordered)
          × AllUpToDate libs.helm_libs client helm ref ordered w)

  abbrev pub after_os : Config → W → W
  after_os config w =
      (reconcile_os client libs.new_tag libs.env (reconcile_plan client) (some config) w).1

  abbrev pub after_kubernetes : Config → W → W
  after_kubernetes config w =
      (reconcile_kubernetes client (reconcile_plan client) handler (some config) w).1

  -- The three parts of an upgrade, each in the world that the phase before it left.
  abbrev pub IsUpgraded : Config → W → Type 0
  IsUpgraded config w =
      let w₁ = after_os config w in
      OsDone config w × KubernetesDone config w₁ × ChartsDone config (after_kubernetes config w₁)

  os-done :
      (config : Config) (w : W)
      → Completes
          (reconcile_os client libs.new_tag libs.env (reconcile_plan client) (some config) w).0
      → OsDone config w
  os-done config w h = elim (Option-cases config.os) [
    | inl e ↦ inl e
    | inr (c, e) ↦
        let run =
          reconcile_os client libs.new_tag libs.env (reconcile_plan client) (some config) w in
        let states = reconcile_plan-ReportsPlanState client in
        inr (
          c,
          e,
          (reconcile_os-Succeeds_iff client libs.new_tag libs.env (reconcile_plan client) config c e
                states w).0
              (success run.0 h (
                reconcile_os-NotSkipped (reconcile_plan client) states client libs.new_tag libs.env
                  config c w e)),
        )
  ]

  kubernetes-done :
      (config : Config) (w : W)
      → Completes (reconcile_kubernetes client (reconcile_plan client) handler (some config) w).0
      → KubernetesDone config w
  unfolding rke2_handler
  kubernetes-done config w h = elim (Option-cases config.kubernetes) [
    | inl e ↦ inl e
    | inr (k8s, e) ↦ inr (
      k8s,
      e,
      (rke2_phase-Succeeds_iff snapshots client helm find config k8s w e).0 (
          success (reconcile_kubernetes client (reconcile_plan client) handler (some config) w).0 h
            (reconcile_kubernetes-NotSkipped (reconcile_plan client)
              (reconcile_plan-ReportsPlanState client) client handler
              (reconcile_availability-NotDone client helm snapshots.hash
                (components_or_default client find))
              config k8s w e)),
    )
  ]

  charts-done :
      (config : Config) (w : W)
      → Completes (reconcile_helm libs.helm_libs client helm false (some config) w).0
      → ChartsDone config w
  unfolding reconcile_helm
  charts-done config w h =
      let ref : ReleaseRef = record {
        release_name = config.release_name;
        release_version = config.release_version;
      } in
      let run = reconcile_helm_charts libs.helm_libs client helm false ref config.helm_charts w in
      elim (Bool-cases (is_empty config.helm_charts)) [
        | inl e ↦ inl e
        | inr e ↦ inr (
            (reconcile_helm_charts-Succeeds_iff libs.helm_libs client helm false ref
                config.helm_charts w).0
              (success run.0 (ground arith) (
                reconcile_helm_charts-NotSkipped libs.helm_libs client helm ref config.helm_charts
                  w)))
      ]

  pub AllComplete-IsUpgraded :
      (config : Config) (w : W)
      → AllComplete config (pipeline libs client helm handler) w
      → IsUpgraded config w
  unfolding pipeline
  AllComplete-IsUpgraded config w (in_os, (in_kubernetes, (in_charts, end))) =
      let w₁ = after_os config w in
      (
        os-done config w in_os,
        kubernetes-done config w₁ in_kubernetes,
        charts-done config (after_kubernetes config w₁) in_charts,
      )
