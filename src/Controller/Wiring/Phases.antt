-- ===== src/Controller/Wiring/Phases.antt =====
-- What it means for each phase of the pipeline of cmd/main.go that it is done.
use elemental_lifecycle_mana.Prelude.{
  String, Bool, true, false, some, List, [], ◌∷◌, ◌≡◌, refl, arith, length,
}
use elemental_lifecycle_mana.Api.{State, skipped}
use elemental_lifecycle_mana.Phase.{PhaseStatus}
use elemental_lifecycle_mana.Errors.{Result, ok, err, M}
use elemental_lifecycle_mana.Errors.Laws.{in_context, in_context-holds, continue-holds}
use elemental_lifecycle_mana.Config.{Config, OsConfig, KubernetesConfig, HelmChartConfig, Tag}
use elemental_lifecycle_mana.Cluster.{Plan, Client}
use elemental_lifecycle_mana.Helm.{HelmClient}
use elemental_lifecycle_mana.Pipeline.Order.{Completes}
use elemental_lifecycle_mana.Reconcilers.SucPlan.{PlanResult}
use elemental_lifecycle_mana.Reconcilers.SucPlan.Laws.{ReportsPlanState}
use elemental_lifecycle_mana.Reconcilers.Os.{
  after_os_plan, run_os_plans, prepare_os_plans, reconcile_os,
}
use elemental_lifecycle_mana.Reconcilers.Os.Order.{Succeeds}
use elemental_lifecycle_mana.Reconcilers.Kubernetes.{
  ComponentsSnapshot, ComponentsHandler, after_kubernetes_plan, run_kubernetes_plans,
  finish_kubernetes, prepare_kubernetes_plans, reconcile_kubernetes,
}
use elemental_lifecycle_mana.Reconcilers.HelmCharts.{run_charts, reconcile_helm_charts}
use elemental_lifecycle_mana.Reconcilers.HelmCharts.Sort.{sort_chart_configs}
use elemental_lifecycle_mana.Reconcilers.HelmCharts.Chart.{HelmLibs, ReleaseRef, reconcile_chart}
use elemental_lifecycle_mana.Reconcilers.HelmCharts.Aggregate.Laws.{aggregate_results-state}
use elemental_lifecycle_mana.Reconcilers.Rke2.Availability.Laws.{NotDone}

abbrev is_skipped : State → Bool
is_skipped skipped = true
is_skipped _ = false

abbrev pub NotSkipped : Result PhaseStatus → Type 0
NotSkipped (ok s) = is_skipped s.state ≡ false
NotSkipped (err e) = Unit

pub success : (r : Result PhaseStatus) → Completes r → NotSkipped r → Succeeds r
success (ok s) done not_skipped = ground arith
success (err e) done not_skipped = done

module _ {W : Type 0} (suc : Plan → M W PlanResult)
    (plan_states : (p : Plan) (w : W) → ReportsPlanState (suc p w).0) where
  after_os_plan-NotSkipped :
      (rest : M W PhaseStatus) (p : Plan) (w v : W) (a : PlanResult)
      → suc p w ≡ (ok a, v)
      → NotSkipped (rest v).0
      → NotSkipped (after_os_plan suc rest a v).0
  unfolding after_os_plan
  after_os_plan-NotSkipped rest p w v a found later = ground (arith, plan_states p w)

  run_os_plans-NotSkipped : (ps : List Plan) (w : W) → NotSkipped (run_os_plans suc ps w).0
  unfolding run_os_plans
  run_os_plans-NotSkipped [] w = refl
  run_os_plans-NotSkipped (p ∷ ps) w =
      in_context-holds NotSkipped _ (suc p w) (after_os_plan suc (run_os_plans suc ps)) (λ e. tt)
        (λ a v run.
          after_os_plan-NotSkipped (run_os_plans suc ps) p w v a run (run_os_plans-NotSkipped ps v))

  module _ (version : String) where
    after_kubernetes_plan-NotSkipped :
        (rest : M W PhaseStatus) (p : Plan) (w v : W) (a : PlanResult)
        → suc p w ≡ (ok a, v)
        → NotSkipped (rest v).0
        → NotSkipped (after_kubernetes_plan suc version rest p a v).0
    unfolding after_kubernetes_plan
    after_kubernetes_plan-NotSkipped rest p w v a found later = ground (arith, plan_states p w)

    run_kubernetes_plans-NotSkipped :
        (finish : M W PhaseStatus)
        → ((w : W) → NotSkipped (finish w).0)
        → (ps : List Plan) (w : W) → NotSkipped (run_kubernetes_plans suc version finish ps w).0
    unfolding run_kubernetes_plans
    run_kubernetes_plans-NotSkipped finish at_end [] w = at_end w
    run_kubernetes_plans-NotSkipped finish at_end (p ∷ ps) w =
        let rest = run_kubernetes_plans suc version finish ps in
        in_context-holds NotSkipped _ (suc p w) (after_kubernetes_plan suc version rest p) (λ e. tt)
          (λ a v run.
            after_kubernetes_plan-NotSkipped rest p w v a run
              (run_kubernetes_plans-NotSkipped finish at_end ps v))

  pub reconcile_os-NotSkipped :
      (client : Client W) (new_tag : String → Result Tag) (env : String) (config : Config)
      (c : OsConfig) (w : W)
      → config.os ≡ some c
      → NotSkipped (reconcile_os client new_tag env suc (some config) w).0
  unfolding reconcile_os
  reconcile_os-NotSkipped client new_tag env config c w given = rw given (
      in_context-holds NotSkipped "preparing OS upgrade plans"
        (prepare_os_plans client new_tag env config c w) (run_os_plans suc) (λ e. tt)
        (λ ps v run. run_os_plans-NotSkipped ps v))

  module _ (client : Client W) (components : ComponentsHandler W)
      (not_done : (version : String) (s : ComponentsSnapshot) (w : W)
        → NotDone (components.reconcile_availability version s w).0) where
    finish_kubernetes-NotSkipped :
        (version : String) (s : ComponentsSnapshot) (w : W)
        → NotSkipped (finish_kubernetes client suc components version s w).0
    unfolding finish_kubernetes
    finish_kubernetes-NotSkipped version s w = ground (arith, not_done version s w)

    pub reconcile_kubernetes-NotSkipped :
        (config : Config) (k8s : KubernetesConfig) (w : W)
        → config.kubernetes ≡ some k8s
        → NotSkipped (reconcile_kubernetes client suc components (some config) w).0
    unfolding reconcile_kubernetes
    reconcile_kubernetes-NotSkipped config k8s w given =
        let finish = finish_kubernetes client suc components k8s.version in
        let plans = λ (f : ComponentsSnapshot → M W PhaseStatus) (s : ComponentsSnapshot) (v : W).
          in_context "preparing Kubernetes upgrade plans"
            (prepare_kubernetes_plans client config k8s v)
            (run_kubernetes_plans suc k8s.version (f s)) in
        simp given (
          in_context-holds NotSkipped "generating Kubernetes packaged components snapshot"
            (components.generate_snapshot config w) (plans finish) (λ e. tt)
            (λ s v taken.
              in_context-holds NotSkipped "preparing Kubernetes upgrade plans"
                (prepare_kubernetes_plans client config k8s v)
                (run_kubernetes_plans suc k8s.version (finish s)) (λ e. tt)
                (λ ps u prepared.
                  run_kubernetes_plans-NotSkipped k8s.version (finish s)
                    (finish_kubernetes-NotSkipped k8s.version s) ps u)))

module _ {W : Type 0} (libs : HelmLibs) (client : Client W) (helm : HelmClient W) where
  pub reconcile_helm_charts-NotSkipped :
      (ref : ReleaseRef) (configs : List HelmChartConfig) (w : W)
      → NotSkipped (reconcile_helm_charts libs client helm false ref configs w).0
  unfolding reconcile_helm_charts
  reconcile_helm_charts-NotSkipped ref configs w =
      continue-holds NotSkipped (sort_chart_configs libs.chart_name configs, w) _ (λ e. tt)
        (λ ordered v sorted.
          continue-holds NotSkipped
            (run_charts (λ c. libs.chart_name c.chart) (reconcile_chart libs client helm ref) false
              ordered [] v)
            _ (λ e. tt)
            (λ results u run. ground (arith, aggregate_results-state results (length ordered))))
