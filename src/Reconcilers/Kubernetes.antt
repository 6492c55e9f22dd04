-- ===== src/Reconcilers/Kubernetes.antt =====
-- internal/upgrade/reconcilers/kubernetes.go: the phase that upgrades the Kubernetes distribution.
pub mod Verified
pub mod Plans
use Prim.Native.String.{◌++◌}
use elemental_lifecycle_mana.Prelude.{
  ℕ, String, Bool, true, false, Option, none, some, List, [], ◌∷◌, not, if◌then◌else◌,
}
use elemental_lifecycle_mana.Api.{in_progress, is_plan_complete, is_components_available}
use elemental_lifecycle_mana.Phase.{PhaseStatus, kubernetes, skipped_status}
use elemental_lifecycle_mana.Phase.Names.{quote}
use elemental_lifecycle_mana.Errors.{Result, M, pure, ◌>>=◌, context}
use elemental_lifecycle_mana.Cluster.{Plan, Client}
use elemental_lifecycle_mana.Config.{Config, KubernetesConfig}
use elemental_lifecycle_mana.Plan.{kubernetes_control_plane, kubernetes_worker}
use elemental_lifecycle_mana.Reconcilers.SucPlan.{PlanResult}
use elemental_lifecycle_mana.Reconcilers.Nodes.{
  is_control_plane_only_cluster, all_nodes_at_kubernetes_version,
}
use elemental_lifecycle_mana.Reconcilers.Os.{all_upgraded}

pub record ChartSnapshot : Type 0 where
  pub name : String
  pub namespace : String
  pub chart_url : String
  pub chart_content_sha : String
  pub chart_version : String
  pub release_revisions : ℕ

pub record ComponentsSnapshot : Type 0 where
  pub creation_time : ℕ
  pub source_kubernetes_version : String
  pub charts : List ChartSnapshot

-- The interface `KubernetesPackagedComponentsHandler`.
pub record ComponentsHandler (W : Type 0) : Type 0 where
  pub generate_snapshot : Config → M W ComponentsSnapshot
  pub reconcile_availability : String → ComponentsSnapshot → M W PhaseStatus

module _ {W : Type 0} (suc : Plan → M W PlanResult) (version : String) where
  unfoldable pub after_kubernetes_plan : M W PhaseStatus → Plan → PlanResult → M W PhaseStatus
  after_kubernetes_plan rest p result =
      let waiting = pure (record {
        state = in_progress;
        message = "Plan " ++ (p.name ++ " completed, waiting for node upgrade verification");
      }) in
      if not (is_plan_complete result.status.state)
      then pure result.status
      else if not (all_nodes_at_kubernetes_version result.nodes version)
      then waiting
      else rest

  -- The rounds for the plans, and `finish` after the last.
  unfoldable pub run_kubernetes_plans : M W PhaseStatus → List Plan → M W PhaseStatus
  unfolding after_kubernetes_plan quote
  run_kubernetes_plans finish [] = finish
  run_kubernetes_plans finish (p ∷ ps) =
      context ("reconciling Kubernetes upgrade plan " ++ quote p.name) (suc p)
      >>= after_kubernetes_plan (run_kubernetes_plans finish ps) p

module _ {W : Type 0} (client : Client W) where
  unfoldable pub prepare_kubernetes_plans : Config → KubernetesConfig → M W (List Plan)
  prepare_kubernetes_plans config k8s =
      let control_plane =
        kubernetes_control_plane config.release_name config.release_version k8s.version
          k8s.drain_opts.control_plane in
      let worker =
        kubernetes_worker config.release_name config.release_version k8s.version
          k8s.drain_opts.worker in
      context "listing cluster nodes" client.list_nodes >>= λ nodes.
      if not (is_control_plane_only_cluster nodes)
      then pure (control_plane ∷ worker ∷ [])
      else pure (control_plane ∷ [])

module _ {W : Type 0} (client : Client W) (suc : Plan → M W PlanResult)
    (components : ComponentsHandler W) where
  unfoldable pub finish_kubernetes : String → ComponentsSnapshot → M W PhaseStatus
  finish_kubernetes version snapshot =
      context "ensuring Kubernetes packaged components availability"
        (components.reconcile_availability version snapshot)
      >>= λ status.
          if not (is_components_available status.state) then pure status else pure all_upgraded

  unfoldable pub reconcile_kubernetes_config : Config → Option KubernetesConfig → M W PhaseStatus
  unfolding prepare_kubernetes_plans run_kubernetes_plans finish_kubernetes
  reconcile_kubernetes_config config none = pure (skipped_status kubernetes)
  reconcile_kubernetes_config config (some k8s) = do
    snapshot ←
        context "generating Kubernetes packaged components snapshot"
          (components.generate_snapshot config)
    plans ←
        context "preparing Kubernetes upgrade plans" (prepare_kubernetes_plans client config k8s)
    run_kubernetes_plans suc k8s.version (finish_kubernetes k8s.version snapshot) plans

  unfoldable pub reconcile_kubernetes : Option Config → M W PhaseStatus
  unfolding reconcile_kubernetes_config
  reconcile_kubernetes none = pure (skipped_status kubernetes)
  reconcile_kubernetes (some config) = reconcile_kubernetes_config config config.kubernetes
