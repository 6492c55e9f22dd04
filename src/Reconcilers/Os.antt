-- ===== src/Reconcilers/Os.antt =====
-- internal/upgrade/reconcilers/os.go: the phase that upgrades the operating system.
pub mod Order
use Prim.Native.String.{◌++◌}
use elemental_lifecycle_mana.Prelude.{
  String, Bool, true, false, Option, none, some, List, [], ◌∷◌, not, if◌then◌else◌,
}
use elemental_lifecycle_mana.Api.{succeeded, is_plan_complete}
use elemental_lifecycle_mana.Phase.{PhaseStatus, os, skipped_status}
use elemental_lifecycle_mana.Phase.Names.{quote}
use elemental_lifecycle_mana.Errors.{Result, M, pure, from_result, ◌>>=◌, context}
use elemental_lifecycle_mana.Cluster.{Plan, Client}
use elemental_lifecycle_mana.Config.{Tag, Config, OsConfig}
use elemental_lifecycle_mana.Plan.{os_control_plane, os_worker}
use elemental_lifecycle_mana.Reconcilers.SucPlan.{PlanResult}
use elemental_lifecycle_mana.Reconcilers.Nodes.{is_control_plane_only_cluster}

abbrev pub all_upgraded : PhaseStatus
all_upgraded = record { state = succeeded; message = "All nodes upgraded successfully" }

-- `suc` is the plan reconciler. Each plan waits for the one before it.
module _ {W : Type 0} (suc : Plan → M W PlanResult) where
  unfoldable pub after_os_plan : M W PhaseStatus → PlanResult → M W PhaseStatus
  after_os_plan rest result =
      if not (is_plan_complete result.status.state) then pure result.status else rest

  -- The loop over the plans.
  unfoldable pub run_os_plans : List Plan → M W PhaseStatus
  unfolding after_os_plan quote
  run_os_plans [] = pure all_upgraded
  run_os_plans (p ∷ ps) =
      context ("reconciling OS upgrade plan " ++ quote p.name) (suc p)
      >>= after_os_plan (run_os_plans ps)

-- `new_tag` and `env` are as for the plans.
module _ {W : Type 0} (client : Client W) (new_tag : String → Result Tag) (env : String) where
  unfoldable pub prepare_os_plans : Config → OsConfig → M W (List Plan)
  prepare_os_plans config os_config = do
    control_plane ← context "generating OS control-plane plan" (
        from_result (
          os_control_plane new_tag env config.release_name os_config.image os_config.version
            config.release_version os_config.drain_opts.control_plane))
    nodes ← context "listing cluster nodes" client.list_nodes
    let with_worker : M W (List Plan) =
        context "generating OS worker plan" (
          from_result (
            os_worker new_tag env config.release_name os_config.image os_config.version
              config.release_version os_config.drain_opts.worker))
        >>= λ worker. pure (control_plane ∷ worker ∷ [])
    if not (is_control_plane_only_cluster nodes) then with_worker else pure (control_plane ∷ [])

  unfoldable pub reconcile_os_config :
      (Plan → M W PlanResult) → Config → Option OsConfig → M W PhaseStatus
  unfolding prepare_os_plans run_os_plans
  reconcile_os_config suc config none = pure (skipped_status os)
  reconcile_os_config suc config (some os_config) = do
    plans ← context "preparing OS upgrade plans" (prepare_os_plans config os_config)
    run_os_plans suc plans

  unfoldable pub reconcile_os : (Plan → M W PlanResult) → Option Config → M W PhaseStatus
  unfolding reconcile_os_config
  reconcile_os suc none = pure (skipped_status os)
  reconcile_os suc (some config) = reconcile_os_config suc config config.os
