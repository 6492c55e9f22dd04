-- ===== src/Controller/Wiring.antt =====
-- How cmd/main.go and internal/controller/release_controller.go put the parts together: the phases
-- of the pipeline, and the methods that `reconcileNormal` calls.
pub mod Done
pub mod Phases
pub mod Upgraded
pub mod Target
pub mod Kubernetes
use elemental_lifecycle_mana.Prelude.{String, true, false, some, List, [], ◌∷◌}
use elemental_lifecycle_mana.Errors.{Result, M}
use elemental_lifecycle_mana.Phase.{os, kubernetes, helm_charts}
use elemental_lifecycle_mana.Config.{ResolvedManifest, Tag}
use elemental_lifecycle_mana.Cluster.{Client}
use elemental_lifecycle_mana.Cache.{ManifestCodec}
use elemental_lifecycle_mana.Helm.{HelmClient}
use elemental_lifecycle_mana.Pipeline.{PhaseHandler, reconcile_pipeline, pipeline_phases}
use elemental_lifecycle_mana.Reconcilers.SucPlan.{reconcile_plan}
use elemental_lifecycle_mana.Reconcilers.Os.{reconcile_os}
use elemental_lifecycle_mana.Reconcilers.Kubernetes.{ComponentsHandler, reconcile_kubernetes}
use elemental_lifecycle_mana.Reconcilers.HelmCharts.{reconcile_helm}
use elemental_lifecycle_mana.Reconcilers.HelmCharts.Chart.{HelmLibs}
use elemental_lifecycle_mana.Controller.Conditions.{ConditionOps}
use elemental_lifecycle_mana.Controller.Manifests.{
  WithRaw, lift, get_or_retrieve_upgrade_manifest, get_or_retrieve_manifest,
}
use elemental_lifecycle_mana.Controller.Configs.{
  LcmManifest, lcm_upgrade_config, parse_upgrade_config,
}
use elemental_lifecycle_mana.Controller.Events.{cleanup_old_version_plans}
use elemental_lifecycle_mana.Controller.Reconcile.{Calls, reconcile_lcm}

-- The code outside of the repository that the reconciler reaches.
pub record Libraries (W : Type 0) : Type 0 where
  pub ops : ConditionOps
  pub helm_libs : HelmLibs
  pub manifest_codec : ManifestCodec
  pub new_tag : String → Result Tag
  -- The image that the environment sets for OS upgrades.
  pub env : String
  pub decode_core : String → Result LcmManifest
  pub decode_core_image : String → Result String
  pub read_manifest : String → M W String
  pub retrieve_manifest : String → String → M W ResolvedManifest

module _ {W : Type 0} (libs : Libraries W) (client : Client W) (helm : HelmClient W)
    (components : ComponentsHandler W) where
  -- The argument of `upgrade.NewPipeline`.
  unfoldable pub pipeline : List (PhaseHandler W)
  unfolding reconcile_os reconcile_kubernetes reconcile_helm reconcile_plan
  pipeline =
      let suc = reconcile_plan client in
      record { phase = os; reconcile = reconcile_os client libs.new_tag libs.env suc }
      ∷ record { phase = kubernetes; reconcile = reconcile_kubernetes client suc components }
      ∷ record { phase = helm_charts; reconcile = reconcile_helm libs.helm_libs client helm false }
      ∷ []

  unfoldable pub release_reconciler : Calls (WithRaw W)
  unfolding pipeline get_or_retrieve_manifest get_or_retrieve_upgrade_manifest lcm_upgrade_config
      parse_upgrade_config reconcile_lcm cleanup_old_version_plans reconcile_pipeline
      pipeline_phases
  release_reconciler = record {
    ops = libs.ops;
    phases = pipeline_phases pipeline;
    lcm_config =
        lcm_upgrade_config
          (get_or_retrieve_upgrade_manifest libs.read_manifest libs.decode_core_image)
          libs.decode_core;
    upgrade_lcm =
        λ config. lift (reconcile_lcm (reconcile_helm libs.helm_libs client helm true) config);
    get_manifest = λ release.
        lift (get_or_retrieve_manifest client libs.manifest_codec libs.retrieve_manifest release);
    parse_config =
        λ manifest release. lift (parse_upgrade_config client libs.new_tag manifest release);
    cleanup = λ name version. lift (cleanup_old_version_plans client name version);
    run_pipeline = λ config. lift (reconcile_pipeline pipeline (some config));
  }
