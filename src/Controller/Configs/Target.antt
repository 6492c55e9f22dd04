-- ===== src/Controller/Configs/Target.antt =====
-- The version of the configuration that `parseUpgradeConfig` of
-- internal/controller/release_controller.go makes.
use elemental_lifecycle_mana.Prelude.{String, Option, none, some, [], ◌≡◌, arith}
use elemental_lifecycle_mana.Api.{Release}
use elemental_lifecycle_mana.Errors.{Result, ok, err, pure, continue}
use elemental_lifecycle_mana.Errors.Laws.{in_context-holds}
use elemental_lifecycle_mana.Config.{Tag, Config, RuntimeConfig, ResolvedManifest, new_config}
use elemental_lifecycle_mana.Cluster.{Client}
use elemental_lifecycle_mana.Controller.Drain.{parse_drain_opts}
use elemental_lifecycle_mana.Controller.Configs.{
  runtime_helm_chart_configs, without_lcm_charts, parse_upgrade_config,
}

abbrev pub HasVersion : String → Result Config → Type 0
HasVersion v (ok config) = config.release_version ≡ v
HasVersion v (err e) = Unit

new_config-HasVersion :
    (new_tag : String → Result Tag) (m : Option ResolvedManifest) (v name namespace : String)
    (runtime : RuntimeConfig)
    → HasVersion v (new_config new_tag m v name namespace runtime)
unfolding new_config
new_config-HasVersion new_tag none v name namespace runtime = tt
new_config-HasVersion new_tag (some m) v name namespace runtime = ground arith

module _ {W : Type 0} (client : Client W) (new_tag : String → Result Tag) where
  -- The parsed configuration has the version that the release asks for.
  pub parse_upgrade_config-HasVersion :
      (manifest : ResolvedManifest) (release : Release) (w : W)
      → HasVersion release.spec.version (parse_upgrade_config client new_tag manifest release w).0
  unfolding parse_upgrade_config without_lcm_charts
  parse_upgrade_config-HasVersion manifest release w =
      in_context-holds (HasVersion release.spec.version) "parsing drain options"
        (parse_drain_opts client release w) _ (λ e. tt)
        (λ opts v run. kept _ v (
          new_config-HasVersion new_tag (some manifest) release.spec.version release.name
            release.namespace
            (record { drain_opts = opts; helm_charts = runtime_helm_chart_configs release [] })))
    where
      kept :
          (q : Result Config) (v : W)
          → HasVersion release.spec.version q
          → HasVersion release.spec.version
              (continue (q, v) (λ config. pure (without_lcm_charts config))).0
      kept (ok config) v h = h
      kept (err e) v h = tt
