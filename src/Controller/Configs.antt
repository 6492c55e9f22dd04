-- ===== src/Controller/Configs.antt =====
-- The functions of internal/controller/release_controller.go that make upgrade configurations: the
-- one of the self-upgrade of the lifecycle manager (LCM), and the one of the pipeline.
pub mod LcmCharts
pub mod Target
use elemental_lifecycle_mana.Prelude.{
  String, Bool, Option, none, some, List, [], ◌∷◌, ◌==◌, ◌&&◌, ◌||◌, not, any, keep, is_empty,
  insert, map, if◌then◌else◌,
}
use elemental_lifecycle_mana.Api.{Release, ChartConfig, ComponentConfig}
use elemental_lifecycle_mana.Errors.{Result, M, pure, from_result, ◌>>=◌, context}
use elemental_lifecycle_mana.Config.{
  ManifestChart, ManifestRepository, ManifestHelm, ResolvedManifest, HelmChartConfig, Config,
  RuntimeCharts, Tag, build_helm_chart_config, new_config,
}
use elemental_lifecycle_mana.Helm.Values.{Fields}
use elemental_lifecycle_mana.Cluster.{Client}
use elemental_lifecycle_mana.Controller.Drain.{parse_drain_opts}
use elemental_lifecycle_mana.Controller.Manifests.{WithRaw}

abbrev pub elemental_lifecycle_manager : String
elemental_lifecycle_manager = "elemental-lifecycle-manager"

abbrev pub elemental_lifecycle_manager_crds : String
elemental_lifecycle_manager_crds = "elemental-lifecycle-manager-crds"

-- The test of `lcmUpgradeConfig`.
abbrev pub is_lcm_chart : String → Bool
is_lcm_chart chart =
    chart == elemental_lifecycle_manager || chart == elemental_lifecycle_manager_crds

-- The test of `parseUpgradeConfig`, which is written on its own.
abbrev pub is_deleted_chart : String → Bool
is_deleted_chart chart =
    any (λ k. k == chart) (elemental_lifecycle_manager ∷ elemental_lifecycle_manager_crds ∷ [])

-- The loop over the component configuration; no chart names means all charts.
unfoldable pub add_runtime_configs : List String → RuntimeCharts → List ChartConfig → RuntimeCharts
add_runtime_configs charts configs [] = configs
add_runtime_configs charts configs (c ∷ cs) =
    let added = insert c.chart (record { values = c.values; secret_ref = c.secret_ref }) configs in
    add_runtime_configs charts
      (if not (is_empty charts) && not (any (λ k. k == c.chart) charts) then configs else added) cs

abbrev pub runtime_charts_of : Option ComponentConfig → List String → RuntimeCharts
runtime_charts_of none charts = []
runtime_charts_of (some components) charts = add_runtime_configs charts [] components.helm

unfoldable pub runtime_helm_chart_configs : Release → List String → RuntimeCharts
unfolding add_runtime_configs
runtime_helm_chart_configs release charts = runtime_charts_of release.spec.component_config charts

-- What the self-upgrade reads of a core manifest, on its own, without the manifest library.
pub record LcmChart : Type 0 where
  pub chart : String
  pub repository : String
  pub version : String
  pub values : Fields

pub record LcmManifest : Type 0 where
  pub charts : List LcmChart
  pub repositories : List ManifestRepository

abbrev pub to_manifest_chart : LcmChart → ManifestChart
to_manifest_chart c = record {
  name = "";
  chart = c.chart;
  version = c.version;
  namespace = "";
  repository = c.repository;
  values = c.values;
  depends_on = [];
}

-- The two loops that copy the charts of LCM and all repositories.
unfoldable pub lcm_charts : List LcmChart → List ManifestChart
lcm_charts charts = map to_manifest_chart (keep (λ c. is_lcm_chart c.chart) charts)

abbrev pub lcm_config_of : Release → List HelmChartConfig → Config
lcm_config_of release charts = record {
  release_name = release.name;
  release_namespace = release.namespace;
  release_version = release.spec.version;
  os = none;
  kubernetes = none;
  helm_charts = charts;
}

module _ {W : Type 0} (get_raw : Release → M W String)
    (decode_core : String → Result LcmManifest) where
  -- `get_raw` is `getOrRetrieveUpgradeManifest`, `decode_core` is yaml.Unmarshal.
  unfoldable pub lcm_upgrade_config : Release → M W Config
  unfolding lcm_charts runtime_helm_chart_configs build_helm_chart_config
  lcm_upgrade_config release = do
    text ← get_raw release
    core ← from_result (decode_core text)
    charts ← from_result (
        build_helm_chart_config
          (some (record { charts = lcm_charts core.charts; repositories = core.repositories })) none
          (runtime_helm_chart_configs release (elemental_lifecycle_manager ∷ [])))
    pure (lcm_config_of release charts)

-- `slices.DeleteFunc` of the charts of LCM.
unfoldable pub without_lcm_charts : Config → Config
without_lcm_charts config = record config {
  helm_charts = keep (λ c. not (is_deleted_chart c.chart.chart)) config.helm_charts;
}

module _ {W : Type 0} (client : Client W) (new_tag : String → Result Tag) where
  unfoldable pub parse_upgrade_config : ResolvedManifest → Release → M W Config
  unfolding parse_drain_opts runtime_helm_chart_configs new_config without_lcm_charts
  parse_upgrade_config manifest release = do
    opts ← context "parsing drain options" (parse_drain_opts client release)
    config ← from_result (
        new_config new_tag (some manifest) release.spec.version release.name release.namespace
          (record { drain_opts = opts; helm_charts = runtime_helm_chart_configs release [] }))
    pure (without_lcm_charts config)
