-- ===== src/Config.antt =====
-- internal/upgrade/config.go: what an upgrade has to reach, from the manifest of a release and the
-- configuration that the user gave. The types of the manifest library are records with the fields
-- that the program reads; pointers that the program follows unchecked are taken as set.
pub mod Charts
use Prim.Native.String.{◌++◌ as append, compare}
use Prim.Native.Nat.{Ordering}
use elemental_lifecycle_mana.Prelude.{
  String, Bool, Option, none, some, List, [], ◌∷◌, ◌++◌, ◌==◌, is_empty, lookup, insert, keys, keep,
  not, if◌then◌else◌,
}
use elemental_lifecycle_mana.Api.{RawJson, SecretValueSource}
use elemental_lifecycle_mana.Errors.{
  Error, message, runtime_config, wrap, Result, ok, err, then_with, with_context,
}
use elemental_lifecycle_mana.Phase.Names.{quote}
use elemental_lifecycle_mana.Helm.Values.{Fields}

pub data DependencyType : Type 0 where
  helm_dependency other_dependency : DependencyType

pub record Dependency : Type 0 where
  pub name : String
  pub type : DependencyType

-- api.HelmChart of the manifest library.
pub record ManifestChart : Type 0 where
  pub name : String
  pub chart : String
  pub version : String
  pub namespace : String
  pub repository : String
  pub values : Fields
  pub depends_on : List Dependency

-- api.HelmRepository.
pub record ManifestRepository : Type 0 where
  pub name : String
  pub url : String

-- api.Helm.
pub record ManifestHelm : Type 0 where
  pub charts : List ManifestChart
  pub repositories : List ManifestRepository

pub record CorePlatform : Type 0 where
  pub os_image_base : String
  pub kubernetes_image : String
  pub kubernetes_version : String
  pub helm : Option ManifestHelm

-- resolver.ResolvedManifest; `solution` is the Helm part of the solution extension.
pub record ResolvedManifest : Type 0 where
  pub core_platform : Option CorePlatform
  pub solution : Option (Option ManifestHelm)

pub record DrainOpts : Type 0 where
  pub control_plane : Bool
  pub worker : Bool

pub record OsConfig : Type 0 where
  pub image : String
  pub version : String
  pub drain_opts : DrainOpts

pub record KubernetesConfig : Type 0 where
  pub image : String
  pub version : String
  pub drain_opts : DrainOpts

pub record RuntimeHelmChartConfig : Type 0 where
  pub values : Option RawJson
  pub secret_ref : Option SecretValueSource

pub record HelmChartConfig : Type 0 where
  pub chart : ManifestChart
  pub repository : Option ManifestRepository
  pub runtime_config : RuntimeHelmChartConfig

pub record Config : Type 0 where
  pub release_name : String
  pub release_namespace : String
  pub release_version : String
  pub os : Option OsConfig
  pub kubernetes : Option KubernetesConfig
  pub helm_charts : List HelmChartConfig

-- `map[string]RuntimeHelmChartConfig`.
abbrev pub RuntimeCharts : Type 0
RuntimeCharts = List (String × RuntimeHelmChartConfig)

pub record RuntimeConfig : Type 0 where
  pub drain_opts : DrainOpts
  pub helm_charts : RuntimeCharts

abbrev pub no_runtime_config : RuntimeHelmChartConfig
no_runtime_config = record { values = none; secret_ref = none }

-- `for _, repo := range repositories { repos[repo.Name] = repo }`.
unfoldable pub index_repositories :
    List (String × ManifestRepository)
    → List ManifestRepository
    → List (String × ManifestRepository)
index_repositories repos [] = repos
index_repositories repos (r ∷ rs) = index_repositories (insert r.name r repos) rs

abbrev pub config_or_none : Option RuntimeHelmChartConfig → RuntimeHelmChartConfig
config_or_none none = no_runtime_config
config_or_none (some rc) = rc

-- The configuration of one chart.
unfoldable pub chart_config :
    List (String × ManifestRepository) → RuntimeCharts → ManifestChart → HelmChartConfig
chart_config repos runtime chart = record {
  chart = chart;
  repository = lookup chart.repository repos;
  runtime_config = config_or_none (lookup chart.chart runtime);
}

-- `delete(unprocessedRuntimeCharts, k)`.
unfoldable pub delete_key : String → List String → List String
delete_key k [] = []
delete_key k (j ∷ js) = let rest = delete_key k js in if j == k then rest else j ∷ rest

abbrev pub mark_processed : Option RuntimeHelmChartConfig → String → List String → List String
mark_processed none k unprocessed = unprocessed
mark_processed (some rc) k unprocessed = delete_key k unprocessed

-- The loop over the charts of one manifest: the configurations so far, and the runtime charts that
-- no chart of a manifest has matched.
unfoldable pub add_charts :
    List (String × ManifestRepository)
    → RuntimeCharts
    → List HelmChartConfig
    → List String
    → List ManifestChart
    → List HelmChartConfig × List String
unfolding chart_config delete_key
add_charts repos runtime configs unprocessed [] = (configs, unprocessed)
add_charts repos runtime configs unprocessed (c ∷ cs) =
    add_charts repos runtime (configs ++ chart_config repos runtime c ∷ [])
      (mark_processed (lookup c.chart runtime) c.chart unprocessed) cs

-- The block `if core != nil` or `if solution != nil`.
unfoldable pub add_manifest :
    RuntimeCharts
    → List HelmChartConfig
    → List String
    → Option ManifestHelm
    → List HelmChartConfig × List String
unfolding add_charts index_repositories
add_manifest runtime configs unprocessed none = (configs, unprocessed)
add_manifest runtime configs unprocessed (some helm) =
    add_charts (index_repositories [] helm.repositories) runtime configs unprocessed helm.charts

-- `slices.Sorted`, by insertion. Go compares texts by bytes, which for UTF-8 is by code points.
abbrev pub precedes : String → String → Bool
precedes s t = elim (compare s t) [ Ordering.gt ↦ Bool.false | _ ↦ Bool.true ]

unfoldable pub insert_sorted : String → List String → List String
insert_sorted s [] = s ∷ []
insert_sorted s (t ∷ ts) =
    let rest = insert_sorted s ts in if precedes s t then s ∷ t ∷ ts else t ∷ rest

unfoldable pub sorted : List String → List String
unfolding insert_sorted
sorted [] = []
sorted (s ∷ ss) = insert_sorted s (sorted ss)

-- `strings.Join(ss, ", ")`.
unfoldable pub join_comma : List String → String
join_comma [] = ""
join_comma (s ∷ []) = s
join_comma (s ∷ t ∷ ts) = append s (append ", " (join_comma (t ∷ ts)))

-- The two checks at the end of `BuildHelmChartConfig`. The nil slice and the empty one are one here.
unfoldable pub check_unknown : List HelmChartConfig × List String → Result (List HelmChartConfig)
unfolding sorted join_comma
check_unknown (configs, []) = ok configs
check_unknown (configs, k ∷ ks) =
    err (runtime_config (append "Unknown chart references: " (join_comma (sorted (k ∷ ks)))))

unfoldable pub build_helm_chart_config :
    Option ManifestHelm → Option ManifestHelm → RuntimeCharts → Result (List HelmChartConfig)
unfolding add_manifest check_unknown
build_helm_chart_config core solution runtime =
    let (configs, unprocessed) = add_manifest runtime [] (keys runtime) core in
    check_unknown (add_manifest runtime configs unprocessed solution)

-- A name.Tag of go-containerregistry: the tag, and the name of the repository.
pub record Tag : Type 0 where
  pub tag_str : String
  pub context_name : String

abbrev pub solution_charts : Option (Option ManifestHelm) → Option ManifestHelm
solution_charts none = none
solution_charts (some helm) = helm

-- `name.NewTag` with weak validation is a parameter.
module _ (new_tag : String → Result Tag) where
  unfoldable pub new_config :
      Option ResolvedManifest → String → String → String → RuntimeConfig → Result Config
  unfolding quote build_helm_chart_config
  new_config none version name namespace runtime = err (message "manifest is nil")
  new_config (some manifest) version name namespace runtime = elim manifest.core_platform [
    | none ↦ err (message "core platform manifest is required")
    | some core ↦
        then_with
          (with_context (append "parsing OS image " (quote core.os_image_base))
            (new_tag core.os_image_base))
          λ tag.
            then_with
              (with_context "parsing helm chart configuration" (
                build_helm_chart_config core.helm (solution_charts manifest.solution)
                  runtime.helm_charts))
              λ charts. ok (record {
                release_name = name;
                release_namespace = namespace;
                release_version = version;
                os = some (record {
                  image = core.os_image_base;
                  version = tag.tag_str;
                  drain_opts = runtime.drain_opts;
                });
                kubernetes = some (record {
                  image = core.kubernetes_image;
                  version = core.kubernetes_version;
                  drain_opts = runtime.drain_opts;
                });
                helm_charts = charts;
              })
  ]
