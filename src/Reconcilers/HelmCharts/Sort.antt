-- ===== src/Reconcilers/HelmCharts/Sort.antt =====
-- sortChartConfigsByDependencies of internal/upgrade/reconcilers/helm.go: a depth-first walk
-- over the dependencies of the charts.
pub mod Fuel
pub mod Ordered
pub mod Loop
pub mod Total
use Prim.Native.String.{◌++◌ as append}
use elemental_lifecycle_mana.Prelude.{
  ℕ, zero, suc, String, Bool, true, false, Option, none, some, List, [], ◌∷◌, ◌++◌, ◌==◌, ◌||◌,
  lookup, insert, length, if◌then◌else◌,
}
use elemental_lifecycle_mana.Errors.{Error, message, Result, ok, err}
use elemental_lifecycle_mana.Config.{
  DependencyType, helm_dependency, other_dependency, Dependency, ManifestChart, HelmChartConfig,
  delete_key,
}

-- `m[k]` of a `map[string]bool`, kept as the list of the keys that are true.
unfoldable pub member : String → List String → Bool
member k [] = false
member k (j ∷ js) = if j == k then true else member k js

pub record Walk : Type 0 where
  pub visited : List String
  pub in_progress : List String
  pub result : List HelmChartConfig

-- How a visit ends. The walk in Go has no fuel, so `out_of_fuel` is no end of it there.
pub data Outcome : Type 0 where
  done : Walk → Outcome
  circular : String → Outcome
  out_of_fuel : Outcome

abbrev pub next : Outcome → (Walk → Outcome) → Outcome
next (done w) f = f w
next (circular s) f = circular s
next out_of_fuel f = out_of_fuel

-- `chart_name` is the method GetName of the manifest library's charts.
module _ (chart_name : ManifestChart → String) where
  -- `chartConfigMap`.
  unfoldable pub index_charts :
      List (String × HelmChartConfig) → List HelmChartConfig → List (String × HelmChartConfig)
  index_charts m [] = m
  index_charts m (c ∷ cs) = index_charts (insert (chart_name c.chart) c m) cs

-- The loop over the dependencies of a chart, of which only those on Helm charts count.
unfoldable pub visit_dependencies : (String → Walk → Outcome) → List Dependency → Walk → Outcome
visit_dependencies visit [] w = done w
visit_dependencies visit (d ∷ ds) w = elim d.type [
  | helm_dependency ↦ next (visit d.name w) (visit_dependencies visit ds)
  | other_dependency ↦ visit_dependencies visit ds w
]

unfoldable pub leave : String → HelmChartConfig → Walk → Outcome
leave name config w = done (record {
  visited = name ∷ w.visited;
  in_progress = delete_key name w.in_progress;
  result = w.result ++ config ∷ [];
})

unfoldable pub enter : (String → Walk → Outcome) → String → Option HelmChartConfig → Walk → Outcome
unfolding visit_dependencies leave
enter visit name none w = done w
enter visit name (some config) w =
    next
      (visit_dependencies visit config.chart.depends_on
        (record w { in_progress = name ∷ w.in_progress }))
      (leave name config)

-- The closure `visit`.
unfoldable pub visit : ℕ → List (String × HelmChartConfig) → String → Walk → Outcome
unfolding enter member
visit zero charts name w = out_of_fuel
visit (suc fuel) charts name w =
    if member name w.in_progress
    then circular name
    else if member name w.visited
    then done w
    else enter (visit fuel charts) name (lookup name charts) w

module _ (chart_name : ManifestChart → String) where
  unfoldable pub visit_charts :
      ℕ → List (String × HelmChartConfig) → List HelmChartConfig → Walk → Outcome
  visit_charts fuel charts [] w = done w
  visit_charts fuel charts (c ∷ cs) w =
      next (visit fuel charts (chart_name c.chart) w) (visit_charts fuel charts cs)

  abbrev pub start : Walk
  start = record { visited = []; in_progress = []; result = [] }

  -- One unit of fuel for each chart and one more.
  unfoldable pub walk_charts : List HelmChartConfig → Outcome
  unfolding visit_charts index_charts
  walk_charts configs =
      let charts = index_charts chart_name [] configs in
      visit_charts (suc (length charts)) charts configs start

  abbrev pub outcome_result : Outcome → Result (List HelmChartConfig)
  outcome_result (done w) = ok w.result
  outcome_result (circular name) =
      err (message (append "circular dependency detected involving chart " name))
  outcome_result out_of_fuel = err (message "out of fuel")

  unfoldable pub sort_chart_configs : List HelmChartConfig → Result (List HelmChartConfig)
  unfolding walk_charts
  sort_chart_configs configs = outcome_result (walk_charts configs)
