-- ===== src/Reconcilers/HelmCharts.antt =====
-- internal/upgrade/reconcilers/helm.go: the phase that upgrades Helm charts, and the self-upgrade.
pub mod Sort
pub mod Chart
pub mod Aggregate
pub mod Gates
pub mod Success
use Prim.Native.String.{◌++◌ as append}
use elemental_lifecycle_mana.Prelude.{
  ℕ, String, Bool, true, false, Option, none, some, List, [], ◌∷◌, ◌++◌, ◌&&◌, length, is_empty,
  if◌then◌else◌,
}
use elemental_lifecycle_mana.Phase.{PhaseStatus, helm_charts, skipped_status}
use elemental_lifecycle_mana.Phase.Names.{quote}
use elemental_lifecycle_mana.Errors.{message, Result, M, pure, throw, from_result, ◌>>=◌}
use elemental_lifecycle_mana.Config.{Config, HelmChartConfig}
use elemental_lifecycle_mana.Cluster.{Client}
use elemental_lifecycle_mana.Helm.{ChartState, in_progress, failed, HelmClient}
use Sort.{sort_chart_configs}
use Chart.{HelmLibs, ReleaseRef, reconcile_chart}
use Aggregate.{ChartResult, aggregate_results}

abbrev pub is_chart_in_progress : ChartState → Bool
is_chart_in_progress in_progress = true
is_chart_in_progress _ = false

abbrev pub is_chart_failed : ChartState → Bool
is_chart_failed failed = true
is_chart_failed _ = false

-- `one` reconciles a chart; `strict` makes the failure of a chart the failure of the phase.
module _ {W : Type 0} (chart_name : HelmChartConfig → String)
    (one : HelmChartConfig → M W ChartState) (strict : Bool) where
  -- What follows the reconciliation of a chart: its result is added, and the loop is left if it is
  -- in progress, or with an error if it failed and the reconciler is strict.
  unfoldable pub after_chart :
      String
      → List ChartResult
      → (List ChartResult → M W (List ChartResult))
      → ChartState
      → M W (List ChartResult)
  after_chart name results rest state =
      let results' = results ++ record { chart_name = name; state = state } ∷ [] in
      if is_chart_in_progress state
      then pure results'
      else if is_chart_failed state && strict
      then throw (message (append "upgrading chart " (quote name)))
      else rest results'

  -- The loop over the sorted charts.
  unfoldable pub run_charts : List HelmChartConfig → List ChartResult → M W (List ChartResult)
  unfolding after_chart quote
  run_charts [] results = pure results
  run_charts (c ∷ cs) results = one c >>= after_chart (chart_name c) results (run_charts cs)

module _ {W : Type 0} (libs : HelmLibs) (client : Client W) (helm : HelmClient W)
    (strict : Bool) where
  -- The status that comes with an error is dropped, as its callers do.
  unfoldable pub reconcile_helm_charts : ReleaseRef → List HelmChartConfig → M W PhaseStatus
  unfolding run_charts
  reconcile_helm_charts ref configs = do
    ordered ← from_result (sort_chart_configs libs.chart_name configs)
    results ←
        run_charts (λ c. libs.chart_name c.chart) (reconcile_chart libs client helm ref) strict
          ordered []
    pure (aggregate_results results (length ordered))

  unfoldable pub reconcile_helm : Option Config → M W PhaseStatus
  unfolding reconcile_helm_charts
  reconcile_helm none = pure (skipped_status helm_charts)
  reconcile_helm (some config) =
      let run =
        reconcile_helm_charts
          (record { release_name = config.release_name; release_version = config.release_version })
          config.helm_charts in
      if is_empty config.helm_charts then pure (skipped_status helm_charts) else run
