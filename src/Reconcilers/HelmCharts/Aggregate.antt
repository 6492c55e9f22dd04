-- ===== src/Reconcilers/HelmCharts/Aggregate.antt =====
-- aggregateResults of internal/upgrade/reconcilers/helm.go.
pub mod Laws
use Prim.Native.String.{◌++◌}
use elemental_lifecycle_mana.Prelude.{
  ℕ, ◌+◌, ◌-◌, String, Bool, true, false, List, [], ◌∷◌, ◌==◌, ◌&&◌, ltb, nat_eq, is_empty,
  if◌then◌else◌,
}
use elemental_lifecycle_mana.Api.{State}
use elemental_lifecycle_mana.Phase.{PhaseStatus}
use elemental_lifecycle_mana.Phase.Names.{decimal}
use elemental_lifecycle_mana.Helm.{
  ChartState, unknown, not_installed, version_already_installed, in_progress, failed, succeeded,
}

-- chartUpgradeResult.
pub record ChartResult : Type 0 where
  pub chart_name : String
  pub state : ChartState

-- The variables of the loop.
pub record Tally : Type 0 where
  pub failed_count : ℕ
  pub in_progress_count : ℕ
  pub succeeded_count : ℕ
  pub skipped_count : ℕ
  pub failed_chart : String

unfoldable pub count_state : Tally → String → ChartState → Tally
count_state t name failed = record t {
  failed_count = t.failed_count + 1;
  failed_chart = if t.failed_chart == "" then name else t.failed_chart;
}
count_state t name in_progress = record t { in_progress_count = t.in_progress_count + 1 }
count_state t name succeeded = record t { succeeded_count = t.succeeded_count + 1 }
count_state t name version_already_installed = record t { succeeded_count = t.succeeded_count + 1 }
count_state t name not_installed = record t { skipped_count = t.skipped_count + 1 }
count_state t name unknown = t

unfoldable pub tally_results : Tally → List ChartResult → Tally
unfolding count_state
tally_results t [] = t
tally_results t (r ∷ rs) = tally_results (count_state t r.chart_name r.state) rs

abbrev pub empty_tally : Tally
empty_tally = record {
  failed_count = 0;
  in_progress_count = 0;
  succeeded_count = 0;
  skipped_count = 0;
  failed_chart = "";
}

-- `totalCharts - skipped` is a difference of Go's int. No result is skipped that is not a chart, so
-- the truncated difference is the same.
unfoldable pub tally_status : Tally → ℕ → PhaseStatus
unfolding decimal
tally_status t total =
    if ltb 0 t.failed_count
    then record {
      state = State.failed;
      message = "Chart " ++ (t.failed_chart ++ " upgrade failed");
    }
    else if ltb 0 t.in_progress_count
    then record {
      state = State.in_progress;
      message =
          "Helm charts in progress ("
          ++ (decimal t.succeeded_count
              ++ ("/"
                  ++ (decimal (total - t.skipped_count)
                      ++ (" completed, " ++ (decimal t.skipped_count ++ " skipped)")))));
    }
    else if nat_eq t.succeeded_count 0 && nat_eq t.skipped_count total
    then record {
      state = State.succeeded;
      message = "All Helm charts skipped (not installed on cluster)";
    }
    else record {
      state = State.succeeded;
      message =
          "All "
          ++ (decimal t.succeeded_count
              ++ (" Helm charts upgraded successfully ("
                  ++ (decimal t.skipped_count ++ " skipped)")));
    }

unfoldable pub aggregate_results : List ChartResult → ℕ → PhaseStatus
unfolding tally_results tally_status
aggregate_results results total =
    if is_empty results
    then record { state = State.succeeded; message = "No Helm charts to reconcile" }
    else tally_status (tally_results empty_tally results) total
