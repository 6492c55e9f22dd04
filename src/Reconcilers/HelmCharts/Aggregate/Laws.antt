-- ===== src/Reconcilers/HelmCharts/Aggregate/Laws.antt =====
-- What `aggregateResults` of internal/upgrade/reconcilers/helm.go concludes from the charts.
use elemental_lifecycle_mana.Prelude.{
  ℕ, String, Bool, true, List, [], ◌∷◌, ◌≡◌, refl, any, ltb, if◌then◌else◌, arith,
}
use elemental_lifecycle_mana.Api.{State}
use elemental_lifecycle_mana.Helm.{
  ChartState, unknown, not_installed, version_already_installed, in_progress, failed, succeeded,
}
use elemental_lifecycle_mana.Reconcilers.HelmCharts.{is_chart_in_progress, is_chart_failed}
use elemental_lifecycle_mana.Reconcilers.HelmCharts.Aggregate.{
  ChartResult, Tally, count_state, tally_results, empty_tally, tally_status, aggregate_results,
}

count_state-failed :
    (t : Tally) (name : String) (s : ChartState)
    → ltb 0 (count_state t name s).failed_count
      ≡ (if is_chart_failed s then true else ltb 0 t.failed_count)
unfolding count_state
count_state-failed t name failed = ground arith
count_state-failed t name unknown = refl
count_state-failed t name not_installed = refl
count_state-failed t name version_already_installed = refl
count_state-failed t name in_progress = refl
count_state-failed t name succeeded = refl

count_state-running :
    (t : Tally) (name : String) (s : ChartState)
    → ltb 0 (count_state t name s).in_progress_count
      ≡ (if is_chart_in_progress s then true else ltb 0 t.in_progress_count)
unfolding count_state
count_state-running t name in_progress = ground arith
count_state-running t name failed = refl
count_state-running t name unknown = refl
count_state-running t name not_installed = refl
count_state-running t name version_already_installed = refl
count_state-running t name succeeded = refl

abbrev pub any_failed : List ChartResult → Bool
any_failed rs = any (λ r. is_chart_failed r.state) rs

abbrev pub any_running : List ChartResult → Bool
any_running rs = any (λ r. is_chart_in_progress r.state) rs

tally_results-failed :
    (t : Tally) (rs : List ChartResult)
    → ltb 0 (tally_results t rs).failed_count
      ≡ (if any_failed rs then true else ltb 0 t.failed_count)
unfolding tally_results
tally_results-failed t [] = refl
tally_results-failed t (r ∷ rs) = ground (
  arith,
  tally_results-failed (count_state t r.chart_name r.state) rs,
  count_state-failed t r.chart_name r.state,
)

tally_results-running :
    (t : Tally) (rs : List ChartResult)
    → ltb 0 (tally_results t rs).in_progress_count
      ≡ (if any_running rs then true else ltb 0 t.in_progress_count)
unfolding tally_results
tally_results-running t [] = refl
tally_results-running t (r ∷ rs) = ground (
  arith,
  tally_results-running (count_state t r.chart_name r.state) rs,
  count_state-running t r.chart_name r.state,
)

tally_status-state :
    (t : Tally) (total : ℕ)
    → (tally_status t total).state ≡ (
        if ltb 0 t.failed_count
        then State.failed
        else if ltb 0 t.in_progress_count
        then State.in_progress
        else State.succeeded)
unfolding tally_status
tally_status-state t total = ground arith

-- A failed chart fails the phase, whatever the others do; else a chart in progress keeps it in
-- progress; else it succeeds. So it does when charts are not installed or of unknown state.
pub aggregate_results-state :
    (rs : List ChartResult) (total : ℕ)
    → (aggregate_results rs total).state ≡ (
        if any_failed rs
        then State.failed
        else if any_running rs
        then State.in_progress
        else State.succeeded)
unfolding aggregate_results
aggregate_results-state [] total = refl
aggregate_results-state (r ∷ rs) total = ground (
  arith,
  tally_status-state (tally_results empty_tally (r ∷ rs)) total,
  tally_results-failed empty_tally (r ∷ rs),
  tally_results-running empty_tally (r ∷ rs),
)
