-- ===== src/Examples/Installed.antt =====
-- Examples of the phase of the Helm charts.
use elemental_lifecycle_mana.Prelude.{
  true, none, List, [], ◌∷◌, ◌++◌, ◌≡◌, ◌↔◌, refl, ◌==◌, if◌then◌else◌,
}
use elemental_lifecycle_mana.Errors.{release_not_found, ok, err, M}
use elemental_lifecycle_mana.Config.{HelmChartConfig, helm_dependency}
use elemental_lifecycle_mana.Cluster.{HelmChart, Client}
use elemental_lifecycle_mana.Helm.{ChartState, in_progress, succeeded, ReleaseInfo, HelmClient}
use elemental_lifecycle_mana.Helm.Values.{end}
use elemental_lifecycle_mana.Reconcilers.Os.Order.{Succeeds}
use elemental_lifecycle_mana.Reconcilers.HelmCharts.{run_charts, reconcile_helm_charts}
use elemental_lifecycle_mana.Reconcilers.HelmCharts.Sort.{sort_chart_configs}
use elemental_lifecycle_mana.Reconcilers.HelmCharts.Success.{
  AllUpToDate, reconcile_helm_charts-Succeeds_iff,
}
use elemental_lifecycle_mana.Reconcilers.HelmCharts.Gates.{run_charts-gated}
use elemental_lifecycle_mana.Examples.World.{chart_config_for, complete_condition}
use elemental_lifecycle_mana.Examples.Stores.{Store, store}
use elemental_lifecycle_mana.Examples.Values.{libs, existing_chart, ref}

abbrev reconcile_one : HelmChartConfig → M Store ChartState
reconcile_one c s = (ok (if c.chart.name == "database" then in_progress else succeeded), s)

abbrev first : List HelmChartConfig
first = chart_config_for "network" [] ∷ []

abbrev last : List HelmChartConfig
last = chart_config_for "dashboard" [] ∷ []

run_charts-gated_example :
    run_charts
      (λ c. c.chart.name)
      reconcile_one
      true
      (first ++ chart_config_for "database" [] ∷ last)
      []
      none
    ≡ run_charts
        (λ c. c.chart.name)
        reconcile_one
        true
        (first ++ chart_config_for "database" [] ∷ [])
        []
        none
run_charts-gated_example =
    run_charts-gated (λ c. c.chart.name) reconcile_one true first last
      (chart_config_for "database" []) [] none refl

-- The chart was upgraded by a job that completed; of another chart Helm knows nothing.
abbrev upgraded_chart : HelmChart
upgraded_chart = record existing_chart { version = "1.0.0"; job_name = "helm-install-database" }

abbrev upgraded_store : Client Store
upgraded_store = record store {
  get_chart = λ namespace name s. (ok upgraded_chart, s);
  get_job = λ namespace name s.
      (ok (record { conditions = complete_condition ∷ []; completion_time = none }), s);
}

abbrev database_info : ReleaseInfo
database_info = record { chart_version = "1.0.0"; namespace = ""; config = end; revisions = 2 }

abbrev installed : HelmClient Store
installed = record {
  retrieve_release =
      λ name s. (if name == "database" then ok database_info else err release_not_found, s);
}

abbrev all_configs : List HelmChartConfig
all_configs =
    chart_config_for "dashboard" (record { name = "database"; type = helm_dependency } ∷ [])
    ∷ chart_config_for "database" []
    ∷ []

reconcile_helm_charts-Succeeds_example :
    Succeeds (reconcile_helm_charts libs upgraded_store installed true ref all_configs none).0 ↔ (
      (ordered : List HelmChartConfig) × (sort_chart_configs libs.chart_name all_configs
        ≡ ok ordered)
      × AllUpToDate libs upgraded_store installed ref ordered none)
reconcile_helm_charts-Succeeds_example =
    reconcile_helm_charts-Succeeds_iff libs upgraded_store installed true ref all_configs none
