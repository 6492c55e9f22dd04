-- ===== src/Reconcilers/HelmCharts/Success.antt =====
-- What has to hold of the charts before the phase of internal/upgrade/reconcilers/helm.go succeeds.
use elemental_lifecycle_mana.Prelude.{
  ℕ, String, Bool, false, List, [], ◌∷◌, ◌++◌, ◌≡◌, refl, ◌↔◌, ◌||◌, length, arith,
}
use elemental_lifecycle_mana.Errors.{Result, ok, err, M, continue}
use elemental_lifecycle_mana.Errors.Laws.{bind-inv}
use elemental_lifecycle_mana.Config.{HelmChartConfig}
use elemental_lifecycle_mana.Cluster.{Client}
use elemental_lifecycle_mana.Helm.{ChartState, HelmClient}
use elemental_lifecycle_mana.Reconcilers.Os.Order.{Succeeds}
use elemental_lifecycle_mana.Reconcilers.HelmCharts.Sort.{sort_chart_configs}
use elemental_lifecycle_mana.Reconcilers.HelmCharts.Chart.{HelmLibs, ReleaseRef, reconcile_chart}
use elemental_lifecycle_mana.Reconcilers.HelmCharts.Chart.Current.{Passes}
use elemental_lifecycle_mana.Reconcilers.HelmCharts.Chart.UpToDate.{
  IsUpToDate, reconcile_chart-Passes_iff,
}
use elemental_lifecycle_mana.Reconcilers.HelmCharts.Aggregate.{ChartResult, aggregate_results}
use elemental_lifecycle_mana.Reconcilers.HelmCharts.Aggregate.Laws.{
  any_failed, any_running, aggregate_results-state,
}
use elemental_lifecycle_mana.Reconcilers.HelmCharts.{
  is_chart_in_progress, is_chart_failed, after_chart, run_charts, reconcile_helm_charts,
}

abbrev is_open : List ChartResult → Bool
is_open rs = any_running rs || any_failed rs

is_open-append :
    (rs : List ChartResult) (r : ChartResult)
    → is_open (rs ++ r ∷ [])
      ≡ (is_open rs || (is_chart_in_progress r.state || is_chart_failed r.state))
is_open-append [] r = ground arith
is_open-append (q ∷ rs) r = ground (arith, is_open-append rs r)

-- The loop ran to its end without a failed chart and without one in progress.
abbrev RunsThrough : Result (List ChartResult) → Type 0
RunsThrough (ok rs) = is_open rs ≡ false
RunsThrough (err e) = ⊥

module _ {W : Type 0} (chart_name : HelmChartConfig → String)
    (one : HelmChartConfig → M W ChartState) (strict : Bool) where
  -- Every chart passes, each in the world that the ones before it left.
  abbrev AllPass : List HelmChartConfig → W → Type 0
  AllPass [] w = Unit
  AllPass (c ∷ cs) w = Passes (one c w).0 × AllPass cs (one c w).1

  after_chart-RunsThrough :
      (name : String) (results : List ChartResult) (cs : List HelmChartConfig)
      (r : Result ChartState × W)
      → ((done : List ChartResult)
          → RunsThrough (run_charts chart_name one strict cs done r.1).0
          → (is_open done ≡ false) × AllPass cs r.1)
      → RunsThrough
          (continue r (
            after_chart chart_name one strict name results (run_charts chart_name one strict cs))).0
      → (is_open results ≡ false) × Passes r.0 × AllPass cs r.1
  unfolding after_chart
  after_chart-RunsThrough name results cs (err e, v) later h = absurd h
  after_chart-RunsThrough name results cs (ok s, v) later h =
      let done = results ++ record { chart_name = name; state = s } ∷ [] in
      ground (arith, is_open-append results (record { chart_name = name; state = s }), later done)

  run_charts-RunsThrough :
      (cs : List HelmChartConfig) (results : List ChartResult) (w : W)
      → RunsThrough (run_charts chart_name one strict cs results w).0
      → (is_open results ≡ false) × AllPass cs w
  unfolding run_charts
  run_charts-RunsThrough [] results w h = (h, tt)
  run_charts-RunsThrough (c ∷ cs) results w h =
      let (clean, passes, rest) =
        after_chart-RunsThrough (chart_name c) results cs (one c w)
          (λ done. run_charts-RunsThrough cs done (one c w).1) h in
      (clean, (passes, rest))

  after_chart_of_Passes :
      (name : String) (results : List ChartResult) (cs : List HelmChartConfig)
      (r : Result ChartState × W)
      → ((done : List ChartResult)
          → is_open done ≡ false
          → RunsThrough (run_charts chart_name one strict cs done r.1).0)
      → is_open results ≡ false
      → Passes r.0
      → RunsThrough
          (continue r (
            after_chart chart_name one strict name results (run_charts chart_name one strict cs))).0
  unfolding after_chart
  after_chart_of_Passes name results cs (err e, v) later clean h = absurd h
  after_chart_of_Passes name results cs (ok s, v) later clean h =
      let done = results ++ record { chart_name = name; state = s } ∷ [] in
      ground (arith, is_open-append results (record { chart_name = name; state = s }), later done)

  run_charts_of_AllPass :
      (cs : List HelmChartConfig) (results : List ChartResult) (w : W)
      → is_open results ≡ false
      → AllPass cs w
      → RunsThrough (run_charts chart_name one strict cs results w).0
  unfolding run_charts
  run_charts_of_AllPass [] results w clean h = clean
  run_charts_of_AllPass (c ∷ cs) results w clean (h, hs) =
      after_chart_of_Passes (chart_name c) results cs (one c w)
        (λ done so_far. run_charts_of_AllPass cs done (one c w).1 so_far hs) clean h

-- The verdict is a success exactly for a loop that ran to its end with nothing open.
conclude-Succeeds :
    {W : Type 0} (total : ℕ) (r : Result (List ChartResult) × W)
    → Succeeds (continue r (λ results (v : W). (ok (aggregate_results results total), v))).0
      ↔ RunsThrough r.0
conclude-Succeeds total (ok results, v) = (
  λ h. ground (arith, aggregate_results-state results total),
  λ h. ground (arith, aggregate_results-state results total),
)
conclude-Succeeds total (err e, v) = (λ h. h, λ h. h)

module _ {W : Type 0} (libs : HelmLibs) (client : Client W) (helm : HelmClient W) where
  -- The charts can be sorted, and in this order there is nothing left to do for each of them, in the
  -- world that the ones before it left.
  abbrev pub AllUpToDate : ReleaseRef → List HelmChartConfig → W → Type 0
  AllUpToDate ref [] w = Unit
  AllUpToDate ref (c ∷ cs) w =
      IsUpToDate libs client helm ref c w
      × AllUpToDate ref cs (reconcile_chart libs client helm ref c w).1

  AllUpToDate-AllPass :
      (strict : Bool) (ref : ReleaseRef) (cs : List HelmChartConfig) (w : W)
      → AllUpToDate ref cs w
        ↔ AllPass (λ c. libs.chart_name c.chart) (reconcile_chart libs client helm ref) strict cs w
  AllUpToDate-AllPass strict ref [] w = (λ h. h, λ h. h)
  AllUpToDate-AllPass strict ref (c ∷ cs) w =
      let (there, back) = reconcile_chart-Passes_iff libs client helm ref c w in
      let (on, off) =
        AllUpToDate-AllPass strict ref cs (reconcile_chart libs client helm ref c w).1 in
      ((λ (h, hs). (back h, on hs)), (λ (h, hs). (there h, off hs)))

  -- Strict or not, the phase reports success exactly when the charts can be sorted and in this order
  -- there is nothing left to do for any of them, each in the world that the ones before it left: Helm
  -- knows no release of it, or one at the target version without a resource, or its resource is
  -- current and the job of it is done.
  pub reconcile_helm_charts-Succeeds_iff :
      (strict : Bool) (ref : ReleaseRef) (configs : List HelmChartConfig) (w : W)
      → Succeeds (reconcile_helm_charts libs client helm strict ref configs w).0 ↔ (
          (ordered : List HelmChartConfig) × (sort_chart_configs libs.chart_name configs
            ≡ ok ordered)
          × AllUpToDate ref ordered w)
  unfolding reconcile_helm_charts
  reconcile_helm_charts-Succeeds_iff strict ref configs w =
      let name = λ (c : HelmChartConfig). libs.chart_name c.chart in
      let one = reconcile_chart libs client helm ref in
      let run = λ (cs : List HelmChartConfig). run_charts name one strict cs [] w in
      (
        (λ h.
            let (ordered, sorted, h₁) =
              bind-inv Succeeds (sort_chart_configs libs.chart_name configs, w) _ (λ e n. n) h in
            let through = (conclude-Succeeds (length ordered) (run ordered)).0 h₁ in
            (
              ordered,
              sorted,
              (AllUpToDate-AllPass strict ref ordered w).1
                  (run_charts-RunsThrough name one strict ordered [] w through).1,
            )),
        (λ (ordered, sorted, h). rw sorted (
            (conclude-Succeeds (length ordered) (run ordered)).1 (
              run_charts_of_AllPass name one strict ordered [] w refl
                ((AllUpToDate-AllPass strict ref ordered w).0 h)))),
      )
