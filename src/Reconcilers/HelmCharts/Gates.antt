-- ===== src/Reconcilers/HelmCharts/Gates.antt =====
-- The loop over the sorted charts, in internal/upgrade/reconcilers/helm.go, and its stops.
use elemental_lifecycle_mana.Prelude.{
  String, Bool, true, List, [], ◌∷◌, ◌++◌, ◌≡◌, refl, ◌&&◌, ◌||◌, arith,
}
use elemental_lifecycle_mana.Errors.{Result, ok, err, M, continue}
use elemental_lifecycle_mana.Config.{HelmChartConfig}
use elemental_lifecycle_mana.Helm.{ChartState}
use elemental_lifecycle_mana.Reconcilers.HelmCharts.Aggregate.{ChartResult}
use elemental_lifecycle_mana.Reconcilers.HelmCharts.{
  is_chart_in_progress, is_chart_failed, after_chart, run_charts,
}

-- The loop is left after a chart in progress, an error, or, if strict, a failed chart.
abbrev pub Leaves : Bool → Result ChartState → Type 0
Leaves strict (ok s) = (is_chart_in_progress s || is_chart_failed s && strict) ≡ true
Leaves strict (err e) = Unit

module _ {W : Type 0} (chart_name : HelmChartConfig → String)
    (one : HelmChartConfig → M W ChartState) (strict : Bool) where
  abbrev pub world_after_charts : List HelmChartConfig → W → W
  world_after_charts [] w = w
  world_after_charts (c ∷ cs) w = world_after_charts cs (one c w).1

  after_chart-rest :
      (name : String) (results : List ChartResult) (f g : List ChartResult → M W (List ChartResult))
      (r : Result ChartState × W)
      → ((done : List ChartResult) → f done r.1 ≡ g done r.1)
      → continue r (after_chart chart_name one strict name results f)
        ≡ continue r (after_chart chart_name one strict name results g)
  unfolding after_chart
  after_chart-rest name results f g (err e, w) same = refl
  after_chart-rest name results f g (ok s, w) same =
      ground (arith, same (results ++ record { chart_name = name; state = s } ∷ []))

  after_chart-Leaves :
      (name : String) (results : List ChartResult) (f g : List ChartResult → M W (List ChartResult))
      (r : Result ChartState × W)
      → Leaves strict r.0
      → continue r (after_chart chart_name one strict name results f)
        ≡ continue r (after_chart chart_name one strict name results g)
  unfolding after_chart
  after_chart-Leaves name results f g (err e, w) h = refl
  after_chart-Leaves name results f g (ok s, w) h = ground arith

  -- If the chart `c` is in progress when the charts before it have run, or its reconciliation fails,
  -- or the reconciler is strict and the chart failed, then the charts after it are not reached: the
  -- results and the world are those of the loop that ends with `c`.
  pub run_charts-gated :
      (before after : List HelmChartConfig) (c : HelmChartConfig) (results : List ChartResult)
      (w : W)
      → Leaves strict (one c (world_after_charts before w)).0
      → run_charts chart_name one strict (before ++ c ∷ after) results w
        ≡ run_charts chart_name one strict (before ++ c ∷ []) results w
  unfolding run_charts
  run_charts-gated [] after c results w h =
      after_chart-Leaves (chart_name c) results (run_charts chart_name one strict after)
        (run_charts chart_name one strict []) (one c w) h
  run_charts-gated (b ∷ before) after c results w h =
      after_chart-rest (chart_name b) results
        (run_charts chart_name one strict (before ++ c ∷ after))
        (run_charts chart_name one strict (before ++ c ∷ [])) (one b w)
        (λ done. run_charts-gated before after c done (one b w).1 h)
