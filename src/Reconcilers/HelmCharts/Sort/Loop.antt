-- ===== src/Reconcilers/HelmCharts/Sort/Loop.antt =====
-- The loop over all charts at the end of sortChartConfigsByDependencies, in
-- internal/upgrade/reconcilers/helm.go.
use elemental_lifecycle_mana.Prelude.{
  ℕ, String, true, some, List, [], ◌∷◌, ◌≡◌, refl, all, lookup, arith,
}
use elemental_lifecycle_mana.Config.{ManifestChart, HelmChartConfig}
use elemental_lifecycle_mana.Reconcilers.HelmCharts.Sort.{
  Walk, Outcome, done, circular, out_of_fuel, next, visit, visit_charts,
}
use elemental_lifecycle_mana.Reconcilers.HelmCharts.Sort.Fuel.{Charts, is_known}
use elemental_lifecycle_mana.Reconcilers.HelmCharts.Sort.Ordered.{
  is_placed, Placed, IsSound, Extends, Extends-refl, Extends-trans, Visits, Fits, visit-VisitsWell,
}

module _ (chart_name : ManifestChart → String) (charts : Charts)
    (named : (k : String) (c : HelmChartConfig)
      → lookup k charts ≡ some c
      → chart_name c.chart ≡ k) where
  -- The loop over all charts.
  abbrev pub Loops : List HelmChartConfig → Walk → Outcome → Type 0
  Loops cs w (done v) =
      Extends chart_name charts named [] w v
      × (all (λ c. is_placed chart_name (chart_name c.chart) v.result) cs ≡ true)
  Loops cs w (circular s) = Unit
  Loops cs w out_of_fuel = ⊥

  cons-Loops :
      (w v : Walk) (c : HelmChartConfig) (cs : List HelmChartConfig) (o : Outcome)
      → Extends chart_name charts named [] w v
      → Placed chart_name charts named (chart_name c.chart) v.result
      → Loops cs v o
      → Loops (c ∷ cs) w o
  cons-Loops w v c cs (done u) ext placed (ext', rest) = (
    Extends-trans chart_name charts named [] w v u ext ext',
    rw (ext'.2 (chart_name c.chart) placed) rest,
  )
  cons-Loops w v c cs (circular s) ext placed h = tt
  cons-Loops w v c cs out_of_fuel ext placed h = h

  next-Loops :
      (w : Walk) (c : HelmChartConfig) (cs : List HelmChartConfig) (o : Outcome)
      (rest : Walk → Outcome)
      → is_known charts (chart_name c.chart) ≡ true
      → Visits chart_name charts named [] w (chart_name c.chart) o
      → ((v : Walk) → v.in_progress ≡ [] → IsSound chart_name charts named v → Loops cs v (rest v))
      → Loops (c ∷ cs) w (next o rest)
  next-Loops w c cs (done v) rest known (ext, placed) h =
      cons-Loops w v c cs (rest v) ext (placed known) (h v ext.0 ext.1)
  next-Loops w c cs (circular s) rest known o h = tt
  next-Loops w c cs out_of_fuel rest known o h = o

  pub visit_charts-Loops :
      (fuel : ℕ) (cs : List HelmChartConfig) (w : Walk)
      → Fits chart_name charts named fuel []
      → all (λ c. is_known charts (chart_name c.chart)) cs ≡ true
      → w.in_progress ≡ []
      → IsSound chart_name charts named w
      → Loops cs w (visit_charts chart_name fuel charts cs w)
  unfolding visit_charts
  visit_charts-Loops fuel [] w fits known start sound =
      (Extends-refl chart_name charts named [] w start sound, refl)
  visit_charts-Loops fuel (c ∷ cs) w fits known start sound =
      next-Loops w c cs (visit fuel charts (chart_name c.chart) w)
        (visit_charts chart_name fuel charts cs) (ground arith)
        (visit-VisitsWell chart_name charts named fuel [] fits (chart_name c.chart) w start sound)
        (λ v e s. visit_charts-Loops fuel cs v fits (ground arith) e s)
