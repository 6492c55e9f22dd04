-- ===== src/Reconcilers/HelmCharts/Sort/Total.antt =====
-- sortChartConfigsByDependencies of internal/upgrade/reconcilers/helm.go as a whole.
use Prim.Native.String.{◌++◌ as append}
use elemental_lifecycle_mana.Prelude.{
  suc, String, true, some, List, [], ◌∷◌, ◌≡◌, refl, ◌||◌, length, all, lookup, insert,
  lookup-insert, eq_iff, eq_refl, arith,
}
use elemental_lifecycle_mana.Errors.{Error, message, Result, ok, err}
use elemental_lifecycle_mana.Config.{ManifestChart, HelmChartConfig}
use elemental_lifecycle_mana.Reconcilers.HelmCharts.Sort.{
  Walk, Outcome, done, circular, out_of_fuel, index_charts, visit_charts, start, outcome_result,
  sort_chart_configs,
}
use elemental_lifecycle_mana.Reconcilers.HelmCharts.Sort.Fuel.{Charts, is_known}
use elemental_lifecycle_mana.Reconcilers.HelmCharts.Sort.Ordered.{InOrder, nothing, is_placed}
use elemental_lifecycle_mana.Reconcilers.HelmCharts.Sort.Loop.{visit_charts-Loops, Loops}

module _ (chart_name : ManifestChart → String) where
  abbrev IsNamed : Charts → Type 0
  IsNamed charts =
      (k : String) (c : HelmChartConfig) → lookup k charts ≡ some c → chart_name c.chart ≡ k

  no_names : IsNamed []
  unfolding lookup
  no_names k c there = cc

  insert-IsNamed :
      (charts : Charts) (c : HelmChartConfig)
      → IsNamed charts
      → IsNamed (insert (chart_name c.chart) c charts)
  insert-IsNamed charts c named k d there = ground (
    arith,
    lookup-insert (chart_name c.chart) k c charts,
    eq_iff (chart_name c.chart) k,
    named k d,
  )

  index_charts-IsNamed :
      (m : Charts) (cs : List HelmChartConfig) → IsNamed m → IsNamed (index_charts chart_name m cs)
  unfolding index_charts
  index_charts-IsNamed m [] named = named
  index_charts-IsNamed m (c ∷ cs) named =
      index_charts-IsNamed (insert (chart_name c.chart) c m) cs (insert-IsNamed m c named)

  is_known-index_charts :
      (m : Charts) (cs : List HelmChartConfig) (k : String)
      → is_known (index_charts chart_name m cs) k ≡ (is_known m k || is_placed chart_name k cs)
  unfolding index_charts
  is_known-index_charts m [] k = ground arith
  is_known-index_charts m (c ∷ cs) k = ground (
    arith,
    is_known-index_charts (insert (chart_name c.chart) c m) cs k,
    lookup-insert (chart_name c.chart) k c m,
  )

  all_known :
      (charts : Charts) (cs : List HelmChartConfig)
      → ((k : String) → is_placed chart_name k cs ≡ true → is_known charts k ≡ true)
      → all (λ c. is_known charts (chart_name c.chart)) cs ≡ true
  all_known charts [] h = refl
  all_known charts (c ∷ cs) h =
      let first = h (chart_name c.chart) (rw (eq_refl (chart_name c.chart)) refl) in
      rw first (all_known charts cs (λ k there. h k (ground arith)))

  abbrev pub IsCircular : Error → Type 0
  IsCircular e =
      (name : String) × (e ≡ message (append "circular dependency detected involving chart " name))

  -- The list is in order and has a chart of each name among the configurations.
  abbrev pub Sorts : List HelmChartConfig → Result (List HelmChartConfig) → Type 0
  Sorts configs (ok sorted) =
      InOrder chart_name (index_charts chart_name [] configs) sorted
      × (all (λ c. is_placed chart_name (chart_name c.chart) sorted) configs ≡ true)
  Sorts configs (err e) = IsCircular e

  outcome_result-Sorts :
      (configs : List HelmChartConfig) (named : IsNamed (index_charts chart_name [] configs))
      (o : Outcome)
      → Loops chart_name (index_charts chart_name [] configs) named configs (start chart_name) o
      → Sorts configs (outcome_result chart_name o)
  outcome_result-Sorts configs named (done v) ((e, (ordered, kept), _, _), placed) =
      (ordered, placed)
  outcome_result-Sorts configs named (circular s) h = (s, refl)
  outcome_result-Sorts configs named out_of_fuel h = absurd h

  -- The sort always ends: with a list that has each of the names once, in which every chart stands
  -- behind the charts of the list that it depends on, or with the report of a cycle.
  pub sort_chart_configs-Sorts :
      (configs : List HelmChartConfig) → Sorts configs (sort_chart_configs chart_name configs)
  unfolding sort_chart_configs elemental_lifecycle_mana.Reconcilers.HelmCharts.Sort.member lookup
  sort_chart_configs-Sorts configs =
      let charts = index_charts chart_name [] configs in
      let named = index_charts-IsNamed [] configs no_names in
      outcome_result-Sorts configs named
        (visit_charts chart_name (suc (length charts)) charts configs (start chart_name))
        (visit_charts-Loops chart_name charts named (suc (length charts)) configs (start chart_name)
          (refl, refl, ground arith)
          (all_known charts configs (λ k there. ground (arith, is_known-index_charts [] configs k)))
          refl (nothing, λ k. refl))
