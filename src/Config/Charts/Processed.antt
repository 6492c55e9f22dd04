-- ===== src/Config/Charts/Processed.antt =====
-- What `BuildHelmChartConfig` of internal/upgrade/config.go does with the charts of a manifest.
use mathlib.Core.List.{append_assoc, append-nil}
use elemental_lifecycle_mana.Prelude.{
  String, Bool, true, false, Option, none, some, List, [], ◌∷◌, ◌++◌, ◌≡◌, refl, sym, ◌∙◌, ◌==◌,
  ◌&&◌, not, any, is_some, lookup, map, arith, eq_iff,
}
use elemental_lifecycle_mana.Config.{
  ManifestChart, ManifestRepository, ManifestHelm, HelmChartConfig, RuntimeHelmChartConfig,
  RuntimeCharts, index_repositories, chart_config, delete_key, mark_processed, add_charts,
  add_manifest,
}

abbrev pub among : String → List String → Bool
among k ks = any (λ j. j == k) ks

-- The configurations of the charts of one manifest, on their own.
abbrev pub configs_of : RuntimeCharts → Option ManifestHelm → List HelmChartConfig
configs_of runtime none = []
configs_of runtime (some helm) =
    map (chart_config (index_repositories [] helm.repositories) runtime) helm.charts

-- The manifest lists a chart of this name.
abbrev pub lists_chart : String → Option ManifestHelm → Bool
lists_chart k none = false
lists_chart k (some helm) = any (λ c. c.chart == k) helm.charts

add_charts-configs :
    (repos : List (String × ManifestRepository)) (runtime : RuntimeCharts)
    (configs : List HelmChartConfig) (unprocessed : List String) (cs : List ManifestChart)
    → (add_charts repos runtime configs unprocessed cs).0
      ≡ configs ++ map (chart_config repos runtime) cs
unfolding add_charts
add_charts-configs repos runtime configs unprocessed [] = sym (append-nil configs)
add_charts-configs repos runtime configs unprocessed (c ∷ cs) =
    add_charts-configs repos runtime (configs ++ chart_config repos runtime c ∷ [])
      (mark_processed (lookup c.chart runtime) c.chart unprocessed) cs
    ∙ append_assoc configs (chart_config repos runtime c ∷ []) (map (chart_config repos runtime) cs)

among-delete_key :
    (k j : String) (ks : List String) → among k (delete_key j ks) ≡ (among k ks && not (j == k))
unfolding delete_key
among-delete_key k j [] = refl
among-delete_key k j (i ∷ ks) =
    ground (arith, among-delete_key k j ks, eq_iff i j, eq_iff i k, eq_iff j k)

among-mark_processed :
    (k j : String) (o : Option RuntimeHelmChartConfig) (ks : List String)
    → among k (mark_processed o j ks) ≡ (among k ks && not (is_some o && j == k))
among-mark_processed k j none ks = ground arith
among-mark_processed k j (some rc) ks = among-delete_key k j ks

among-add_charts :
    (repos : List (String × ManifestRepository)) (runtime : RuntimeCharts)
    (configs : List HelmChartConfig) (unprocessed : List String) (cs : List ManifestChart)
    (k : String)
    → is_some (lookup k runtime) ≡ true
    → among k (add_charts repos runtime configs unprocessed cs).1
      ≡ (among k unprocessed && not (any (λ c. c.chart == k) cs))
unfolding add_charts
among-add_charts repos runtime configs unprocessed [] k there = ground arith
among-add_charts repos runtime configs unprocessed (c ∷ cs) k there =
    let marked = mark_processed (lookup c.chart runtime) c.chart unprocessed in
    ground (
      arith,
      eq_iff c.chart k,
      among-mark_processed k c.chart (lookup c.chart runtime) unprocessed,
      among-add_charts repos runtime (configs ++ chart_config repos runtime c ∷ []) marked cs k
          there,
    )

pub among-add_manifest :
    (runtime : RuntimeCharts) (configs : List HelmChartConfig) (unprocessed : List String)
    (helm : Option ManifestHelm) (k : String)
    → is_some (lookup k runtime) ≡ true
    → among k (add_manifest runtime configs unprocessed helm).1
      ≡ (among k unprocessed && not (lists_chart k helm))
unfolding add_manifest
among-add_manifest runtime configs unprocessed none k there = ground arith
among-add_manifest runtime configs unprocessed (some helm) k there =
    among-add_charts (index_repositories [] helm.repositories) runtime configs unprocessed
      helm.charts k there

pub add_manifest-configs :
    (runtime : RuntimeCharts) (configs : List HelmChartConfig) (unprocessed : List String)
    (helm : Option ManifestHelm)
    → (add_manifest runtime configs unprocessed helm).0 ≡ configs ++ configs_of runtime helm
unfolding add_manifest
add_manifest-configs runtime configs unprocessed none = sym (append-nil configs)
add_manifest-configs runtime configs unprocessed (some helm) =
    add_charts-configs (index_repositories [] helm.repositories) runtime configs unprocessed
      helm.charts

-- The loops only drop runtime charts.
add_charts-drops :
    (repos : List (String × ManifestRepository)) (runtime : RuntimeCharts)
    (configs : List HelmChartConfig) (unprocessed : List String) (cs : List ManifestChart)
    (k : String)
    → among k (add_charts repos runtime configs unprocessed cs).1 ≡ true
    → among k unprocessed ≡ true
unfolding add_charts
add_charts-drops repos runtime configs unprocessed [] k h = h
add_charts-drops repos runtime configs unprocessed (c ∷ cs) k h =
    let marked = mark_processed (lookup c.chart runtime) c.chart unprocessed in
    ground (
      arith,
      among-mark_processed k c.chart (lookup c.chart runtime) unprocessed,
      add_charts-drops repos runtime (configs ++ chart_config repos runtime c ∷ []) marked cs k h,
    )

pub add_manifest-drops :
    (runtime : RuntimeCharts) (configs : List HelmChartConfig) (unprocessed : List String)
    (helm : Option ManifestHelm) (k : String)
    → among k (add_manifest runtime configs unprocessed helm).1 ≡ true
    → among k unprocessed ≡ true
unfolding add_manifest
add_manifest-drops runtime configs unprocessed none k h = h
add_manifest-drops runtime configs unprocessed (some helm) k h =
    add_charts-drops (index_repositories [] helm.repositories) runtime configs unprocessed
      helm.charts k h
