-- ===== src/Reconcilers/Rke2/Changes.antt =====
-- Which packaged components are new or changed, in internal/upgrade/reconcilers/rke2_core.go.
use elemental_lifecycle_mana.Prelude.{
  String, Bool, Option, none, some, List, [], ◌∷◌, ◌++◌, ◌==◌, ◌||◌, not, lookup, insert, text_at,
  if◌then◌else◌,
}
use elemental_lifecycle_mana.Errors.{M, ◌>>=◌, pure, context}
use elemental_lifecycle_mana.Cluster.{HelmChart}
use elemental_lifecycle_mana.Reconcilers.Kubernetes.{ChartSnapshot}

abbrev pub chart_url_annotation : String
chart_url_annotation = "helm.cattle.io/chart-url"

-- `map[string]helmv1.HelmChart`, in some order of its entries.
abbrev pub Charts : Type 0
Charts = List (String × HelmChart)

-- The field `findComponents`.
abbrev pub FindComponents : Type 0 → Type 0
FindComponents W = M W Charts

pub record SnapshotPair : Type 0 where
  pub chart : HelmChart
  pub snapshot : Option ChartSnapshot

unfoldable pub index_snapshots :
    List (String × ChartSnapshot) → List ChartSnapshot → List (String × ChartSnapshot)
index_snapshots m [] = m
index_snapshots m (s ∷ ss) = index_snapshots (insert s.name s m) ss

-- The slices of the loop: changed components and new ones.
pub record Found : Type 0 where
  pub changed : List SnapshotPair
  pub new : List SnapshotPair

-- `hash` is the SHA-256 of a text in hexadecimal digits.
module _ (hash : String → String) where
  unfoldable pub chart_state_changed : HelmChart → ChartSnapshot → Bool
  chart_state_changed chart s =
      not (hash chart.chart_content == s.chart_content_sha)
      || not (text_at chart_url_annotation chart.annotations == s.chart_url)

  unfoldable pub note_component : Found → HelmChart → Option ChartSnapshot → Found
  unfolding chart_state_changed
  note_component f chart none = record f {
    new = f.new ++ record { chart = chart; snapshot = none } ∷ [];
  }
  note_component f chart (some s) =
      if chart_state_changed chart s
      then record f { changed = f.changed ++ record { chart = chart; snapshot = some s } ∷ [] }
      else f

  unfoldable pub scan_components : List (String × ChartSnapshot) → Found → Charts → Found
  unfolding note_component
  scan_components snapshots f [] = f
  scan_components snapshots f ((name, chart) ∷ charts) =
      scan_components snapshots (note_component f chart (lookup name snapshots)) charts

  abbrev pub all_found : Found → List SnapshotPair
  all_found f = f.changed ++ f.new

  unfoldable pub find_new_or_changed :
      {W : Type 0} → FindComponents W → List ChartSnapshot → M W (List SnapshotPair)
  unfolding scan_components index_snapshots
  find_new_or_changed find snapshots = context "finding RKE2 packaged components" find >>= λ charts.
      pure (
        all_found (
          scan_components (index_snapshots [] snapshots) (record { changed = []; new = [] })
            charts))
