-- ===== src/Controller/Configs/LcmCharts.antt =====
-- The charts of the lifecycle manager in the configurations of the self-upgrade and the pipeline,
-- against lists of names that are written out here.
use elemental_lifecycle_mana.Prelude.{
  String, true, false, some, List, [], ◌∷◌, ◌≡◌, ◌≢◌, refl, ◌⊎◌, inl, inr, ◌==◌, not, keep, map,
  arith, eq_iff, Bool-cases,
}
use elemental_lifecycle_mana.Api.{Release}
use elemental_lifecycle_mana.Errors.{Result, ok, err}
use elemental_lifecycle_mana.Config.{
  ResolvedManifest, DrainOpts, HelmChartConfig, Config, Tag, new_config,
}
use elemental_lifecycle_mana.Config.Charts.{IsRefused}
use elemental_lifecycle_mana.Controller.Drain.{parse_drain_opts}
use elemental_lifecycle_mana.Cluster.{Client}
use elemental_lifecycle_mana.Controller.Configs.{
  is_deleted_chart, runtime_helm_chart_configs, LcmManifest, without_lcm_charts,
  parse_upgrade_config,
}

-- The names of the two charts of the lifecycle manager.
abbrev pub IsLcmName : String → Type 0
IsLcmName name =
    (name ≡ "elemental-lifecycle-manager") ⊎ (name ≡ "elemental-lifecycle-manager-crds")

abbrev pub IsOtherName : String → Type 0
IsOtherName name =
    (name ≢ "elemental-lifecycle-manager") × (name ≢ "elemental-lifecycle-manager-crds")

-- The second list is the first without the charts of the lifecycle manager.
pub data WithoutLcm : List HelmChartConfig → List HelmChartConfig → Type 0 where
  none_left : WithoutLcm [] []
  dropped :
      (c : HelmChartConfig) {cs kept : List HelmChartConfig}
      → IsLcmName c.chart.chart
      → WithoutLcm cs kept
      → WithoutLcm (c ∷ cs) kept
  stays :
      (c : HelmChartConfig) {cs kept : List HelmChartConfig}
      → IsOtherName c.chart.chart
      → WithoutLcm cs kept
      → WithoutLcm (c ∷ cs) (c ∷ kept)

-- The second list has the names of the first that are charts of the lifecycle manager.
pub data OnlyLcm : List String → List String → Type 0 where
  no_more : OnlyLcm [] []
  passed_over :
      (name : String) {names picked : List String}
      → IsOtherName name
      → OnlyLcm names picked
      → OnlyLcm (name ∷ names) picked
  picks :
      (name : String) {names picked : List String}
      → IsLcmName name
      → OnlyLcm names picked
      → OnlyLcm (name ∷ names) (name ∷ picked)

deleted-cases :
    (name : String)
    → ((is_deleted_chart name ≡ true) × IsLcmName name)
      ⊎ ((is_deleted_chart name ≡ false) × IsOtherName name)
deleted-cases name = elim (Bool-cases ("elemental-lifecycle-manager" == name)) [
  | inl e ↦ inl (ground arith, inl (ground (arith, eq_iff "elemental-lifecycle-manager" name)))
  | inr e ↦ elim (Bool-cases ("elemental-lifecycle-manager-crds" == name)) [
    | inl d ↦
        inl (ground arith, inr (ground (arith, eq_iff "elemental-lifecycle-manager-crds" name)))
    | inr d ↦ inr (
      ground arith,
      (
        λ same. ground (arith, eq_iff "elemental-lifecycle-manager" name),
        λ same. ground (arith, eq_iff "elemental-lifecycle-manager-crds" name),
      ),
    )
  ]
]

keep-WithoutLcm :
    (cs : List HelmChartConfig)
    → WithoutLcm cs (keep (λ c. not (is_deleted_chart c.chart.chart)) cs)
keep-WithoutLcm [] = none_left
keep-WithoutLcm (c ∷ cs) = elim (deleted-cases c.chart.chart) [
  | inl (e, lcm) ↦ rw e (dropped c lcm (keep-WithoutLcm cs))
  | inr (e, other) ↦ rw e (stays c other (keep-WithoutLcm cs))
]

module _ {W : Type 0} (client : Client W) (new_tag : String → Result Tag) where
  -- When the drain options and the configuration of the manifest are made, the configuration that
  -- the pipeline is given is this one less the charts named `elemental-lifecycle-manager` and
  -- `elemental-lifecycle-manager-crds`: neither is left, whatever the manifest and the user say, and
  -- every other chart stays, in its place.
  pub parse_upgrade_config-HasNoLcmChart :
      (manifest : ResolvedManifest) (release : Release) (w v : W) (opts : DrainOpts) (made : Config)
      → parse_drain_opts client release w ≡ (ok opts, v)
      → new_config new_tag
          (some manifest)
          release.spec.version
          release.name
          release.namespace
          (record { drain_opts = opts; helm_charts = runtime_helm_chart_configs release [] })
        ≡ ok made
      → (kept : List HelmChartConfig) × (parse_upgrade_config client new_tag manifest release w
          ≡ (ok (record made { helm_charts = kept }), v))
        × WithoutLcm made.helm_charts kept
  unfolding parse_upgrade_config without_lcm_charts
  parse_upgrade_config-HasNoLcmChart manifest release w v opts made drained built =
      (_, rw drained (rw built refl), keep-WithoutLcm made.helm_charts)

-- The configuration has the charts of the lifecycle manager that the core manifest lists and no
-- other, or the configuration of the user is refused.
abbrev pub HasLcmChartsOf : LcmManifest → Result Config → Type 0
HasLcmChartsOf core (ok config) =
    OnlyLcm (map (λ c. c.chart) core.charts) (map (λ c. c.chart.chart) config.helm_charts)
HasLcmChartsOf core (err e) = IsRefused (err e)
