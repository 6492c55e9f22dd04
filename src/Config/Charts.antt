-- ===== src/Config/Charts.antt =====
-- `BuildHelmChartConfig` of internal/upgrade/config.go: which charts it configures, and when it
-- refuses the configuration of the user.
pub mod Processed
use elemental_lifecycle_mana.Prelude.{
  String, Bool, true, false, Option, none, some, List, [], ◌∷◌, ◌++◌, ◌≡◌, refl, ap, sym, subst,
  ◌∙◌, inl, inr, ◌==◌, ◌&&◌, ◌||◌, not, any, all, is_some, lookup, keys, map, arith, eq_iff,
  eq_refl, Bool-cases,
}
use elemental_lifecycle_mana.Errors.{runtime_config, Result, ok, err}
use elemental_lifecycle_mana.Config.{
  ManifestChart, ManifestRepository, ManifestHelm, HelmChartConfig, RuntimeHelmChartConfig,
  RuntimeCharts, index_repositories, chart_config, delete_key, mark_processed, add_charts,
  add_manifest, check_unknown, build_helm_chart_config,
}
use elemental_lifecycle_mana.Config.Charts.Processed.{
  among, configs_of, lists_chart, among-add_manifest, add_manifest-configs, add_manifest-drops,
}

abbrev pub IsRefused : Result (List HelmChartConfig) → Type 0
IsRefused (err (runtime_config s)) = Unit
IsRefused _ = ⊥

-- Every chart that the user configures is listed by the core manifest or by the solution's.
abbrev pub all_listed : RuntimeCharts → Option ManifestHelm → Option ManifestHelm → Bool
all_listed runtime core solution =
    all (λ k. lists_chart k core || lists_chart k solution) (keys runtime)

is_some-lookup :
    (runtime : RuntimeCharts) (k : String)
    → among k (keys runtime) ≡ true
    → is_some (lookup k runtime) ≡ true
unfolding lookup
is_some-lookup [] k h = cc
is_some-lookup ((j, v) ∷ m) k h = ground (arith, is_some-lookup m k)

all-among :
    (p : String → Bool) (ks : List String) (k : String)
    → all p ks ≡ true
    → among k ks ≡ true
    → p k ≡ true
all-among p [] k h there = cc
all-among p (j ∷ ks) k h there = grind (arith, eq_iff j k, all-among p ks k)

some-fails :
    (p : String → Bool) (ks : List String)
    → all p ks ≡ false
    → (k : String) × (among k ks ≡ true) × (p k ≡ false)
some-fails p [] h = cc
some-fails p (j ∷ ks) h = elim (Bool-cases (p j)) [
  | inr e ↦ (j, rw (eq_refl j) refl, e)
  | inl e ↦ let (k, there, fails) = some-fails p ks (ground arith) in (k, ground arith, fails)
]

-- The final list of runtime charts that no manifest lists.
abbrev unknown_charts : RuntimeCharts → Option ManifestHelm → Option ManifestHelm → List String
unknown_charts runtime core solution =
    let (configs, unprocessed) = add_manifest runtime [] (keys runtime) core in
    (add_manifest runtime configs unprocessed solution).1

among-unknown_charts :
    (runtime : RuntimeCharts) (core solution : Option ManifestHelm) (k : String)
    → among k (keys runtime) ≡ true
    → among k (unknown_charts runtime core solution)
      ≡ not (lists_chart k core || lists_chart k solution)
among-unknown_charts runtime core solution k there =
    let there' = is_some-lookup runtime k there in
    let (configs, unprocessed) = add_manifest runtime [] (keys runtime) core in
    ground (
      arith,
      among-add_manifest runtime [] (keys runtime) core k there',
      among-add_manifest runtime configs unprocessed solution k there',
    )

among-unknown_charts-keys :
    (runtime : RuntimeCharts) (core solution : Option ManifestHelm) (k : String)
    → among k (unknown_charts runtime core solution) ≡ true
    → among k (keys runtime) ≡ true
among-unknown_charts-keys runtime core solution k there =
    let (configs, unprocessed) = add_manifest runtime [] (keys runtime) core in
    add_manifest-drops runtime [] (keys runtime) core k
      (add_manifest-drops runtime configs unprocessed solution k there)

build_parts :
    (runtime : RuntimeCharts) (core solution : Option ManifestHelm)
    → build_helm_chart_config core solution runtime
      ≡ check_unknown (
        configs_of runtime core ++ configs_of runtime solution,
        unknown_charts runtime core solution,
      )
unfolding build_helm_chart_config
build_parts runtime core solution =
    let (configs, unprocessed) = add_manifest runtime [] (keys runtime) core in
    let r = add_manifest runtime configs unprocessed solution in
    ap (λ c. check_unknown (c, r.1))
      (add_manifest-configs runtime configs unprocessed solution
        ∙ ap (λ c. c ++ configs_of runtime solution)
            (add_manifest-configs runtime [] (keys runtime) core))

unknown_charts-none :
    (runtime : RuntimeCharts) (core solution : Option ManifestHelm) (ks : List String)
    → all_listed runtime core solution ≡ true
    → unknown_charts runtime core solution ≡ ks
    → ks ≡ []
unknown_charts-none runtime core solution [] listed e = refl
unknown_charts-none runtime core solution (k ∷ ks) listed e =
    let there : among k (unknown_charts runtime core solution) ≡ true =
      rw e (rw (eq_refl k) refl) in
    let known = among-unknown_charts-keys runtime core solution k there in
    ground (
      arith,
      among-unknown_charts runtime core solution k known,
      all-among (λ j. lists_chart j core || lists_chart j solution) (keys runtime) k listed known,
    )

accepts :
    (configs : List HelmChartConfig) (ks : List String)
    → ks ≡ []
    → check_unknown (configs, ks) ≡ ok configs
unfolding check_unknown
accepts configs ks e = rw e refl

accepted :
    (configs expected : List HelmChartConfig) (ks : List String)
    → check_unknown (expected, ks) ≡ ok configs
    → configs ≡ expected
unfolding check_unknown
accepted configs expected [] e = cc
accepted configs expected (k ∷ ks) e = cc

refuses-some :
    (configs : List HelmChartConfig) (ks : List String) (k : String)
    → among k ks ≡ true
    → IsRefused (check_unknown (configs, ks))
unfolding check_unknown
refuses-some configs [] k there = cc
refuses-some configs (j ∷ ks) k there = tt

-- These configurations are the result, or the configuration of the user is refused.
abbrev pub Decides : Bool → List HelmChartConfig → Result (List HelmChartConfig) → Type 0
Decides true configs r = r ≡ ok configs
Decides false configs r = IsRefused r

-- If every chart that the user configures is listed by one of the two manifests, the result is the
-- configuration of each chart of the core manifest, then of each of the solution's, in their order;
-- otherwise the configuration of the user is refused.
pub build_helm_chart_config-Decides :
    (core solution : Option ManifestHelm) (runtime : RuntimeCharts)
    → Decides
        (all_listed runtime core solution)
        (configs_of runtime core ++ configs_of runtime solution)
        (build_helm_chart_config core solution runtime)
build_helm_chart_config-Decides core solution runtime =
    elim (Bool-cases (all_listed runtime core solution)) [
      | inl listed ↦ rw listed (
          build_parts runtime core solution
          ∙ accepts (configs_of runtime core ++ configs_of runtime solution)
              (unknown_charts runtime core solution)
              (unknown_charts-none runtime core solution _ listed refl))
      | inr unlisted ↦
          let (k, there, fails) =
            some-fails (λ j. lists_chart j core || lists_chart j solution) (keys runtime)
              unlisted in
          rw unlisted (
            subst IsRefused (sym (build_parts runtime core solution)) (
              refuses-some _ (unknown_charts runtime core solution) k
                (ground (arith, among-unknown_charts runtime core solution k there, fails))))
    ]

-- The only result that `BuildHelmChartConfig` can have.
pub build_helm_chart_config-all :
    (core solution : Option ManifestHelm) (runtime : RuntimeCharts) (configs : List HelmChartConfig)
    → build_helm_chart_config core solution runtime ≡ ok configs
    → configs ≡ configs_of runtime core ++ configs_of runtime solution
build_helm_chart_config-all core solution runtime configs e =
    accepted configs (configs_of runtime core ++ configs_of runtime solution)
      (unknown_charts runtime core solution) (sym (build_parts runtime core solution) ∙ e)
