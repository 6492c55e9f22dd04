-- ===== src/Examples/Rounds.antt =====
-- The rounds of the reconciler of cmd/main.go over a cluster whose plans take some reads to complete,
-- up to the last one.
use elemental_lifecycle_mana.Prelude.{
  ℕ, zero, suc, String, false, Option, none, some, [], ◌∷◌, ◌≡◌, refl, sym, subst, inl, inr, arith,
  Option-cases, lookup,
}
use elemental_lifecycle_mana.Api.{Release}
use elemental_lifecycle_mana.Errors.{not_found, release_not_found, ok, err, M}
use elemental_lifecycle_mana.Cluster.{Plan, Client}
use elemental_lifecycle_mana.Helm.{HelmClient}
use elemental_lifecycle_mana.Plan.{base_plan}
use elemental_lifecycle_mana.Reconcilers.Kubernetes.{ComponentsHandler}
use elemental_lifecycle_mana.Reconcilers.Rke2.Availability.{available}
use elemental_lifecycle_mana.Config.{Config, ResolvedManifest, no_runtime_config}
use elemental_lifecycle_mana.Helm.Values.{end}
use elemental_lifecycle_mana.Pipeline.Progress.{PipelineMoves}
use elemental_lifecycle_mana.Controller.Manifests.{RawManifests, WithRaw}
use elemental_lifecycle_mana.Controller.Reconcile.{Calls}
use elemental_lifecycle_mana.Controller.Reconcile.Progress.{
  Asks, AnswersWith, Answers, LcmMoves, Works,
}
use elemental_lifecycle_mana.Controller.Wiring.{Libraries, release_reconciler}
use elemental_lifecycle_mana.Controller.Life.Drive.{EndsAt, drive, drive-EndsAt}
use elemental_lifecycle_mana.Examples.World.{
  nodes, complete_plan, snapshot, World, list_ops-ConditionLaws, small_release, cluster, libraries,
  manifest, config, chart_config_for,
}

-- In this world a number of reads find plans still running; it counts those that are left.
abbrev waiting : String → M World Plan
waiting name zero = (ok (complete_plan name), zero)
waiting name (suc n) = (ok (base_plan name false), n)

abbrev at_once : {A : Type 0} → A → M World A
at_once a w = (ok a, w)

abbrev absent : {A : Type 0} → M World A
absent w = (err (not_found "not found"), w)

abbrev busy_cluster : Client World
busy_cluster = record cluster {
  list_nodes = at_once nodes;
  list_first_node = at_once nodes;
  list_selected_nodes = λ s. at_once nodes;
  get_plan = λ namespace name. waiting name;
  list_plans = λ namespace labels. at_once (complete_plan "old" ∷ []);
  delete_plan = λ p. at_once tt;
  get_config_map = λ namespace name. absent;
  create_config_map = λ m. at_once tt;
}

abbrev busy_helm : HelmClient World
busy_helm = record { retrieve_release = λ name w. (err release_not_found, w) }

abbrev busy_components : ComponentsHandler World
busy_components = record {
  generate_snapshot = λ config. at_once snapshot;
  reconcile_availability = λ version s. at_once available;
}

abbrev busy_libraries : Libraries World
busy_libraries = record libraries {
  read_manifest = λ ref. at_once "manifest";
  retrieve_manifest = λ registry version. at_once manifest;
}

abbrev reconciler : Calls (WithRaw World)
reconciler = release_reconciler busy_libraries busy_cluster busy_helm busy_components

abbrev left : WithRaw World → ℕ
left w = w.1

abbrev lcm_target : Config
lcm_target = record config {
  os = none;
  kubernetes = none;
  helm_charts =
      record {
        chart = record {
          name = "";
          chart = "elemental-lifecycle-manager";
          version = "1.1.0";
          namespace = "";
          repository = "";
          values = end;
          depends_on = [];
        };
        repository = none;
        runtime_config = no_runtime_config;
      }
      ∷ [];
}

abbrev target : Config
target = record config { helm_charts = chart_config_for "monitoring" [] ∷ [] }

abbrev IsLcmTarget : Config → Type 0
IsLcmTarget c = c ≡ lcm_target

abbrev IsTarget : Config → Type 0
IsTarget c = c ≡ target

abbrev IsManifest : ResolvedManifest → Type 0
IsManifest m = m ≡ manifest

lcm_config-IsLcmTarget :
    (release : Release) (raw : RawManifests) (w : World)
    → Asks left small_release release
    → AnswersWith left IsLcmTarget w (reconciler.lcm_config release (raw, w))
unfolding release_reconciler
lcm_config-IsLcmTarget release raw w (name, namespace, spec) =
    elim (Option-cases (lookup "registry.example/release:1.1.0" raw)) [
      | inl e ↦ rw (name, namespace, spec, e) (refl, omega arith)
      | inr (text, e) ↦ rw (name, namespace, spec, e) (refl, omega arith)
    ]

upgrade_lcm-moves :
    (c : Config) (raw : RawManifests) (w : World)
    → IsLcmTarget c
    → LcmMoves left w (reconciler.upgrade_lcm c (raw, w))
unfolding release_reconciler elemental_lifecycle_mana.Reconcilers.HelmCharts.Sort.sort_chart_configs
    elemental_lifecycle_mana.Reconcilers.HelmCharts.Sort.visit
    elemental_lifecycle_mana.Prelude.insert
    elemental_lifecycle_mana.Reconcilers.HelmCharts.Chart.reconcile_chart
    elemental_lifecycle_mana.Errors.is_release_not_found
    elemental_lifecycle_mana.Reconcilers.HelmCharts.Aggregate.aggregate_results
upgrade_lcm-moves c raw w e = rw e (omega arith)

get_manifest-IsManifest :
    (release : Release) (raw : RawManifests) (w : World)
    → AnswersWith left IsManifest w (reconciler.get_manifest release (raw, w))
unfolding release_reconciler elemental_lifecycle_mana.Errors.is_not_found
get_manifest-IsManifest release raw w = (refl, omega arith)

parse_config-IsTarget :
    (m : ResolvedManifest) (release : Release) (raw : RawManifests) (w : World)
    → IsManifest m
    → Asks left small_release release
    → AnswersWith left
        (λ c. (c.release_version ≡ "1.1.0") × IsTarget c)
        w
        (reconciler.parse_config m release (raw, w))
unfolding release_reconciler elemental_lifecycle_mana.Controller.Drain.count_nodes
    elemental_lifecycle_mana.Controller.Drain.drain_opts_for
    elemental_lifecycle_mana.Config.check_unknown elemental_lifecycle_mana.Config.add_manifest
    elemental_lifecycle_mana.Controller.Configs.without_lcm_charts
parse_config-IsTarget m release raw w e (name, namespace, spec) =
    subst
      (λ n.
        AnswersWith left (λ c. (c.release_version ≡ "1.1.0") × IsTarget c) w
          (reconciler.parse_config n release (raw, w)))
      (sym e) (rw (name, namespace, spec) ((refl, refl), omega arith))

run_pipeline-moves :
    (c : Config) (raw : RawManifests) (w : World)
    → IsTarget c
    → PipelineMoves left w (reconciler.run_pipeline c (raw, w))
unfolding release_reconciler elemental_lifecycle_mana.Reconcilers.HelmCharts.Sort.sort_chart_configs
    elemental_lifecycle_mana.Reconcilers.HelmCharts.Sort.visit
    elemental_lifecycle_mana.Prelude.insert
    elemental_lifecycle_mana.Reconcilers.HelmCharts.Chart.reconcile_chart
    elemental_lifecycle_mana.Errors.is_release_not_found
    elemental_lifecycle_mana.Reconcilers.HelmCharts.Aggregate.aggregate_results
    elemental_lifecycle_mana.Plan.os_control_plane
    elemental_lifecycle_mana.Plan.Script.parse_upgrade_script
    elemental_lifecycle_mana.Reconcilers.Nodes.is_control_plane_only_cluster
    elemental_lifecycle_mana.Plan.os_worker
    elemental_lifecycle_mana.Reconcilers.Nodes.all_nodes_at_kubernetes_version
    elemental_lifecycle_mana.Phase.all_complete elemental_lifecycle_mana.Phase.put_state
run_pipeline-moves c raw zero e = rw e (omega arith)
run_pipeline-moves c raw (suc n) e = rw e (omega arith)

cleanup-Answers :
    (release : Release) (raw : RawManifests) (w : World)
    → Asks left small_release release
    → Answers left w (reconciler.cleanup release.name release.status.version (raw, w))
unfolding release_reconciler
cleanup-Answers release raw w asks = (tt, omega arith)

reconciler-Works : Works left small_release IsLcmTarget IsTarget IsManifest reconciler
reconciler-Works = record {
  lcm_config = λ release w asks. lcm_config-IsLcmTarget release w.0 w.1 asks;
  upgrade_lcm = λ c w fits. upgrade_lcm-moves c w.0 w.1 fits;
  get_manifest = λ release w asks. get_manifest-IsManifest release w.0 w.1;
  parse_config = λ m release w lists asks. parse_config-IsTarget m release w.0 w.1 lists asks;
  cleanup = λ release w asks. cleanup-Answers release w.0 w.1 asks;
  run_pipeline = λ c w fits. run_pipeline-moves c w.0 w.1 fits;
}

drive-EndsAt_example : EndsAt "1.1.0" 2 (drive reconciler 9 small_release ([], 3))
unfolding release_reconciler
drive-EndsAt_example =
    drive-EndsAt left small_release IsLcmTarget IsTarget IsManifest reconciler reconciler-Works
      list_ops-ConditionLaws 9 small_release ([], 3) (refl, refl, refl) (omega arith)
