-- ===== src/Examples/Controller.antt =====
-- Examples of the reconciler of releases: a release that is current, one of a new generation, and
-- one whose self-upgrade is still in progress.
use elemental_lifecycle_mana.Prelude.{
  suc, String, some, List, [], ◌∷◌, ◌++◌, ◌≡◌, refl, ◌↔◌, false, ◌&&◌, ◌||◌, any,
}
use elemental_lifecycle_mana.Api.{
  is_true, in_progress, succeeded, Condition, Release, condition_manifest_resolved,
}
use elemental_lifecycle_mana.Errors.{message, ok, err, M}
use elemental_lifecycle_mana.Phase.{
  Phase, lcm, os, kubernetes, helm_charts, PhaseStatus, PhaseStates,
}
use elemental_lifecycle_mana.Phase.Laws.{state_of}
use elemental_lifecycle_mana.Pipeline.{PhaseHandler, reconcile_pipeline}
use elemental_lifecycle_mana.Pipeline.Order.{
  IsComplete, AllComplete, reconcile_pipeline-gated, reconcile_pipeline-IsComplete_iff,
}
use elemental_lifecycle_mana.Controller.Conditions.{
  find_condition, update_applied_condition, update_phase_conditions, option_is_true, has_failed,
}
use elemental_lifecycle_mana.Controller.Conditions.Applied.{
  applied_in, manifest_in, lcm_failed, update_applied_condition-failed,
}
use elemental_lifecycle_mana.Controller.Conditions.PhaseWalk.{reason_failed, phase_failing}
use elemental_lifecycle_mana.Controller.Conditions.Effects.{update_phase_conditions-order}
use elemental_lifecycle_mana.Controller.Manifests.{WithRaw}
use elemental_lifecycle_mana.Controller.Reconcile.{Calls, reconcile, reconcile_normal}
use elemental_lifecycle_mana.Controller.Reconcile.Version.{
  KeepsOrCompleted, reconcile_normal-version,
}
use elemental_lifecycle_mana.Controller.Reconcile.Applied.{
  SaysApplied, reconcile_normal-SaysApplied,
}
use elemental_lifecycle_mana.Controller.Reconcile.Gates.{
  OnlyStarts, with_steps, reconcile_normal-lcm_first, reconcile_normal-new_generation,
}
use elemental_lifecycle_mana.Controller.Reconcile.Saved.{Explains, reconcile-Explains}
use elemental_lifecycle_mana.Controller.Reconcile.Frame.{KeepsSpec, reconcile_normal-KeepsSpec}
use elemental_lifecycle_mana.Controller.Wiring.{release_reconciler}
use elemental_lifecycle_mana.Examples.World.{
  World, list_ops, list_ops-ConditionLaws, small_release, cluster, helm_store, libraries,
  components, config, manifest,
}

-- The reconciler over the small cluster.
abbrev reconciler : Calls (WithRaw World)
reconciler = release_reconciler libraries cluster helm_store components

abbrev handler : Phase → PhaseStatus → PhaseHandler World
handler p s = record { phase = p; reconcile = λ c w. (ok s, suc w) }

abbrev done_status : PhaseStatus
done_status = record { state = succeeded; message = "" }

abbrev running_status : PhaseStatus
running_status = record { state = in_progress; message = "" }

abbrev before_kubernetes : List (PhaseHandler World)
before_kubernetes = handler os done_status ∷ []

abbrev after_kubernetes : List (PhaseHandler World)
after_kubernetes = handler helm_charts done_status ∷ []

reconcile_pipeline-gated_example :
    reconcile_pipeline
      (before_kubernetes ++ handler kubernetes running_status ∷ after_kubernetes)
      (some config)
      0
    ≡ reconcile_pipeline
        (before_kubernetes ++ handler kubernetes running_status ∷ [])
        (some config)
        0
reconcile_pipeline-gated_example =
    reconcile_pipeline-gated config before_kubernetes after_kubernetes
      (handler kubernetes running_status) 0 refl

reconcile_pipeline-IsComplete_example :
    IsComplete (reconcile_pipeline (before_kubernetes ++ after_kubernetes) (some config) 0).0
    ↔ AllComplete config (before_kubernetes ++ after_kubernetes) 0
reconcile_pipeline-IsComplete_example =
    reconcile_pipeline-IsComplete_iff config (before_kubernetes ++ after_kubernetes) 0

reconcile_normal-version_example :
    KeepsOrCompleted reconciler "1.0.0" (reconcile_normal reconciler small_release ([], 0)).0
reconcile_normal-version_example = reconcile_normal-version reconciler small_release ([], 0)

reconcile_normal-SaysApplied_example :
    SaysApplied list_ops
      (os ∷ kubernetes ∷ helm_charts ∷ [])
      (reconcile_normal reconciler small_release ([], 0)).0.release
unfolding release_reconciler elemental_lifecycle_mana.Examples.World.find_in
reconcile_normal-SaysApplied_example =
    reconcile_normal-SaysApplied reconciler list_ops-ConditionLaws small_release ([], 0) refl refl

reconcile_normal-KeepsSpec_example :
    KeepsSpec small_release 2 (reconcile_normal reconciler small_release ([], 0)).0.release
reconcile_normal-KeepsSpec_example = reconcile_normal-KeepsSpec reconciler small_release ([], 0)

-- A self-upgrade that has not ended.
abbrev waiting : Calls World
waiting = record {
  ops = list_ops;
  phases = os ∷ kubernetes ∷ helm_charts ∷ [];
  lcm_config = λ release w. (ok config, suc w);
  upgrade_lcm = λ c w. (ok running_status, suc w);
  get_manifest = λ release w. (ok manifest, suc w);
  parse_config = λ m release w. (ok config, suc w);
  cleanup = λ name version w. (ok tt, suc w);
  run_pipeline = λ c w. (ok [], suc w);
}

abbrev fails : {A B : Type 0} → B → M World A
fails b w = (err (message "must not run"), w)

reconcile_normal-lcm_first_example :
    reconcile_normal waiting small_release 0
    ≡ reconcile_normal
        (with_steps waiting fails (λ m r. fails r) (λ n v. fails n) fails)
        small_release
        0
unfolding elemental_lifecycle_mana.Examples.World.find_in
reconcile_normal-lcm_first_example =
    reconcile_normal-lcm_first waiting fails (λ m r. fails r) (λ n v. fails n) fails small_release 0
      refl (λ c v e. refl)

abbrev edited_release : Release
edited_release = record small_release { generation = 3 }

reconcile_normal-new_generation_example :
    OnlyStarts waiting edited_release 0 (reconcile_normal waiting edited_release 0)
reconcile_normal-new_generation_example =
    reconcile_normal-new_generation waiting list_ops-ConditionLaws edited_release 0 refl

abbrev phases : List Phase
phases = os ∷ kubernetes ∷ []

-- The manifest is resolved, and the OS phase is complete.
abbrev resolved_release : Release
resolved_release =
    let st = small_release.status in
    let condition : String → Condition = λ kind. record {
      kind = kind;
      status = is_true;
      observed_generation = 2;
      reason = succeeded;
      message = "";
    } in
    record small_release {
      status = record st {
        conditions = condition condition_manifest_resolved ∷ condition "OSUpgraded" ∷ [];
      };
    }

update_applied_condition-failed_example :
    has_failed (applied_in list_ops (update_applied_condition list_ops resolved_release phases)) ≡ (
      lcm_failed list_ops resolved_release
      || reason_failed (manifest_in list_ops resolved_release)
      || option_is_true (manifest_in list_ops resolved_release)
        && any (phase_failing list_ops resolved_release) phases)
unfolding elemental_lifecycle_mana.Examples.World.find_in
update_applied_condition-failed_example =
    update_applied_condition-failed list_ops list_ops-ConditionLaws resolved_release phases refl

abbrev one_order : PhaseStates
one_order = (os, done_status) ∷ (kubernetes, running_status) ∷ []

abbrev other_order : PhaseStates
other_order = (kubernetes, running_status) ∷ (os, done_status) ∷ []

same_states : (p : Phase) → state_of p one_order ≡ state_of p other_order
same_states lcm = refl
same_states os = refl
same_states kubernetes = refl
same_states helm_charts = refl

update_phase_conditions-order_example :
    find_condition list_ops "OSUpgraded" (update_phase_conditions list_ops small_release one_order)
    ≡ find_condition list_ops "OSUpgraded"
        (update_phase_conditions list_ops small_release other_order)
unfolding elemental_lifecycle_mana.Phase.condition_type
update_phase_conditions-order_example =
    update_phase_conditions-order list_ops list_ops-ConditionLaws small_release one_order
      other_order (refl, (refl, tt)) (refl, (refl, tt)) same_states os

abbrev keep_trying : M World (Unit {0}) → M World (Unit {0})
keep_trying m = m

-- The status always counts as changed here, and is saved.
reconcile-Explains_example :
    Explains cluster keep_trying
      (λ a b. false)
      (reconcile_normal waiting)
      ""
      "release"
      (some 30)
      (cluster.get_release "" "release" 0)
unfolding reconcile reconcile_normal elemental_lifecycle_mana.Examples.World.find_in
reconcile-Explains_example =
    reconcile-Explains cluster keep_trying (λ a b. false) (reconcile_normal waiting) "" "release" 0
      (some 30) refl
