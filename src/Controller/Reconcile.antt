-- ===== src/Controller/Reconcile.antt =====
-- `Reconcile` and `reconcileNormal` of internal/controller/release_controller.go. Go changes the
-- release in place and returns a result or an error; here both are parts of an outcome.
pub mod Progress
pub mod Version
pub mod Gates
pub mod Closed
pub mod Saved
pub mod Frame
pub mod Coherent
pub mod Retry
pub mod Applied
pub mod Trace
use Prim.Native.String.{◌++◌}
use elemental_lifecycle_mana.Prelude.{
  ℕ, String, Bool, false, Option, none, some, List, [], ◌∷◌, ◌==◌, ◌&&◌, not, nat_eq, if◌then◌else◌,
}
use elemental_lifecycle_mana.Api.{
  is_true, is_false, succeeded, failed, is_succeeded, Release, ReleaseStatus, condition_applied,
  condition_manifest_resolved,
}
use elemental_lifecycle_mana.Errors.{
  Error, error_text, is_panic, is_not_found, as_runtime_config, phase_error, wrap, join, Result, ok,
  err, M, pure, throw, from_result, attempt,
}
use elemental_lifecycle_mana.Phase.{
  Phase, lcm, condition_type, PhaseStatus, PhaseStates, all_complete,
}
use elemental_lifecycle_mana.Config.{Config, ResolvedManifest}
use elemental_lifecycle_mana.Cluster.{Client}
use elemental_lifecycle_mana.Controller.Conditions.{
  ConditionOps, set_condition, initialize_pending_conditions, set_phase_condition_from_error,
  update_phase_condition, update_phase_conditions, update_applied_condition,
}

-- ctrl.Result: the seconds after which to run again, if any.
abbrev pub Requeue : Type 0
Requeue = Option ℕ

abbrev pub requeue_interval : ℕ
requeue_interval = 30

pub record Outcome : Type 0 where
  pub release : Release
  pub result : Result Requeue

-- What `reconcileNormal` calls: the conditions' library, the phases of the pipeline, and the methods
-- of the reconciler, each a computation on the world.
pub record Calls (W : Type 0) : Type 0 where
  pub ops : ConditionOps
  pub phases : List Phase
  pub lcm_config : Release → M W Config
  pub upgrade_lcm : Config → M W PhaseStatus
  pub get_manifest : Release → M W ResolvedManifest
  pub parse_config : ResolvedManifest → Release → M W Config
  pub cleanup : String → String → M W (Unit {0})
  pub run_pipeline : Config → M W PhaseStates

module _ {W : Type 0} where
  abbrev pub hand_over : {A : Type 0} → Result A × W → (Result A → W → Outcome × W) → Outcome × W
  hand_over (r, w) f = f r w

  -- `x, err := m(…)`, followed by code that always ends with an outcome.
  abbrev pub after : {A : Type 0} → M W A → (Result A → W → Outcome × W) → W → Outcome × W
  after m f w = hand_over (m w) f

  abbrev pub return_with : Release → Result Requeue → W → Outcome × W
  return_with release r w = (record { release = release; result = r }, w)

module _ {W : Type 0} (calls : Calls W) where
  abbrev pub fail_config : String → Release → Error → Option String → W → Outcome × W
  fail_config what release e none = return_with release (err (wrap what e))
  fail_config what release e (some text) =
      return_with (set_condition calls.ops release condition_applied is_false failed text) (ok none)

  abbrev pub record_version : Config → PhaseStates → Release → W → Outcome × W
  record_version config states release =
      let st = release.status in
      let upgraded = record release { status = record st { version = config.release_version } } in
      if all_complete states
      then return_with upgraded (ok none)
      else return_with release (ok (some requeue_interval))

  unfoldable pub after_pipeline : Release → Config → Result PhaseStates → W → Outcome × W
  unfolding all_complete update_phase_conditions set_phase_condition_from_error
  after_pipeline release config (err e) =
      return_with (set_phase_condition_from_error calls.ops release e)
        (err (wrap "reconciling upgrade" e))
  after_pipeline release config (ok states) =
      record_version config states (update_phase_conditions calls.ops release states)

  unfoldable pub after_cleanup : Release → Config → Result (Unit {0}) → W → Outcome × W
  unfolding after_pipeline
  after_cleanup release config (err e) =
      return_with release
        (err (wrap ("cleaning up plans for version " ++ release.status.version) e))
  after_cleanup release config (ok u) =
      after (calls.run_pipeline config) (after_pipeline release config)

  unfoldable pub after_config : Release → Result Config → W → Outcome × W
  unfolding after_cleanup
  after_config release (err e) =
      fail_config "parsing upgrade config" release e (as_runtime_config e)
  after_config release (ok config) =
      let old = release.status.version in
      let clean = not (old == "") && not (old == config.release_version) in
      if clean
      then after (calls.cleanup release.name old) (after_cleanup release config)
      else after_cleanup release config (ok tt)

  abbrev pub resolve_release : Release → Release
  resolve_release release =
      set_condition calls.ops release condition_manifest_resolved is_true succeeded
        "Release manifest retrieved successfully"

  unfoldable pub after_manifest : Release → Result ResolvedManifest → W → Outcome × W
  unfolding after_config set_condition
  after_manifest release (err e) =
      return_with
        (set_condition calls.ops release condition_manifest_resolved is_false failed
          ("Failed to retrieve release manifest: " ++ error_text e))
        (err (wrap "retrieving release manifest" e))
  after_manifest release (ok manifest) =
      let resolved = resolve_release release in
      after (calls.parse_config manifest resolved) (after_config resolved)

  -- From `getOrRetrieveManifest` on.
  unfoldable pub upgrade_release : Release → W → Outcome × W
  unfolding after_manifest
  upgrade_release release = after (calls.get_manifest release) (after_manifest release)

  unfoldable pub after_lcm : Release → Result PhaseStatus → W → Outcome × W
  unfolding upgrade_release update_phase_condition set_phase_condition_from_error
  after_lcm release (err e) =
      return_with (set_phase_condition_from_error calls.ops release e) (ok none)
  after_lcm release (ok status) =
      let updated = update_phase_condition calls.ops release lcm status in
      if not (is_succeeded status.state)
      then return_with updated (ok (some requeue_interval))
      else upgrade_release updated

  unfoldable pub after_lcm_config : Release → Result Config → W → Outcome × W
  unfolding after_lcm set_condition
  after_lcm_config release (err e) =
      fail_config "parsing upgrade config for LCM upgrade" release e (as_runtime_config e)
  after_lcm_config release (ok config) = after (calls.upgrade_lcm config) (after_lcm release)

  -- What follows the check of the generation.
  unfoldable pub reconcile_current : Release → W → Outcome × W
  unfolding after_lcm_config upgrade_release condition_type
  reconcile_current release =
      if not (calls.ops.holds (condition_type lcm) release.status.conditions)
      then after (calls.lcm_config release) (after_lcm_config release)
      else upgrade_release release

  -- The deferred `updateAppliedCondition`.
  abbrev pub with_applied : Outcome × W → Outcome × W
  with_applied (o, w) =
      (record o { release = update_applied_condition calls.ops o.release calls.phases }, w)

  abbrev pub start_generation : Release → Release
  start_generation release =
      let st = release.status in
      initialize_pending_conditions calls.ops
        (record release {
          status = record st { observed_generation = release.generation; conditions = [] };
        })
        calls.phases

  unfoldable pub reconcile_normal : Release → W → Outcome × W
  unfolding reconcile_current update_applied_condition initialize_pending_conditions
  reconcile_normal release w =
      if not (nat_eq release.status.observed_generation release.generation)
      then return_with (start_generation release) (ok (some 1)) w
      else with_applied (reconcile_current release w)

-- `reconcileLCM`: `upgrade` is the reconciler of Helm charts in its strict form.
abbrev pub lcm_outcome : {W : Type 0} → Result PhaseStatus → M W PhaseStatus
lcm_outcome (ok status) = pure status
lcm_outcome (err e) = throw (phase_error lcm e)

unfoldable pub reconcile_lcm :
    {W : Type 0} → (Option Config → M W PhaseStatus) → Config → M W PhaseStatus
reconcile_lcm upgrade config = attempt (upgrade (some config)) lcm_outcome

module _ {W : Type 0} (client : Client W)
    (retry_on_conflict : M W (Unit {0}) → M W (Unit {0})) where
  abbrev pub write_latest : ReleaseStatus → Result Release → M W (Unit {0})
  write_latest status (err e) = if is_not_found e then pure tt else throw e
  write_latest status (ok latest) = client.update_release_status (record latest { status = status })

  -- `retry.RetryOnConflict` is a parameter.
  unfoldable pub update_release_status : String → String → ReleaseStatus → M W (Unit {0})
  update_release_status namespace name status =
      retry_on_conflict (attempt (client.get_release namespace name) (write_latest status))

  -- A panic leaves `Reconcile` before the status is written.
  abbrev pub has_panicked : Result Requeue → Bool
  has_panicked (ok q) = false
  has_panicked (err e) = is_panic e

  abbrev pub join_result : Result Requeue → Error → Error
  join_result (ok q) e = e
  join_result (err d) e = join d e

  abbrev pub after_status : Result Requeue → Result (Unit {0}) → M W Requeue
  after_status r (err e) = throw (join_result r e)
  after_status r (ok u) = from_result r

  module _ (status_equal : ReleaseStatus → ReleaseStatus → Bool)
      (normal : Release → W → Outcome × W) where
    -- `status_equal` is Semantic.DeepEqual, `normal` is `reconcileNormal`.
    abbrev pub save_outcome : String → String → Release → Outcome × W → Result Requeue × W
    save_outcome namespace name release (o, w) =
        (if not (has_panicked o.result) && not (status_equal release.status o.release.status)
            then attempt (update_release_status namespace name o.release.status)
                (after_status o.result)
            else from_result o.result)
          w

    abbrev pub after_fetch : String → String → Result Release → M W Requeue
    after_fetch namespace name (err e) w = (if is_not_found e then pure none else throw e) w
    after_fetch namespace name (ok release) w =
        save_outcome namespace name release (normal release w)

    unfoldable pub reconcile : String → String → M W Requeue
    unfolding update_release_status
    reconcile namespace name =
        attempt (client.get_release namespace name) (after_fetch namespace name)
