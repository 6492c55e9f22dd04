-- ===== src/Controller/Conditions/Applied.antt =====
-- When the condition Applied says that a release succeeded or failed.
use Prim.Native.String.{◌++◌}
use elemental_lifecycle_mana.Prelude.{
  String, Bool, false, not, Option, none, some, List, ◌≡◌, refl, ◌∙◌, ◌==◌, ◌&&◌, ◌||◌, arith, all,
  any,
}
use elemental_lifecycle_mana.Api.{
  Status, is_true, is_false, status_is_true, status_is_false, State, succeeded, in_progress, failed,
  is_failed, Condition, Release, condition_applied, condition_manifest_resolved,
}
use elemental_lifecycle_mana.Phase.{Phase, lcm, condition_type}
use elemental_lifecycle_mana.Controller.Conditions.{
  ConditionOps, ConditionLaws, option_is_true, has_failed, find_condition, set_condition, Survey,
  clear_survey, survey_phases, apply_survey, apply_manifest, update_applied_condition,
}
use elemental_lifecycle_mana.Controller.Conditions.Effects.{find-set_condition}
use elemental_lifecycle_mana.Controller.Conditions.PhaseWalk.{
  reason_failed, phase_true, phase_failing, all_succeeded-survey_phases, failed_phase-survey_phases,
  any-failing_of_all-true,
}

module _ (ops : ConditionOps) where
  abbrev pub applied_in : Release → Option Condition
  applied_in release = find_condition ops condition_applied release

  abbrev pub lcm_failed : Release → Bool
  lcm_failed release = has_failed (find_condition ops (condition_type lcm) release)

  abbrev pub manifest_in : Release → Option Condition
  manifest_in release = find_condition ops condition_manifest_resolved release

module _ (ops : ConditionOps) (laws : ConditionLaws ops) where
  pub option_is_true-set_applied :
      (release : Release) (status : Status) (reason : State) (message : String)
      → option_is_true
          (applied_in ops (set_condition ops release condition_applied status reason message))
        ≡ status_is_true status
  option_is_true-set_applied release status reason message = rw (
      find-set_condition ops laws release condition_applied status reason message condition_applied)

  has_failed-set_applied :
      (release : Release) (status : Status) (reason : State) (message : String)
      → has_failed
          (applied_in ops (set_condition ops release condition_applied status reason message))
        ≡ (status_is_false status && is_failed reason)
  has_failed-set_applied release status reason message = rw (
      find-set_condition ops laws release condition_applied status reason message condition_applied)

  apply_survey-true :
      (release : Release) (v : Survey)
      → option_is_true (applied_in ops release) ≡ false
      → option_is_true (applied_in ops (apply_survey ops release v)) ≡ v.all_succeeded
  apply_survey-true release v before =
      unfold apply_survey in
      ground (
        arith,
        option_is_true-set_applied release is_true succeeded
            "All upgrade phases completed successfully",
        option_is_true-set_applied release is_false failed
            ("Phase " ++ (v.failed_phase ++ " failed")),
        option_is_true-set_applied release is_false in_progress
            ("Phase " ++ (v.in_progress_phase ++ " is in progress")),
      )

  apply_survey-failed :
      (release : Release) (v : Survey)
      → has_failed (applied_in ops release) ≡ false
      → has_failed (applied_in ops (apply_survey ops release v))
        ≡ (not v.all_succeeded && not (v.failed_phase == ""))
  apply_survey-failed release v before =
      unfold apply_survey in
      ground (
        arith,
        has_failed-set_applied release is_true succeeded
            "All upgrade phases completed successfully",
        has_failed-set_applied release is_false failed ("Phase " ++ (v.failed_phase ++ " failed")),
        has_failed-set_applied release is_false in_progress
            ("Phase " ++ (v.in_progress_phase ++ " is in progress")),
      )

  apply_manifest-true :
      (release : Release) (ps : List Phase) (m : Option Condition)
      → option_is_true (applied_in ops release) ≡ false
      → option_is_true (applied_in ops (apply_manifest ops release ps m))
        ≡ (not (reason_failed m) && option_is_true m && all (phase_true ops release) ps)
  unfolding apply_manifest
  apply_manifest-true release ps none before = before
  apply_manifest-true release ps (some c) before = ground (
    arith,
    option_is_true-set_applied release is_false failed c.message,
    apply_survey-true release (survey_phases ops release clear_survey ps),
    all_succeeded-survey_phases ops release clear_survey ps,
  )

  apply_manifest-failed :
      (release : Release) (ps : List Phase) (m : Option Condition)
      → has_failed (applied_in ops release) ≡ false
      → has_failed (applied_in ops (apply_manifest ops release ps m))
        ≡ (reason_failed m || option_is_true m && any (phase_failing ops release) ps)
  unfolding apply_manifest
  apply_manifest-failed release ps none before = before
  apply_manifest-failed release ps (some c) before = ground (
    arith,
    has_failed-set_applied release is_false failed c.message,
    apply_survey-failed release (survey_phases ops release clear_survey ps),
    all_succeeded-survey_phases ops release clear_survey ps,
    failed_phase-survey_phases ops release clear_survey ps,
    any-failing_of_all-true ops release ps,
  )

  -- A release whose Applied condition was not True has it True after the update exactly when LCM
  -- has not failed, the manifest is resolved, and every phase of the pipeline has a True condition,
  -- by the documented laws of the conditions' library.
  pub update_applied_condition-true :
      (release : Release) (phases : List Phase)
      → option_is_true (applied_in ops release) ≡ false
      → option_is_true (applied_in ops (update_applied_condition ops release phases)) ≡ (
          not (lcm_failed ops release)
          && not (reason_failed (manifest_in ops release))
          && option_is_true (manifest_in ops release)
          && all (phase_true ops release) phases)
  unfolding update_applied_condition
  update_applied_condition-true release phases before = ground (
    arith,
    option_is_true-set_applied release is_false failed "Upgrade failed as LCM upgrade failed",
    apply_manifest-true release phases (manifest_in ops release),
  )

  -- A release whose Applied condition did not say Failed says so after the update exactly when LCM
  -- failed, the manifest failed, or the manifest is resolved and some phase failed, by the
  -- documented laws of the conditions' library.
  pub update_applied_condition-failed :
      (release : Release) (phases : List Phase)
      → has_failed (applied_in ops release) ≡ false
      → has_failed (applied_in ops (update_applied_condition ops release phases)) ≡ (
          lcm_failed ops release
          || reason_failed (manifest_in ops release)
          || option_is_true (manifest_in ops release) && any (phase_failing ops release) phases)
  unfolding update_applied_condition
  update_applied_condition-failed release phases before = ground (
    arith,
    has_failed-set_applied release is_false failed "Upgrade failed as LCM upgrade failed",
    apply_manifest-failed release phases (manifest_in ops release),
  )

  module _ (release : Release) (k : String) (other : (condition_applied == k) ≡ false) where
    find-set_applied :
        (status : Status) (reason : State) (message : String)
        → find_condition ops k (set_condition ops release condition_applied status reason message)
          ≡ find_condition ops k release
    find-set_applied status reason message =
        find-set_condition ops laws release condition_applied status reason message k ∙ rw other

    find-apply_survey :
        (v : Survey)
        → find_condition ops k (apply_survey ops release v) ≡ find_condition ops k release
    find-apply_survey v =
        unfold apply_survey in
        ground (
          arith,
          find-set_applied is_true succeeded "All upgrade phases completed successfully",
          find-set_applied is_false failed ("Phase " ++ (v.failed_phase ++ " failed")),
          find-set_applied is_false in_progress
              ("Phase " ++ (v.in_progress_phase ++ " is in progress")),
        )

    find-apply_manifest :
        (phases : List Phase) (m : Option Condition)
        → find_condition ops k (apply_manifest ops release phases m) ≡ find_condition ops k release
    unfolding apply_manifest
    find-apply_manifest phases none = refl
    find-apply_manifest phases (some c) = ground (
      arith,
      find-set_applied is_false failed c.message,
      find-apply_survey (survey_phases ops release clear_survey phases),
    )

    -- Whatever it decides, the update leaves every condition but Applied as it was.
    pub update_applied_condition-frame :
        (phases : List Phase)
        → find_condition ops k (update_applied_condition ops release phases)
          ≡ find_condition ops k release
    unfolding update_applied_condition
    update_applied_condition-frame phases = ground (
      arith,
      find-set_applied is_false failed "Upgrade failed as LCM upgrade failed",
      find-apply_manifest phases (manifest_in ops release),
    )
