-- ===== src/Controller/Conditions.antt =====
-- internal/controller/condition.go: the conditions of a Release.
pub mod Closed
pub mod Effects
pub mod Initial
pub mod PhaseWalk
pub mod Applied
use Prim.Native.String.{◌++◌}
use elemental_lifecycle_mana.Prelude.{
  String, Bool, true, false, Option, none, some, List, [], ◌∷◌, ◌≡◌, ◌==◌, ◌&&◌, not, is_some,
  if◌then◌else◌,
}
use elemental_lifecycle_mana.Api.{
  Status, is_true, is_false, status_is_true, status_is_false, State, pending, in_progress,
  succeeded, failed, is_failed, is_in_progress, is_done, Condition, Release, condition_applied,
  condition_manifest_resolved,
}
use elemental_lifecycle_mana.Phase.{Phase, lcm, condition_type, PhaseStatus, PhaseStates}
use elemental_lifecycle_mana.Errors.{Error, error_text, as_phase_error}

-- The package k8s.io/apimachinery/pkg/api/meta: `set` is SetStatusCondition, `find` is
-- FindStatusCondition and `holds` is IsStatusConditionTrue.
pub record ConditionOps : Type 0 where
  pub set : Condition → List Condition → List Condition
  pub find : String → List Condition → Option Condition
  pub holds : String → List Condition → Bool

abbrev pub option_is_true : Option Condition → Bool
option_is_true none = false
option_is_true (some c) = status_is_true c.status

-- What its documentation says: a condition is stored under its type, other types keep theirs.
pub record ConditionLaws (ops : ConditionOps) : Type 0 where
  pub find_set :
      (c : Condition) (k : String) (cs : List Condition)
      → ops.find k (ops.set c cs) ≡ (if c.kind == k then some c else ops.find k cs)
  pub find_nil : (k : String) → ops.find k [] ≡ none
  pub holds_find :
      (k : String) (cs : List Condition) → ops.holds k cs ≡ option_is_true (ops.find k cs)

-- What the loop of `updateAppliedCondition` finds: whether all phases succeeded, the last failed
-- one and the first that is in progress.
pub record Survey : Type 0 where
  pub all_succeeded : Bool
  pub failed_phase : String
  pub in_progress_phase : String

unfoldable pub note_phase : Survey → String → Option Condition → Survey
note_phase v kind none = record v { all_succeeded = false }
note_phase v kind (some c) =
    if status_is_true c.status
    then v
    else if is_failed c.reason
    then record v { all_succeeded = false; failed_phase = kind }
    else if is_in_progress c.reason && v.in_progress_phase == ""
    then record v { all_succeeded = false; in_progress_phase = kind }
    else record v { all_succeeded = false }

abbrev pub clear_survey : Survey
clear_survey = record { all_succeeded = true; failed_phase = ""; in_progress_phase = "" }

abbrev pub has_failed : Option Condition → Bool
has_failed none = false
has_failed (some c) = status_is_false c.status && is_failed c.reason

module _ (ops : ConditionOps) where
  abbrev pub find_condition : String → Release → Option Condition
  find_condition kind release = ops.find kind release.status.conditions

  unfoldable pub set_condition : Release → String → Status → State → String → Release
  set_condition release kind status reason message =
      let c : Condition = record {
        kind = kind;
        status = status;
        observed_generation = release.generation;
        reason = reason;
        message = message;
      } in
      let st = release.status in
      record release { status = record st { conditions = ops.set c st.conditions } }

  -- `if FindStatusCondition(…) == nil { setCondition(…) }` with the reason Pending.
  unfoldable pub ensure_pending : Release → String → String → Release
  unfolding set_condition
  ensure_pending release kind message =
      if is_some (find_condition kind release)
      then release
      else set_condition release kind is_false pending message

  unfoldable pub ensure_phases_pending : Release → List Phase → Release
  unfolding ensure_pending condition_type
  ensure_phases_pending release [] = release
  ensure_phases_pending release (p ∷ ps) =
      ensure_phases_pending
        (ensure_pending release (condition_type p) "Waiting for previous phases to complete") ps

  unfoldable pub initialize_pending_conditions : Release → List Phase → Release
  unfolding ensure_phases_pending ensure_pending condition_type
  initialize_pending_conditions release phases =
      let r =
        ensure_pending release (condition_type lcm) "Waiting for LCM upgrade phase to complete" in
      let r' =
        ensure_pending r condition_manifest_resolved
          "Waiting for release manifest to be resolved" in
      ensure_pending (ensure_phases_pending r' phases) condition_applied "Upgrade pending"

  abbrev pub fail_phase : Release → Option (Phase × Error) → Release
  fail_phase release none = release
  fail_phase release (some (p, e)) =
      set_condition release (condition_type p) is_false failed (error_text e)

  unfoldable pub set_phase_condition_from_error : Release → Error → Release
  unfolding set_condition condition_type
  set_phase_condition_from_error release e = fail_phase release (as_phase_error e)

  unfoldable pub update_phase_condition : Release → Phase → PhaseStatus → Release
  unfolding set_condition
  update_phase_condition release p s =
      let kind = condition_type p in
      if is_done s.state
      then if option_is_true (find_condition kind release)
        then release
        else set_condition release kind is_true s.state s.message
      else set_condition release kind is_false s.state s.message

  -- The loop over the map `PhaseStates`, in some order of its entries.
  unfoldable pub update_phase_conditions : Release → PhaseStates → Release
  update_phase_conditions release [] = release
  update_phase_conditions release ((p, s) ∷ m) =
      update_phase_conditions (update_phase_condition release p s) m

  unfoldable pub survey_phases : Release → Survey → List Phase → Survey
  unfolding note_phase condition_type
  survey_phases release v [] = v
  survey_phases release v (p ∷ ps) =
      survey_phases release
        (note_phase v (condition_type p) (find_condition (condition_type p) release)) ps

  unfoldable pub apply_survey : Release → Survey → Release
  unfolding set_condition
  apply_survey release v =
      if v.all_succeeded
      then set_condition release condition_applied is_true succeeded
          "All upgrade phases completed successfully"
      else if not (v.failed_phase == "")
      then set_condition release condition_applied is_false failed
          ("Phase " ++ (v.failed_phase ++ " failed"))
      else if not (v.in_progress_phase == "")
      then set_condition release condition_applied is_false in_progress
          ("Phase " ++ (v.in_progress_phase ++ " is in progress"))
      else release

  -- From the check of the manifest's condition on.
  unfoldable pub apply_manifest : Release → List Phase → Option Condition → Release
  unfolding apply_survey survey_phases
  apply_manifest release phases none = release
  apply_manifest release phases (some c) =
      if is_failed c.reason
      then set_condition release condition_applied is_false failed c.message
      else if status_is_true c.status
      then apply_survey release (survey_phases release clear_survey phases)
      else release

  unfoldable pub update_applied_condition : Release → List Phase → Release
  unfolding apply_manifest
  update_applied_condition release phases =
      if has_failed (find_condition (condition_type lcm) release)
      then set_condition release condition_applied is_false failed
          "Upgrade failed as LCM upgrade failed"
      else apply_manifest release phases (find_condition condition_manifest_resolved release)
