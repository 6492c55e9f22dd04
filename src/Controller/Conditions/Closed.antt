-- ===== src/Controller/Conditions/Closed.antt =====
-- What holds of a Release through the updates of internal/controller/condition.go that set several
-- conditions.
use Prim.Native.String.{◌++◌}
use elemental_lifecycle_mana.Prelude.{String, Option, none, some, List, [], ◌∷◌, arith}
use elemental_lifecycle_mana.Api.{
  Status, State, is_true, is_false, pending, in_progress, succeeded, failed, Condition, Release,
  condition_applied,
}
use elemental_lifecycle_mana.Phase.{Phase, condition_type, PhaseStatus, PhaseStates}
use elemental_lifecycle_mana.Controller.Conditions.{
  ConditionOps, Survey, set_condition, ensure_pending, ensure_phases_pending,
  initialize_pending_conditions, update_phase_condition, update_phase_conditions, apply_survey,
  apply_manifest, update_applied_condition,
}

-- No condition that is set breaks the property.
abbrev pub KeptBySets : ConditionOps → (Release → Type 0) → Type 0
KeptBySets ops P =
    (release : Release) (kind : String) (status : Status) (reason : State) (message : String)
    → P release
    → P (set_condition ops release kind status reason message)

module _ (ops : ConditionOps) (P : Release → Type 0) (on_set : KeptBySets ops P) where
  ensure_pending-kept :
      (release : Release) (kind message : String)
      → P release
      → P (ensure_pending ops release kind message)
  unfolding ensure_pending
  ensure_pending-kept release kind message h =
      ground (arith, on_set release kind is_false pending message h)

  ensure_phases_pending-kept :
      (release : Release) (ps : List Phase) → P release → P (ensure_phases_pending ops release ps)
  unfolding ensure_phases_pending
  ensure_phases_pending-kept release [] h = h
  ensure_phases_pending-kept release (p ∷ ps) h =
      let message : String = "Waiting for previous phases to complete" in
      ensure_phases_pending-kept (ensure_pending ops release (condition_type p) message) ps
        (ensure_pending-kept release (condition_type p) message h)

  pub initialize_pending_conditions-kept :
      (release : Release) (ps : List Phase)
      → P release
      → P (initialize_pending_conditions ops release ps)
  unfolding initialize_pending_conditions
  initialize_pending_conditions-kept release ps h = ensure_pending-kept _ _ _ (
      ensure_phases_pending-kept _ ps
        (ensure_pending-kept _ _ _ (ensure_pending-kept release _ _ h)))

  apply_survey-kept : (release : Release) (v : Survey) → P release → P (apply_survey ops release v)
  unfolding apply_survey
  apply_survey-kept release v h = ground (
    arith,
    on_set release condition_applied is_true succeeded "All upgrade phases completed successfully"
        h,
    on_set release condition_applied is_false failed ("Phase " ++ (v.failed_phase ++ " failed")) h,
    on_set release condition_applied is_false in_progress
        ("Phase " ++ (v.in_progress_phase ++ " is in progress")) h,
  )

  apply_manifest-kept :
      (release : Release) (ps : List Phase) (m : Option Condition)
      → P release
      → P (apply_manifest ops release ps m)
  unfolding apply_manifest
  apply_manifest-kept release ps none h = h
  apply_manifest-kept release ps (some c) h =
      grind (
        arith,
        apply_survey-kept release,
        on_set release condition_applied is_false failed c.message,
      )

  pub update_applied_condition-kept :
      (release : Release) (ps : List Phase)
      → P release
      → P (update_applied_condition ops release ps)
  unfolding update_applied_condition
  update_applied_condition-kept release ps h = grind (
    arith,
    apply_manifest-kept release ps,
    on_set release condition_applied is_false failed "Upgrade failed as LCM upgrade failed",
  )

  pub update_phase_condition-kept :
      (release : Release) (p : Phase) (s : PhaseStatus)
      → P release
      → P (update_phase_condition ops release p s)
  unfolding update_phase_condition
  update_phase_condition-kept release p s h = ground (
    arith,
    on_set release (condition_type p) is_true s.state s.message h,
    on_set release (condition_type p) is_false s.state s.message h,
  )

  pub update_phase_conditions-kept :
      (release : Release) (m : PhaseStates) → P release → P (update_phase_conditions ops release m)
  unfolding update_phase_conditions
  update_phase_conditions-kept release [] h = h
  update_phase_conditions-kept release ((p, s) ∷ m) h =
      update_phase_conditions-kept (update_phase_condition ops release p s) m
        (update_phase_condition-kept release p s h)
