-- ===== src/Controller/Conditions/Effects.antt =====
-- The effects of the updates of the conditions in internal/controller/release_controller.go.
use elemental_lifecycle_mana.Prelude.{
  String, false, Option, none, some, [], ◌∷◌, ◌≡◌, refl, ◌∙◌, ◌==◌, arith, if◌then◌else◌, eq_iff,
}
use elemental_lifecycle_mana.Api.{Status, is_true, is_false, State, is_done, Condition, Release}
use elemental_lifecycle_mana.Phase.{Phase, condition_type, PhaseStatus, PhaseStates}
use elemental_lifecycle_mana.Phase.Laws.{
  condition_type-same, same_phase-eq, state_of, HasDistinctPhases,
}
use elemental_lifecycle_mana.Controller.Conditions.{
  ConditionOps, ConditionLaws, option_is_true, find_condition, set_condition,
  update_phase_condition, update_phase_conditions,
}

abbrev condition_of : Release → String → Status → State → String → Condition
condition_of release kind status reason message = record {
  kind = kind;
  status = status;
  observed_generation = release.generation;
  reason = reason;
  message = message;
}

-- The condition of a phase after an update: the old one stays if it is True and the phase is done.
abbrev pub phase_update : Release → Phase → PhaseStatus → Option Condition → Option Condition
phase_update release p s old =
    if is_done s.state
    then if option_is_true old
      then old
      else some (condition_of release (condition_type p) is_true s.state s.message)
    else some (condition_of release (condition_type p) is_false s.state s.message)

module _ (ops : ConditionOps) (laws : ConditionLaws ops) where
  pub find-set_condition :
      (release : Release) (kind : String) (status : Status) (reason : State) (message k : String)
      → find_condition ops k (set_condition ops release kind status reason message) ≡ (
          if kind == k
          then some (condition_of release kind status reason message)
          else find_condition ops k release)
  unfolding set_condition
  find-set_condition release kind status reason message k = laws.find_set _ k _

  -- One update of a phase condition, seen from every condition type.
  pub find-update_phase_condition :
      (release : Release) (p : Phase) (s : PhaseStatus) (k : String)
      → find_condition ops k (update_phase_condition ops release p s) ≡ (
          if condition_type p == k
          then phase_update release p s (find_condition ops (condition_type p) release)
          else find_condition ops k release)
  unfolding update_phase_condition
  find-update_phase_condition release p s k = ground (
    arith,
    eq_iff (condition_type p) k,
    find-set_condition release (condition_type p) is_true s.state s.message k,
    find-set_condition release (condition_type p) is_false s.state s.message k,
  )

  generation-update_phase_condition :
      (release : Release) (p : Phase) (s : PhaseStatus)
      → (update_phase_condition ops release p s).generation ≡ release.generation
  unfolding update_phase_condition set_condition
  generation-update_phase_condition release p s = ground arith

  phase_update_of_generation :
      (r q : Release) (p : Phase) (s : PhaseStatus) (old : Option Condition)
      → r.generation ≡ q.generation
      → phase_update r p s old ≡ phase_update q p s old
  phase_update_of_generation r q p s old h = rw h

  -- What the map says of a phase, applied to the condition of that phase.
  abbrev pub phase_outcome :
      Release → Phase → Option PhaseStatus → Option Condition → Option Condition
  phase_outcome release p none old = old
  phase_outcome release p (some s) old = phase_update release p s old

  -- The loop over the recorded phases updates the condition of each phase as its own entry says,
  -- in whatever order the map is walked through.
  pub find-update_phase_conditions :
      (release : Release) (m : PhaseStates) (p : Phase)
      → HasDistinctPhases m
      → find_condition ops (condition_type p) (update_phase_conditions ops release m)
        ≡ phase_outcome release p (state_of p m) (find_condition ops (condition_type p) release)
  unfolding update_phase_conditions
  find-update_phase_conditions release [] p h = refl
  find-update_phase_conditions release ((q, s) ∷ m) p h =
      let r = update_phase_condition ops release q s in
      ground (
        arith,
        find-update_phase_conditions r m p h.1,
        find-update_phase_condition release q s (condition_type p),
        condition_type-same q p,
        same_phase-eq q p,
        generation-update_phase_condition release q s,
      )

  -- The conditions that an upgrade round records do not depend on the order in which Go walks
  -- through the map of phase states: two walks over one map, each with every phase once, leave the
  -- same condition for every phase, by the documented laws of the conditions' library.
  pub update_phase_conditions-order :
      (release : Release) (m n : PhaseStates)
      → HasDistinctPhases m
      → HasDistinctPhases n
      → ((p : Phase) → state_of p m ≡ state_of p n)
      → (p : Phase)
      → find_condition ops (condition_type p) (update_phase_conditions ops release m)
        ≡ find_condition ops (condition_type p) (update_phase_conditions ops release n)
  update_phase_conditions-order release m n hm hn same p = rw (
    find-update_phase_conditions release m p hm,
    find-update_phase_conditions release n p hn,
    same p,
  )

  -- An update of the phases touches no other condition.
  pub update_phase_conditions-frame :
      (release : Release) (m : PhaseStates) (k : String)
      → ((p : Phase) → (condition_type p == k) ≡ false)
      → find_condition ops k (update_phase_conditions ops release m) ≡ find_condition ops k release
  unfolding update_phase_conditions
  update_phase_conditions-frame release [] k other = refl
  update_phase_conditions-frame release ((q, s) ∷ m) k other =
      let r = update_phase_condition ops release q s in
      update_phase_conditions-frame r m k other
      ∙ ground (arith, find-update_phase_condition release q s k, other q)
