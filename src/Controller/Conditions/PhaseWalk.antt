-- ===== src/Controller/Conditions/PhaseWalk.antt =====
-- What the walk over the phases in internal/controller/condition.go finds.
use elemental_lifecycle_mana.Prelude.{
  String, Bool, true, false, not, Option, none, some, List, [], ◌∷◌, ◌≡◌, refl, ◌==◌, ◌&&◌, arith,
  all, any,
}
use elemental_lifecycle_mana.Api.{status_is_true, is_failed, Condition, Release}
use elemental_lifecycle_mana.Phase.{Phase, lcm, os, kubernetes, helm_charts, condition_type}
use elemental_lifecycle_mana.Controller.Conditions.{
  ConditionOps, option_is_true, find_condition, Survey, note_phase, survey_phases,
}

-- The condition of a phase that is not True and gives the reason Failed.
abbrev pub is_failing : Option Condition → Bool
is_failing none = false
is_failing (some c) = not (status_is_true c.status) && is_failed c.reason

-- The condition gives the reason Failed, whatever its status.
abbrev pub reason_failed : Option Condition → Bool
reason_failed none = false
reason_failed (some c) = is_failed c.reason

condition_type-ne-nil : (p : Phase) → (condition_type p == "") ≡ false
unfolding condition_type
condition_type-ne-nil lcm = refl
condition_type-ne-nil os = refl
condition_type-ne-nil kubernetes = refl
condition_type-ne-nil helm_charts = refl

all_succeeded-note_phase :
    (v : Survey) (kind : String) (o : Option Condition)
    → (note_phase v kind o).all_succeeded ≡ (v.all_succeeded && option_is_true o)
unfolding note_phase
all_succeeded-note_phase v kind none = ground arith
all_succeeded-note_phase v kind (some c) = ground arith

failed_phase-note_phase :
    (v : Survey) (p : Phase) (o : Option Condition)
    → ((note_phase v (condition_type p) o).failed_phase == "")
      ≡ ((v.failed_phase == "") && not (is_failing o))
unfolding note_phase
failed_phase-note_phase v p none = ground arith
failed_phase-note_phase v p (some c) = ground (arith, condition_type-ne-nil p)

module _ (ops : ConditionOps) where
  abbrev pub phase_true : Release → Phase → Bool
  phase_true release p = option_is_true (find_condition ops (condition_type p) release)

  abbrev pub phase_failing : Release → Phase → Bool
  phase_failing release p = is_failing (find_condition ops (condition_type p) release)

  pub all_succeeded-survey_phases :
      (release : Release) (v : Survey) (ps : List Phase)
      → (survey_phases ops release v ps).all_succeeded
        ≡ (v.all_succeeded && all (phase_true release) ps)
  unfolding survey_phases
  all_succeeded-survey_phases release v [] = ground arith
  all_succeeded-survey_phases release v (p ∷ ps) =
      let o = find_condition ops (condition_type p) release in
      let v' = note_phase v (condition_type p) o in
      ground (
        arith,
        all_succeeded-survey_phases release v' ps,
        all_succeeded-note_phase v (condition_type p) o,
      )

  pub failed_phase-survey_phases :
      (release : Release) (v : Survey) (ps : List Phase)
      → ((survey_phases ops release v ps).failed_phase == "")
        ≡ ((v.failed_phase == "") && not (any (phase_failing release) ps))
  unfolding survey_phases
  failed_phase-survey_phases release v [] = ground arith
  failed_phase-survey_phases release v (p ∷ ps) =
      let o = find_condition ops (condition_type p) release in
      let v' = note_phase v (condition_type p) o in
      ground (arith, failed_phase-survey_phases release v' ps, failed_phase-note_phase v p o)

  pub any-failing_of_all-true :
      (release : Release) (ps : List Phase)
      → all (phase_true release) ps ≡ true
      → any (phase_failing release) ps ≡ false
  any-failing_of_all-true release [] h = refl
  any-failing_of_all-true release (p ∷ ps) h = ground (arith, any-failing_of_all-true release ps)
