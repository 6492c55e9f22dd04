-- ===== src/Phase/Laws.antt =====
-- The names of the phases, and the map from phases to their states.
use elemental_lifecycle_mana.Prelude.{
  String, true, Option, none, some, [], ◌∷◌, ◌≡◌, refl, ◌==◌, arith, if◌then◌else◌,
}
use elemental_lifecycle_mana.Api.{
  condition_lcm_upgraded, condition_os_upgraded, condition_kubernetes_upgraded,
  condition_helm_charts_upgraded,
}
use elemental_lifecycle_mana.Phase.{
  Phase, lcm, os, kubernetes, helm_charts, same_phase, condition_type, PhaseStatus, PhaseStates,
  put_state,
}

-- The condition type that a phase belongs to, as the API names it.
abbrev pub api_condition_type : Phase → String
api_condition_type lcm = condition_lcm_upgraded
api_condition_type os = condition_os_upgraded
api_condition_type kubernetes = condition_kubernetes_upgraded
api_condition_type helm_charts = condition_helm_charts_upgraded

-- The name that a phase has from its condition type leads back to that condition type.
pub condition_type_api : (p : Phase) → condition_type p ≡ api_condition_type p
unfolding condition_type
condition_type_api lcm = refl
condition_type_api os = refl
condition_type_api kubernetes = refl
condition_type_api helm_charts = refl

-- Different phases have different condition types.
pub condition_type-same : (p q : Phase) → (condition_type p == condition_type q) ≡ same_phase p q
unfolding condition_type
condition_type-same lcm lcm = refl
condition_type-same lcm os = refl
condition_type-same lcm kubernetes = refl
condition_type-same lcm helm_charts = refl
condition_type-same os lcm = refl
condition_type-same os os = refl
condition_type-same os kubernetes = refl
condition_type-same os helm_charts = refl
condition_type-same kubernetes lcm = refl
condition_type-same kubernetes os = refl
condition_type-same kubernetes kubernetes = refl
condition_type-same kubernetes helm_charts = refl
condition_type-same helm_charts lcm = refl
condition_type-same helm_charts os = refl
condition_type-same helm_charts kubernetes = refl
condition_type-same helm_charts helm_charts = refl

pub same_phase-eq : (p q : Phase) → same_phase p q ≡ true → p ≡ q
same_phase-eq lcm q h = ground arith
same_phase-eq p q h = ground arith

pub same_phase_refl : (p : Phase) → same_phase p p ≡ true
same_phase_refl lcm = refl
same_phase_refl _ = refl

-- `s, ok := m[p]`.
abbrev pub state_of : Phase → PhaseStates → Option PhaseStatus
state_of p [] = none
state_of p ((q, s) ∷ m) = if same_phase q p then some s else state_of p m

-- As in every Go map, no phase has two entries.
abbrev pub HasDistinctPhases : PhaseStates → Type 0
HasDistinctPhases [] = Unit
HasDistinctPhases ((p, s) ∷ m) = (state_of p m ≡ none) × HasDistinctPhases m

pub state_of-put_state :
    (p q : Phase) (s : PhaseStatus) (m : PhaseStates)
    → state_of q (put_state p s m) ≡ (if same_phase p q then some s else state_of q m)
unfolding put_state
state_of-put_state p q s [] = refl
state_of-put_state p q s ((r, t) ∷ m) = ground (
  arith,
  state_of-put_state p q s m,
  same_phase-eq r p,
  same_phase-eq p q,
  same_phase-eq r q,
  same_phase_refl p,
  same_phase_refl q,
)

-- An assignment to the map keeps its keys distinct.
pub put_state-HasDistinctPhases :
    (p : Phase) (s : PhaseStatus) (m : PhaseStates)
    → HasDistinctPhases m
    → HasDistinctPhases (put_state p s m)
unfolding put_state
put_state-HasDistinctPhases p s [] h = ground arith
put_state-HasDistinctPhases p s ((r, t) ∷ m) h = ground (
  arith,
  put_state-HasDistinctPhases p s m,
  state_of-put_state p r s m,
  same_phase-eq r p,
  same_phase-eq p r,
  same_phase_refl p,
)
