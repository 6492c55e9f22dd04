-- ===== src/Phase.antt =====
-- internal/upgrade/phase.go: the phases of an upgrade, their condition types and their results.
pub mod Names
pub mod Laws
use Prim.Native.String.{◌++◌}
use elemental_lifecycle_mana.Prelude.{
  ℕ, String, Bool, true, false, List, [], ◌∷◌, ◌&&◌, ◌||◌, not, if◌then◌else◌,
}
use elemental_lifecycle_mana.Api.{
  State, skipped, is_done, condition_lcm_upgraded, condition_os_upgraded,
  condition_kubernetes_upgraded, condition_helm_charts_upgraded,
}
use Names.{trim_suffix, quote}

-- `type Phase string`, of which the program makes these four values.
pub data Phase : Type 0 where
  lcm os kubernetes helm_charts : Phase

pub Phase-discrete : Discrete Phase
Phase-discrete = hlevel

abbrev pub same_phase : Phase → Phase → Bool
same_phase lcm lcm = true
same_phase os os = true
same_phase kubernetes kubernetes = true
same_phase helm_charts helm_charts = true
same_phase _ _ = false

-- The text of a phase constant.
unfoldable pub phase_name : Phase → String
unfolding trim_suffix
phase_name lcm = trim_suffix condition_lcm_upgraded "Upgraded"
phase_name os = trim_suffix condition_os_upgraded "Upgraded"
phase_name kubernetes = trim_suffix condition_kubernetes_upgraded "Upgraded"
phase_name helm_charts = trim_suffix condition_helm_charts_upgraded "Upgraded"

unfoldable pub condition_type : Phase → String
unfolding phase_name
condition_type p = phase_name p ++ "Upgraded"

pub record PhaseStatus : Type 0 where
  pub state : State
  pub message : String

unfoldable pub skipped_status : Phase → PhaseStatus
unfolding phase_name quote
skipped_status p = record {
  state = skipped;
  message = "Upgrade for phase " ++ (quote (phase_name p) ++ " skipped");
}

-- `map[Phase]*PhaseStatus`: one entry for each key, in the order in which the keys were added.
abbrev pub PhaseStates : Type 0
PhaseStates = List (Phase × PhaseStatus)

-- `m[p] = s`.
unfoldable pub put_state : Phase → PhaseStatus → PhaseStates → PhaseStates
put_state p s [] = (p, s) ∷ []
put_state p s ((q, t) ∷ m) = if same_phase q p then (p, s) ∷ m else (q, t) ∷ put_state p s m

unfoldable pub all_complete : PhaseStates → Bool
all_complete [] = true
all_complete ((p, s) ∷ m) =
    let rest = all_complete m in if not (is_done s.state) then false else rest
