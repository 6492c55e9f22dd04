-- ===== src/Reconcilers/SucPlan.antt =====
-- internal/upgrade/reconcilers/plan.go: one plan of the System Upgrade Controller.
pub mod Laws
use Prim.Native.String.{◌++◌}
use elemental_lifecycle_mana.Prelude.{
  String, Bool, true, false, Option, none, some, List, [], ◌∷◌, ◌==◌, not, is_empty, if◌then◌else◌,
}
use elemental_lifecycle_mana.Api.{
  Status, is_true, is_false, is_unknown, State, in_progress, failed, plan_complete,
  is_plan_complete,
}
use elemental_lifecycle_mana.Phase.{PhaseStatus}
use elemental_lifecycle_mana.Phase.Names.{quote}
use elemental_lifecycle_mana.Errors.{
  Error, is_not_found, Result, ok, err, M, pure, throw, from_result, ◌>>=◌, attempt, context,
}
use elemental_lifecycle_mana.Cluster.{Node, ObjectCondition, Plan, Client}

pub record PlanResult : Type 0 where
  pub status : PhaseStatus
  pub nodes : List Node

join_spaces : List String → String
join_spaces [] = ""
join_spaces (s ∷ []) = s
join_spaces (s ∷ t ∷ ts) = s ++ (" " ++ join_spaces (t ∷ ts))

-- `%s` of a slice of texts.
pub show_list : List String → String
unfolding join_spaces
show_list ss = "[" ++ (join_spaces ss ++ "]")

-- What the loop over the conditions returns at one of type Complete, if it returns.
unfoldable pub plan_verdict : Plan → ObjectCondition → Status → Option PhaseStatus
plan_verdict p c is_true = some (record {
  state = plan_complete;
  message = "Plan " ++ (p.name ++ " execution completed successfully");
})
plan_verdict p c is_false =
    if c.reason == ""
    then none
    else some
        (record { state = failed; message = "Plan " ++ (p.name ++ (" failed: " ++ c.message)) })
plan_verdict p c is_unknown = none

abbrev pub choose_status : Option PhaseStatus → PhaseStatus → PhaseStatus
choose_status none later = later
choose_status (some s) later = s

unfoldable pub scan_conditions : Plan → List ObjectCondition → PhaseStatus
unfolding plan_verdict
scan_conditions p [] = record {
  state = in_progress;
  message = "Plan " ++ (p.name ++ " execution in progress");
}
scan_conditions p (c ∷ cs) =
    if c.kind == "Complete"
    then choose_status (plan_verdict p c c.status) (scan_conditions p cs)
    else scan_conditions p cs

unfoldable pub parse_phase_status : Plan → PhaseStatus
unfolding scan_conditions show_list
parse_phase_status p =
    if not (is_empty p.applying)
    then record {
      state = in_progress;
      message = "Plan " ++ (p.name ++ (" is currently applying on: " ++ show_list p.applying));
    }
    else scan_conditions p p.conditions

module _ {W : Type 0} (client : Client W) where
  unfoldable pub create_if_missing : Plan → Result Plan → M W Plan
  create_if_missing desired (ok p) = pure p
  create_if_missing desired (err e) = if is_not_found e then client.create_plan desired else throw e

  unfoldable pub get_or_create_plan : Plan → M W Plan
  unfolding create_if_missing
  get_or_create_plan desired =
      attempt (client.get_plan desired.namespace desired.name) (create_if_missing desired)

  unfoldable pub list_nodes_for_plan : Plan → M W (List Node)
  list_nodes_for_plan p = do
    selector ← context "parsing node selector" (from_result (client.parse_selector p.node_selector))
    context ("listing nodes with selector " ++ selector)
        (client.list_selected_nodes p.node_selector)

  unfoldable pub report_plan : Plan → M W PlanResult
  unfolding list_nodes_for_plan parse_phase_status quote
  report_plan p =
      let status = parse_phase_status p in
      let reported = pure (record { status = status; nodes = [] }) in
      let listed : M W PlanResult =
        context ("listing plan " ++ (quote p.name ++ " nodes")) (list_nodes_for_plan p) >>= λ nodes.
        pure (record { status = status; nodes = nodes }) in
      if is_plan_complete status.state then listed else reported

  unfoldable pub reconcile_plan : Plan → M W PlanResult
  unfolding get_or_create_plan report_plan
  reconcile_plan desired = do p ← context "parsing plan" (get_or_create_plan desired); report_plan p
