-- ===== src/Reconcilers/SucPlan/Laws.antt =====
-- How the status of a plan is read, and what a plan reconciliation does to existing plans.
use elemental_lifecycle_mana.Prelude.{
  Bool, true, false, List, [], ◌∷◌, ◌≡◌, ◌↔◌, ◌⊎◌, ◌==◌, ◌&&◌, not, arith,
}
use elemental_lifecycle_mana.Api.{
  status_is_true, status_is_false, State, in_progress, failed, plan_complete, is_plan_complete,
}
use elemental_lifecycle_mana.Errors.{
  Error, is_not_found, Result, ok, err, settle, continue, wrap, with_context,
}
use elemental_lifecycle_mana.Cluster.{ObjectCondition, Plan, Client}
use elemental_lifecycle_mana.Reconcilers.SucPlan.{
  PlanResult, scan_conditions, parse_phase_status, get_or_create_plan, report_plan, reconcile_plan,
}

-- The condition that makes a plan complete, and the one that makes it failed.
abbrev pub completes : ObjectCondition → Bool
completes c = (c.kind == "Complete") && status_is_true c.status

abbrev pub fails : ObjectCondition → Bool
fails c = (c.kind == "Complete") && status_is_false c.status && not (c.reason == "")

-- Some condition completes the plan, and none before it fails it.
abbrev pub CompletedBy : List ObjectCondition → Type 0
CompletedBy [] = ⊥
CompletedBy (c ∷ cs) = (completes c ≡ true) ⊎ ((fails c ≡ false) × CompletedBy cs)

scan_conditions-complete_iff :
    (p : Plan) (cs : List ObjectCondition)
    → (is_plan_complete (scan_conditions p cs).state ≡ true) ↔ CompletedBy cs
unfolding scan_conditions
scan_conditions-complete_iff p [] = ground arith
scan_conditions-complete_iff p (c ∷ cs) = ground (arith, scan_conditions-complete_iff p cs)

-- A plan reads as complete exactly when it is applying on no node and one of its conditions of type
-- Complete is True, with none before it that is False for a stated reason.
pub parse_phase_status-complete_iff :
    (p : Plan)
    → (is_plan_complete (parse_phase_status p).state ≡ true)
      ↔ ((p.applying ≡ []) × CompletedBy p.conditions)
unfolding parse_phase_status
parse_phase_status-complete_iff p = ground (arith, scan_conditions-complete_iff p p.conditions)

-- The states that a plan reconciliation can report.
abbrev pub IsPlanState : State → Type 0
IsPlanState s = (s ≡ in_progress) ⊎ (s ≡ failed) ⊎ (s ≡ plan_complete)

scan_conditions-IsPlanState :
    (p : Plan) (cs : List ObjectCondition) → IsPlanState (scan_conditions p cs).state
unfolding scan_conditions
scan_conditions-IsPlanState p [] = ground arith
scan_conditions-IsPlanState p (c ∷ cs) = ground (arith, scan_conditions-IsPlanState p cs)

pub parse_phase_status-IsPlanState : (p : Plan) → IsPlanState (parse_phase_status p).state
unfolding parse_phase_status
parse_phase_status-IsPlanState p = ground (arith, scan_conditions-IsPlanState p p.conditions)

-- A result whose state is one that a plan can have; errors have none.
abbrev pub ReportsPlanState : Result PlanResult → Type 0
ReportsPlanState (ok r) = IsPlanState r.status.state
ReportsPlanState (err e) = Unit

module _ {W : Type 0} (client : Client W) where
  report_plan-ReportsPlanState : (p : Plan) (w : W) → ReportsPlanState (report_plan client p w).0
  unfolding report_plan
  report_plan-ReportsPlanState p w = ground (arith, parse_phase_status-IsPlanState p)

  -- Whatever the API server answers, a plan reconciliation that returns a result reports the plan
  -- as in progress, failed or complete, never as a whole phase that succeeded or was skipped.
  pub reconcile_plan-ReportsPlanState :
      (desired : Plan) (w : W) → ReportsPlanState (reconcile_plan client desired w).0
  unfolding reconcile_plan
  reconcile_plan-ReportsPlanState desired w = split (get_or_create_plan client desired w)
    where
      split :
          (r : Result Plan × W)
          → ReportsPlanState
              (continue
                (settle r (λ s v. (with_context "parsing plan" s, v)))
                (report_plan client)).0
      split (ok p, v) = report_plan-ReportsPlanState p v
      split (err e, v) = tt

  -- A plan that exists is never written: its reconciliation is the report on it as it stands,
  -- whatever the desired plan says beyond its name. Only a plan that is missing is created.
  pub reconcile_plan-existing :
      (desired found : Plan) (w v : W)
      → client.get_plan desired.namespace desired.name w ≡ (ok found, v)
      → reconcile_plan client desired w ≡ report_plan client found v
  unfolding reconcile_plan get_or_create_plan
  reconcile_plan-existing desired found w v h = rw h

  -- A read that fails for another reason than a missing plan ends the reconciliation there: no plan
  -- is created, and the world is the one after the read.
  pub reconcile_plan-unreadable :
      (desired : Plan) (e : Error) (w v : W)
      → client.get_plan desired.namespace desired.name w ≡ (err e, v)
      → is_not_found e ≡ false
      → reconcile_plan client desired w ≡ (err (wrap "parsing plan" e), v)
  unfolding reconcile_plan get_or_create_plan
  reconcile_plan-unreadable desired e w v h other = rw h (rw other)
