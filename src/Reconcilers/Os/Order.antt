-- ===== src/Reconcilers/Os/Order.antt =====
-- The order in which the phases for the operating system and for Kubernetes reach the nodes.
use elemental_lifecycle_mana.Prelude.{
  String, true, false, some, List, [], ◌∷◌, ◌++◌, ◌≡◌, ◌↔◌, refl, arith,
}
use elemental_lifecycle_mana.Api.{succeeded, is_plan_complete}
use elemental_lifecycle_mana.Phase.{PhaseStatus}
use elemental_lifecycle_mana.Errors.{Result, ok, err, M}
use elemental_lifecycle_mana.Cluster.{Node, Plan, Client}
use elemental_lifecycle_mana.Config.{Tag, Config, OsConfig}
use elemental_lifecycle_mana.Plan.{on_control_plane, on_workers, os_control_plane, os_worker}
use elemental_lifecycle_mana.Reconcilers.SucPlan.{PlanResult}
use elemental_lifecycle_mana.Reconcilers.SucPlan.Laws.{ReportsPlanState}
use elemental_lifecycle_mana.Reconcilers.Nodes.Laws.{
  has_worker, is_control_plane_only_cluster-has_worker,
}
use elemental_lifecycle_mana.Reconcilers.Os.{
  after_os_plan, prepare_os_plans, run_os_plans, reconcile_os,
}
use elemental_lifecycle_mana.Errors.Laws.{
  in_context, in_context-cong, in_context-inv, in_context-run,
}

-- The reconciliation of a plan returned, and found it complete.
abbrev pub PlanCompletes : Result PlanResult → Type 0
PlanCompletes (ok r) = is_plan_complete r.status.state ≡ true
PlanCompletes (err e) = ⊥

-- The reconciliation of a plan failed, or found it not complete.
abbrev pub PlanWaits : Result PlanResult → Type 0
PlanWaits (ok r) = is_plan_complete r.status.state ≡ false
PlanWaits (err e) = Unit

abbrev pub Succeeds : Result PhaseStatus → Type 0
Succeeds (ok s) = s.state ≡ succeeded
Succeeds (err e) = ⊥

module _ {W : Type 0} (suc : Plan → M W PlanResult) where
  -- All plans complete, each in the world that the ones before it left.
  abbrev pub AllPlansComplete : List Plan → W → Type 0
  AllPlansComplete [] w = Unit
  AllPlansComplete (p ∷ ps) w = PlanCompletes (suc p w).0 × AllPlansComplete ps (suc p w).1

  abbrev pub world_after_plans : List Plan → W → W
  world_after_plans [] w = w
  world_after_plans (p ∷ ps) w = world_after_plans ps (suc p w).1

  after_os_plan-waits :
      (f g : M W PhaseStatus) (o : Result PlanResult) (a : PlanResult) (w : W)
      → PlanWaits o
      → o ≡ ok a
      → after_os_plan suc f a w ≡ after_os_plan suc g a w
  unfolding after_os_plan
  after_os_plan-waits f g (ok r) a w waits same = ground arith
  after_os_plan-waits f g (err e) a w waits same = cc

  -- A plan that waits ends the rounds: no plan after it is looked at or created.
  run_os_plans-gated :
      (before after : List Plan) (p : Plan) (w : W)
      → PlanWaits (suc p (world_after_plans before w)).0
      → run_os_plans suc (before ++ p ∷ after) w ≡ run_os_plans suc (before ++ p ∷ []) w
  unfolding run_os_plans
  run_os_plans-gated [] after p w waits =
      in_context-cong _ (suc p w) (after_os_plan suc (run_os_plans suc after))
        (after_os_plan suc (run_os_plans suc []))
        (λ a same.
          after_os_plan-waits (run_os_plans suc after) (run_os_plans suc []) (suc p w).0 a
            (suc p w).1 waits same)
  run_os_plans-gated (b ∷ before) after p w waits =
      in_context-cong _ (suc b w) (after_os_plan suc (run_os_plans suc (before ++ p ∷ after)))
        (after_os_plan suc (run_os_plans suc (before ++ p ∷ [])))
        (λ a same. ground (arith, run_os_plans-gated before after p (suc b w).1 waits))

  module _ (plan_states : (p : Plan) (w : W) → ReportsPlanState (suc p w).0) where
    -- The plan reconciler reports no plan as succeeded, so only the end of the rounds does.
    after_os_plan-Succeeds :
        (p : Plan) (w : W) (a : PlanResult) (rest : M W PhaseStatus) (v : W)
        → (suc p w).0 ≡ ok a
        → Succeeds (after_os_plan suc rest a v).0
        → PlanCompletes (suc p w).0 × Succeeds (rest v).0
    unfolding after_os_plan
    after_os_plan-Succeeds p w a rest v found h = ground (arith, plan_states p w)

    run_os_plans-Succeeds :
        (ps : List Plan) (w : W) → Succeeds (run_os_plans suc ps w).0 → AllPlansComplete ps w
    unfolding run_os_plans
    run_os_plans-Succeeds [] w h = tt
    run_os_plans-Succeeds (p ∷ ps) w h =
        let (a, found, later) =
          in_context-inv Succeeds _ (suc p w) (after_os_plan suc (run_os_plans suc ps)) (λ e x. x)
            h in
        let (complete, rest) =
          after_os_plan-Succeeds p w a (run_os_plans suc ps) (suc p w).1 found later in
        (complete, run_os_plans-Succeeds ps (suc p w).1 rest)

  after_os_plan-goes_on :
      (s : String) (r : Result PlanResult × W) (rest : M W PhaseStatus)
      → PlanCompletes r.0
      → Succeeds (rest r.1).0
      → Succeeds (in_context s r (after_os_plan suc rest)).0
  unfolding after_os_plan
  after_os_plan-goes_on s (ok a, v) rest complete h = ground arith
  after_os_plan-goes_on s (err e, v) rest complete h = absurd complete

  run_os_plans_of_AllPlansComplete :
      (ps : List Plan) (w : W) → AllPlansComplete ps w → Succeeds (run_os_plans suc ps w).0
  unfolding run_os_plans
  run_os_plans_of_AllPlansComplete [] w h = refl
  run_os_plans_of_AllPlansComplete (p ∷ ps) w (h, hs) =
      after_os_plan-goes_on _ (suc p w) (run_os_plans suc ps) h
        (run_os_plans_of_AllPlansComplete ps (suc p w).1 hs)

-- The plans come with the one for the control plane first; another, for the workers, follows it
-- exactly when some node is no control plane node.
abbrev pub IsPlanOrder : List Node → List Plan → Type 0
IsPlanOrder nodes [] = ⊥
IsPlanOrder nodes (p ∷ []) = (p.node_selector ≡ some on_control_plane) × (has_worker nodes ≡ false)
IsPlanOrder nodes (p ∷ q ∷ []) =
    (p.node_selector ≡ some on_control_plane)
    × (q.node_selector ≡ some on_workers)
    × (has_worker nodes ≡ true)
IsPlanOrder nodes (p ∷ q ∷ r ∷ ps) = ⊥

abbrev pub HasPlanOrder : Result (List Node) → Result (List Plan) → Type 0
HasPlanOrder listed (err e) = Unit
HasPlanOrder (err e) (ok ps) = ⊥
HasPlanOrder (ok nodes) (ok ps) = IsPlanOrder nodes ps

module _ {W : Type 0} (client : Client W) (new_tag : String → Result Tag) (env : String) where
  -- When the phase prepares plans without an error, the nodes were listed, and for the nodes listed
  -- the first plan selects the control-plane nodes, and a second plan, the one for the workers,
  -- follows exactly when some node is no control-plane node; there is never a third plan.
  pub prepare_os_plans-HasPlanOrder :
      (config : Config) (c : OsConfig) (w : W)
      → HasPlanOrder (client.list_nodes w).0 (prepare_os_plans client new_tag env config c w).0
  unfolding prepare_os_plans os_control_plane os_worker
  prepare_os_plans-HasPlanOrder config c w = grind (arith, is_control_plane_only_cluster-has_worker)

  module _ (suc : Plan → M W PlanResult) (config : Config) (c : OsConfig)
      (given : config.os ≡ some c) where
    -- While the first plan is not complete, the phase reports the status of that plan, and the world
    -- is the one that its reconciliation left: no later plan was looked at or created.
    pub reconcile_os-first_plan :
        (p : Plan) (ps : List Plan) (r : PlanResult) (w v u : W)
        → prepare_os_plans client new_tag env config c w ≡ (ok (p ∷ ps), v)
        → suc p v ≡ (ok r, u)
        → is_plan_complete r.status.state ≡ false
        → reconcile_os client new_tag env suc (some config) w ≡ (ok r.status, u)
    unfolding reconcile_os run_os_plans
    reconcile_os-first_plan p ps r w v u prepared reconciled waits =
        rw given (rw prepared (rw reconciled (rw waits refl)))

    -- The phase succeeds exactly when its plans could be prepared and every one of them, in order,
    -- is found complete, if plans report the states of plans.
    pub reconcile_os-Succeeds_iff :
        ((p : Plan) (v : W) → ReportsPlanState (suc p v).0)
        → (w : W)
        → Succeeds (reconcile_os client new_tag env suc (some config) w).0 ↔ (
            (ps : List Plan) × ((prepare_os_plans client new_tag env config c w).0 ≡ ok ps)
            × AllPlansComplete suc ps (prepare_os_plans client new_tag env config c w).1)
    unfolding reconcile_os
    reconcile_os-Succeeds_iff plan_states w =
        let prepared = prepare_os_plans client new_tag env config c w in
        rw given (
          (λ h.
              let (ps, found, rest) =
                in_context-inv Succeeds "preparing OS upgrade plans" prepared (run_os_plans suc)
                  (λ e x. x) h in
              (ps, found, run_os_plans-Succeeds suc plan_states ps prepared.1 rest)),
          (λ (ps, found, complete).
              in_context-run (λ r. Succeeds r) "preparing OS upgrade plans" prepared
                (run_os_plans suc) ps found
                (run_os_plans_of_AllPlansComplete suc ps prepared.1 complete)),
        )
