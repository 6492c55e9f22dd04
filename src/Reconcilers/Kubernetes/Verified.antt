-- ===== src/Reconcilers/Kubernetes/Verified.antt =====
-- What has to hold on the nodes before the Kubernetes phase succeeds.
use elemental_lifecycle_mana.Prelude.{String, true, some, List, [], ◌∷◌, ◌≡◌, ◌↔◌, ◌≢◌, arith, All}
use elemental_lifecycle_mana.Api.{succeeded, is_plan_complete, is_components_available}
use elemental_lifecycle_mana.Phase.{PhaseStatus}
use elemental_lifecycle_mana.Errors.{Result, ok, err, M}
use elemental_lifecycle_mana.Errors.Laws.{in_context, in_context-inv, in_context-run}
use elemental_lifecycle_mana.Cluster.{Plan, Client}
use elemental_lifecycle_mana.Config.{Config, KubernetesConfig}
use elemental_lifecycle_mana.Reconcilers.SucPlan.{PlanResult}
use elemental_lifecycle_mana.Reconcilers.SucPlan.Laws.{ReportsPlanState}
use elemental_lifecycle_mana.Reconcilers.Nodes.Laws.{
  IsUpgraded, all_nodes_at_kubernetes_version_iff,
}
use elemental_lifecycle_mana.Reconcilers.Os.Order.{Succeeds}
use elemental_lifecycle_mana.Reconcilers.Kubernetes.{
  ComponentsSnapshot, ComponentsHandler, after_kubernetes_plan, run_kubernetes_plans,
  finish_kubernetes, prepare_kubernetes_plans, reconcile_kubernetes,
}

-- The plan is complete, it has nodes, and each one is ready, schedulable and at the version.
abbrev pub PlanVerified : String → Result PlanResult → Type 0
PlanVerified version (ok r) =
    (is_plan_complete r.status.state ≡ true) × (r.nodes ≢ []) × All (IsUpgraded version) r.nodes
PlanVerified version (err e) = ⊥

-- The handler of the packaged components does not report a whole phase as succeeded.
abbrev pub ReportsNoSuccess : Result PhaseStatus → Type 0
ReportsNoSuccess (ok s) = s.state ≢ succeeded
ReportsNoSuccess (err e) = Unit

abbrev pub ComponentsAvailable : Result PhaseStatus → Type 0
ComponentsAvailable (ok s) = is_components_available s.state ≡ true
ComponentsAvailable (err e) = ⊥

module _ {W : Type 0} (suc : Plan → M W PlanResult) (version : String) where
  -- All plans are verified, each in the world that the ones before it left.
  abbrev pub AllPlansVerified : List Plan → W → Type 0
  AllPlansVerified [] w = Unit
  AllPlansVerified (p ∷ ps) w = PlanVerified version (suc p w).0 × AllPlansVerified ps (suc p w).1

  abbrev pub world_after_plans : List Plan → W → W
  world_after_plans [] w = w
  world_after_plans (p ∷ ps) w = world_after_plans ps (suc p w).1

  after_kubernetes_plan-Succeeds :
      ((p : Plan) (w : W) → ReportsPlanState (suc p w).0)
      → (rest : M W PhaseStatus) (p : Plan) (w : W) (a : PlanResult) → (suc p w).0 ≡ ok a
      → Succeeds (after_kubernetes_plan suc version rest p a (suc p w).1).0
      → PlanVerified version (suc p w).0 × Succeeds (rest (suc p w).1).0
  unfolding after_kubernetes_plan
  after_kubernetes_plan-Succeeds plan_states rest p w a found h =
      ground (arith, plan_states p w, all_nodes_at_kubernetes_version_iff a.nodes version)

  run_kubernetes_plans-Succeeds :
      ((p : Plan) (w : W) → ReportsPlanState (suc p w).0)
      → (finish : M W PhaseStatus) (ps : List Plan) (w : W)
      → Succeeds (run_kubernetes_plans suc version finish ps w).0
      → AllPlansVerified ps w × Succeeds (finish (world_after_plans ps w)).0
  unfolding run_kubernetes_plans
  run_kubernetes_plans-Succeeds plan_states finish [] w h = (tt, h)
  run_kubernetes_plans-Succeeds plan_states finish (p ∷ ps) w h =
      let rest = run_kubernetes_plans suc version finish ps in
      let (a, found, later) =
        in_context-inv Succeeds _ (suc p w) (after_kubernetes_plan suc version rest p) (λ e x. x)
          h in
      let (verified, goes_on) = after_kubernetes_plan-Succeeds plan_states rest p w a found later in
      let (all_verified, end) =
        run_kubernetes_plans-Succeeds plan_states finish ps (suc p w).1 goes_on in
      ((verified, all_verified), end)

  after_kubernetes_plan-goes_on :
      (rest : M W PhaseStatus) (p : Plan) (s : String) (r : Result PlanResult × W)
      → PlanVerified version r.0
      → Succeeds (rest r.1).0
      → Succeeds (in_context s r (after_kubernetes_plan suc version rest p)).0
  unfolding after_kubernetes_plan
  after_kubernetes_plan-goes_on rest p s (ok a, v) verified h =
      ground (arith, all_nodes_at_kubernetes_version_iff a.nodes version)
  after_kubernetes_plan-goes_on rest p s (err e, v) verified h = absurd verified

  run_kubernetes_plans_of_AllPlansVerified :
      (finish : M W PhaseStatus) (ps : List Plan) (w : W)
      → AllPlansVerified ps w
      → Succeeds (finish (world_after_plans ps w)).0
      → Succeeds (run_kubernetes_plans suc version finish ps w).0
  unfolding run_kubernetes_plans
  run_kubernetes_plans_of_AllPlansVerified finish [] w h end = end
  run_kubernetes_plans_of_AllPlansVerified finish (p ∷ ps) w (h, hs) end =
      after_kubernetes_plan-goes_on (run_kubernetes_plans suc version finish ps) p _ (suc p w) h
        (run_kubernetes_plans_of_AllPlansVerified finish ps (suc p w).1 hs end)

module _ {W : Type 0} (suc : Plan → M W PlanResult) (components : ComponentsHandler W)
    (client : Client W) where
  finish_kubernetes-Succeeds :
      (version : String) (snapshot : ComponentsSnapshot) (w : W)
      → ReportsNoSuccess (components.reconcile_availability version snapshot w).0
      → Succeeds (finish_kubernetes client suc components version snapshot w).0
      → ComponentsAvailable (components.reconcile_availability version snapshot w).0
  unfolding finish_kubernetes
  finish_kubernetes-Succeeds version snapshot w never h = ground arith

  finish_kubernetes_of_ComponentsAvailable :
      (version : String) (snapshot : ComponentsSnapshot) (w : W)
      → ComponentsAvailable (components.reconcile_availability version snapshot w).0
      → Succeeds (finish_kubernetes client suc components version snapshot w).0
  unfolding finish_kubernetes
  finish_kubernetes_of_ComponentsAvailable version snapshot w h = ground arith

  -- The stages that the phase has to pass: a snapshot of the packaged components is at hand, the
  -- plans could be prepared, every plan in order is complete on nodes that are ready, schedulable
  -- and at the target version, and at last the packaged components are available.
  abbrev pub IsUpgradedCluster : Config → KubernetesConfig → W → Type 0
  IsUpgradedCluster config k8s w =
      let taken = components.generate_snapshot config w in
      let prepared = prepare_kubernetes_plans client config k8s taken.1 in
      (snapshot : ComponentsSnapshot) × (ps : List Plan) × (taken.0 ≡ ok snapshot)
      × (prepared.0 ≡ ok ps)
      × AllPlansVerified suc k8s.version ps prepared.1
      × ComponentsAvailable
          (components.reconcile_availability k8s.version snapshot
            (world_after_plans suc k8s.version ps prepared.1)).0

  module _ (plan_states : (p : Plan) (v : W) → ReportsPlanState (suc p v).0)
      (availability : (version : String) (s : ComponentsSnapshot) (v : W)
        → ReportsNoSuccess (components.reconcile_availability version s v).0) where
    -- For a configuration with a Kubernetes part, the phase reports success exactly when a snapshot
    -- of the packaged components is at hand, the plans could be prepared, every plan in order is
    -- complete and has nodes that are all ready, schedulable and at the target version, and at
    -- last the packaged components are available. This is under two conditions: plans report the
    -- states of plans, and the handler of the components never a success of the whole phase.
    pub reconcile_kubernetes-Succeeds_iff :
        (config : Config) (k8s : KubernetesConfig) (w : W)
        → config.kubernetes ≡ some k8s
        → Succeeds (reconcile_kubernetes client suc components (some config) w).0
          ↔ IsUpgradedCluster config k8s w
    unfolding reconcile_kubernetes
    reconcile_kubernetes-Succeeds_iff config k8s w given =
        let taken = components.generate_snapshot config w in
        let prepared = prepare_kubernetes_plans client config k8s taken.1 in
        let finish = finish_kubernetes client suc components k8s.version in
        let run = λ (s : ComponentsSnapshot). run_kubernetes_plans suc k8s.version (finish s) in
        let plans = λ (s : ComponentsSnapshot) (v : W).
          in_context "preparing Kubernetes upgrade plans"
            (prepare_kubernetes_plans client config k8s v) (run s) in
        let first : String = "generating Kubernetes packaged components snapshot" in
        let second : String = "preparing Kubernetes upgrade plans" in
        simp given (
          (λ h.
              let (s, found, later) = in_context-inv Succeeds first taken plans (λ e x. x) h in
              let (ps, planned, rest) =
                in_context-inv Succeeds second prepared (run s) (λ e x. x) later in
              let (verified, end) =
                run_kubernetes_plans-Succeeds suc k8s.version plan_states (finish s) ps prepared.1
                  rest in
              let v = world_after_plans suc k8s.version ps prepared.1 in
              (
                s,
                ps,
                found,
                planned,
                verified,
                finish_kubernetes-Succeeds k8s.version s v (availability k8s.version s v) end,
              )),
          (λ (s, ps, found, planned, verified, available).
              let v = world_after_plans suc k8s.version ps prepared.1 in
              in_context-run Succeeds first taken plans s found (
                in_context-run Succeeds second prepared (run s) ps planned (
                  run_kubernetes_plans_of_AllPlansVerified suc k8s.version (finish s) ps prepared.1
                    verified
                    (finish_kubernetes_of_ComponentsAvailable k8s.version s v available)))),
        )
