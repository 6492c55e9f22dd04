-- ===== src/Reconcilers/Kubernetes/Plans.antt =====
-- The plans that the phase of internal/upgrade/reconcilers/kubernetes.go prepares, from
-- internal/plan/kubernetes.go and internal/plan/base.go.
use elemental_lifecycle_mana.Prelude.{
  String, Bool, true, false, none, some, List, [], ◌∷◌, ◌≡◌, refl, not, is_some, if◌then◌else◌, inl,
  inr, Bool-cases,
}
use elemental_lifecycle_mana.Errors.{Result, ok, err, pure}
use elemental_lifecycle_mana.Errors.Laws.{in_context}
use elemental_lifecycle_mana.Cluster.{Node, NodeSelector, ContainerSpec, Plan, Client}
use elemental_lifecycle_mana.Config.{Config, KubernetesConfig}
use elemental_lifecycle_mana.Plan.{
  on_control_plane, on_workers, base_plan, kubernetes_control_plane, kubernetes_worker,
}
use elemental_lifecycle_mana.Reconcilers.Nodes.{is_control_plane_only_cluster}
use elemental_lifecycle_mana.Reconcilers.Nodes.Laws.{
  has_worker, is_control_plane_only_cluster-has_worker,
}
use elemental_lifecycle_mana.Reconcilers.Kubernetes.{prepare_kubernetes_plans}

-- The plan takes the selected nodes one at a time to the version, and drains each, or else cordons it.
abbrev pub Upgrades : NodeSelector → String → Bool → Plan → Type 0
Upgrades selector version drain p =
    (p.node_selector ≡ some selector)
    × (p.version ≡ version)
    × (p.concurrency ≡ 1)
    × (is_some p.drain ≡ drain)
    × (p.cordon ≡ not drain)

-- The preparation of `q` waits for the plan `p`.
abbrev pub WaitsFor : Plan → Plan → Type 0
WaitsFor q p = (c : ContainerSpec) × (q.prepare ≡ some c) × (c.args ≡ "prepare" ∷ p.name ∷ [])

abbrev pub IsUpgradeOrder : KubernetesConfig → List Node → List Plan → Type 0
IsUpgradeOrder k8s nodes [] = ⊥
IsUpgradeOrder k8s nodes (p ∷ []) =
    Upgrades on_control_plane k8s.version k8s.drain_opts.control_plane p
    × (p.prepare ≡ none)
    × (has_worker nodes ≡ false)
IsUpgradeOrder k8s nodes (p ∷ q ∷ []) =
    Upgrades on_control_plane k8s.version k8s.drain_opts.control_plane p
    × (p.prepare ≡ none)
    × Upgrades on_workers k8s.version k8s.drain_opts.worker q
    × WaitsFor q p
    × (has_worker nodes ≡ true)
IsUpgradeOrder k8s nodes (p ∷ q ∷ r ∷ ps) = ⊥

abbrev pub HasUpgradeOrder : KubernetesConfig → Result (List Node) → Result (List Plan) → Type 0
HasUpgradeOrder k8s listed (err e) = Unit
HasUpgradeOrder k8s (err e) (ok ps) = ⊥
HasUpgradeOrder k8s (ok nodes) (ok ps) = IsUpgradeOrder k8s nodes ps

control_plane-Upgrades :
    (name version k8s_version : String) (drain : Bool)
    → Upgrades on_control_plane k8s_version drain
        (kubernetes_control_plane name version k8s_version drain)
unfolding kubernetes_control_plane base_plan
control_plane-Upgrades name version k8s_version true = (refl, refl, refl, refl, refl)
control_plane-Upgrades name version k8s_version false = (refl, refl, refl, refl, refl)

worker-Upgrades :
    (name version k8s_version : String) (drain : Bool)
    → Upgrades on_workers k8s_version drain (kubernetes_worker name version k8s_version drain)
unfolding kubernetes_worker base_plan
worker-Upgrades name version k8s_version true = (refl, refl, refl, refl, refl)
worker-Upgrades name version k8s_version false = (refl, refl, refl, refl, refl)

worker-WaitsFor :
    (name version k8s_version : String) (drain other : Bool)
    → WaitsFor
        (kubernetes_worker name version k8s_version drain)
        (kubernetes_control_plane name version k8s_version other)
unfolding kubernetes_worker kubernetes_control_plane base_plan
worker-WaitsFor name version k8s_version drain other = (_, refl, refl)

control_plane-waits_for_nothing :
    (name version k8s_version : String) (drain : Bool)
    → (kubernetes_control_plane name version k8s_version drain).prepare ≡ none
unfolding kubernetes_control_plane base_plan
control_plane-waits_for_nothing name version k8s_version drain = refl

module _ (config : Config) (k8s : KubernetesConfig) where
  abbrev control_plane_plan : Plan
  control_plane_plan =
      kubernetes_control_plane config.release_name config.release_version k8s.version
        k8s.drain_opts.control_plane

  abbrev worker_plan : Plan
  worker_plan =
      kubernetes_worker config.release_name config.release_version k8s.version k8s.drain_opts.worker

  chosen-IsUpgradeOrder :
      {W : Type 0} (nodes : List Node) (w : W)
      → HasUpgradeOrder k8s
          (ok nodes)
          ((if not (is_control_plane_only_cluster nodes)
              then pure (control_plane_plan ∷ worker_plan ∷ [])
              else pure (control_plane_plan ∷ []))
            w).0
  chosen-IsUpgradeOrder nodes w =
      let first =
        control_plane-Upgrades config.release_name config.release_version k8s.version
          k8s.drain_opts.control_plane in
      let free =
        control_plane-waits_for_nothing config.release_name config.release_version k8s.version
          k8s.drain_opts.control_plane in
      elim (Bool-cases (has_worker nodes)) [
        | inl e ↦
            rw (is_control_plane_only_cluster-has_worker nodes, e)
              (
                first,
                free,
                worker-Upgrades config.release_name config.release_version k8s.version
                    k8s.drain_opts.worker,
                worker-WaitsFor config.release_name config.release_version k8s.version
                    k8s.drain_opts.worker k8s.drain_opts.control_plane,
                e,
              )
        | inr e ↦ rw (is_control_plane_only_cluster-has_worker nodes, e) (first, free, e)
      ]

  listed-HasUpgradeOrder :
      {W : Type 0} (r : Result (List Node) × W)
      → HasUpgradeOrder k8s r.0
          (in_context "listing cluster nodes" r (λ nodes.
            if not (is_control_plane_only_cluster nodes)
            then pure (control_plane_plan ∷ worker_plan ∷ [])
            else pure (control_plane_plan ∷ []))).0
  listed-HasUpgradeOrder (ok nodes, w) = chosen-IsUpgradeOrder nodes w
  listed-HasUpgradeOrder (err e, w) = tt

module _ {W : Type 0} (client : Client W) where
  -- When the phase prepares plans without an error, the nodes were listed. The first plan takes the
  -- control-plane nodes to the version, and a second, for the workers, follows exactly when some
  -- listed node is no control-plane node; there is never a third. Each plan takes one node at a time
  -- and drains it if the options of the phase say so for its nodes, or else cordons it. The first
  -- plan waits for nothing, and the second waits for the first by its name.
  pub prepare_kubernetes_plans-HasUpgradeOrder :
      (config : Config) (k8s : KubernetesConfig) (w : W)
      → HasUpgradeOrder k8s (client.list_nodes w).0 (prepare_kubernetes_plans client config k8s w).0
  unfolding prepare_kubernetes_plans
  prepare_kubernetes_plans-HasUpgradeOrder config k8s w =
      listed-HasUpgradeOrder config k8s (client.list_nodes w)
