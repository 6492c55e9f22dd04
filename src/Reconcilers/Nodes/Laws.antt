-- ===== src/Reconcilers/Nodes/Laws.antt =====
-- What the tests on nodes decide.
use elemental_lifecycle_mana.Prelude.{
  String, Bool, true, false, List, [], ◌∷◌, ◌≡◌, ◌≢◌, ◌↔◌, refl, not, any, arith, All,
}
use elemental_lifecycle_mana.Cluster.{Node}
use elemental_lifecycle_mana.Reconcilers.Nodes.{
  is_control_plane, is_control_plane_only_cluster, is_node_ready, kubelet_version_matches,
  check_nodes, all_nodes_at_kubernetes_version,
}

abbrev pub has_worker : List Node → Bool
has_worker nodes = any (λ n. not (is_control_plane n)) nodes

pub is_control_plane_only_cluster-has_worker :
    (nodes : List Node) → is_control_plane_only_cluster nodes ≡ not (has_worker nodes)
unfolding is_control_plane_only_cluster
is_control_plane_only_cluster-has_worker [] = refl
is_control_plane_only_cluster-has_worker (n ∷ nodes) =
    ground (arith, is_control_plane_only_cluster-has_worker nodes)

-- A node that runs the target version, is ready and accepts pods.
abbrev pub IsUpgraded : String → Node → Type 0
IsUpgraded target n =
    (is_node_ready n ≡ true)
    × (n.unschedulable ≡ false)
    × (kubelet_version_matches n.kubelet_version target ≡ true)

check_nodes_iff :
    (nodes : List Node) (target : String)
    → (check_nodes nodes target ≡ true) ↔ All (IsUpgraded target) nodes
unfolding check_nodes
check_nodes_iff [] target = ground arith
check_nodes_iff (n ∷ nodes) target = ground (arith, check_nodes_iff nodes target)

-- The test on the nodes of a plan holds exactly when there is a node and each one is ready,
-- schedulable and at the target version.
pub all_nodes_at_kubernetes_version_iff :
    (nodes : List Node) (target : String)
    → (all_nodes_at_kubernetes_version nodes target ≡ true)
      ↔ ((nodes ≢ []) × All (IsUpgraded target) nodes)
unfolding all_nodes_at_kubernetes_version
all_nodes_at_kubernetes_version_iff [] target = ground arith
all_nodes_at_kubernetes_version_iff (n ∷ nodes) target =
    ground (arith, check_nodes_iff (n ∷ nodes) target)
