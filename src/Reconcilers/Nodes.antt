-- ===== src/Reconcilers/Nodes.antt =====
-- What the reconcilers of os.go and kubernetes.go (internal/upgrade/reconcilers) ask of nodes.
pub mod Laws
use elemental_lifecycle_mana.Prelude.{
  String, Bool, true, false, List, [], ◌∷◌, ◌==◌, not, is_some, is_empty, lookup, map,
  if◌then◌else◌,
}
use elemental_lifecycle_mana.Api.{status_is_true}
use elemental_lifecycle_mana.Phase.Names.{trim_prefix}
use elemental_lifecycle_mana.Cluster.{Node, ObjectCondition}
use elemental_lifecycle_mana.Plan.{control_plane_label}

unfoldable pub is_control_plane : Node → Bool
unfolding lookup
is_control_plane node = is_some (lookup control_plane_label node.labels)

-- True for an empty list.
unfoldable pub is_control_plane_only_cluster : List Node → Bool
unfolding is_control_plane
is_control_plane_only_cluster [] = true
is_control_plane_only_cluster (node ∷ nodes) =
    let rest = is_control_plane_only_cluster nodes in
    if not (is_control_plane node) then false else rest

unfoldable pub get_node_names : List Node → List String
get_node_names nodes = map (λ n. n.name) nodes

-- The first condition of type Ready decides.
unfoldable pub is_ready : List ObjectCondition → Bool
is_ready [] = false
is_ready (c ∷ cs) =
    let rest = is_ready cs in if c.kind == "Ready" then status_is_true c.status else rest

unfoldable pub is_node_ready : Node → Bool
unfolding is_ready
is_node_ready node = is_ready node.conditions

unfoldable pub kubelet_version_matches : String → String → Bool
unfolding trim_prefix
kubelet_version_matches kubelet target = trim_prefix "v" kubelet == trim_prefix "v" target

unfoldable pub check_nodes : List Node → String → Bool
unfolding is_node_ready kubelet_version_matches
check_nodes [] target = true
check_nodes (node ∷ nodes) target =
    let rest = check_nodes nodes target in
    if not (is_node_ready node)
    then false
    else if node.unschedulable
    then false
    else if not (kubelet_version_matches node.kubelet_version target)
    then false
    else rest

unfoldable pub all_nodes_at_kubernetes_version : List Node → String → Bool
unfolding check_nodes
all_nodes_at_kubernetes_version nodes target =
    if is_empty nodes then false else check_nodes nodes target
