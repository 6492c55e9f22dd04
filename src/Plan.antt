-- ===== src/Plan.antt =====
-- internal/plan: the System Upgrade Controller plans for the nodes of a cluster.
pub mod Script
use Prim.Native.String.{◌++◌}
use elemental_lifecycle_mana.Prelude.{
  ℕ, String, Bool, true, false, Option, none, some, List, [], ◌∷◌, if◌then◌else◌,
}
use elemental_lifecycle_mana.Api.{release_name_label, release_version_label}
use elemental_lifecycle_mana.Api.Sanitize.{sanitize_version}
use elemental_lifecycle_mana.Errors.{Result, ok, then_with, with_context}
use elemental_lifecycle_mana.Cluster.{
  Labels, Operator, exists, does_not_exist, NodeSelector, DrainSpec, ContainerSpec, Plan,
}
use elemental_lifecycle_mana.Config.{Tag}
use Script.{parse_upgrade_script}

abbrev pub plan_namespace : String
plan_namespace = "cattle-system"

abbrev pub control_plane_label : String
control_plane_label = "node-role.kubernetes.io/control-plane"

abbrev pub rke2_upgrade_image : String
rke2_upgrade_image = "rancher/rke2-upgrade"

abbrev pub drain_spec : DrainSpec
drain_spec = record {
  timeout = "15m";
  delete_empty_dir_data = true;
  ignore_daemon_sets = true;
  force = true;
}

-- A plan that is not drained is cordoned.
unfoldable pub base_plan : String → Bool → Plan
base_plan name drain = record {
  kind = "Plan";
  api_version = "upgrade.cattle.io/v1";
  name = name;
  namespace = plan_namespace;
  labels = [];
  service_account_name = "system-upgrade-controller";
  version = "";
  concurrency = 0;
  node_selector = none;
  drain = if drain then some drain_spec else none;
  cordon = if drain then false else true;
  prepare = none;
  upgrade = none;
  applying = [];
  conditions = [];
}

unfoldable pub kubernetes_control_plane_name : String → String
kubernetes_control_plane_name version =
    "elemental-kubernetes-control-plane" ++ ("-" ++ sanitize_version version)

unfoldable pub kubernetes_worker_name : String → String
kubernetes_worker_name version = "elemental-kubernetes-worker" ++ ("-" ++ sanitize_version version)

unfoldable pub os_control_plane_name : String → String
os_control_plane_name version = "elemental-os-control-plane" ++ ("-" ++ sanitize_version version)

unfoldable pub os_worker_name : String → String
os_worker_name version = "elemental-os-worker" ++ ("-" ++ sanitize_version version)

-- `map[string]string{ReleaseNameLabel: …, ReleaseVersionLabel: …}`.
unfoldable pub release_labels : String → String → Labels
release_labels release_name release_version =
    (release_name_label, release_name)
    ∷ (release_version_label, sanitize_version release_version)
    ∷ []

abbrev pub on_control_plane : NodeSelector
on_control_plane = record { key = control_plane_label; operator = exists }

abbrev pub on_workers : NodeSelector
on_workers = record { key = control_plane_label; operator = does_not_exist }

abbrev pub rke2_container : List String → ContainerSpec
rke2_container args = record { image = rke2_upgrade_image; command = []; args = args }

unfoldable pub kubernetes_control_plane : String → String → String → Bool → Plan
unfolding base_plan kubernetes_control_plane_name release_labels
kubernetes_control_plane release_name release_version k8s_version drain =
    let p = base_plan (kubernetes_control_plane_name k8s_version) drain in
    record p {
      labels = release_labels release_name release_version;
      version = k8s_version;
      concurrency = 1;
      node_selector = some on_control_plane;
      upgrade = some (rke2_container []);
    }

-- The preparation makes the workers wait for the plan of the control plane.
unfoldable pub kubernetes_worker : String → String → String → Bool → Plan
unfolding base_plan kubernetes_control_plane_name kubernetes_worker_name release_labels
kubernetes_worker release_name release_version k8s_version drain =
    let p = base_plan (kubernetes_worker_name k8s_version) drain in
    record p {
      labels = release_labels release_name release_version;
      version = k8s_version;
      concurrency = 1;
      node_selector = some on_workers;
      prepare = some (rke2_container ("prepare" ∷ kubernetes_control_plane_name k8s_version ∷ []));
      upgrade = some (rke2_container []);
    }

abbrev pub script_container : String → String → ContainerSpec
script_container image script = record {
  image = image;
  command = "/bin/sh" ∷ "-c" ∷ [];
  args = script ∷ [];
}

-- `env` is the value of E3CTL_FETCH_REMOTE, empty if unset.
module _ (new_tag : String → Result Tag) (env : String) where
  unfoldable pub os_control_plane : String → String → String → String → Bool → Result Plan
  unfolding base_plan os_control_plane_name release_labels
  os_control_plane release_name os_image os_version release_version drain =
      then_with
        (with_context "parsing OS upgrade script" (parse_upgrade_script new_tag env os_image))
        λ script.
          let p = base_plan (os_control_plane_name os_version) drain in
          ok (record p {
            labels = release_labels release_name release_version;
            version = os_version;
            concurrency = 1;
            node_selector = some on_control_plane;
            upgrade = some (script_container os_image script);
          })

  unfoldable pub os_worker : String → String → String → String → Bool → Result Plan
  unfolding base_plan os_worker_name release_labels
  os_worker release_name os_image os_version release_version drain =
      then_with
        (with_context "parsing OS upgrade script" (parse_upgrade_script new_tag env os_image))
        λ script.
          let p = base_plan (os_worker_name os_version) drain in
          ok (record p {
            labels = release_labels release_name release_version;
            version = os_version;
            concurrency = 1;
            node_selector = some on_workers;
            upgrade = some (script_container os_image script);
          })
