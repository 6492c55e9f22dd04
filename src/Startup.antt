-- ===== src/Startup.antt =====
-- cmd/main.go: from the flags of the command line to a manager that runs.
pub mod Options
pub mod Order
use Prim.Native.String.{◌∷◌, []}
use elemental_lifecycle_mana.Prelude.{
  String, Bool, true, Option, none, some, ◌==◌, not, if◌then◌else◌,
}
use elemental_lifecycle_mana.Phase.Names.{has_prefix}
use elemental_lifecycle_mana.Errors.{Error, M, pure, ◌>>=◌, ◌>>◌}
use elemental_lifecycle_mana.Helm.{HelmClient}
use elemental_lifecycle_mana.Helm.Storage.{Storage, StorageLibs, storage_client, new_client}
use elemental_lifecycle_mana.Cluster.{Client}
use elemental_lifecycle_mana.Reconcilers.Kubernetes.{ComponentsHandler}
use elemental_lifecycle_mana.Reconcilers.Rke2.{rke2_handler}
use elemental_lifecycle_mana.Reconcilers.Rke2.Snapshot.{SnapshotLibs}
use Options.{Flags, ManagerOptions, manager_options}

-- `strings.Contains`.
unfoldable pub contains : String → String → Bool
unfolding has_prefix
contains [] part = has_prefix [] part
contains (c ∷ s) part =
    let later = contains s part in if has_prefix (c ∷ s) part then true else later

module _ {W : Type 0} (libs : SnapshotLibs) (client : Client W) (helm : HelmClient W) where
  -- The switch over the distribution: a handler for RKE2, and the nil interface for all others.
  unfoldable pub packaged_components_handler : String → Option (ComponentsHandler W)
  unfolding contains rke2_handler
  packaged_components_handler git_version =
      if contains git_version "rke2" then some (rke2_handler libs client helm none) else none

-- The calls of `main` to the manager of controller-runtime and to the cluster. `new_manager` is
-- ctrl.NewManager with ctrl.GetConfigOrDie, `setup_controller` is SetupWithManager of the reconciler
-- that `release_reconciler` describes, for the given client of Helm and handler.
pub record Runtime (W Config Clientset : Type 0) : Type 0 where
  pub new_manager : ManagerOptions → M W (Unit {0})
  pub storage_libs : StorageLibs W Config Clientset
  pub new_discovery_client : M W (Unit {0})
  pub server_version : M W String
  pub setup_controller : HelmClient W → Option (ComponentsHandler W) → M W (Unit {0})
  pub enable_webhooks : String
  pub setup_webhook : M W (Unit {0})
  pub add_healthz_check : M W (Unit {0})
  pub add_readyz_check : M W (Unit {0})
  pub start : M W (Unit {0})

module _ {W Config Clientset : Type 0} (runtime : Runtime W Config Clientset) (libs : SnapshotLibs)
    (client : Client W) where
  abbrev pub setup_webhook_unless_disabled : M W (Unit {0})
  setup_webhook_unless_disabled =
      if not (runtime.enable_webhooks == "false") then runtime.setup_webhook else pure tt

  -- From the helm client on.
  abbrev pub run_manager : Storage W → M W (Unit {0})
  run_manager storage = do
    let helm = storage_client storage
    runtime.new_discovery_client
    git_version ← runtime.server_version
    runtime.setup_controller helm (packaged_components_handler libs client helm git_version)
    setup_webhook_unless_disabled
    runtime.add_healthz_check
    runtime.add_readyz_check
    runtime.start

  -- `main`. Each error ends the program with the exit code 1.
  unfoldable pub main : Flags → M W (Unit {0})
  unfolding manager_options new_client packaged_components_handler
  main flags = do
    runtime.new_manager (manager_options flags)
    storage ← new_client runtime.storage_libs
    run_manager storage
