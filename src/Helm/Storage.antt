-- ===== src/Helm/Storage.antt =====
-- `StorageClient` of internal/helm/helm.go: the client that reads Helm's own storage.
use Prim.Native.String.{◌++◌}
use elemental_lifecycle_mana.Prelude.{ℕ, String}
use elemental_lifecycle_mana.Errors.{message, M, pure, throw, ◌>>=◌, context}
use elemental_lifecycle_mana.Helm.{ReleaseInfo, HelmClient}
use elemental_lifecycle_mana.Helm.Values.{Fields}

-- A release of the package release/v1 of Helm, with the fields that the program reads.
pub record HelmRelease : Type 0 where
  pub chart_version : String
  pub namespace : String
  pub config : Fields
  pub version : ℕ

-- Helm's storage answers with a value of some type, here a release or another type by its name.
pub data StoredRelease : Type 0 where
  release_v1 : HelmRelease → StoredRelease
  other_type : String → StoredRelease

-- helmstorage.Storage, of which `last` is the method Last.
pub record Storage (W : Type 0) : Type 0 where
  pub last : String → M W StoredRelease

abbrev pub release_info : {W : Type 0} → StoredRelease → M W ReleaseInfo
release_info (other_type t) = throw (message ("unexpected release type: " ++ t))
release_info (release_v1 r) = pure (record {
  chart_version = r.chart_version;
  namespace = r.namespace;
  config = r.config;
  revisions = r.version;
})

-- `RetrieveRelease`.
unfoldable pub retrieve_stored_release : {W : Type 0} → Storage W → String → M W ReleaseInfo
retrieve_stored_release storage name = storage.last name >>= release_info

abbrev pub storage_client : {W : Type 0} → Storage W → HelmClient W
unfolding retrieve_stored_release
storage_client storage = record { retrieve_release = retrieve_stored_release storage }

-- What `NewClient` calls: config.GetConfig, kubernetes.NewForConfig, and the storage over the secrets
-- of all namespaces.
pub record StorageLibs (W Config Clientset : Type 0) : Type 0 where
  pub get_config : M W Config
  pub new_for_config : Config → M W Clientset
  pub init_storage : Clientset → Storage W

unfoldable pub new_client :
    {W Config Clientset : Type 0} → StorageLibs W Config Clientset → M W (Storage W)
new_client libs = do
  cfg ← context "retrieving cluster config" libs.get_config
  clientset ← context "creating kubernetes client" (libs.new_for_config cfg)
  pure (libs.init_storage clientset)
