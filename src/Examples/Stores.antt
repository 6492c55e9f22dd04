-- ===== src/Examples/Stores.antt =====
-- Examples of the manifest cache. Here the world is the one ConfigMap of the cache.
use elemental_lifecycle_mana.Prelude.{
  String, Bool, Option, none, some, [], ◌∷◌, ◌≡◌, refl, ap, subst, ◌==◌, ◌&&◌, eq_iff, eq_refl,
  arith, if◌then◌else◌,
}
use elemental_lifecycle_mana.Errors.{
  Error, message, not_found, release_not_found, Result, ok, err, M,
}
use elemental_lifecycle_mana.Cluster.{ConfigMap, Client}
use elemental_lifecycle_mana.Cache.{ManifestCodec, get_manifest, set_manifest}
use elemental_lifecycle_mana.Cache.RoundTrip.{CacheLaws, reading, get_manifest-set_manifest}
use elemental_lifecycle_mana.Examples.World.{manifest}

abbrev pub Store : Type 0
Store = Option ConfigMap

abbrev absent : {A : Type 0} → M Store A
absent s = (err (not_found "not found"), s)

abbrev is_named : String → String → ConfigMap → Bool
is_named namespace name m = m.namespace == namespace && m.name == name

abbrev read_store : String → String → Store → Result ConfigMap
read_store namespace name none = err (not_found "not found")
read_store namespace name (some m) =
    if is_named namespace name m then ok m else err (not_found "not found")

abbrev pub store : Client Store
store = record {
  get_release = λ namespace name. absent;
  list_releases = absent;
  update_release_status = λ r. absent;
  list_nodes = absent;
  list_first_node = absent;
  parse_selector = λ s. ok "selector";
  list_selected_nodes = λ s. absent;
  get_plan = λ namespace name. absent;
  create_plan = λ p. absent;
  list_plans = λ namespace labels. absent;
  delete_plan = λ p. absent;
  get_chart = λ namespace name. absent;
  create_chart = λ c. absent;
  update_chart = λ c. absent;
  list_charts = λ namespace. absent;
  get_job = λ namespace name. absent;
  get_config_map = λ namespace name s. (read_store namespace name s, s);
  create_config_map = λ m s. (ok tt, some m);
  update_config_map = λ m s. (ok tt, some m);
  delete_config_map = λ m. absent;
  get_secret = λ namespace name. absent;
}

-- A codec that knows the manifest of the examples.
abbrev codec : ManifestCodec
codec = record { encode = λ m. ok "manifest"; decode = λ s. ok manifest }

read_store-named : (m : ConfigMap) → read_store m.namespace m.name (some m) ≡ ok m
read_store-named m = rw (eq_refl m.namespace) (rw (eq_refl m.name) refl)

stored-named :
    (m : ConfigMap) (s : Store)
    → store.update_config_map m none ≡ (ok tt, s)
    → read_store m.namespace m.name s ≡ ok m
stored-named m s e =
    subst (λ t. read_store m.namespace m.name t ≡ ok m) (ap (λ r. r.1) e) (read_store-named m)

read_store-identity :
    (namespace name : String) (m : ConfigMap) (s : Store)
    → read_store namespace name s ≡ ok m
    → (m.namespace ≡ namespace) × (m.name ≡ name)
read_store-identity namespace name m none e = cc
read_store-identity namespace name m (some n) e =
    ground (arith, eq_iff n.namespace namespace, eq_iff n.name name)

store-CacheLaws : CacheLaws store
store-CacheLaws = record {
  get_update = λ m w v e. (m, stored-named m v e, refl);
  get_create = λ m w v e. (m, stored-named m v e, refl);
  get_identity = λ namespace name m w v e. read_store-identity namespace name m w (ap (λ r. r.0) e);
}

-- The cache holds the manifest of an older version.
abbrev old_cache : Store
old_cache = some (record {
  name = "release-manifest-cache";
  namespace = "";
  labels = [];
  annotations = [];
  entries = ("1.0.0", "old") ∷ [];
  creation_timestamp = 7;
  deletion_timestamp = none;
})

get_manifest-set_manifest_example :
    (text : String) × (codec.encode manifest ≡ ok text)
    × ((get_manifest store codec "" "1.1.0"
          (set_manifest store codec "" "1.1.0" manifest old_cache).1).0
        ≡ reading store codec store-CacheLaws text)
unfolding set_manifest elemental_lifecycle_mana.Errors.is_not_found
get_manifest-set_manifest_example =
    get_manifest-set_manifest store codec store-CacheLaws "" "1.1.0" manifest old_cache
      (set_manifest store codec "" "1.1.0" manifest old_cache).1 refl
