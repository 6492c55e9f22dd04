-- ===== src/Controller/Manifests.antt =====
-- Where the reconciler of internal/controller/release_controller.go takes manifests from: the cache
-- in the cluster, its own memory of raw manifests, and the registry.
use Prim.Native.String.{◌++◌}
use elemental_lifecycle_mana.Prelude.{
  String, Option, none, some, List, ◌==◌, lookup, insert, if◌then◌else◌,
}
use elemental_lifecycle_mana.Api.{Release}
use elemental_lifecycle_mana.Errors.{Result, ok, err, M, pure, from_result, ◌>>=◌, ◌>>◌, attempt}
use elemental_lifecycle_mana.Config.{ResolvedManifest}
use elemental_lifecycle_mana.Cluster.{Client}
use elemental_lifecycle_mana.Cache.{ManifestCodec, get_manifest, set_manifest}

-- The field `RawManifests`, and the world together with it.
abbrev pub RawManifests : Type 0
RawManifests = List (String × String)

abbrev pub WithRaw : Type 0 → Type 0
WithRaw W = RawManifests × W

module _ {W : Type 0} where
  abbrev pub keep_raw : {A : Type 0} → RawManifests → Result A × W → Result A × WithRaw W
  keep_raw raw (r, w) = (r, (raw, w))

  -- A computation that does not reach the raw manifests.
  abbrev pub lift : {A : Type 0} → M W A → M (WithRaw W) A
  lift m (raw, w) = keep_raw raw (m w)

  abbrev pub look_up_raw : String → M (WithRaw W) (Option String)
  look_up_raw ref (raw, w) = (ok (lookup ref raw), (raw, w))

  abbrev pub store_raw : String → String → M (WithRaw W) (Unit {0})
  store_raw ref text (raw, w) = (ok tt, (insert ref text raw, w))

module _ {W : Type 0} (read_manifest : String → M W String)
    (decode_core_image : String → Result String) where
  -- A solution manifest names the image that holds the core manifest.
  abbrev pub fetch_core : String → String → M W String
  fetch_core text image = if image == "" then pure text else read_manifest image

  abbrev pub fetch_upgrade_manifest : String → M W String
  fetch_upgrade_manifest ref = do
    text ← read_manifest ref
    image ← from_result (decode_core_image text)
    fetch_core text image

  abbrev pub raw_or_fetch : String → Option String → M (WithRaw W) String
  raw_or_fetch ref (some text) = pure text
  raw_or_fetch ref none = do text ← lift (fetch_upgrade_manifest ref); store_raw ref text; pure text

  unfoldable pub get_or_retrieve_upgrade_manifest : Release → M (WithRaw W) String
  get_or_retrieve_upgrade_manifest release =
      let ref = release.spec.registry ++ (":" ++ release.spec.version) in
      look_up_raw ref >>= raw_or_fetch ref

module _ {W : Type 0} (client : Client W) (codec : ManifestCodec)
    (retrieve : String → String → M W ResolvedManifest) where
  abbrev pub after_set : ResolvedManifest → Result (Unit {0}) → M W ResolvedManifest
  after_set manifest r = pure manifest

  abbrev pub retrieve_and_cache : Release → M W ResolvedManifest
  retrieve_and_cache release = retrieve release.spec.registry release.spec.version >>= λ manifest.
      attempt (set_manifest client codec release.namespace release.spec.version manifest)
        (after_set manifest)

  abbrev pub cached_or_retrieve : Release → Result (Option ResolvedManifest) → M W ResolvedManifest
  cached_or_retrieve release (ok (some manifest)) = pure manifest
  cached_or_retrieve release (ok none) = retrieve_and_cache release
  cached_or_retrieve release (err e) = retrieve_and_cache release

  -- Errors of the cache are only logged.
  unfoldable pub get_or_retrieve_manifest : Release → M W ResolvedManifest
  unfolding get_manifest set_manifest
  get_or_retrieve_manifest release =
      attempt (get_manifest client codec release.namespace release.spec.version)
        (cached_or_retrieve release)
