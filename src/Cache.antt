-- ===== src/Cache.antt =====
-- internal/release: release manifests from a registry, and their cache in a ConfigMap.
pub mod RoundTrip
use Prim.Native.String.{◌++◌}
use elemental_lifecycle_mana.Prelude.{
  String, Option, none, some, List, [], ◌∷◌, ◌==◌, lookup, insert, if◌then◌else◌,
}
use elemental_lifecycle_mana.Phase.Names.{has_prefix}
use elemental_lifecycle_mana.Errors.{
  Error, message, is_not_found, wrap, Result, ok, err, with_context, M, pure, throw, from_result,
  ◌>>=◌, attempt, context,
}
use elemental_lifecycle_mana.Config.{ResolvedManifest}
use elemental_lifecycle_mana.Cluster.{ConfigMap, Client}

abbrev pub cache_name : String
cache_name = "release-manifest-cache"

-- json.Marshal and json.Unmarshal of a manifest of the manifest library.
pub record ManifestCodec : Type 0 where
  pub encode : ResolvedManifest → Result String
  pub decode : String → Result ResolvedManifest

module _ {W : Type 0} (client : Client W) where
  unfoldable pub read_entry : String → Result ConfigMap → M W (Option String)
  read_entry key (ok m) = pure (lookup key m.entries)
  read_entry key (err e) =
      if is_not_found e then pure none else throw (wrap "getting manifest cache ConfigMap" e)

  -- The private method `get`; `none` is a missing ConfigMap or key.
  unfoldable pub get_text : String → String → M W (Option String)
  unfolding read_entry
  get_text namespace key = attempt (client.get_config_map namespace cache_name) (read_entry key)

  unfoldable pub write_entry : String → String → String → Result ConfigMap → M W (Unit {0})
  write_entry namespace key value (ok m) =
      client.update_config_map (record m { entries = insert key value m.entries })
  write_entry namespace key value (err e) =
      if is_not_found e
      then client.create_config_map (record {
        name = cache_name;
        namespace = namespace;
        labels = [];
        annotations = [];
        entries = (key, value) ∷ [];
        creation_timestamp = 0;
        deletion_timestamp = none;
      })
      else throw (wrap "getting manifest cache ConfigMap" e)

  -- The private method `set`.
  unfoldable pub set_text : String → String → String → M W (Unit {0})
  unfolding write_entry
  set_text namespace key value =
      attempt (client.get_config_map namespace cache_name) (write_entry namespace key value)

  module _ (codec : ManifestCodec) where
    unfoldable pub decode_entry : Option String → M W (Option ResolvedManifest)
    decode_entry none = pure none
    decode_entry (some text) =
        from_result (with_context "unmarshaling cached manifest" (codec.decode text)) >>= λ m.
        pure (some m)

    unfoldable pub get_manifest : String → String → M W (Option ResolvedManifest)
    unfolding get_text decode_entry
    get_manifest namespace version = get_text namespace version >>= decode_entry

    unfoldable pub set_manifest : String → String → ResolvedManifest → M W (Unit {0})
    unfolding set_text
    set_manifest namespace version manifest =
        from_result (with_context "marshaling manifest" (codec.encode manifest))
        >>= set_text namespace version

-- A file of the image's tar stream, with the outcome of reading its contents.
pub record TarEntry : Type 0 where
  pub name : String
  pub contents : Result String

-- The stream ends with io.EOF or with another error.
pub record TarStream : Type 0 where
  pub entries : List TarEntry
  pub end : Option Error

abbrev pub manifest_path : String
manifest_path = "release_manifest.yaml"

abbrev pub end_error : Option Error → Error
end_error none = message ("manifest file not found in image at path: " ++ manifest_path)
end_error (some e) = wrap "reading tar stream" e

-- The loop over the tar stream.
unfoldable pub find_manifest : Option Error → List TarEntry → Result String
find_manifest end [] = err (end_error end)
find_manifest end (h ∷ hs) =
    let rest = find_manifest end hs in
    if h.name == manifest_path
    then with_context "reading manifest file contents" h.contents
    else rest

-- The registry client of go-containerregistry: references, images and their extracted files.
module _ {W Ref : Type 0} (parse_reference : String → Result Ref)
    (fetch : Ref → M W TarStream) where
  unfoldable pub read_uri : String → M W String
  unfolding find_manifest
  read_uri image_ref = do
    ref ←
        from_result
          (with_context ("parsing image reference " ++ image_ref) (parse_reference image_ref))
    stream ← context ("fetching remote image " ++ image_ref) (fetch ref)
    from_result (find_manifest stream.end stream.entries)

-- `resolve` is the resolver of the manifest library over this reader.
module _ {W : Type 0} (resolve : String → M W ResolvedManifest) where
  unfoldable pub image_reference : String → String → String
  unfolding has_prefix
  image_reference registry version =
      let ref = registry ++ (":" ++ version) in
      if has_prefix ref "oci://" then ref else "oci://" ++ ref

  unfoldable pub retrieve_manifest : String → String → M W ResolvedManifest
  unfolding image_reference
  retrieve_manifest registry version = resolve (image_reference registry version)
