-- ===== src/Cache/RoundTrip.antt =====
-- Reads after writes of the manifest cache in internal/release/manifest_cache.go.
use elemental_lifecycle_mana.Prelude.{
  String, Bool, true, false, Option, none, some, [], ◌∷◌, ◌≡◌, refl, ap, ◌∙◌, eq_refl, lookup,
  insert, lookup-insert, if◌then◌else◌,
}
use elemental_lifecycle_mana.Errors.{
  Error, is_not_found, wrap, Result, ok, err, M, throw, then_with, with_context, settle, continue,
}
use elemental_lifecycle_mana.Config.{ResolvedManifest}
use elemental_lifecycle_mana.Cluster.{ConfigMap, Client}
use elemental_lifecycle_mana.Cache.{
  cache_name, ManifestCodec, read_entry, get_text, write_entry, set_text, decode_entry,
  get_manifest, set_manifest,
}

-- What the cache relies on, if nothing else writes its ConfigMap in between: a ConfigMap that was
-- created or updated without an error has the data that was written when it is read, whatever the
-- API server makes of the rest, and a ConfigMap that was read has the name that was asked for.
pub record CacheLaws {W : Type 0} (client : Client W) : Type 0 where
  pub get_update :
      (m : ConfigMap) (w v : W)
      → client.update_config_map m w ≡ (ok tt, v)
      → (n : ConfigMap) × ((client.get_config_map m.namespace m.name v).0 ≡ ok n)
        × (n.entries ≡ m.entries)
  pub get_create :
      (m : ConfigMap) (w v : W)
      → client.create_config_map m w ≡ (ok tt, v)
      → (n : ConfigMap) × ((client.get_config_map m.namespace m.name v).0 ≡ ok n)
        × (n.entries ≡ m.entries)
  pub get_identity :
      (namespace name : String) (m : ConfigMap) (w v : W)
      → client.get_config_map namespace name w ≡ (ok m, v)
      → (m.namespace ≡ namespace) × (m.name ≡ name)

module _ {W : Type 0} (client : Client W) (codec : ManifestCodec) (laws : CacheLaws client) where
  -- In the world `w` the cache has the text under the key.
  abbrev HasText : String → String → String → W → Type 0
  HasText namespace key text w =
      (m : ConfigMap) × ((client.get_config_map namespace cache_name w).0 ≡ ok m)
      × (lookup key m.entries ≡ some text)

  abbrev new_cache : String → String → String → ConfigMap
  new_cache namespace key text = record {
    name = cache_name;
    namespace = namespace;
    labels = [];
    annotations = [];
    entries = (key, text) ∷ [];
    creation_timestamp = 0;
    deletion_timestamp = none;
  }

  pick :
      (b : Bool) (m : M W (Unit {0})) (e : Error) (v w : W)
      → (if b then m else throw e) v ≡ (ok tt, w)
      → m v ≡ (ok tt, w)
  pick true m e v w h = h
  pick false m e v w h = cc

  write_entry-HasText :
      (namespace key text : String) (r : Result ConfigMap × W) (u w : W)
      → client.get_config_map namespace cache_name u ≡ r
      → settle r (write_entry client namespace key text) ≡ (ok tt, w)
      → HasText namespace key text w
  unfolding write_entry lookup
  write_entry-HasText namespace key text (ok m, v) u w found written =
      let stored : ConfigMap = record m { entries = insert key text m.entries } in
      let (namespace_same, name_same) = laws.get_identity namespace cache_name m u v found in
      let (read, kept, same) = laws.get_update stored v w written in
      (
        read,
        cc (namespace_same, name_same, kept),
        ap (lookup key) same ∙ lookup-insert key key text m.entries ∙ rw (eq_refl key) refl,
      )
  write_entry-HasText namespace key text (err e, v) u w found written =
      let made = new_cache namespace key text in
      let created =
        pick (is_not_found e) (client.create_config_map made)
          (wrap "getting manifest cache ConfigMap" e) v w written in
      let (read, kept, same) = laws.get_create made v w created in
      (read, kept, ap (lookup key) same ∙ rw (eq_refl key) refl)

  set_text-HasText :
      (namespace key text : String) (u w : W)
      → set_text client namespace key text u ≡ (ok tt, w)
      → HasText namespace key text w
  unfolding set_text
  set_text-HasText namespace key text u w written =
      write_entry-HasText namespace key text (client.get_config_map namespace cache_name u) u w refl
        written

  set_manifest-HasText :
      (namespace version : String) (manifest : ResolvedManifest) (r : Result String) (u w : W)
      → codec.encode manifest ≡ r
      → continue (with_context "marshaling manifest" r, u) (set_text client namespace version)
        ≡ (ok tt, w)
      → (text : String) × (codec.encode manifest ≡ ok text) × HasText namespace version text w
  set_manifest-HasText namespace version manifest (ok text) u w e written =
      (text, e, set_text-HasText namespace version text u w written)
  set_manifest-HasText namespace version manifest (err d) u w e written = cc

  -- What encoding/json makes of the text of a cached manifest.
  abbrev pub reading : String → Result (Option ResolvedManifest)
  reading text =
      then_with (with_context "unmarshaling cached manifest" (codec.decode text)) (λ m. ok (some m))

  decode_entry-reading :
      (text : String) (q : Result ResolvedManifest) (v : W)
      → codec.decode text ≡ q
      → (decode_entry client codec (some text) v).0 ≡ reading text
  unfolding decode_entry
  decode_entry-reading text (ok m) v e = rw e refl
  decode_entry-reading text (err d) v e = rw e refl

  get_manifest-HasText :
      (namespace version text : String) (r : Result ConfigMap × W)
      → (m : ConfigMap) × (r.0 ≡ ok m) × (lookup version m.entries ≡ some text)
      → (continue (settle r (read_entry client version)) (decode_entry client codec)).0
        ≡ reading text
  unfolding read_entry
  get_manifest-HasText namespace version text (q, v) (m, found, there) =
      rw found (rw there (decode_entry-reading text (codec.decode text) v refl))

  -- After a manifest was stored without an error, the cache answers for its version with what
  -- encoding/json reads from the text that it wrote for this manifest, when nothing else writes the
  -- cache in between.
  pub get_manifest-set_manifest :
      (namespace version : String) (manifest : ResolvedManifest) (u w : W)
      → set_manifest client codec namespace version manifest u ≡ (ok tt, w)
      → (text : String) × (codec.encode manifest ≡ ok text)
        × ((get_manifest client codec namespace version w).0 ≡ reading text)
  unfolding set_manifest get_manifest get_text
  get_manifest-set_manifest namespace version manifest u w stored =
      let (text, encoded, there) =
        set_manifest-HasText namespace version manifest (codec.encode manifest) u w refl stored in
      (
        text,
        encoded,
        get_manifest-HasText namespace version text (client.get_config_map namespace cache_name w)
            there,
      )
