-- ===== src/Helm/Values.antt =====
-- internal/helm/values.go: merging of chart values. The decoders for YAML and JSON are parameters.
pub mod Merge
use elemental_lifecycle_mana.Prelude.{
  String, Bool, Option, none, some, List, [], ◌∷◌, ◌==◌, if◌then◌else◌,
}
use elemental_lifecycle_mana.Api.{RawJson}
use elemental_lifecycle_mana.Errors.{message, Result, ok, err, then_with, with_context}

-- A value of Go's type `any` as the decoders make it; numbers keep their text. yaml.v3 makes an
-- `int` of a whole number where encoding/json makes every number a `float64`, and only yaml.v3 makes
-- other values, such as a `time.Time`.
mutual
  pub data Value : Type 0 where
    null : Value
    boolean : Bool → Value
    integer : String → Value
    float : String → Value
    text : String → Value
    sequence : Items → Value
    mapping : Fields → Value
    other : String → Value

  -- `map[string]any`; the empty map stands for the nil map too.
  pub data Fields : Type 0 where
    end : Fields
    field : String → Value → Fields → Fields

  -- `[]any`.
  pub data Items : Type 0 where
    no_items : Items
    item : Value → Items → Items

-- `v, ok := m[k]`
unfoldable pub get : String → Fields → Option Value
get k end = none
get k (field j v m) = if j == k then some v else get k m

-- `m[k] = v`
unfoldable pub put : String → Value → Fields → Fields
put k v end = field k v end
put k v (field j w m) = if j == k then field k v m else field j w (put k v m)

unfoldable mutual
  -- The loop of `mergeMaps` over `m2`, into the copy of `m1`.
  pub merge_maps : Fields → Fields → Fields
  merge_maps out end = out
  merge_maps out (field k v m2) = merge_maps (put k (merge_value (get k out) v) out) m2

  -- The value that the loop stores: two maps are merged, any other value replaces.
  pub merge_value : Option Value → Value → Value
  merge_value none v = v
  merge_value (some (mapping inner)) (mapping m) = mapping (merge_maps inner m)
  merge_value (some _) v = v

pub data Source : Type 0 where
  absent : Source
  from_text : String → Source
  from_bytes : String → Source
  from_map : Fields → Source
  from_json : Option RawJson → Source
  unexpected : String → Source

-- yaml.Unmarshal and json.Unmarshal into a `map[string]any`, json.Marshal and yaml.Marshal of one.
pub record Codec : Type 0 where
  pub decode_yaml : String → Result Fields
  pub decode_json : String → Result Fields
  pub encode_json : Fields → Result String
  pub encode_yaml : Fields → Result String

module _ (codec : Codec) where
  open codec use {decode_yaml, decode_json}

  unfoldable pub to_values_map : Source → Result Fields
  to_values_map absent = ok end
  to_values_map (from_text s) =
      if s == ""
      then ok end
      else with_context "unmarshaling chart values from string" (decode_yaml s)
  to_values_map (from_bytes s) =
      if s == ""
      then ok end
      else with_context "unmarshaling chart values from byte slice" (decode_yaml s)
  to_values_map (from_map m) = ok m
  to_values_map (from_json none) = ok end
  to_values_map (from_json (some j)) =
      if j.raw == ""
      then ok end
      else with_context "unmarshaling chart values from JSON" (decode_json j.raw)
  to_values_map (unexpected s) = err (message s)

  -- The loop of `MergeHelmValues`.
  unfoldable pub merge_sources : Fields → List Source → Result Fields
  merge_sources merged [] = ok merged
  merge_sources merged (v ∷ vs) =
      then_with (with_context "converting to values map" (to_values_map v))
        (λ m. merge_sources (merge_maps merged m) vs)

  abbrev pub nil_if_empty : Fields → Option Fields
  nil_if_empty end = none
  nil_if_empty (field k v m) = some (field k v m)

  unfoldable pub merge_helm_values : List Source → Result (Option Fields)
  unfolding merge_sources to_values_map
  merge_helm_values sources =
      then_with (merge_sources end sources) (λ merged. ok (nil_if_empty merged))
