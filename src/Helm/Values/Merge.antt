-- ===== src/Helm/Values/Merge.antt =====
-- The merged maps of internal/helm/values.go, read key by key, against rules that are given here.
use elemental_lifecycle_mana.Prelude.{
  String, Option, none, some, ◌≡◌, refl, sym, subst, ◌==◌, inl, inr, Bool-cases, if◌then◌else◌,
  arith, eq_iff,
}
use elemental_lifecycle_mana.Helm.Values.{
  Value, null, boolean, integer, float, text, sequence, mapping, other, Fields, end, field, get,
  put, merge_maps, merge_value,
}

-- No key stands twice in the map or in a map below it, as in every map of Go.
unfoldable mutual
  pub HasDistinctKeys : Fields → Type 0
  HasDistinctKeys end = Unit
  HasDistinctKeys (field k v m) = (get k m ≡ none) × IsDistinct v × HasDistinctKeys m

  pub IsDistinct : Value → Type 0
  IsDistinct (mapping m) = HasDistinctKeys m
  IsDistinct _ = Unit

abbrev pub IsNoMap : Value → Type 0
IsNoMap (mapping m) = ⊥
IsNoMap _ = Unit

-- `Merged old new r`: where the first map reads `old` at a key and the second reads `new`, the merged
-- one reads `r`. A key that the second map does not have keeps its value; the value of the second
-- map wins if it or the first is no map, or there is no first; of two maps, the merged one has a map
-- that reads as these rules say at every key.
pub data Merged : Option Value → Option Value → Option Value → Type 0 where
  kept : (old : Option Value) → Merged old none old
  added : (new : Value) → Merged none (some new) (some new)
  over_value : (old new : Value) → IsNoMap old → Merged (some old) (some new) (some new)
  replaced : (old new : Value) → IsNoMap new → Merged (some old) (some new) (some new)
  both_maps :
      (m1 m2 m : Fields)
      → ((key : String) → Merged (get key m1) (get key m2) (get key m))
      → Merged (some (mapping m1)) (some (mapping m2)) (some (mapping m))

abbrev merged_value : Option Value → Option Value → Option Value
merged_value old none = old
merged_value old (some new) = some (merge_value old new)

get-put :
    (stored key : String) (new : Value) (m : Fields)
    → get key (put stored new m) ≡ (if stored == key then some new else get key m)
unfolding get put
get-put stored key new end = refl
get-put stored key new (field j v m) =
    ground (arith, get-put stored key new m, eq_iff j key, eq_iff j stored, eq_iff stored key)

get-loop :
    (key : String) (m1 m2 : Fields)
    → HasDistinctKeys m2
    → get key (merge_maps m1 m2) ≡ merged_value (get key m1) (get key m2)
unfolding get merge_maps HasDistinctKeys
get-loop key m1 end h = refl
get-loop key m1 (field k v m2) (absent_later, distinct, h) =
    let merged = merge_value (get k m1) v in
    ground (arith, get-loop key (put k merged m1) m2 h, get-put k key merged m1, eq_iff k key)

mutual
  unfolding get merge_maps HasDistinctKeys

  read-Merged :
      (m : Fields)
      → HasDistinctKeys m
      → (key : String) (old : Option Value) → Merged old (get key m) (merged_value old (get key m))
  read-Merged end h key old = kept old
  read-Merged (field k v m) (absent_later, distinct, h) key old = elim (Bool-cases (k == key)) [
    | inl e ↦ rw e (value-Merged v distinct old)
    | inr e ↦ rw e (read-Merged m h key old)
  ]

  value-Merged :
      (new : Value)
      → IsDistinct new
      → (old : Option Value) → Merged old (some new) (some (merge_value old new))
  value-Merged new h none = added new
  value-Merged (mapping m) h (some (mapping inner)) = both_maps inner m (merge_maps inner m) (λ key.
      subst (Merged (get key inner) (get key m)) (sym (get-loop key inner m h))
        (read-Merged m h key (get key inner)))
  value-Merged new h (some null) = over_value null new tt
  value-Merged new h (some (boolean b)) = over_value (boolean b) new tt
  value-Merged new h (some (integer s)) = over_value (integer s) new tt
  value-Merged new h (some (float s)) = over_value (float s) new tt
  value-Merged new h (some (text s)) = over_value (text s) new tt
  value-Merged new h (some (sequence vs)) = over_value (sequence vs) new tt
  value-Merged new h (some (other s)) = over_value (other s) new tt
  value-Merged null h (some (mapping inner)) = replaced (mapping inner) null tt
  value-Merged (boolean b) h (some (mapping inner)) = replaced (mapping inner) (boolean b) tt
  value-Merged (integer s) h (some (mapping inner)) = replaced (mapping inner) (integer s) tt
  value-Merged (float s) h (some (mapping inner)) = replaced (mapping inner) (float s) tt
  value-Merged (text s) h (some (mapping inner)) = replaced (mapping inner) (text s) tt
  value-Merged (sequence vs) h (some (mapping inner)) = replaced (mapping inner) (sequence vs) tt
  value-Merged (other s) h (some (mapping inner)) = replaced (mapping inner) (other s) tt

-- If no key stands twice in the second map or below it, every key reads as follows after a merge: a
-- key that only the first map has keeps its value, and a key of the second map has the value of the
-- second; only where both values are maps it has a map, and this one reads by the same rules at
-- every key.
pub get-merge_maps :
    (key : String) (m1 m2 : Fields)
    → HasDistinctKeys m2
    → Merged (get key m1) (get key m2) (get key (merge_maps m1 m2))
get-merge_maps key m1 m2 h =
    subst (Merged (get key m1) (get key m2)) (sym (get-loop key m1 m2 h))
      (read-Merged m2 h key (get key m1))
