-- ===== src/Examples/Charts.antt =====
-- Examples of sanitized versions and of merged chart values.
use elemental_lifecycle_mana.Prelude.{◌≡◌, refl}
use elemental_lifecycle_mana.Api.Sanitize.{code_points, sanitize_version}
use elemental_lifecycle_mana.Api.Sanitize.Suffix.{IsNameSuffix, sanitize_version-IsNameSuffix}
use elemental_lifecycle_mana.Helm.Values.{Fields, end, field, text, mapping, get, put, merge_maps}
use elemental_lifecycle_mana.Helm.Values.Merge.{Merged, HasDistinctKeys, get-merge_maps}

abbrev defaults : Fields
defaults =
    field "image" (mapping (field "tag" (text "1.0") (field "pull" (text "always") end)))
      (field "replicas" (text "1") end)

abbrev overrides : Fields
overrides = field "image" (mapping (field "tag" (text "1.1") end)) (field "debug" (text "on") end)

get-merge_maps_example :
    Merged
      (get "image" defaults)
      (get "image" overrides)
      (get "image" (merge_maps defaults overrides))
unfolding get HasDistinctKeys
get-merge_maps_example =
    get-merge_maps "image" defaults overrides (refl, (refl, tt, tt), (refl, tt, tt))

merge_test :
    merge_maps defaults overrides
    ≡ field "image"
        (mapping (field "tag" (text "1.1") (field "pull" (text "always") end)))
        (field "replicas" (text "1") (field "debug" (text "on") end))
unfolding merge_maps put get
merge_test = refl

sanitize_version-IsNameSuffix_example :
    IsNameSuffix (code_points (sanitize_version "v1.35.1+RKE2r1."))
sanitize_version-IsNameSuffix_example = sanitize_version-IsNameSuffix "v1.35.1+RKE2r1."
