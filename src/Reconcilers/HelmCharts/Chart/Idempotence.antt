-- ===== src/Reconcilers/HelmCharts/Chart/Idempotence.antt =====
-- A check for an update after an update, for charts in internal/upgrade/reconcilers/helm.go.
use Prim.Native.String.{◌++◌}
use elemental_lifecycle_mana.Prelude.{
  String, true, false, Option, none, some, List, [], ◌∷◌, ◌≡◌, refl, sym, subst, ◌∙◌, Bool, not,
  ◌&&◌, Bool-cases, inl, inr, insert, eq_refl, arith,
}
use elemental_lifecycle_mana.Api.{RawJson, release_name_label, release_version_label}
use elemental_lifecycle_mana.Api.Sanitize.{sanitize_version}
use elemental_lifecycle_mana.Phase.Names.{quote}
use elemental_lifecycle_mana.Errors.{Result, ok, then_with, with_context}
use elemental_lifecycle_mana.Errors.Laws.{then_with-inv, with_context-inv}
use elemental_lifecycle_mana.Config.{ManifestChart, HelmChartConfig}
use elemental_lifecycle_mana.Cluster.{HelmChart, SecretSpec}
use elemental_lifecycle_mana.Helm.Values.{
  Value, integer, sequence, mapping, other, Fields, end, field, Items, no_items, item,
}
use elemental_lifecycle_mana.Reconcilers.HelmCharts.Chart.{
  HelmLibs, resolve_repository_url, ReleaseRef, Url, desired_secrets, texts_equal, secrets_equal,
  generate_custom_values_map, encode_values, resolve_helm_chart_values, set_source, update_fields,
  decode_existing, should_update_chart,
}

-- A value that encoding/json can have made: whole numbers are `float64` there, and no value is of a
-- type that only yaml.v3 knows.
unfoldable mutual
  pub is_json_value : Value → Bool
  is_json_value (integer s) = false
  is_json_value (other s) = false
  is_json_value (sequence vs) = are_json_items vs
  is_json_value (mapping m) = is_json m
  is_json_value _ = true

  pub is_json : Fields → Bool
  is_json end = true
  is_json (field k v m) = is_json_value v && is_json m

  pub are_json_items : Items → Bool
  are_json_items no_items = true
  are_json_items (item v vs) = is_json_value v && are_json_items vs

abbrev pub is_json_option : Option Fields → Bool
is_json_option none = true
is_json_option (some m) = is_json m

-- What the code relies on: encoding/json reads what it wrote, as values of its own types; these are
-- deeply equal to what was written if that had such types too; and values of different types are
-- not.
pub record HelmLaws (libs : HelmLibs) : Type 0 where
  pub decodes :
      (m : Fields) (s : String)
      → libs.codec.encode_json m ≡ ok s
      → (n : Fields) × (libs.codec.decode_json s ≡ ok n)
  pub own_types : (n : Fields) (s : String) → libs.codec.decode_json s ≡ ok n → is_json n ≡ true
  pub same_values :
      (m n : Fields) (s : String)
      → libs.codec.encode_json m ≡ ok s
      → libs.codec.decode_json s ≡ ok n
      → is_json m ≡ true
      → libs.values_equal (some n) (some m) ≡ true
  pub same_types :
      (n m : Fields) → libs.values_equal (some n) (some m) ≡ true → is_json n ≡ is_json m
  pub both_absent : libs.values_equal none none ≡ true

texts_equal_refl : (ss : List String) → texts_equal ss ss ≡ true
unfolding texts_equal
texts_equal_refl [] = refl
texts_equal_refl (s ∷ ss) = ground (arith, eq_refl s, texts_equal_refl ss)

secrets_equal_refl : (ss : List SecretSpec) → secrets_equal ss ss ≡ true
unfolding secrets_equal
secrets_equal_refl [] = refl
secrets_equal_refl (s ∷ ss) =
    ground (arith, eq_refl s.name, texts_equal_refl s.keys, secrets_equal_refl ss)

ok_injective : {A : Type 0} {a b : A} → ok a ≡ ok b → a ≡ b
ok_injective e = cc

module _ (libs : HelmLibs) (laws : HelmLaws libs) where
  version-set_source :
      (url : Url) (chart : ManifestChart) (target : HelmChart)
      → (set_source libs url chart target).version ≡ target.version
  unfolding set_source
  version-set_source url chart target = ground arith

  round_trip-equal :
      (m n : Fields) (raw : String)
      → libs.codec.encode_json m ≡ ok raw
      → libs.codec.decode_json raw ≡ ok n
      → libs.values_equal (some n) (some m) ≡ is_json m
  round_trip-equal m n raw encoded decoded = elim (Bool-cases (is_json m)) [
    | inl e ↦ laws.same_values m n raw encoded decoded e ∙ sym e
    | inr e ↦ elim (Bool-cases (libs.values_equal (some n) (some m))) [
      | inl d ↦ cc (laws.same_types n m d, laws.own_types n raw decoded)
      | inr d ↦ d ∙ sym e
    ]
  ]

  -- The values that are stored are read as some values, which are deeply equal to those that were
  -- meant exactly if these have the types of encoding/json.
  abbrev ReadsAs : Option RawJson → Option Fields → Type 0
  ReadsAs v o =
      (present : Option Fields) × (decode_existing libs v ≡ ok present)
      × (libs.values_equal present o ≡ is_json_option o)

  encode_values-ReadsAs :
      (o : Option Fields) (v : Option RawJson) → encode_values libs o ≡ ok v → ReadsAs v o
  unfolding encode_values decode_existing
  encode_values-ReadsAs none v e =
      subst (λ r. ReadsAs r none) (ok_injective e) (none, refl, laws.both_absent)
  encode_values-ReadsAs (some m) v e =
      let (raw, encoded, made) =
        then_with-inv
          (with_context "marshaling HelmChart custom values content" (libs.codec.encode_json m))
          (λ raw. ok (some (record { raw = raw }))) v e in
      let encoded' = with_context-inv _ (libs.codec.encode_json m) raw encoded in
      let (n, decoded) = laws.decodes m raw encoded' in
      subst (λ r. ReadsAs r (some m)) (ok_injective made)
        (some n, rw decoded refl, round_trip-equal m n raw encoded' decoded)

  -- What the values of a chart are once they are resolved.
  abbrev IsResolved : HelmChart → HelmChartConfig → HelmChart → Type 0
  IsResolved chart config updated =
      (incoming : Option Fields) × (generate_custom_values_map libs config ≡ ok incoming)
      × ReadsAs updated.values incoming
      × (updated.values_secrets ≡ desired_secrets config.runtime_config.secret_ref)
      × (updated.version ≡ chart.version)

  abbrev with_values : HelmChart → HelmChartConfig → Option RawJson → HelmChart
  with_values chart config values = record chart {
    values = values;
    values_secrets = desired_secrets config.runtime_config.secret_ref;
  }

  resolve_helm_chart_values-IsResolved :
      (chart updated : HelmChart) (config : HelmChartConfig)
      → resolve_helm_chart_values libs chart config ≡ ok updated
      → IsResolved chart config updated
  unfolding resolve_helm_chart_values
  resolve_helm_chart_values-IsResolved chart updated config e =
      let finish : Option RawJson → Result HelmChart =
        λ values. ok (with_values chart config values) in
      let encode : Option Fields → Result HelmChart =
        λ incoming. then_with (encode_values libs incoming) finish in
      let (incoming, found, rest) =
        then_with-inv
          (with_context "generating HelmChart custom values content"
            (generate_custom_values_map libs config))
          encode updated e in
      let (values, encoded, made) =
        then_with-inv (encode_values libs incoming) finish updated rest in
      subst (IsResolved chart config) (ok_injective made) (
        incoming,
        with_context-inv _ (generate_custom_values_map libs config) incoming found,
        encode_values-ReadsAs incoming values encoded,
        refl,
        refl,
      )

  should_update_chart-IsResolved :
      (chart updated : HelmChart) (config : HelmChartConfig) (incoming : Option Fields)
      → IsResolved chart config updated
      → generate_custom_values_map libs config ≡ ok incoming
      → chart.version ≡ config.chart.version
      → should_update_chart libs updated config ≡ ok (not (is_json_option incoming))
  unfolding should_update_chart
  should_update_chart-IsResolved chart updated config incoming
        (found, made', (present, decoded, equal), secrets, version) made e =
      let same : found ≡ incoming = ok_injective (sym made' ∙ made) in
      ground (
        arith,
        eq_refl config.chart.version,
        secrets_equal_refl (desired_secrets config.runtime_config.secret_ref),
      )

  abbrev labelled_chart : ReleaseRef → ManifestChart → HelmChart → HelmChart
  labelled_chart ref chart existing = record existing {
    labels =
        insert release_version_label (sanitize_version ref.release_version)
          (insert release_name_label ref.release_name existing.labels);
    version = chart.version;
  }

  -- A chart that was just brought to a configuration whose merged values are `incoming` needs no
  -- update for that configuration exactly if these values have the types of encoding/json. If a
  -- whole number or another value that yaml.v3 made is among them, the chart is to be updated again.
  pub should_update_chart-update_fields :
      (ref : ReleaseRef) (config : HelmChartConfig) (existing updated : HelmChart)
      (incoming : Option Fields)
      → update_fields libs ref config existing ≡ ok updated
      → generate_custom_values_map libs config ≡ ok incoming
      → should_update_chart libs updated config ≡ ok (not (is_json_option incoming))
  unfolding update_fields
  should_update_chart-update_fields ref config existing updated incoming e made =
      let chart = config.chart in
      let labelled = labelled_chart ref chart existing in
      let resolve : Url → Result HelmChart = λ url.
        with_context "resolving HelmChart values"
          (resolve_helm_chart_values libs (set_source libs url chart labelled) config) in
      let (url, parsed, rest) =
        then_with-inv
          (with_context ("parsing repository URL for chart " ++ quote (libs.chart_name chart))
            (resolve_repository_url libs config))
          resolve updated e in
      let sourced = set_source libs url chart labelled in
      let resolved =
        with_context-inv "resolving HelmChart values"
          (resolve_helm_chart_values libs sourced config) updated rest in
      should_update_chart-IsResolved sourced updated config incoming
        (resolve_helm_chart_values-IsResolved sourced updated config resolved) made
        (version-set_source url chart labelled)
