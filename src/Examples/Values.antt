-- ===== src/Examples/Values.antt =====
-- An example of the values of a chart, with a small codec.
use elemental_lifecycle_mana.Prelude.{
  String, Bool, true, false, Option, none, some, List, [], ◌∷◌, ◌++◌, ◌≡◌, ◌↔◌, refl, ap, sym,
  subst, ◌==◌, ◌&&◌, eq_iff, eq_refl, arith, not, Bool-cases, inl, inr, if◌then◌else◌,
}
use elemental_lifecycle_mana.Errors.{message, Result, ok, err}
use elemental_lifecycle_mana.Config.{HelmChartConfig}
use elemental_lifecycle_mana.Cluster.{HelmChart}
use elemental_lifecycle_mana.Helm.{ChartState, in_progress, succeeded, ReleaseInfo, HelmClient}
use elemental_lifecycle_mana.Helm.Values.{Value, integer, float, Fields, end, field}
use elemental_lifecycle_mana.Reconcilers.HelmCharts.Chart.{
  HelmLibs, ReleaseRef, update_fields, should_update_chart,
}
use elemental_lifecycle_mana.Reconcilers.HelmCharts.Chart.Idempotence.{
  is_json, is_json_option, HelmLaws, should_update_chart-update_fields,
}
use elemental_lifecycle_mana.Examples.World.{chart_config_for}

-- A codec for no values and for three replicas, a whole number or a float. JSON has one text for
-- both, and reads it as a float.
abbrev three_replicas : String
three_replicas = "{\"replicas\":3}"

abbrev is_three : Value → Bool
is_three (integer s) = s == "3"
is_three (float s) = s == "3"
is_three _ = false

abbrev is_end : Fields → Bool
is_end end = true
is_end (field k v m) = false

abbrev encode_small : Fields → Result String
encode_small end = ok "{}"
encode_small (field k v m) =
    if k == "replicas" && is_three v && is_end m
    then ok three_replicas
    else err (message "not supported")

abbrev decode_small : String → Result Fields
decode_small s = if s == three_replicas then ok (field "replicas" (float "3") end) else ok end

abbrev same_text : Result String → Result String → Bool
same_text (ok s) (ok t) = s == t
same_text _ _ = false

abbrev alike : Bool → Bool → Bool
alike a b = if a then b else not b

-- Values are equal if they have the same types and the same text.
abbrev small_equal : Option Fields → Option Fields → Bool
small_equal none none = true
small_equal (some m) (some n) =
    alike (is_json m) (is_json n) && same_text (encode_small m) (encode_small n)
small_equal _ _ = false

abbrev pub libs : HelmLibs
libs = record {
  codec = record {
    decode_yaml = λ s. ok end;
    decode_json = decode_small;
    encode_json = encode_small;
    encode_yaml = encode_small;
  };
  parse_url = λ s. ok (record { scheme = "https"; text = s });
  values_equal = small_equal;
  chart_name = λ c. c.name;
}

decode_small-is_json : (n : Fields) (s : String) → decode_small s ≡ ok n → is_json n ≡ true
unfolding is_json
decode_small-is_json end s e = refl
decode_small-is_json (field k v m) s e = ground arith

decode_small-total : (s : String) → (n : Fields) × (decode_small s ≡ ok n)
decode_small-total s = elim (Bool-cases (s == three_replicas)) [
  | inl e ↦ (field "replicas" (float "3") end, rw e refl)
  | inr e ↦ (end, rw e refl)
]

small_equal-end : (n : Fields) → ok end ≡ ok n → small_equal (some n) (some end) ≡ true
unfolding is_json
small_equal-end n e =
    let same : end ≡ n = cc e in subst (λ k. small_equal (some k) (some end) ≡ true) same refl

written_text :
    (b : Bool) (s : String)
    → (if b then ok three_replicas else err (message "not supported")) ≡ ok s
    → (b ≡ true) × (three_replicas ≡ s)
written_text true s e = (refl, cc)
written_text false s e = cc

small_equal-three :
    (k : String) (v : Value) (m n : Fields)
    → ok (field "replicas" (float "3") end) ≡ ok n
    → k == "replicas" && is_three v && is_end m ≡ true
    → is_json (field k v m) ≡ true
    → small_equal (some n) (some (field k v m)) ≡ true
small_equal-three k v m n e written h =
    let same : field "replicas" (float "3") end ≡ n = cc e in
    subst (λ j. small_equal (some j) (some (field k v m)) ≡ true) same
      (unfold is_json in rw written (rw h refl))

small_equal-decoded :
    (m n : Fields) (s : String)
    → encode_small m ≡ ok s
    → decode_small s ≡ ok n
    → is_json m ≡ true
    → small_equal (some n) (some m) ≡ true
unfolding is_json
small_equal-decoded end n s e d h =
    let same : "{}" ≡ s = cc e in
    small_equal-end n (subst (λ t. decode_small t ≡ ok n) (sym same) d)
small_equal-decoded (field k v m) n s e d h =
    let (written, same) = written_text (k == "replicas" && is_three v && is_end m) s e in
    small_equal-three k v m n (subst (λ t. decode_small t ≡ ok n) (sym same) d) written h

small_equal-is_json : (n m : Fields) → small_equal (some n) (some m) ≡ true → is_json n ≡ is_json m
small_equal-is_json n m h = ground arith

libs-HelmLaws : HelmLaws libs
libs-HelmLaws = record {
  decodes = λ m s e. decode_small-total s;
  own_types = decode_small-is_json;
  same_values = small_equal-decoded;
  same_types = small_equal-is_json;
  both_absent = refl;
}

abbrev pub existing_chart : HelmChart
existing_chart = record {
  kind = "HelmChart";
  api_version = "helm.cattle.io/v1";
  name = "database";
  namespace = "kube-system";
  labels = [];
  annotations = [];
  version = "0.9.0";
  chart = "database";
  repo = "https://charts.example";
  target_namespace = "";
  back_off_limit = some 6;
  chart_content = "";
  values_content = "";
  values = none;
  values_secrets = [];
  job_name = "";
  conditions = [];
}

abbrev pub ref : ReleaseRef
ref = record { release_name = "release"; release_version = "1.1.0" }

-- A chart whose values in the manifest are three replicas, as yaml.v3 reads them.
abbrev three_config : HelmChartConfig
three_config =
    let config = chart_config_for "database" [] in
    let chart = config.chart in
    record config { chart = record chart { values = field "replicas" (integer "3") end } }

abbrev updated_chart : HelmChart
updated_chart = record existing_chart {
  version = "1.0.0";
  repo = "";
  labels = ("lifecycle.suse.com/release", "release") ∷ ("lifecycle.suse.com/version", "1-1-0") ∷ [];
  values = some (record { raw = three_replicas });
}

should_update_chart-update_fields_example :
    should_update_chart libs updated_chart three_config
    ≡ ok (not (is_json_option (some (field "replicas" (integer "3") end))))
unfolding update_fields elemental_lifecycle_mana.Helm.Values.merge_helm_values
    elemental_lifecycle_mana.Helm.Values.merge_maps elemental_lifecycle_mana.Prelude.insert
    elemental_lifecycle_mana.Api.Sanitize.sanitize_version elemental_lifecycle_mana.Helm.Values.put
    elemental_lifecycle_mana.Helm.Values.get
should_update_chart-update_fields_example =
    should_update_chart-update_fields libs libs-HelmLaws ref three_config existing_chart
      updated_chart (some (field "replicas" (integer "3") end)) refl refl
