-- ===== src/Reconcilers/HelmCharts/Chart.antt =====
-- The reconciliation of one chart, in internal/upgrade/reconcilers/helm.go.
pub mod Idempotence
pub mod Current
pub mod UpToDate
use Prim.Native.String.{◌++◌}
use elemental_lifecycle_mana.Prelude.{
  String, Bool, true, false, Option, none, some, List, [], ◌∷◌, ◌==◌, ◌&&◌, ◌||◌, not, insert,
  if◌then◌else◌,
}
use elemental_lifecycle_mana.Api.{
  status_is_true, RawJson, SecretValueSource, release_name_label, release_version_label,
}
use elemental_lifecycle_mana.Api.Sanitize.{sanitize_version}
use elemental_lifecycle_mana.Phase.Names.{quote, trim_suffix}
use elemental_lifecycle_mana.Errors.{
  is_not_found, is_release_not_found, wrap, Result, ok, err, then_with, with_context, M, pure,
  throw, from_result, ◌>>=◌, ◌>>◌, attempt,
}
use elemental_lifecycle_mana.Config.{ManifestChart, ManifestRepository, HelmChartConfig}
use elemental_lifecycle_mana.Cluster.{ObjectCondition, HelmChart, SecretSpec, Job, Client}
use elemental_lifecycle_mana.Plan.{release_labels}
use elemental_lifecycle_mana.Helm.{
  ChartState, not_installed, version_already_installed, in_progress, failed, succeeded, ReleaseInfo,
  HelmClient,
}
use elemental_lifecycle_mana.Helm.Values.{
  Fields, Codec, from_map, from_text, from_json, merge_helm_values,
}

abbrev pub helm_chart_namespace : String
helm_chart_namespace = "kube-system"

-- What the code uses of a url.URL.
pub record Url : Type 0 where
  pub scheme : String
  pub text : String

-- The libraries that the reconciler calls: decoders and encoders, url.Parse, Semantic.DeepEqual on
-- values, and the method GetName of a chart.
pub record HelmLibs : Type 0 where
  pub codec : Codec
  pub parse_url : String → Result Url
  pub values_equal : Option Fields → Option Fields → Bool
  pub chart_name : ManifestChart → String

-- The fields `releaseName` and `releaseVersion` of the reconciler.
pub record ReleaseRef : Type 0 where
  pub release_name : String
  pub release_version : String

-- The loop over the conditions of a chart whose job is gone.
unfoldable pub has_failed_condition : List ObjectCondition → Bool
has_failed_condition [] = false
has_failed_condition (c ∷ cs) =
    let rest = has_failed_condition cs in
    if (c.kind == "Failed") && status_is_true c.status then true else rest

-- The first condition that is True and says Complete or Failed.
unfoldable pub job_state : List ObjectCondition → ChartState
job_state [] = in_progress
job_state (c ∷ cs) =
    let rest = job_state cs in
    if status_is_true c.status && (c.kind == "Complete" || c.kind == "Failed")
    then (if c.kind == "Complete" then succeeded else failed)
    else rest

abbrev pub optional_repository : Option ManifestRepository → String → String
optional_repository none url = url
optional_repository (some repo) url = repo.url

abbrev pub desired_secrets : Option SecretValueSource → List SecretSpec
desired_secrets none = []
desired_secrets (some s) = record { name = s.name; keys = s.keys } ∷ []

-- `slices.Equal` on texts and `slices.EqualFunc` on secrets.
unfoldable pub texts_equal : List String → List String → Bool
texts_equal [] [] = true
texts_equal (s ∷ ss) (t ∷ ts) = s == t && texts_equal ss ts
texts_equal _ _ = false

unfoldable pub secrets_equal : List SecretSpec → List SecretSpec → Bool
unfolding texts_equal
secrets_equal [] [] = true
secrets_equal (a ∷ as') (b ∷ bs) =
    a.name == b.name && texts_equal a.keys b.keys && secrets_equal as' bs
secrets_equal _ _ = false

module _ (libs : HelmLibs) where
  open libs use {codec, parse_url, values_equal, chart_name}

  unfoldable pub resolve_repository_url : HelmChartConfig → Result Url
  resolve_repository_url config =
      parse_url (optional_repository config.repository config.chart.repository)

  unfoldable pub generate_custom_values_map : HelmChartConfig → Result (Option Fields)
  generate_custom_values_map config =
      merge_helm_values codec
        (from_map config.chart.values ∷ from_json config.runtime_config.values ∷ [])

  unfoldable pub encode_values : Option Fields → Result (Option RawJson)
  encode_values none = ok none
  encode_values (some values) =
      then_with
        (with_context "marshaling HelmChart custom values content" (codec.encode_json values))
        λ raw. ok (some (record { raw = raw }))

  unfoldable pub resolve_helm_chart_values : HelmChart → HelmChartConfig → Result HelmChart
  unfolding generate_custom_values_map encode_values
  resolve_helm_chart_values chart config =
      then_with
        (with_context "generating HelmChart custom values content"
          (generate_custom_values_map config))
        λ incoming. then_with (encode_values incoming) λ values. ok (record chart {
          values = values;
          values_secrets = desired_secrets config.runtime_config.secret_ref;
        })

  -- A chart of an OCI repository is named by its whole reference.
  unfoldable pub set_source : Url → ManifestChart → HelmChart → HelmChart
  set_source url chart target =
      if url.scheme == "oci"
      then record target { chart = trim_suffix url.text "/" ++ ("/" ++ chart.chart); repo = "" }
      else record target { chart = chart.chart; repo = url.text }

  unfoldable pub build_helm_chart : ReleaseRef → HelmChartConfig → String → Result HelmChart
  unfolding resolve_repository_url set_source resolve_helm_chart_values quote
  build_helm_chart ref config target_namespace =
      let chart = config.chart in
      let name = chart_name chart in
      then_with
        (with_context ("parsing repository URL for chart " ++ quote name)
          (resolve_repository_url config))
        λ url.
          let base : HelmChart = record {
            kind = "HelmChart";
            api_version = "helm.cattle.io/v1";
            name = name;
            namespace = helm_chart_namespace;
            labels = release_labels ref.release_name ref.release_version;
            annotations = [];
            version = chart.version;
            chart = "";
            repo = "";
            target_namespace = if target_namespace == "" then chart.namespace else target_namespace;
            back_off_limit = some 6;
            chart_content = "";
            values_content = "";
            values = none;
            values_secrets = [];
            job_name = "";
            conditions = [];
          } in
          with_context "resolving HelmChart values"
            (resolve_helm_chart_values (set_source url chart base) config)

  unfoldable pub update_fields : ReleaseRef → HelmChartConfig → HelmChart → Result HelmChart
  unfolding resolve_repository_url set_source resolve_helm_chart_values quote
  update_fields ref config existing =
      let chart = config.chart in
      then_with
        (with_context ("parsing repository URL for chart " ++ quote (chart_name chart))
          (resolve_repository_url config))
        λ url.
          let labelled = record existing {
            labels =
                insert release_version_label (sanitize_version ref.release_version)
                  (insert release_name_label ref.release_name existing.labels);
            version = chart.version;
          } in
          with_context "resolving HelmChart values"
            (resolve_helm_chart_values (set_source url chart labelled) config)

  unfoldable pub decode_existing : Option RawJson → Result (Option Fields)
  decode_existing none = ok none
  decode_existing (some j) =
      then_with (with_context "unmarshaling existing HelmChart values" (codec.decode_json j.raw))
        λ m. ok (some m)

  unfoldable pub should_update_chart : HelmChart → HelmChartConfig → Result Bool
  unfolding generate_custom_values_map decode_existing secrets_equal
  should_update_chart existing config =
      let compared =
        then_with
          (with_context "generating HelmChart custom values content"
            (generate_custom_values_map config))
          λ incoming. then_with (decode_existing existing.values) λ present.
            if not (values_equal present incoming)
            then ok true
            else ok (
                not (
                  secrets_equal existing.values_secrets
                    (desired_secrets config.runtime_config.secret_ref))) in
      if not (existing.version == config.chart.version) then ok true else compared

  -- The values of the release that Helm installed, below those of the new resource.
  unfoldable pub merge_release_values : ReleaseInfo → HelmChart → Result HelmChart
  merge_release_values info chart =
      then_with
        (with_context "merging HelmChart values"
          (merge_helm_values codec (from_map info.config ∷ from_text chart.values_content ∷ [])))
        λ merged. elim merged [
          | none ↦ ok chart
          | some values ↦
              then_with (with_context "marshaling HelmChart values" (codec.encode_yaml values))
                λ raw. ok (record chart { values_content = raw })
        ]

  module _ {W : Type 0} (client : Client W) (helm : HelmClient W) (ref : ReleaseRef) where
    unfoldable pub create_helm_chart_from_release : HelmChartConfig → ReleaseInfo → M W (Unit {0})
    unfolding build_helm_chart merge_release_values
    create_helm_chart_from_release config info = do
      chart ←
          from_result
            (with_context "building HelmChart" (build_helm_chart ref config info.namespace))
      merged ← from_result (merge_release_values info chart)
      client.create_chart merged

    unfoldable pub update_helm_chart : HelmChartConfig → HelmChart → M W (Unit {0})
    unfolding update_fields
    update_helm_chart config existing = do
      updated ← from_result (update_fields ref config existing)
      client.update_chart updated

    unfoldable pub job_outcome : HelmChart → Result Job → M W ChartState
    unfolding job_state has_failed_condition
    job_outcome chart (ok job) = pure (job_state job.conditions)
    job_outcome chart (err e) =
        if is_not_found e
        then pure (if has_failed_condition chart.conditions then failed else succeeded)
        else throw e

    unfoldable pub evaluate_helm_chart_job_status : HelmChart → M W ChartState
    unfolding job_outcome
    evaluate_helm_chart_job_status chart =
        if chart.job_name == ""
        then pure in_progress
        else attempt (client.get_job helm_chart_namespace chart.job_name) (job_outcome chart)

    -- After the read of the HelmChart resource.
    unfoldable pub reconcile_resource :
        HelmChartConfig → ReleaseInfo → Result HelmChart → M W ChartState
    unfolding create_helm_chart_from_release update_helm_chart evaluate_helm_chart_job_status
        should_update_chart
    reconcile_resource config info (err e) =
        if is_not_found e
        then if info.chart_version == config.chart.version
          then pure version_already_installed
          else (create_helm_chart_from_release config info >> pure in_progress)
        else throw (wrap "getting HelmChart" e)
    reconcile_resource config info (ok existing) =
        from_result (
          with_context "checking whether chart update is necessary"
            (should_update_chart existing config))
        >>= λ update.
            if update
            then (update_helm_chart config existing >> pure in_progress)
            else evaluate_helm_chart_job_status existing

    unfoldable pub reconcile_release : HelmChartConfig → Result ReleaseInfo → M W ChartState
    unfolding reconcile_resource
    reconcile_release config (err e) =
        if is_release_not_found e
        then pure not_installed
        else throw (wrap "retrieving helm release" e)
    reconcile_release config (ok info) =
        attempt (client.get_chart helm_chart_namespace (chart_name config.chart))
          (reconcile_resource config info)

    unfoldable pub reconcile_chart : HelmChartConfig → M W ChartState
    unfolding reconcile_release
    reconcile_chart config =
        attempt (helm.retrieve_release (chart_name config.chart)) (reconcile_release config)
