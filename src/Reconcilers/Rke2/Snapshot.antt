-- ===== src/Reconcilers/Rke2/Snapshot.antt =====
-- The snapshot of the packaged components, in internal/upgrade/reconcilers/rke2_core.go.
pub mod Stored
pub mod ReadBack
pub mod Unchanged
pub mod Created
pub mod Origin
use Prim.Native.String.{◌++◌}
use elemental_lifecycle_mana.Prelude.{
  ℕ, zero, suc, String, Bool, false, Option, none, some, List, [], ◌∷◌, ◌==◌, ◌||◌, not, lookup,
  insert, text_at, if◌then◌else◌,
}
use elemental_lifecycle_mana.Api.{release_name_label, release_version_label}
use elemental_lifecycle_mana.Api.Sanitize.{sanitize_version}
use elemental_lifecycle_mana.Phase.Names.{quote}
use elemental_lifecycle_mana.Errors.{
  message, panics, is_not_found, wrap, Result, ok, err, then_with, with_context, M, pure, throw,
  from_result, ◌>>=◌, ◌>>◌, attempt, context,
}
use elemental_lifecycle_mana.Config.{Config}
use elemental_lifecycle_mana.Cluster.{Node, HelmChart, ConfigMap, Client}
use elemental_lifecycle_mana.Plan.{release_labels}
use elemental_lifecycle_mana.Helm.{HelmClient}
use elemental_lifecycle_mana.Reconcilers.Kubernetes.{ChartSnapshot, ComponentsSnapshot}
use elemental_lifecycle_mana.Reconcilers.Rke2.Changes.{Charts, FindComponents, chart_url_annotation}

abbrev pub source_annotation : String
source_annotation = "lifecycle.suse.com/source-kubernetes-version"

-- The hash of chart contents, json.Marshal and json.Unmarshal of one component's snapshot, and how
-- often wait.PollUntilContextTimeout calls its condition before fifteen seconds are over.
pub record SnapshotLibs : Type 0 where
  pub hash : String → String
  pub encode : ChartSnapshot → Result String
  pub decode : String → Result ChartSnapshot
  pub polls : ℕ

unfoldable pub blank_snapshot : Config → ConfigMap
unfolding release_labels
blank_snapshot config = record {
  name = "rke2-packaged-components-snapshot";
  namespace = config.release_namespace;
  labels = release_labels config.release_name config.release_version;
  annotations = [];
  entries = [];
  creation_timestamp = 0;
  deletion_timestamp = none;
}

abbrev label_is : Option String → String → Bool
label_is none s = false
label_is (some v) s = v == s

-- The snapshot belongs to another release, or to another version of it.
unfoldable pub must_recreate : ConfigMap → Config → Bool
must_recreate snapshot config =
    not (label_is (lookup release_name_label snapshot.labels) config.release_name)
    || not (
        label_is (lookup release_version_label snapshot.labels)
          (sanitize_version config.release_version))

module _ (libs : SnapshotLibs) where
  open libs use {hash, encode, decode, polls}

  unfoldable pub parse_charts : List (String × String) → Result (List ChartSnapshot)
  unfolding quote
  parse_charts [] = ok []
  parse_charts ((name, text) ∷ entries) =
      then_with (with_context ("parsing RKE2 packaged component " ++ quote name) (decode text))
        λ s. then_with (parse_charts entries) λ ss. ok (s ∷ ss)

  unfoldable pub parse_snapshot : ConfigMap → Result ComponentsSnapshot
  unfolding parse_charts
  parse_snapshot m = then_with (parse_charts m.entries) λ charts. ok (record {
    creation_time = m.creation_timestamp;
    source_kubernetes_version = text_at source_annotation m.annotations;
    charts = charts;
  })

  module _ {W : Type 0} (client : Client W) (helm : HelmClient W) (find : FindComponents W) where
    abbrev content_sha : String → String
    content_sha content = if content == "" then "" else hash content

    unfoldable pub create_chart_snapshot : HelmChart → M W ChartSnapshot
    unfolding quote
    create_chart_snapshot chart =
        context ("retrieving Helm release " ++ quote chart.name) (helm.retrieve_release chart.name)
        >>= λ info. pure (record {
          name = chart.name;
          namespace = chart.namespace;
          chart_url = text_at chart_url_annotation chart.annotations;
          chart_content_sha = content_sha chart.chart_content;
          chart_version = info.chart_version;
          release_revisions = info.revisions;
        })

    -- The loop over the map of components.
    unfoldable pub record_charts : Charts → ConfigMap → M W ConfigMap
    unfolding create_chart_snapshot quote
    record_charts [] m = pure m
    record_charts ((key, chart) ∷ charts) m = do
      s ←
          context ("parsing fingerprint from HelmChart " ++ quote chart.name)
            (create_chart_snapshot chart)
      text ← from_result (
          with_context ("marshaling RKE2 HelmChart " ++ (quote chart.name ++ " fingerprint"))
            (encode s))
      record_charts charts (record m { entries = insert chart.name text m.entries })

    unfoldable pub populate_snapshot : ConfigMap → M W ConfigMap
    unfolding record_charts
    populate_snapshot m = do
      charts ← context "retrieving RKE2 packaged components" find
      record_charts charts m

    -- `nodes.Items[0]`: the index panics on an empty list.
    abbrev pub first_version : List Node → Result String
    first_version [] = err (panics "runtime error: index out of range [0] with length 0")
    first_version (n ∷ ns) = ok n.kubelet_version

    unfoldable pub create_snapshot : ConfigMap → M W ConfigMap
    unfolding populate_snapshot
    create_snapshot tpl = do
      nodes ← context "listing node" client.list_first_node
      version ← from_result (first_version nodes)
      full ← context "populating RKE2 packaged components snapshot" (
          populate_snapshot
            (record tpl { annotations = insert source_annotation version tpl.annotations }))
      context ("creating snapshot " ++ tpl.name) (client.create_config_map full)
      context ("retrieving snapshot " ++ tpl.name) (client.get_config_map tpl.namespace tpl.name)

    abbrev pub after_poll : M W (Unit {0}) → Result ConfigMap → M W (Unit {0})
    after_poll rest (ok found) = rest
    after_poll rest (err e) = if is_not_found e then pure tt else throw e

    -- The polls that are left.
    unfoldable pub poll_deleted : ℕ → ConfigMap → M W (Unit {0})
    poll_deleted zero m = throw (message "context deadline exceeded")
    poll_deleted (suc left) m =
        attempt (client.get_config_map m.namespace m.name) (after_poll (poll_deleted left m))

    abbrev pub ignore_not_found : Result (Unit {0}) → Result (Unit {0})
    ignore_not_found (ok u) = ok u
    ignore_not_found (err e) = if is_not_found e then ok tt else err e

    -- A snapshot that is being deleted already is only waited for.
    unfoldable pub start_deletion : ConfigMap → Option ℕ → M W (Unit {0})
    unfolding quote
    start_deletion m (some t) = pure tt
    start_deletion m none = attempt (client.delete_config_map m) λ r. from_result (
        with_context ("deleting RKE2 packaged component snapshot " ++ quote m.name)
          (ignore_not_found r))

    unfoldable pub delete_snapshot_and_wait : ConfigMap → M W (Unit {0})
    unfolding start_deletion poll_deleted
    delete_snapshot_and_wait m = do start_deletion m m.deletion_timestamp; poll_deleted polls m

    unfoldable pub create_and_parse : Config → M W ComponentsSnapshot
    unfolding create_snapshot blank_snapshot
    create_and_parse config =
        context ("creating snapshot " ++ (blank_snapshot config).name)
          (create_snapshot (blank_snapshot config))
        >>= λ created. from_result (parse_snapshot created)

    unfoldable pub recreate_or_parse : Config → ConfigMap → M W ComponentsSnapshot
    unfolding delete_snapshot_and_wait create_and_parse parse_snapshot must_recreate
    recreate_or_parse config found =
        let recreated : M W ComponentsSnapshot =
          context ("waiting for snapshot " ++ (found.name ++ " deletion"))
            (delete_snapshot_and_wait found)
          >> create_and_parse config in
        if must_recreate found config then recreated else from_result (parse_snapshot found)

    unfoldable pub snapshot_from : Config → Result ConfigMap → M W ComponentsSnapshot
    unfolding recreate_or_parse create_and_parse
    snapshot_from config (ok found) = recreate_or_parse config found
    snapshot_from config (err e) =
        if is_not_found e
        then create_and_parse config
        else throw (wrap "getting RKE2 packaged component snapshot" e)

    unfoldable pub generate_snapshot : Config → M W ComponentsSnapshot
    unfolding snapshot_from blank_snapshot
    generate_snapshot config =
        attempt
          (client.get_config_map (blank_snapshot config).namespace (blank_snapshot config).name)
          (snapshot_from config)
