-- ===== src/Examples/Cluster.antt =====
-- Examples of the snapshot of packaged components, the write of a status, and the start of the
-- program.
use Prim.Native.String.{◌++◌ as append}
use elemental_lifecycle_mana.Prelude.{
  ℕ, suc, String, Bool, true, false, Option, none, some, List, [], ◌∷◌, ◌≡◌, refl, ◌⊎◌, ◌==◌, ◌&&◌,
  nat_eq, keep, map, eq_iff, arith, if◌then◌else◌,
}
use elemental_lifecycle_mana.Api.{ReleaseStatus}
use elemental_lifecycle_mana.Errors.{message, ok, err, M}
use elemental_lifecycle_mana.Cluster.{HelmChart, ConfigMap}
use elemental_lifecycle_mana.Helm.{HelmClient}
use elemental_lifecycle_mana.Helm.Values.{end}
use elemental_lifecycle_mana.Helm.Storage.{Storage, release_v1, new_client}
use elemental_lifecycle_mana.Reconcilers.Kubernetes.{ChartSnapshot}
use elemental_lifecycle_mana.Reconcilers.Rke2.Changes.{Charts, FindComponents, find_new_or_changed}
use elemental_lifecycle_mana.Reconcilers.Rke2.Snapshot.{SnapshotLibs, record_charts, parse_snapshot}
use elemental_lifecycle_mana.Reconcilers.Rke2.Snapshot.Unchanged.{Reports, snapshot-Reports}
use elemental_lifecycle_mana.Controller.Reconcile.{update_release_status}
use elemental_lifecycle_mana.Controller.Reconcile.Retry.{
  IsWritten, the_last, update_release_status-IsWritten,
}
use elemental_lifecycle_mana.Startup.{Runtime, main}
use elemental_lifecycle_mana.Startup.Options.{
  default_flags, manager_options, TlsConfig, with_authentication_and_authorization, no_filter,
}
use elemental_lifecycle_mana.Startup.Options.Tls.{
  with_options, protocols_for, manager_options-IsHardened,
}
use elemental_lifecycle_mana.Startup.Order.{StartsFrom, main-StartsFrom}
use elemental_lifecycle_mana.Examples.World.{World, cluster, done_by}

-- The one component, and all that can be stored of it.
abbrev dns : HelmChart
dns = record {
  kind = "HelmChart";
  api_version = "helm.cattle.io/v1";
  name = "rke2-dns";
  namespace = "kube-system";
  labels = [];
  annotations = ("helm.cattle.io/chart-url", "https://charts.example") ∷ [];
  version = "";
  chart = "";
  repo = "";
  target_namespace = "";
  back_off_limit = none;
  chart_content = "content";
  values_content = "";
  values = none;
  values_secrets = [];
  job_name = "";
  conditions = [];
}

abbrev of_dns : ChartSnapshot
of_dns = record {
  name = "rke2-dns";
  namespace = "kube-system";
  chart_url = "https://charts.example";
  chart_content_sha = "#content";
  chart_version = "1.0.0";
  release_revisions = 1;
}

abbrev is_of_dns : ChartSnapshot → Bool
is_of_dns s =
    s.name == "rke2-dns"
    && s.namespace == "kube-system"
    && s.chart_url == "https://charts.example"
    && s.chart_content_sha == "#content"
    && s.chart_version == "1.0.0"
    && nat_eq s.release_revisions 1

abbrev libs : SnapshotLibs
libs = record {
  hash = λ s. append "#" s;
  encode = λ s. if is_of_dns s then ok "dns" else err (message "not supported");
  decode = λ s. ok of_dns;
  polls = 3;
}

decode_encode :
    (s : ChartSnapshot) (text : String) → libs.encode s ≡ ok text → libs.decode text ≡ ok s
decode_encode s text e = ground (
  arith,
  eq_iff s.name "rke2-dns",
  eq_iff s.namespace "kube-system",
  eq_iff s.chart_url "https://charts.example",
  eq_iff s.chart_content_sha "#content",
  eq_iff s.chart_version "1.0.0",
)

abbrev charts : Charts
charts = ("rke2-dns", dns) ∷ []

abbrev find : FindComponents World
find w = (ok charts, w)

abbrev helm : HelmClient World
helm = record {
  retrieve_release = λ name w. (
    ok (record { chart_version = "1.0.0"; namespace = "kube-system"; config = end; revisions = 1 }),
    w,
  );
}

abbrev blank : ConfigMap
blank = record {
  name = "snapshot";
  namespace = "kube-system";
  labels = [];
  annotations = [];
  entries = [];
  creation_timestamp = 0;
  deletion_timestamp = none;
}

snapshot-Reports_example : Reports [] (find_new_or_changed libs.hash find (of_dns ∷ []) 0).0
unfolding parse_snapshot record_charts elemental_lifecycle_mana.Prelude.lookup
    elemental_lifecycle_mana.Prelude.insert
snapshot-Reports_example =
    snapshot-Reports libs refl decode_encode cluster helm find charts blank
      (record blank { entries = ("rke2-dns", "dns") ∷ [] })
      (record { creation_time = 0; source_kubernetes_version = ""; charts = of_dns ∷ [] }) 0 0 0
      (refl, refl, tt) refl refl refl refl

abbrev try_once : M World (Unit {0}) → M World (Unit {0})
try_once m = m

abbrev written_status : ReleaseStatus
written_status = record { version = "1.1.0"; conditions = []; observed_generation = 2 }

update_release_status-IsWritten_example :
    (v : World) × IsWritten cluster "" "release" written_status v
unfolding update_release_status
update_release_status-IsWritten_example =
    update_release_status-IsWritten cluster "" "release" written_status try_once 0
      (λ m w. the_last w) tt

manager_options-IsHardened_example :
    let options = manager_options default_flags in
    let c : TlsConfig = record { next_protos = "h2" ∷ "http/1.1" ∷ [] } in
    ((with_options options.webhook_server.tls_opts c).next_protos
      ≡ protocols_for default_flags.enable_http2 c)
    × ((with_options options.metrics.tls_opts c).next_protos
        ≡ protocols_for default_flags.enable_http2 c)
    × (options.metrics.filter_provider ≡ (
        if options.metrics.secure_serving
        then with_authentication_and_authorization
        else no_filter))
manager_options-IsHardened_example =
    manager_options-IsHardened default_flags (record { next_protos = "h2" ∷ "http/1.1" ∷ [] })

abbrev runtime : Runtime World String String
runtime = record {
  new_manager = λ options. done_by tt;
  storage_libs = record {
    get_config = done_by "config";
    new_for_config = λ config. done_by "clientset";
    init_storage = λ clientset. record {
      last = λ name. done_by (
          release_v1 (record {
            chart_version = "1.0.0";
            namespace = "kube-system";
            config = end;
            version = 1;
          }));
    };
  };
  new_discovery_client = done_by tt;
  server_version = done_by "v1.35.1+rke2r1";
  setup_controller = λ helm handler. done_by tt;
  enable_webhooks = "";
  setup_webhook = done_by tt;
  add_healthz_check = done_by tt;
  add_readyz_check = done_by tt;
  start = done_by tt;
}

main-StartsFrom_example :
    let managed = runtime.new_manager (manager_options default_flags) 0 in
    let created = new_client runtime.storage_libs managed.1 in
    (managed.0 ≡ ok tt)
    × ((storage : Storage World) × (created.0 ≡ ok storage)
        × StartsFrom runtime libs cluster storage (runtime.new_discovery_client created.1).1)
unfolding main
main-StartsFrom_example = main-StartsFrom runtime libs cluster default_flags 0 tt
