-- ===== src/Examples/World.antt =====
-- A small cluster for the examples: its clients, its libraries and a release. The world is the
-- number of calls that were made.
use elemental_lifecycle_mana.Prelude.{
  ℕ, suc, String, Bool, true, false, Option, none, some, List, [], ◌∷◌, ◌≡◌, refl, ◌==◌, eq_iff,
  if◌then◌else◌, arith,
}
use elemental_lifecycle_mana.Api.{is_true, Condition, Release}
use elemental_lifecycle_mana.Errors.{not_found, release_not_found, Result, ok, err, M}
use elemental_lifecycle_mana.Cluster.{ObjectCondition, Node, Plan, Client}
use elemental_lifecycle_mana.Config.{
  Tag, ManifestChart, ManifestHelm, ResolvedManifest, HelmChartConfig, Config, no_runtime_config,
  Dependency,
}
use elemental_lifecycle_mana.Helm.{HelmClient}
use elemental_lifecycle_mana.Helm.Values.{end}
use elemental_lifecycle_mana.Plan.{base_plan, control_plane_label}
use elemental_lifecycle_mana.Reconcilers.Kubernetes.{ComponentsHandler, ComponentsSnapshot}
use elemental_lifecycle_mana.Reconcilers.Rke2.Availability.{available}
use elemental_lifecycle_mana.Controller.Conditions.{ConditionOps, ConditionLaws, option_is_true}
use elemental_lifecycle_mana.Controller.Configs.{elemental_lifecycle_manager}
use elemental_lifecycle_mana.Controller.Wiring.{Libraries}

abbrev pub World : Type 0
World = ℕ

-- A list of conditions with at most one of each type.
unfoldable pub set_in : Condition → List Condition → List Condition
set_in c [] = c ∷ []
set_in c (d ∷ ds) = if d.kind == c.kind then c ∷ ds else d ∷ set_in c ds

unfoldable pub find_in : String → List Condition → Option Condition
find_in k [] = none
find_in k (c ∷ cs) = if c.kind == k then some c else find_in k cs

abbrev pub list_ops : ConditionOps
list_ops = record { set = set_in; find = find_in; holds = λ k cs. option_is_true (find_in k cs) }

find_in-set_in :
    (c : Condition) (k : String) (cs : List Condition)
    → find_in k (set_in c cs) ≡ (if c.kind == k then some c else find_in k cs)
unfolding set_in find_in
find_in-set_in c k [] = refl
find_in-set_in c k (d ∷ ds) =
    ground (arith, eq_iff d.kind c.kind, eq_iff d.kind k, eq_iff c.kind k, find_in-set_in c k ds)

pub list_ops-ConditionLaws : ConditionLaws list_ops
unfolding find_in
list_ops-ConditionLaws = record {
  find_set = find_in-set_in;
  find_nil = λ k. refl;
  holds_find = λ k cs. refl;
}

abbrev pub done_by : {A : Type 0} → A → M World A
done_by a w = (ok a, suc w)

abbrev pub missing : {A : Type 0} → M World A
missing w = (err (not_found "not found"), suc w)

abbrev pub ready : ObjectCondition
ready = record { kind = "Ready"; status = is_true; reason = ""; message = "" }

abbrev pub node : String → Bool → Node
node name control_plane = record {
  name = name;
  labels = if control_plane then (control_plane_label, "true") ∷ [] else [];
  unschedulable = false;
  kubelet_version = "v1.35.1+rke2r1";
  conditions = ready ∷ [];
}

abbrev pub nodes : List Node
nodes = node "a" true ∷ node "b" false ∷ node "c" false ∷ []

abbrev pub complete_condition : ObjectCondition
complete_condition = record { kind = "Complete"; status = is_true; reason = ""; message = "" }

-- Every plan is found complete, every chart and every release of Helm is missing.
abbrev pub complete_plan : String → Plan
complete_plan name = record (base_plan name false) { conditions = complete_condition ∷ [] }

abbrev pub small_release : Release
small_release = record {
  name = "release";
  namespace = "";
  generation = 2;
  spec = record {
    version = "1.1.0";
    registry = "registry.example/release";
    disable_drain = false;
    component_config = none;
  };
  status = record { version = "1.0.0"; conditions = []; observed_generation = 2 };
}

abbrev pub cluster : Client World
cluster = record {
  get_release = λ namespace name. done_by small_release;
  list_releases = done_by (small_release ∷ []);
  update_release_status = λ r. done_by tt;
  list_nodes = done_by nodes;
  list_first_node = done_by nodes;
  parse_selector = λ s. ok "selector";
  list_selected_nodes = λ s. done_by nodes;
  get_plan = λ namespace name. done_by (complete_plan name);
  create_plan = done_by;
  list_plans = λ namespace labels. done_by (complete_plan "old" ∷ complete_plan "older" ∷ []);
  delete_plan = λ p. if p.name == "old" then missing else done_by tt;
  get_chart = λ namespace name. missing;
  create_chart = λ c. done_by tt;
  update_chart = λ c. done_by tt;
  list_charts = λ namespace. done_by [];
  get_job = λ namespace name. missing;
  get_config_map = λ namespace name. missing;
  create_config_map = λ m. done_by tt;
  update_config_map = λ m. done_by tt;
  delete_config_map = λ m. done_by tt;
  get_secret = λ namespace name. missing;
}

abbrev pub helm_store : HelmClient World
helm_store = record { retrieve_release = λ name w. (err release_not_found, suc w) }

abbrev pub chart : String → List Dependency → ManifestChart
chart name depends_on = record {
  name = name;
  chart = name;
  version = "1.0.0";
  namespace = "";
  repository = "";
  values = end;
  depends_on = depends_on;
}

abbrev pub chart_config_for : String → List Dependency → HelmChartConfig
chart_config_for name depends_on = record {
  chart = chart name depends_on;
  repository = none;
  runtime_config = no_runtime_config;
}

abbrev pub manifest_helm : ManifestHelm
manifest_helm = record {
  charts = chart elemental_lifecycle_manager [] ∷ chart "monitoring" [] ∷ [];
  repositories = [];
}

abbrev pub manifest : ResolvedManifest
manifest = record {
  core_platform = some (record {
    os_image_base = "registry.example/os:1.1.0";
    kubernetes_image = "rancher/rke2-upgrade";
    kubernetes_version = "v1.35.1+rke2r1";
    helm = some manifest_helm;
  });
  solution = none;
}

abbrev pub tag_of : String → Result Tag
tag_of s = ok (record { tag_str = "1.1.0"; context_name = "registry.example/os" })

abbrev pub libraries : Libraries World
libraries = record {
  ops = list_ops;
  helm_libs = record {
    codec = record {
      decode_yaml = λ s. ok end;
      decode_json = λ s. ok end;
      encode_json = λ m. ok "{}";
      encode_yaml = λ m. ok "";
    };
    parse_url = λ s. ok (record { scheme = "https"; text = s });
    values_equal = λ a b. true;
    chart_name = λ c. c.name;
  };
  manifest_codec = record { encode = λ m. ok "manifest"; decode = λ s. ok manifest };
  new_tag = tag_of;
  env = "";
  decode_core = λ s. ok (record {
    charts =
        record {
          chart = elemental_lifecycle_manager;
          repository = "";
          version = "1.1.0";
          values = end;
        }
        ∷ [];
    repositories = [];
  });
  decode_core_image = λ s. ok "";
  read_manifest = λ ref. done_by "manifest";
  retrieve_manifest = λ registry version. done_by manifest;
}

abbrev pub snapshot : ComponentsSnapshot
snapshot = record { creation_time = 1; source_kubernetes_version = "v1.34.0"; charts = [] }

-- Packaged components that are available at once.
abbrev pub components : ComponentsHandler World
components = record {
  generate_snapshot = λ config. done_by snapshot;
  reconcile_availability = λ version s. done_by available;
}

abbrev pub config : Config
config = record {
  release_name = "release";
  release_namespace = "";
  release_version = "1.1.0";
  os = some (record {
    image = "registry.example/os:1.1.0";
    version = "1.1.0";
    drain_opts = record { control_plane = false; worker = true };
  });
  kubernetes = some (record {
    image = "rancher/rke2-upgrade";
    version = "v1.35.1+rke2r1";
    drain_opts = record { control_plane = false; worker = true };
  });
  helm_charts = [];
}
