-- ===== src/Cluster.antt =====
-- The Kubernetes objects that the program reads and writes, with the fields that it uses, and the
-- clients that it reaches them by. controller-runtime and Helm's storage are no part of the
-- repository, so their operations are fields of a record that a user of the model supplies.
use elemental_lifecycle_mana.Prelude.{ℕ, String, Bool, Option, List}
use elemental_lifecycle_mana.Api.{Status, RawJson, Release}
use elemental_lifecycle_mana.Errors.{M, Result}

abbrev pub Labels : Type 0
Labels = List (String × String)

-- corev1.NodeCondition, batchv1.JobCondition and the conditions of plans and charts.
pub record ObjectCondition : Type 0 where
  pub kind : String
  pub status : Status
  pub reason : String
  pub message : String

pub record Node : Type 0 where
  pub name : String
  pub labels : Labels
  pub unschedulable : Bool
  pub kubelet_version : String
  pub conditions : List ObjectCondition

-- metav1.LabelSelectorOperator, as far as the program uses it.
pub data Operator : Type 0 where
  exists does_not_exist : Operator

-- A metav1.LabelSelector whose only part is one match expression.
pub record NodeSelector : Type 0 where
  pub key : String
  pub operator : Operator

pub record DrainSpec : Type 0 where
  pub timeout : String
  pub delete_empty_dir_data : Bool
  pub ignore_daemon_sets : Bool
  pub force : Bool

pub record ContainerSpec : Type 0 where
  pub image : String
  pub command : List String
  pub args : List String

-- upgrade.cattle.io/v1 Plan.
pub record Plan : Type 0 where
  pub kind : String
  pub api_version : String
  pub name : String
  pub namespace : String
  pub labels : Labels
  pub service_account_name : String
  pub version : String
  pub concurrency : ℕ
  pub node_selector : Option NodeSelector
  pub drain : Option DrainSpec
  pub cordon : Bool
  pub prepare : Option ContainerSpec
  pub upgrade : Option ContainerSpec
  pub applying : List String
  pub conditions : List ObjectCondition

pub record SecretSpec : Type 0 where
  pub name : String
  pub keys : List String

-- helm.cattle.io/v1 HelmChart.
pub record HelmChart : Type 0 where
  pub kind : String
  pub api_version : String
  pub name : String
  pub namespace : String
  pub labels : Labels
  pub annotations : Labels
  pub version : String
  pub chart : String
  pub repo : String
  pub target_namespace : String
  pub back_off_limit : Option ℕ
  pub chart_content : String
  pub values_content : String
  pub values : Option RawJson
  pub values_secrets : List SecretSpec
  pub job_name : String
  pub conditions : List ObjectCondition

pub record Job : Type 0 where
  pub conditions : List ObjectCondition
  -- Zero is Go's zero time.
  pub completion_time : Option ℕ

pub record ConfigMap : Type 0 where
  pub name : String
  pub namespace : String
  pub labels : Labels
  pub annotations : Labels
  pub entries : Labels
  pub creation_timestamp : ℕ
  pub deletion_timestamp : Option ℕ

pub record Secret : Type 0 where
  pub name : String
  pub namespace : String
  pub entries : Labels

-- client.Client of controller-runtime, one field for each kind and verb that the program calls. A
-- get takes the namespace and the name. A create returns the object as the server completed it.
pub record Client (W : Type 0) : Type 0 where
  pub get_release : String → String → M W Release
  pub list_releases : M W (List Release)
  pub update_release_status : Release → M W (Unit {0})
  pub list_nodes : M W (List Node)
  pub list_first_node : M W (List Node)
  -- LabelSelectorAsSelector, which gives the text of the selector, and a list by that selector.
  pub parse_selector : Option NodeSelector → Result String
  pub list_selected_nodes : Option NodeSelector → M W (List Node)
  pub get_plan : String → String → M W Plan
  pub create_plan : Plan → M W Plan
  pub list_plans : String → Labels → M W (List Plan)
  pub delete_plan : Plan → M W (Unit {0})
  pub get_chart : String → String → M W HelmChart
  pub create_chart : HelmChart → M W (Unit {0})
  pub update_chart : HelmChart → M W (Unit {0})
  pub list_charts : String → M W (List HelmChart)
  pub get_job : String → String → M W Job
  pub get_config_map : String → String → M W ConfigMap
  pub create_config_map : ConfigMap → M W (Unit {0})
  pub update_config_map : ConfigMap → M W (Unit {0})
  pub delete_config_map : ConfigMap → M W (Unit {0})
  pub get_secret : String → String → M W Secret
