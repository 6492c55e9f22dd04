-- ===== src/Api.antt =====
-- api/v1alpha1/release_types.go: the Release resource, its conditions and their reasons.
-- Conditions are metav1.Condition without the transition time, which no code of the program reads.
pub mod Sanitize
use elemental_lifecycle_mana.Prelude.{ℕ, String, Bool, true, false, Option, none, some, List}

-- metav1.ConditionStatus and corev1.ConditionStatus.
pub data Status : Type 0 where
  is_true is_false is_unknown : Status

abbrev pub status_is_true : Status → Bool
status_is_true is_true = true
status_is_true _ = false

abbrev pub status_is_false : Status → Bool
status_is_false is_false = true
status_is_false _ = false

-- The reasons of conditions and the states of phases. A condition that another client wrote may
-- hold any other text.
pub data State : Type 0 where
  pending in_progress skipped succeeded failed plan_complete components_available : State
  other : String → State

abbrev pub is_failed : State → Bool
is_failed failed = true
is_failed _ = false

abbrev pub is_in_progress : State → Bool
is_in_progress in_progress = true
is_in_progress _ = false

abbrev pub is_succeeded : State → Bool
is_succeeded succeeded = true
is_succeeded _ = false

-- `state == UpgradeSucceeded || state == UpgradeSkipped`.
abbrev pub is_done : State → Bool
is_done succeeded = true
is_done skipped = true
is_done _ = false

abbrev pub is_plan_complete : State → Bool
is_plan_complete plan_complete = true
is_plan_complete _ = false

abbrev pub is_components_available : State → Bool
is_components_available components_available = true
is_components_available _ = false

abbrev pub condition_applied : String
condition_applied = "Applied"

abbrev pub condition_manifest_resolved : String
condition_manifest_resolved = "ManifestResolved"

abbrev pub condition_lcm_upgraded : String
condition_lcm_upgraded = "LCMUpgraded"

abbrev pub condition_os_upgraded : String
condition_os_upgraded = "OSUpgraded"

abbrev pub condition_kubernetes_upgraded : String
condition_kubernetes_upgraded = "KubernetesUpgraded"

abbrev pub condition_helm_charts_upgraded : String
condition_helm_charts_upgraded = "HelmChartsUpgraded"

abbrev pub release_name_label : String
release_name_label = "lifecycle.suse.com/release"

abbrev pub release_version_label : String
release_version_label = "lifecycle.suse.com/version"

pub record Condition : Type 0 where
  pub kind : String
  pub status : Status
  pub observed_generation : ℕ
  pub reason : State
  pub message : String

-- The raw bytes of an apiextensionsv1.JSON.
pub record RawJson : Type 0 where
  pub raw : String

pub record SecretValueSource : Type 0 where
  pub name : String
  pub keys : List String

pub record ChartConfig : Type 0 where
  pub chart : String
  pub values : Option RawJson
  pub secret_ref : Option SecretValueSource

pub record ComponentConfig : Type 0 where
  pub helm : List ChartConfig

pub record ReleaseSpec : Type 0 where
  pub version : String
  pub registry : String
  pub disable_drain : Bool
  pub component_config : Option ComponentConfig

pub record ReleaseStatus : Type 0 where
  pub version : String
  pub conditions : List Condition
  pub observed_generation : ℕ

pub record Release : Type 0 where
  pub name : String
  pub namespace : String
  pub generation : ℕ
  pub spec : ReleaseSpec
  pub status : ReleaseStatus
