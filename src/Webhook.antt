-- ===== src/Webhook.antt =====
-- internal/webhook/v1alpha1/release_webhook.go: which changes of a Release are admitted.
pub mod Admission
use Prim.Native.String.{◌++◌}
use elemental_lifecycle_mana.Prelude.{
  String, Bool, true, false, Option, none, some, List, [], ◌∷◌, ◌==◌, is_some, lookup,
  if◌then◌else◌,
}
use elemental_lifecycle_mana.Api.{
  Status, status_is_true, State, pending, in_progress, skipped, succeeded, failed, plan_complete,
  components_available, other, is_failed, Condition, condition_applied, SecretValueSource,
  ChartConfig, ComponentConfig, Release,
}
use elemental_lifecycle_mana.Phase.Names.{quote}
use elemental_lifecycle_mana.Errors.{
  Error, message, is_not_found, wrap, Result, ok, err, then_with, with_context, M, pure, throw,
  from_result, ◌>>=◌, ◌>>◌, attempt, context,
}
use elemental_lifecycle_mana.Cluster.{Secret, Client}
use elemental_lifecycle_mana.Controller.Conditions.{ConditionOps, find_condition}
use elemental_lifecycle_mana.Reconcilers.HelmCharts.Chart.{helm_chart_namespace}

-- The text of a reason.
unfoldable pub state_text : State → String
state_text pending = "Pending"
state_text in_progress = "InProgress"
state_text skipped = "Skipped"
state_text succeeded = "Succeeded"
state_text failed = "Failed"
state_text plan_complete = "PlanComplete"
state_text components_available = "PackagedComponentsAvailable"
state_text (other s) = s

-- The loop over the keys of one secret reference.
unfoldable pub check_keys : ChartConfig → Secret → String → List String → Result (Unit {0})
unfolding quote
check_keys chart secret name [] = ok tt
check_keys chart secret name (k ∷ ks) =
    let rest = check_keys chart secret name ks in
    if is_some (lookup k secret.entries)
    then rest
    else err (
        message (
          "chart "
          ++ (quote chart.chart
              ++ (" references a "
                  ++ (quote k
                      ++ (" key that is missing from the " ++ (quote name ++ " secret")))))))

module _ {W : Type 0} (client : Client W) where
  unfoldable pub check_secret : ChartConfig → SecretValueSource → Result Secret → M W (Unit {0})
  unfolding check_keys quote
  check_secret chart ref (ok existing) = from_result (check_keys chart existing ref.name ref.keys)
  check_secret chart ref (err e) =
      if is_not_found e
      then throw (
          message (
            "chart "
            ++ (quote chart.chart
                ++ (" references a "
                    ++ (quote ref.name
                        ++ (" secret that is missing from the "
                            ++ (quote helm_chart_namespace ++ " namespace")))))))
      else throw (wrap ("retrieving secret " ++ quote ref.name) e)

  unfoldable pub check_chart : ChartConfig → Option SecretValueSource → M W (Unit {0})
  unfolding check_secret
  check_chart chart none = pure tt
  check_chart chart (some ref) =
      attempt (client.get_secret helm_chart_namespace ref.name) (check_secret chart ref)

  unfoldable pub validate_helm_values_secret : List ChartConfig → M W (Unit {0})
  unfolding check_chart
  validate_helm_values_secret [] = pure tt
  validate_helm_values_secret (c ∷ cs) =
      check_chart c c.secret_ref >>= λ _. validate_helm_values_secret cs

  unfoldable pub validate_component_config : Option ComponentConfig → M W (Unit {0})
  unfolding validate_helm_values_secret
  validate_component_config none = pure tt
  validate_component_config (some c) = validate_helm_values_secret c.helm

-- What version.Compare answers: 1, 0 or -1.
pub data Comparison : Type 0 where
  greater same less : Comparison

-- The package k8s.io/apimachinery/pkg/util/version.
pub record VersionLib : Type 1 where
  pub Version : Type 0
  pub parse : String → Result Version
  pub compare : Version → String → Result Comparison

module _ (versions : VersionLib) where
  unfoldable pub validate_release_version : String → Result versions.Version
  unfolding quote
  validate_release_version s =
      if s == "" then err (message "release version is required") else elim (versions.parse s) [
        | ok v ↦ ok v
        | err e ↦ err (message (quote s ++ " is not a semantic version"))
      ]

  -- The switch on the comparison with the applied version.
  unfoldable pub judge : Release → Release → Comparison → Result (Unit {0})
  unfolding quote
  judge old new same = err (
      message
        ("any edits over " ++ (quote new.name ++ " must come with an increment of the version")))
  judge old new less = err (
      message (
        "new version must be greater than the currently applied one ("
        ++ (quote old.status.version ++ ")")))
  judge old new greater = ok tt

  unfoldable pub validate_increment : Release → Release → versions.Version → Result (Unit {0})
  unfolding judge
  validate_increment old new v =
      if old.status.version == ""
      then ok tt
      else then_with (with_context "comparing versions" (versions.compare v old.status.version))
          (judge old new)

-- The switch of `validateNoUpgradeInProgress`.
unfoldable pub allow_edit : Option Condition → Result (Unit {0})
unfolding quote state_text
allow_edit none = ok tt
allow_edit (some c) =
    if status_is_true c.status
    then ok tt
    else if is_failed c.reason
    then ok tt
    else err
        (message ("cannot edit while upgrade is in " ++ (quote (state_text c.reason) ++ " state")))

unfoldable pub validate_no_upgrade_in_progress : ConditionOps → Release → Result (Unit {0})
unfolding allow_edit
validate_no_upgrade_in_progress ops release =
    allow_edit (find_condition ops condition_applied release)

abbrev pub require_registry : Release → Result (Unit {0})
require_registry release =
    if release.spec.registry == "" then err (message "release registry is required") else ok tt

module _ {W : Type 0} (client : Client W) (versions : VersionLib) (ops : ConditionOps) where
  unfoldable pub check_no_release : Release → List Release → Result (Unit {0})
  check_no_release release [] = ok tt
  check_no_release release (r ∷ rs) = err (
      message (
        "cannot create release "
        ++ (release.name
            ++ (". The cluster has an already created Release object: "
                ++ (r.namespace ++ ("/" ++ r.name))))))

  unfoldable pub validate_create : Release → M W (Unit {0})
  unfolding validate_release_version check_no_release validate_component_config
  validate_create release = do
    from_result (require_registry release)
    _ ← from_result (
        with_context "validating release version"
          (validate_release_version versions release.spec.version))
    existing ← context "listing existing releases" client.list_releases
    from_result (check_no_release release existing)
    validate_component_config client release.spec.component_config

  unfoldable pub validate_update : Release → Release → M W (Unit {0})
  unfolding validate_release_version validate_no_upgrade_in_progress validate_increment
      validate_component_config
  validate_update old new = do
    v ← from_result (validate_release_version versions new.spec.version)
    from_result (require_registry new)
    from_result (validate_no_upgrade_in_progress ops old)
    from_result (validate_increment versions old new v)
    validate_component_config client new.spec.component_config

  unfoldable pub validate_delete : Release → M W (Unit {0})
  validate_delete release = throw (message "deleting release objects is not allowed")
