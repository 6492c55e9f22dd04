-- ===== src/Reconcilers/HelmCharts/Chart/Current.antt =====
-- How `shouldUpdateChart` and `evaluateHelmChartJobStatus` of internal/upgrade/reconcilers/helm.go
-- judge a HelmChart resource and its job.
use elemental_lifecycle_mana.Prelude.{
  Bool, true, false, List, [], ◌∷◌, ◌≡◌, refl, ◌⊎◌, ◌==◌, ◌&&◌, ◌||◌, All, Option, arith, not,
  if◌then◌else◌,
}
use elemental_lifecycle_mana.Api.{status_is_true}
use elemental_lifecycle_mana.Errors.{Result, ok, err, then_with, with_context}
use elemental_lifecycle_mana.Config.{HelmChartConfig}
use elemental_lifecycle_mana.Cluster.{ObjectCondition, HelmChart}
use elemental_lifecycle_mana.Helm.{ChartState, succeeded}
use elemental_lifecycle_mana.Helm.Values.{Fields}
use elemental_lifecycle_mana.Reconcilers.HelmCharts.Chart.{
  HelmLibs, has_failed_condition, job_state, secrets_equal, desired_secrets,
  generate_custom_values_map, decode_existing, should_update_chart,
}
use elemental_lifecycle_mana.Reconcilers.HelmCharts.{is_chart_in_progress, is_chart_failed}

-- Neither in progress nor failed.
abbrev pub Passes : Result ChartState → Type 0
Passes (ok s) = (is_chart_in_progress s || is_chart_failed s) ≡ false
Passes (err e) = ⊥

abbrev pub is_decided : ObjectCondition → Bool
is_decided c = status_is_true c.status && (c.kind == "Complete" || c.kind == "Failed")

-- The first decided condition says Complete.
abbrev pub CompletesFirst : List ObjectCondition → Type 0
CompletesFirst [] = ⊥
CompletesFirst (c ∷ cs) =
    ((is_decided c ≡ true) × ((c.kind == "Complete") ≡ true))
    ⊎ ((is_decided c ≡ false) × CompletesFirst cs)

-- No condition that is True says Failed.
abbrev pub NoneFailed : List ObjectCondition → Type 0
NoneFailed cs = All (λ c. ((c.kind == "Failed") && status_is_true c.status) ≡ false) cs

pub job_state-Passes : (cs : List ObjectCondition) → Passes (ok (job_state cs)) → CompletesFirst cs
unfolding job_state
job_state-Passes [] h = cc
job_state-Passes (c ∷ cs) h = ground (arith, job_state-Passes cs)

pub job_state_of_CompletesFirst :
    (cs : List ObjectCondition) → CompletesFirst cs → job_state cs ≡ succeeded
unfolding job_state
job_state_of_CompletesFirst [] h = absurd h
job_state_of_CompletesFirst (c ∷ cs) h = ground (arith, job_state_of_CompletesFirst cs)

pub has_failed_condition-NoneFailed :
    (cs : List ObjectCondition) → has_failed_condition cs ≡ false → NoneFailed cs
unfolding has_failed_condition
has_failed_condition-NoneFailed [] h = tt
has_failed_condition-NoneFailed (c ∷ cs) h = ground (arith, has_failed_condition-NoneFailed cs)

pub has_failed_condition_of_NoneFailed :
    (cs : List ObjectCondition) → NoneFailed cs → has_failed_condition cs ≡ false
unfolding has_failed_condition
has_failed_condition_of_NoneFailed [] h = refl
has_failed_condition_of_NoneFailed (c ∷ cs) (h, hs) =
    ground (arith, has_failed_condition_of_NoneFailed cs hs)

module _ (libs : HelmLibs) where
  -- The resource has the version, the values and the secrets that the release asks for.
  abbrev pub IsCurrent : HelmChart → HelmChartConfig → Type 0
  IsCurrent existing config =
      ((existing.version == config.chart.version) ≡ true)
      × ((incoming : Option Fields) × (present : Option Fields) × (generate_custom_values_map libs
              config
            ≡ ok incoming)
          × (decode_existing libs existing.values ≡ ok present)
          × (libs.values_equal present incoming ≡ true)
          × (secrets_equal existing.values_secrets
                (desired_secrets config.runtime_config.secret_ref)
              ≡ true))

  -- The comparison of the values and the secrets, from what is generated and what is decoded.
  compared :
      HelmChart → HelmChartConfig → Result (Option Fields) → Result (Option Fields) → Result Bool
  compared existing config generated decoded =
      then_with (with_context "generating HelmChart custom values content" generated) λ incoming.
        then_with decoded λ present.
          if not (libs.values_equal present incoming)
          then ok true
          else ok (
              not (
                secrets_equal existing.values_secrets
                  (desired_secrets config.runtime_config.secret_ref)))

  compared-same :
      (existing : HelmChart) (config : HelmChartConfig) (generated decoded : Result (Option Fields))
      → compared existing config generated decoded ≡ ok false
      → (incoming : Option Fields) × (present : Option Fields) × (generated ≡ ok incoming)
        × (decoded ≡ ok present)
        × (libs.values_equal present incoming ≡ true)
        × (secrets_equal existing.values_secrets (desired_secrets config.runtime_config.secret_ref)
            ≡ true)
  unfolding compared
  compared-same existing config (ok incoming) (ok present) h =
      (incoming, present, refl, refl, ground arith, ground arith)
  compared-same existing config (ok incoming) (err e) h = cc
  compared-same existing config (err e) decoded h = cc

  pub should_update_chart-IsCurrent :
      (existing : HelmChart) (config : HelmChartConfig)
      → should_update_chart libs existing config ≡ ok false
      → IsCurrent existing config
  unfolding should_update_chart compared
  should_update_chart-IsCurrent existing config h = (
    ground arith,
    compared-same existing config (generate_custom_values_map libs config)
        (decode_existing libs existing.values) (ground arith),
  )

  pub should_update_chart_of_IsCurrent :
      (existing : HelmChart) (config : HelmChartConfig)
      → IsCurrent existing config
      → should_update_chart libs existing config ≡ ok false
  unfolding should_update_chart
  should_update_chart_of_IsCurrent existing config
        (same, (incoming, present, e₁, e₂, values, secrets)) =
      rw (same, e₁, e₂, values, secrets) refl
