-- ===== src/Reconcilers/HelmCharts/Chart/UpToDate.antt =====
-- Charts for which `reconcileChart` of internal/upgrade/reconcilers/helm.go finds nothing left to do.
use elemental_lifecycle_mana.Prelude.{
  Bool, true, false, ◌≡◌, refl, ◌⊎◌, inl, inr, ◌↔◌, ◌==◌, arith, Bool-cases, if◌then◌else◌,
}
use elemental_lifecycle_mana.Errors.{
  Error, is_not_found, is_release_not_found, Result, ok, err, continue, pure, ◌>>◌, with_context,
}
use elemental_lifecycle_mana.Config.{HelmChartConfig}
use elemental_lifecycle_mana.Cluster.{HelmChart, Job, Client}
use elemental_lifecycle_mana.Helm.{in_progress, ReleaseInfo, HelmClient}
use elemental_lifecycle_mana.Reconcilers.HelmCharts.Chart.{
  helm_chart_namespace, HelmLibs, ReleaseRef, should_update_chart, job_outcome,
  evaluate_helm_chart_job_status, create_helm_chart_from_release, update_helm_chart,
  reconcile_resource, reconcile_release, reconcile_chart,
}
use elemental_lifecycle_mana.Reconcilers.HelmCharts.Chart.Current.{
  Passes, CompletesFirst, NoneFailed, job_state-Passes, job_state_of_CompletesFirst,
  has_failed_condition-NoneFailed, has_failed_condition_of_NoneFailed, IsCurrent,
  should_update_chart-IsCurrent, should_update_chart_of_IsCurrent,
}

module _ {W : Type 0} (libs : HelmLibs) (client : Client W) (helm : HelmClient W)
    (ref : ReleaseRef) where
  -- The job completed, or it is gone and no condition of the resource says that it failed.
  abbrev pub IsDone : HelmChart → Result Job → Type 0
  IsDone chart r =
      ((job : Job) × (r ≡ ok job) × CompletesFirst job.conditions)
      ⊎ ((e : Error) × (r ≡ err e) × (is_not_found e ≡ true) × NoneFailed chart.conditions)

  -- The job of the resource is known, and done.
  abbrev pub IsJobDone : HelmChart → W → Type 0
  IsJobDone chart w =
      ((chart.job_name == "") ≡ false)
      × IsDone chart (client.get_job helm_chart_namespace chart.job_name w).0

  -- Without a resource the release has the target version; with one, the resource is current and
  -- its job is done.
  abbrev pub IsSettled : HelmChartConfig → ReleaseInfo → Result HelmChart × W → Type 0
  IsSettled config info r =
      ((e : Error) × (r.0 ≡ err e)
        × (is_not_found e ≡ true)
        × ((info.chart_version == config.chart.version) ≡ true))
      ⊎ ((existing : HelmChart) × (r.0 ≡ ok existing)
          × IsCurrent libs existing config
          × IsJobDone existing r.1)

  -- Helm knows no release of the chart, or one for which nothing is left to do.
  abbrev pub IsUpToDate : HelmChartConfig → W → Type 0
  IsUpToDate config w =
      let found = helm.retrieve_release (libs.chart_name config.chart) w in
      ((e : Error) × (found.0 ≡ err e) × (is_release_not_found e ≡ true))
      ⊎ ((info : ReleaseInfo) × (found.0 ≡ ok info)
          × IsSettled config info
              (client.get_chart helm_chart_namespace (libs.chart_name config.chart) found.1))

  job_outcome-Passes :
      (chart : HelmChart) (r : Result Job × W)
      → Passes (job_outcome libs client helm ref chart r.0 r.1).0
      → IsDone chart r.0
  unfolding job_outcome
  job_outcome-Passes chart (ok job, v) h = inl (job, refl, job_state-Passes job.conditions h)
  job_outcome-Passes chart (err e, v) h =
      inr (e, refl, ground arith, has_failed_condition-NoneFailed chart.conditions (ground arith))

  job_outcome_of_done :
      (chart : HelmChart) (r : Result Job × W)
      → IsDone chart r.0
      → Passes (job_outcome libs client helm ref chart r.0 r.1).0
  unfolding job_outcome
  job_outcome_of_done chart r (inl (job, e, done)) =
      rw (e, job_state_of_CompletesFirst job.conditions done) refl
  job_outcome_of_done chart r (inr (e, gone, missing, none_failed)) =
      rw (gone, missing, has_failed_condition_of_NoneFailed chart.conditions none_failed) refl

  evaluate-Passes :
      (chart : HelmChart) (w : W)
      → Passes (evaluate_helm_chart_job_status libs client helm ref chart w).0
      → IsJobDone chart w
  unfolding evaluate_helm_chart_job_status
  evaluate-Passes chart w h = elim (Bool-cases (chart.job_name == "")) [
    | inl none_yet ↦ absurd (ground arith)
    | inr named ↦ (
      named,
      job_outcome-Passes chart (client.get_job helm_chart_namespace chart.job_name w)
          (ground arith),
    )
  ]

  evaluate_of_IsJobDone :
      (chart : HelmChart) (w : W)
      → IsJobDone chart w
      → Passes (evaluate_helm_chart_job_status libs client helm ref chart w).0
  unfolding evaluate_helm_chart_job_status
  evaluate_of_IsJobDone chart w (named, done) =
      rw named
        (job_outcome_of_done chart (client.get_job helm_chart_namespace chart.job_name w) done)

  -- A chart that was just changed is in progress.
  change-Passes :
      (r : Result (Unit {0}) × W) → ¬ Passes (continue r (λ _ (v : W). (ok in_progress, v))).0
  change-Passes (ok u, v) h = cc
  change-Passes (err e, v) h = h

  checked-Passes :
      (config : HelmChartConfig) (existing : HelmChart) (checked : Result Bool) (v : W)
      → Passes
          (continue
            (with_context "checking whether chart update is necessary" checked, v)
            (λ update.
              if update
              then (update_helm_chart libs client helm ref config existing >> pure in_progress)
              else evaluate_helm_chart_job_status libs client helm ref existing)).0
      → (checked ≡ ok false) × IsJobDone existing v
  checked-Passes config existing (ok true) v h =
      absurd (change-Passes (update_helm_chart libs client helm ref config existing v) h)
  checked-Passes config existing (ok false) v h = (refl, evaluate-Passes existing v h)
  checked-Passes config existing (err e) v h = absurd h

  reconcile_resource-Passes :
      (config : HelmChartConfig) (info : ReleaseInfo) (r : Result HelmChart × W)
      → Passes (reconcile_resource libs client helm ref config info r.0 r.1).0
      → IsSettled config info r
  unfolding reconcile_resource
  reconcile_resource-Passes config info (err e, v) h =
      let created = create_helm_chart_from_release libs client helm ref config info v in
      inl (e, refl, ground (arith, change-Passes created), ground (arith, change-Passes created))
  reconcile_resource-Passes config info (ok existing, v) h =
      let (same, done) =
        checked-Passes config existing (should_update_chart libs existing config) v h in
      inr (existing, refl, should_update_chart-IsCurrent libs existing config same, done)

  reconcile_resource_of_IsSettled :
      (config : HelmChartConfig) (info : ReleaseInfo) (r : Result HelmChart × W)
      → IsSettled config info r
      → Passes (reconcile_resource libs client helm ref config info r.0 r.1).0
  unfolding reconcile_resource
  reconcile_resource_of_IsSettled config info r (inl (e, gone, missing, same)) =
      rw (gone, missing, same) refl
  reconcile_resource_of_IsSettled config info r (inr (existing, read, current, done)) =
      rw (read, should_update_chart_of_IsCurrent libs existing config current)
        (evaluate_of_IsJobDone existing r.1 done)

  reconcile_release-Passes :
      (config : HelmChartConfig) (r : Result ReleaseInfo × W)
      → Passes (reconcile_release libs client helm ref config r.0 r.1).0
      → ((e : Error) × (r.0 ≡ err e) × (is_release_not_found e ≡ true))
        ⊎ ((info : ReleaseInfo) × (r.0 ≡ ok info)
            × IsSettled config info
                (client.get_chart helm_chart_namespace (libs.chart_name config.chart) r.1))
  unfolding reconcile_release
  reconcile_release-Passes config (err e, v) h = inl (e, refl, ground arith)
  reconcile_release-Passes config (ok info, v) h = inr (
    info,
    refl,
    reconcile_resource-Passes config info
        (client.get_chart helm_chart_namespace (libs.chart_name config.chart) v) h,
  )

  reconcile_release_of_IsUpToDate :
      (config : HelmChartConfig) (r : Result ReleaseInfo × W)
      → ((e : Error) × (r.0 ≡ err e) × (is_release_not_found e ≡ true))
        ⊎ ((info : ReleaseInfo) × (r.0 ≡ ok info)
            × IsSettled config info
                (client.get_chart helm_chart_namespace (libs.chart_name config.chart) r.1))
      → Passes (reconcile_release libs client helm ref config r.0 r.1).0
  unfolding reconcile_release
  reconcile_release_of_IsUpToDate config r (inl (e, none_found, missing)) =
      rw (none_found, missing) refl
  reconcile_release_of_IsUpToDate config r (inr (info, found, settled)) = rw found (
      reconcile_resource_of_IsSettled config info
        (client.get_chart helm_chart_namespace (libs.chart_name config.chart) r.1) settled)

  -- A chart is neither reported in progress nor failed, and without an error, exactly when there is
  -- nothing left to do for it: Helm knows no release of it; or the release has the target version
  -- and there is no resource for it; or its resource has the version, the values and the secrets
  -- that are asked for, and the job of the resource completed, or is gone with no failure noted.
  pub reconcile_chart-Passes_iff :
      (config : HelmChartConfig) (w : W)
      → Passes (reconcile_chart libs client helm ref config w).0 ↔ IsUpToDate config w
  unfolding reconcile_chart reconcile_release
  reconcile_chart-Passes_iff config w = (
    (λ h.
        reconcile_release-Passes config (helm.retrieve_release (libs.chart_name config.chart) w) h),
    (λ h.
        reconcile_release_of_IsUpToDate config
          (helm.retrieve_release (libs.chart_name config.chart) w) h),
  )
