-- ===== src/Reconcilers/Rke2/Availability.antt =====
-- When the packaged components count as available, in internal/upgrade/reconcilers/rke2_core.go.
pub mod Laws
use Prim.Native.String.{◌++◌}
use elemental_lifecycle_mana.Prelude.{
  ℕ, String, Bool, true, false, Option, none, some, List, [], ◌∷◌, ◌==◌, ◌&&◌, ◌||◌, not, ltb,
  nat_eq, any, if◌then◌else◌,
}
use elemental_lifecycle_mana.Api.{status_is_true, in_progress, components_available}
use elemental_lifecycle_mana.Phase.{PhaseStatus}
use elemental_lifecycle_mana.Phase.Names.{quote}
use elemental_lifecycle_mana.Errors.{
  Error, is_not_found, is_release_not_found, wrap, Result, ok, err, M, pure, throw, ◌>>=◌, attempt,
  context,
}
use elemental_lifecycle_mana.Cluster.{ObjectCondition, HelmChart, Job, Client}
use elemental_lifecycle_mana.Helm.{ReleaseInfo, HelmClient}
use elemental_lifecycle_mana.Reconcilers.Kubernetes.{ChartSnapshot, ComponentsSnapshot}
use elemental_lifecycle_mana.Reconcilers.Rke2.Changes.{
  FindComponents, SnapshotPair, find_new_or_changed,
}

abbrev pub available : PhaseStatus
available = record {
  state = components_available;
  message = "All RKE2 packaged components available";
}

-- A chart that had no snapshot is new: that Helm knows it is enough.
unfoldable pub release_advanced : ReleaseInfo → Option ChartSnapshot → Bool
release_advanced info none = true
release_advanced info (some s) =
    not (info.chart_version == s.chart_version) || ltb s.release_revisions info.revisions

abbrev pub completed_after : Option ℕ → ℕ → Bool
completed_after none creation = false
completed_after (some t) creation = if nat_eq t 0 then false else ltb creation t

unfoldable pub job_completed : Job → ℕ → Bool
job_completed job creation =
    if not (any (λ c. c.kind == "Complete" && status_is_true c.status) job.conditions)
    then false
    else completed_after job.completion_time creation

unfoldable pub no_change_status : String → ComponentsSnapshot → PhaseStatus
unfolding quote
no_change_status target snapshot =
    if target == snapshot.source_kubernetes_version then available else record {
      state = in_progress;
      message =
          "Waiting for RKE2 packaged components change after Kubernetes upgrade from "
          ++ (quote snapshot.source_kubernetes_version ++ (" to " ++ quote target));
    }

module _ {W : Type 0} (client : Client W) (helm : HelmClient W) where
  unfoldable pub release_answer : SnapshotPair → Result ReleaseInfo → M W Bool
  unfolding release_advanced quote
  release_answer pair (ok info) = pure (release_advanced info pair.snapshot)
  release_answer pair (err e) =
      if is_release_not_found e
      then pure false
      else throw
          (wrap ("retrieving RKE2 packaged component Helm release " ++ quote pair.chart.name) e)

  unfoldable pub has_helm_release_advanced : SnapshotPair → M W Bool
  unfolding release_answer
  has_helm_release_advanced pair =
      attempt (helm.retrieve_release pair.chart.name) (release_answer pair)

  unfoldable pub job_answer : SnapshotPair → ℕ → Result Job → M W Bool
  unfolding job_completed has_helm_release_advanced
  job_answer pair creation (ok job) = pure (job_completed job creation)
  job_answer pair creation (err e) =
      if is_not_found e then has_helm_release_advanced pair else throw e

  unfoldable pub is_helm_chart_job_complete : SnapshotPair → ℕ → M W Bool
  unfolding job_answer
  is_helm_chart_job_complete pair creation =
      if pair.chart.job_name == ""
      then pure false
      else attempt (client.get_job pair.chart.namespace pair.chart.job_name)
          (job_answer pair creation)

  -- The loop over the pairs.
  unfoldable pub wait_for_pairs : ℕ → List SnapshotPair → M W PhaseStatus
  unfolding is_helm_chart_job_complete quote
  wait_for_pairs creation [] = pure available
  wait_for_pairs creation (pair ∷ pairs) =
      context ("validating job for RKE2 packaged component " ++ quote pair.chart.name)
        (is_helm_chart_job_complete pair creation)
      >>= λ complete.
          let rest = wait_for_pairs creation pairs in
          if not complete
          then pure (record {
            state = in_progress;
            message =
                "RKE2 packaged component "
                ++ (quote pair.chart.name ++ " execution is still in progress");
          })
          else rest

  unfoldable pub judge_pairs : String → ComponentsSnapshot → List SnapshotPair → M W PhaseStatus
  unfolding no_change_status wait_for_pairs
  judge_pairs target snapshot [] = pure (no_change_status target snapshot)
  judge_pairs target snapshot (pair ∷ pairs) = wait_for_pairs snapshot.creation_time (pair ∷ pairs)

  unfoldable pub reconcile_availability :
      (String → String) → FindComponents W → String → ComponentsSnapshot → M W PhaseStatus
  unfolding find_new_or_changed judge_pairs
  reconcile_availability hash find target snapshot =
      context "finding new or changed RKE2 packaged components"
        (find_new_or_changed hash find snapshot.charts)
      >>= judge_pairs target snapshot
