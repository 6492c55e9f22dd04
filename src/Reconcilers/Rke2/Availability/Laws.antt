-- ===== src/Reconcilers/Rke2/Availability/Laws.antt =====
-- When `ReconcileAvailability` of internal/upgrade/reconcilers/rke2_core.go reports the packaged
-- components as available.
use elemental_lifecycle_mana.Prelude.{
  ℕ, String, Bool, true, false, List, [], ◌∷◌, ◌≡◌, refl, ap, ◌∙◌, ◌↔◌, ◌==◌, arith, not,
  if◌then◌else◌,
}
use elemental_lifecycle_mana.Api.{is_components_available, is_done}
use elemental_lifecycle_mana.Phase.{PhaseStatus}
use elemental_lifecycle_mana.Errors.{Result, ok, err, M, pure}
use elemental_lifecycle_mana.Errors.Laws.{in_context-holds, in_context-inv, in_context-run}
use elemental_lifecycle_mana.Cluster.{Client}
use elemental_lifecycle_mana.Helm.{HelmClient}
use elemental_lifecycle_mana.Reconcilers.Kubernetes.{ComponentsSnapshot}
use elemental_lifecycle_mana.Reconcilers.Kubernetes.Verified.{ComponentsAvailable, ReportsNoSuccess}
use elemental_lifecycle_mana.Reconcilers.Rke2.Changes.{
  SnapshotPair, FindComponents, find_new_or_changed,
}
use elemental_lifecycle_mana.Reconcilers.Rke2.Availability.{
  is_helm_chart_job_complete, wait_for_pairs, judge_pairs, reconcile_availability, no_change_status,
}

-- No phase status that the handler reports ends the phase.
abbrev pub NotDone : Result PhaseStatus → Type 0
NotDone (ok s) = is_done s.state ≡ false
NotDone (err e) = Unit

not_success : (r : Result PhaseStatus) → NotDone r → ReportsNoSuccess r
not_success (ok s) h = λ e. cc
not_success (err e) h = tt

-- The step of the loop after one pair.
step-NotDone :
    {W : Type 0} (b : Bool) (s : PhaseStatus) (rest : M W PhaseStatus) (w : W)
    → is_done s.state ≡ false
    → NotDone (rest w).0
    → NotDone ((if not b then pure s else rest) w).0
step-NotDone true s rest w e h = h
step-NotDone false s rest w e h = e

step-available :
    {W : Type 0} (b : Bool) (s : PhaseStatus) (rest : M W PhaseStatus) (w : W)
    → is_components_available s.state ≡ false
    → ComponentsAvailable ((if not b then pure s else rest) w).0
      ↔ ((b ≡ true) × ComponentsAvailable (rest w).0)
step-available true s rest w e = (λ h. (refl, h), λ (b, h). h)
step-available false s rest w e = (λ h. cc, λ (b, h). cc)

no_change_status-NotDone :
    (target : String) (snapshot : ComponentsSnapshot)
    → is_done (no_change_status target snapshot).state ≡ false
unfolding no_change_status
no_change_status-NotDone target snapshot = ground arith

module _ {W : Type 0} (client : Client W) (helm : HelmClient W) where
  wait_for_pairs-NotDone :
      (creation : ℕ) (pairs : List SnapshotPair) (w : W)
      → NotDone (wait_for_pairs client helm creation pairs w).0
  unfolding wait_for_pairs
  wait_for_pairs-NotDone creation [] w = refl
  wait_for_pairs-NotDone creation (p ∷ ps) w =
      in_context-holds NotDone _ (is_helm_chart_job_complete client helm p creation w) _ (λ e. tt)
        (λ complete v run.
          step-NotDone complete _ (wait_for_pairs client helm creation ps) v refl
            (wait_for_pairs-NotDone creation ps v))

  judge_pairs-NotDone :
      (target : String) (snapshot : ComponentsSnapshot) (pairs : List SnapshotPair) (w : W)
      → NotDone (judge_pairs client helm target snapshot pairs w).0
  unfolding judge_pairs
  judge_pairs-NotDone target snapshot [] w = no_change_status-NotDone target snapshot
  judge_pairs-NotDone target snapshot (p ∷ ps) w =
      wait_for_pairs-NotDone snapshot.creation_time (p ∷ ps) w

  module _ (hash : String → String) (find : FindComponents W) where
    pub reconcile_availability-NotDone :
        (target : String) (snapshot : ComponentsSnapshot) (w : W)
        → NotDone (reconcile_availability client helm hash find target snapshot w).0
    unfolding reconcile_availability
    reconcile_availability-NotDone target snapshot w =
        in_context-holds NotDone "finding new or changed RKE2 packaged components"
          (find_new_or_changed hash find snapshot.charts w)
          (judge_pairs client helm target snapshot) (λ e. tt)
          (λ pairs v run. judge_pairs-NotDone target snapshot pairs v)

    -- The handler of the packaged components never reports a success of the phase; the Kubernetes
    -- phase decides on that itself.
    pub reconcile_availability-ReportsNoSuccess :
        (target : String) (snapshot : ComponentsSnapshot) (w : W)
        → ReportsNoSuccess (reconcile_availability client helm hash find target snapshot w).0
    reconcile_availability-ReportsNoSuccess target snapshot w =
        not_success (reconcile_availability client helm hash find target snapshot w).0
          (reconcile_availability-NotDone target snapshot w)

  -- The job of every chart, asked in order, is complete.
  abbrev pub AllJobsComplete : ℕ → List SnapshotPair → W → Type 0
  AllJobsComplete creation [] w = Unit
  AllJobsComplete creation (p ∷ ps) w =
      ((is_helm_chart_job_complete client helm p creation w).0 ≡ ok true)
      × AllJobsComplete creation ps (is_helm_chart_job_complete client helm p creation w).1

  pub wait_for_pairs-available_iff :
      (creation : ℕ) (pairs : List SnapshotPair) (w : W)
      → ComponentsAvailable (wait_for_pairs client helm creation pairs w).0
        ↔ AllJobsComplete creation pairs w
  unfolding wait_for_pairs
  wait_for_pairs-available_iff creation [] w = (λ h. tt, λ h. refl)
  wait_for_pairs-available_iff creation (p ∷ ps) w =
      let asked = is_helm_chart_job_complete client helm p creation w in
      let rest = wait_for_pairs-available_iff creation ps asked.1 in
      (
        λ h.
            let (complete, answered, later) =
              in_context-inv ComponentsAvailable _ asked _ (λ e x. x) h in
            let (b, end) =
              (step-available complete _ (wait_for_pairs client helm creation ps) asked.1 refl).0
                later in
            (answered ∙ ap ok b, rest.0 end),
        λ (answered, later).
            in_context-run ComponentsAvailable _ asked _ true answered (rest.1 later),
      )

  module _ (hash : String → String) (find : FindComponents W) where
    -- What the packaged components that changed since the snapshot have to do.
    abbrev pub HasRolledOut : String → ComponentsSnapshot → List SnapshotPair → W → Type 0
    HasRolledOut target snapshot [] v = (target == snapshot.source_kubernetes_version) ≡ true
    HasRolledOut target snapshot (p ∷ ps) v = AllJobsComplete snapshot.creation_time (p ∷ ps) v

    judge_pairs-available_iff :
        (target : String) (snapshot : ComponentsSnapshot) (pairs : List SnapshotPair) (v : W)
        → ComponentsAvailable (judge_pairs client helm target snapshot pairs v).0
          ↔ HasRolledOut target snapshot pairs v
    unfolding judge_pairs no_change_status
    judge_pairs-available_iff target snapshot [] v = (λ h. ground arith, λ h. ground arith)
    judge_pairs-available_iff target snapshot (p ∷ ps) v =
        wait_for_pairs-available_iff snapshot.creation_time (p ∷ ps) v

    -- If the components that are new or changed can be found, they count as available exactly when
    -- the jobs of all of them are complete, or, when there are none, if the target is the version
    -- that the snapshot was taken at.
    pub reconcile_availability-available_iff :
        (target : String) (snapshot : ComponentsSnapshot) (pairs : List SnapshotPair) (w v : W)
        → find_new_or_changed hash find snapshot.charts w ≡ (ok pairs, v)
        → ComponentsAvailable (reconcile_availability client helm hash find target snapshot w).0
          ↔ HasRolledOut target snapshot pairs v
    unfolding reconcile_availability
    reconcile_availability-available_iff target snapshot pairs w v found =
        rw found (judge_pairs-available_iff target snapshot pairs v)
