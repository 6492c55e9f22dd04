-- ===== src/Controller/Wiring/Target.antt =====
-- The versions that the reconciler of cmd/main.go records.
use elemental_lifecycle_mana.Prelude.{String, ◌≡◌, refl, ◌⊎◌, inl, inr, arith}
use elemental_lifecycle_mana.Api.{Release}
use elemental_lifecycle_mana.Errors.{Result, ok, err}
use elemental_lifecycle_mana.Config.{Config, ResolvedManifest}
use elemental_lifecycle_mana.Cluster.{Client}
use elemental_lifecycle_mana.Helm.{HelmClient}
use elemental_lifecycle_mana.Reconcilers.Kubernetes.{ComponentsHandler}
use elemental_lifecycle_mana.Controller.Conditions.{set_condition}
use elemental_lifecycle_mana.Controller.Conditions.Closed.{
  KeptBySets, initialize_pending_conditions-kept, update_applied_condition-kept,
}
use elemental_lifecycle_mana.Controller.Configs.{parse_upgrade_config}
use elemental_lifecycle_mana.Controller.Configs.Target.{HasVersion, parse_upgrade_config-HasVersion}
use elemental_lifecycle_mana.Controller.Manifests.{RawManifests, WithRaw, keep_raw}
use elemental_lifecycle_mana.Controller.Reconcile.{
  Outcome, with_applied, start_generation, reconcile_current, reconcile_normal,
}
use elemental_lifecycle_mana.Controller.Reconcile.Closed.{
  ClosedFor, HasTarget, reconcile_current-closed_for,
}
use elemental_lifecycle_mana.Controller.Wiring.{Libraries, release_reconciler}

-- The release still asks for what `before` asked for; the version that it reached is the old one or
-- the one that it asks for.
abbrev pub IsOnCourse : Release → Release → Type 0
IsOnCourse before release =
    (release.spec ≡ before.spec)
    × ((release.status.version ≡ before.status.version)
        ⊎ (release.status.version ≡ before.spec.version))

abbrev AskedBy : Release → String → Type 0
AskedBy before v = v ≡ before.spec.version

keep_raw-HasTarget :
    {W : Type 0} (before release : Release) (raw : RawManifests) (r : Result Config × W)
    → release.spec ≡ before.spec
    → HasVersion release.spec.version r.0
    → HasTarget (AskedBy before) (keep_raw raw r).0
keep_raw-HasTarget before release raw (ok config, w) same h = rw (← same) h
keep_raw-HasTarget before release raw (err e, w) same h = tt

module _ {W : Type 0} (libs : Libraries W) (client : Client W) (helm : HelmClient W)
    (components : ComponentsHandler W) where
  IsOnCourse-set_condition : (before : Release) → KeptBySets libs.ops (IsOnCourse before)
  unfolding set_condition
  IsOnCourse-set_condition before release kind status reason message h = h

  IsOnCourse-Closed : (before : Release) → ClosedFor libs.ops (AskedBy before) (IsOnCourse before)
  IsOnCourse-Closed before = record {
    on_applied = λ release text h. IsOnCourse-set_condition before release _ _ _ _ h;
    on_manifest =
        λ release status reason text told h. IsOnCourse-set_condition before release _ _ _ _ h;
    on_phase = λ release p status reason text h. IsOnCourse-set_condition before release _ _ _ _ h;
    on_version = λ release v asked h. (h.0, inr asked);
  }

  reconciler-HasTarget :
      (before : Release) (m : ResolvedManifest) (release : Release) (w : WithRaw W)
      → IsOnCourse before release
      → HasTarget
          (AskedBy before)
          ((release_reconciler libs client helm components).parse_config m release w).0
  unfolding release_reconciler
  reconciler-HasTarget before m release (raw, w) (same, _) =
      keep_raw-HasTarget before release raw (parse_upgrade_config client libs.new_tag m release w)
        same (parse_upgrade_config-HasVersion client libs.new_tag m release w)

  with_applied-IsOnCourse :
      (before : Release) (r : Outcome × WithRaw W)
      → IsOnCourse before r.0.release
      → IsOnCourse before
          (with_applied (release_reconciler libs client helm components) r).0.release
  unfolding release_reconciler
  with_applied-IsOnCourse before (o, w) h =
      update_applied_condition-kept libs.ops (IsOnCourse before) (IsOnCourse-set_condition before)
        o.release _ h

  start_generation-IsOnCourse :
      (release : Release)
      → IsOnCourse release
          (start_generation (release_reconciler libs client helm components) release)
  unfolding release_reconciler
  start_generation-IsOnCourse release =
      initialize_pending_conditions-kept libs.ops (IsOnCourse release)
        (IsOnCourse-set_condition release) _ _ (refl, inl refl)

  current-IsOnCourse :
      (release : Release) (w : WithRaw W)
      → IsOnCourse release
          (reconcile_current (release_reconciler libs client helm components) release w).0.release
  current-IsOnCourse release w =
      reconcile_current-closed_for (release_reconciler libs client helm components)
        (AskedBy release) (IsOnCourse release)
        (unfold release_reconciler in IsOnCourse-Closed release) (reconciler-HasTarget release)
        release w (refl, inl refl)

  -- A reconciliation leaves the version that the release reached as it was, or makes it the one that
  -- the release asks for.
  pub reconcile_normal-IsOnCourse :
      (release : Release) (w : WithRaw W)
      → IsOnCourse release
          (reconcile_normal (release_reconciler libs client helm components) release w).0.release
  unfolding reconcile_normal
  reconcile_normal-IsOnCourse release w = ground (
    arith,
    start_generation-IsOnCourse release,
    with_applied-IsOnCourse release
        (reconcile_current (release_reconciler libs client helm components) release w)
        (current-IsOnCourse release w),
  )
