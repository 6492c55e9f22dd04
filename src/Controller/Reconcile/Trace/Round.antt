-- ===== src/Controller/Reconcile/Trace/Round.antt =====
-- The calls of a whole round of `reconcileNormal` that records a version, in
-- internal/controller/release_controller.go, from the self-upgrade on.
use elemental_lifecycle_mana.Prelude.{
  Bool, true, false, ◌≡◌, refl, sym, subst, ◌∙◌, ◌⊎◌, inl, inr, nat_eq, Bool-cases,
}
use elemental_lifecycle_mana.Api.{Release, is_succeeded}
use elemental_lifecycle_mana.Errors.{as_runtime_config, Result, ok, err}
use elemental_lifecycle_mana.Phase.{lcm, PhaseStatus}
use elemental_lifecycle_mana.Config.{Config}
use elemental_lifecycle_mana.Controller.Conditions.{update_phase_condition}
use elemental_lifecycle_mana.Controller.Reconcile.{
  Outcome, Calls, hand_over, upgrade_release, after_lcm, after_lcm_config, reconcile_current,
  with_applied, reconcile_normal,
}
use elemental_lifecycle_mana.Controller.Reconcile.Version.{
  version-set_phase_condition_from_error, version-update_phase_condition,
  version-update_applied_condition, start_generation-keeps,
}
use elemental_lifecycle_mana.Controller.Reconcile.Trace.{
  hand_over-ends, EndsWith, Begins, RanRound, lcm_done, fail_config-same,
  upgrade_release-RanUpgrade,
}

module _ {W : Type 0} (calls : Calls W) where
  begun :
      (release started : Release) (w v : W) (b : Bool)
      → lcm_done calls release ≡ b
      → Begins calls b release w started v
      → started.status.version ≡ release.status.version
      → let r = upgrade_release calls started v in
        EndsWith calls release.status.version r ⊎ RanRound calls release w r
  begun release started w v b e begins same = elim (upgrade_release-RanUpgrade calls started v) [
    | inl kept ↦ inl (kept ∙ same)
    | inr done ↦ inr (started, v, rw e begins, done)
  ]

  after_lcm-RanRound :
      (release : Release) (config : Config) (w u v : W) (q : Result PhaseStatus)
      → lcm_done calls release ≡ false
      → calls.lcm_config release w ≡ (ok config, u)
      → calls.upgrade_lcm config u ≡ (q, v)
      → let r = after_lcm calls release q v in
        EndsWith calls release.status.version r ⊎ RanRound calls release w r
  unfolding after_lcm
  after_lcm-RanRound release config w u v (err e) undone made run =
      inl (version-set_phase_condition_from_error calls.ops release e)
  after_lcm-RanRound release config w u v (ok status) undone made run =
      let updated = update_phase_condition calls.ops release lcm status in
      let same = version-update_phase_condition calls.ops release lcm status in
      elim (Bool-cases (is_succeeded status.state)) [
        | inl e ↦
            rw e
              (begun release updated w v false undone (config, u, made, status, run, e, refl) same)
        | inr e ↦ rw e (inl same)
      ]

  after_lcm_config-RanRound :
      (release : Release) (w u : W) (q : Result Config)
      → lcm_done calls release ≡ false
      → calls.lcm_config release w ≡ (q, u)
      → let r = after_lcm_config calls release q u in
        EndsWith calls release.status.version r ⊎ RanRound calls release w r
  unfolding after_lcm_config
  after_lcm_config-RanRound release w u (err e) undone made = inl (
      fail_config-same calls "parsing upgrade config for LCM upgrade" release e
        (as_runtime_config e) u)
  after_lcm_config-RanRound release w u (ok config) undone made =
      hand_over-ends (λ r. EndsWith calls release.status.version r ⊎ RanRound calls release w r)
        (calls.upgrade_lcm config u) (after_lcm calls release)
        (λ q v. after_lcm-RanRound release config w u v q undone made)

  pub reconcile_current-upgrades :
      (release : Release) (w : W)
      → lcm_done calls release ≡ true
      → reconcile_current calls release w ≡ upgrade_release calls release w
  unfolding reconcile_current
  reconcile_current-upgrades release w e = rw e refl

  pub reconcile_current-asks :
      (release : Release) (w : W)
      → lcm_done calls release ≡ false
      → reconcile_current calls release w
        ≡ hand_over (calls.lcm_config release w) (after_lcm_config calls release)
  unfolding reconcile_current
  reconcile_current-asks release w e = rw e refl

  reconcile_current-RanRound :
      (release : Release) (w : W)
      → let r = reconcile_current calls release w in
        EndsWith calls release.status.version r ⊎ RanRound calls release w r
  reconcile_current-RanRound release w =
      let P : Outcome × W → Type 0 =
        λ r. EndsWith calls release.status.version r ⊎ RanRound calls release w r in
      elim (Bool-cases (lcm_done calls release)) [
        | inl e ↦
            subst P (sym (reconcile_current-upgrades release w e))
              (begun release release w w true e (refl, refl) refl)
        | inr e ↦ subst P (sym (reconcile_current-asks release w e)) (
            hand_over-ends P (calls.lcm_config release w) (after_lcm_config calls release)
              (λ q u. after_lcm_config-RanRound release w u q e))
      ]

  applied-RanRound :
      (release : Release) (w : W) (r : Outcome × W)
      → EndsWith calls release.status.version r ⊎ RanRound calls release w r
      → EndsWith calls release.status.version (with_applied calls r)
        ⊎ RanRound calls release w (with_applied calls r)
  applied-RanRound release w (o, last) h =
      rw (version-update_applied_condition calls.ops o.release calls.phases) h

  -- A round leaves the version of the status as it was, or it went all the way: it began with the
  -- self-upgrade, if that was not done before, got the manifest, parsed the configuration, cleaned up
  -- and ran the pipeline, each in the world that the one before it left.
  pub reconcile_normal-RanRound :
      (release : Release) (w : W)
      → let r = reconcile_normal calls release w in
        EndsWith calls release.status.version r ⊎ RanRound calls release w r
  unfolding reconcile_normal
  reconcile_normal-RanRound release w =
      elim (Bool-cases (nat_eq release.status.observed_generation release.generation)) [
        | inl e ↦ rw e (
            applied-RanRound release w (reconcile_current calls release w)
              (reconcile_current-RanRound release w))
        | inr e ↦ rw e (inl (start_generation-keeps calls release))
      ]
