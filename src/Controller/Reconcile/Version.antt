-- ===== src/Controller/Reconcile/Version.antt =====
-- When a release records the version that it has reached, in release_controller.go.
use elemental_lifecycle_mana.Prelude.{
  String, true, Option, none, some, List, [], ◌∷◌, ◌≡◌, refl, ◌⊎◌, inl, inr, ◌∙◌, sym, arith,
  Bool-cases,
}
use elemental_lifecycle_mana.Api.{Release}
use elemental_lifecycle_mana.Errors.{Error, as_phase_error, as_runtime_config, Result, ok, err}
use elemental_lifecycle_mana.Phase.{Phase, lcm, PhaseStatus, PhaseStates, all_complete}
use elemental_lifecycle_mana.Config.{Config, ResolvedManifest}
use elemental_lifecycle_mana.Controller.Conditions.{
  ConditionOps, set_condition, initialize_pending_conditions, set_phase_condition_from_error,
  fail_phase, update_phase_condition, update_phase_conditions, update_applied_condition,
}
use elemental_lifecycle_mana.Controller.Conditions.Closed.{
  KeptBySets, initialize_pending_conditions-kept, update_applied_condition-kept,
}
use elemental_lifecycle_mana.Controller.Reconcile.{
  Outcome, Calls, hand_over, resolve_release, fail_config, after_pipeline, after_cleanup,
  after_config, after_manifest, upgrade_release, after_lcm, after_lcm_config, reconcile_current,
  with_applied, start_generation, reconcile_normal,
}

module _ (ops : ConditionOps) where
  HasVersion-set_condition :
      (v : String) → KeptBySets ops (λ (release : Release). release.status.version ≡ v)
  unfolding set_condition
  HasVersion-set_condition v release kind status reason message h = h

  version-initialize_pending_conditions :
      (release : Release) (ps : List Phase)
      → (initialize_pending_conditions ops release ps).status.version ≡ release.status.version
  version-initialize_pending_conditions release ps =
      initialize_pending_conditions-kept ops _ (HasVersion-set_condition release.status.version)
        release ps refl

  version-fail_phase :
      (release : Release) (o : Option (Phase × Error))
      → (fail_phase ops release o).status.version ≡ release.status.version
  unfolding set_condition
  version-fail_phase release none = refl
  version-fail_phase release (some (p, e)) = refl

  pub version-set_phase_condition_from_error :
      (release : Release) (e : Error)
      → (set_phase_condition_from_error ops release e).status.version ≡ release.status.version
  unfolding set_phase_condition_from_error
  version-set_phase_condition_from_error release e = version-fail_phase release (as_phase_error e)

  pub version-update_phase_condition :
      (release : Release) (p : Phase) (s : PhaseStatus)
      → (update_phase_condition ops release p s).status.version ≡ release.status.version
  unfolding update_phase_condition
  version-update_phase_condition release p s = ground arith

  pub version-update_phase_conditions :
      (release : Release) (m : PhaseStates)
      → (update_phase_conditions ops release m).status.version ≡ release.status.version
  unfolding update_phase_conditions
  version-update_phase_conditions release [] = refl
  version-update_phase_conditions release ((p, s) ∷ m) =
      version-update_phase_conditions (update_phase_condition ops release p s) m
      ∙ version-update_phase_condition release p s

  pub version-update_applied_condition :
      (release : Release) (ps : List Phase)
      → (update_applied_condition ops release ps).status.version ≡ release.status.version
  version-update_applied_condition release ps =
      update_applied_condition-kept ops _ (HasVersion-set_condition release.status.version) release
        ps refl

-- A property of outcomes holds after a call if it holds after each result that the call can have.
hand_over-holds :
    {W A : Type 0} (P : Outcome → Type 0) (r : Result A × W) (f : Result A → W → Outcome × W)
    → ((q : Result A) (w : W) → r ≡ (q, w) → P (f q w).0)
    → P (hand_over r f).0
hand_over-holds P (q, w) f h = h q w refl

module _ {W : Type 0} (calls : Calls W) where
  -- A run of the pipeline completed all phases; the outcome has its version and asks for no rerun.
  abbrev pub Completed : Outcome → Type 0
  Completed o =
      (config : Config) × (states : PhaseStates) × (w : W) × ((calls.run_pipeline config w).0
        ≡ ok states)
      × (all_complete states ≡ true)
      × (o.release.status.version ≡ config.release_version)
      × (o.result ≡ ok none)

  abbrev pub KeepsOrCompleted : String → Outcome → Type 0
  KeepsOrCompleted version o = (o.release.status.version ≡ version) ⊎ Completed o

  fail_config-keeps :
      (what : String) (release : Release) (e : Error) (o : Option String) (w : W)
      → KeepsOrCompleted release.status.version (fail_config calls what release e o w).0
  unfolding set_condition
  fail_config-keeps what release e none w = inl refl
  fail_config-keeps what release e (some text) w = inl refl

  after_pipeline-keeps :
      (release : Release) (config : Config) (q : Result PhaseStates) (v w : W)
      → calls.run_pipeline config v ≡ (q, w)
      → KeepsOrCompleted release.status.version (after_pipeline calls release config q w).0
  unfolding after_pipeline
  after_pipeline-keeps release config (err e) v w run =
      inl (version-set_phase_condition_from_error calls.ops release e)
  after_pipeline-keeps release config (ok states) v w run =
      elim (Bool-cases (all_complete states)) [
        | inl e ↦ inr (config, states, v, rw run refl, e, rw e refl, rw e refl)
        | inr e ↦ inl (rw e (version-update_phase_conditions calls.ops release states))
      ]

  after_cleanup-keeps :
      (release : Release) (config : Config) (q : Result (Unit {0})) (w : W)
      → KeepsOrCompleted release.status.version (after_cleanup calls release config q w).0
  unfolding after_cleanup
  after_cleanup-keeps release config (err e) w = inl refl
  after_cleanup-keeps release config (ok u) w =
      hand_over-holds (KeepsOrCompleted release.status.version) (calls.run_pipeline config w)
        (after_pipeline calls release config) (λ q v. after_pipeline-keeps release config q w v)

  after_config-keeps :
      (release : Release) (q : Result Config) (w : W)
      → KeepsOrCompleted release.status.version (after_config calls release q w).0
  unfolding after_config
  after_config-keeps release (err e) w =
      fail_config-keeps "parsing upgrade config" release e (as_runtime_config e) w
  after_config-keeps release (ok config) w = ground (
    arith,
    after_cleanup-keeps release config (ok tt) w,
    hand_over-holds (KeepsOrCompleted release.status.version)
        (calls.cleanup release.name release.status.version w) (after_cleanup calls release config)
        (λ q v e. after_cleanup-keeps release config q v),
  )

  after_manifest-keeps :
      (release : Release) (q : Result ResolvedManifest) (w : W)
      → KeepsOrCompleted release.status.version (after_manifest calls release q w).0
  unfolding after_manifest set_condition
  after_manifest-keeps release (err e) w = inl refl
  after_manifest-keeps release (ok manifest) w =
      hand_over-holds (KeepsOrCompleted release.status.version)
        (calls.parse_config manifest (resolve_release calls release) w)
        (after_config calls (resolve_release calls release))
        (λ q v e. after_config-keeps (resolve_release calls release) q v)

  upgrade_release-keeps :
      (release : Release) (w : W)
      → KeepsOrCompleted release.status.version (upgrade_release calls release w).0
  unfolding upgrade_release
  upgrade_release-keeps release w =
      hand_over-holds (KeepsOrCompleted release.status.version) (calls.get_manifest release w)
        (after_manifest calls release) (λ q v e. after_manifest-keeps release q v)

  transported :
      (release updated : Release) (w : W)
      → updated.status.version ≡ release.status.version
      → KeepsOrCompleted release.status.version (upgrade_release calls updated w).0
  transported release updated w e = rw (sym e) (upgrade_release-keeps updated w)

  after_lcm-keeps :
      (release : Release) (q : Result PhaseStatus) (w : W)
      → KeepsOrCompleted release.status.version (after_lcm calls release q w).0
  unfolding after_lcm
  after_lcm-keeps release (err e) w =
      inl (version-set_phase_condition_from_error calls.ops release e)
  after_lcm-keeps release (ok status) w = ground (
    arith,
    version-update_phase_condition calls.ops release lcm status,
    transported release (update_phase_condition calls.ops release lcm status) w,
  )

  after_lcm_config-keeps :
      (release : Release) (q : Result Config) (w : W)
      → KeepsOrCompleted release.status.version (after_lcm_config calls release q w).0
  unfolding after_lcm_config
  after_lcm_config-keeps release (err e) w =
      fail_config-keeps "parsing upgrade config for LCM upgrade" release e (as_runtime_config e) w
  after_lcm_config-keeps release (ok config) w =
      hand_over-holds (KeepsOrCompleted release.status.version) (calls.upgrade_lcm config w)
        (after_lcm calls release) (λ q v e. after_lcm-keeps release q v)

  reconcile_current-keeps :
      (release : Release) (w : W)
      → KeepsOrCompleted release.status.version (reconcile_current calls release w).0
  unfolding reconcile_current
  reconcile_current-keeps release w = ground (
    arith,
    upgrade_release-keeps release w,
    hand_over-holds (KeepsOrCompleted release.status.version) (calls.lcm_config release w)
        (after_lcm_config calls release) (λ q v e. after_lcm_config-keeps release q v),
  )

  with_applied-keeps :
      (release : Release) (r : Outcome × W)
      → KeepsOrCompleted release.status.version r.0
      → KeepsOrCompleted release.status.version (with_applied calls r).0
  with_applied-keeps release (o, w) h =
      rw (version-update_applied_condition calls.ops o.release calls.phases) h

  pub start_generation-keeps :
      (release : Release) → (start_generation calls release).status.version ≡ release.status.version
  start_generation-keeps release = version-initialize_pending_conditions calls.ops _ calls.phases

  -- A reconciliation either leaves the version of the status as it was, or it ran the pipeline, which
  -- completed all phases; then the status has the version of the configuration that the pipeline
  -- was given, and no other run is asked for.
  pub reconcile_normal-version :
      (release : Release) (w : W)
      → KeepsOrCompleted release.status.version (reconcile_normal calls release w).0
  unfolding reconcile_normal
  reconcile_normal-version release w = ground (
    arith,
    with_applied-keeps release (reconcile_current calls release w)
        (reconcile_current-keeps release w),
    start_generation-keeps release,
  )
