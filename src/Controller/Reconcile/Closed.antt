-- ===== src/Controller/Reconcile/Closed.antt =====
-- What holds of the release through the steps of `reconcileNormal` in release_controller.go.
use elemental_lifecycle_mana.Prelude.{
  String, true, Option, none, some, [], ◌∷◌, ◌≡◌, refl, ◌||◌, arith,
}
use elemental_lifecycle_mana.Api.{
  Status, State, is_true, is_false, status_is_true, succeeded, failed, is_failed, Release,
  condition_applied, condition_manifest_resolved,
}
use elemental_lifecycle_mana.Errors.{Error, as_phase_error, as_runtime_config, Result, ok, err}
use elemental_lifecycle_mana.Phase.{Phase, lcm, condition_type, PhaseStatus, PhaseStates}
use elemental_lifecycle_mana.Config.{Config, ResolvedManifest}
use elemental_lifecycle_mana.Controller.Conditions.{
  ConditionOps, set_condition, fail_phase, set_phase_condition_from_error, update_phase_condition,
  update_phase_conditions,
}
use elemental_lifecycle_mana.Controller.Reconcile.{
  Outcome, Calls, hand_over, resolve_release, fail_config, after_pipeline, after_cleanup,
  after_config, after_manifest, upgrade_release, after_lcm, after_lcm_config, reconcile_current,
}

-- A property of releases that no step can break. The condition of the manifest is only set True, or
-- with the reason Failed; the version only becomes one that `Target` allows.
pub record ClosedFor (ops : ConditionOps) (Target : String → Type 0) (P : Release → Type 0)
    : Type 0 where
  pub on_applied :
      (release : Release) (text : String)
      → P release
      → P (set_condition ops release condition_applied is_false failed text)
  pub on_manifest :
      (release : Release) (status : Status) (reason : State) (text : String)
      → (status_is_true status || is_failed reason) ≡ true
      → P release
      → P (set_condition ops release condition_manifest_resolved status reason text)
  pub on_phase :
      (release : Release) (p : Phase) (status : Status) (reason : State) (text : String)
      → P release
      → P (set_condition ops release (condition_type p) status reason text)
  pub on_version :
      (release : Release) (v : String)
      → Target v
      → P release
      → P (let st = release.status in record release { status = record st { version = v } })

-- The versions of configurations that are parsed for such a release are allowed.
abbrev pub HasTarget : (String → Type 0) → Result Config → Type 0
HasTarget Target (ok config) = Target config.release_version
HasTarget Target (err e) = Unit

module _ {W : Type 0} (calls : Calls W) (Target : String → Type 0) (P : Release → Type 0)
    (closed : ClosedFor calls.ops Target P)
    (targets : (m : ResolvedManifest) (r : Release) (w : W)
      → P r
      → HasTarget Target (calls.parse_config m r w).0) where
  fail_phase-closed :
      (release : Release) (o : Option (Phase × Error))
      → P release
      → P (fail_phase calls.ops release o)
  fail_phase-closed release none h = h
  fail_phase-closed release (some (p, e)) h = closed.on_phase release p is_false failed _ h

  error-closed :
      (release : Release) (e : Error)
      → P release
      → P (set_phase_condition_from_error calls.ops release e)
  unfolding set_phase_condition_from_error
  error-closed release e h = fail_phase-closed release (as_phase_error e) h

  phase-closed :
      (release : Release) (p : Phase) (s : PhaseStatus)
      → P release
      → P (update_phase_condition calls.ops release p s)
  unfolding update_phase_condition
  phase-closed release p s h = ground (
    arith,
    closed.on_phase release p is_true s.state s.message,
    closed.on_phase release p is_false s.state s.message,
  )

  phases-closed :
      (release : Release) (m : PhaseStates)
      → P release
      → P (update_phase_conditions calls.ops release m)
  unfolding update_phase_conditions
  phases-closed release [] h = h
  phases-closed release ((p, s) ∷ m) h =
      phases-closed (update_phase_condition calls.ops release p s) m (phase-closed release p s h)

  abbrev Ends : Outcome × W → Type 0
  Ends r = P r.0.release

  hand_over-closed :
      {A : Type 0} (r : Result A × W) (f : Result A → W → Outcome × W)
      → ((q : Result A) (w : W) → Ends (f q w))
      → Ends (hand_over r f)
  hand_over-closed (q, w) f h = h q w

  hand_over-told :
      (r : Result Config × W) (f : Result Config → W → Outcome × W)
      → HasTarget Target r.0
      → ((q : Result Config) (w : W) → HasTarget Target q → Ends (f q w))
      → Ends (hand_over r f)
  hand_over-told (q, w) f target h = h q w target

  fail_config-closed :
      (what : String) (release : Release) (e : Error) (o : Option String) (w : W)
      → P release
      → Ends (fail_config calls what release e o w)
  fail_config-closed what release e none w h = h
  fail_config-closed what release e (some text) w h = closed.on_applied release text h

  after_pipeline-closed :
      (release : Release) (config : Config) (q : Result PhaseStates) (w : W)
      → Target config.release_version
      → P release
      → Ends (after_pipeline calls release config q w)
  unfolding after_pipeline
  after_pipeline-closed release config (err e) w target h = error-closed release e h
  after_pipeline-closed release config (ok states) w target h = ground (
    arith,
    phases-closed release states h,
    closed.on_version (update_phase_conditions calls.ops release states) config.release_version
        target,
  )

  after_cleanup-closed :
      (release : Release) (config : Config) (q : Result (Unit {0})) (w : W)
      → Target config.release_version
      → P release
      → Ends (after_cleanup calls release config q w)
  unfolding after_cleanup
  after_cleanup-closed release config (err e) w target h = h
  after_cleanup-closed release config (ok u) w target h =
      hand_over-closed (calls.run_pipeline config w) (after_pipeline calls release config)
        (λ q v. after_pipeline-closed release config q v target h)

  after_config-closed :
      (release : Release) (q : Result Config) (w : W)
      → HasTarget Target q
      → P release
      → Ends (after_config calls release q w)
  unfolding after_config
  after_config-closed release (err e) w target h =
      fail_config-closed "parsing upgrade config" release e (as_runtime_config e) w h
  after_config-closed release (ok config) w target h = ground (
    arith,
    after_cleanup-closed release config (ok tt) w target h,
    hand_over-closed (calls.cleanup release.name release.status.version w)
        (after_cleanup calls release config)
        (λ q v. after_cleanup-closed release config q v target h),
  )

  after_manifest-closed :
      (release : Release) (q : Result ResolvedManifest) (w : W)
      → P release
      → Ends (after_manifest calls release q w)
  unfolding after_manifest
  after_manifest-closed release (err e) w h = closed.on_manifest release is_false failed _ refl h
  after_manifest-closed release (ok manifest) w h =
      let resolved = resolve_release calls release in
      let h' = closed.on_manifest release is_true succeeded _ refl h in
      hand_over-told (calls.parse_config manifest resolved w) (after_config calls resolved)
        (targets manifest resolved w h') (λ q v target. after_config-closed resolved q v target h')

  upgrade_release-closed :
      (release : Release) (w : W) → P release → Ends (upgrade_release calls release w)
  unfolding upgrade_release
  upgrade_release-closed release w h =
      hand_over-closed (calls.get_manifest release w) (after_manifest calls release)
        (λ q v. after_manifest-closed release q v h)

  after_lcm-closed :
      (release : Release) (q : Result PhaseStatus) (w : W)
      → P release
      → Ends (after_lcm calls release q w)
  unfolding after_lcm
  after_lcm-closed release (err e) w h = error-closed release e h
  after_lcm-closed release (ok status) w h = ground (
    arith,
    phase-closed release lcm status h,
    upgrade_release-closed (update_phase_condition calls.ops release lcm status) w,
  )

  after_lcm_config-closed :
      (release : Release) (q : Result Config) (w : W)
      → P release
      → Ends (after_lcm_config calls release q w)
  unfolding after_lcm_config
  after_lcm_config-closed release (err e) w h =
      fail_config-closed "parsing upgrade config for LCM upgrade" release e (as_runtime_config e) w
        h
  after_lcm_config-closed release (ok config) w h =
      hand_over-closed (calls.upgrade_lcm config w) (after_lcm calls release)
        (λ q v. after_lcm-closed release q v h)

  pub reconcile_current-closed_for :
      (release : Release) (w : W) → P release → Ends (reconcile_current calls release w)
  unfolding reconcile_current
  reconcile_current-closed_for release w h = ground (
    arith,
    upgrade_release-closed release w h,
    hand_over-closed (calls.lcm_config release w) (after_lcm_config calls release)
        (λ q v. after_lcm_config-closed release q v h),
  )

-- The same where it does not matter which version is recorded.
abbrev pub AnyVersion : String → Type 0
AnyVersion v = Unit

abbrev pub Closed : ConditionOps → (Release → Type 0) → Type 0
Closed ops P = ClosedFor ops AnyVersion P

any_target : (q : Result Config) → HasTarget AnyVersion q
any_target (ok config) = tt
any_target (err e) = tt

pub reconcile_current-closed :
    {W : Type 0} (calls : Calls W) (P : Release → Type 0)
    → Closed calls.ops P
    → (release : Release) (w : W) → P release
    → P (reconcile_current calls release w).0.release
reconcile_current-closed calls P closed =
    reconcile_current-closed_for calls AnyVersion P closed (λ m r w h. any_target _)
