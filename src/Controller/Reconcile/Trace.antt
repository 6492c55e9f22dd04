-- ===== src/Controller/Reconcile/Trace.antt =====
-- The calls of a round of `reconcileNormal`, in release_controller.go, that records a version: what
-- each was given, what it answered, and the world that it left for the next one.
pub mod Round
use elemental_lifecycle_mana.Prelude.{
  String, Bool, true, false, Option, none, some, ◌≡◌, refl, sym, subst, ◌∙◌, ◌⊎◌, inl, inr, ◌==◌,
  ◌&&◌, not, nat_eq, Bool-cases,
}
use elemental_lifecycle_mana.Api.{Release, is_succeeded}
use elemental_lifecycle_mana.Errors.{Error, as_runtime_config, Result, ok, err}
use elemental_lifecycle_mana.Phase.{lcm, condition_type, PhaseStatus, PhaseStates, all_complete}
use elemental_lifecycle_mana.Config.{Config, ResolvedManifest}
use elemental_lifecycle_mana.Controller.Conditions.{set_condition, update_phase_condition}
use elemental_lifecycle_mana.Controller.Reconcile.{
  Outcome, Calls, hand_over, fail_config, resolve_release, after_pipeline, after_cleanup,
  after_config, after_manifest, upgrade_release, after_lcm, after_lcm_config, reconcile_current,
  with_applied, reconcile_normal,
}
use elemental_lifecycle_mana.Controller.Reconcile.Version.{
  version-set_phase_condition_from_error, version-update_phase_condition,
  version-update_phase_conditions, version-update_applied_condition, start_generation-keeps,
}

pub hand_over-ends :
    {W A : Type 0} (P : Outcome × W → Type 0) (r : Result A × W) (f : Result A → W → Outcome × W)
    → ((q : Result A) (w : W) → r ≡ (q, w) → P (f q w))
    → P (hand_over r f)
hand_over-ends P (q, w) f h = h q w refl

module _ {W : Type 0} (calls : Calls W) where
  -- The round ended with this version in the status.
  abbrev pub EndsWith : String → Outcome × W → Type 0
  EndsWith version r = r.0.release.status.version ≡ version

  -- The pipeline was run for the configuration from the world `v`, and it completed all phases; the
  -- round ended in the world that it left, with the version of the configuration.
  abbrev pub Piped : Config → W → Outcome × W → Type 0
  Piped config v r =
      (states : PhaseStates) × (calls.run_pipeline config v ≡ (ok states, r.1))
      × (all_complete states ≡ true)
      × EndsWith config.release_version r

  abbrev pub must_clean : Release → Config → Bool
  must_clean release config =
      let old = release.status.version in not (old == "") && not (old == config.release_version)

  -- The plans of the old version were cleaned up, if they had to be.
  abbrev pub Cleaned : Bool → Release → W → W → Type 0
  Cleaned true release w v = calls.cleanup release.name release.status.version w ≡ (ok tt, v)
  Cleaned false release w v = v ≡ w

  abbrev pub RanConfig : Release → Config → W → Outcome × W → Type 0
  RanConfig release config w r =
      (v : W) × Cleaned (must_clean release config) release w v × Piped config v r

  -- The manifest that was got for the release, the configuration that was parsed from it, the clean
  -- up and the run of the pipeline, one after the other from the world `w`.
  abbrev pub RanUpgrade : Release → W → Outcome × W → Type 0
  RanUpgrade release w r =
      (manifest : ResolvedManifest) × (v : W) × (calls.get_manifest release w ≡ (ok manifest, v))
      × (config : Config) × (u : W) × (calls.parse_config manifest (resolve_release calls release) v
          ≡ (ok config, u))
      × RanConfig (resolve_release calls release) config u r

  -- The release and the world in which the upgrade starts: those of the round if the self-upgrade
  -- was done before, otherwise those that its success in this round left.
  abbrev pub Begins : Bool → Release → W → Release → W → Type 0
  Begins true release w started v = (started ≡ release) × (v ≡ w)
  Begins false release w started v =
      (config : Config) × (u : W) × (calls.lcm_config release w ≡ (ok config, u))
      × (status : PhaseStatus) × (calls.upgrade_lcm config u ≡ (ok status, v))
      × (is_succeeded status.state ≡ true)
      × (started ≡ update_phase_condition calls.ops release lcm status)

  abbrev pub lcm_done : Release → Bool
  lcm_done release = calls.ops.holds (condition_type lcm) release.status.conditions

  abbrev pub RanRound : Release → W → Outcome × W → Type 0
  RanRound release w r =
      (started : Release) × (v : W) × Begins (lcm_done release) release w started v
      × RanUpgrade started v r

  pub fail_config-same :
      (what : String) (release : Release) (e : Error) (o : Option String) (w : W)
      → EndsWith release.status.version (fail_config calls what release e o w)
  unfolding set_condition
  fail_config-same what release e none w = refl
  fail_config-same what release e (some text) w = refl

  after_pipeline-Piped :
      (release : Release) (config : Config) (q : Result PhaseStates) (v w : W)
      → calls.run_pipeline config v ≡ (q, w)
      → let r = after_pipeline calls release config q w in
        EndsWith release.status.version r ⊎ Piped config v r
  unfolding after_pipeline
  after_pipeline-Piped release config (err e) v w run =
      inl (version-set_phase_condition_from_error calls.ops release e)
  after_pipeline-Piped release config (ok states) v w run =
      elim (Bool-cases (all_complete states)) [
        | inl e ↦ rw e (inr (states, run, e, refl))
        | inr e ↦ rw e (inl (version-update_phase_conditions calls.ops release states))
      ]

  piped :
      (release : Release) (config : Config) (w : W)
      → let r = after_cleanup calls release config (ok tt) w in
        EndsWith release.status.version r ⊎ Piped config w r
  unfolding after_cleanup
  piped release config w =
      hand_over-ends (λ r. EndsWith release.status.version r ⊎ Piped config w r)
        (calls.run_pipeline config w) (after_pipeline calls release config)
        (λ q v run. after_pipeline-Piped release config q w v run)

  cleaned :
      (release : Release) (config : Config) (w : W) (b : Bool)
      → must_clean release config ≡ b
      → (v : W) → Cleaned b release w v
      → let r = after_cleanup calls release config (ok tt) v in
        EndsWith release.status.version r ⊎ RanConfig release config w r
  cleaned release config w b e v c = elim (piped release config v) [
    | inl same ↦ inl same
    | inr done ↦ inr (v, rw e c, done)
  ]

  after_cleanup-RanConfig :
      (release : Release) (config : Config) (w v : W) (q : Result (Unit {0}))
      → must_clean release config ≡ true
      → calls.cleanup release.name release.status.version w ≡ (q, v)
      → let r = after_cleanup calls release config q v in
        EndsWith release.status.version r ⊎ RanConfig release config w r
  unfolding after_cleanup
  after_cleanup-RanConfig release config w v (err d) e run = inl refl
  after_cleanup-RanConfig release config w v (ok u) e run = cleaned release config w true e v run

  after_config-cleans :
      (release : Release) (config : Config) (w : W)
      → must_clean release config ≡ true
      → after_config calls release (ok config) w
        ≡ hand_over
            (calls.cleanup release.name release.status.version w)
            (after_cleanup calls release config)
  unfolding after_config
  after_config-cleans release config w e = rw e refl

  after_config-leaves :
      (release : Release) (config : Config) (w : W)
      → must_clean release config ≡ false
      → after_config calls release (ok config) w ≡ after_cleanup calls release config (ok tt) w
  unfolding after_config
  after_config-leaves release config w e = rw e refl

  after_config-RanConfig :
      (release : Release) (config : Config) (w : W)
      → let r = after_config calls release (ok config) w in
        EndsWith release.status.version r ⊎ RanConfig release config w r
  after_config-RanConfig release config w =
      let P : Outcome × W → Type 0 =
        λ r. EndsWith release.status.version r ⊎ RanConfig release config w r in
      elim (Bool-cases (must_clean release config)) [
        | inl e ↦ subst P (sym (after_config-cleans release config w e)) (
            hand_over-ends P (calls.cleanup release.name release.status.version w)
              (after_cleanup calls release config)
              (λ q v run. after_cleanup-RanConfig release config w v q e run))
        | inr e ↦
            subst P (sym (after_config-leaves release config w e))
              (cleaned release config w false e w refl)
      ]

  parsed :
      (release : Release) (manifest : ResolvedManifest) (w v u : W) (q : Result Config)
      → calls.get_manifest release w ≡ (ok manifest, v)
      → calls.parse_config manifest (resolve_release calls release) v ≡ (q, u)
      → let r = after_config calls (resolve_release calls release) q u in
        EndsWith release.status.version r ⊎ RanUpgrade release w r
  unfolding after_config set_condition
  parsed release manifest w v u (err e) got run = inl (
      fail_config-same "parsing upgrade config" (resolve_release calls release) e
        (as_runtime_config e) u)
  parsed release manifest w v u (ok config) got run =
      elim (after_config-RanConfig (resolve_release calls release) config u) [
        | inl same ↦ inl same
        | inr done ↦ inr (manifest, v, got, config, u, run, done)
      ]

  got :
      (release : Release) (w v : W) (q : Result ResolvedManifest)
      → calls.get_manifest release w ≡ (q, v)
      → let r = after_manifest calls release q v in
        EndsWith release.status.version r ⊎ RanUpgrade release w r
  unfolding after_manifest set_condition
  got release w v (err e) run = inl refl
  got release w v (ok manifest) run =
      hand_over-ends (λ r. EndsWith release.status.version r ⊎ RanUpgrade release w r)
        (calls.parse_config manifest (resolve_release calls release) v)
        (after_config calls (resolve_release calls release))
        (λ q u. parsed release manifest w v u q run)

  pub upgrade_release-RanUpgrade :
      (release : Release) (w : W)
      → let r = upgrade_release calls release w in
        EndsWith release.status.version r ⊎ RanUpgrade release w r
  unfolding upgrade_release
  upgrade_release-RanUpgrade release w =
      hand_over-ends (λ r. EndsWith release.status.version r ⊎ RanUpgrade release w r)
        (calls.get_manifest release w) (after_manifest calls release)
        (λ q v run. got release w v q run)
