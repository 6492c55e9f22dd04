-- ===== src/Controller/Reconcile/Gates.antt =====
-- The order of the steps of `reconcileNormal` in release_controller.go.
use elemental_lifecycle_mana.Prelude.{String, false, some, [], ◌≡◌, refl, nat_eq, arith, All}
use elemental_lifecycle_mana.Api.{
  is_succeeded, Release, condition_applied, condition_manifest_resolved,
}
use elemental_lifecycle_mana.Errors.{Result, ok, err, M}
use elemental_lifecycle_mana.Phase.{lcm, condition_type, PhaseStatus, PhaseStates}
use elemental_lifecycle_mana.Config.{Config, ResolvedManifest}
use elemental_lifecycle_mana.Controller.Conditions.{ConditionLaws, find_condition}
use elemental_lifecycle_mana.Controller.Conditions.Initial.{
  IsPending, initialize_pending_conditions-IsPending,
}
use elemental_lifecycle_mana.Controller.Reconcile.{
  Outcome, Calls, hand_over, after_lcm, after_lcm_config, reconcile_current, reconcile_normal,
}

-- A reconciliation that begins in the world `w` ends in it, asks to run again in a second, and leaves
-- LCM, the manifest, the release and every phase pending, for the release's generation.
abbrev pub OnlyStarts : {W : Type 0} → Calls W → Release → W → Outcome × W → Type 0
OnlyStarts calls release w (o, v) =
    (v ≡ w)
    × (o.result ≡ ok (some 1))
    × IsPending release.generation (find_condition calls.ops (condition_type lcm) o.release)
    × IsPending release.generation (find_condition calls.ops condition_manifest_resolved o.release)
    × IsPending release.generation (find_condition calls.ops condition_applied o.release)
    × All
        (λ p. IsPending release.generation (find_condition calls.ops (condition_type p) o.release))
        calls.phases

module _ {W : Type 0} (calls : Calls W) (laws : ConditionLaws calls.ops) where
  -- A reconciliation of a release whose generation was not seen before makes no call and asks to run
  -- again in a second, whatever conditions the release had; after it LCM, the manifest, the release
  -- and every phase of the pipeline are pending, for the new generation, by
  -- the documented laws of the conditions' library.
  pub reconcile_normal-new_generation :
      (release : Release) (w : W)
      → nat_eq release.status.observed_generation release.generation ≡ false
      → OnlyStarts calls release w (reconcile_normal calls release w)
  unfolding reconcile_normal
  reconcile_normal-new_generation release w new =
      let st = release.status in
      let (lcm_pending, manifest_pending, applied_pending, phases_pending) =
        initialize_pending_conditions-IsPending calls.ops laws
          (record release {
            status = record st { observed_generation = release.generation; conditions = [] };
          })
          calls.phases refl in
      rw new (refl, refl, lcm_pending, manifest_pending, applied_pending, phases_pending)

-- The same reconciler with other steps after the self-upgrade.
abbrev pub with_steps :
    {W : Type 0}
    → Calls W
    → (Release → M W ResolvedManifest)
    → (ResolvedManifest → Release → M W Config)
    → (String → String → M W (Unit {0}))
    → (Config → M W PhaseStates)
    → Calls W
with_steps calls get parse clean run = record calls {
  get_manifest = get;
  parse_config = parse;
  cleanup = clean;
  run_pipeline = run;
}

-- The self-upgrade did not report success.
abbrev pub NotSucceeded : Result PhaseStatus → Type 0
NotSucceeded (ok status) = is_succeeded status.state ≡ false
NotSucceeded (err e) = Unit

module _ {W : Type 0} (calls : Calls W) (get : Release → M W ResolvedManifest)
    (parse : ResolvedManifest → Release → M W Config) (clean : String → String → M W (Unit {0}))
    (run : Config → M W PhaseStates) where
  after_lcm-stops :
      (release : Release) (q : Result PhaseStatus) (w : W)
      → NotSucceeded q
      → after_lcm calls release q w ≡ after_lcm (with_steps calls get parse clean run) release q w
  unfolding after_lcm
  after_lcm-stops release (err e) w h = refl
  after_lcm-stops release (ok status) w h = ground arith

  upgrade_lcm-stops :
      (release : Release) (r : Result PhaseStatus × W)
      → NotSucceeded r.0
      → hand_over r (after_lcm calls release)
        ≡ hand_over r (after_lcm (with_steps calls get parse clean run) release)
  upgrade_lcm-stops release (q, w) h = after_lcm-stops release q w h

  lcm_config-stops :
      (release : Release) (r : Result Config × W)
      → ((config : Config) (v : W)
          → r ≡ (ok config, v)
          → NotSucceeded (calls.upgrade_lcm config v).0)
      → hand_over r (after_lcm_config calls release)
        ≡ hand_over r (after_lcm_config (with_steps calls get parse clean run) release)
  unfolding after_lcm_config
  lcm_config-stops release (ok config, w) h =
      upgrade_lcm-stops release (calls.upgrade_lcm config w) (h config w refl)
  lcm_config-stops release (err e, w) h = ground arith

  -- While LCMUpgraded is not True and the self-upgrade does not report success, a reconciliation
  -- does not depend on any later step: the retrieval of the manifest, the parsing of its
  -- configuration, the removal of old plans and the pipeline may be replaced by anything.
  pub reconcile_normal-lcm_first :
      (release : Release) (w : W)
      → calls.ops.holds (condition_type lcm) release.status.conditions ≡ false
      → ((config : Config) (v : W)
          → calls.lcm_config release w ≡ (ok config, v)
          → NotSucceeded (calls.upgrade_lcm config v).0)
      → reconcile_normal calls release w
        ≡ reconcile_normal (with_steps calls get parse clean run) release w
  unfolding reconcile_normal reconcile_current
  reconcile_normal-lcm_first release w due stops =
      ground (arith, lcm_config-stops release (calls.lcm_config release w) stops)
