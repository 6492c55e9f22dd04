-- ===== src/Controller/Reconcile/Progress.antt =====
-- The rounds of `Reconcile` in internal/controller/release_controller.go, one after the other, in a
-- cluster that does its work.
pub mod Ends
use elemental_lifecycle_mana.Prelude.{
  ◌+◌, ℕ, ◌≤◌, ◌<◌, String, none, some, ◌≡◌, refl, ◌∙◌, ◌⊎◌, inl, inr, arith, Bool-cases, ap, true,
  false, sym, subst, eq_refl,
}
use elemental_lifecycle_mana.Api.{
  Release, is_succeeded, is_done, condition_manifest_resolved, is_true, succeeded,
}
use elemental_lifecycle_mana.Errors.{Result, ok, err}
use elemental_lifecycle_mana.Phase.{lcm, condition_type, PhaseStatus, PhaseStates, all_complete}
use elemental_lifecycle_mana.Config.{Config, ResolvedManifest}
use elemental_lifecycle_mana.Pipeline.Progress.{step_unless, PipelineMoves, PipelineMoves-mono}
use elemental_lifecycle_mana.Controller.Conditions.{
  ConditionLaws, option_is_true, update_applied_condition, set_condition, update_phase_condition,
}
use elemental_lifecycle_mana.Controller.Conditions.Effects.{find-update_phase_condition}
use elemental_lifecycle_mana.Controller.Conditions.Applied.{update_applied_condition-frame}
use elemental_lifecycle_mana.Controller.Conditions.Closed.{KeptBySets, update_phase_condition-kept}
use elemental_lifecycle_mana.Controller.Reconcile.{
  with_applied, Outcome, Calls, hand_over, resolve_release, after_pipeline, after_cleanup,
  after_config, after_manifest, upgrade_release, after_lcm, after_lcm_config, reconcile_current,
}

module _ {W : Type 0} (left : W → ℕ) where
  -- The call answers with a value of which `T` holds, and what is left does not grow.
  abbrev pub AnswersWith : {A : Type 0} → (A → Type 0) → ℕ → Result A × W → Type 0
  AnswersWith T n (ok a, w) = T a × (left w ≤ n)
  AnswersWith T n (err e, w) = ⊥

  abbrev pub Answers : {A : Type 0} → ℕ → Result A × W → Type 0
  Answers n r = AnswersWith (λ a. Unit {0}) n r

  -- The self-upgrade answers, and what is left falls unless it has succeeded or is skipped.
  abbrev pub LcmMoves : ℕ → Result PhaseStatus × W → Type 0
  LcmMoves n (ok s, w) = left w + step_unless (is_done s.state) ≤ n
  LcmMoves n (err e, w) = ⊥

  pub AnswersWith-mono :
      {A : Type 0} (T : A → Type 0) (m n : ℕ) (r : Result A × W)
      → m ≤ n
      → AnswersWith T m r
      → AnswersWith T n r
  AnswersWith-mono T m n (ok a, w) le (t, h) = (t, omega arith)
  AnswersWith-mono T m n (err e, w) le h = h

  pub LcmMoves-mono : (m n : ℕ) (r : Result PhaseStatus × W) → m ≤ n → LcmMoves m r → LcmMoves n r
  LcmMoves-mono m n (ok s, w) le h = ground arith
  LcmMoves-mono m n (err e, w) le h = h

  abbrev pub Asks : Release → Release → Type 0
  Asks asked release =
      (release.name ≡ asked.name)
      × (release.namespace ≡ asked.namespace)
      × (release.spec ≡ asked.spec)

  -- A cluster that does its work for what the release `asked` asks for: the calls of a round answer
  -- without errors, with configurations and a manifest of which `LcmFits`, `Fits` and `Lists` hold;
  -- no call makes more of what is left; and the self-upgrade that is not done, or the pipeline that
  -- is not complete, has done a part of it, for such configurations.
  pub record Works (asked : Release) (LcmFits Fits : Config → Type 0)
      (Lists : ResolvedManifest → Type 0) (calls : Calls W) : Type 0 where
    pub lcm_config :
        (release : Release) (w : W)
        → Asks asked release
        → AnswersWith LcmFits (left w) (calls.lcm_config release w)
    pub upgrade_lcm :
        (config : Config) (w : W) → LcmFits config → LcmMoves (left w) (calls.upgrade_lcm config w)
    pub get_manifest :
        (release : Release) (w : W)
        → Asks asked release
        → AnswersWith Lists (left w) (calls.get_manifest release w)
    pub parse_config :
        (m : ResolvedManifest) (release : Release) (w : W)
        → Lists m
        → Asks asked release
        → AnswersWith
            (λ config. (config.release_version ≡ asked.spec.version) × Fits config)
            (left w)
            (calls.parse_config m release w)
    pub cleanup :
        (release : Release) (w : W)
        → Asks asked release
        → Answers (left w) (calls.cleanup release.name release.status.version w)
    pub run_pipeline :
        (config : Config) (w : W)
        → Fits config
        → PipelineMoves left (left w) (calls.run_pipeline config w)

  -- A round reached the version and asks for no other, or it asks for another and less is left.
  abbrev pub RoundEnds : String → ℕ → Outcome × W → Type 0
  RoundEnds v n (o, w) =
      ((o.release.status.version ≡ v) × (o.result ≡ ok none))
      ⊎ ((seconds : ℕ) × (o.result ≡ ok (some seconds)) × (left w < n))

  pub hand_over-ends :
      {A : Type 0} (T : A → Type 0) (v : String) (n : ℕ) (r : Result A × W)
      (f : Result A → W → Outcome × W)
      → AnswersWith T n r
      → ((a : A) (w : W) → T a → left w ≤ n → RoundEnds v n (f (ok a) w))
      → RoundEnds v n (hand_over r f)
  hand_over-ends T v n (ok a, w) f (t, le) next = next a w t le
  hand_over-ends T v n (err e, w) f answers next = absurd answers
