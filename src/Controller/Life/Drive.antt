-- ===== src/Controller/Life/Drive.antt =====
-- The rounds that controller-runtime makes for one Release, as `Reconcile` of
-- internal/controller/release_controller.go asks for them.
use elemental_lifecycle_mana.Prelude.{
  ℕ, zero, suc, ◌+◌, ◌<◌, String, true, false, Option, none, some, ◌≡◌, refl, sym, ◌∙◌, ◌⊎◌, Bool,
  inl, inr, nat_eq, arith, Bool-cases,
}
use elemental_lifecycle_mana.Api.{Release}
use elemental_lifecycle_mana.Errors.{Result, ok, err}
use elemental_lifecycle_mana.Controller.Conditions.{ConditionLaws, set_condition}
use elemental_lifecycle_mana.Controller.Conditions.Closed.{update_applied_condition-kept}
use elemental_lifecycle_mana.Controller.Reconcile.{
  Requeue, Outcome, Calls, with_applied, start_generation, reconcile_current, reconcile_normal,
}
use elemental_lifecycle_mana.Controller.Reconcile.Frame.{
  KeepsSpec, start_generation-KeepsSpec, reconcile_normal-KeepsSpec,
}
use elemental_lifecycle_mana.Controller.Reconcile.Progress.{Asks, Works, RoundEnds}
use elemental_lifecycle_mana.Controller.Reconcile.Progress.Ends.{
  Skips, reconcile_current-ends, with_applied-lcm,
}
use elemental_lifecycle_mana.Controller.Reconcile.Trace.{EndsWith, lcm_done}
use elemental_lifecycle_mana.Pipeline.Progress.{step_unless}
use elemental_lifecycle_mana.Config.{Config, ResolvedManifest}

module _ {W : Type 0} where
  -- It ends the rounds at a result that asks for no other, and makes one more after an error.
  abbrev pub next_round :
      (Release → W → Option (Release × W)) → Release → W → Result Requeue → Option (Release × W)
  next_round again release w (ok none) = some (release, w)
  next_round again release w (ok (some seconds)) = again release w
  next_round again release w (err e) = again release w

  abbrev pub go_on : (Release → W → Option (Release × W)) → Outcome × W → Option (Release × W)
  go_on again (o, w) = next_round again o.release w o.result

-- At most so many rounds, with every status saved; `none` if a further one is asked for.
pub drive : {W : Type 0} → Calls W → ℕ → Release → W → Option (Release × W)
drive calls zero release w = none
drive calls (suc n) release w = go_on (drive calls n) (reconcile_normal calls release w)

-- The rounds ended, with the version `v` reached and the generation `gen` observed.
abbrev pub EndsAt : {W : Type 0} → String → ℕ → Option (Release × W) → Type 0
EndsAt v gen none = ⊥
EndsAt v gen (some (release, w)) =
    (release.status.version ≡ v) × (release.status.observed_generation ≡ gen)

EndsAt-eq :
    {W : Type 0} {v v' : String} {gen gen' : ℕ}
    → v ≡ v'
    → gen ≡ gen'
    → (o : Option (Release × W)) → EndsAt v gen o
    → EndsAt v' gen' o
EndsAt-eq e f none h = h
EndsAt-eq e f (some (release, w)) (version, observed) = (version ∙ e, observed ∙ f)

module _ {W : Type 0} (left : W → ℕ) (asked : Release) (LcmFits Fits : Config → Type 0)
    (Lists : ResolvedManifest → Type 0) (calls : Calls W)
    (works : Works left asked LcmFits Fits Lists calls) (laws : ConditionLaws calls.ops) where
  -- Twice what is left, and one more while the self-upgrade is open.
  abbrev to_do : Release → W → ℕ
  to_do release w = left w + left w + step_unless (lcm_done calls release)

  abbrev v : String
  v = asked.spec.version

  -- A round reached the version and asks for no other, or it asks for another with less to do.
  abbrev Advances : ℕ → Outcome × W → Type 0
  Advances n r =
      (EndsWith calls v r × (r.0.result ≡ ok none))
      ⊎ ((seconds : ℕ) × (r.0.result ≡ ok (some seconds)) × (to_do r.0.release r.1 < n))

  ends-Advances :
      (release : Release) (w : W) (r : Outcome × W)
      → RoundEnds left v (left w) r
        ⊎ Skips left asked LcmFits Fits Lists calls works laws (left w) release r
      → Advances (to_do release w) (with_applied calls r)
  unfolding set_condition
  ends-Advances release w (o, u) (inl (inl (reached, stop))) = inl (
    update_applied_condition-kept calls.ops (λ (release : Release). release.status.version ≡ v)
        (λ release kind status reason message h. h) o.release calls.phases reached,
    stop,
  )
  ends-Advances release w (o, u) (inl (inr (seconds, more, less))) =
      inr (seconds, more, less_to_do (lcm_done calls release) _)
    where
      less_to_do :
          (before after : Bool)
          → left u + left u + step_unless after < left w + left w + step_unless before
      less_to_do before after = ground arith
  ends-Advances release w (o, u) (inr (seconds, more, less, undone, done)) =
      let kept = with_applied-lcm left asked LcmFits Fits Lists calls works laws (o, u) in
      inr (seconds, more, rw undone (rw (kept ∙ done) (omega arith)))

  go_on-ends :
      (release : Release) (n : ℕ) (again : Release → W → Option (Release × W)) (r : Outcome × W)
      → KeepsSpec release release.generation r.0.release
      → Advances n r
      → (to_do r.0.release r.1 < n → EndsAt v r.0.release.generation (again r.0.release r.1))
      → EndsAt v release.generation (go_on again r)
  go_on-ends release n again (o, w) (_, _, g, s, observed) (inl (reached, stop)) later =
      rw stop (reached, observed)
  go_on-ends release n again (o, w) (_, _, g, s, observed) (inr (seconds, more, less)) later =
      rw (more, ← g) (later less)

  Asks-kept :
      (release after : Release) (gen : ℕ)
      → Asks left asked release
      → KeepsSpec release gen after
      → Asks left asked after
  Asks-kept release after gen (name, namespace, spec) (same, space, _, s, _) = ground arith

  drive-seen :
      (n : ℕ) (release : Release) (w : W)
      → Asks left asked release
      → release.status.observed_generation ≡ release.generation
      → to_do release w < n
      → EndsAt v release.generation (drive calls n release w)
  unfolding drive
  drive-seen zero release w asks seen enough = absurd (omega arith)
  drive-seen (suc n) release w asks seen enough =
      let r = reconcile_normal calls release w in
      let keeps = reconcile_normal-KeepsSpec calls release w in
      let (a, b, g, s, observed) = keeps in
      go_on-ends release (to_do release w) (drive calls n) r keeps (advances (ground arith))
        (λ less.
          drive-seen n r.0.release r.1 (Asks-kept release r.0.release release.generation asks keeps)
            (observed ∙ sym g) (omega arith))
    where
      advances :
          nat_eq release.status.observed_generation release.generation ≡ true
          → Advances (to_do release w) (reconcile_normal calls release w)
      advances e =
          unfold reconcile_normal in
          rw e (
            ends-Advances release w (reconcile_current calls release w) (
              reconcile_current-ends left asked LcmFits Fits Lists calls works laws release w asks))

  -- The first round of a new generation only starts it.
  drive-new :
      (n : ℕ) (release : Release) (w : W)
      → Asks left asked release
      → nat_eq release.status.observed_generation release.generation ≡ false
      → left w + left w + 1 < n
      → EndsAt v release.generation (drive calls (suc n) release w)
  unfolding drive reconcile_normal
  drive-new n release w asks new enough =
      let started = start_generation calls release in
      let keeps = start_generation-KeepsSpec calls release in
      let (_, _, g', s', seen) = keeps in
      let few : (b : Bool) → left w + left w + step_unless b < n = λ b. ground arith in
      rw new (
        EndsAt-eq refl g' (drive calls n started w) (
          drive-seen n started w (Asks-kept release started release.generation asks keeps)
            (seen ∙ sym g') (few (lcm_done calls started))))

  -- By the documented laws of the conditions' library: suppose that `left w` measures what is left
  -- to do in the world `w`, and that for this release the calls of a round answer without an error,
  -- with configurations and a manifest that fit, the version of the configuration being the one
  -- that the release asks for; that no call makes more to do; and that for fitting configurations
  -- the self-upgrade that is neither succeeded nor skipped, or the pipeline that has not completed
  -- all phases, has done a part of it. Then `2 * left w + 3` rounds are enough, whatever state the
  -- release is in: no further one is asked for, the release has reached the version that it asks
  -- for, and its generation is observed.
  pub drive-EndsAt :
      (n : ℕ) (release : Release) (w : W)
      → Asks left asked release
      → left w + left w + 2 < n
      → EndsAt asked.spec.version release.generation (drive calls n release w)
  drive-EndsAt zero release w asks enough = absurd (omega arith)
  drive-EndsAt (suc n) release w asks enough =
      let few : (b : Bool) → left w + left w + step_unless b < suc n = λ b. ground arith in
      elim (Bool-cases (nat_eq release.status.observed_generation release.generation)) [
        | inl e ↦ drive-seen (suc n) release w asks (ground arith) (few (lcm_done calls release))
        | inr e ↦ drive-new n release w asks e (omega arith)
      ]
