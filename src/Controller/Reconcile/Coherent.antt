-- ===== src/Controller/Reconcile/Coherent.antt =====
-- The status that `reconcileNormal` of internal/controller/release_controller.go leaves.
use elemental_lifecycle_mana.Prelude.{
  ℕ, ◌≤◌, String, true, false, Option, none, some, List, [], ◌≡◌, refl, sym, ◌∙◌, ◌==◌, ◌||◌, ◌&&◌,
  not, nat_eq, ◌⊎◌, inl, inr, arith, Bool-cases,
}
use elemental_lifecycle_mana.Api.{
  is_false, failed, Condition, Release, ReleaseStatus, condition_applied,
  condition_manifest_resolved,
}
use elemental_lifecycle_mana.Phase.{Phase, lcm, os, kubernetes, helm_charts, condition_type}
use elemental_lifecycle_mana.Controller.Conditions.{
  ConditionOps, ConditionLaws, option_is_true, has_failed, set_condition, apply_manifest,
  update_applied_condition,
}
use elemental_lifecycle_mana.Controller.Conditions.Effects.{find-set_condition}
use elemental_lifecycle_mana.Controller.Conditions.Applied.{
  applied_in, manifest_in, option_is_true-set_applied, update_applied_condition-frame,
}
use elemental_lifecycle_mana.Controller.Conditions.PhaseWalk.{reason_failed}
use elemental_lifecycle_mana.Controller.Conditions.Closed.{
  KeptBySets, initialize_pending_conditions-kept, update_applied_condition-kept,
}
use elemental_lifecycle_mana.Controller.Conditions.Initial.{
  IsPending, initialize_pending_conditions-IsPending,
}
use elemental_lifecycle_mana.Controller.Reconcile.{
  Outcome, Calls, with_applied, start_generation, reconcile_current, reconcile_normal,
}
use elemental_lifecycle_mana.Controller.Reconcile.Closed.{Closed, reconcile_current-closed}
use elemental_lifecycle_mana.Controller.Reconcile.Frame.{reconcile_normal-KeepsSpec}
use elemental_lifecycle_mana.Controller.Reconcile.Applied.{
  condition_type-not_applied, applied-not_phase,
}

condition_type-not_manifest :
    (p : Phase) → (condition_type p == condition_manifest_resolved) ≡ false
unfolding condition_type
condition_type-not_manifest lcm = refl
condition_type-not_manifest os = refl
condition_type-not_manifest kubernetes = refl
condition_type-not_manifest helm_charts = refl

pending-not_true : (gen : ℕ) (o : Option Condition) → IsPending gen o → option_is_true o ≡ false
pending-not_true gen none h = absurd h
pending-not_true gen (some c) h = ground arith

abbrev pub OfGeneration : ℕ → Option Condition → Type 0
OfGeneration gen none = Unit
OfGeneration gen (some c) = c.observed_generation ≡ gen

OfGeneration-eq : (m n : ℕ) (o : Option Condition) → m ≡ n → OfGeneration m o → OfGeneration n o
OfGeneration-eq m n none e h = h
OfGeneration-eq m n (some c) e h = h ∙ e

module _ (ops : ConditionOps) where
  -- Every condition was set for the generation `gen`.
  abbrev pub AllOfGeneration : ℕ → List Condition → Type 0
  AllOfGeneration gen cs = (k : String) → OfGeneration gen (ops.find k cs)

  -- The release is not said to be applied, or its manifest is resolved and LCM has not failed.
  abbrev pub AppliedIsFounded : List Condition → Type 0
  AppliedIsFounded cs =
      (not (option_is_true (ops.find condition_applied cs))
        || option_is_true (ops.find condition_manifest_resolved cs)
          && not (has_failed (ops.find (condition_type lcm) cs)))
      ≡ true

  -- A status of a release of the generation `gen`: it observed that generation or an earlier one,
  -- all its conditions are of the observed generation, and Applied is founded on the others.
  pub record IsCoherent (gen : ℕ) (st : ReleaseStatus) : Type 0 where
    pub not_ahead : st.observed_generation ≤ gen
    pub of_generation : AllOfGeneration st.observed_generation st.conditions
    pub founded : AppliedIsFounded st.conditions

module _ (ops : ConditionOps) (laws : ConditionLaws ops) where
  abbrev Dated : ℕ → Release → Type 0
  Dated gen release = (release.generation ≡ gen) × AllOfGeneration ops gen release.status.conditions

  Dated-set_condition : (gen : ℕ) → KeptBySets ops (Dated gen)
  unfolding set_condition
  Dated-set_condition gen release kind status reason message (g, h) = (
    g,
    λ k. ground (arith, h k, find-set_condition ops laws release kind status reason message k),
  )

  Dated-Closed : (gen : ℕ) → Closed ops (Dated gen)
  Dated-Closed gen = record {
    on_applied = λ release text h. Dated-set_condition gen release _ _ _ _ h;
    on_manifest = λ release status reason text told h. Dated-set_condition gen release _ _ _ _ h;
    on_phase = λ release p status reason text h. Dated-set_condition gen release _ _ _ _ h;
    on_version = λ release v target h. h;
  }

  abbrev Settled : Release → Type 0
  Settled release =
      (not (option_is_true (applied_in ops release))
        || option_is_true (manifest_in ops release)
        || reason_failed (manifest_in ops release))
      ≡ true

  Settled-Closed : Closed ops Settled
  Settled-Closed = record {
    on_applied = λ release text h. ground (
      arith,
      find-set_condition ops laws release condition_applied is_false failed text condition_applied,
    );
    on_manifest = λ release status reason text told h. ground (
      arith,
      find-set_condition ops laws release condition_manifest_resolved status reason text
          condition_applied,
      find-set_condition ops laws release condition_manifest_resolved status reason text
          condition_manifest_resolved,
    );
    on_phase = λ release p status reason text h. ground (
      arith,
      condition_type-not_applied p,
      condition_type-not_manifest p,
      find-set_condition ops laws release (condition_type p) status reason text condition_applied,
      find-set_condition ops laws release (condition_type p) status reason text
          condition_manifest_resolved,
    );
    on_version = λ release v target h. h;
  }

  apply_manifest-founded :
      (release : Release) (ps : List Phase) (m : Option Condition)
      → (not (option_is_true (applied_in ops release)) || option_is_true m || reason_failed m)
        ≡ true
      → (not (option_is_true (applied_in ops (apply_manifest ops release ps m)))
          || option_is_true m)
        ≡ true
  unfolding apply_manifest
  apply_manifest-founded release ps none settled = ground arith
  apply_manifest-founded release ps (some c) settled =
      ground (arith, option_is_true-set_applied ops laws release is_false failed c.message)

  update_applied_condition-founded :
      (release : Release) (ps : List Phase)
      → Settled release
      → AppliedIsFounded ops (update_applied_condition ops release ps).status.conditions
  unfolding update_applied_condition
  update_applied_condition-founded release ps settled = ground (
    arith,
    option_is_true-set_applied ops laws release is_false failed
        "Upgrade failed as LCM upgrade failed",
    apply_manifest-founded release ps (manifest_in ops release) settled,
    update_applied_condition-frame ops laws release (condition_type lcm) (applied-not_phase lcm) ps,
    update_applied_condition-frame ops laws release condition_manifest_resolved refl ps,
  )

module _ {W : Type 0} (calls : Calls W) (laws : ConditionLaws calls.ops) where
  with_applied-coherent :
      (gen : ℕ) (r : Outcome × W)
      → Dated calls.ops laws gen r.0.release
      → Settled calls.ops laws r.0.release
      → Dated calls.ops laws gen (with_applied calls r).0.release
        × AppliedIsFounded calls.ops (with_applied calls r).0.release.status.conditions
  with_applied-coherent gen (o, w) dated settled = (
    update_applied_condition-kept calls.ops (Dated calls.ops laws gen)
        (Dated-set_condition calls.ops laws gen) o.release calls.phases dated,
    update_applied_condition-founded calls.ops laws o.release calls.phases settled,
  )

  current-coherent :
      (release : Release) (w : W)
      → release.status.observed_generation ≡ release.generation
      → IsCoherent calls.ops release.generation release.status
      → let o = (with_applied calls (reconcile_current calls release w)).0 in
        Dated calls.ops laws release.generation o.release
        × AppliedIsFounded calls.ops o.release.status.conditions
  current-coherent release w seen coherent =
      let gen = release.generation in
      let founded = coherent.founded in
      with_applied-coherent gen (reconcile_current calls release w)
        (reconcile_current-closed calls (Dated calls.ops laws gen) (Dated-Closed calls.ops laws gen)
          release w (refl, λ k. OfGeneration-eq _ _ _ seen (coherent.of_generation k)))
        (reconcile_current-closed calls (Settled calls.ops laws) (Settled-Closed calls.ops laws)
          release w (ground arith))

  new-coherent :
      (release : Release)
      → Dated calls.ops laws release.generation (start_generation calls release)
        × AppliedIsFounded calls.ops (start_generation calls release).status.conditions
  new-coherent release =
      let st = release.status in
      let blank : Release = record release {
        status = record st { observed_generation = release.generation; conditions = [] };
      } in
      let gen = release.generation in
      let (_, _, applied_pending, _) =
        initialize_pending_conditions-IsPending calls.ops laws blank calls.phases refl in
      (
        initialize_pending_conditions-kept calls.ops (Dated calls.ops laws gen)
            (Dated-set_condition calls.ops laws gen) blank calls.phases
            (refl, λ k. rw (laws.find_nil k) tt),
        ground (arith, pending-not_true gen _ applied_pending),
      )

  -- A status that is coherent with its release stays so when the release is reconciled.
  pub reconcile_normal-IsCoherent :
      (release : Release) (w : W)
      → IsCoherent calls.ops release.generation release.status
      → IsCoherent calls.ops release.generation (reconcile_normal calls release w).0.release.status
  reconcile_normal-IsCoherent release w coherent =
      let (_, _, _, _, observed) = reconcile_normal-KeepsSpec calls release w in
      let (dated, founded) =
        split (Bool-cases (nat_eq release.status.observed_generation release.generation)) in
      record {
        not_ahead = omega (arith, observed);
        of_generation = λ k. OfGeneration-eq _ _ _ (sym observed) (dated.1 k);
        founded = founded;
      }
    where
      split :
          (nat_eq release.status.observed_generation release.generation ≡ true)
            ⊎ (nat_eq release.status.observed_generation release.generation ≡ false)
          → Dated calls.ops laws release.generation (reconcile_normal calls release w).0.release
            × AppliedIsFounded calls.ops
                (reconcile_normal calls release w).0.release.status.conditions
      split (inl seen) =
          unfold reconcile_normal in rw seen (current-coherent release w (ground arith) coherent)
      split (inr new) = unfold reconcile_normal in rw new (new-coherent release)
