-- ===== src/Controller/Conditions/Initial.antt =====
-- The conditions with which a new generation of a Release starts.
use elemental_lifecycle_mana.Prelude.{
  ℕ, String, true, Option, none, some, List, [], ◌∷◌, ◌≡◌, refl, arith, is_some, eq_refl, All,
}
use elemental_lifecycle_mana.Api.{
  is_false, pending, Condition, Release, condition_applied, condition_manifest_resolved,
}
use elemental_lifecycle_mana.Phase.{Phase, lcm, condition_type}
use elemental_lifecycle_mana.Controller.Conditions.{
  ConditionOps, ConditionLaws, find_condition, ensure_pending, ensure_phases_pending,
  initialize_pending_conditions,
}
use elemental_lifecycle_mana.Controller.Conditions.Effects.{find-set_condition}

-- The condition says Pending, for the generation `gen` of the release.
abbrev pub IsPendingCondition : ℕ → Condition → Type 0
IsPendingCondition gen c =
    (c.status ≡ is_false) × (c.reason ≡ pending) × (c.observed_generation ≡ gen)

abbrev pub IsPending : ℕ → Option Condition → Type 0
IsPending gen none = ⊥
IsPending gen (some c) = IsPendingCondition gen c

abbrev NoneOrPending : ℕ → Option Condition → Type 0
NoneOrPending gen none = Unit
NoneOrPending gen (some c) = IsPendingCondition gen c

is_some-IsPending :
    (gen : ℕ) (o : Option Condition) → NoneOrPending gen o → is_some o ≡ true → IsPending gen o
is_some-IsPending gen none h e = cc
is_some-IsPending gen (some c) h e = h

module _ (ops : ConditionOps) (laws : ConditionLaws ops) where
  abbrev StartsPending : ℕ → Release → Type 0
  StartsPending gen release =
      (release.generation ≡ gen) × ((k : String) → NoneOrPending gen (find_condition ops k release))

  generation-ensure_pending :
      (release : Release) (kind message : String)
      → (ensure_pending ops release kind message).generation ≡ release.generation
  unfolding ensure_pending
  generation-ensure_pending release kind message = ground arith

  ensure_pending-StartsPending :
      (gen : ℕ) (release : Release) (kind message : String)
      → StartsPending gen release
      → StartsPending gen (ensure_pending ops release kind message)
  unfolding ensure_pending
  ensure_pending-StartsPending gen release kind message (g, h) = (
    rw (generation-ensure_pending release kind message) g,
    λ k. ground (arith, h k, find-set_condition ops laws release kind is_false pending message k),
  )

  ensure_pending-present :
      (release : Release) (kind message k : String)
      → is_some (find_condition ops k release) ≡ true
      → is_some (find_condition ops k (ensure_pending ops release kind message)) ≡ true
  unfolding ensure_pending
  ensure_pending-present release kind message k h =
      ground (arith, find-set_condition ops laws release kind is_false pending message k)

  ensure_pending-present_self :
      (release : Release) (kind message : String)
      → is_some (find_condition ops kind (ensure_pending ops release kind message)) ≡ true
  unfolding ensure_pending
  ensure_pending-present_self release kind message =
      ground (
        arith,
        find-set_condition ops laws release kind is_false pending message kind,
        eq_refl kind,
      )

  abbrev with_phase : Release → Phase → Release
  with_phase release p =
      ensure_pending ops release (condition_type p) "Waiting for previous phases to complete"

  ensure_phases_pending-StartsPending :
      (gen : ℕ) (release : Release) (ps : List Phase)
      → StartsPending gen release
      → StartsPending gen (ensure_phases_pending ops release ps)
  unfolding ensure_phases_pending
  ensure_phases_pending-StartsPending gen release [] h = h
  ensure_phases_pending-StartsPending gen release (p ∷ ps) h =
      ensure_phases_pending-StartsPending gen (with_phase release p) ps
        (ensure_pending-StartsPending gen release _ _ h)

  ensure_phases_pending-present :
      (release : Release) (ps : List Phase) (k : String)
      → is_some (find_condition ops k release) ≡ true
      → is_some (find_condition ops k (ensure_phases_pending ops release ps)) ≡ true
  unfolding ensure_phases_pending
  ensure_phases_pending-present release [] k h = h
  ensure_phases_pending-present release (p ∷ ps) k h =
      ensure_phases_pending-present (with_phase release p) ps k
        (ensure_pending-present release _ _ k h)

  abbrev IsPresent : Release → Phase → Type 0
  IsPresent release p = is_some (find_condition ops (condition_type p) release) ≡ true

  ensure_phases_pending-All :
      (release : Release) (ps : List Phase)
      → All (IsPresent (ensure_phases_pending ops release ps)) ps
  unfolding ensure_phases_pending
  ensure_phases_pending-All release [] = tt
  ensure_phases_pending-All release (p ∷ ps) = (
    ensure_phases_pending-present (with_phase release p) ps (condition_type p)
        (ensure_pending-present_self release _ _),
    ensure_phases_pending-All (with_phase release p) ps,
  )

  All-IsPending :
      (gen : ℕ) (release : Release) (ps : List Phase)
      → StartsPending gen release
      → All (IsPresent release) ps
      → All (λ p. IsPending gen (find_condition ops (condition_type p) release)) ps
  All-IsPending gen release [] h here = tt
  All-IsPending gen release (p ∷ ps) h (here, later) =
      (is_some-IsPending gen _ (h.1 (condition_type p)) here, All-IsPending gen release ps h later)

  All-IsPresent-ensure_pending :
      (release : Release) (kind message : String) (ps : List Phase)
      → All (IsPresent release) ps
      → All (IsPresent (ensure_pending ops release kind message)) ps
  All-IsPresent-ensure_pending release kind message [] here = tt
  All-IsPresent-ensure_pending release kind message (p ∷ ps) (here, later) = (
    ensure_pending-present release kind message (condition_type p) here,
    All-IsPresent-ensure_pending release kind message ps later,
  )

  initial-StartsPending :
      (release : Release)
      → release.status.conditions ≡ []
      → StartsPending release.generation release
  initial-StartsPending release empty = (refl, λ k. rw (empty, laws.find_nil k) tt)

  -- The release after the initialisation has a pending condition, for its generation, for LCM, for
  -- the manifest, for Applied and for every phase of the pipeline, if it had no conditions before.
  pub initialize_pending_conditions-IsPending :
      (release : Release) (phases : List Phase)
      → release.status.conditions ≡ []
      → let after = initialize_pending_conditions ops release phases in
        IsPending release.generation (find_condition ops (condition_type lcm) after)
        × IsPending release.generation (find_condition ops condition_manifest_resolved after)
        × IsPending release.generation (find_condition ops condition_applied after)
        × All
            (λ p. IsPending release.generation (find_condition ops (condition_type p) after))
            phases
  unfolding initialize_pending_conditions
  initialize_pending_conditions-IsPending release phases empty =
      let gen = release.generation in
      let m₁ : String = "Waiting for LCM upgrade phase to complete" in
      let m₂ : String = "Waiting for release manifest to be resolved" in
      let m₄ : String = "Upgrade pending" in
      let r₁ = ensure_pending ops release (condition_type lcm) m₁ in
      let r₂ = ensure_pending ops r₁ condition_manifest_resolved m₂ in
      let r₃ = ensure_phases_pending ops r₂ phases in
      let s₁ =
        ensure_pending-StartsPending gen release (condition_type lcm) m₁
          (initial-StartsPending release empty) in
      let s₂ = ensure_pending-StartsPending gen r₁ condition_manifest_resolved m₂ s₁ in
      let s₃ = ensure_phases_pending-StartsPending gen r₂ phases s₂ in
      let s₄ = ensure_pending-StartsPending gen r₃ condition_applied m₄ s₃ in
      let r₄ = ensure_pending ops r₃ condition_applied m₄ in
      let lasting = λ (k : String) (here : is_some (find_condition ops k r₂) ≡ true).
        is_some-IsPending gen (find_condition ops k r₄) (s₄.1 k) (
          ensure_pending-present r₃ condition_applied m₄ k
            (ensure_phases_pending-present r₂ phases k here)) in
      (
        lasting (condition_type lcm) (
            ensure_pending-present r₁ condition_manifest_resolved m₂ (condition_type lcm)
              (ensure_pending-present_self release (condition_type lcm) m₁)),
        lasting condition_manifest_resolved
            (ensure_pending-present_self r₁ condition_manifest_resolved m₂),
        is_some-IsPending gen (find_condition ops condition_applied r₄) (s₄.1 condition_applied)
            (ensure_pending-present_self r₃ condition_applied m₄),
        All-IsPending gen r₄ phases s₄ (
            All-IsPresent-ensure_pending r₃ condition_applied m₄ phases
              (ensure_phases_pending-All r₂ phases)),
      )
