-- ===== src/Controller/Reconcile/Frame.antt =====
-- What a reconciliation of release_controller.go never changes, and what it always records.
use elemental_lifecycle_mana.Prelude.{ℕ, ◌≡◌, refl, arith}
use elemental_lifecycle_mana.Api.{Release}
use elemental_lifecycle_mana.Controller.Conditions.{ConditionOps, set_condition}
use elemental_lifecycle_mana.Controller.Conditions.Closed.{
  KeptBySets, initialize_pending_conditions-kept, update_applied_condition-kept,
}
use elemental_lifecycle_mana.Controller.Reconcile.{
  Outcome, Calls, with_applied, start_generation, reconcile_current, reconcile_normal,
}
use elemental_lifecycle_mana.Controller.Reconcile.Closed.{Closed, reconcile_current-closed}

-- The user's part of the release is that of `before`, and the generation `gen` is recorded as seen.
abbrev pub KeepsSpec : Release → ℕ → Release → Type 0
KeepsSpec before gen release =
    (release.name ≡ before.name)
    × (release.namespace ≡ before.namespace)
    × (release.generation ≡ before.generation)
    × (release.spec ≡ before.spec)
    × (release.status.observed_generation ≡ gen)

module _ (ops : ConditionOps) (before : Release) (gen : ℕ) where
  KeepsSpec-set_condition : KeptBySets ops (KeepsSpec before gen)
  unfolding set_condition
  KeepsSpec-set_condition release kind status reason message h = h

  KeepsSpec-Closed : Closed ops (KeepsSpec before gen)
  unfolding set_condition
  KeepsSpec-Closed = record {
    on_applied = λ release text h. h;
    on_manifest = λ release status reason text told h. h;
    on_phase = λ release p status reason text h. h;
    on_version = λ release v target h. h;
  }

module _ {W : Type 0} (calls : Calls W) where
  with_applied-KeepsSpec :
      (before : Release) (gen : ℕ) (r : Outcome × W)
      → KeepsSpec before gen r.0.release
      → KeepsSpec before gen (with_applied calls r).0.release
  with_applied-KeepsSpec before gen (o, w) h =
      update_applied_condition-kept calls.ops (KeepsSpec before gen)
        (KeepsSpec-set_condition calls.ops before gen) o.release calls.phases h

  current-KeepsSpec :
      (release : Release) (w : W)
      → KeepsSpec release release.status.observed_generation
          (with_applied calls (reconcile_current calls release w)).0.release
  current-KeepsSpec release w =
      let gen = release.status.observed_generation in
      with_applied-KeepsSpec release gen (reconcile_current calls release w) (
        reconcile_current-closed calls (KeepsSpec release gen)
          (KeepsSpec-Closed calls.ops release gen) release w (refl, refl, refl, refl, refl))

  pub start_generation-KeepsSpec :
      (release : Release) → KeepsSpec release release.generation (start_generation calls release)
  start_generation-KeepsSpec release =
      let gen = release.generation in
      initialize_pending_conditions-kept calls.ops (KeepsSpec release gen)
        (KeepsSpec-set_condition calls.ops release gen) _ calls.phases
        (refl, refl, refl, refl, refl)

  -- Whatever the calls of a reconciliation answer, it changes neither the name, the namespace, the
  -- generation nor the specification of the release, and it leaves the generation of the release
  -- recorded as the observed one.
  pub reconcile_normal-KeepsSpec :
      (release : Release) (w : W)
      → KeepsSpec release release.generation (reconcile_normal calls release w).0.release
  unfolding reconcile_normal
  reconcile_normal-KeepsSpec release w =
      ground (arith, current-KeepsSpec release w, start_generation-KeepsSpec release)
