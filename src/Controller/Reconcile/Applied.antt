-- ===== src/Controller/Reconcile/Applied.antt =====
-- What the Applied condition says at the end of `reconcileNormal` in release_controller.go.
use elemental_lifecycle_mana.Prelude.{
  true, false, List, [], ◌∷◌, ◌≡◌, refl, ◌==◌, ◌&&◌, not, all, nat_eq, arith,
}
use elemental_lifecycle_mana.Api.{
  is_false, failed, Release, condition_applied, condition_manifest_resolved,
}
use elemental_lifecycle_mana.Phase.{Phase, lcm, os, kubernetes, helm_charts, condition_type}
use elemental_lifecycle_mana.Controller.Conditions.{
  ConditionOps, ConditionLaws, option_is_true, update_applied_condition,
}
use elemental_lifecycle_mana.Controller.Conditions.Effects.{find-set_condition}
use elemental_lifecycle_mana.Controller.Conditions.Applied.{
  applied_in, manifest_in, lcm_failed, update_applied_condition-true,
  update_applied_condition-frame,
}
use elemental_lifecycle_mana.Controller.Conditions.PhaseWalk.{reason_failed, phase_true}
use elemental_lifecycle_mana.Controller.Reconcile.{
  Outcome, Calls, with_applied, reconcile_current, reconcile_normal,
}
use elemental_lifecycle_mana.Controller.Reconcile.Closed.{Closed, reconcile_current-closed}

pub condition_type-not_applied : (p : Phase) → (condition_type p == condition_applied) ≡ false
unfolding condition_type
condition_type-not_applied lcm = refl
condition_type-not_applied os = refl
condition_type-not_applied kubernetes = refl
condition_type-not_applied helm_charts = refl

pub applied-not_phase : (p : Phase) → (condition_applied == condition_type p) ≡ false
unfolding condition_type
applied-not_phase lcm = refl
applied-not_phase os = refl
applied-not_phase kubernetes = refl
applied-not_phase helm_charts = refl

module _ (ops : ConditionOps) where
  -- The Applied condition told by the other conditions.
  abbrev pub SaysApplied : List Phase → Release → Type 0
  SaysApplied phases release = option_is_true (applied_in ops release) ≡ (
      not (lcm_failed ops release)
      && not (reason_failed (manifest_in ops release))
      && option_is_true (manifest_in ops release)
      && all (phase_true ops release) phases)

module _ (ops : ConditionOps) (laws : ConditionLaws ops) where
  -- The release is not said to be applied.
  abbrev NotApplied : Release → Type 0
  NotApplied release = option_is_true (applied_in ops release) ≡ false

  NotApplied-Closed : Closed ops NotApplied
  NotApplied-Closed = record {
    on_applied = λ release text h. ground (
      arith,
      find-set_condition ops laws release condition_applied is_false failed text condition_applied,
    );
    on_manifest = λ release status reason text told h. ground (
      arith,
      find-set_condition ops laws release condition_manifest_resolved status reason text
          condition_applied,
    );
    on_phase = λ release p status reason text h. ground (
      arith,
      condition_type-not_applied p,
      find-set_condition ops laws release (condition_type p) status reason text condition_applied,
    );
    on_version = λ release v target h. h;
  }

  all-phase_true-update_applied_condition :
      (release : Release) (ps qs : List Phase)
      → all (phase_true ops (update_applied_condition ops release ps)) qs
        ≡ all (phase_true ops release) qs
  all-phase_true-update_applied_condition release ps [] = refl
  all-phase_true-update_applied_condition release ps (q ∷ qs) = ground (
    arith,
    update_applied_condition-frame ops laws release (condition_type q) (applied-not_phase q) ps,
    all-phase_true-update_applied_condition release ps qs,
  )

  update_applied_condition-SaysApplied :
      (release : Release) (phases : List Phase)
      → NotApplied release
      → SaysApplied ops phases (update_applied_condition ops release phases)
  update_applied_condition-SaysApplied release phases h = ground (
    arith,
    update_applied_condition-true ops laws release phases h,
    update_applied_condition-frame ops laws release (condition_type lcm) (applied-not_phase lcm)
        phases,
    update_applied_condition-frame ops laws release condition_manifest_resolved refl phases,
    all-phase_true-update_applied_condition release phases phases,
  )

module _ {W : Type 0} (calls : Calls W) (laws : ConditionLaws calls.ops) where
  with_applied-SaysApplied :
      (r : Outcome × W)
      → option_is_true (applied_in calls.ops r.0.release) ≡ false
      → SaysApplied calls.ops calls.phases (with_applied calls r).0.release
  with_applied-SaysApplied (o, w) h =
      update_applied_condition-SaysApplied calls.ops laws o.release calls.phases h

  -- Under the documented laws of the conditions' library: for a release whose generation was seen
  -- before and whose Applied condition is not True, the release that a reconciliation leaves has
  -- Applied True exactly when its own conditions say that LCM has not failed, that the manifest is
  -- resolved, and that every phase of the pipeline is complete, on every path through it.
  pub reconcile_normal-SaysApplied :
      (release : Release) (w : W)
      → nat_eq release.status.observed_generation release.generation ≡ true
      → option_is_true (applied_in calls.ops release) ≡ false
      → SaysApplied calls.ops calls.phases (reconcile_normal calls release w).0.release
  unfolding reconcile_normal
  reconcile_normal-SaysApplied release w seen before = ground (
    arith,
    with_applied-SaysApplied (reconcile_current calls release w) (
        reconcile_current-closed calls (NotApplied calls.ops laws)
          (NotApplied-Closed calls.ops laws) release w before),
  )
