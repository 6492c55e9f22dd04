-- ===== src/Controller/Events/Cleanup.antt =====
-- `cleanupOldVersionPlans` of internal/controller/release_controller.go, and its failures.
use Prim.Native.String.{◌++◌}
use elemental_lifecycle_mana.Prelude.{
  String, Bool, true, false, Option, none, some, List, [], ◌∷◌, ◌≡◌, refl, ◌&&◌, is_some, not,
  arith,
}
use elemental_lifecycle_mana.Api.{release_name_label, release_version_label}
use elemental_lifecycle_mana.Api.Sanitize.{sanitize_version}
use elemental_lifecycle_mana.Errors.{Error, wrap, Result, ok, err, settle, continue}
use elemental_lifecycle_mana.Cluster.{Plan, Client}
use elemental_lifecycle_mana.Plan.{plan_namespace}
use elemental_lifecycle_mana.Controller.Events.{
  delete_plans, after_delete, join_option, to_outcome, cleanup_old_version_plans,
}

abbrev pub is_ok : {A : Type 0} → Result A → Bool
is_ok (ok a) = true
is_ok (err e) = false

module _ {W : Type 0} (client : Client W) where
  -- The world after the deletion of each plan in turn, and whether all deletions succeed.
  abbrev pub world_after_deletes : List Plan → W → W
  world_after_deletes [] w = w
  world_after_deletes (p ∷ ps) w = world_after_deletes ps (client.delete_plan p w).1

  abbrev pub all_deleted : List Plan → W → Bool
  all_deleted [] w = true
  all_deleted (p ∷ ps) w =
      let rest = all_deleted ps (client.delete_plan p w).1 in
      is_ok (client.delete_plan p w).0 && rest

  -- The loop ends in the world after all deletions, without an error exactly if there was none.
  abbrev no_errors : Result (Option Error) → Bool
  no_errors (ok none) = true
  no_errors _ = false

  abbrev Deletes : List Plan → Option Error → W → Result (Option Error) × W → Type 0
  Deletes ps errs w r =
      (r.1 ≡ world_after_deletes ps w) × (no_errors r.0 ≡ (not (is_some errs) && all_deleted ps w))

  after_delete-Deletes :
      (p : Plan) (ps : List Plan) (errs : Option Error) (w : W) (r : Result (Unit {0}) × W)
      → client.delete_plan p w ≡ r
      → ((d : Option Error) → Deletes ps d r.1 (delete_plans client ps d r.1))
      → Deletes (p ∷ ps) errs w (settle r (after_delete client p errs (delete_plans client ps)))
  after_delete-Deletes p ps errs w (ok u, v) e rest =
      let (world, says) = rest errs in (rw e world, rw e says)
  after_delete-Deletes p ps errs w (err d, v) e rest =
      let (world, says) = rest (some (join_option errs (wrap ("deleting plan " ++ p.name) d))) in
      (rw e world, rw e (ground arith))

  delete_plans-Deletes :
      (ps : List Plan) (errs : Option Error) (w : W)
      → Deletes ps errs w (delete_plans client ps errs w)
  unfolding delete_plans
  delete_plans-Deletes [] none w = (refl, refl)
  delete_plans-Deletes [] (some e) w = (refl, refl)
  delete_plans-Deletes (p ∷ ps) errs w =
      after_delete-Deletes p ps errs w (client.delete_plan p w) refl
        (λ d. delete_plans-Deletes ps d (client.delete_plan p w).1)

  to_outcome-Deletes :
      (ps : List Plan) (w : W) (r : Result (Option Error) × W)
      → Deletes ps none w r
      → ((continue r to_outcome).1 ≡ world_after_deletes ps w)
        × (is_ok (continue r to_outcome).0 ≡ all_deleted ps w)
  to_outcome-Deletes ps w (ok none, v) h = h
  to_outcome-Deletes ps w (ok (some e), v) h = h
  to_outcome-Deletes ps w (err e, v) h = h

  -- The labels of the plans of an old version of a release.
  abbrev pub old_labels : String → String → List (String × String)
  old_labels release_name old_version =
      (release_name_label, release_name)
      ∷ (release_version_label, sanitize_version old_version)
      ∷ []

  -- If the plans of the old version can be listed, the deletion of every one of them is tried, in
  -- their order and whatever the others do, and the clean-up succeeds exactly if all succeed.
  pub cleanup_old_version_plans-tries_all :
      (release_name old_version : String) (ps : List Plan) (w v : W)
      → client.list_plans plan_namespace (old_labels release_name old_version) w ≡ (ok ps, v)
      → ((cleanup_old_version_plans client release_name old_version w).1 ≡ world_after_deletes ps v)
        × (is_ok (cleanup_old_version_plans client release_name old_version w).0 ≡ all_deleted ps v)
  unfolding cleanup_old_version_plans
  cleanup_old_version_plans-tries_all release_name old_version ps w v listed =
      rw listed
        (to_outcome-Deletes ps v (delete_plans client ps none v) (delete_plans-Deletes ps none v))
