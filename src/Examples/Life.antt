-- ===== src/Examples/Life.antt =====
-- Examples of the life of a release: a first round, its write, and an edit in between.
use elemental_lifecycle_mana.Prelude.{String, none, [], refl}
use elemental_lifecycle_mana.Api.{Release}
use elemental_lifecycle_mana.Errors.{ok}
use elemental_lifecycle_mana.Webhook.{VersionLib, same}
use elemental_lifecycle_mana.Controller.Manifests.{WithRaw}
use elemental_lifecycle_mana.Controller.Reconcile.{Calls, reconcile_normal}
use elemental_lifecycle_mana.Controller.Wiring.{release_reconciler}
use elemental_lifecycle_mana.Controller.Life.{
  Life, blank_status, edited, after_round, saved, Reach, Step,
}
use elemental_lifecycle_mana.Controller.Life
use elemental_lifecycle_mana.Controller.Life.Coherent.{LifeIsCoherent, Reach-IsCoherent}
use elemental_lifecycle_mana.Controller.Life.Raise
use elemental_lifecycle_mana.Controller.Life.Raise.{NeverLowers, CalmReach, CalmReach-NeverLowers}
use elemental_lifecycle_mana.Examples.World.{
  World, list_ops-ConditionLaws, small_release, cluster, helm_store, libraries, components,
}

abbrev reconciler : Calls (WithRaw World)
reconciler = release_reconciler libraries cluster helm_store components

abbrev new_release : Release
new_release = record small_release { generation = 1; status = blank_status }

abbrev at_start : Life (WithRaw World)
at_start = record { release = new_release; saving = none; world = ([], 0) }

abbrev after_first : Life (WithRaw World)
after_first = after_round at_start (reconcile_normal reconciler new_release ([], 0))

-- The user edits the release before the status of the first round is written.
abbrev after_edit : Life (WithRaw World)
after_edit = record after_first {
  release = edited new_release (let spec = new_release.spec in record spec { version = "1.2.0" });
}

Reach-IsCoherent_example : LifeIsCoherent reconciler.ops after_edit
unfolding release_reconciler
Reach-IsCoherent_example = Reach-IsCoherent reconciler list_ops-ConditionLaws (
    Life.then_step
      (Life.then_step (Life.created new_release ([], 0) refl) (Life.round at_start refl))
      (Life.edit after_first (let spec = new_release.spec in record spec { version = "1.2.0" })))

abbrev texts : VersionLib
texts = record { Version = String; parse = ok; compare = λ s t. ok same }

CalmReach-NeverLowers_example :
    NeverLowers libraries cluster helm_store components texts after_first (record after_first {
      release =
          saved new_release (reconcile_normal reconciler new_release ([], 0)).0.release.status;
      saving = none;
    })
CalmReach-NeverLowers_example =
    CalmReach-NeverLowers libraries cluster helm_store components texts
      (Raise.then_step (Raise.created new_release ([], 0) refl) (Life.round at_start refl) tt)
      (Life.save after_first _ refl)
