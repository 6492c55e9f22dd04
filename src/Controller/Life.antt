-- ===== src/Controller/Life.antt =====
-- A Release from its creation on: the edits of its user, the rounds of `Reconcile` in
-- internal/controller/release_controller.go, and the rest of the cluster. Between the read of a
-- Release and the write of its status the user may edit it, and the write may be lost.
pub mod Drive
pub mod Coherent
pub mod Raise
use elemental_lifecycle_mana.Prelude.{
  ℕ, suc, String, Bool, true, false, Option, none, some, List, [], ◌≡◌,
}
use elemental_lifecycle_mana.Api.{Release, ReleaseSpec, ReleaseStatus}
use elemental_lifecycle_mana.Controller.Reconcile.{Outcome, Calls, reconcile_normal}

-- `saving` is the status that `updateReleaseStatus` has still to write.
pub record Life (W : Type 0) : Type 0 where
  pub release : Release
  pub saving : Option ReleaseStatus
  pub world : W

-- The status of a Release that no controller has seen.
abbrev pub blank_status : ReleaseStatus
blank_status = record { version = ""; conditions = []; observed_generation = 0 }

-- The API server counts the generations of the specification, and keeps the status at an edit.
abbrev pub edited : Release → ReleaseSpec → Release
edited release spec = record release { spec = spec; generation = suc release.generation }

-- `updateReleaseStatus` puts the status into the Release that it fetches anew.
abbrev pub saved : Release → ReleaseStatus → Release
saved release status = record release { status = status }

module _ {W : Type 0} where
  abbrev pub after_round : Life W → Outcome × W → Life W
  after_round s (o, w) = record s { saving = some o.release.status; world = w }

module _ {W : Type 0} (calls : Calls W) where
  -- A status that did not change is not written; to write it would change nothing.
  pub data Step : Life W → Life W → Type 0 where
    edit : (s : Life W) (spec : ReleaseSpec) → Step s (record s { release = edited s.release spec })
    round :
        (s : Life W)
        → s.saving ≡ none
        → Step s (after_round s (reconcile_normal calls s.release s.world))
    save :
        (s : Life W) (status : ReleaseStatus)
        → s.saving ≡ some status
        → Step s (record s { release = saved s.release status; saving = none })
    lose : (s : Life W) → Step s (record s { saving = none })
    others : (s : Life W) (w : W) → Step s (record s { world = w })

  -- The states that a new Release can come to.
  pub data Reach : Life W → Type 0 where
    created :
        (release : Release) (w : W)
        → release.status ≡ blank_status
        → Reach (record { release = release; saving = none; world = w })
    then_step : {s t : Life W} → Reach s → Step s t → Reach t
