-- ===== src/Controller/Life/Coherent.antt =====
-- What holds of a Release and its status at every moment of its life.
use elemental_lifecycle_mana.Prelude.{ℕ, suc, ◌≤◌, Option, none, some, ◌≡◌, subst, arith}
use elemental_lifecycle_mana.Api.{ReleaseStatus}
use elemental_lifecycle_mana.Controller.Conditions.{ConditionOps, ConditionLaws}
use elemental_lifecycle_mana.Controller.Reconcile.{Calls}
use elemental_lifecycle_mana.Controller.Reconcile.Coherent.{IsCoherent, reconcile_normal-IsCoherent}
use elemental_lifecycle_mana.Controller.Life.{
  Life, blank_status, Step, edit, round, save, lose, others, Reach, created, then_step,
}

abbrev pub SavesCoherent : ConditionOps → ℕ → Option ReleaseStatus → Type 0
SavesCoherent ops gen none = Unit
SavesCoherent ops gen (some st) = IsCoherent ops gen st

-- The stored status and the one to be written are coherent with the stored release.
abbrev pub LifeIsCoherent : {W : Type 0} → ConditionOps → Life W → Type 0
LifeIsCoherent ops s =
    IsCoherent ops s.release.generation s.release.status
    × SavesCoherent ops s.release.generation s.saving

module _ (ops : ConditionOps) where
  later-IsCoherent :
      (gen later : ℕ) (st : ReleaseStatus)
      → gen ≤ later
      → IsCoherent ops gen st
      → IsCoherent ops later st
  later-IsCoherent gen later st le coherent = record {
    not_ahead = omega (arith, coherent.not_ahead);
    of_generation = coherent.of_generation;
    founded = coherent.founded;
  }

  later-SavesCoherent :
      (gen later : ℕ) (o : Option ReleaseStatus)
      → gen ≤ later
      → SavesCoherent ops gen o
      → SavesCoherent ops later o
  later-SavesCoherent gen later none le h = tt
  later-SavesCoherent gen later (some st) le h = later-IsCoherent gen later st le h

  written-IsCoherent :
      (gen : ℕ) (o : Option ReleaseStatus) (st : ReleaseStatus)
      → o ≡ some st
      → SavesCoherent ops gen o
      → IsCoherent ops gen st
  written-IsCoherent gen o st e h = subst (SavesCoherent ops gen) e h

  blank-IsCoherent : ConditionLaws ops → (gen : ℕ) → IsCoherent ops gen blank_status
  blank-IsCoherent laws gen = record {
    not_ahead = omega arith;
    of_generation = λ k. rw (laws.find_nil k) tt;
    founded = ground (arith, laws.find_nil "Applied");
  }

module _ {W : Type 0} (calls : Calls W) (laws : ConditionLaws calls.ops) where
  pub Step-IsCoherent :
      {s t : Life W} → Step calls s t → LifeIsCoherent calls.ops s → LifeIsCoherent calls.ops t
  Step-IsCoherent (edit s spec) (stored, saving) =
      let gen = s.release.generation in
      (
        later-IsCoherent calls.ops gen (suc gen) s.release.status (omega arith) stored,
        later-SavesCoherent calls.ops gen (suc gen) s.saving (omega arith) saving,
      )
  Step-IsCoherent (round s idle) (stored, saving) =
      (stored, reconcile_normal-IsCoherent calls laws s.release s.world stored)
  Step-IsCoherent (save s status e) (stored, saving) =
      (written-IsCoherent calls.ops s.release.generation s.saving status e saving, tt)
  Step-IsCoherent (lose s) (stored, saving) = (stored, tt)
  Step-IsCoherent (others s w) h = h

  -- By the documented laws of the conditions' library: in every state that a new Release can come
  -- to, whatever the user edits meanwhile, the cluster does and writes get lost, its status and the
  -- status that waits to be written observe no later generation than that of the Release, hold only
  -- conditions of the observed generation, and say Applied only where the manifest is resolved and
  -- LCM has not failed.
  pub Reach-IsCoherent : {s : Life W} → Reach calls s → LifeIsCoherent calls.ops s
  Reach-IsCoherent (created release w e) =
      (rw e (blank-IsCoherent calls.ops laws release.generation), tt)
  Reach-IsCoherent (then_step r st) = Step-IsCoherent st (Reach-IsCoherent r)
