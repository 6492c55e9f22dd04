-- ===== src/Controller/Reconcile/Retry.antt =====
-- The write of a status, `updateReleaseStatus` of internal/controller/release_controller.go.
use elemental_lifecycle_mana.Prelude.{String, true, ◌≡◌, refl, ◌⊎◌, inl, inr, arith}
use elemental_lifecycle_mana.Api.{Release, ReleaseStatus}
use elemental_lifecycle_mana.Errors.{
  is_not_found, is_conflict, Error, Result, ok, err, M, settle, attempt,
}
use elemental_lifecycle_mana.Cluster.{Client}
use elemental_lifecycle_mana.Controller.Reconcile.{write_latest, update_release_status}

abbrev pub EndsInConflict : Result (Unit {0}) → Type 0
EndsInConflict (ok u) = ⊥
EndsInConflict (err e) = is_conflict e ≡ true

-- One attempt after the other, until one is the last; each one before it ended in a conflict, and
-- the cluster may change before the next.
pub data Attempts {W : Type 0} (m : M W (Unit {0})) : W → Result (Unit {0}) × W → Type 0 where
  the_last : (w : W) → Attempts m w (m w)
  once_more :
      {r : Result (Unit {0}) × W} (w v : W)
      → EndsInConflict (m w).0
      → Attempts m v r
      → Attempts m w r

-- What retry.RetryOnConflict documents.
abbrev pub RetriesOnConflict : {W : Type 0} → (M W (Unit {0}) → M W (Unit {0})) → Type 0
RetriesOnConflict {W} retry = (m : M W (Unit {0})) (w : W) → Attempts m w (retry m w)

abbrev pub Succeeds : Result (Unit {0}) → Type 0
Succeeds (ok u) = Unit
Succeeds (err e) = ⊥

ok_of_Succeeds : (r : Result (Unit {0})) → Succeeds r → r ≡ ok tt
ok_of_Succeeds (ok u) h = refl
ok_of_Succeeds (err e) h = absurd h

module _ {W : Type 0} (client : Client W) (namespace name : String) (status : ReleaseStatus) where
  -- In the world `w` the release is gone, or the status is written into the release as it is there,
  -- and the API server accepts it.
  abbrev pub IsWritten : W → Type 0
  IsWritten w =
      let fetched = client.get_release namespace name w in
      ((e : Error) × (fetched.0 ≡ err e) × (is_not_found e ≡ true))
      ⊎ ((latest : Release) × (fetched.0 ≡ ok latest)
          × ((client.update_release_status (record latest { status = status }) fetched.1).0
              ≡ ok tt))

  module _ (retry : M W (Unit {0}) → M W (Unit {0})) where
    abbrev write_once : M W (Unit {0})
    write_once = attempt (client.get_release namespace name) (write_latest client retry status)

    written-settle :
        (r : Result Release × W)
        → Succeeds (settle r (write_latest client retry status)).0
        → ((e : Error) × (r.0 ≡ err e) × (is_not_found e ≡ true))
          ⊎ ((latest : Release) × (r.0 ≡ ok latest)
              × ((client.update_release_status (record latest { status = status }) r.1).0 ≡ ok tt))
    written-settle (err e, w) h = inl (e, refl, ground arith)
    written-settle (ok latest, w) h = inr (
      latest,
      refl,
      ok_of_Succeeds (client.update_release_status (record latest { status = status }) w).0 h,
    )

    Attempts-IsWritten :
        {r : Result (Unit {0}) × W} (w : W)
        → Attempts write_once w r
        → Succeeds r.0
        → (v : W) × IsWritten v
    Attempts-IsWritten _ (the_last w) h =
        (w, written-settle (client.get_release namespace name w) h)
    Attempts-IsWritten _ (once_more w v conflict later) h = Attempts-IsWritten v later h

    -- If retries go on after conflicts only: when the update of a status succeeds, then in some
    -- world the release was gone, or the API server accepted the status for the release as it had
    -- it there, with whatever the user had changed of it meanwhile.
    pub update_release_status-IsWritten :
        (w : W)
        → RetriesOnConflict retry
        → Succeeds (update_release_status client retry namespace name status w).0
        → (v : W) × IsWritten v
    unfolding update_release_status
    update_release_status-IsWritten w law h = Attempts-IsWritten w (law write_once w) h
