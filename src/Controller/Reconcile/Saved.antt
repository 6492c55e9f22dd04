-- ===== src/Controller/Reconcile/Saved.antt =====
-- `Reconcile` of internal/controller/release_controller.go: the outcomes and the saved status.
use elemental_lifecycle_mana.Prelude.{
  String, Bool, true, false, none, ◌≡◌, refl, ◌⊎◌, inl, inr, arith, Bool-cases, not, ◌&&◌,
  if◌then◌else◌,
}
use elemental_lifecycle_mana.Api.{Release, ReleaseStatus}
use elemental_lifecycle_mana.Errors.{
  Error, is_not_found, is_panic, Result, ok, err, M, pure, throw, settle, attempt, from_result,
}
use elemental_lifecycle_mana.Cluster.{Client}
use elemental_lifecycle_mana.Controller.Reconcile.{
  Requeue, Outcome, after_status, has_panicked, save_outcome, after_fetch, update_release_status,
  reconcile,
}

module _ {W : Type 0} (client : Client W)
    (retry_on_conflict : M W (Unit {0}) → M W (Unit {0})) where
  after_status-ok :
      (r : Result Requeue) (s : Result (Unit {0}) × W) (q : Requeue)
      → (settle s (after_status client retry_on_conflict r)).0 ≡ ok q
      → (r ≡ ok q) × (s.0 ≡ ok tt)
  after_status-ok r (ok tt, u) q h = (h, refl)
  after_status-ok r (err e, u) q h = cc

  module _ (status_equal : ReleaseStatus → ReleaseStatus → Bool)
      (normal : Release → W → Outcome × W) where
    -- The reconciliation of the release ended with `q`, and the status was saved if it changed.
    abbrev pub IsSaved : String → String → Release → Requeue → Outcome × W → Type 0
    IsSaved namespace name release q (o, u) =
        (o.result ≡ ok q)
        × ((status_equal release.status o.release.status ≡ true)
            ⊎ ((update_release_status client retry_on_conflict namespace name o.release.status u).0
                ≡ ok tt))

    -- What `save_outcome` does with a result `r`, once the statuses are compared.
    abbrev ended_with : Bool → M W (Unit {0}) → Result Requeue → M W Requeue
    ended_with changed write r =
        if not (has_panicked client retry_on_conflict r) && changed
        then attempt write (after_status client retry_on_conflict r)
        else from_result r

    ended_with-ok :
        (same : Bool) (write : M W (Unit {0})) (r : Result Requeue) (u : W) (q : Requeue)
        → (ended_with (not same) write r u).0 ≡ ok q
        → (r ≡ ok q) × ((same ≡ true) ⊎ ((write u).0 ≡ ok tt))
    ended_with-ok true write r u q h = ground arith
    ended_with-ok false write (ok p) u q h =
        let (ended, saved) = after_status-ok (ok p) (write u) q h in (ended, inr saved)
    ended_with-ok false write (err e) u q h = elim (Bool-cases (is_panic e)) [
      | inl d ↦ ground arith
      | inr d ↦
          let (ended, saved) = after_status-ok (err e) (write u) q (ground arith) in
          (ended, inr saved)
    ]

    save_outcome-IsSaved :
        (namespace name : String) (release : Release) (q : Requeue) (r : Outcome × W)
        → (save_outcome client retry_on_conflict status_equal normal namespace name release r).0
          ≡ ok q
        → IsSaved namespace name release q r
    save_outcome-IsSaved namespace name release q (o, u) h =
        ended_with-ok (status_equal release.status o.release.status)
          (update_release_status client retry_on_conflict namespace name o.release.status) o.result
          u q h

    -- What stands behind a success: the release is gone, or it was read, reconciled and saved.
    abbrev pub Explains : String → String → Requeue → Result Release × W → Type 0
    Explains namespace name q (err e, v) = is_not_found e ≡ true
    Explains namespace name q (ok release, v) = IsSaved namespace name release q (normal release v)

    gone-Explains :
        (b : Bool) (e : Error) (q : Requeue) (v : W)
        → ((if b then pure none else throw e) v).0 ≡ ok q
        → b ≡ true
    gone-Explains true e q v h = refl
    gone-Explains false e q v h = cc

    after_fetch-Explains :
        (namespace name : String) (q : Requeue) (r : Result Release × W)
        → (settle r (after_fetch client retry_on_conflict status_equal normal namespace name)).0
          ≡ ok q
        → Explains namespace name q r
    after_fetch-Explains namespace name q (ok release, v) h =
        save_outcome-IsSaved namespace name release q (normal release v) h
    after_fetch-Explains namespace name q (err e, v) h = gone-Explains (is_not_found e) e q v h

    -- A reconciliation that reports a success either did not find the release, or its inner
    -- reconciliation succeeded with that result and the status that it left equals the one before
    -- or was saved without an error: no change of the status and no error is lost.
    pub reconcile-Explains :
        (namespace name : String) (w : W) (q : Requeue)
        → (reconcile client retry_on_conflict status_equal normal namespace name w).0 ≡ ok q
        → Explains namespace name q (client.get_release namespace name w)
    unfolding reconcile
    reconcile-Explains namespace name w q h =
        after_fetch-Explains namespace name q (client.get_release namespace name w) h
