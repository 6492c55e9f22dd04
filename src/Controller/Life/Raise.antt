-- ===== src/Controller/Life/Raise.antt =====
-- The versions that a Release reaches one after the other: the edits that the webhook of
-- internal/webhook/v1alpha1/release_webhook.go admits, and the rounds of the reconciler.
use elemental_lifecycle_mana.Prelude.{
  String, true, Option, none, some, ◌≡◌, refl, sym, subst, ◌∙◌, ◌⊎◌, inl, inr, ◌==◌,
}
use elemental_lifecycle_mana.Api.{Release, ReleaseSpec, ReleaseStatus}
use elemental_lifecycle_mana.Errors.{ok}
use elemental_lifecycle_mana.Cluster.{Client}
use elemental_lifecycle_mana.Helm.{HelmClient}
use elemental_lifecycle_mana.Webhook.{
  greater, VersionLib, validate_release_version, validate_update,
}
use elemental_lifecycle_mana.Webhook.Admission.{Accepts, validate_update-admits}
use elemental_lifecycle_mana.Reconcilers.Kubernetes.{ComponentsHandler}
use elemental_lifecycle_mana.Controller.Manifests.{WithRaw}
use elemental_lifecycle_mana.Controller.Wiring.{Libraries, release_reconciler}
use elemental_lifecycle_mana.Controller.Wiring.Target.{reconcile_normal-IsOnCourse}
use elemental_lifecycle_mana.Controller.Life.{
  Life, blank_status, edited, saved, Step, edit, round, save, lose, others,
}

-- The specification asks for a version that parses and that compares as greater than `old`.
abbrev pub AsksForMore : VersionLib → ReleaseSpec → String → Type 0
AsksForMore versions spec old =
    (v : versions.Version) × (validate_release_version versions spec.version ≡ ok v)
    × (versions.compare v old ≡ ok greater)

-- No version was reached, or the one asked for, or a smaller one.
abbrev pub IsRaised : VersionLib → ReleaseSpec → String → Type 0
IsRaised versions spec old =
    ((old == "") ≡ true) ⊎ (old ≡ spec.version) ⊎ AsksForMore versions spec old

-- A status that waits to be written has the version that is stored, or the one asked for.
abbrev SavesOnCourse : Release → Option ReleaseStatus → Type 0
SavesOnCourse release none = Unit
SavesOnCourse release (some st) =
    (st.version ≡ release.status.version) ⊎ (st.version ≡ release.spec.version)

written-IsOnCourse :
    (release : Release) (o : Option ReleaseStatus) (st : ReleaseStatus)
    → o ≡ some st
    → SavesOnCourse release o
    → (st.version ≡ release.status.version) ⊎ (st.version ≡ release.spec.version)
written-IsOnCourse release o st e h = subst (SavesOnCourse release) e h

module _ (versions : VersionLib) where
  written-IsRaised :
      (release : Release) (v : String)
      → IsRaised versions release.spec release.status.version
      → (v ≡ release.status.version) ⊎ (v ≡ release.spec.version)
      → IsRaised versions release.spec v
  written-IsRaised release v raised (inl same) =
      subst (IsRaised versions release.spec) (sym same) raised
  written-IsRaised release v raised (inr asked) = inr (inl asked)

module _ {W : Type 0} (libs : Libraries W) (client : Client W) (helm : HelmClient W)
    (components : ComponentsHandler W) (versions : VersionLib) where
  abbrev pub LifeStep : Life (WithRaw W) → Life (WithRaw W) → Type 0
  LifeStep = Step (release_reconciler libs client helm components)

  -- The webhook admits an edit, and no round is between its read and its write then.
  abbrev pub IsCalm : {s t : Life (WithRaw W)} → LifeStep s t → Type 0
  IsCalm (edit s spec) =
      (s.saving ≡ none)
      × ((w : W) × Accepts
            (validate_update client versions libs.ops s.release (edited s.release spec) w).0)
  IsCalm (round s idle) = Unit
  IsCalm (save s status e) = Unit
  IsCalm (lose s) = Unit
  IsCalm (others s w) = Unit

  -- The states that a new Release can come to by such steps.
  pub data CalmReach : Life (WithRaw W) → Type 0 where
    created :
        (release : Release) (w : WithRaw W)
        → release.status ≡ blank_status
        → CalmReach (record { release = release; saving = none; world = w })
    then_step :
        {s t : Life (WithRaw W)} → CalmReach s → (step : LifeStep s t) → IsCalm step → CalmReach t

  abbrev IsCalmLife : Life (WithRaw W) → Type 0
  IsCalmLife s =
      IsRaised versions s.release.spec s.release.status.version × SavesOnCourse s.release s.saving

  admitted-IsRaised :
      (old new : Release) (w : W)
      → Accepts (validate_update client versions libs.ops old new w).0
      → IsRaised versions new.spec old.status.version
  admitted-IsRaised old new w h =
      let (_, _, (v, parsed, raised)) =
        validate_update-admits client versions libs.ops old new w h in
      split v parsed raised
    where
      split :
          (v : versions.Version)
          → validate_release_version versions new.spec.version ≡ ok v
          → ((old.status.version == "") ≡ true)
            ⊎ (versions.compare v old.status.version ≡ ok greater)
          → IsRaised versions new.spec old.status.version
      split v parsed (inl e) = inl e
      split v parsed (inr e) = inr (inr (v, parsed, e))

  Step-IsCalmLife :
      {s t : Life (WithRaw W)} (step : LifeStep s t) → IsCalm step → IsCalmLife s → IsCalmLife t
  Step-IsCalmLife (edit s spec) (idle, (w, admitted)) h = (
    admitted-IsRaised s.release (edited s.release spec) w admitted,
    subst (SavesOnCourse (edited s.release spec)) (sym idle) tt,
  )
  Step-IsCalmLife (round s idle) calm (raised, saving) =
      (raised, (reconcile_normal-IsOnCourse libs client helm components s.release s.world).1)
  Step-IsCalmLife (save s status e) calm (raised, saving) = (
    written-IsRaised versions s.release status.version raised
        (written-IsOnCourse s.release s.saving status e saving),
    tt,
  )
  Step-IsCalmLife (lose s) calm (raised, saving) = (raised, tt)
  Step-IsCalmLife (others s w) calm h = h

  Reach-IsCalmLife : {s : Life (WithRaw W)} → CalmReach s → IsCalmLife s
  Reach-IsCalmLife (created release w e) =
      (inl (subst (λ (st : ReleaseStatus). (st.version == "") ≡ true) (sym e) refl), tt)
  Reach-IsCalmLife (then_step r step calm) = Step-IsCalmLife step calm (Reach-IsCalmLife r)

  -- What a step does to the version that is stored.
  abbrev pub NeverLowers : Life (WithRaw W) → Life (WithRaw W) → Type 0
  NeverLowers s t =
      (t.release.status.version ≡ s.release.status.version)
      ⊎ ((t.release.status.version ≡ s.release.spec.version)
          × (((s.release.status.version == "") ≡ true)
              ⊎ AsksForMore versions s.release.spec s.release.status.version))

  raised-NeverLowers :
      (s : Life (WithRaw W)) (status : ReleaseStatus)
      → IsRaised versions s.release.spec s.release.status.version
      → (status.version ≡ s.release.status.version) ⊎ (status.version ≡ s.release.spec.version)
      → NeverLowers s (record s { release = saved s.release status; saving = none })
  raised-NeverLowers s status raised (inl same) = inl same
  raised-NeverLowers s status (inl e) (inr asked) = inr (asked, inl e)
  raised-NeverLowers s status (inr (inl e)) (inr asked) = inl (asked ∙ sym e)
  raised-NeverLowers s status (inr (inr more)) (inr asked) = inr (asked, inr more)

  -- From the creation of a Release on, if the webhook admits every edit and no edit falls between
  -- the read and the write of a round: a step leaves the version that the Release reached as it was,
  -- or replaces it by the version that the Release asks for, and then either none was reached
  -- before, or the new one compares as greater than the old one.
  pub CalmReach-NeverLowers :
      {s t : Life (WithRaw W)} → CalmReach s → LifeStep s t → NeverLowers s t
  CalmReach-NeverLowers r (edit s spec) = inl refl
  CalmReach-NeverLowers r (round s idle) = inl refl
  CalmReach-NeverLowers r (save s status e) =
      let (raised, saving) = Reach-IsCalmLife r in
      raised-NeverLowers s status raised (written-IsOnCourse s.release s.saving status e saving)
  CalmReach-NeverLowers r (lose s) = inl refl
  CalmReach-NeverLowers r (others s w) = inl refl
