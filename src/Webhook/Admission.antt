-- ===== src/Webhook/Admission.antt =====
-- The releases that the webhook of internal/webhook/v1alpha1/release_webhook.go lets through.
use elemental_lifecycle_mana.Prelude.{
  String, Bool, true, false, Option, none, some, List, [], ◌∷◌, ◌≡◌, refl, ◌⊎◌, inl, inr, ◌==◌,
  ◌||◌, ap, ◌∙◌, if◌then◌else◌, Bool-cases, arith,
}
use elemental_lifecycle_mana.Api.{status_is_true, is_failed, Condition, Release}
use elemental_lifecycle_mana.Errors.{Result, ok, err, then_with, with_context}
use elemental_lifecycle_mana.Errors.Laws.{in_context-inv, bind-inv}
use elemental_lifecycle_mana.Cluster.{Client}
use elemental_lifecycle_mana.Controller.Conditions.{ConditionOps, find_condition}
use elemental_lifecycle_mana.Api.{condition_applied}
use elemental_lifecycle_mana.Webhook.{
  Comparison, greater, same, less, VersionLib, validate_release_version, judge, validate_increment,
  allow_edit, validate_no_upgrade_in_progress, require_registry, check_no_release, validate_create,
  validate_update,
}

abbrev pub Accepts : {A : Type 0} → Result A → Type 0
Accepts (ok a) = Unit
Accepts (err e) = ⊥

-- The Applied condition is absent, True, or gives the reason Failed.
abbrev pub is_settled : Option Condition → Bool
is_settled none = true
is_settled (some c) = status_is_true c.status || is_failed c.reason

allow_edit-settled : (o : Option Condition) → Accepts (allow_edit o) → is_settled o ≡ true
unfolding allow_edit
allow_edit-settled none h = refl
allow_edit-settled (some c) h = ground arith

require_registry-set :
    (release : Release) → Accepts (require_registry release) → (release.spec.registry == "") ≡ false
require_registry-set release h = ground arith

check_no_release-empty :
    {W : Type 0} (client : Client W) (versions : VersionLib) (ops : ConditionOps)
    (release : Release) (rs : List Release)
    → Accepts (check_no_release client versions ops release rs)
    → rs ≡ []
unfolding check_no_release
check_no_release-empty client versions ops release [] h = refl
check_no_release-empty client versions ops release (r ∷ rs) h = absurd h

by_ok : {A : Type 0} {r : Result A} {a : A} → r ≡ ok a → Accepts r
by_ok e = rw e tt

with_context-Accepts :
    {A : Type 0} (s : String) (r : Result A) (a : A) → with_context s r ≡ ok a → Accepts r
with_context-Accepts s (ok b) a e = tt
with_context-Accepts s (err d) a e = cc

compare-greater :
    (old new : Release) (versions : VersionLib) (r : Result Comparison)
    → Accepts (then_with (with_context "comparing versions" r) (judge versions old new))
    → r ≡ ok greater
unfolding judge
compare-greater old new versions (ok greater) h = refl
compare-greater old new versions (ok same) h = absurd h
compare-greater old new versions (ok less) h = absurd h
compare-greater old new versions (err e) h = absurd h

skip_if :
    (b : Bool) (r q : Result (Unit {0})) → b ≡ false → Accepts (if b then r else q) → Accepts q
skip_if true r q e h = cc
skip_if false r q e h = h

validate_increment-raises :
    (versions : VersionLib) (old new : Release) (v : versions.Version)
    → Accepts (validate_increment versions old new v)
    → ((old.status.version == "") ≡ true) ⊎ (versions.compare v old.status.version ≡ ok greater)
unfolding validate_increment
validate_increment-raises versions old new v h = elim (Bool-cases (old.status.version == "")) [
  | inl e ↦ inl e
  | inr e ↦
      inr (
        compare-greater old new versions (versions.compare v old.status.version)
          (skip_if _ _ _ e h))
]

module _ {W : Type 0} (client : Client W) (versions : VersionLib) (ops : ConditionOps) where
  -- A Release that the webhook admits has a registry and a version that parses, and the cluster
  -- answered that it had no Release before.
  pub validate_create-admits :
      (release : Release) (w : W)
      → Accepts (validate_create client versions ops release w).0
      → ((release.spec.registry == "") ≡ false)
        × Accepts (validate_release_version versions release.spec.version)
        × ((client.list_releases w).0 ≡ ok [])
  unfolding validate_create
  validate_create-admits release w h =
      let (_, registered, h₁) = bind-inv Accepts (require_registry release, w) _ (λ e n. n) h in
      let (v, versioned, h₂) =
        bind-inv Accepts
          (
            with_context "validating release version"
                (validate_release_version versions release.spec.version),
            w,
          )
          _ (λ e n. n) h₁ in
      let (existing, listed, h₃) =
        in_context-inv Accepts "listing existing releases" (client.list_releases w) _ (λ e n. n)
          h₂ in
      let (_, none_there, h₄) =
        bind-inv Accepts
          (check_no_release client versions ops release existing, (client.list_releases w).1) _
          (λ e n. n) h₃ in
      (
        require_registry-set release (by_ok registered),
        with_context-Accepts "validating release version"
            (validate_release_version versions release.spec.version) v versioned,
        listed
            ∙ ap ok
                (check_no_release-empty client versions ops release existing (by_ok none_there)),
      )

  -- An update of a Release that the webhook admits leaves it with a registry and a version that
  -- parses; the Applied condition of the old one was absent, True, or gave the reason Failed; and if
  -- the old one had reached a version, then the comparison of the new version with it answers that
  -- the new one is greater.
  pub validate_update-admits :
      (old new : Release) (w : W)
      → Accepts (validate_update client versions ops old new w).0
      → ((new.spec.registry == "") ≡ false)
        × (is_settled (find_condition ops condition_applied old) ≡ true)
        × ((v : versions.Version) × (validate_release_version versions new.spec.version ≡ ok v)
            × (((old.status.version == "") ≡ true)
                ⊎ (versions.compare v old.status.version ≡ ok greater)))
  unfolding validate_update validate_no_upgrade_in_progress
  validate_update-admits old new w h =
      let (v, versioned, h₁) =
        bind-inv Accepts (validate_release_version versions new.spec.version, w) _ (λ e n. n) h in
      let (_, registered, h₂) = bind-inv Accepts (require_registry new, w) _ (λ e n. n) h₁ in
      let (_, settled, h₃) =
        bind-inv Accepts (validate_no_upgrade_in_progress ops old, w) _ (λ e n. n) h₂ in
      let (_, raised, h₄) =
        bind-inv Accepts (validate_increment versions old new v, w) _ (λ e n. n) h₃ in
      (
        require_registry-set new (by_ok registered),
        allow_edit-settled (find_condition ops condition_applied old) (by_ok settled),
        (v, versioned, validate_increment-raises versions old new v (by_ok raised)),
      )
