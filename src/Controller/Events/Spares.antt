-- ===== src/Controller/Events/Spares.antt =====
-- `cleanupOldVersionPlans` of internal/controller/release_controller.go beside the plans that the
-- phases prepare.
use elemental_lifecycle_mana.Prelude.{
  String, false, some, List, [], ◌∷◌, ◌≡◌, ◌≢◌, sym, ap, subst, ◌∙◌, ◌==◌, lookup, All, eq_iff,
  arith, ◌⊎◌, inl, inr,
}
use elemental_lifecycle_mana.Api.{release_version_label}
use elemental_lifecycle_mana.Api.Sanitize.{sanitize_version}
use elemental_lifecycle_mana.Errors.{Result, ok, err}
use elemental_lifecycle_mana.Config.{Config, OsConfig, KubernetesConfig, Tag}
use elemental_lifecycle_mana.Cluster.{Plan, Client, Labels}
use elemental_lifecycle_mana.Plan.{
  plan_namespace, release_labels, kubernetes_control_plane, kubernetes_worker, os_control_plane,
  os_worker,
}
use elemental_lifecycle_mana.Reconcilers.Os.{prepare_os_plans}
use elemental_lifecycle_mana.Reconcilers.Kubernetes.{prepare_kubernetes_plans}
use elemental_lifecycle_mana.Controller.Events.{cleanup_old_version_plans}
use elemental_lifecycle_mana.Controller.Events.Cleanup.{
  old_labels, world_after_deletes, cleanup_old_version_plans-tries_all,
}

abbrev LabelledAs : Labels → Result (List Plan) → Type 0
LabelledAs labels (ok qs) = All (λ q. q.labels ≡ labels) qs
LabelledAs labels (err e) = Unit

-- What the selector of a list call documents.
abbrev pub CarriesAll : Labels → Plan → Type 0
CarriesAll labels p = All (λ l. lookup l.0 p.labels ≡ some l.1) labels

some-inv : {A : Type 0} (a b : A) → some a ≡ some b → a ≡ b
some-inv a b e = cc

module _ {W : Type 0} (client : Client W) (new_tag : String → Result Tag) (env : String) where
  prepare_os_plans-LabelledAs :
      (config : Config) (c : OsConfig) (w : W)
      → LabelledAs
          (release_labels config.release_name config.release_version)
          (prepare_os_plans client new_tag env config c w).0
  unfolding prepare_os_plans os_control_plane os_worker
  prepare_os_plans-LabelledAs config c w = grind arith

  prepare_kubernetes_plans-LabelledAs :
      (config : Config) (k8s : KubernetesConfig) (w : W)
      → LabelledAs
          (release_labels config.release_name config.release_version)
          (prepare_kubernetes_plans client config k8s w).0
  unfolding prepare_kubernetes_plans kubernetes_control_plane kubernetes_worker
  prepare_kubernetes_plans-LabelledAs config k8s w = grind arith

  -- Plans that one of the phases prepares for the configuration.
  abbrev pub IsPrepared : Config → List Plan → Type 0
  IsPrepared config qs =
      ((c : OsConfig) × (u : W) × ((prepare_os_plans client new_tag env config c u).0 ≡ ok qs))
      ⊎ ((k8s : KubernetesConfig) × (u : W) × ((prepare_kubernetes_plans client config k8s u).0
            ≡ ok qs))

  IsPrepared-LabelledAs :
      (config : Config) (qs : List Plan)
      → IsPrepared config qs
      → LabelledAs (release_labels config.release_name config.release_version) (ok qs)
  IsPrepared-LabelledAs config qs (inl (c, u, e)) =
      subst (LabelledAs (release_labels config.release_name config.release_version)) e
        (prepare_os_plans-LabelledAs config c u)
  IsPrepared-LabelledAs config qs (inr (k8s, u, e)) =
      subst (LabelledAs (release_labels config.release_name config.release_version)) e
        (prepare_kubernetes_plans-LabelledAs config k8s u)

  -- A plan of a version does not have the labels of one whose version is sanitized differently.
  labels-differ :
      (name old new : String) (p q : Plan)
      → (sanitize_version old == sanitize_version new) ≡ false
      → CarriesAll (old_labels client name old) p
      → q.labels ≡ release_labels name new
      → p.labels ≢ q.labels
  unfolding release_labels lookup
  labels-differ name old new p q differ (is_release, (is_version, end)) labelled same =
      let at_version : lookup release_version_label p.labels ≡ some (sanitize_version new) =
        ap (λ (ls : Labels). lookup release_version_label ls) (same ∙ labelled) in
      absurd (
        ground (
          arith,
          some-inv (sanitize_version old) (sanitize_version new) (sym is_version ∙ at_version),
          eq_iff (sanitize_version old) (sanitize_version new),
        ))

  plan-differs :
      (name old new : String) (p : Plan) (qs : List Plan)
      → (sanitize_version old == sanitize_version new) ≡ false
      → CarriesAll (old_labels client name old) p
      → LabelledAs (release_labels name new) (ok qs)
      → All (λ q. p.labels ≢ q.labels) qs
  plan-differs name old new p [] differ carries labelled = tt
  plan-differs name old new p (q ∷ qs) differ carries (labelled, rest) = (
    labels-differ name old new p q differ carries labelled,
    plan-differs name old new p qs differ carries rest,
  )

  plans-differ :
      (name old new : String) (ps qs : List Plan)
      → (sanitize_version old == sanitize_version new) ≡ false
      → All (CarriesAll (old_labels client name old)) ps
      → LabelledAs (release_labels name new) (ok qs)
      → All (λ p. All (λ q. p.labels ≢ q.labels) qs) ps
  plans-differ name old new [] qs differ carries labelled = tt
  plans-differ name old new (p ∷ ps) qs differ (carries, rest) labelled = (
    plan-differs name old new p qs differ carries labelled,
    plans-differ name old new ps qs differ rest labelled,
  )

  -- If the list call answers with plans that carry the labels asked for: the clean-up of an old
  -- version, whose sanitized form differs from that of the version that is upgraded to, deletes these
  -- plans in turn and nothing else, and none of them has the labels of a plan that the phases for the
  -- operating system or for Kubernetes prepare.
  pub cleanup_old_version_plans-spares :
      (config : Config) (old : String) (ps qs : List Plan) (w v : W)
      → (sanitize_version old == sanitize_version config.release_version) ≡ false
      → client.list_plans plan_namespace (old_labels client config.release_name old) w ≡ (ok ps, v)
      → All (CarriesAll (old_labels client config.release_name old)) ps
      → IsPrepared config qs
      → ((cleanup_old_version_plans client config.release_name old w).1
          ≡ world_after_deletes client ps v)
        × All (λ p. All (λ q. p.labels ≢ q.labels) qs) ps
  cleanup_old_version_plans-spares config old ps qs w v differ listed carries prepared = (
    (cleanup_old_version_plans-tries_all client config.release_name old ps w v listed).0,
    plans-differ config.release_name old config.release_version ps qs differ carries
        (IsPrepared-LabelledAs config qs prepared),
  )
