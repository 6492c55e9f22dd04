-- ===== src/Startup/Order.antt =====
-- What cmd/main.go has set up when the manager starts.
use elemental_lifecycle_mana.Prelude.{String, true, arith, ◌≡◌, ◌⊎◌, inl, inr, ◌==◌, Bool-cases}
use elemental_lifecycle_mana.Errors.{ok}
use elemental_lifecycle_mana.Errors.Laws.{bind-inv}
use elemental_lifecycle_mana.Webhook.Admission.{Accepts}
use elemental_lifecycle_mana.Helm.Storage.{Storage, storage_client, new_client}
use elemental_lifecycle_mana.Cluster.{Client}
use elemental_lifecycle_mana.Reconcilers.Rke2.Snapshot.{SnapshotLibs}
use elemental_lifecycle_mana.Startup.Options.{Flags, manager_options}
use elemental_lifecycle_mana.Startup.{
  Runtime, packaged_components_handler, setup_webhook_unless_disabled, run_manager, main,
}

module _ {W Config Clientset : Type 0} (runtime : Runtime W Config Clientset) (libs : SnapshotLibs)
    (client : Client W) where
  -- In the world `w` the version of the cluster is asked for; then the controller is set up with the
  -- handler for it, the webhook is registered unless it is disabled, the two checks are added, and
  -- the manager starts, each in the world that the step before it left.
  abbrev pub StartsFrom : Storage W → W → Type 0
  StartsFrom storage w =
      let asked = runtime.server_version w in
      (version : String) × (asked.0 ≡ ok version)
      × (let helm = storage_client storage in
          let handler = packaged_components_handler libs client helm version in
          let controlled = runtime.setup_controller helm handler asked.1 in
          let guarded = setup_webhook_unless_disabled runtime libs client controlled.1 in
          let healthy = runtime.add_healthz_check guarded.1 in
          let ready = runtime.add_readyz_check healthy.1 in
          (controlled.0 ≡ ok tt)
          × (((runtime.enable_webhooks == "false") ≡ true)
              ⊎ ((runtime.setup_webhook controlled.1).0 ≡ ok tt))
          × (healthy.0 ≡ ok tt)
          × (ready.0 ≡ ok tt)
          × Accepts (runtime.start ready.1).0)

  setup_webhook-done :
      (w : W) (u : Unit {0})
      → (setup_webhook_unless_disabled runtime libs client w).0 ≡ ok u
      → ((runtime.enable_webhooks == "false") ≡ true) ⊎ ((runtime.setup_webhook w).0 ≡ ok tt)
  setup_webhook-done w u e = elim (Bool-cases (runtime.enable_webhooks == "false")) [
    | inl off ↦ inl off
    | inr on ↦ inr (ground arith)
  ]

  run_manager-StartsFrom :
      (storage : Storage W) (w : W)
      → Accepts (run_manager runtime libs client storage w).0
      → StartsFrom storage (runtime.new_discovery_client w).1
  run_manager-StartsFrom storage w h =
      let helm = storage_client storage in
      let (_, _, h₁) = bind-inv Accepts (runtime.new_discovery_client w) _ (λ e n. n) h in
      let w₁ = (runtime.new_discovery_client w).1 in
      let (version, asked, h₂) = bind-inv Accepts (runtime.server_version w₁) _ (λ e n. n) h₁ in
      let handler = packaged_components_handler libs client helm version in
      let controlled = runtime.setup_controller helm handler (runtime.server_version w₁).1 in
      let (_, set_up, h₃) = bind-inv Accepts controlled _ (λ e n. n) h₂ in
      let guarded = setup_webhook_unless_disabled runtime libs client controlled.1 in
      let (u, registered, h₄) = bind-inv Accepts guarded _ (λ e n. n) h₃ in
      let (_, healthy, h₅) =
        bind-inv Accepts (runtime.add_healthz_check guarded.1) _ (λ e n. n) h₄ in
      let (_, ready, h₆) =
        bind-inv Accepts (runtime.add_readyz_check (runtime.add_healthz_check guarded.1).1) _
          (λ e n. n) h₅ in
      (version, asked, (set_up, setup_webhook-done controlled.1 u registered, healthy, ready, h₆))

  -- When `main` ends without an error, the client of Helm was created, the version of the cluster
  -- was asked for, the controller was set up with the handler of packaged components for that
  -- version, the webhook was registered unless ENABLE_WEBHOOKS is "false", and both checks were
  -- added, all before the manager was started, each in the world that the step before it left.
  pub main-StartsFrom :
      (flags : Flags) (w : W)
      → Accepts (main runtime libs client flags w).0
      → let managed = runtime.new_manager (manager_options flags) w in
        let created = new_client runtime.storage_libs managed.1 in
        (managed.0 ≡ ok tt)
        × ((storage : Storage W) × (created.0 ≡ ok storage)
            × StartsFrom storage (runtime.new_discovery_client created.1).1)
  unfolding main
  main-StartsFrom flags w h =
      let managed = runtime.new_manager (manager_options flags) w in
      let (_, ready, h₁) = bind-inv Accepts managed _ (λ e n. n) h in
      let (storage, created, h₂) =
        bind-inv Accepts (new_client runtime.storage_libs managed.1) _ (λ e n. n) h₁ in
      (ready, (storage, created, run_manager-StartsFrom storage _ h₂))
