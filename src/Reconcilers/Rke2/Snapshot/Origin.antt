-- ===== src/Reconcilers/Rke2/Snapshot/Origin.antt =====
-- Where the snapshot of `GenerateSnapshot` in internal/upgrade/reconcilers/rke2_core.go comes from.
use Prim.Native.String.{◌++◌}
use elemental_lifecycle_mana.Prelude.{
  ℕ, zero, suc, String, true, false, Option, none, some, ◌≡◌, refl, ap, ◌⊎◌, inl, inr, lookup,
  eq_iff, eq_refl, Bool-cases, arith,
}
use elemental_lifecycle_mana.Api.{release_name_label, release_version_label}
use elemental_lifecycle_mana.Api.Sanitize.{sanitize_version}
use elemental_lifecycle_mana.Errors.{Error, is_not_found, Result, ok, err, M, settle, continue}
use elemental_lifecycle_mana.Errors.Laws.{Gives, Gives-ok, ok_of_Gives, in_context-inv}
use elemental_lifecycle_mana.Config.{Config}
use elemental_lifecycle_mana.Cluster.{ConfigMap, Client}
use elemental_lifecycle_mana.Helm.{HelmClient}
use elemental_lifecycle_mana.Reconcilers.Kubernetes.{ComponentsSnapshot}
use elemental_lifecycle_mana.Reconcilers.Rke2.Changes.{FindComponents}
use elemental_lifecycle_mana.Reconcilers.Rke2.Snapshot.{
  SnapshotLibs, blank_snapshot, label_is, must_recreate, parse_snapshot, create_snapshot,
  after_poll, poll_deleted, start_deletion, delete_snapshot_and_wait, create_and_parse,
  recreate_or_parse, snapshot_from, generate_snapshot,
}
use elemental_lifecycle_mana.Reconcilers.Rke2.Snapshot.Created.{
  IsCreated, create_snapshot-IsCreated,
}

-- The labels name the release and the version of the configuration.
abbrev pub BelongsTo : Config → ConfigMap → Type 0
BelongsTo config m =
    (lookup release_name_label m.labels ≡ some config.release_name)
    × (lookup release_version_label m.labels ≡ some (sanitize_version config.release_version))

label_is-some : (o : Option String) (s : String) → label_is o s ≡ true → o ≡ some s
label_is-some none s h = cc
label_is-some (some t) s h = ground (arith, eq_iff t s)

must_recreate-BelongsTo :
    (m : ConfigMap) (config : Config) → must_recreate m config ≡ false → BelongsTo config m
unfolding must_recreate
must_recreate-BelongsTo m config h = (
  label_is-some (lookup release_name_label m.labels) config.release_name (ground arith),
  label_is-some (lookup release_version_label m.labels) (sanitize_version config.release_version)
      (ground arith),
)

must_recreate-other :
    (m : ConfigMap) (config : Config) → must_recreate m config ≡ true → ¬ BelongsTo config m
unfolding must_recreate
must_recreate-other m config h (name, version) =
    ground (arith, eq_refl config.release_name, eq_refl (sanitize_version config.release_version))

module _ (libs : SnapshotLibs) {W : Type 0} (client : Client W) (helm : HelmClient W)
    (find : FindComponents W) where
  -- A read of the map with this name answered that there is none, and left the world `v`.
  abbrev pub IsGone : String → String → W → Type 0
  IsGone namespace name v =
      (u : W) × (e : Error) × (client.get_config_map namespace name u ≡ (err e, v))
      × (is_not_found e ≡ true)

  after_poll-IsGone :
      (namespace name : String) (rest : M W (Unit {0})) (w : W) (r : Result ConfigMap × W)
      → client.get_config_map namespace name w ≡ r
      → (Gives tt (rest r.1).0 → IsGone namespace name (rest r.1).1)
      → Gives tt (settle r (after_poll libs client helm find rest)).0
      → IsGone namespace name (settle r (after_poll libs client helm find rest)).1
  after_poll-IsGone namespace name rest w (ok found, v) e later h = later h
  after_poll-IsGone namespace name rest w (err d, v) e later h =
      elim (Bool-cases (is_not_found d)) [
        | inl missing ↦ rw missing (w, d, e, missing)
        | inr other ↦ absurd (ground arith)
      ]

  poll_deleted-IsGone :
      (m : ConfigMap) (left : ℕ) (w : W)
      → Gives tt (poll_deleted libs client helm find left m w).0
      → IsGone m.namespace m.name (poll_deleted libs client helm find left m w).1
  unfolding poll_deleted
  poll_deleted-IsGone m zero w h = absurd h
  poll_deleted-IsGone m (suc left) w h =
      let r = client.get_config_map m.namespace m.name w in
      after_poll-IsGone m.namespace m.name (poll_deleted libs client helm find left m) w r refl
        (λ later. poll_deleted-IsGone m left r.1 later) h

  -- The stored map is that of the release and the version of the configuration.
  abbrev pub IsKept : Config → W → ConfigMap → Type 0
  IsKept config w m =
      ((client.get_config_map (blank_snapshot config).namespace (blank_snapshot config).name w).0
        ≡ ok m)
      × BelongsTo config m

  -- There was no map, or one of another release or version, which is gone now.
  abbrev pub IsFreed : Config → W → W → Type 0
  IsFreed config w v =
      let read =
        client.get_config_map (blank_snapshot config).namespace (blank_snapshot config).name w in
      ((e : Error) × (read ≡ (err e, v)) × (is_not_found e ≡ true))
      ⊎ ((found : ConfigMap) × (read.0 ≡ ok found)
          × (¬ BelongsTo config found)
          × IsGone found.namespace found.name v)

  abbrev pub IsTaken : Config → W → ComponentsSnapshot → Type 0
  IsTaken config w s =
      (m : ConfigMap) × (parse_snapshot libs m ≡ ok s)
      × (IsKept config w m
          ⊎ ((v : W) × IsFreed config w v × IsCreated libs client helm find config v m))

  create_and_parse-IsCreated :
      (config : Config) (v : W) (s : ComponentsSnapshot)
      → Gives s (create_and_parse libs client helm find config v).0
      → (m : ConfigMap) × (parse_snapshot libs m ≡ ok s)
        × IsCreated libs client helm find config v m
  unfolding create_and_parse
  create_and_parse-IsCreated config v s h =
      let run = create_snapshot libs client helm find (blank_snapshot config) v in
      let (m, made, h₁) = in_context-inv (Gives s) _ run _ (λ e n. n) h in
      (
        m,
        ok_of_Gives s (parse_snapshot libs m) h₁,
        create_snapshot-IsCreated libs client helm find config v m (Gives-ok m run.0 made),
      )

  delete_snapshot_and_wait-IsGone :
      (m : ConfigMap) (w : W) (u : Unit {0})
      → (delete_snapshot_and_wait libs client helm find m w).0 ≡ ok u
      → IsGone m.namespace m.name (delete_snapshot_and_wait libs client helm find m w).1
  unfolding delete_snapshot_and_wait
  delete_snapshot_and_wait-IsGone m w u e =
      started (start_deletion libs client helm find m m.deletion_timestamp w) e
    where
      started :
          (r : Result (Unit {0}) × W)
          → (continue r (λ _. poll_deleted libs client helm find libs.polls m)).0 ≡ ok u
          → IsGone m.namespace m.name
              (continue r (λ _. poll_deleted libs client helm find libs.polls m)).1
      started (ok _, v) done = poll_deleted-IsGone m libs.polls v (Gives-ok tt _ done)
      started (err d, v) done = cc

  recreate_or_parse-IsTaken :
      (config : Config) (w v : W) (found : ConfigMap) (s : ComponentsSnapshot)
      → client.get_config_map (blank_snapshot config).namespace (blank_snapshot config).name w
        ≡ (ok found, v)
      → Gives s (recreate_or_parse libs client helm find config found v).0
      → IsTaken config w s
  unfolding recreate_or_parse
  recreate_or_parse-IsTaken config w v found s read h =
      elim (Bool-cases (must_recreate found config)) [
        | inl other ↦
            let deleted = delete_snapshot_and_wait libs client helm find found v in
            let (u, gone, h₁) =
              in_context-inv (Gives s) ("waiting for snapshot " ++ (found.name ++ " deletion"))
                deleted (λ _. create_and_parse libs client helm find config) (λ e n. n)
                (ground arith) in
            let (m, parsed, created) = create_and_parse-IsCreated config deleted.1 s h₁ in
            (
              m,
              parsed,
              inr (
                deleted.1,
                inr (
                  found,
                  ap (λ r. r.0) read,
                  must_recreate-other found config other,
                  delete_snapshot_and_wait-IsGone found v u gone,
                ),
                created,
              ),
            )
        | inr same ↦ (
          found,
          ok_of_Gives s (parse_snapshot libs found) (ground arith),
          inl (ap (λ r. r.0) read, must_recreate-BelongsTo found config same),
        )
      ]

  -- When the handler answers with a snapshot, it is the content of the stored map, whose labels name
  -- the release and the version that are upgraded to; or it is the content of what was read right
  -- after a map with these labels was created, with the version of Kubernetes of the first node that
  -- was listed, and before that there was no map, or one with other labels was read as gone.
  pub generate_snapshot-IsTaken :
      (config : Config) (w : W) (s : ComponentsSnapshot)
      → (generate_snapshot libs client helm find config w).0 ≡ ok s
      → IsTaken config w s
  unfolding generate_snapshot snapshot_from
  generate_snapshot-IsTaken config w s e =
      answered
        (client.get_config_map (blank_snapshot config).namespace (blank_snapshot config).name w)
        refl (Gives-ok s (generate_snapshot libs client helm find config w).0 e)
    where
      answered :
          (r : Result ConfigMap × W)
          → client.get_config_map (blank_snapshot config).namespace (blank_snapshot config).name w
            ≡ r
          → Gives s (snapshot_from libs client helm find config r.0 r.1).0
          → IsTaken config w s
      answered (ok found, v) read h = recreate_or_parse-IsTaken config w v found s read h
      answered (err d, v) read h = elim (Bool-cases (is_not_found d)) [
        | inl missing ↦
            let (m, parsed, created) = create_and_parse-IsCreated config v s (ground arith) in
            (m, parsed, inr (v, inl (d, read, missing), created))
        | inr other ↦ absurd (ground arith)
      ]
