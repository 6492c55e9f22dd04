-- ===== src/Reconcilers/Rke2/Snapshot/Created.antt =====
-- The map that `createSnapshot` in internal/upgrade/reconcilers/rke2_core.go creates.
use elemental_lifecycle_mana.Prelude.{
  String, some, List, [], ◌∷◌, ◌≡◌, refl, sym, ap, subst, ◌∙◌, lookup, insert,
}
use elemental_lifecycle_mana.Plan.{release_labels}
use elemental_lifecycle_mana.Errors.{ok, with_context}
use elemental_lifecycle_mana.Errors.Laws.{
  Gives, Gives-ok, Gives-with_context, bind-inv, in_context-inv,
}
use elemental_lifecycle_mana.Config.{Config}
use elemental_lifecycle_mana.Cluster.{Node, ConfigMap, Client}
use elemental_lifecycle_mana.Helm.{HelmClient}
use elemental_lifecycle_mana.Reconcilers.Rke2.Changes.{Charts, FindComponents}
use elemental_lifecycle_mana.Reconcilers.Rke2.Snapshot.{
  SnapshotLibs, source_annotation, blank_snapshot, record_charts, populate_snapshot, first_version,
  create_snapshot, create_chart_snapshot,
}

module _ (libs : SnapshotLibs) {W : Type 0} (client : Client W) (helm : HelmClient W)
    (find : FindComponents W) where
  first_version-cons :
      (nodes : List Node) (version : String)
      → first_version libs client helm find nodes ≡ ok version
      → (n : Node) × (ns : List Node) × (nodes ≡ n ∷ ns) × (n.kubelet_version ≡ version)
  first_version-cons [] version e = cc
  first_version-cons (n ∷ ns) version e = (n, ns, refl, cc)

  -- A map was created in the world `u` with the labels of the release and the version of Kubernetes
  -- of the first node that was listed, and `m` is what was read under its name right after.
  abbrev pub IsCreated : Config → W → ConfigMap → Type 0
  IsCreated config v m =
      let listed = client.list_first_node v in
      (n : Node) × (ns : List Node) × (full : ConfigMap) × (u : W) × (listed.0 ≡ ok (n ∷ ns))
      × (full.name ≡ (blank_snapshot config).name)
      × (full.namespace ≡ (blank_snapshot config).namespace)
      × (full.labels ≡ release_labels config.release_name config.release_version)
      × (lookup source_annotation full.annotations ≡ some n.kubelet_version)
      × (let created = client.create_config_map full u in
          (created.0 ≡ ok tt)
          × ((client.get_config_map (blank_snapshot config).namespace (blank_snapshot config).name
                created.1).0
              ≡ ok m))

  -- All but the entries.
  abbrev SameHead : ConfigMap → ConfigMap → Type 0
  SameHead m full =
      (full.name ≡ m.name)
      × (full.namespace ≡ m.namespace)
      × (full.labels ≡ m.labels)
      × (full.annotations ≡ m.annotations)

  record_charts-SameHead :
      (charts : Charts) (m full : ConfigMap) (w : W)
      → Gives full (record_charts libs client helm find charts m w).0
      → SameHead m full
  unfolding record_charts
  record_charts-SameHead [] m full w h = subst (λ f. SameHead m f) h (refl, refl, refl, refl)
  record_charts-SameHead ((key, chart) ∷ charts) m full w h =
      let (s, made, h₁) =
        in_context-inv (Gives full) _ (create_chart_snapshot libs client helm find chart w) _
          (λ e n. n) h in
      let (text, written, h₂) =
        bind-inv (Gives full)
          (with_context _ (libs.encode s), (create_chart_snapshot libs client helm find chart w).1)
          _ (λ e n. n) h₁ in
      record_charts-SameHead charts (record m { entries = insert chart.name text m.entries }) full
        (create_chart_snapshot libs client helm find chart w).1 h₂

  populate_snapshot-SameHead :
      (m full : ConfigMap) (w : W)
      → Gives full (populate_snapshot libs client helm find m w).0
      → SameHead m full
  unfolding populate_snapshot
  populate_snapshot-SameHead m full w h =
      let (charts, found, h₁) = in_context-inv (Gives full) _ (find w) _ (λ e n. n) h in
      record_charts-SameHead charts m full (find w).1 h₁

  pub create_snapshot-IsCreated :
      (config : Config) (v : W) (m : ConfigMap)
      → Gives m (create_snapshot libs client helm find (blank_snapshot config) v).0
      → IsCreated config v m
  unfolding create_snapshot blank_snapshot lookup insert
  create_snapshot-IsCreated config v m h =
      let listed = client.list_first_node v in
      let (nodes, found, h₁) = in_context-inv (Gives m) "listing node" listed _ (λ e n. n) h in
      let (version, first, h₂) =
        bind-inv (Gives m) (first_version libs client helm find nodes, listed.1) _ (λ e n. n) h₁ in
      let (n, ns, same, at_version) = first_version-cons nodes version first in
      let blank : ConfigMap = blank_snapshot config in
      let tpl : ConfigMap = record blank {
        annotations = insert source_annotation version blank.annotations;
      } in
      let populated = populate_snapshot libs client helm find tpl listed.1 in
      let (full, filled, h₃) =
        in_context-inv (Gives m) "populating RKE2 packaged components snapshot" populated _
          (λ e n. n) h₂ in
      let (u, created, h₄) =
        in_context-inv (Gives m) _ (client.create_config_map full populated.1) _ (λ e n. n) h₃ in
      let (name, namespace, labels, annotations) =
        populate_snapshot-SameHead tpl full listed.1 (Gives-ok full populated.0 filled) in
      (
        n,
        ns,
        full,
        populated.1,
        found ∙ ap ok same,
        name,
        namespace,
        labels,
        ap (λ (a : List (String × String)). lookup source_annotation a) annotations
            ∙ ap some (sym at_version),
        (
          created,
          Gives-with_context _ m
              (client.get_config_map blank.namespace blank.name
                (client.create_config_map full populated.1).1).0
              h₄,
        ),
      )
