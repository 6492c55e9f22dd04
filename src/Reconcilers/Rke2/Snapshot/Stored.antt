-- ===== src/Reconcilers/Rke2/Snapshot/Stored.antt =====
-- What the snapshot of internal/upgrade/reconcilers/rke2_core.go stores of each component, and what
-- is read of it again.
use Prim.Native.String.{◌++◌}
use elemental_lifecycle_mana.Prelude.{
  String, none, List, [], ◌∷◌, ◌≡◌, refl, sym, subst, ap, ◌∙◌, inl, inr, ◌==◌, Bool-cases, lookup,
  insert, lookup-insert, StoredAs, StoredAs-first, eq_iff, text_at, if◌then◌else◌, arith,
}
use elemental_lifecycle_mana.Phase.Names.{quote}
use elemental_lifecycle_mana.Errors.{Result, ok, with_context}
use elemental_lifecycle_mana.Errors.Laws.{in_context-inv, bind-inv, with_context-inv}
use elemental_lifecycle_mana.Cluster.{HelmChart, ConfigMap, Client}
use elemental_lifecycle_mana.Helm.{HelmClient}
use elemental_lifecycle_mana.Reconcilers.Kubernetes.{ChartSnapshot}
use elemental_lifecycle_mana.Reconcilers.Rke2.Changes.{Charts, FindComponents, chart_url_annotation}
use elemental_lifecycle_mana.Reconcilers.Rke2.Snapshot.{
  SnapshotLibs, create_chart_snapshot, record_charts,
}

-- The map of components has each of them once, under its name.
abbrev pub KeyedByName : Charts → Type 0
KeyedByName [] = Unit
KeyedByName ((key, chart) ∷ charts) =
    (key ≡ chart.name) × (lookup key charts ≡ none) × KeyedByName charts

module _ (libs : SnapshotLibs) where
  -- The part of a component that its snapshot is compared by.
  abbrev pub IsSnapshotOf : HelmChart → ChartSnapshot → Type 0
  IsSnapshotOf chart s =
      (s.name ≡ chart.name)
      × (s.chart_url ≡ text_at chart_url_annotation chart.annotations)
      × (s.chart_content_sha
          ≡ (if chart.chart_content == "" then "" else libs.hash chart.chart_content))

  -- An entry of the stored map: a text that decodes as a snapshot of that name.
  abbrev pub IsEntry : String → String → Type 0
  IsEntry key text = (s : ChartSnapshot) × (libs.decode text ≡ ok s) × (s.name ≡ key)

  abbrev pub AllEntries : List (String × String) → Type 0
  AllEntries [] = Unit
  AllEntries ((key, text) ∷ entries) =
      (lookup key entries ≡ none) × IsEntry key text × AllEntries entries

  insert-AllEntries :
      (key text : String) (entries : List (String × String))
      → IsEntry key text
      → AllEntries entries
      → AllEntries (insert key text entries)
  unfolding insert lookup
  insert-AllEntries key text [] entry h = (refl, entry, tt)
  insert-AllEntries key text ((j, u) ∷ entries) entry (fresh, old, h) =
      elim (Bool-cases (j == key)) [
        | inl e ↦ rw e (rw (← (eq_iff j key).0 e) fresh, entry, h)
        | inr e ↦ rw e (
          lookup-insert key j text entries ∙ ground (arith, eq_iff key j, eq_iff j key),
          old,
          insert-AllEntries key text entries entry h,
        )
      ]

  -- A text that stands for the snapshot of a component.
  abbrev pub IsStoredText : HelmChart → String → Type 0
  IsStoredText chart text = (s : ChartSnapshot) × IsSnapshotOf chart s × (libs.encode s ≡ ok text)

  module _ {W : Type 0} (client : Client W) (helm : HelmClient W) (find : FindComponents W) where
    create_chart_snapshot-IsSnapshotOf :
        (chart : HelmChart) (w : W) (s : ChartSnapshot)
        → (create_chart_snapshot libs client helm find chart w).0 ≡ ok s
        → IsSnapshotOf chart s
    unfolding create_chart_snapshot
    create_chart_snapshot-IsSnapshotOf chart w s e =
        let (info, found, same) =
          in_context-inv (λ (r : Result ChartSnapshot). r ≡ ok s)
            ("retrieving Helm release " ++ quote chart.name) (helm.retrieve_release chart.name w) _
            (λ d x. cc) e in
        ground arith

    -- `json.Unmarshal` gives back what `json.Marshal` was given.
    module _
        (decode_encode : (s : ChartSnapshot) (text : String)
          → libs.encode s ≡ ok text
          → libs.decode text ≡ ok s) where
      pub record_charts-stores :
          (charts : Charts) (m full : ConfigMap) (w : W)
          → KeyedByName charts
          → AllEntries m.entries
          → (record_charts libs client helm find charts m w).0 ≡ ok full
          → AllEntries full.entries
            × ((name : String)
                → StoredAs IsStoredText
                    (lookup name charts)
                    (lookup name m.entries)
                    (lookup name full.entries))
      unfolding record_charts lookup
      record_charts-stores [] m full w keyed h e =
          let same : m ≡ full = cc in
          (
            subst (λ (n : ConfigMap). AllEntries n.entries) same h,
            λ name. ap (λ (n : ConfigMap). lookup name n.entries) (sym same),
          )
      record_charts-stores ((key, chart) ∷ charts) m full w (named, fresh, keyed) h e =
          let (s, created, e₁) =
            in_context-inv (λ (r : Result ConfigMap). r ≡ ok full)
              ("parsing fingerprint from HelmChart " ++ quote chart.name)
              (create_chart_snapshot libs client helm find chart w) _ (λ d x. cc) e in
          let w₁ = (create_chart_snapshot libs client helm find chart w).1 in
          let (text, marshalled, e₂) =
            bind-inv (λ (r : Result ConfigMap). r ≡ ok full)
              (
                with_context ("marshaling RKE2 HelmChart " ++ (quote chart.name ++ " fingerprint"))
                    (libs.encode s),
                w₁,
              )
              _ (λ d x. cc) e₁ in
          let encoded = with_context-inv _ (libs.encode s) text marshalled in
          let snap = create_chart_snapshot-IsSnapshotOf chart w s created in
          let entry : IsEntry chart.name text = (s, decode_encode s text encoded, snap.0) in
          let (all_entries, recorded) =
            record_charts-stores charts (record m { entries = insert chart.name text m.entries })
              full w₁ keyed (insert-AllEntries chart.name text m.entries entry h) e₂ in
          (
            all_entries,
            λ name.
                StoredAs-first IsStoredText key name chart text charts m.entries
                  (lookup name full.entries) (s, snap, encoded) fresh (rw named (recorded name)),
          )
