-- ===== src/Reconcilers/Rke2/Snapshot/Unchanged.antt =====
-- Components that did not change since their snapshot, in internal/upgrade/reconcilers/rke2_core.go.
use mathlib.Core.List.{map-append, append-nil, append_assoc}
use elemental_lifecycle_mana.Prelude.{
  String, Bool, false, none, some, List, [], ◌∷◌, ◌++◌, ◌≡◌, inl, inr, Bool-cases, refl, sym, subst,
  ap, ◌∙◌, ◌==◌, keep, map, lookup, StoredAs, eq_iff, text_at, All, arith,
}
use elemental_lifecycle_mana.Errors.{Result, ok, err}
use elemental_lifecycle_mana.Errors.Laws.{then_with-inv}
use elemental_lifecycle_mana.Cluster.{HelmChart, ConfigMap, Client}
use elemental_lifecycle_mana.Helm.{HelmClient}
use elemental_lifecycle_mana.Reconcilers.Kubernetes.{ChartSnapshot, ComponentsSnapshot}
use elemental_lifecycle_mana.Reconcilers.Rke2.Changes.{
  Charts, FindComponents, SnapshotPair, Found, chart_url_annotation, index_snapshots,
  chart_state_changed, note_component, scan_components, find_new_or_changed,
}
use elemental_lifecycle_mana.Reconcilers.Rke2.Snapshot.{
  SnapshotLibs, parse_charts, parse_snapshot, record_charts,
}
use elemental_lifecycle_mana.Reconcilers.Rke2.Snapshot.Stored.{
  KeyedByName, IsSnapshotOf, AllEntries, IsStoredText, record_charts-stores,
}
use elemental_lifecycle_mana.Reconcilers.Rke2.Snapshot.ReadBack.{
  HasSnapshot, index_snapshots-stored, read_back, All-lookup,
}

charts_in : Result ComponentsSnapshot → List ChartSnapshot
charts_in (ok s) = s.charts
charts_in (err e) = []

abbrev pub charts_of : List SnapshotPair → List HelmChart
charts_of ps = map (λ p. p.chart) ps

abbrev pub has_no_content : HelmChart → Bool
has_no_content chart = chart.chart_content == ""

-- The pairs that were found are of these components, in this order.
abbrev pub Reports : List HelmChart → Result (List SnapshotPair) → Type 0
Reports cs (ok pairs) = charts_of pairs ≡ cs
Reports cs (err e) = ⊥

module _ (libs : SnapshotLibs) where
  keep-cons :
      (chart : HelmChart) (charts : List HelmChart)
      → (keep has_no_content (chart ∷ []) ++ keep has_no_content charts)
        ≡ keep has_no_content (chart ∷ charts)
  keep-cons chart charts = ground arith

  module _ (no_empty_hash : (libs.hash "" == "") ≡ false) where
    chart_state_changed-IsSnapshotOf :
        (chart : HelmChart) (s : ChartSnapshot)
        → IsSnapshotOf libs chart s
        → chart_state_changed libs.hash chart s ≡ (chart.chart_content == "")
    unfolding chart_state_changed
    chart_state_changed-IsSnapshotOf chart s (named, url, sha) = ground (
      arith,
      eq_iff chart.chart_content "",
      eq_iff (libs.hash chart.chart_content) s.chart_content_sha,
      eq_iff (libs.hash "") "",
      eq_iff (text_at chart_url_annotation chart.annotations) s.chart_url,
    )

    note_component-changed :
        (f : Found) (chart : HelmChart) (s : ChartSnapshot)
        → IsSnapshotOf libs chart s
        → (charts_of (note_component libs.hash f chart (some s)).changed
            ≡ (charts_of f.changed ++ keep has_no_content (chart ∷ [])))
          × ((note_component libs.hash f chart (some s)).new ≡ f.new)
    unfolding note_component
    note_component-changed f chart s snap =
        rw (chart_state_changed-IsSnapshotOf chart s snap)
          (elim (Bool-cases (chart.chart_content == "")) [
            | inl e ↦ rw e (map-append (λ p. p.chart) f.changed _, refl)
            | inr e ↦ rw e (sym (append-nil _), refl)
          ])

    -- What the loop reports: the components without content as changed, none as new.
    abbrev Reported : Found → Charts → Found → Type 0
    Reported before charts found =
        (charts_of found.changed
          ≡ (charts_of before.changed ++ keep has_no_content (map (λ entry. entry.1) charts)))
        × (found.new ≡ before.new)

    scan_components-unchanged :
        (snapshots : List (String × ChartSnapshot)) (f : Found) (charts : Charts)
        → All (λ entry. HasSnapshot libs snapshots entry.0 entry.1) charts
        → Reported f charts (scan_components libs.hash snapshots f charts)
    unfolding scan_components
    scan_components-unchanged snapshots f [] h = (sym (append-nil _), refl)
    scan_components-unchanged snapshots f ((name, chart) ∷ charts) ((s, found, snap), h) =
        let f' = note_component libs.hash f chart (some s) in
        let (changed, new) = note_component-changed f chart s snap in
        let (later_changed, later_new) = scan_components-unchanged snapshots f' charts h in
        subst
          (λ o.
            Reported f ((name, chart) ∷ charts)
              (scan_components libs.hash snapshots (note_component libs.hash f chart o) charts))
          (sym found)
          (
            later_changed
                ∙ ap (λ (cs : List HelmChart). cs ++ keep has_no_content (map (λ e. e.1) charts))
                    changed
                ∙ append_assoc (charts_of f.changed) _ _
                ∙ ap (λ (cs : List HelmChart). charts_of f.changed ++ cs)
                    (keep-cons chart (map (λ e. e.1) charts)),
            later_new ∙ new,
          )

    find_new_or_changed-scan :
        {W : Type 0} (find : FindComponents W) (ss : List ChartSnapshot) (charts : Charts) (w v : W)
        → find w ≡ (ok charts, v)
        → All (λ entry. HasSnapshot libs (index_snapshots [] ss) entry.0 entry.1) charts
        → Reports
            (keep has_no_content (map (λ entry. entry.1) charts))
            (find_new_or_changed libs.hash find ss w).0
    unfolding find_new_or_changed
    find_new_or_changed-scan find ss charts w v e h =
        let (changed, new) =
          scan_components-unchanged (index_snapshots [] ss) (record { changed = []; new = [] })
            charts h in
        rw e (rw new (ap charts_of (append-nil _) ∙ changed))

    module _
        (decode_encode : (s : ChartSnapshot) (text : String)
          → libs.encode s ≡ ok text
          → libs.decode text ≡ ok s)
        {W : Type 0} (client : Client W) (helm : HelmClient W) (find : FindComponents W) where
      -- If the hash of the empty text is not empty and JSON gives back what was stored: of components
      -- that are the same as when their snapshot was stored into an empty map, those that have no
      -- chart content are reported as new or changed, and no others.
      pub snapshot-Reports :
          (charts : Charts) (m full : ConfigMap) (s : ComponentsSnapshot) (w u v : W)
          → KeyedByName charts
          → m.entries ≡ []
          → (record_charts libs client helm find charts m w).0 ≡ ok full
          → parse_snapshot libs full ≡ ok s
          → find u ≡ (ok charts, v)
          → Reports
              (keep has_no_content (map (λ entry. entry.1) charts))
              (find_new_or_changed libs.hash find s.charts u).0
      unfolding parse_snapshot lookup charts_in
      snapshot-Reports charts m full s w u v keyed blank recorded parsed found =
          let empty_map : AllEntries libs m.entries =
            subst (λ (es : List (String × String)). AllEntries libs es) (sym blank) tt in
          let (entries, stored) =
            record_charts-stores libs client helm find decode_encode charts m full w keyed empty_map
              recorded in
          let (ss, read, made) = then_with-inv (parse_charts libs full.entries) _ s parsed in
          let same : ss ≡ s.charts = ap (λ (r : Result ComponentsSnapshot). charts_in r) made in
          let none_before : (name : String) → lookup name m.entries ≡ none =
            λ name. ap (λ (es : List (String × String)). lookup name es) blank in
          find_new_or_changed-scan find s.charts charts u v found (
            subst
              (λ (ss : List ChartSnapshot).
                All (λ entry. HasSnapshot libs (index_snapshots [] ss) entry.0 entry.1) charts)
              same
              (All-lookup libs (HasSnapshot libs (index_snapshots [] ss)) charts keyed
                (λ name chart at_name.
                  read_back libs (index_snapshots [] ss) name chart (lookup name charts)
                    (lookup name full.entries) decode_encode at_name
                    (subst
                      (λ o.
                        StoredAs (IsStoredText libs) (lookup name charts) o
                          (lookup name full.entries))
                      (none_before name) (stored name))
                    (index_snapshots-stored libs full.entries ss [] entries read name))))
