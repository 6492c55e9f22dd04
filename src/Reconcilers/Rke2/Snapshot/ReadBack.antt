-- ===== src/Reconcilers/Rke2/Snapshot/ReadBack.antt =====
-- What is found again in a stored snapshot of internal/upgrade/reconcilers/rke2_core.go.
use elemental_lifecycle_mana.Prelude.{
  String, Option, none, some, List, [], ◌∷◌, ◌≡◌, refl, subst, ap, ◌∙◌, lookup, insert, StoredAs,
  StoredAs-first, eq_iff, eq_refl, All, arith,
}
use elemental_lifecycle_mana.Errors.{ok, with_context}
use elemental_lifecycle_mana.Errors.Laws.{with_context-inv, then_with-inv}
use elemental_lifecycle_mana.Cluster.{HelmChart}
use elemental_lifecycle_mana.Reconcilers.Kubernetes.{ChartSnapshot}
use elemental_lifecycle_mana.Reconcilers.Rke2.Changes.{Charts, index_snapshots}
use elemental_lifecycle_mana.Reconcilers.Rke2.Snapshot.{SnapshotLibs, parse_charts}
use elemental_lifecycle_mana.Reconcilers.Rke2.Snapshot.Stored.{
  KeyedByName, IsSnapshotOf, AllEntries, IsStoredText,
}

module _ (libs : SnapshotLibs) where
  pub Decodes : String → ChartSnapshot → Type 0
  Decodes text s = libs.decode text ≡ ok s

  -- Each stored text is found again, decoded, under its name.
  pub index_snapshots-stored :
      (entries : List (String × String)) (ss : List ChartSnapshot)
      (m : List (String × ChartSnapshot))
      → AllEntries libs entries
      → parse_charts libs entries ≡ ok ss
      → (name : String)
      → StoredAs Decodes (lookup name entries) (lookup name m) (lookup name (index_snapshots m ss))
  unfolding parse_charts index_snapshots lookup Decodes
  index_snapshots-stored [] ss m h e name =
      ap (λ (ss : List ChartSnapshot). lookup name (index_snapshots m ss))
        (let same : ss ≡ [] = cc in same)
  index_snapshots-stored ((key, text) ∷ entries) ss m (fresh, (t, decoded, named), h) e name =
      let (s, e₁, e₂) = then_with-inv (with_context _ (libs.decode text)) _ ss e in
      let (rest, parsed, e₃) = then_with-inv (parse_charts libs entries) _ ss e₂ in
      let read = with_context-inv _ (libs.decode text) s e₁ in
      let under : s.name ≡ key =
        ap (λ (s : ChartSnapshot). s.name) (let same : s ≡ t = cc in same) ∙ named in
      let ih = index_snapshots-stored entries rest (insert s.name s m) h parsed name in
      let result : StoredAs Decodes (lookup name ((key, text) ∷ entries)) (lookup name m)
          (lookup name (index_snapshots (insert s.name s m) rest)) =
        StoredAs-first Decodes key name text s entries m _ read fresh (
          subst
            (λ (k : String).
              StoredAs Decodes (lookup name entries) (lookup name (insert k s m))
                (lookup name (index_snapshots (insert s.name s m) rest)))
            under ih) in
      subst
        (λ ss.
          StoredAs Decodes (lookup name ((key, text) ∷ entries)) (lookup name m)
            (lookup name (index_snapshots m ss)))
        (let same : s ∷ rest ≡ ss = cc in same) result

  abbrev pub HasSnapshot : List (String × ChartSnapshot) → String → HelmChart → Type 0
  HasSnapshot snapshots name chart =
      (s : ChartSnapshot) × (lookup name snapshots ≡ some s) × IsSnapshotOf libs chart s

  pub read_back :
      (snapshots : List (String × ChartSnapshot)) (name : String) (chart : HelmChart)
      (charts : Option HelmChart) (text : Option String)
      → ((s : ChartSnapshot) (t : String) → libs.encode s ≡ ok t → libs.decode t ≡ ok s)
      → charts ≡ some chart
      → StoredAs (IsStoredText libs) charts none text
      → StoredAs Decodes text none (lookup name snapshots)
      → HasSnapshot snapshots name chart
  unfolding Decodes
  read_back snapshots name chart none text law e stored indexed = cc
  read_back snapshots name chart (some c) none law e (t, _, found) indexed = cc
  read_back snapshots name chart (some c) (some text) law e (t, (s, snap, encoded), found)
        (s', decoded, at_name) =
      let same_chart : c ≡ chart = cc in
      let same_text : t ≡ text = cc in
      let same : s ≡ s' = cc (law s t encoded, same_text) in
      (
        s',
        at_name,
        subst (λ c. IsSnapshotOf libs c s') same_chart
            (subst (λ s. IsSnapshotOf libs c s) same snap),
      )

  -- What holds of every component that is found under its name holds of all.
  pub All-lookup :
      (Q : String → HelmChart → Type 0) (charts : Charts)
      → KeyedByName charts
      → ((name : String) (chart : HelmChart) → lookup name charts ≡ some chart → Q name chart)
      → All (λ entry. Q entry.0 entry.1) charts
  unfolding lookup
  All-lookup Q [] keyed h = tt
  All-lookup Q ((key, chart) ∷ charts) (named, fresh, keyed) h = (
    h key chart (rw (eq_refl key) refl),
    All-lookup Q charts keyed (λ name c found. h name c (ground (arith, eq_iff key name))),
  )
