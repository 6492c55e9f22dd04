-- ===== src/Reconcilers/HelmCharts/Sort/Ordered.antt =====
-- The depth-first walk of sortChartConfigsByDependencies, in internal/upgrade/reconcilers/helm.go:
-- its end and the order of its result.
use elemental_lifecycle_mana.Prelude.{
  ℕ, zero, suc, ◌+◌, String, Bool, true, false, Option, none, some, List, [], ◌∷◌, ◌++◌, ◌≡◌, refl,
  ap, sym, ◌∙◌, ◌==◌, ◌||◌, not, leb, length, any, all, lookup, eq_iff, eq_refl, arith,
  if◌then◌else◌,
}
use elemental_lifecycle_mana.Config.{
  DependencyType, helm_dependency, other_dependency, Dependency, ManifestChart, HelmChartConfig,
}
use elemental_lifecycle_mana.Reconcilers.HelmCharts.Sort.{
  member, Walk, Outcome, done, circular, out_of_fuel, next, visit_dependencies, leave, enter, visit,
}
use elemental_lifecycle_mana.Reconcilers.HelmCharts.Sort.Fuel.{
  Charts, is_known, are_distinct, delete_key-head, length-distinct_known,
}

module _ (chart_name : ManifestChart → String) where
  -- A chart of this name is among the configurations.
  abbrev pub is_placed : String → List HelmChartConfig → Bool
  is_placed k cs = any (λ c. chart_name c.chart == k) cs

module _ (chart_name : ManifestChart → String) (charts : Charts) where
  -- A dependency on a Helm chart that is in the map has its chart among the configurations.
  abbrev pub is_met : List HelmChartConfig → Dependency → Bool
  is_met before d = elim d.type [
    | helm_dependency ↦ not (is_known charts d.name) || is_placed chart_name d.name before
    | other_dependency ↦ true
  ]

  -- Lists of charts of the map, each name once, in which every chart stands behind the charts of the
  -- map that it depends on.
  pub data InOrder : List HelmChartConfig → Type 0 where
    nothing : InOrder []
    place :
        (before : List HelmChartConfig) (c : HelmChartConfig)
        → InOrder before
        → lookup (chart_name c.chart) charts ≡ some c
        → is_placed chart_name (chart_name c.chart) before ≡ false
        → all (is_met before) c.chart.depends_on ≡ true
        → InOrder (before ++ c ∷ [])

module _ (chart_name : ManifestChart → String) where
  is_placed-append :
      (k : String) (cs : List HelmChartConfig) (c : HelmChartConfig)
      → is_placed chart_name k (cs ++ c ∷ [])
        ≡ (is_placed chart_name k cs || (chart_name c.chart == k))
  is_placed-append k [] c = ground arith
  is_placed-append k (d ∷ cs) c = ground (arith, is_placed-append k cs c)

module _ (chart_name : ManifestChart → String) (charts : Charts)
    (named : (k : String) (c : HelmChartConfig)
      → lookup k charts ≡ some c
      → chart_name c.chart ≡ k) where
  abbrev pub Placed : String → List HelmChartConfig → Type 0
  Placed k cs = is_placed chart_name k cs ≡ true

  abbrev pub IsSound : Walk → Type 0
  IsSound w =
      InOrder chart_name charts w.result
      × ((k : String) → member k w.visited ≡ is_placed chart_name k w.result)

  -- What a part of the walk that began with the charts `ip` in progress does from `w` to `v`.
  abbrev pub Extends : List String → Walk → Walk → Type 0
  Extends ip w v =
      (v.in_progress ≡ ip)
      × IsSound v
      × ((k : String) → Placed k w.result → Placed k v.result)
      × ((k : String)
          → member k ip ≡ true
          → is_placed chart_name k w.result ≡ false
          → is_placed chart_name k v.result ≡ false)

  pub Extends-refl : (ip : List String) (w : Walk) → w.in_progress ≡ ip → IsSound w → Extends ip w w
  Extends-refl ip w e sound = (e, sound, λ k h. h, λ k m h. h)

  pub Extends-trans :
      (ip : List String) (u v w : Walk) → Extends ip u v → Extends ip v w → Extends ip u w
  Extends-trans ip u v w (e, s, more, same) (e', s', more', same') =
      (e', s', λ k h. more' k (more k h), λ k m h. same' k m (same k m h))

  -- A visit of `name` that ends well.
  abbrev pub Visits : List String → Walk → String → Outcome → Type 0
  Visits ip w name (done v) = Extends ip w v × (is_known charts name ≡ true → Placed name v.result)
  Visits ip w name (circular s) = Unit
  Visits ip w name out_of_fuel = ⊥

  abbrev Meets : List String → Walk → List Dependency → Outcome → Type 0
  Meets ip w ds (done v) = Extends ip w v × (all (is_met chart_name charts v.result) ds ≡ true)
  Meets ip w ds (circular s) = Unit
  Meets ip w ds out_of_fuel = ⊥

  is_met-helm :
      (cs : List HelmChartConfig) (d : Dependency)
      → d.type ≡ helm_dependency
      → (is_known charts d.name ≡ true → Placed d.name cs)
      → is_met chart_name charts cs d ≡ true
  is_met-helm cs d helm h = ground arith

  Meets-next :
      (ip : List String) (w v : Walk) (d : Dependency) (ds : List Dependency) (o : Outcome)
      → d.type ≡ helm_dependency
      → Extends ip w v
      → (is_known charts d.name ≡ true → Placed d.name v.result)
      → Meets ip v ds o
      → Meets ip w (d ∷ ds) o
  Meets-next ip w v d ds (done u) helm ext placed (ext', met) =
      let more = ext'.2 in
      (
        Extends-trans ip w v u ext ext',
        rw (is_met-helm u.result d helm (λ known. more d.name (placed known))) met,
      )
  Meets-next ip w v d ds (circular s) helm ext placed h = tt
  Meets-next ip w v d ds out_of_fuel helm ext placed h = h

  Meets-other :
      (ip : List String) (w : Walk) (d : Dependency) (ds : List Dependency) (o : Outcome)
      → d.type ≡ other_dependency
      → Meets ip w ds o
      → Meets ip w (d ∷ ds) o
  Meets-other ip w d ds (done u) other (ext, met) = (ext, rw other met)
  Meets-other ip w d ds (circular s) other h = tt
  Meets-other ip w d ds out_of_fuel other h = h

  next-Meets :
      (ip : List String) (w : Walk) (d : Dependency) (ds : List Dependency) (o : Outcome)
      (rest : Walk → Outcome)
      → d.type ≡ helm_dependency
      → Visits ip w d.name o
      → ((v : Walk) → v.in_progress ≡ ip → IsSound v → Meets ip v ds (rest v))
      → Meets ip w (d ∷ ds) (next o rest)
  next-Meets ip w d ds (done v) rest helm (ext, placed) h =
      Meets-next ip w v d ds (rest v) helm ext placed (h v ext.0 ext.1)
  next-Meets ip w d ds (circular s) rest helm o h = tt
  next-Meets ip w d ds out_of_fuel rest helm o h = o

  -- All visits of `f` that start with the charts `ip` in progress end well.
  abbrev pub VisitsWell : List String → (String → Walk → Outcome) → Type 0
  VisitsWell ip f =
      (name : String) (w : Walk) → w.in_progress ≡ ip → IsSound w → Visits ip w name (f name w)

  dependency-Meets :
      (ip : List String) (f : String → Walk → Outcome) (w : Walk) (d : Dependency)
      (ds : List Dependency) (t : DependencyType)
      → d.type ≡ t
      → VisitsWell ip f
      → w.in_progress ≡ ip
      → IsSound w
      → ((v : Walk) → v.in_progress ≡ ip → IsSound v → Meets ip v ds (visit_dependencies f ds v))
      → Meets ip w (d ∷ ds) (elim t [
        | helm_dependency ↦ next (f d.name w) (visit_dependencies f ds)
        | other_dependency ↦ visit_dependencies f ds w
      ])
  dependency-Meets ip f w d ds helm_dependency e well start sound rest =
      next-Meets ip w d ds (f d.name w) (visit_dependencies f ds) e (well d.name w start sound) rest
  dependency-Meets ip f w d ds other_dependency e well start sound rest =
      Meets-other ip w d ds (visit_dependencies f ds w) e (rest w start sound)

  visit_dependencies-Meets :
      (ip : List String) (f : String → Walk → Outcome) (ds : List Dependency) (w : Walk)
      → VisitsWell ip f
      → w.in_progress ≡ ip
      → IsSound w
      → Meets ip w ds (visit_dependencies f ds w)
  unfolding visit_dependencies
  visit_dependencies-Meets ip f [] w well start sound = (Extends-refl ip w start sound, refl)
  visit_dependencies-Meets ip f (d ∷ ds) w well start sound =
      dependency-Meets ip f w d ds d.type refl well start sound
        (λ v e s. visit_dependencies-Meets ip f ds v well e s)

  -- A chart is left when its dependencies are met.
  leave-Visits :
      (ip : List String) (w : Walk) (name : String) (c : HelmChartConfig) (o : Outcome)
      → lookup name charts ≡ some c
      → member name ip ≡ false
      → is_placed chart_name name w.result ≡ false
      → Meets (name ∷ ip) w c.chart.depends_on o
      → Visits ip w name (next o (leave name c))
  unfolding leave member
  leave-Visits ip w name c (circular s) there new unplaced h = tt
  leave-Visits ip w name c out_of_fuel there new unplaced h = h
  leave-Visits ip w name c (done v) there new unplaced ((e, (ordered, kept), more, same), met) =
      let is_name = named name c there in
      let still = same name (rw (eq_refl name) refl) unplaced in
      (
        (
          rw e (delete_key-head name ip new),
          (
            place v.result c ordered (rw is_name there) (rw is_name still) met,
            λ k. ground (arith, is_placed-append chart_name k v.result c, kept k, is_name),
          ),
          λ k h. ground (arith, is_placed-append chart_name k v.result c, more k h),
          λ k there' free.
              ground
                (arith, is_placed-append chart_name k v.result c, same k, is_name, eq_iff name k),
        ),
        λ known.
            ground (
              arith,
              is_placed-append chart_name name v.result c,
              eq_iff (chart_name c.chart) name,
            ),
      )

  enter-Visits :
      (ip : List String) (w : Walk) (name : String) (f : String → Walk → Outcome)
      (o : Option HelmChartConfig)
      → lookup name charts ≡ o
      → w.in_progress ≡ ip
      → IsSound w
      → member name ip ≡ false
      → member name w.visited ≡ false
      → (is_known charts name ≡ true → VisitsWell (name ∷ ip) f)
      → Visits ip w name (enter f name o w)
  unfolding enter
  enter-Visits ip w name f none there start sound new unvisited well =
      (Extends-refl ip w start sound, λ known. ground arith)
  enter-Visits ip w name f (some c) there start sound new unvisited well =
      leave-Visits ip w name c
        (visit_dependencies f c.chart.depends_on (record w { in_progress = name ∷ w.in_progress }))
        there new (sym (sound.1 name) ∙ unvisited)
        (visit_dependencies-Meets (name ∷ ip) f c.chart.depends_on
          (record w { in_progress = name ∷ w.in_progress }) (well (rw there refl))
          (ap (λ is. name ∷ is) start) sound)

  -- What `visit` does with a chart that is in progress, was visited, or neither.
  decided-Visits :
      (ip : List String) (w : Walk) (name : String) (a b : Bool) (o : Outcome)
      → member name w.visited ≡ b
      → w.in_progress ≡ ip
      → IsSound w
      → (a ≡ false → b ≡ false → Visits ip w name o)
      → Visits ip w name (if a then circular name else if b then done w else o)
  decided-Visits ip w name true b o e start sound h = tt
  decided-Visits ip w name false true o e start sound h =
      (Extends-refl ip w start sound, λ known. sym (sound.1 name) ∙ e)
  decided-Visits ip w name false false o e start sound h = h refl refl

  abbrev pub Fits : ℕ → List String → Type 0
  Fits fuel ip =
      (are_distinct ip ≡ true)
      × (all (is_known charts) ip ≡ true)
      × (leb (suc (length charts)) (fuel + length ip) ≡ true)

  -- With a unit of fuel for each chart of the map that is not in progress, and one more, every visit
  -- ends, and well.
  pub visit-VisitsWell :
      (fuel : ℕ) (ip : List String) → Fits fuel ip → VisitsWell ip (visit fuel charts)
  unfolding visit
  visit-VisitsWell zero ip (d, k, fits) name w start sound =
      ground (arith, length-distinct_known charts ip d k)
  visit-VisitsWell (suc fuel) ip (d, k, fits) name w start sound =
      decided-Visits ip w name (member name w.in_progress) (member name w.visited)
        (enter (visit fuel charts) name (lookup name charts) w) refl start sound
        (λ new unvisited.
          enter-Visits ip w name (visit fuel charts) (lookup name charts) refl start sound
            (ap (member name) (sym start) ∙ new) unvisited
            (λ known. visit-VisitsWell fuel (name ∷ ip) (ground arith)))
