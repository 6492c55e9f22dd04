-- ===== src/Controller/Wiring/Upgraded.antt =====
-- What a version that a release records says about the cluster, for the reconciler of cmd/main.go
-- with the handler of the packaged components of RKE2.
use elemental_lifecycle_mana.Prelude.{
  String, ap, true, Option, some, ◌≡◌, ◌⊎◌, inl, inr, ◌∙◌, sym, subst,
}
use elemental_lifecycle_mana.Api.{Release}
use elemental_lifecycle_mana.Errors.{Result, ok}
use elemental_lifecycle_mana.Config.{Config, ResolvedManifest}
use elemental_lifecycle_mana.Cluster.{Client}
use elemental_lifecycle_mana.Helm.{HelmClient}
use elemental_lifecycle_mana.Pipeline.Order.{IsComplete, reconcile_pipeline-IsComplete_iff}
use elemental_lifecycle_mana.Reconcilers.Kubernetes.{ComponentsHandler}
use elemental_lifecycle_mana.Reconcilers.Rke2.Changes.{FindComponents}
use elemental_lifecycle_mana.Reconcilers.Rke2.Snapshot.{SnapshotLibs}
use elemental_lifecycle_mana.Controller.Manifests.{RawManifests, WithRaw, keep_raw}
use elemental_lifecycle_mana.Controller.Reconcile.{
  Outcome, Calls, resolve_release, reconcile_normal,
}
use elemental_lifecycle_mana.Controller.Reconcile.Trace.{
  EndsWith, must_clean, Cleaned, lcm_done, Begins, RanRound,
}
use elemental_lifecycle_mana.Controller.Reconcile.Trace.Round.{reconcile_normal-RanRound}
use elemental_lifecycle_mana.Phase.{PhaseStates, all_complete}
use elemental_lifecycle_mana.Pipeline.{reconcile_pipeline}
use elemental_lifecycle_mana.Controller.Wiring.{Libraries, pipeline, release_reconciler}
use elemental_lifecycle_mana.Controller.Wiring.Target.{reconcile_normal-IsOnCourse}
use elemental_lifecycle_mana.Controller.Wiring.Done.{handler, IsUpgraded, AllComplete-IsUpgraded}

IsComplete-keep_raw :
    {W : Type 0} (raw : RawManifests) (r : Result PhaseStates × W) (states : PhaseStates)
    → (keep_raw raw r).0 ≡ ok states
    → all_complete states ≡ true
    → IsComplete r.0
IsComplete-keep_raw raw (q, w) states e h = subst IsComplete (sym e) h

module _ {W : Type 0} (libs : Libraries W) (snapshots : SnapshotLibs) (client : Client W)
    (helm : HelmClient W) (find : Option (FindComponents W)) where
  abbrev packaged : ComponentsHandler W
  packaged = handler libs snapshots client helm find

  abbrev pub calls : Calls (WithRaw W)
  calls = release_reconciler libs client helm packaged

  -- What the round did once the manifest was got, from the world `w`: it parsed the configuration of
  -- this manifest for the version `v`, cleaned up if it had to, and ran the pipeline for this
  -- configuration, which carried it out and left the world in which the round ended.
  abbrev pub CarriedOut :
      String → Release → ResolvedManifest → WithRaw W → Outcome × WithRaw W → Type 0
  CarriedOut v release manifest w r =
      (config : Config) × (parsed : WithRaw W) × (calls.parse_config manifest release w
        ≡ (ok config, parsed))
      × (config.release_version ≡ v)
      × (cleaned : WithRaw W) × Cleaned calls (must_clean calls release config) release parsed
          cleaned
      × (states : PhaseStates) × (calls.run_pipeline config cleaned ≡ (ok states, r.1))
      × IsUpgraded libs snapshots client helm find config cleaned.1

  -- The round went from the world `w` through the self-upgrade to the manifest that was got, and
  -- carried out the configuration of this manifest for the version that the release asks for.
  abbrev pub Attains : Release → WithRaw W → Outcome × WithRaw W → Type 0
  Attains release w r =
      EndsWith calls release.spec.version r
      × (started : Release) × (begun : WithRaw W) × Begins calls (lcm_done calls release) release w
          started begun
      × (manifest : ResolvedManifest) × (got : WithRaw W) × (calls.get_manifest started begun
          ≡ (ok manifest, got))
      × CarriedOut release.spec.version (resolve_release calls started) manifest got r

  run-IsUpgraded :
      (config : Config) (w last : WithRaw W) (states : PhaseStates)
      → calls.run_pipeline config w ≡ (ok states, last)
      → all_complete states ≡ true
      → IsUpgraded libs snapshots client helm find config w.1
  unfolding release_reconciler
  run-IsUpgraded config (raw, w) last states run complete =
      let phases = pipeline libs client helm packaged in
      AllComplete-IsUpgraded libs snapshots client helm find config w (
        (reconcile_pipeline-IsComplete_iff config phases w).0 (
          IsComplete-keep_raw raw (reconcile_pipeline phases (some config) w) states
            (ap (λ r. r.0) run) complete))

  attained :
      (release : Release) (w : WithRaw W) (r : Outcome × WithRaw W)
      → EndsWith calls release.status.version r ⊎ EndsWith calls release.spec.version r
      → EndsWith calls release.status.version r ⊎ RanRound calls release w r
      → EndsWith calls release.status.version r ⊎ Attains release w r
  attained release w r (inl same) ran = inl same
  attained release w r (inr asked) (inl same) = inl same
  attained release w r (inr asked)
        (inr (
          started,
          begun,
          begins,
          (
            manifest,
            got,
            gets,
            config,
            parsed,
            parses,
            (cleaned, cleans, (states, runs, complete, version)),
          ),
        )) =
      inr (
        asked,
        started,
        begun,
        begins,
        manifest,
        got,
        gets,
        (
          config,
          parsed,
          parses,
          sym version ∙ asked,
          cleaned,
          cleans,
          states,
          runs,
          run-IsUpgraded config cleaned r.1 states runs complete,
        ),
      )

  -- A reconciliation leaves the version of the status as it was, or makes it the one that the
  -- release asks for. Then it went all the way, each call in the world that the one before it left:
  -- the self-upgrade succeeded, or its condition was True before; the manifest was got; the
  -- configuration was parsed from this manifest, for this version; the plans of the old version
  -- were cleaned up if they had to be; and the pipeline ran for this configuration, up to the world
  -- in which the round ended. One phase after the other, its plans for the operating system, if it
  -- has any, were all found complete; its plans for Kubernetes, if any, were complete on nodes that
  -- are ready, schedulable and at the version, and the packaged components were available; and all
  -- its charts were up to date in the order of their dependencies.
  pub release_reconciler-IsUpgraded :
      (release : Release) (raw : RawManifests) (w : W)
      → let r = reconcile_normal calls release (raw, w) in
        (r.0.release.status.version ≡ release.status.version) ⊎ Attains release (raw, w) r
  release_reconciler-IsUpgraded release raw w =
      attained release (raw, w) (reconcile_normal calls release (raw, w))
        (reconcile_normal-IsOnCourse libs client helm packaged release (raw, w)).1
        (reconcile_normal-RanRound calls release (raw, w))
