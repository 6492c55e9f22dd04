-- ===== src/Controller/Reconcile/Progress/Ends.antt =====
-- How a round of `Reconcile` ends in a cluster that does its work.
use elemental_lifecycle_mana.Prelude.{
  ℕ, ◌≤◌, String, some, ◌≡◌, refl, ◌∙◌, ◌⊎◌, inl, inr, arith, Bool-cases, ap, true, false, sym,
  subst, eq_refl,
}
use elemental_lifecycle_mana.Api.{
  Release, is_succeeded, is_done, condition_manifest_resolved, is_true, succeeded,
}
use elemental_lifecycle_mana.Errors.{Result, ok, err}
use elemental_lifecycle_mana.Phase.{lcm, condition_type, PhaseStatus, PhaseStates, all_complete}
use elemental_lifecycle_mana.Config.{Config, ResolvedManifest}
use elemental_lifecycle_mana.Pipeline.Progress.{PipelineMoves, PipelineMoves-mono}
use elemental_lifecycle_mana.Controller.Conditions.{
  ConditionLaws, option_is_true, update_applied_condition, set_condition, update_phase_condition,
}
use elemental_lifecycle_mana.Controller.Conditions.Effects.{find-update_phase_condition}
use elemental_lifecycle_mana.Controller.Conditions.Applied.{update_applied_condition-frame}
use elemental_lifecycle_mana.Controller.Reconcile.Trace.{lcm_done}
use elemental_lifecycle_mana.Controller.Reconcile.Trace.Round.{
  reconcile_current-upgrades, reconcile_current-asks,
}
use elemental_lifecycle_mana.Controller.Conditions.Closed.{KeptBySets, update_phase_condition-kept}
use elemental_lifecycle_mana.Controller.Reconcile.{
  with_applied, Outcome, Calls, hand_over, resolve_release, after_pipeline, after_cleanup,
  after_config, after_manifest, upgrade_release, after_lcm, after_lcm_config, reconcile_current,
}
use elemental_lifecycle_mana.Controller.Reconcile.Progress.{
  LcmMoves, AnswersWith, AnswersWith-mono, LcmMoves-mono, Asks, Works, RoundEnds, hand_over-ends,
}

module _ {W : Type 0} (left : W → ℕ) (asked : Release) (LcmFits Fits : Config → Type 0)
    (Lists : ResolvedManifest → Type 0) (calls : Calls W)
    (works : Works left asked LcmFits Fits Lists calls) (laws : ConditionLaws calls.ops) where
  abbrev v : String
  v = asked.spec.version

  Asks-set_condition : KeptBySets calls.ops (Asks left asked)
  unfolding set_condition
  Asks-set_condition release kind status reason message h = h

  resolved-Asks :
      (release : Release)
      → Asks left asked release
      → Asks left asked (resolve_release calls release)
  resolved-Asks release asks =
      Asks-set_condition release condition_manifest_resolved is_true succeeded
        "Release manifest retrieved successfully" asks

  after_pipeline-ends :
      (n : ℕ) (release : Release) (config : Config) (r : Result PhaseStates × W)
      → config.release_version ≡ v
      → PipelineMoves left n r
      → RoundEnds left v n (hand_over r (after_pipeline calls release config))
  unfolding after_pipeline
  after_pipeline-ends n release config (ok states, w) target moves =
      elim (Bool-cases (all_complete states)) [
        | inl e ↦ rw e (inl (target, refl))
        | inr e ↦ rw e (inr (30, refl, ground arith))
      ]
  after_pipeline-ends n release config (err e, w) target moves = absurd moves

  after_cleanup-ends :
      (n : ℕ) (release : Release) (config : Config) (w : W)
      → config.release_version ≡ v
      → Fits config
      → left w ≤ n
      → RoundEnds left v n (after_cleanup calls release config (ok tt) w)
  unfolding after_cleanup
  after_cleanup-ends n release config w target fits le =
      after_pipeline-ends n release config (calls.run_pipeline config w) target
        (PipelineMoves-mono left (left w) n _ le (works.run_pipeline config w fits))

  after_config-ends :
      (n : ℕ) (release : Release) (config : Config) (w : W)
      → Asks left asked release
      → config.release_version ≡ v
      → Fits config
      → left w ≤ n
      → RoundEnds left v n (after_config calls release (ok config) w)
  unfolding after_config
  after_config-ends n release config w asks target fits le = ground (
    arith,
    after_cleanup-ends n release config w target fits le,
    hand_over-ends left (λ u. Unit {0}) v n (calls.cleanup release.name release.status.version w)
        (after_cleanup calls release config)
        (AnswersWith-mono left (λ u. Unit {0}) (left w) n
          (calls.cleanup release.name release.status.version w) le (works.cleanup release w asks))
        (λ u w' t le'. after_cleanup-ends n release config w' target fits le'),
  )

  upgrade_release-ends :
      (n : ℕ) (release : Release) (w : W)
      → Asks left asked release
      → left w ≤ n
      → RoundEnds left v n (upgrade_release calls release w)
  unfolding upgrade_release after_manifest
  upgrade_release-ends n release w asks le =
      hand_over-ends left Lists v n (calls.get_manifest release w) (after_manifest calls release)
        (AnswersWith-mono left Lists (left w) n (calls.get_manifest release w) le
          (works.get_manifest release w asks))
        (λ m w' lists le'.
          let resolved = resolve_release calls release in
          let asks' = resolved-Asks release asks in
          hand_over-ends left (λ (config : Config). (config.release_version ≡ v) × Fits config) v n
            (calls.parse_config m resolved w') (after_config calls resolved)
            (AnswersWith-mono left _ (left w') n (calls.parse_config m resolved w') le'
              (works.parse_config m resolved w' lists asks'))
            (λ config w'' (target, fits) le''.
              after_config-ends n resolved config w'' asks' target fits le''))

  -- The round found the self-upgrade skipped, recorded that, and asks for another round.
  abbrev pub Skips : ℕ → Release → Outcome × W → Type 0
  Skips n release r =
      (seconds : ℕ) × (r.0.result ≡ ok (some seconds))
      × (left r.1 ≤ n)
      × (lcm_done calls release ≡ false)
      × (lcm_done calls r.0.release ≡ true)

  lcm_done-update :
      (release : Release) (s : PhaseStatus)
      → is_done s.state ≡ true
      → lcm_done calls (update_phase_condition calls.ops release lcm s) ≡ true
  lcm_done-update release s done = ground (
    arith,
    laws.holds_find (condition_type lcm)
        (update_phase_condition calls.ops release lcm s).status.conditions,
    eq_refl (condition_type lcm),
    find-update_phase_condition calls.ops laws release lcm s (condition_type lcm),
  )

  lcm-ends :
      (n : ℕ) (release : Release) (r : Result PhaseStatus × W)
      → Asks left asked release
      → lcm_done calls release ≡ false
      → LcmMoves left n r
      → let r' = hand_over r (after_lcm calls release) in RoundEnds left v n r' ⊎ Skips n release r'
  unfolding after_lcm
  lcm-ends n release (ok s, w) asks undone moves = elim (Bool-cases (is_succeeded s.state)) [
    | inl e ↦ rw e (
        inl (
          upgrade_release-ends n (update_phase_condition calls.ops release lcm s) w
            (update_phase_condition-kept calls.ops (Asks left asked) Asks-set_condition release lcm
              s asks)
            (ground arith)))
    | inr e ↦ elim (Bool-cases (is_done s.state)) [
      | inl d ↦ rw e (inr (30, refl, ground arith, undone, lcm_done-update release s d))
      | inr d ↦ rw e (inl (inr (30, refl, ground arith)))
    ]
  ]
  lcm-ends n release (err e, w) asks undone moves = absurd moves

  asked-ends :
      (n : ℕ) (release : Release) (r : Result Config × W)
      → Asks left asked release
      → lcm_done calls release ≡ false
      → AnswersWith left LcmFits n r
      → let r' = hand_over r (after_lcm_config calls release) in
        RoundEnds left v n r' ⊎ Skips n release r'
  unfolding after_lcm_config
  asked-ends n release (ok config, w) asks undone (fits, le) =
      lcm-ends n release (calls.upgrade_lcm config w) asks undone
        (LcmMoves-mono left (left w) n _ le (works.upgrade_lcm config w fits))
  asked-ends n release (err e, w) asks undone answers = absurd answers

  pub reconcile_current-ends :
      (release : Release) (w : W)
      → Asks left asked release
      → let r = reconcile_current calls release w in
        RoundEnds left v (left w) r ⊎ Skips (left w) release r
  reconcile_current-ends release w asks =
      let P : Outcome × W → Type 0 = λ r. RoundEnds left v (left w) r ⊎ Skips (left w) release r in
      elim (Bool-cases (lcm_done calls release)) [
        | inl e ↦
            subst P (sym (reconcile_current-upgrades calls release w e))
              (inl (upgrade_release-ends (left w) release w asks (omega arith)))
        | inr e ↦ subst P (sym (reconcile_current-asks calls release w e)) (
            asked-ends (left w) release (calls.lcm_config release w) asks e
              (works.lcm_config release w asks))
      ]

  pub with_applied-lcm :
      (r : Outcome × W)
      → lcm_done calls (with_applied calls r).0.release ≡ lcm_done calls r.0.release
  unfolding condition_type
  with_applied-lcm (o, w) =
      let kind = condition_type lcm in
      laws.holds_find kind
        (update_applied_condition calls.ops o.release calls.phases).status.conditions
      ∙ ap option_is_true
          (update_applied_condition-frame calls.ops laws o.release kind refl calls.phases)
      ∙ sym (laws.holds_find kind o.release.status.conditions)
