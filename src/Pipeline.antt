-- ===== src/Pipeline.antt =====
-- internal/upgrade/pipeline.go: the phases run in order, up to the first that is not complete.
pub mod Progress
pub mod Order
use elemental_lifecycle_mana.Prelude.{
  Bool, true, false, Option, none, some, List, [], ◌∷◌, not, map, if◌then◌else◌,
}
use elemental_lifecycle_mana.Api.{is_done}
use elemental_lifecycle_mana.Phase.{Phase, PhaseStatus, PhaseStates, put_state}
use elemental_lifecycle_mana.Errors.{message, phase_error, Result, ok, err, M, throw, pure, attempt}
use elemental_lifecycle_mana.Config.{Config}

-- The interface `PhaseHandler`.
pub record PhaseHandler (W : Type 0) : Type 0 where
  pub phase : Phase
  pub reconcile : Option Config → M W PhaseStatus

module _ {W : Type 0} where
  -- What one round of the loop does with the outcome of a handler. `rest` runs the later handlers.
  -- The states recorded before an error are dropped: the one caller does not read them then.
  unfoldable pub after_handler :
      PhaseHandler W
      → PhaseStates
      → (PhaseStates → M W PhaseStates)
      → Result PhaseStatus
      → M W PhaseStates
  after_handler h states rest (err e) = throw (phase_error h.phase e)
  after_handler h states rest (ok status) =
      let recorded = put_state h.phase status states in
      if not (is_done status.state) then pure recorded else rest recorded

  -- The loop of `Reconcile`.
  unfoldable pub run_handlers :
      Option Config → List (PhaseHandler W) → PhaseStates → M W PhaseStates
  unfolding after_handler
  run_handlers config [] states = pure states
  run_handlers config (h ∷ hs) states =
      attempt (h.reconcile config) (after_handler h states (run_handlers config hs))

  unfoldable pub reconcile_pipeline : List (PhaseHandler W) → Option Config → M W PhaseStates
  unfolding run_handlers
  reconcile_pipeline handlers none = throw (message "upgrade config is nil")
  reconcile_pipeline handlers (some config) = run_handlers (some config) handlers []

  unfoldable pub pipeline_phases : List (PhaseHandler W) → List Phase
  pipeline_phases handlers = map (λ h. h.phase) handlers
