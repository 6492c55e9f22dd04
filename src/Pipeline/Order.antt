-- ===== src/Pipeline/Order.antt =====
-- In which order the phases run, and when an upgrade counts as complete.
use elemental_lifecycle_mana.Prelude.{true, false, some, List, [], ◌∷◌, ◌++◌, ◌≡◌, ◌↔◌, refl, arith}
use elemental_lifecycle_mana.Api.{is_done}
use elemental_lifecycle_mana.Phase.{Phase, PhaseStatus, PhaseStates, put_state, all_complete}
use elemental_lifecycle_mana.Errors.{Result, ok, err, M, settle}
use elemental_lifecycle_mana.Config.{Config}
use elemental_lifecycle_mana.Pipeline.{
  PhaseHandler, after_handler, run_handlers, reconcile_pipeline,
}

-- A handler reported its phase as succeeded or skipped.
abbrev pub Completes : Result PhaseStatus → Type 0
Completes (ok s) = is_done s.state ≡ true
Completes (err e) = ⊥

-- A handler failed, or reported another state.
abbrev pub Stops : Result PhaseStatus → Type 0
Stops (ok s) = is_done s.state ≡ false
Stops (err e) = Unit

-- The result of the pipeline, as the controller reads it.
abbrev pub IsComplete : Result PhaseStates → Type 0
IsComplete (ok states) = all_complete states ≡ true
IsComplete (err e) = ⊥

pub all_complete-put_state :
    (p : Phase) (s : PhaseStatus) (m : PhaseStates)
    → all_complete m ≡ true
    → all_complete (put_state p s m) ≡ is_done s.state
unfolding all_complete put_state
all_complete-put_state p s [] h = ground arith
all_complete-put_state p s ((q, t) ∷ m) h = ground (arith, all_complete-put_state p s m)

module _ {W : Type 0} (h : PhaseHandler W) (states : PhaseStates) where
  after_handler-rest :
      (f g : PhaseStates → M W PhaseStates) (r : Result PhaseStatus × W)
      → ((recorded : PhaseStates) → f recorded r.1 ≡ g recorded r.1)
      → settle r (after_handler h states f) ≡ settle r (after_handler h states g)
  unfolding after_handler
  after_handler-rest f g (err e, w) same = refl
  after_handler-rest f g (ok s, w) same = ground (arith, same (put_state h.phase s states))

  after_handler-stop :
      (f g : PhaseStates → M W PhaseStates) (r : Result PhaseStatus × W)
      → Stops r.0
      → settle r (after_handler h states f) ≡ settle r (after_handler h states g)
  unfolding after_handler
  after_handler-stop f g (err e, w) stops = refl
  after_handler-stop f g (ok s, w) stops = ground arith

  -- A round that goes on to a complete result has a handler that completes.
  after_handler-IsComplete :
      (f : PhaseStates → M W PhaseStates) (Rest : W → Type 0) (r : Result PhaseStatus × W)
      → all_complete states ≡ true
      → ((recorded : PhaseStates)
          → all_complete recorded ≡ true
          → IsComplete (f recorded r.1).0 ↔ Rest r.1)
      → IsComplete (settle r (after_handler h states f)).0 ↔ (Completes r.0 × Rest r.1)
  unfolding after_handler
  after_handler-IsComplete f Rest (err e, w) c ih = ground arith
  after_handler-IsComplete f Rest (ok s, w) c ih =
      ground (arith, all_complete-put_state h.phase s states, ih (put_state h.phase s states))

module _ {W : Type 0} (config : Config) where
  -- The world after handlers that ran one after the other.
  abbrev pub world_after : List (PhaseHandler W) → W → W
  world_after [] w = w
  world_after (h ∷ hs) w = world_after hs (h.reconcile (some config) w).1

  -- All handlers complete, each in the world that the ones before it left.
  abbrev pub AllComplete : List (PhaseHandler W) → W → Type 0
  AllComplete [] w = Unit
  AllComplete (h ∷ hs) w =
      Completes (h.reconcile (some config) w).0 × AllComplete hs (h.reconcile (some config) w).1

  run_handlers-gated :
      (before after : List (PhaseHandler W)) (h : PhaseHandler W) (states : PhaseStates) (w : W)
      → Stops (h.reconcile (some config) (world_after before w)).0
      → run_handlers (some config) (before ++ h ∷ after) states w
        ≡ run_handlers (some config) (before ++ h ∷ []) states w
  unfolding run_handlers
  run_handlers-gated [] after h states w s =
      after_handler-stop h states (run_handlers (some config) after) (run_handlers (some config) [])
        (h.reconcile (some config) w) s
  run_handlers-gated (b ∷ before) after h states w s =
      after_handler-rest b states (run_handlers (some config) (before ++ h ∷ after))
        (run_handlers (some config) (before ++ h ∷ [])) (b.reconcile (some config) w)
        (λ recorded. run_handlers-gated before after h recorded (b.reconcile (some config) w).1 s)

  run_handlers-IsComplete :
      (hs : List (PhaseHandler W)) (states : PhaseStates) (w : W)
      → all_complete states ≡ true
      → IsComplete (run_handlers (some config) hs states w).0 ↔ AllComplete hs w
  unfolding run_handlers
  run_handlers-IsComplete [] states w c = ((λ _. tt), (λ _. c))
  run_handlers-IsComplete (h ∷ hs) states w c =
      after_handler-IsComplete h states (run_handlers (some config) hs) (AllComplete hs)
        (h.reconcile (some config) w) c
        (λ recorded. run_handlers-IsComplete hs recorded (h.reconcile (some config) w).1)

  -- Once a handler fails or reports a phase as neither succeeded nor skipped, no handler after it
  -- has any influence: the result and the world are those of the pipeline that ends there.
  pub reconcile_pipeline-gated :
      (before after : List (PhaseHandler W)) (h : PhaseHandler W) (w : W)
      → Stops (h.reconcile (some config) (world_after before w)).0
      → reconcile_pipeline (before ++ h ∷ after) (some config) w
        ≡ reconcile_pipeline (before ++ h ∷ []) (some config) w
  unfolding reconcile_pipeline
  reconcile_pipeline-gated before after h w s = run_handlers-gated before after h [] w s

  -- The pipeline returns a result that counts as complete exactly when every handler, run in order
  -- in the world that the ones before it left, reports its phase as succeeded or skipped.
  pub reconcile_pipeline-IsComplete_iff :
      (hs : List (PhaseHandler W)) (w : W)
      → IsComplete (reconcile_pipeline hs (some config) w).0 ↔ AllComplete hs w
  unfolding reconcile_pipeline all_complete
  reconcile_pipeline-IsComplete_iff hs w = run_handlers-IsComplete hs [] w refl
