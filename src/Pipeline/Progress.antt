-- ===== src/Pipeline/Progress.antt =====
-- The pipeline of internal/upgrade/pipeline.go over several rounds: what is left to do.
use elemental_lifecycle_mana.Prelude.{ℕ, ◌+◌, ◌≤◌, Bool, true, false, arith}
use elemental_lifecycle_mana.Phase.{PhaseStates, all_complete}
use elemental_lifecycle_mana.Errors.{Result, ok, err}

-- The part of the work that a phase which is not done has done.
abbrev pub step_unless : Bool → ℕ
step_unless true = 0
step_unless false = 1

-- `left` measures what the cluster has left to do.
module _ {W : Type 0} (left : W → ℕ) where
  -- The pipeline answers, what is left does not grow, and it falls unless all phases are complete.
  abbrev pub PipelineMoves : ℕ → Result PhaseStates × W → Type 0
  PipelineMoves n (ok states, w) = left w + step_unless (all_complete states) ≤ n
  PipelineMoves n (err e, w) = ⊥

  pub PipelineMoves-mono :
      (m n : ℕ) (r : Result PhaseStates × W) → m ≤ n → PipelineMoves m r → PipelineMoves n r
  PipelineMoves-mono m n (ok states, w) le h = ground arith
  PipelineMoves-mono m n (err e, w) le h = h
