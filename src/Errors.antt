-- ===== src/Errors.antt =====
-- Go's error values as the program builds and inspects them, and computations that may fail while
-- they change the world that the clients of the program act on.
pub mod Laws
use Prim.Native.String.{◌++◌}
use elemental_lifecycle_mana.Prelude.{String, Bool, true, false, Option, none, some, ◌||◌}
use elemental_lifecycle_mana.Phase.{Phase, phase_name}

pub data Error : Type 0 where
  -- `errors.New` and `fmt.Errorf` with no `%w`, and errors of libraries that are only passed on.
  message : String → Error
  -- Errors of the API server that the program tells apart.
  not_found conflict : String → Error
  -- `driver.ErrReleaseNotFound` of Helm.
  release_not_found : Error
  -- `upgrade.RuntimeConfigError`.
  runtime_config : String → Error
  -- `*upgrade.PhaseError`, which has no method `Unwrap`.
  phase_error : Phase → Error → Error
  -- `fmt.Errorf("context: %w", err)`.
  wrap : String → Error → Error
  -- `errors.Join` of two errors.
  join : Error → Error → Error
  -- A panic on its way up to controller-runtime, which makes an error of it. The code that it passes
  -- does not run; here that code may still change the release in memory, which is then dropped.
  panics : String → Error

-- `err.Error()`.
unfoldable pub error_text : Error → String
error_text (message s) = s
error_text (not_found s) = s
error_text (conflict s) = s
error_text release_not_found = "release: not found"
error_text (runtime_config s) = s
error_text (phase_error p e) = phase_name p ++ (" upgrade failed: " ++ error_text e)
error_text (wrap s e) = s ++ (": " ++ error_text e)
error_text (join e f) = error_text e ++ ("\n" ++ error_text f)
error_text (panics s) = s

-- The error stands for a panic.
unfoldable pub is_panic : Error → Bool
is_panic (panics s) = true
is_panic (wrap s e) = is_panic e
is_panic (phase_error p e) = is_panic e
is_panic (join e f) = is_panic e || is_panic f
is_panic _ = false

-- `apierrors.IsNotFound`.
unfoldable pub is_not_found : Error → Bool
is_not_found (not_found s) = true
is_not_found (wrap s e) = is_not_found e
is_not_found (join e f) = is_not_found e || is_not_found f
is_not_found _ = false

-- `apierrors.IsConflict`.
unfoldable pub is_conflict : Error → Bool
is_conflict (conflict s) = true
is_conflict (wrap s e) = is_conflict e
is_conflict (join e f) = is_conflict e || is_conflict f
is_conflict _ = false

-- `errors.Is(err, ErrReleaseNotFound)`.
unfoldable pub is_release_not_found : Error → Bool
is_release_not_found release_not_found = true
is_release_not_found (wrap s e) = is_release_not_found e
is_release_not_found (join e f) = is_release_not_found e || is_release_not_found f
is_release_not_found _ = false

abbrev pub or_else {ℓ} : {A : Type ℓ} → Option A → Option A → Option A
or_else none b = b
or_else (some a) b = some a

-- `errors.AsType[RuntimeConfigError](err)`.
unfoldable pub as_runtime_config : Error → Option String
as_runtime_config (runtime_config s) = some s
as_runtime_config (wrap s e) = as_runtime_config e
as_runtime_config (join e f) = or_else (as_runtime_config e) (as_runtime_config f)
as_runtime_config _ = none

-- `errors.AsType[*PhaseError](err)`.
unfoldable pub as_phase_error : Error → Option (Phase × Error)
as_phase_error (phase_error p e) = some (p, e)
as_phase_error (wrap s e) = as_phase_error e
as_phase_error (join e f) = or_else (as_phase_error e) (as_phase_error f)
as_phase_error _ = none

pub data Result (A : Type 0) : Type 0 where
  ok : A → Result A
  err : Error → Result A

abbrev pub then_with : {A B : Type 0} → Result A → (A → Result B) → Result B
then_with (ok a) f = f a
then_with (err e) f = err e

-- `fmt.Errorf("context: %w", err)` around a computation that has no effect.
abbrev pub with_context : {A : Type 0} → String → Result A → Result A
with_context s (ok a) = ok a
with_context s (err e) = err (wrap s e)

-- A computation that acts on a world `W`. Every call of a client may change the world, reads too,
-- since other controllers run at the same time.
abbrev pub M : Type 0 → Type 0 → Type 0
M W A = W → Result A × W

module _ {W : Type 0} where
  abbrev pub pure : {A : Type 0} → A → M W A
  pure a w = (ok a, w)

  abbrev pub throw : {A : Type 0} → Error → M W A
  throw e w = (err e, w)

  abbrev pub from_result : {A : Type 0} → Result A → M W A
  from_result r w = (r, w)

  abbrev pub continue : {A B : Type 0} → Result A × W → (A → M W B) → Result B × W
  continue (ok a, w) f = f a w
  continue (err e, w) f = (err e, w)

  infixl 5 ◌>>=◌ ◌>>◌
  abbrev pub ◌>>=◌ : {A B : Type 0} → M W A → (A → M W B) → M W B
  ◌>>=◌ m f w = continue (m w) f

  abbrev pub ◌>>◌ : {A B : Type 0} → M W A → M W B → M W B
  ◌>>◌ m k w = continue (m w) (λ _. k)

  abbrev pub settle : {A B : Type 0} → Result A × W → (Result A → M W B) → Result B × W
  settle (r, w) f = f r w

  -- `x, err := m(…)`, with the error at hand in what follows.
  abbrev pub attempt : {A B : Type 0} → M W A → (Result A → M W B) → M W B
  attempt m f w = settle (m w) f

  -- `if err != nil { return fmt.Errorf("context: %w", err) }`.
  abbrev pub context : {A : Type 0} → String → M W A → M W A
  context s m w = settle (m w) (λ r. from_result (with_context s r))
