-- ===== src/Errors/Laws.antt =====
-- Rules for computations: what a bind shows of its parts.
use elemental_lifecycle_mana.Prelude.{String, ◌≡◌, refl, ap}
use elemental_lifecycle_mana.Errors.{
  Error, wrap, Result, ok, err, M, then_with, with_context, from_result, continue, settle,
}

module _ {W A B : Type 0} where
  -- `context s m >>= f`, with the outcome of `m` at hand.
  abbrev pub in_context : String → Result A × W → (A → M W B) → Result B × W
  in_context s r f = continue (settle r (λ q. from_result (with_context s q))) f

  -- Two continuations that agree on the outcome give one computation.
  pub in_context-cong :
      (s : String) (r : Result A × W) (f g : A → M W B)
      → ((a : A) → r.0 ≡ ok a → f a r.1 ≡ g a r.1)
      → in_context s r f ≡ in_context s r g
  in_context-cong s (ok a, w) f g h = h a refl
  in_context-cong s (err e, w) f g h = refl

  -- A result that no error satisfies comes from a successful first part.
  pub in_context-inv :
      (P : Result B → Type 0) (s : String) (r : Result A × W) (f : A → M W B)
      → ((e : Error) → ¬ P (err e))
      → P (in_context s r f).0
      → (a : A) × (r.0 ≡ ok a) × P (f a r.1).0
  in_context-inv P s (ok a, w) f never p = (a, refl, p)
  in_context-inv P s (err e, w) f never p = absurd (never _ p)

  -- The same the other way round.
  pub in_context-run :
      (P : Result B → Type 0) (s : String) (r : Result A × W) (f : A → M W B) (a : A)
      → r.0 ≡ ok a
      → P (f a r.1).0
      → P (in_context s r f).0
  in_context-run P s (q, w) f a e p = rw e p

  pub bind-inv :
      (P : Result B → Type 0) (r : Result A × W) (f : A → M W B)
      → ((e : Error) → ¬ P (err e))
      → P (continue r f).0
      → (a : A) × (r.0 ≡ ok a) × P (f a r.1).0
  bind-inv P (ok a, w) f never p = (a, refl, p)
  bind-inv P (err e, w) f never p = absurd (never _ p)

  -- What every outcome of the two parts satisfies.
  pub continue-holds :
      (P : Result B → Type 0) (r : Result A × W) (f : A → M W B)
      → ((e : Error) → P (err e))
      → ((a : A) (w : W) → r ≡ (ok a, w) → P (f a w).0)
      → P (continue r f).0
  continue-holds P (ok a, w) f bad good = good a w refl
  continue-holds P (err e, w) f bad good = bad e

  pub in_context-holds :
      (P : Result B → Type 0) (s : String) (r : Result A × W) (f : A → M W B)
      → ((e : Error) → P (err e))
      → ((a : A) (w : W) → r ≡ (ok a, w) → P (f a w).0)
      → P (in_context s r f).0
  in_context-holds P s (ok a, w) f bad good = good a w refl
  in_context-holds P s (err e, w) f bad good = bad (wrap s e)

-- The same for results that no world stands behind.
pub then_with-inv :
    {A B : Type 0} (r : Result A) (f : A → Result B) (b : B)
    → then_with r f ≡ ok b
    → (a : A) × (r ≡ ok a) × (f a ≡ ok b)
then_with-inv (ok a) f b h = (a, refl, h)
then_with-inv (err e) f b h = cc

pub with_context-inv :
    {A : Type 0} (s : String) (r : Result A) (a : A) → with_context s r ≡ ok a → r ≡ ok a
with_context-inv s (ok b) a h = h
with_context-inv s (err e) a h = cc

-- The result is this value.
abbrev pub Gives : {A : Type 0} → A → Result A → Type 0
Gives a (ok b) = b ≡ a
Gives a (err e) = ⊥

pub Gives-ok : {A : Type 0} (a : A) (r : Result A) → r ≡ ok a → Gives a r
Gives-ok a r e = rw e refl

pub ok_of_Gives : {A : Type 0} (a : A) (r : Result A) → Gives a r → r ≡ ok a
ok_of_Gives a (ok b) h = ap ok h
ok_of_Gives a (err e) h = absurd h

pub Gives-with_context :
    {A : Type 0} (s : String) (a : A) (r : Result A) → Gives a (with_context s r) → r ≡ ok a
Gives-with_context s a (ok b) h = ap ok h
Gives-with_context s a (err e) h = absurd h
