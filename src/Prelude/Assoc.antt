-- ===== src/Prelude/Assoc.antt =====
-- A Go map with string keys, as an association list.
use Prim.Native.String.{String}
use mathlib.Core.Path.{◌≡◌, refl, subst, ◌∙◌}
use mathlib.Core.Logic.{inl, inr}
use mathlib.Core.Option.{Option, none, some}
use mathlib.Core.List.{List, [], ◌∷◌}
use native.Mathlib.Omega.{arith}
use text.Mathlib.Text.{◌==◌}
use text.Mathlib.TextEquality.{eq_iff}
use elemental_lifecycle_mana.Prelude.Tests.{if◌then◌else◌, Bool-cases}

-- One entry of a map for each key.
abbrev pub Entries {ℓ} : Type ℓ → Type ℓ
Entries A = List (String × A)

-- `v, ok := m[k]`
unfoldable pub lookup {ℓ} : {A : Type ℓ} → String → Entries A → Option A
lookup key [] = none
lookup key ((name, value) ∷ entries) =
    let later = lookup key entries in if name == key then some value else later

-- `m[k] = v`
unfoldable pub insert {ℓ} : {A : Type ℓ} → String → A → Entries A → Entries A
insert key new [] = (key, new) ∷ []
insert key new ((name, value) ∷ entries) =
    let later = insert key new entries in
    if name == key then (key, new) ∷ entries else (name, value) ∷ later

-- A key reads as what was stored last under it.
pub lookup-insert {ℓ} :
    {A : Type ℓ} (stored key : String) (new : A) (entries : Entries A)
    → lookup key (insert stored new entries)
      ≡ (if stored == key then some new else lookup key entries)
unfolding insert lookup
lookup-insert stored key new [] = refl
lookup-insert stored key new ((name, value) ∷ entries) =
    let later = lookup-insert stored key new entries in
    ground (arith, later, eq_iff name key, eq_iff name stored, eq_iff stored key)

abbrev pub keys {ℓ} : {A : Type ℓ} → Entries A → List String
keys [] = []
keys ((name, value) ∷ entries) = name ∷ keys entries

-- `m[k]` of a `map[string]string`: the empty text for a missing key.
abbrev pub text_at : String → Entries String → String
text_at key entries = elim (lookup key entries) [ none ↦ "" | some text ↦ text ]

-- What a map has under a key after the values of another map were stored in it, each under its key
-- and as a value that `P` relates it to.
module _ {A B : Type 0} (P : A → B → Type 0) where
  abbrev pub StoredAs : Option A → Option B → Option B → Type 0
  StoredAs none before after = after ≡ before
  StoredAs (some a) before after = (b : B) × P a b × (after ≡ some b)

  not_stored :
      (o : Option A) (before after : Option B) → o ≡ none → StoredAs o before after → after ≡ before
  not_stored o before after e h = subst (λ o'. StoredAs o' before after) e h

  -- One value is stored before the others.
  pub StoredAs-first :
      (key name : String) (a : A) (b : B) (rest : Entries A) (entries : Entries B)
      (after : Option B)
      → P a b
      → lookup key rest ≡ none
      → StoredAs (lookup name rest) (lookup name (insert key b entries)) after
      → StoredAs (lookup name ((key, a) ∷ rest)) (lookup name entries) after
  unfolding lookup
  StoredAs-first key name a b rest entries after p fresh h = elim (Bool-cases (key == name)) [
    | inl e ↦
        let same = (eq_iff key name).0 e in
        let stored =
          not_stored (lookup name rest) _ after
            (subst (λ (n : String). lookup n rest ≡ none) same fresh) h in
        rw e (b, p, stored ∙ lookup-insert key name b entries ∙ rw e)
    | inr e ↦ rw e (rw (lookup-insert key name b entries, e) at h)
  ]
