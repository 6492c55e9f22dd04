-- ===== src/Api/Sanitize/Suffix.antt =====
-- The texts that SanitizeVersion of api/v1alpha1/release_types.go makes, for names in Kubernetes.
use Prim.Native.Char.{char, code}
use mathlib.Core.Path.{ap, ◌∙◌}
use mathlib.Core.Logic.{dite}
use mathlib.Core.List.{reverse, reverse-append, reverse-reverse, reverse-cons}
use native.Mathlib.Decide.{dec_lt}
use elemental_lifecycle_mana.Prelude.{
  ℕ, ◌<◌, ◌≡◌, refl, sym, subst, String, Bool, true, false, List, [], ◌∷◌, ◌++◌, map, nat_eq, arith,
  if◌then◌else◌, All, All-append,
}
use elemental_lifecycle_mana.Api.Sanitize.{
  code_points, of_codes, IsScalar-of_lt, lower, is_name_char, replace, trim_left, trim,
  sanitize_codes, sanitize_version,
}

abbrev pub IsNameChar : ℕ → Type 0
IsNameChar c = is_name_char c ≡ true

abbrev pub starts_with_dash : List ℕ → Bool
starts_with_dash [] = false
starts_with_dash (c ∷ s) = nat_eq c b'-'

-- Only characters of the class `[a-z0-9-]`, and no dash at either end.
abbrev pub IsNameSuffix : List ℕ → Type 0
IsNameSuffix s =
    All IsNameChar s × (starts_with_dash s ≡ false) × (starts_with_dash (reverse s) ≡ false)

replace-IsNameChar : (run : Bool) (s : List ℕ) → All IsNameChar (replace run s)
unfolding replace is_name_char
replace-IsNameChar run [] = tt
replace-IsNameChar run (c ∷ s) =
    let kept = replace-IsNameChar false s in let skipped = replace-IsNameChar true s in ground arith

trim_left-All : (P : ℕ → Type 0) (s : List ℕ) → All P s → All P (trim_left s)
unfolding trim_left
trim_left-All P [] h = tt
trim_left-All P (c ∷ s) (h, hs) = let rest = trim_left-All P s hs in ground arith

reverse-All : (P : ℕ → Type 0) (s : List ℕ) → All P s → All P (reverse s)
reverse-All P [] h = tt
reverse-All P (c ∷ s) (h, hs) =
    subst (All P) (sym (reverse-cons c s))
      (All-append P (reverse s) (c ∷ []) (reverse-All P s hs) (h, tt))

trim_left-start : (s : List ℕ) → starts_with_dash (trim_left s) ≡ false
unfolding trim_left
trim_left-start [] = refl
trim_left-start (c ∷ s) = let rest = trim_left-start s in ground arith

if_path : (P : List ℕ → Type 0) (b : Bool) {x y : List ℕ} → P x → P y → P (if b then x else y)
if_path P true p q = p
if_path P false p q = q

-- What trim_left drops stands before what it keeps.
trim_left-dropped : (s : List ℕ) → (dropped : List ℕ) × (s ≡ dropped ++ trim_left s)
unfolding trim_left
trim_left-dropped [] = ([], refl)
trim_left-dropped (c ∷ s) =
    let (dropped, same) = trim_left-dropped s in
    if_path (λ kept. (ds : List ℕ) × (c ∷ s ≡ ds ++ kept)) (nat_eq c b'-')
      (c ∷ dropped, ap (λ (x : List ℕ). c ∷ x) same) ([], refl)

starts-append : (s t : List ℕ) → starts_with_dash (s ++ t) ≡ false → starts_with_dash s ≡ false
starts-append [] t h = refl
starts-append (c ∷ s) t h = h

code-dite :
    (n : ℕ) (d : Dec (n < 55296))
    → n < 55296
    → code (dite d (λ h. char n (IsScalar-of_lt n h)) (λ _. char 65533 tt)) ≡ n
code-dite n (yes h) small = refl
code-dite n (no h) small = absurd (h small)

trim-start :
    (t : List ℕ)
    → starts_with_dash t ≡ false
    → starts_with_dash (reverse (trim_left (reverse t))) ≡ false
trim-start t h =
    let (dropped, same) = trim_left-dropped (reverse t) in
    let parts : t ≡ reverse (trim_left (reverse t)) ++ reverse dropped =
      sym (reverse-reverse t) ∙ ap reverse same ∙ reverse-append dropped (trim_left (reverse t)) in
    starts-append (reverse (trim_left (reverse t))) (reverse dropped)
      (subst (λ x. starts_with_dash x ≡ false) parts h)

trim-IsNameSuffix : (s : List ℕ) → All IsNameChar s → IsNameSuffix (trim s)
unfolding trim
trim-IsNameSuffix s h =
    let left = trim_left s in
    let right = trim_left (reverse left) in
    (
      reverse-All IsNameChar right (
          trim_left-All IsNameChar (reverse left)
            (reverse-All IsNameChar left (trim_left-All IsNameChar s h))),
      trim-start left (trim_left-start s),
      subst (λ x. starts_with_dash x ≡ false) (sym (reverse-reverse right))
          (trim_left-start (reverse left)),
    )

IsNameChar-small : (n : ℕ) → IsNameChar n → n < 55296
unfolding is_name_char
IsNameChar-small n h = ground arith

code_points-of_codes : (s : List ℕ) → All IsNameChar s → code_points (of_codes s) ≡ s
unfolding of_codes
code_points-of_codes [] h = refl
code_points-of_codes (n ∷ s) (h, hs) =
    rw (code-dite n (dec_lt n 55296) (IsNameChar-small n h), code_points-of_codes s hs)

replaced_version : String → List ℕ
replaced_version version = replace false (map lower (code_points version))

trimmed-IsNameSuffix : (version : String) → IsNameSuffix (trim (replaced_version version))
unfolding replaced_version
trimmed-IsNameSuffix version = trim-IsNameSuffix _ (replace-IsNameChar false _)

code_points-sanitize_version :
    (version : String) → code_points (sanitize_version version) ≡ trim (replaced_version version)
unfolding sanitize_version sanitize_codes replaced_version
code_points-sanitize_version version =
    code_points-of_codes (trim (replaced_version version)) (trimmed-IsNameSuffix version).0

-- Whatever the version is, the sanitized one has only lower-case letters of ASCII, digits and
-- dashes, and it neither starts nor ends with a dash.
pub sanitize_version-IsNameSuffix :
    (version : String) → IsNameSuffix (code_points (sanitize_version version))
sanitize_version-IsNameSuffix version =
    subst IsNameSuffix (sym (code_points-sanitize_version version)) (trimmed-IsNameSuffix version)

map-lower : (s : List ℕ) → All IsNameChar s → map lower s ≡ s
unfolding lower is_name_char
map-lower [] h = refl
map-lower (c ∷ s) (h, hs) = let rest = map-lower s hs in ground arith

replace-kept : (s : List ℕ) → All IsNameChar s → replace false s ≡ s
unfolding replace
replace-kept [] h = refl
replace-kept (c ∷ s) (h, hs) = let rest = replace-kept s hs in ground arith

trim_left-kept : (s : List ℕ) → starts_with_dash s ≡ false → trim_left s ≡ s
unfolding trim_left
trim_left-kept [] h = refl
trim_left-kept (c ∷ s) h = ground arith

sanitize_codes-kept : (s : List ℕ) → IsNameSuffix s → sanitize_codes s ≡ s
unfolding sanitize_codes trim
sanitize_codes-kept s (chars, start, end) = rw (
  map-lower s chars,
  replace-kept s chars,
  trim_left-kept s start,
  trim_left-kept (reverse s) end,
  reverse-reverse s,
)

-- A sanitized version stays as it is when it is sanitized again.
pub sanitize_version-idempotent :
    (version : String) → sanitize_version (sanitize_version version) ≡ sanitize_version version
unfolding sanitize_version replaced_version
sanitize_version-idempotent version = ap of_codes (
    ap sanitize_codes (code_points-sanitize_version version)
    ∙ sanitize_codes-kept (trim (replaced_version version)) (trimmed-IsNameSuffix version))
