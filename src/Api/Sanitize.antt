-- ===== src/Api/Sanitize.antt =====
-- SanitizeVersion of api/v1alpha1/release_types.go, on the code points of its text.
pub mod Suffix
use Prim.Native.Char.{char, code, IsScalar}
use mathlib.Core.Logic.{dite}
use mathlib.Core.List.{reverse}
use native.Mathlib.Decide.{dec_lt}
use elemental_lifecycle_mana.Prelude.{
  ℕ, ◌+◌, ◌<◌, ◌≡◌, refl, String, Bool, true, false, List, [], ◌∷◌, map, ◌&&◌, ◌||◌, leb, nat_eq,
  arith, if◌then◌else◌,
}

abbrev pub code_points : String → List ℕ
code_points String.[] = []
code_points (String.◌∷◌ letter text) = let rest = code_points text in code letter ∷ rest

pub IsScalar-of_lt : (n : ℕ) → n < 55296 → IsScalar n
IsScalar-of_lt n h = ground arith

pub of_codes : List ℕ → String
of_codes [] = String.[]
of_codes (n ∷ ns) =
    String.◌∷◌ (dite (dec_lt n 55296) (λ h. char n (IsScalar-of_lt n h)) (λ _. char 65533 tt))
      (of_codes ns)

-- `unicode.ToLower` where its value matters here: on ASCII, and at the two characters beyond it
-- whose lower case is ASCII, U+0130 and U+212A. Every other character keeps its number: its lower
-- case is not ASCII either, and `replace` treats all of these alike.
pub lower : ℕ → ℕ
lower c =
    if leb b'A' c && leb c b'Z'
    then c + 32
    else if nat_eq c 0x130
    then b'i'
    else if nat_eq c 0x212a
    then b'k'
    else c

-- The class `[a-z0-9-]`.
pub is_name_char : ℕ → Bool
is_name_char c = leb b'a' c && leb c b'z' || leb b'0' c && leb c b'9' || nat_eq c b'-'

-- `namingRegex.ReplaceAllString(s, "-")`: each longest run of other characters becomes one dash.
-- `run` says that the character before was replaced.
pub replace : Bool → List ℕ → List ℕ
replace run [] = []
replace run (c ∷ s) =
    let kept = c ∷ replace false s in
    let skipped = replace true s in
    let dash = b'-' ∷ replace true s in
    if is_name_char c then kept else if run then skipped else dash

pub trim_left : List ℕ → List ℕ
trim_left [] = []
trim_left (c ∷ s) = let rest = trim_left s in if nat_eq c b'-' then rest else c ∷ s

-- `strings.Trim(s, "-")`.
pub trim : List ℕ → List ℕ
unfolding trim_left
trim s = reverse (trim_left (reverse (trim_left s)))

pub sanitize_codes : List ℕ → List ℕ
unfolding lower replace is_name_char trim
sanitize_codes s = trim (replace false (map lower s))

unfoldable pub sanitize_version : String → String
unfolding sanitize_codes of_codes dec_lt
sanitize_version version = of_codes (sanitize_codes (code_points version))

sanitize_test : sanitize_version "v1.35.1+RKE2r1" ≡ "v1-35-1-rke2r1"
unfolding sanitize_version
sanitize_test = refl
