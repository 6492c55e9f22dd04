-- ===== src/Phase/Names.antt =====
-- The functions of Go's `strings` and `strconv` that names and messages are made with.
use Prim.Native.Char.{Char, code}
use Prim.Native.String
use Prim.Native.String.{[], ◌∷◌}
use elemental_lifecycle_mana.Prelude.{
  ℕ, zero, suc, ◌+◌, ◌/◌, ◌%◌, String, Bool, true, false, ◌||◌, ◌==◌, ltb, nat_eq, if◌then◌else◌,
}

-- `strings.TrimSuffix`.
unfoldable pub trim_suffix : String → String → String
trim_suffix [] end = []
trim_suffix (c ∷ s) end = if (c ∷ s) == end then [] else c ∷ trim_suffix s end

-- `strings.TrimPrefix` for a prefix of one character.
unfoldable pub trim_prefix : Char → String → String
trim_prefix p [] = []
trim_prefix p (c ∷ s) = if nat_eq (code c) (code p) then s else c ∷ s

-- `strings.HasPrefix`.
unfoldable pub has_prefix : String → String → Bool
has_prefix s [] = true
has_prefix [] (c ∷ p) = false
has_prefix (d ∷ s) (c ∷ p) =
    let rest = has_prefix s p in if nat_eq (code d) (code c) then rest else false

hex_digit : ℕ → String
hex_digit n = String.slice "0123456789abcdef" n (n + 1)

-- One character under `%q`. Characters above 127 are taken as printable.
quote_char : Char → String
unfolding hex_digit
quote_char c =
    if nat_eq (code c) b'"'
    then "\\\""
    else if nat_eq (code c) b'\\'
    then "\\\\"
    else if nat_eq (code c) 7
    then "\\a"
    else if nat_eq (code c) 8
    then "\\b"
    else if nat_eq (code c) 12
    then "\\f"
    else if nat_eq (code c) 10
    then "\\n"
    else if nat_eq (code c) 13
    then "\\r"
    else if nat_eq (code c) 9
    then "\\t"
    else if nat_eq (code c) 11
    then "\\v"
    else if ltb (code c) 32 || nat_eq (code c) 127
    then String.◌++◌ "\\x" (String.◌++◌ (hex_digit (code c / 16)) (hex_digit (code c % 16)))
    else c ∷ []

quote_chars : String → String
quote_chars [] = []
quote_chars (c ∷ s) = String.◌++◌ (quote_char c) (quote_chars s)

-- `%q` of a text.
unfoldable pub quote : String → String
unfolding quote_chars quote_char
quote s = String.◌++◌ "\"" (String.◌++◌ (quote_chars s) "\"")

decimal_digits : ℕ → ℕ → String
decimal_digits zero n = []
decimal_digits (suc fuel) n =
    let rest = decimal_digits fuel (n / 10) in
    if nat_eq n 0 then [] else String.◌++◌ rest (String.slice "0123456789" (n % 10) (n % 10 + 1))

-- `%d`: a number below 10 ^ 20 has at most twenty digits, and the program prints lengths.
unfoldable pub decimal : ℕ → String
unfolding decimal_digits
decimal n = if nat_eq n 0 then "0" else decimal_digits 20 n
