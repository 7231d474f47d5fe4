-- ===== src/Base/Words.antt =====
-- The functions of Go's packages strings and strconv that the program calls on short texts.
use Prim.Native.Char.{code}
use Prim.Native.Nat.{ℕ, ◌+◌}
use Prim.Native.String.{String}
use mathlib.Core.Bool.{Bool, true, false, ◌&&◌, ◌||◌}
use mathlib.Core.List.{List, [], ◌∷◌, map}
use mathlib.Core.Option.{Option, none, some}
use text.Mathlib.Text.{◌==◌}
use scalable_e_commerce_plat.Base.Tests.{ltb, leb, nat_eq, if◌then◌else◌}
use scalable_e_commerce_plat.Base.Text.{codes}

-- unicode.IsSpace
abbrev pub is_space : ℕ → Bool
is_space n =
    leb 9 n && leb n 13
    || nat_eq n 32
    || nat_eq n 133
    || nat_eq n 160
    || nat_eq n 5760
    || leb 8192 n && leb n 8202
    || nat_eq n 8232
    || nat_eq n 8233
    || nat_eq n 8239
    || nat_eq n 8287
    || nat_eq n 12288

abbrev pub trim_left : String → String
trim_left String.[] = String.[]
trim_left (String.◌∷◌ c s) =
    let rest = trim_left s in if is_space (code c) then rest else String.◌∷◌ c s

abbrev pub trim_right : String → String
trim_right String.[] = String.[]
trim_right (String.◌∷◌ c s) =
    let rest = trim_right s in
    if is_space (code c) && rest == "" then String.[] else String.◌∷◌ c rest

-- strings.TrimSpace
unfoldable pub trim_space : String → String
trim_space s = trim_right (trim_left s)

-- unicode.ToLower, for the code points whose lower case is in ASCII (A to Z, İ and the Kelvin
-- sign); it is compared with texts in ASCII only.
abbrev pub lower_code : ℕ → ℕ
lower_code n =
    if leb 65 n && leb n 90
    then n + 32
    else if nat_eq n 304
    then 105
    else if nat_eq n 8490
    then 107
    else n

-- strings.ToLower, as code points.
unfoldable pub lower_codes : String → List ℕ
lower_codes s = map lower_code (codes s)

abbrev pub same_codes : List ℕ → List ℕ → Bool
same_codes [] [] = true
same_codes [] (y ∷ ys) = false
same_codes (x ∷ xs) [] = false
same_codes (x ∷ xs) (y ∷ ys) = let rest = same_codes xs ys in if nat_eq x y then rest else false

abbrev utf8_width : ℕ → ℕ
utf8_width n = if ltb n 128 then 1 else if ltb n 2048 then 2 else if ltb n 65536 then 3 else 4

abbrev total_width : List ℕ → ℕ
total_width [] = 0
total_width (n ∷ ns) = utf8_width n + total_width ns

-- len([]byte(s))
unfoldable pub byte_length : String → ℕ
byte_length s = total_width (codes s)

abbrev pub member : String → List String → Bool
member s [] = false
member s (t ∷ ts) = let rest = member s ts in if t == s then true else rest

-- strconv.ParseBool; none is its error.
unfoldable pub parse_bool : String → Option Bool
parse_bool s =
    if member s ("1" ∷ "t" ∷ "T" ∷ "true" ∷ "TRUE" ∷ "True" ∷ [])
    then some true
    else if member s ("0" ∷ "f" ∷ "F" ∷ "false" ∷ "FALSE" ∷ "False" ∷ [])
    then some false
    else none

-- The rest of a text behind a prefix.
abbrev pub rest_of : String → String → Option String
rest_of String.[] s = some s
rest_of (String.◌∷◌ c p) String.[] = none
rest_of (String.◌∷◌ c p) (String.◌∷◌ d s) =
    let rest = rest_of p s in if nat_eq (code c) (code d) then rest else none

-- strings.TrimPrefix
unfoldable pub trim_prefix : String → String → String
trim_prefix s prefix = elim (rest_of prefix s) [ none ↦ s | some rest ↦ rest ]
