-- ===== src/Common/Text.antt =====
-- Texts as the front end handles them: emptiness (a falsy text), `trim`, `toLowerCase`, and the order
-- of `<` and `>` on texts, which is the order of their UTF-16 code units.
pub mod Laws
pub mod Split
pub mod Units
pub mod Number
pub mod Words
use Prim.Native.Nat.{ℕ, zero, suc, ◌+◌, ◌-◌, ◌/◌, ◌%◌, compare, Ordering}
use Prim.Native.Char.{Char, code}
use Prim.Native.String
use Prim.Native.String.{String}
use mathlib.Core.Bool.{Bool, true, false, not, ◌&&◌, ◌||◌}
use mathlib.Core.Option.{Option, none, some}
use mathlib.Core.List.{List, [], ◌∷◌}
use acp_webui.Common.Tests.{ltb, leb, nat_eq, if◌then◌else◌}

abbrev pub is_empty : String → Bool
is_empty String.[] = true
is_empty (String.◌∷◌ c s) = false

-- The code points that `trim` and `\s` take for white space or a line end.
abbrev pub is_space : Char → Bool
is_space c =
    let n = code c in
    leb 9 n && leb n 13
    || nat_eq n 32
    || nat_eq n 160
    || nat_eq n 5760
    || leb 8192 n && leb n 8202
    || nat_eq n 8232
    || nat_eq n 8233
    || nat_eq n 8239
    || nat_eq n 8287
    || nat_eq n 12288
    || nat_eq n 65279

unfoldable pub trim_start : String → String
trim_start String.[] = String.[]
trim_start (String.◌∷◌ c s) = let rest = trim_start s in if is_space c then rest else String.◌∷◌ c s

unfoldable pub trim_end : String → String
trim_end String.[] = String.[]
trim_end (String.◌∷◌ c s) =
    let rest = trim_end s in if is_empty rest && is_space c then String.[] else String.◌∷◌ c rest

unfoldable pub trim : String → String
unfolding trim_start trim_end
trim s = trim_start (trim_end s)

-- `toLowerCase`, for the letters whose lower case has an ASCII letter: A to Z, the Kelvin sign and the
-- dotted capital I. Other letters stay: the front end only compares the result with ASCII words, or
-- shows it.
letter_at : String → ℕ → Char → Char
letter_at String.[] n d = d
letter_at (String.◌∷◌ c s) zero d = c
letter_at (String.◌∷◌ c s) (suc n) d = letter_at s n d

lower_char : Char → Char
unfolding letter_at
lower_char c =
    let n = code c in
    if leb 65 n && leb n 90
    then letter_at "abcdefghijklmnopqrstuvwxyz" (n - 65) c
    else if nat_eq n 8490
    then letter_at "k" 0 c
    else c

unfoldable pub to_lower_case : String → String
unfolding lower_char
to_lower_case String.[] = String.[]
to_lower_case (String.◌∷◌ c s) =
    let rest = to_lower_case s in
    if nat_eq (code c) 304 then String.◌++◌ "i̇" rest else String.◌∷◌ (lower_char c) rest

-- `s.charAt(0).toUpperCase() + s.slice(1)`, for an ASCII letter; others stay.
unfoldable pub capital : String → String
unfolding letter_at
capital String.[] = String.[]
capital (String.◌∷◌ c s) =
    let n = code c in
    if leb 97 n && leb n 122
    then String.◌∷◌ (letter_at "ABCDEFGHIJKLMNOPQRSTUVWXYZ" (n - 97) c) s
    else String.◌∷◌ c s

-- The UTF-16 code units of a text.
abbrev units_of : Char → List ℕ → List ℕ
units_of c rest =
    let n = code c in
    if ltb n 65536
    then n ∷ rest
    else (55296 + (n - 65536) / 1024) ∷ (56320 + (n - 65536) % 1024) ∷ rest

unfoldable pub units : String → List ℕ
units String.[] = []
units (String.◌∷◌ c s) = units_of c (units s)

-- The order of two texts of which neither is a prefix is that of the first units that differ.
unfoldable pub compare_units : List ℕ → List ℕ → Ordering
compare_units [] [] = Ordering.eq
compare_units [] (b ∷ ns) = Ordering.lt
compare_units (a ∷ ms) [] = Ordering.gt
compare_units (a ∷ ms) (b ∷ ns) =
    let rest = compare_units ms ns in
    elim (compare a b) [
      | Ordering.lt ↦ Ordering.lt
      | Ordering.eq ↦ rest
      | Ordering.gt ↦ Ordering.gt
    ]

-- `s > t`
unfoldable pub text_gt : String → String → Bool
unfolding units compare_units
text_gt s t = elim (compare_units (units s) (units t)) [ Ordering.gt ↦ true | _ ↦ false ]

-- `(o ?? "")` is not empty: an optional text that is truthy.
abbrev pub truthy : Option String → Bool
truthy none = false
truthy (some s) = not (is_empty s)

-- `s.includes(t)`
abbrev pub includes : String → String → Bool
includes s t = leb (String.find s t) (String.len s)

-- `${s}${t}`
infixr 66 ◌<>◌
abbrev pub ◌<>◌ : String → String → String
s <> t = String.◌++◌ s t
