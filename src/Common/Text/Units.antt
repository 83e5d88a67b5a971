-- ===== src/Common/Text/Units.antt =====
-- The length of a text and its beginnings, counted in UTF-16 code units as the front end counts them.
use Prim.Native.Nat.{ℕ, zero, suc, ◌+◌, ◌≤◌}
use Prim.Native.Char.{Char, code}
use Prim.Native.String.{String}
use text.Mathlib.TextLemmas.{nil-append, cons-append}
use mathlib.Core.Path.{◌≡◌}
use mathlib.Core.Logic.{inl, inr}
use native.Mathlib.Omega.{arith}
use acp_webui.Common.Tests.{ltb, if◌then◌else◌, Bool-cases}
use acp_webui.Common.Text.{◌<>◌}

-- The code units of a character.
abbrev pub width : Char → ℕ
width c = if ltb (code c) 65536 then 1 else 2

-- `s.length`
unfoldable pub length : String → ℕ
length String.[] = 0
length (String.◌∷◌ c s) = width c + length s

-- `s.slice(0, n)`. A cut inside a surrogate pair leaves half of it, which is written U+FFFD: it has
-- one code unit too, and is what a page shows for it.
unfoldable pub take : ℕ → String → String
take zero s = String.[]
take (suc n) String.[] = String.[]
take (suc zero) (String.◌∷◌ c s) = if ltb (code c) 65536 then String.◌∷◌ c String.[] else "�"
take (suc (suc n)) (String.◌∷◌ c s) =
    let narrow = take (suc n) s in
    let wide = take n s in if ltb (code c) 65536 then String.◌∷◌ c narrow else String.◌∷◌ c wide

pub length-take : (n : ℕ) (s : String) → length (take n s) ≤ n
unfolding length take
length-take zero s = omega arith
length-take (suc n) String.[] = omega arith
length-take (suc zero) (String.◌∷◌ c s) = elim (Bool-cases (ltb (code c) 65536)) [
  | inl narrow ↦ rw narrow (rw narrow (omega arith))
  | inr wide ↦ rw wide (omega arith)
]
length-take (suc (suc n)) (String.◌∷◌ c s) =
    let short = length-take (suc n) s in
    let shorter = length-take n s in
    elim (Bool-cases (ltb (code c) 65536)) [
      | inl narrow ↦ rw narrow (rw narrow (omega arith))
      | inr wide ↦ rw wide (rw wide (omega arith))
    ]

pub length-append : (s t : String) → length (s <> t) ≡ length s + length t
unfolding length
length-append String.[] t = rw nil-append (omega arith)
length-append (String.◌∷◌ c s) t = rw cons-append (rw (length-append s t) (omega arith))
