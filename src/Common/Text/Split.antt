-- ===== src/Common/Text/Split.antt =====
-- Texts in parts: `split`, `join`, `endsWith`, the replacements and the word boundaries that the
-- regular expressions of the front end use.
use Prim.Native.Nat.{ℕ}
use Prim.Native.Char.{Char, code}
use Prim.Native.String.{String}
use mathlib.Core.Bool.{Bool, true, false, ◌&&◌, ◌||◌}
use mathlib.Core.List.{List, [], ◌∷◌}
use text.Mathlib.Text.{◌==◌, starts_with}
use acp_webui.Common.Tests.{leb, nat_eq, if◌then◌else◌}
use acp_webui.Common.Lists.{any}
use acp_webui.Common.Text.{◌<>◌, is_empty}

abbrev pub is_code : ℕ → Char → Bool
is_code n c = nat_eq (code c) n

abbrev pub is_break : Char → Bool
is_break c = is_code b'\n' c

-- Whether a text begins with a character that passes a test.
abbrev pub first_is : (Char → Bool) → String → Bool
first_is p String.[] = false
first_is p (String.◌∷◌ c s) = p c

abbrev pub to_head : Char → List String → List String
to_head c [] = String.◌∷◌ c String.[] ∷ []
to_head c (x ∷ xs) = String.◌∷◌ c x ∷ xs

-- `s.split("\n")`
unfoldable pub split_lines : String → List String
split_lines String.[] = String.[] ∷ []
split_lines (String.◌∷◌ c s) =
    let rest = split_lines s in if is_break c then String.[] ∷ rest else to_head c rest

-- `parts.join(sep)`
unfoldable pub join : String → List String → String
join sep [] = String.[]
join sep (x ∷ []) = x
join sep (x ∷ y ∷ ys) = x <> sep <> join sep (y ∷ ys)

-- `s.replace(/\r\n/g, "\n")`
unfoldable pub unix_lines : String → String
unix_lines String.[] = String.[]
unix_lines (String.◌∷◌ c s) =
    let rest = unix_lines s in
    if is_code b'\r' c && first_is is_break s then rest else String.◌∷◌ c rest

-- `s.replace(/[...]+/g, " ")`: each longest run of the characters that pass the test becomes a space.
unfoldable pub squash : (Char → Bool) → String → String
squash p String.[] = String.[]
squash p (String.◌∷◌ c s) =
    let rest = squash p s in
    if p c then (if first_is p s then rest else " " <> rest) else String.◌∷◌ c rest

-- `s.endsWith(t)`
unfoldable pub ends_with : String → String → Bool
ends_with String.[] t = is_empty t
ends_with (String.◌∷◌ c s) t = String.◌∷◌ c s == t || ends_with s t

-- The text up to the first character that passes the test, and the text from there.
unfoldable pub before : (Char → Bool) → String → String
before p String.[] = String.[]
before p (String.◌∷◌ c s) = let rest = before p s in if p c then String.[] else String.◌∷◌ c rest

unfoldable pub after : (Char → Bool) → String → String
after p String.[] = String.[]
after p (String.◌∷◌ c s) = let rest = after p s in if p c then String.◌∷◌ c s else rest

-- `\w`
abbrev pub is_word_char : Char → Bool
is_word_char c =
    let n = code c in
    leb b'0' n && leb n b'9'
    || leb b'A' n && leb n b'Z'
    || leb b'a' n && leb n b'z'
    || nat_eq n b'_'

-- A text as its longest runs of word characters (`true`) and of others (`false`): `\b` is where two
-- runs meet.
abbrev same : Bool → Bool → Bool
same true b = b
same false true = false
same false false = true

abbrev pub to_piece : Bool → Char → List (Bool × String) → List (Bool × String)
to_piece b c [] = (b, String.◌∷◌ c String.[]) ∷ []
to_piece b c ((b', t) ∷ ps) =
    if same b b' then (b', String.◌∷◌ c t) ∷ ps else (b, String.◌∷◌ c String.[]) ∷ (b', t) ∷ ps

unfoldable pub pieces : String → List (Bool × String)
pieces String.[] = []
pieces (String.◌∷◌ c s) = to_piece (is_word_char c) c (pieces s)

abbrev pub is_one_of : List String → String → Bool
is_one_of words s = any (λ w. w == s) words

-- `/\b(w1|w2|...)\b/.test(s)`, for words of word characters
unfoldable pub has_word : List String → String → Bool
unfolding pieces
has_word words s = any (λ (b, t). b && is_one_of words t) (pieces s)

-- Whether every character passes a test.
unfoldable pub every : (Char → Bool) → String → Bool
every p String.[] = true
every p (String.◌∷◌ c s) = p c && every p s

abbrev pub begins_with_one_of : List String → String → Bool
begins_with_one_of prefixes s = any (λ t. starts_with s t) prefixes

-- `ss.filter(Boolean)`: the texts that are not empty.
abbrev pub nonempty : List String → List String
nonempty [] = []
nonempty (s ∷ ss) = if is_empty s then nonempty ss else s ∷ nonempty ss
