-- ===== src/Common/Text/Words.antt =====
-- The words of a text, and those of texts that are put together.
use Prim.Native.Char.{Char}
use Prim.Native.String.{String}
use text.Mathlib.TextLemmas.{nil-append, cons-append, append_assoc}
use mathlib.Core.Bool.{Bool, true, false, ◌&&◌}
use mathlib.Core.List.{List, [], ◌∷◌, ◌++◌}
use mathlib.Core.Logic.{inl, inr}
use mathlib.Core.Path.{◌≡◌, refl, sym, ap, ◌∙◌}
use native.Mathlib.Omega.{arith}
use acp_webui.Common.Tests.{if◌then◌else◌, Bool-cases}
use acp_webui.Common.Text.{is_empty, is_space, trim, trim_end, trim_start, ◌<>◌}

abbrev close : String → List String → List String
close w ws = if is_empty w then ws else w ∷ ws

abbrev read : (space : Bool) → Char → String × List String → String × List String
read true c (w, ws) = (String.[], close w ws)
read false c (w, ws) = (String.◌∷◌ c w, ws)

-- The word that a text begins with, which may be empty, and the words behind it.
unfoldable pub tokens : String → String × List String
tokens String.[] = (String.[], [])
tokens (String.◌∷◌ c s) = read (is_space c) c (tokens s)

-- `/[\s\n]$/u.test(s)`
unfoldable pub ends_with_space : String → Bool
ends_with_space String.[] = false
ends_with_space (String.◌∷◌ c s) =
    let rest = ends_with_space s in if is_empty s then is_space c else rest

-- The words of a text: its longest runs without white space.
unfoldable pub words : String → List String
unfolding tokens
words s = close (tokens s).0 (tokens s).1

tokens-trim_end : (s : String) → tokens (trim_end s) ≡ tokens s
unfolding tokens trim_end
tokens-trim_end String.[] = refl
tokens-trim_end (String.◌∷◌ c s) = elim (Bool-cases (is_empty (trim_end s) && is_space c)) [
  | inr kept ↦ rw kept (rw (tokens-trim_end s) refl)
  | inl blank ↦
      let none_left : trim_end s ≡ String.[] = empty (trim_end s) (ground arith) in
      let space : is_space c ≡ true = ground arith in
      let ends : tokens s ≡ (String.[], []) = sym (tokens-trim_end s) ∙ ap tokens none_left in
      rw (blank, ends) (rw space refl)
]
  where
    empty : (t : String) → is_empty t ≡ true → t ≡ String.[]
    empty String.[] h = refl
    empty (String.◌∷◌ d t) h = cc

pub words-trim_end : (s : String) → words (trim_end s) ≡ words s
words-trim_end s = unfold words in rw (tokens-trim_end s) refl

words-trim_start : (s : String) → words (trim_start s) ≡ words s
unfolding words tokens trim_start
words-trim_start String.[] = refl
words-trim_start (String.◌∷◌ c s) = elim (Bool-cases (is_space c)) [
  | inl blank ↦ rw blank (words-trim_start s)
  | inr kept ↦ rw kept (rw kept refl)
]

pub words-trim : (s : String) → words (trim s) ≡ words s
unfolding trim
words-trim s = words-trim_start (trim_end s) ∙ words-trim_end s

close-append : (w : String) (ws rest : List String) → close w (ws ++ rest) ≡ close w ws ++ rest
close-append String.[] ws rest = refl
close-append (String.◌∷◌ c w) ws rest = refl

read-append :
    (space : Bool) (c : Char) (w : String) (ws rest : List String)
    → read space c (w, ws ++ rest) ≡ ((read space c (w, ws)).0, (read space c (w, ws)).1 ++ rest)
read-append true c w ws rest = ap (λ vs. (String.[], vs)) (close-append w ws rest)
read-append false c w ws rest = refl

tokens-append :
    (s t : String)
    → ends_with_space s ≡ true
    → tokens (s <> t) ≡ ((tokens s).0, (tokens s).1 ++ words t)
unfolding tokens ends_with_space words
tokens-append String.[] t h = ground arith
tokens-append (String.◌∷◌ c String.[]) t h = rw (cons-append, nil-append, h) refl
tokens-append (String.◌∷◌ c (String.◌∷◌ d s)) t h =
    let later = tokens-append (String.◌∷◌ d s) t h in
    let (w, ws) = tokens (String.◌∷◌ d s) in
    ap tokens (cons-append c (String.◌∷◌ d s) t)
    ∙ ap (λ ts. read (is_space c) c ts) later
    ∙ read-append (is_space c) c (tokens (String.◌∷◌ d s)).0 (tokens (String.◌∷◌ d s)).1 (words t)

pub words-append : (s t : String) → ends_with_space s ≡ true → words (s <> t) ≡ words s ++ words t
words-append s t h =
    unfold words in rw (tokens-append s t h) (close-append (tokens s).0 (tokens s).1 (words t))

module _ (space : Char) (h : is_space space ≡ true) where
  abbrev gap : String
  gap = String.◌∷◌ space String.[]

  tokens-append_space : (s : String) → tokens (s <> gap) ≡ tokens s
  unfolding tokens
  tokens-append_space String.[] = rw (nil-append gap, h) refl
  tokens-append_space (String.◌∷◌ c s) = rw (cons-append c s gap, tokens-append_space s) refl

  pub words-append_space : (s : String) → words (s <> gap) ≡ words s
  words-append_space s = unfold words in rw (tokens-append_space s) refl

  pub ends-append_space : (s : String) → ends_with_space (s <> gap) ≡ true
  unfolding ends_with_space
  ends-append_space String.[] = rw (nil-append gap) h
  ends-append_space (String.◌∷◌ c s) = rw (cons-append c s gap) (last s (ends-append_space s))
    where
      last :
          (s : String)
          → ends_with_space (s <> gap) ≡ true
          → (if is_empty (s <> gap) then is_space c else ends_with_space (s <> gap)) ≡ true
      last String.[] e = rw (nil-append gap) h
      last (String.◌∷◌ d s) h = rw (cons-append d s gap) (rw (cons-append d s gap) at h)

  pub words-append_apart : (s t : String) → words (s <> gap <> t) ≡ words s ++ words t
  words-append_apart s t =
      ap words (sym (append_assoc s gap t))
      ∙ words-append (s <> gap) t (ends-append_space s)
      ∙ ap (λ ws. ws ++ words t) (words-append_space s)

pub no_words : (s : String) → is_empty (trim s) ≡ true → words s ≡ []
no_words s h = sym (words-trim s) ∙ go (trim s) h
  where
    go : (t : String) → is_empty t ≡ true → words t ≡ []
    go String.[] e = unfold words in (unfold tokens in refl)
    go (String.◌∷◌ c t) e = cc
