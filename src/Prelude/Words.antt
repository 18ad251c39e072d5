-- ===== src/Prelude/Words.antt =====
-- Lemmas on Python's text: what `split` gives, joined, splits in the same way again, and lengths.
use Prim.Native.Nat.{◌+◌}
use native.Mathlib.Omega.{arith}
use Prim.Native.Char.{Char, code}
use Prim.Native.String.{String, ◌++◌}
use mathlib.Core.Path.{◌≡◌, refl, ap, ◌∙◌}
use mathlib.Core.Bool.{true, false}
use mathlib.Core.Logic.{inl, inr}
use text.Mathlib.TextLemmas.{nil-append, cons-append}
use mathlib.Core.List.{List}
use benchhelpers.Prelude.Tests.{Bool-cases}
use benchhelpers.Prelude.Lists.{All}
use benchhelpers.Prelude.Text.{is_space, starts_blank, cons_first, words, join, chars}

abbrev pub NoSpace : String → Type 0
NoSpace String.[] = Unit
NoSpace (String.◌∷◌ c s) = (is_space (code c) ≡ false) × NoSpace s

-- Text that is not empty and has no white space.
abbrev pub IsWord : String → Type 0
IsWord String.[] = ⊥
IsWord (String.◌∷◌ c s) = (is_space (code c) ≡ false) × NoSpace s

pub NoSpace-append : (s t : String) → NoSpace s → NoSpace t → NoSpace (s ++ t)
NoSpace-append String.[] t h k = rw (nil-append t) k
NoSpace-append (String.◌∷◌ c s) t (e, h) k = rw (cons-append c s t) (e, NoSpace-append s t h k)

pub IsWord-NoSpace : (s : String) → IsWord s → NoSpace s
IsWord-NoSpace String.[] h = absurd h
IsWord-NoSpace (String.◌∷◌ c s) h = h

pub IsWord-append : (s t : String) → IsWord s → NoSpace t → IsWord (s ++ t)
IsWord-append String.[] t h k = absurd h
IsWord-append (String.◌∷◌ c s) t (e, h) k = rw (cons-append c s t) (e, NoSpace-append s t h k)

-- A character before a text.
words-last :
    (c : Char) (s : String)
    → is_space (code c) ≡ false
    → starts_blank s ≡ true
    → words (String.◌∷◌ c s) ≡ List.◌∷◌ (String.◌∷◌ c String.[]) (words s)
unfolding words
words-last c s e blank = rw (e, blank) refl

words-inner :
    (c : Char) (s : String)
    → is_space (code c) ≡ false
    → starts_blank s ≡ false
    → words (String.◌∷◌ c s) ≡ cons_first c (words s)
unfolding words
words-inner c s e inner = rw (e, inner) refl

-- A word before a blank is the first part.
words-blank :
    (s t : String) → IsWord s → starts_blank t ≡ true → words (s ++ t) ≡ List.◌∷◌ s (words t)
words-blank String.[] t h blank = absurd h
words-blank (String.◌∷◌ c String.[]) t (e, h) blank =
    rw (cons-append c String.[] t, nil-append t) (words-last c t e blank)
words-blank (String.◌∷◌ c (String.◌∷◌ d s)) t (e, h) blank =
    let ih = words-blank (String.◌∷◌ d s) t h blank in
    rw (cons-append c (String.◌∷◌ d s) t)
      (words-inner c (String.◌∷◌ d s ++ t) e (rw (cons-append d s t) h.0) ∙ ap (cons_first c) ih)

words-space : (t : String) → words (" " ++ t) ≡ words t
unfolding words is_space
words-space t = rw (cons-append _ String.[] t, nil-append t) refl

words_self : (s : String) → IsWord s → words s ≡ List.◌∷◌ s List.[]
unfolding words
words_self String.[] h = absurd h
words_self (String.◌∷◌ c String.[]) (e, h) = words-last c String.[] e refl
words_self (String.◌∷◌ c (String.◌∷◌ d s)) (e, h) =
    words-inner c (String.◌∷◌ d s) e h.0 ∙ ap (cons_first c) (words_self (String.◌∷◌ d s) h)

pub words-join : (ws : List String) → All IsWord ws → words (join " " ws) ≡ ws
unfolding join words is_space
words-join List.[] h = refl
words-join (List.◌∷◌ s List.[]) (h, rest) = words_self s h
words-join (List.◌∷◌ s (List.◌∷◌ t ws)) (h, rest) =
    words-blank s (" " ++ join " " (List.◌∷◌ t ws)) h (rw (cons-append _ String.[] _) refl)
    ∙ ap (List.◌∷◌ s) (words-space (join " " (List.◌∷◌ t ws)) ∙ words-join (List.◌∷◌ t ws) rest)

IsWord-cons_first :
    (c : Char) (ws : List String)
    → is_space (code c) ≡ false
    → All IsWord ws
    → All IsWord (cons_first c ws)
IsWord-cons_first c List.[] e h = ((e, tt), tt)
IsWord-cons_first c (List.◌∷◌ s ws) e (h, rest) = ((e, IsWord-NoSpace s h), rest)

pub words-IsWord : (s : String) → All IsWord (words s)
unfolding words
words-IsWord String.[] = tt
words-IsWord (String.◌∷◌ c s) =
    let ih = words-IsWord s in
    elim (Bool-cases (is_space (code c))) [
      | inl space ↦ rw space ih
      | inr e ↦ elim (Bool-cases (starts_blank s)) [
        | inl blank ↦ rw (words-last c s e blank) ((e, tt), ih)
        | inr inner ↦ rw (words-inner c s e inner) (IsWord-cons_first c (words s) e ih)
      ]
    ]

pub chars-append : (s t : String) → chars (s ++ t) ≡ chars s + chars t
unfolding chars
chars-append String.[] t = rw (nil-append t) (omega arith)
chars-append (String.◌∷◌ c s) t = rw (cons-append c s t) (omega (arith, chars-append s t))
