-- ===== src/DiskPerformance/Payload.antt =====
-- The JSON object in the output of fio, which may have warnings before it.
use Prim.Native.Char.{code}
use text.Mathlib.TextLemmas.{append_assoc, nil-append, cons-append}
use benchhelpers.Prelude.Words.{chars-append}
use benchhelpers.Prelude.{
  Bool-cases, String, ap, arith, chars, drop_chars, false, find, has_char, inl, inr, ltb, none, ok,
  refl, rfind, some, take_chars, ℕ, ◌+◌, ◌-◌, ◌<>◌, ◌==◌, ◌∙◌, ◌≡◌,
}
use benchhelpers.DiskPerformance.{payload}

-- The character does not occur.
abbrev pub Without : ℕ → String → Type 0
Without k s = has_char k s ≡ false

find-append :
    (k : ℕ) (s t : String) {i : ℕ}
    → Without k s
    → find k t ≡ some i
    → find k (s <> t) ≡ some (chars s + i)
unfolding find has_char chars
find-append k String.[] t {i} h e = rw (nil-append t) (e ∙ ap some (omega arith))
find-append k (String.◌∷◌ c s) t {i} h e = elim (Bool-cases (code c == k)) [
  | inl here ↦ absurd (ground arith)
  | inr other ↦
      let rest : Without k s = ground arith in
      rw (cons-append c s t, other, find-append k s t rest e) (ap some (omega arith))
]

rfind-none : (k : ℕ) (s : String) → Without k s → rfind k s ≡ none
unfolding rfind has_char
rfind-none k String.[] h = refl
rfind-none k (String.◌∷◌ c s) h = elim (Bool-cases (code c == k)) [
  | inl here ↦ absurd (ground arith)
  | inr other ↦ let rest : Without k s = ground arith in rw (rfind-none k s rest, other) refl
]

rfind-append :
    (k : ℕ) (s t : String) {i : ℕ} → rfind k t ≡ some i → rfind k (s <> t) ≡ some (chars s + i)
unfolding rfind chars
rfind-append k String.[] t {i} e = rw (nil-append t) (e ∙ ap some (omega arith))
rfind-append k (String.◌∷◌ c s) t {i} e =
    let ih = rfind-append k s t e in rw (cons-append c s t, ih) (ap some (omega arith))

drop-append : (s t : String) → drop_chars (chars s) (s <> t) ≡ t
unfolding drop_chars chars
drop-append String.[] t = nil-append t
drop-append (String.◌∷◌ c s) t = rw (cons-append c s t) (drop-append s t)

take-append : (s t : String) → take_chars (chars s) (s <> t) ≡ s
unfolding take_chars chars
take-append String.[] t = refl
take-append (String.◌∷◌ c s) t = rw (cons-append c s t) (ap (String.◌∷◌ c) (take-append s t))

abbrev pub object : String → String
object body = ("{" <> body) <> "}"

find-brace : (t : String) → find 123 ("{" <> t) ≡ some 0
unfolding find
find-brace t = rw (cons-append _ String.[] t) refl

rfind-brace : (t : String) → rfind 125 t ≡ none → rfind 125 ("}" <> t) ≡ some 0
unfolding rfind
rfind-brace t e = rw (cons-append _ String.[] t, nil-append t, e) refl

find-object : (body after : String) → find 123 (object body <> after) ≡ some 0
find-object body after =
    rw (append_assoc ("{" <> body) "}" after, append_assoc "{" body ("}" <> after))
      (find-brace (body <> ("}" <> after)))

rfind-object :
    (body after : String)
    → Without 125 after
    → rfind 125 (object body <> after) ≡ some (chars ("{" <> body) + 0)
rfind-object body after h =
    rw (append_assoc ("{" <> body) "}" after)
      (rfind-append 125 ("{" <> body) ("}" <> after) (rfind-brace after (rfind-none 125 after h)))

chars-object : (body : String) → chars (object body) ≡ chars ("{" <> body) + 1
unfolding chars
chars-object body = chars-append ("{" <> body) "}"

-- Warnings without an opening brace before the object, and text without a closing brace after it, are
-- cut off.
pub payload-object :
    (before body after : String)
    → Without 123 before
    → Without 125 after
    → payload (before <> (object body <> after)) ≡ ok (object body)
unfolding payload
payload-object before body after h k =
    let first = find-append 123 before (object body <> after) h (find-object body after) in
    let last = rfind-append 125 before (object body <> after) (rfind-object body after k) in
    let none_before : chars before + 0 ≡ chars before = omega arith in
    let in_order : ltb (chars before + (chars ("{" <> body) + 0)) (chars before) ≡ false =
      ground arith in
    let size : chars before + (chars ("{" <> body) + 0) + 1 - chars before ≡ chars (object body) =
      omega (arith, chars-object body) in
    rw (first, last, none_before, in_order, size, drop-append before (object body <> after))
      (ap ok (take-append (object body) after))
