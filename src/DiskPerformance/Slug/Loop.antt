-- ===== src/DiskPerformance/Slug/Loop.antt =====
-- The loop that shortens the underscores ends: its fuel is enough.
use Prim.Native.Char.{code}
use benchhelpers.Prelude.{
  Bool-cases, String, arith, chars, false, inl, inr, refl, suc, true, zero, ℕ, ◌&&◌, ◌<◌, ◌==◌, ◌≡◌,
  ◌≤◌,
}
use benchhelpers.DiskPerformance.Slug.{has_double, replace_double, collapse}

-- A replacement shortens a text with two underscores in a row, and lengthens none.
replace_double-chars :
    (s : String)
    → (chars (replace_double s) ≤ chars s)
      × (has_double s ≡ true → chars (replace_double s) < chars s)
unfolding replace_double has_double chars
replace_double-chars String.[] = (omega arith, λ h. cc)
replace_double-chars (String.◌∷◌ c String.[]) = (omega arith, λ h. cc)
replace_double-chars (String.◌∷◌ c (String.◌∷◌ d s)) =
    let le = (replace_double-chars s).0 in
    let (le', lt') = replace_double-chars (String.◌∷◌ d s) in
    elim (Bool-cases (code c == 95 && code d == 95)) [
      | inl pair ↦ rw pair (omega arith, λ h. omega arith)
      | inr other ↦ rw other (
        omega arith,
        λ h.
            let shorter : chars (replace_double (String.◌∷◌ d s)) < chars (String.◌∷◌ d s) =
              lt' h in
            omega arith,
      )
    ]

-- After the loop no underscore follows another.
pub collapse-has_double :
    (fuel : ℕ) (s : String) → chars s ≤ fuel → has_double (collapse fuel s) ≡ false
unfolding collapse has_double chars
collapse-has_double zero String.[] le = refl
collapse-has_double zero (String.◌∷◌ c s) le = absurd (omega arith)
collapse-has_double (suc fuel) s le = elim (Bool-cases (has_double s)) [
  | inl double ↦
      let lt = (replace_double-chars s).1 double in
      rw double (collapse-has_double fuel (replace_double s) (omega arith))
  | inr single ↦ rw single single
]
