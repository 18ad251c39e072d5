-- ===== src/DiskPerformance/Slug.antt =====
-- `make_plot_slug` of disk_performance/aggregate.py, on ASCII text.
pub mod Loop
use Prim.Native.Char.{Char, code}
use benchhelpers.Prelude.{
  Bool, String, [], chars, false, if◌then◌else◌, leb, str_eq, suc, zero, ℕ, ◌&&◌, ◌-◌, ◌<>◌, ◌==◌,
  ◌||◌, ◌∷◌,
}

abbrev nth_char : ℕ → Char → String → Char
nth_char i c String.[] = c
nth_char zero c (String.◌∷◌ d s) = d
nth_char (suc i) c (String.◌∷◌ d s) = nth_char i c s

abbrev is_upper : ℕ → Bool
is_upper n = leb 65 n && leb n 90

abbrev is_lower : ℕ → Bool
is_lower n = leb 97 n && leb n 122

abbrev is_alnum : ℕ → Bool
is_alnum n = (leb 48 n && leb n 57) || is_upper n || is_lower n

abbrev lower : Char → Char
lower c = if is_upper (code c) then nth_char (code c - 65) c "abcdefghijklmnopqrstuvwxyz" else c

unfoldable pub plain : String → String
plain String.[] = ""
plain (String.◌∷◌ c s) =
    let rest = plain s in if is_alnum (code c) then String.◌∷◌ (lower c) rest else "_" <> rest

-- `"__" in slug`
unfoldable pub has_double : String → Bool
has_double String.[] = false
has_double (String.◌∷◌ c String.[]) = false
has_double (String.◌∷◌ c (String.◌∷◌ d s)) =
    (code c == 95 && code d == 95) || has_double (String.◌∷◌ d s)

-- `slug.replace("__", "_")`
unfoldable pub replace_double : String → String
replace_double String.[] = ""
replace_double (String.◌∷◌ c String.[]) = String.◌∷◌ c ""
replace_double (String.◌∷◌ c (String.◌∷◌ d s)) =
    let pair = String.◌∷◌ d (replace_double s) in
    let single = String.◌∷◌ c (replace_double (String.◌∷◌ d s)) in
    if code c == 95 && code d == 95 then pair else single

-- The loop, on fuel
unfoldable pub collapse : ℕ → String → String
collapse zero s = s
collapse (suc fuel) s =
    let rest = collapse fuel (replace_double s) in if has_double s then rest else s

-- `slug.strip("_")`
unfoldable pub lstrip_score : String → String
lstrip_score String.[] = ""
lstrip_score (String.◌∷◌ c s) =
    let rest = lstrip_score s in if code c == 95 then rest else String.◌∷◌ c s

unfoldable pub rstrip_score : String → String
rstrip_score String.[] = ""
rstrip_score (String.◌∷◌ c s) =
    let rest = rstrip_score s in if code c == 95 && str_eq rest "" then "" else String.◌∷◌ c rest

unfoldable pub make_plot_slug : String → String
make_plot_slug name =
    let slug = plain name in rstrip_score (lstrip_score (collapse (chars slug) slug))
