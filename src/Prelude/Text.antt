-- ===== src/Prelude/Text.antt =====
-- Python text: white space, `str(n)`, `int(s)`, `find`, `split`, `join`, padding, and paths.
use Prim.Native.Nat.{ℕ, zero, suc, ◌+◌, ◌-◌, ◌*◌, ◌/◌, ◌%◌}
use Prim.Native.Char.{Char, code}
use Prim.Native.String.{String, ◌++◌}
use mathlib.Core.Bool.{Bool, false, true, ◌&&◌, ◌||◌}
use mathlib.Core.Option
use mathlib.Core.Option.{Option, none, some}
use mathlib.Core.List.{List}
use text.Mathlib.Text.{◌==◌ as str_eq}
use benchhelpers.Prelude.Tests.{ltb, leb, ◌==◌, if◌then◌else◌}

-- `chr(c).isspace()`
unfoldable pub is_space : ℕ → Bool
is_space c =
    (leb 9 c && leb c 13)
    || (leb 28 c && leb c 32)
    || c == 0x85
    || c == 0xa0
    || c == 0x1680
    || (leb 0x2000 c && leb c 0x200a)
    || c == 0x2028
    || c == 0x2029
    || c == 0x202f
    || c == 0x205f
    || c == 0x3000

unfoldable pub lstrip : String → String
unfolding is_space
lstrip String.[] = String.[]
lstrip (String.◌∷◌ c s) = let rest = lstrip s in if is_space (code c) then rest else String.◌∷◌ c s

unfoldable pub rstrip : String → String
unfolding is_space
rstrip String.[] = String.[]
rstrip (String.◌∷◌ c s) =
    let rest = rstrip s in
    if is_space (code c) && str_eq rest "" then String.[] else String.◌∷◌ c rest

unfoldable pub strip : String → String
unfolding lstrip rstrip
strip s = rstrip (lstrip s)

abbrev digit : ℕ → String
digit d =
    if d == 0
    then "0"
    else if d == 1
    then "1"
    else if d == 2
    then "2"
    else if d == 3
    then "3"
    else if d == 4
    then "4"
    else if d == 5
    then "5"
    else if d == 6
    then "6"
    else if d == 7
    then "7"
    else if d == 8
    then "8"
    else "9"

show_loop : ℕ → ℕ → String
show_loop zero n = ""
show_loop (suc f) n =
    let more = show_loop f (n / 10) ++ digit (n % 10) in if ltb n 10 then digit n else more

-- `str(n)`: the number has fewer digits than the fuel.
unfoldable pub show : ℕ → String
unfolding show_loop
show n = show_loop (suc n) n

-- `chr(c) in s`
unfoldable pub has_char : ℕ → String → Bool
has_char k String.[] = false
has_char k (String.◌∷◌ c s) = code c == k || has_char k s

-- `os.path.basename`: what follows the last slash.
unfoldable pub basename : String → String
unfolding has_char
basename String.[] = String.[]
basename (String.◌∷◌ c s) =
    let rest = basename s in
    if has_char 47 s then rest else if code c == 47 then s else String.◌∷◌ c s

-- `sep.join(parts)`
unfoldable pub join : String → List String → String
join sep List.[] = ""
join sep (List.◌∷◌ s List.[]) = s
join sep (List.◌∷◌ s (List.◌∷◌ t rest)) = s ++ sep ++ join sep (List.◌∷◌ t rest)

-- `s.split(chr(k))`: the parts between the separators, one more than there are separators.
abbrev pub cons_first : Char → List String → List String
cons_first c List.[] = List.◌∷◌ (String.◌∷◌ c String.[]) List.[]
cons_first c (List.◌∷◌ s rest) = List.◌∷◌ (String.◌∷◌ c s) rest

unfoldable pub split_at : ℕ → String → List String
split_at k String.[] = List.◌∷◌ String.[] List.[]
split_at k (String.◌∷◌ c s) =
    let rest = split_at k s in if code c == k then List.◌∷◌ String.[] rest else cons_first c rest

-- `s.split()`: the longest parts without white space.
abbrev pub starts_blank : String → Bool
starts_blank String.[] = true
starts_blank (String.◌∷◌ c s) = is_space (code c)

unfoldable pub words : String → List String
words String.[] = List.[]
words (String.◌∷◌ c s) =
    let rest = words s in
    if is_space (code c)
    then rest
    else if starts_blank s
    then List.◌∷◌ (String.◌∷◌ c String.[]) rest
    else cons_first c rest

-- `len(s)`
unfoldable pub chars : String → ℕ
chars String.[] = 0
chars (String.◌∷◌ c s) = suc (chars s)

unfoldable pub spaces : ℕ → String
spaces zero = ""
spaces (suc n) = " " ++ spaces n

-- `s.ljust(n)` and `s.rjust(n)`, the fields `{:<n}` and `{:>n}` of a format
unfoldable pub ljust : ℕ → String → String
ljust n s = s ++ spaces (n - chars s)

unfoldable pub rjust : ℕ → String → String
rjust n s = spaces (n - chars s) ++ s

-- `os.path.join(dir, name)` of a name that does not begin with a slash
abbrev ends_with_slash : String → Bool
ends_with_slash String.[] = true
ends_with_slash (String.◌∷◌ c String.[]) = code c == 47
ends_with_slash (String.◌∷◌ c (String.◌∷◌ d s)) = ends_with_slash (String.◌∷◌ d s)

unfoldable pub path_join : String → String → String
path_join dir name = if ends_with_slash dir then dir ++ name else dir ++ "/" ++ name

-- `s.find(chr(k))` and `s.rfind(chr(k))`
unfoldable pub find : ℕ → String → Option ℕ
find k String.[] = none
find k (String.◌∷◌ c s) = let rest = find k s in if code c == k then some 0 else Option.map suc rest

abbrev pub or_first : Bool → Option ℕ → Option ℕ
or_first here (some i) = some (suc i)
or_first here none = if here then some 0 else none

unfoldable pub rfind : ℕ → String → Option ℕ
rfind k String.[] = none
rfind k (String.◌∷◌ c s) = or_first (code c == k) (rfind k s)

-- `s[:n]` and `s[n:]`
unfoldable pub take_chars : ℕ → String → String
take_chars zero s = ""
take_chars (suc n) String.[] = ""
take_chars (suc n) (String.◌∷◌ c s) = String.◌∷◌ c (take_chars n s)

unfoldable pub drop_chars : ℕ → String → String
drop_chars zero s = s
drop_chars (suc n) String.[] = ""
drop_chars (suc n) (String.◌∷◌ c s) = drop_chars n s

-- `s.isdigit()` and `int(s)` of such a text, in ASCII
abbrev all_digits : String → Bool
all_digits String.[] = true
all_digits (String.◌∷◌ c s) = leb 48 (code c) && leb (code c) 57 && all_digits s

unfoldable pub is_digit : String → Bool
is_digit String.[] = false
is_digit (String.◌∷◌ c s) = all_digits (String.◌∷◌ c s)

abbrev read_digits : ℕ → String → ℕ
read_digits n String.[] = n
read_digits n (String.◌∷◌ c s) = read_digits (10 * n + (code c - 48)) s

unfoldable pub read_number : String → ℕ
read_number s = read_digits 0 s
