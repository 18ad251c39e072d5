-- ===== src/StressTool/Columns.antt =====
-- The lines of a table are equally long.
use benchhelpers.Prelude.Words.{chars-append}
use benchhelpers.Prelude.{
  >>=-eq-ok, All, List, String, [], ap, arith, chars, join, ljust, map, ok, ok_injective, refl,
  rjust, spaces, suc, zero, ℕ, ◌+◌, ◌-◌, ◌<>◌, ◌∙◌, ◌∷◌, ◌≡◌, ◌≤◌,
}
use benchhelpers.StressTool.{widen, widths_of, pad_others, pad_cells, fmt_row, dashes, render_table}

chars-spaces : (n : ℕ) → chars (spaces n) ≡ n
unfolding chars spaces
chars-spaces zero = refl
chars-spaces (suc n) =
    let e : chars (" " <> spaces n) ≡ 1 + chars (spaces n) = chars-append " " (spaces n) in
    omega (arith, e, chars-spaces n)

chars-dashes : (n : ℕ) → chars (dashes n) ≡ n
unfolding chars
chars-dashes zero = refl
chars-dashes (suc n) =
    let e : chars ("-" <> dashes n) ≡ 1 + chars (dashes n) = chars-append "-" (dashes n) in
    omega (arith, e, chars-dashes n)

chars-ljust : (n : ℕ) (s : String) → chars s ≤ n → chars (ljust n s) ≡ n
unfolding ljust
chars-ljust n s le =
    omega (arith, chars-append s (spaces (n - chars s)), chars-spaces (n - chars s))

chars-rjust : (n : ℕ) (s : String) → chars s ≤ n → chars (rjust n s) ≡ n
unfolding rjust
chars-rjust n s le =
    omega (arith, chars-append (spaces (n - chars s)) s, chars-spaces (n - chars s))

-- Cells joined by two blanks
abbrev joined : List ℕ → ℕ
joined [] = 0
joined (n ∷ []) = n
joined (n ∷ m ∷ ns) = n + (2 + joined (m ∷ ns))

chars-join : (cells : List String) → chars (join "  " cells) ≡ joined (map chars cells)
unfolding join chars
chars-join [] = refl
chars-join (s ∷ []) = refl
chars-join (s ∷ t ∷ rest) =
    let more = join "  " (t ∷ rest) in
    let e : chars ("  " <> join "  " (t ∷ rest)) ≡ 2 + chars (join "  " (t ∷ rest)) =
      chars-append "  " more in
    chars-append s ("  " <> more) ∙ omega (arith, e, chars-join (t ∷ rest))

-- Each cell fits its column, and there is one for each.
abbrev Fits : List ℕ → List String → Type 0
Fits [] row = Unit
Fits (w ∷ ws) [] = ⊥
Fits (w ∷ ws) (cell ∷ row) = (chars cell ≤ w) × Fits ws row

pad_others-chars :
    (ws : List ℕ) (row : List String) → Fits ws row → map chars (pad_others ws row) ≡ ws
pad_others-chars [] row h = refl
pad_others-chars (w ∷ ws) [] h = absurd h
pad_others-chars (w ∷ ws) (cell ∷ row) (le, h) =
    rw (chars-rjust w cell le, pad_others-chars ws row h) refl

pad_cells-chars :
    (ws : List ℕ) (row : List String) → Fits ws row → map chars (pad_cells ws row) ≡ ws
pad_cells-chars [] row h = refl
pad_cells-chars (w ∷ ws) [] h = absurd h
pad_cells-chars (w ∷ ws) (cell ∷ row) (le, h) =
    rw (chars-ljust w cell le, pad_others-chars ws row h) refl

fmt_row-chars : (ws : List ℕ) (row : List String) → Fits ws row → chars (fmt_row ws row) ≡ joined ws
unfolding fmt_row
fmt_row-chars ws row h = chars-join (pad_cells ws row) ∙ ap joined (pad_cells-chars ws row h)

-- Columns that are at least as wide
abbrev Wider : List ℕ → List ℕ → Type 0
Wider [] [] = Unit
Wider [] (v ∷ vs) = ⊥
Wider (w ∷ ws) [] = ⊥
Wider (w ∷ ws) (v ∷ vs) = (w ≤ v) × Wider ws vs

Wider-refl : (ws : List ℕ) → Wider ws ws
Wider-refl [] = tt
Wider-refl (w ∷ ws) = (omega arith, Wider-refl ws)

Wider-trans : (us vs ws : List ℕ) → Wider us vs → Wider vs ws → Wider us ws
Wider-trans [] [] ws h k = k
Wider-trans [] (v ∷ vs) ws h k = absurd h
Wider-trans (u ∷ us) [] ws h k = absurd h
Wider-trans (u ∷ us) (v ∷ vs) [] h k = absurd k
Wider-trans (u ∷ us) (v ∷ vs) (w ∷ ws) (le, h) (le', k) = (omega arith, Wider-trans us vs ws h k)

Fits-Wider : (vs ws : List ℕ) (row : List String) → Wider vs ws → Fits vs row → Fits ws row
Fits-Wider [] [] row h k = tt
Fits-Wider [] (w ∷ ws) row h k = absurd h
Fits-Wider (v ∷ vs) [] row h k = absurd h
Fits-Wider (v ∷ vs) (w ∷ ws) [] h k = absurd k
Fits-Wider (v ∷ vs) (w ∷ ws) (cell ∷ row) (le, h) (le', k) = (omega arith, Fits-Wider vs ws row h k)

widen_lem :
    (ws : List ℕ) (row : List String) {vs : List ℕ}
    → widen ws row ≡ ok vs
    → Wider ws vs × Fits vs row
unfolding widen
widen_lem [] row {vs} h = rw (← ok_injective h) (tt, tt)
widen_lem (w ∷ ws) [] h = cc
widen_lem (w ∷ ws) (cell ∷ row) {vs} h =
    let (rest, widened, e) = >>=-eq-ok (widen ws row) _ h in
    let (wider, fits) = widen_lem ws row widened in
    rw (← ok_injective e) ((omega arith, wider), (omega arith, fits))

widths_of_lem :
    (ws : List ℕ) (rows : List (List String)) {vs : List ℕ}
    → widths_of ws rows ≡ ok vs
    → Wider ws vs × All (Fits vs) rows
unfolding widths_of
widths_of_lem ws [] {vs} h = rw (← ok_injective h) (Wider-refl ws, tt)
widths_of_lem ws (row ∷ rows) {vs} h =
    let (us, widened, after) = >>=-eq-ok (widen ws row) _ h in
    let (wider, fits) = widen_lem ws row widened in
    let (wider', each) = widths_of_lem us rows after in
    (Wider-trans ws us vs wider wider', (Fits-Wider us vs row wider' fits, each))

Fits-self : (row : List String) → Fits (map chars row) row
Fits-self [] = tt
Fits-self (cell ∷ row) = (omega arith, Fits-self row)

map-dashes : (ws : List ℕ) → map chars (map dashes ws) ≡ ws
map-dashes [] = refl
map-dashes (w ∷ ws) = rw (chars-dashes w, map-dashes ws) refl

rows-chars :
    (ws : List ℕ) (rows : List (List String))
    → All (Fits ws) rows
    → All (λ line. chars line ≡ joined ws) (map (fmt_row ws) rows)
rows-chars ws [] h = tt
rows-chars ws (row ∷ rows) (fits, rest) = (fmt_row-chars ws row fits, rows-chars ws rows rest)

-- The lines of a table have all the same length.
pub render_table-aligned :
    (headers : List String) (rows : List (List String)) {lines : List String}
    → render_table headers rows ≡ ok lines
    → (width : ℕ) × All (λ line. chars line ≡ width) lines
unfolding render_table
render_table-aligned headers rows {lines} h =
    let (ws, widened, e) = >>=-eq-ok (widths_of (map chars headers) rows) _ h in
    let (wider, each) = widths_of_lem (map chars headers) rows widened in
    let header = Fits-Wider (map chars headers) ws headers wider (Fits-self headers) in
    (
      joined ws,
      rw (← ok_injective e) (
        fmt_row-chars ws headers header,
        (chars-join (map dashes ws) ∙ ap joined (map-dashes ws), rows-chars ws rows each),
      ),
    )
