-- ===== src/Uploads/Memory.antt =====
-- A database as a function, for which the laws hold.
use benchhelpers.Prelude.{
  Option, String, eq_iff, if◌then◌else◌, none, refl, some, str_eq, true, ℕ, ◌&&◌, ◌==◌, ◌≡◌,
}
use benchhelpers.Uploads.{done, Database}

-- The rows of each path and key
abbrev pub Rows : Type 0 → Type 0
Rows R = String → ℕ → Option R

pub clears :
    {R : Type 0} (path : String) (k : ℕ) (s : Rows R)
    → (if str_eq path path then none else s path k) ≡ none
clears path k s = let self : str_eq path path ≡ true = (eq_iff path path).1 refl in rw self refl

abbrev pub database : (R : Type 0) → Database (Rows R) R
database R = record {
  execute_drop = λ path s. (done, λ p k. if str_eq path p then none else s p k);
  execute_create = λ path s. (done, s);
  execute_upsert = λ path k r s. (done, λ p j. if str_eq path p && k == j then some r else s p j);
  as_given = λ path r. true;
  row_at = λ path k s. s path k;
  drop_clears = λ path k s e. clears path k s;
  drop_refused = λ path s refused. absurd (refused refl);
  create_keeps = λ path other k s. refl;
  upsert_replaces = λ path other k j r s given e. refl;
}

abbrev pub empty : (R : Type 0) → Rows R
empty R p k = none
