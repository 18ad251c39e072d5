-- ===== src/Tpcc/Schema/Catalogue.antt =====
-- What `CreateTables` leaves in a database that keeps a catalogue of tables.
use benchhelpers.Prelude.{
  List, Option, Option-cases, [], ap, if◌then◌else◌, inl, inr, none, ok, refl, some, ℕ, ◌==◌, ◌∙◌,
  ◌∷◌, ◌≡◌,
}
use benchhelpers.Tpcc.SplitKeys.{
  Table, warehouse, district, customer, history, new_order, oorder, order_line, item, stock, tables,
}
use benchhelpers.Tpcc.Schema.{TableDdl}
use benchhelpers.Tpcc.Schema.Run.{
  Statement, drop_statement, create_statement, Outcome, done, missing, table_ddl, creation_order,
  drop_tables, create_each, create_tables,
}
use benchhelpers.Tpcc.Schema.Keyed.{table_ddl-IsKeyed}

-- The number of a table tells it from the others.
abbrev pub number : Table → ℕ
number warehouse = 0
number district = 1
number customer = 2
number history = 3
number new_order = 4
number oorder = 5
number order_line = 6
number item = 7
number stock = 8

abbrev pub Catalogue : Type 0
Catalogue = Table → Option TableDdl

abbrev pub set_table : Table → Option TableDdl → Catalogue → Catalogue
set_table t entry c u = if number u == number t then entry else c u

-- The documented behaviour of the statements: a drop removes its table and says whether it was
-- there, and a table that is not there can be created.
pub record IsDatabase (execute : Statement → Catalogue → Outcome × Catalogue) : Type 0 where
  pub dropped :
      (t : Table) (c : Catalogue)
      → execute (drop_statement t) c
        ≡ (elim (c t) [ none ↦ missing | some ddl ↦ done ], set_table t none c)
  pub created :
      (ddl : TableDdl) (c : Catalogue)
      → c ddl.table ≡ none
      → execute (create_statement ddl) c ≡ (done, set_table ddl.table (some ddl) c)

abbrev drop_all : List Table → Catalogue → Catalogue
drop_all [] c = c
drop_all (t ∷ ts) c = drop_all ts (set_table t none c)

drop_tables_lem :
    (execute : Statement → Catalogue → Outcome × Catalogue)
    → IsDatabase execute
    → (ts : List Table) (c : Catalogue) → drop_tables execute ts c ≡ ok (drop_all ts c)
unfolding drop_tables
drop_tables_lem execute db [] c = refl
drop_tables_lem execute db (t ∷ ts) c =
    let rest = drop_tables_lem execute db ts (set_table t none c) in
    rw (db.dropped t c) (elim (Option-cases (c t)) [ inl e ↦ rw e rest | inr (ddl, e) ↦ rw e rest ])

-- The tables of a list are absent, and no number stands in it twice.
abbrev AreNew : List Table → Catalogue → Type 0
AreNew [] c = Unit
AreNew (t ∷ ts) c = (c t ≡ none) × ((ddl : Option TableDdl) → AreNew ts (set_table t ddl c))

abbrev put_all : (Table → TableDdl) → List Table → Catalogue → Catalogue
put_all ddl [] c = c
put_all ddl (t ∷ ts) c = put_all ddl ts (set_table t (some (ddl t)) c)

create_each_lem :
    (execute : Statement → Catalogue → Outcome × Catalogue)
    → IsDatabase execute
    → (w : ℕ) (ddl : Table → TableDdl) → ((t : Table) → table_ddl w t ≡ ok (ddl t))
    → ((t : Table) → (ddl t).table ≡ t)
    → (ts : List Table) (c : Catalogue) → AreNew ts c
    → create_each execute w ts c ≡ ok (put_all ddl ts c)
unfolding create_each
create_each_lem execute db w ddl made named [] c new = refl
create_each_lem execute db w ddl made named (t ∷ ts) c (absent, new) =
    let rest =
      create_each_lem execute db w ddl made named ts (set_table t (some (ddl t)) c)
        (new (some (ddl t))) in
    let put : execute (create_statement (ddl t)) c ≡ (done, set_table t (some (ddl t)) c) =
      db.created (ddl t) c (rw (named t) absent)
      ∙ ap (λ u. (done, set_table u (some (ddl t)) c)) (named t) in
    rw (made t, put) rest

creation_order-AreNew : (c : Catalogue) → AreNew creation_order (drop_all tables c)
creation_order-AreNew c = (
  refl,
  λ d0. (
    refl,
    λ d1. (
      refl,
      λ d2. (refl, λ d3. (refl, λ d4. (refl, λ d5. (refl, λ d6. (refl, λ d7. (refl, λ d8. _)))))),
    ),
  ),
)

put_all-creation_order :
    (ddl : Table → TableDdl) (c : Catalogue) (t : Table)
    → put_all ddl creation_order c t ≡ some (ddl t)
put_all-creation_order ddl c warehouse = refl
put_all-creation_order ddl c district = refl
put_all-creation_order ddl c customer = refl
put_all-creation_order ddl c history = refl
put_all-creation_order ddl c new_order = refl
put_all-creation_order ddl c oorder = refl
put_all-creation_order ddl c order_line = refl
put_all-creation_order ddl c item = refl
put_all-creation_order ddl c stock = refl

-- In a database that keeps a catalogue, whatever tables it has, the script ends without an error
-- and leaves each table with its statement for the number of warehouses.
pub create_tables_lem :
    (execute : Statement → Catalogue → Outcome × Catalogue)
    → IsDatabase execute
    → (warehouse_count : ℕ) (c : Catalogue)
    → (after : Catalogue) × (create_tables execute warehouse_count c ≡ ok after)
      × ((t : Table)
          → (ddl : TableDdl) × (after t ≡ some ddl) × (table_ddl warehouse_count t ≡ ok ddl))
unfolding create_tables
create_tables_lem execute db w c =
    let ddl : Table → TableDdl = λ t. (table_ddl-IsKeyed w t).0 in
    let made : (t : Table) → table_ddl w t ≡ ok (ddl t) =
      λ t. let (d, e, n, keyed) = table_ddl-IsKeyed w t in e in
    let named : (t : Table) → (ddl t).table ≡ t =
      λ t. let (d, e, n, keyed) = table_ddl-IsKeyed w t in n in
    let emptied = drop_all tables c in
    (
      put_all ddl creation_order emptied,
      rw (drop_tables_lem execute db tables c) (
          create_each_lem execute db w ddl made named creation_order emptied
            (creation_order-AreNew c)),
      λ t. (ddl t, put_all-creation_order ddl emptied t, made t),
    )
