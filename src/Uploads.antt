-- ===== src/Uploads.antt =====
-- `drop` and `create_table` of debug_latency/wrapper.py and of tpcc/ydb/insert_tpcc_results.py, which
-- are the same but for the columns, and the checks of their `main`. The database is an interface:
-- `execute_…` is what a statement comes to when `retry_operation_sync` has run it as often as it does.
pub mod Calls
pub mod Memory
pub mod Latency
pub mod Results
mod Tests
use benchhelpers.Prelude.{
  Bool, Option, Result, String, err, exit, false, if◌then◌else◌, none, ok, other_exception, some,
  str_eq, true, ℕ, ◌&&◌, ◌==◌, ◌≡◌, ◌≢◌,
}

-- What a statement comes to: the driver's exceptions by their class
pub data Executed : Type 0 where
  done not_found scheme_error already_exists other_issue : Executed

-- The tables of a database by their paths, their rows by the key `timestamp`. The values of
-- a row are written into the text of `UPSERT` as they are: `as_given` says of a path and a row that the
-- service reads them back from there, so that no quote in them ends a literal. The laws are what it
-- documents of `DROP TABLE`, `CREATE TABLE` and `UPSERT`.
pub record Database (S R : Type 0) : Type 0 where
  pub execute_drop : String → S → Executed × S
  pub execute_create : String → S → Executed × S
  pub execute_upsert : String → ℕ → R → S → Executed × S
  pub as_given : String → R → Bool
  pub row_at : String → ℕ → S → Option R
  pub drop_clears :
      (path : String) (k : ℕ) (s : S)
      → (execute_drop path s).0 ≡ done
      → row_at path k ((execute_drop path s).1) ≡ none
  pub drop_refused :
      (path : String) (s : S) → (execute_drop path s).0 ≢ done → (execute_drop path s).1 ≡ s
  pub create_keeps :
      (path other : String) (k : ℕ) (s : S)
      → row_at other k ((execute_create path s).1) ≡ row_at other k s
  pub upsert_replaces :
      (path other : String) (k j : ℕ) (r : R) (s : S)
      → as_given path r ≡ true
      → (execute_upsert path k r s).0 ≡ done
      → row_at other j ((execute_upsert path k r s).1)
        ≡ (if str_eq path other && k == j then some r else row_at other j s)

-- A call that changes the database, and returns or raises
abbrev pub Session : Type 0 → Type 0 → Type 0
Session S A = S → Result A × S

abbrev pub continue : {S A B : Type 0} → Result A × S → (A → Session S B) → Result B × S
continue (err raised, s) next = (err raised, s)
continue (ok a, s) next = next a s

abbrev pub and_then : {S A B : Type 0} → Session S A → (A → Session S B) → Session S B
and_then first next s = continue (first s) next

abbrev pub dropped : {S : Type 0} → Executed × S → Result (Unit {0}) × S
dropped (done, s) = (ok tt, s)
dropped (not_found, s) = (ok tt, s)
dropped (scheme_error, s) = (ok tt, s)
dropped (already_exists, s) = (err other_exception, s)
dropped (other_issue, s) = (err other_exception, s)

abbrev pub created : {S : Type 0} → Executed × S → Result (Unit {0}) × S
created (done, s) = (ok tt, s)
created (already_exists, s) = (ok tt, s)
created (not_found, s) = (err other_exception, s)
created (scheme_error, s) = (err other_exception, s)
created (other_issue, s) = (err other_exception, s)

abbrev pub upserted : {S : Type 0} → Executed × S → Result (Unit {0}) × S
upserted (done, s) = (ok tt, s)
upserted (not_found, s) = (err other_exception, s)
upserted (scheme_error, s) = (err other_exception, s)
upserted (already_exists, s) = (err other_exception, s)
upserted (other_issue, s) = (err other_exception, s)

module _ {S R : Type 0} (db : Database S R) where
  unfoldable pub drop : String → Session S (Unit {0})
  drop table_path s = dropped (db.execute_drop table_path s)

  unfoldable pub create_table : String → Session S (Unit {0})
  create_table table_path s = created (db.execute_create table_path s)

  unfoldable pub upsert : String → ℕ → R → Session S (Unit {0})
  upsert path key row s = upserted (db.execute_upsert path key row s)

  -- The table is dropped only if that is asked for, and then created.
  abbrev pub prepare : (drop_first : Bool) → String → Session S (Unit {0})
  prepare true path = and_then (drop path) (λ ignored. create_table path)
  prepare false path = create_table path

-- The credentials of the driver
pub data Credentials : Type 0 where
  access_token service_account : String → Credentials
  anonymous : Credentials

-- The files: their first lines, or none if they do not exist
abbrev pub Files : Type 0
Files = String → Option String

abbrev pub token_of : Option String → Result Credentials
token_of none = err (exit 1)
token_of (some line) = ok (access_token line)

abbrev pub sa_token_of : String → Option String → Result Credentials
sa_token_of path none = err (exit 1)
sa_token_of path (some line) = ok (service_account path)

-- Without both tokens the scripts differ.
unfoldable pub credentials :
    Files → Result Credentials → Option String → Option String → Result Credentials
credentials files otherwise (some token) sa_token = token_of (files token)
credentials files otherwise none (some sa_token) = sa_token_of sa_token (files sa_token)
credentials files otherwise none none = otherwise
