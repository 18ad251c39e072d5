-- ===== src/Prelude/Results.antt =====
-- What a Python call comes to: a value, or an exception with its kind.
use Prim.Native.Nat.{ℕ}
use mathlib.Core.Path.{◌≡◌, refl}

-- `exit n` is `sys.exit(n)`, which the scripts never catch.
pub data Error : Type 0 where
  exit : ℕ → Error
  assertion_error key_error index_error zero_division_error value_error other_exception : Error
  job_exception error_exit : Error

-- A raised exception ends the call; otherwise it returns.
pub data Result {ℓ} (R : Type ℓ) : Type ℓ where
  err : Error → Result R
  ok : R → Result R

pub ok_injective {ℓ} : {R : Type ℓ} {x y : R} → ok x ≡ ok y → x ≡ y
ok_injective same = cc

infixl 5 ◌>>=◌
-- The next statement, which reads what the one before returned.
abbrev pub ◌>>=◌ {ℓ κ} : {R : Type ℓ} {S : Type κ} → Result R → (R → Result S) → Result S
err raised >>= next = err raised
ok returned >>= next = next returned

-- A sequence that returned ran its first statement to the end.
pub >>=-eq-ok {ℓ κ} :
    {R : Type ℓ} {S : Type κ} (first : Result R) (next : R → Result S) {out : S}
    → (first >>= next) ≡ ok out
    → (r : R) × (first ≡ ok r) × (next r ≡ ok out)
>>=-eq-ok (err raised) next returned = cc
>>=-eq-ok (ok r) next returned = (r, refl, returned)

infixl 5 ◌>>◌
-- A statement whose value is not used.
abbrev pub ◌>>◌ {ℓ} : {S : Type ℓ} → Result (Unit {0}) → Result S → Result S
before >> after = before >>= λ ignored. after
