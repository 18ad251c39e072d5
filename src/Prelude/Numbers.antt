-- ===== src/Prelude/Numbers.antt =====
-- Arithmetic that the components share: rounding a quotient up, and sharing out a remainder.
use Prim.Native.Nat.{ℕ, zero, suc, ◌+◌, ◌-◌, ◌*◌, ◌/◌, ◌≤◌, ◌<◌}
use mathlib.Core.Path.{◌≡◌}
use native.Mathlib.Omega.{arith}

-- `(a + n - 1) // n`
unfoldable pub ceil_div : ℕ → ℕ → ℕ
ceil_div a n = (a + n - 1) / n

pub le-ceil_div-mul : (a n : ℕ) → 0 < n → a ≤ ceil_div a n * n
unfolding ceil_div
le-ceil_div-mul a n h = grind arith

pub ceil_div-mul-lt : (a n : ℕ) → 0 < n → ceil_div a n * n < a + n
unfolding ceil_div
ceil_div-mul-lt a n h = grind arith

pub ceil_div-pos : (a n : ℕ) → 0 < a → 0 < n → 0 < ceil_div a n
unfolding ceil_div
ceil_div-pos a n h k = grind arith

pub div_bounds : (m p : ℕ) → 0 < p → (p * (m / p) ≤ m) × (m < p * (m / p) + p)
div_bounds m p h = (grind arith, grind arith)

-- The multiple of `p` below a number determines the quotient.
pub div_unique : (m p q : ℕ) → p * q ≤ m → m < p * q + p → q ≡ m / p
div_unique m p q low high = grind arith

pub mul-pred : (p k : ℕ) → 1 ≤ k → p * k ≡ p * (k - 1) + p
mul-pred p zero h = elim h [ ]
mul-pred p (suc j) h = let e : suc j - 1 ≡ j = omega arith in rw e (omega arith)

pub div-eq-zero : (m p : ℕ) → m < p → 0 ≡ m / p
div-eq-zero m p h = grind arith

pub div-add_self : (m p : ℕ) → 0 < p → suc (m / p) ≡ (m + p) / p
div-add_self m p h =
    let b = div_bounds m p h in div_unique (m + p) p (suc (m / p)) (grind arith) (grind arith)

pub ceil_div-ge_two : (a n : ℕ) → 0 < n → n < a → 2 ≤ ceil_div a n
ceil_div-ge_two a n pos more =
    let b = le-ceil_div-mul a n pos in factor (ceil_div a n) n pos (omega (arith, b))
  where
    factor : (c k : ℕ) → 0 < k → k < c * k → 2 ≤ c
    factor zero k p h = absurd (omega arith)
    factor (suc zero) k p h = absurd (omega arith)
    factor (suc (suc c)) k p h = omega arith

-- Python's `int(n > 0)`
abbrev pub positive : ℕ → ℕ
positive zero = 0
positive (suc n) = 1

pub positive_le : (n k : ℕ) → n ≤ suc k → n - positive n ≤ k
positive_le zero k le = omega arith
positive_le (suc n) k le = omega arith

pub positive_split : (n : ℕ) → n ≡ positive n + (n - positive n)
positive_split zero = omega arith
positive_split (suc n) = omega arith

pub suc_mul : (n k : ℕ) → suc n * k ≡ k + n * k
suc_mul n k = omega arith
