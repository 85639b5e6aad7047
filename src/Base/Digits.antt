-- ===== src/Base/Digits.antt =====
-- The native bitwise operations, one binary digit at a time. They stand for `bitwise`, a recursion
-- with fuel; here the fuel is gone, and `bit i a` is the digit of `a` at place `i`.
use Prim.Native.Nat.{
  ℕ, zero, suc, ◌+◌, ◌*◌, ◌/◌, ◌%◌, ◌≤◌, min, max, differ, digits, bitwise, bit_and, bit_or,
  bit_xor, bit_and-bitwise, bit_or-bitwise, bit_xor-bitwise,
}
use mathlib.Core.Path.{◌≡◌, refl}
use native.Mathlib.Omega.{arith}

module _ (last : ℕ → ℕ) (op : ℕ → ℕ → ℕ) where
  -- Any fuel that covers the first number does.
  fuel_irrelevant :
      (a n m b : ℕ) → a ≤ n → a ≤ m → (k : ℕ) → a ≤ k → digits last op n a b ≡ digits last op m a b
  fuel_irrelevant zero zero zero b p q k h = refl
  fuel_irrelevant zero zero (suc m) b p q k h = refl
  fuel_irrelevant zero (suc n) zero b p q k h = refl
  fuel_irrelevant zero (suc n) (suc m) b p q k h = refl
  fuel_irrelevant (suc a) zero m b p q k h = absurd (omega arith)
  fuel_irrelevant (suc a) (suc n) zero b p q k h = absurd (omega arith)
  fuel_irrelevant (suc a) (suc n) (suc m) b p q zero h = absurd (omega arith)
  fuel_irrelevant (suc a) (suc n) (suc m) b p q (suc k) h =
      omega
        (arith, fuel_irrelevant (suc a / 2) n m (b / 2) (omega arith) (omega arith) k (omega arith))

  -- The lowest digit of the result is that of the two lowest digits, where `last` agrees.
  lowest_digit :
      ((y : ℕ) → op 0 (y % 2) + 2 * last (y / 2) ≡ last y)
      → (x y : ℕ) → op (x % 2) (y % 2) + 2 * bitwise last op (x / 2) (y / 2) ≡ bitwise last op x y
  lowest_digit agree zero y = agree y
  lowest_digit agree (suc x) y = omega (
    arith,
    fuel_irrelevant (suc x / 2) x (suc x / 2) (y / 2) (omega arith) (omega arith) x (omega arith),
  )

pub or_digit : (x y : ℕ) → max (x % 2) (y % 2) + 2 * bit_or (x / 2) (y / 2) ≡ bit_or x y
or_digit x y =
    rw (bit_or-bitwise x y, bit_or-bitwise (x / 2) (y / 2))
      (lowest_digit (λ t. t) max (λ t. omega arith) x y)

pub and_digit : (x y : ℕ) → min (x % 2) (y % 2) + 2 * bit_and (x / 2) (y / 2) ≡ bit_and x y
and_digit x y =
    rw (bit_and-bitwise x y, bit_and-bitwise (x / 2) (y / 2))
      (lowest_digit (λ t. 0) min (λ t. omega arith) x y)

pub xor_digit : (x y : ℕ) → differ (x % 2) (y % 2) + 2 * bit_xor (x / 2) (y / 2) ≡ bit_xor x y
xor_digit x y =
    rw (bit_xor-bitwise x y, bit_xor-bitwise (x / 2) (y / 2))
      (lowest_digit (λ t. t) differ (λ t. omega arith) x y)
