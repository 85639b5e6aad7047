-- ===== src/Base/Bits.antt =====
-- The laws of the bitwise operations at variables, by way of the single digits: exclusive or is
-- associative, commutative and its own inverse, and none of the three leaves a width.
use Prim.Native.Nat.{
  ℕ, zero, suc, ◌+◌, ◌-◌, ◌*◌, ◌/◌, ◌%◌, ◌^◌, ◌≤◌, ◌<◌, min, max, differ, bit_and, bit_or, bit_xor,
}
use mathlib.Core.Path.{◌≡◌, refl, sym, ap, ◌∙◌}
use mathlib.Core.Logic.{◌⊎◌, inl, inr}
use native.Mathlib.Nat.{pow-suc, one-le-pow, div-add-mod, mul-add-mod_self_right, mod-eq_of_lt}
use native.Mathlib.Omega.{arith}
use libsmx.Base.Digits.{or_digit, and_digit, xor_digit}

-- The digit of `a` at place `i`, lowest first: `(a >> i) & 1`.
unfoldable pub bit : ℕ → ℕ → ℕ
bit zero a = a % 2
bit (suc i) a = bit i (a / 2)

pub bit-zero : (i : ℕ) → bit i 0 ≡ 0
unfolding bit
bit-zero zero = refl
bit-zero (suc i) = bit-zero i

pub bit_cases : (i a : ℕ) → (bit i a ≡ 0) ⊎ (bit i a ≡ 1)
unfolding bit
bit_cases zero a = omega arith
bit_cases (suc i) a = bit_cases i (a / 2)

differ_lt : (x y : ℕ) → x < 2 → y < 2 → differ x y < 2
differ_lt zero y p q = q
differ_lt (suc zero) zero p q = omega arith
differ_lt (suc zero) (suc zero) p q = omega arith
differ_lt (suc zero) (suc (suc y)) p q = absurd (omega arith)
differ_lt (suc (suc x)) y p q = absurd (omega arith)

pub xor_half : (a b : ℕ) → bit_xor a b / 2 ≡ bit_xor (a / 2) (b / 2)
xor_half a b = omega (arith, xor_digit a b, differ_lt (a % 2) (b % 2) (omega arith) (omega arith))

pub bit-xor : (i a b : ℕ) → bit i (bit_xor a b) ≡ differ (bit i a) (bit i b)
unfolding bit
bit-xor zero a b =
    omega (arith, xor_digit a b, differ_lt (a % 2) (b % 2) (omega arith) (omega arith))
bit-xor (suc i) a b = rw (xor_half a b) (bit-xor i (a / 2) (b / 2))

and_half : (a b : ℕ) → bit_and a b / 2 ≡ bit_and (a / 2) (b / 2)
and_half a b = omega (arith, and_digit a b)

or_half : (a b : ℕ) → bit_or a b / 2 ≡ bit_or (a / 2) (b / 2)
or_half a b = omega (arith, or_digit a b)

pub bit-and : (i a b : ℕ) → bit i (bit_and a b) ≡ min (bit i a) (bit i b)
unfolding bit
bit-and zero a b = omega (arith, and_digit a b)
bit-and (suc i) a b = rw (and_half a b) (bit-and i (a / 2) (b / 2))

pub bit-or : (i a b : ℕ) → bit i (bit_or a b) ≡ max (bit i a) (bit i b)
unfolding bit
bit-or zero a b = omega (arith, or_digit a b)
bit-or (suc i) a b = rw (or_half a b) (bit-or i (a / 2) (b / 2))

-- Two numbers with the same digits are one.
bit_ext_below : (k a b : ℕ) → a ≤ k → b ≤ k → ((i : ℕ) → bit i a ≡ bit i b) → a ≡ b
unfolding bit
bit_ext_below zero a b p q h = omega arith
bit_ext_below (suc k) a b p q h =
    omega (arith, h 0, bit_ext_below k (a / 2) (b / 2) (omega arith) (omega arith) (λ i. h (suc i)))

pub bit_ext : (a b : ℕ) → ((i : ℕ) → bit i a ≡ bit i b) → a ≡ b
bit_ext a b h = bit_ext_below (a + b) a b (omega arith) (omega arith) h

-- The laws of `differ` on single digits.
abbrev IsDigit : ℕ → Type 0
IsDigit x = (x ≡ 0) ⊎ (x ≡ 1)

differ_comm : (x y : ℕ) → IsDigit x → IsDigit y → differ x y ≡ differ y x
differ_comm x y (inl p) (inl q) = rw (p, q)
differ_comm x y (inl p) (inr q) = rw (p, q)
differ_comm x y (inr p) (inl q) = rw (p, q)
differ_comm x y (inr p) (inr q) = rw (p, q)

differ_assoc :
    (x y z : ℕ) → IsDigit x → IsDigit y → IsDigit z → differ (differ x y) z ≡ differ x (differ y z)
differ_assoc x y z (inl p) q r = rw p
differ_assoc x y z (inr p) (inl q) r = rw (p, q)
differ_assoc x y z (inr p) (inr q) (inl r) = rw (p, q, r)
differ_assoc x y z (inr p) (inr q) (inr r) = rw (p, q, r)

differ_self : (x : ℕ) → IsDigit x → differ x x ≡ 0
differ_self x (inl p) = rw p
differ_self x (inr p) = rw p

pub xor_comm : (a b : ℕ) → bit_xor a b ≡ bit_xor b a
xor_comm a b =
    bit_ext _ _
      λ i. rw (bit-xor i a b, bit-xor i b a) (differ_comm _ _ (bit_cases i a) (bit_cases i b))

pub xor_assoc : (a b c : ℕ) → bit_xor (bit_xor a b) c ≡ bit_xor a (bit_xor b c)
xor_assoc a b c =
    bit_ext _ _
      λ i. simp bit-xor (differ_assoc _ _ _ (bit_cases i a) (bit_cases i b) (bit_cases i c))

pub xor_self : (a : ℕ) → bit_xor a a ≡ 0
xor_self a = bit_ext _ _ λ i. rw (bit-xor i a a, bit-zero i) (differ_self _ (bit_cases i a))

pub zero-xor : (a : ℕ) → bit_xor 0 a ≡ a
zero-xor a = bit_ext _ _ λ i. rw (bit-xor i 0 a, bit-zero i)

pub xor-zero : (a : ℕ) → bit_xor a 0 ≡ a
xor-zero a = xor_comm a 0 ∙ zero-xor a

-- Exclusive or undoes itself, on either side.
pub xor_cancel_right : (a b : ℕ) → bit_xor (bit_xor a b) b ≡ a
xor_cancel_right a b = rw (xor_assoc a b b, xor_self b) (xor-zero a)

pub xor_cancel_left : (a b : ℕ) → bit_xor a (bit_xor a b) ≡ b
xor_cancel_left a b = rw (← xor_assoc a a b, xor_self a) (zero-xor b)

-- None of the three operations leaves a width.
pub xor-lt : (k a b : ℕ) → a < 2 ^ k → b < 2 ^ k → bit_xor a b < 2 ^ k
xor-lt zero a b p q =
    let ea : a ≡ 0 = omega arith in let eb : b ≡ 0 = omega arith in rw (ea, eb) (omega arith)
xor-lt (suc k) a b p q = omega (
  arith,
  pow-suc 2 k,
  xor_half a b,
  xor-lt k (a / 2) (b / 2) (omega (arith, pow-suc 2 k)) (omega (arith, pow-suc 2 k)),
)

pub or-lt : (k a b : ℕ) → a < 2 ^ k → b < 2 ^ k → bit_or a b < 2 ^ k
or-lt zero a b p q =
    let ea : a ≡ 0 = omega arith in let eb : b ≡ 0 = omega arith in rw (ea, eb) (omega arith)
or-lt (suc k) a b p q = omega (
  arith,
  pow-suc 2 k,
  or_half a b,
  or-lt k (a / 2) (b / 2) (omega (arith, pow-suc 2 k)) (omega (arith, pow-suc 2 k)),
)

pub zero-and : (b : ℕ) → bit_and 0 b ≡ 0
zero-and b = bit_ext _ _ λ i. rw (bit-and i 0 b, bit-zero i) (omega arith)

pub and-lt : (k a b : ℕ) → a < 2 ^ k → bit_and a b < 2 ^ k
and-lt zero a b p = let ea : a ≡ 0 = omega arith in rw (ea, zero-and b) (omega arith)
and-lt (suc k) a b p =
    omega (arith, pow-suc 2 k, and_digit a b, and-lt k (a / 2) (b / 2) (omega (arith, pow-suc 2 k)))

pub and-zero : (a : ℕ) → bit_and a 0 ≡ 0
and-zero a = bit_ext _ _ λ i. let e = bit-zero i in omega (arith, bit-and i a 0, e)

pub or-zero : (a : ℕ) → bit_or a 0 ≡ a
or-zero a = bit_ext _ _ λ i. let e = bit-zero i in omega (arith, bit-or i a 0, e)

-- `(q << k) | r` is a sum where `r` fits in `k` digits.
pub or_disjoint : (k q r : ℕ) → r < 2 ^ k → bit_or (q * 2 ^ k) r ≡ q * 2 ^ k + r
or_disjoint zero q r h = let e : r ≡ 0 = omega arith in rw e (or-zero (q * 1) ∙ omega arith)
or_disjoint (suc k) q r h =
    let t = q * 2 ^ k in
    let e : q * 2 ^ suc k ≡ t * 2 = omega (arith, ap (λ (p : ℕ). q * p) (pow-suc 2 k)) in
    let half : t * 2 / 2 ≡ t = omega arith in
    let ih : bit_or t (r / 2) ≡ t + r / 2 = or_disjoint k q (r / 2) (omega (arith, pow-suc 2 k)) in
    rw e (omega (arith, or_digit (t * 2) r, ap (λ (u : ℕ). bit_or u (r / 2)) half, ih))

mod_double : (a m : ℕ) → 0 < m → a % (m * 2) ≡ a / 2 % m * 2 + a % 2
mod_double a m h =
    let q = a / 2 / m in
    let r = a / 2 % m * 2 + a % 2 in
    let e : q * (m * 2) + r ≡ a = omega (arith, div-add-mod (a / 2) m, div-add-mod a 2) in
    let small : r < m * 2 = omega arith in
    ap (λ (u : ℕ). u % (m * 2)) (sym e) ∙ mul-add-mod_self_right q (m * 2) r ∙ mod-eq_of_lt small

-- A mask of `k` ones is a remainder.
pub and_mask : (k a : ℕ) → bit_and a (2 ^ k - 1) ≡ a % 2 ^ k
and_mask zero a = and-zero a ∙ omega arith
and_mask (suc k) a =
    let m = 2 ^ k in
    let pos = one-le-pow k 2 (omega arith) in
    let e : 2 ^ suc k ≡ m * 2 = pow-suc 2 k in
    let half : (m * 2 - 1) / 2 ≡ m - 1 = omega arith in
    rw e (
      omega (
        arith,
        and_digit a (m * 2 - 1),
        ap (λ (u : ℕ). bit_and (a / 2) u) half,
        and_mask k (a / 2),
        mod_double a m pos,
      ))
