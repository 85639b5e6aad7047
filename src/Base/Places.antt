-- ===== src/Base/Places.antt =====
-- The binary digits of a byte: what a mask, a shift and a write of one digit do to them.
use Prim.Native.Nat.{ℕ, zero, suc, ◌-◌, ◌*◌, ◌/◌, ◌%◌, ◌^◌, ◌≤◌, ◌<◌, bit_and, bit_or}
use mathlib.Core.Path.{◌≡◌, sym, ap, ◌∙◌}
use mathlib.Core.Logic.{◌⊎◌, inl, inr}
use native.Mathlib.Nat.{pow-suc, one-le-pow, pow-le-pow_right, div-div-eq-div-mul}
use native.Mathlib.Omega.{arith}
use libsmx.Base.Tests.{◌==◌, ltb, if◌then◌else◌}
use libsmx.Base.Bits.{bit, bit-zero, bit-and, bit-or, bit_ext, bit_cases, and_mask}

pub lt_or_ge : (a b : ℕ) → (a < b) ⊎ (b ≤ a)
lt_or_ge a zero = inr (omega arith)
lt_or_ge zero (suc b) = inl (omega arith)
lt_or_ge (suc a) (suc b) = elim (lt_or_ge a b) [
  | inl h ↦ inl (omega arith)
  | inr h ↦ inr (omega arith)
]

-- A digit is a shift and a remainder.
pub shift-bit : (i x : ℕ) → (x / 2 ^ i) % 2 ≡ bit i x
unfolding bit
shift-bit zero x = omega arith
shift-bit (suc i) x =
    let e : x / 2 ^ suc i ≡ x / 2 / 2 ^ i =
      ap (λ (t : ℕ). x / t) (omega (arith, pow-suc 2 i)) ∙ sym (div-div-eq-div-mul x 2 (2 ^ i)) in
    rw e (shift-bit i (x / 2))

-- A number below 2 ^ k has no digit from place k on.
pub bit-lt : (k i x : ℕ) → x < 2 ^ k → k ≤ i → bit i x ≡ 0
unfolding bit
bit-lt zero i x h g = let e : x ≡ 0 = omega arith in rw e (bit-zero i)
bit-lt (suc k) zero x h g = absurd (omega arith)
bit-lt (suc k) (suc i) x h g = bit-lt k i (x / 2) (omega (arith, pow-suc 2 k)) (omega arith)

-- A shift moves the digits up.
pub bit-shifted : (i b x : ℕ) → bit i (x * 2 ^ b) ≡ (if ltb i b then 0 else bit (i - b) x)
unfolding bit
bit-shifted i zero x =
    let e : x * 2 ^ 0 ≡ x = omega arith in
    let g : i - 0 ≡ i = omega arith in rw e (ground (arith, ap (λ (t : ℕ). bit t x) g))
bit-shifted zero (suc b) x =
    let e : x * 2 ^ suc b ≡ 2 * (x * 2 ^ b) = rw (pow-suc 2 b) (omega arith) in rw e (ground arith)
bit-shifted (suc i) (suc b) x =
    let e : x * 2 ^ suc b / 2 ≡ x * 2 ^ b = rw (pow-suc 2 b) (omega arith) in
    rw e (bit-shifted i b x ∙ same)
  where
    same :
        (if ltb i b then 0 else bit (i - b) x)
        ≡ (if ltb (suc i) (suc b) then 0 else bit (suc i - suc b) x)
    same = ground arith

pub bit-ones : (k i : ℕ) → i < k → bit i (2 ^ k - 1) ≡ 1
unfolding bit
bit-ones zero i h = absurd (omega arith)
bit-ones (suc k) zero h = omega (arith, pow-suc 2 k, one-le-pow k 2 (omega arith))
bit-ones (suc k) (suc i) h =
    let e : (2 ^ suc k - 1) / 2 ≡ 2 ^ k - 1 =
      omega (arith, pow-suc 2 k, one-le-pow k 2 (omega arith)) in
    rw e (bit-ones k i (omega arith))

-- A remainder keeps the digits below its width.
pub bit-mod : (k i x : ℕ) → i < k → bit i (x % 2 ^ k) ≡ bit i x
bit-mod k i x h =
    rw (← and_mask k x, bit-and i x (2 ^ k - 1), bit-ones k i h)
      (elim (bit_cases i x) [ inl e ↦ omega arith | inr e ↦ omega arith ])

-- The complement of one digit.
pub bit-complement :
    (k i b : ℕ) → i < k → b < k → bit i (2 ^ k - 1 - 2 ^ b) ≡ (if i == b then 0 else 1)
unfolding bit
bit-complement zero i b h g = absurd (omega arith)
bit-complement (suc k) zero zero h g = omega (arith, pow-suc 2 k, one-le-pow k 2 (omega arith))
bit-complement (suc k) zero (suc b) h g =
    let p : 2 ^ suc b ≤ 2 ^ k = pow-le-pow_right (omega arith) (omega arith) in
    ground (arith, p, pow-suc 2 k, pow-suc 2 b, one-le-pow b 2 (omega arith))
bit-complement (suc k) (suc i) zero h g =
    let e : (2 ^ suc k - 1 - 2 ^ 0) / 2 ≡ 2 ^ k - 1 =
      omega (arith, pow-suc 2 k, one-le-pow k 2 (omega arith)) in
    rw e (ground (arith, bit-ones k i (omega arith)))
bit-complement (suc k) (suc i) (suc b) h g =
    let p : 2 ^ suc b ≤ 2 ^ k = pow-le-pow_right (omega arith) (omega arith) in
    let e : (2 ^ suc k - 1 - 2 ^ suc b) / 2 ≡ 2 ^ k - 1 - 2 ^ b =
      omega (arith, p, pow-suc 2 k, pow-suc 2 b, one-le-pow b 2 (omega arith)) in
    rw e (ground (arith, bit-complement k i b (omega arith) (omega arith)))

-- Two bytes with the same eight digits are one.
pub byte_ext : (x y : ℕ) → x < 256 → y < 256 → ((i : ℕ) → i < 8 → bit i x ≡ bit i y) → x ≡ y
byte_ext x y p q h =
    bit_ext x y
      λ i. elim (lt_or_ge i 8) [ inl g ↦ h i g | inr g ↦ bit-lt 8 i x p g ∙ sym (bit-lt 8 i y q g) ]

bit-shifted_digit : (i b v : ℕ) → v < 2 → bit i (v * 2 ^ b) ≡ (if i == b then v else 0)
unfolding bit
bit-shifted_digit i b v h = bit-shifted i b v ∙ elim (lt_or_ge b i) [
  | inl g ↦ ground (arith, bit-lt 1 (i - b) v h (omega arith))
  | inr g ↦ at_place g
]
  where
    at_place : i ≤ b → (if ltb i b then 0 else bit (i - b) v) ≡ (if i == b then v else 0)
    at_place g = elim (lt_or_ge i b) [
      | inl k ↦ ground arith
      | inr k ↦ let z : i - b ≡ 0 = omega arith in rw z (ground arith)
    ]

-- A write of one digit of a byte, as `(byte & !(1 << b)) | (v << b)` makes it.
pub bit-write :
    (i b byte v : ℕ)
    → i < 8
    → b < 8
    → v < 2
    → bit i (bit_or (bit_and byte (255 - 2 ^ b)) (v * 2 ^ b)) ≡ (if i == b then v else bit i byte)
bit-write i b byte v hi hb hv =
    let m : bit i (255 - 2 ^ b) ≡ (if i == b then 0 else 1) = bit-complement 8 i b hi hb in
    let t : bit i (v * 2 ^ b) ≡ (if i == b then v else 0) = bit-shifted_digit i b v hv in
    rw (bit-or i (bit_and byte (255 - 2 ^ b)) (v * 2 ^ b), bit-and i byte (255 - 2 ^ b), m, t)
      (elim (bit_cases i byte) [ inl e ↦ ground arith | inr e ↦ ground arith ])

-- The digits that the mask `0xFF << s` keeps are those from place `s` on.
pub bit-masked :
    (i s x : ℕ) → i < 8 → bit i (bit_and x (255 * 2 ^ s % 256)) ≡ (if ltb i s then 0 else bit i x)
bit-masked i s x h =
    let m : bit i (255 * 2 ^ s % 256) ≡ (if ltb i s then 0 else bit (i - s) 255) =
      bit-mod 8 i (255 * 2 ^ s) h ∙ bit-shifted i s 255 in
    let o : bit (i - s) 255 ≡ 1 = bit-ones 8 (i - s) (omega arith) in
    rw (bit-and i x (255 * 2 ^ s % 256), m, o)
      (elim (bit_cases i x) [ inl e ↦ ground arith | inr e ↦ ground arith ])
