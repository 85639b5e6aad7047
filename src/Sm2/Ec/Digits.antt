-- ===== src/Sm2/Ec/Digits.antt =====
-- src/sm2/ec.rs: `scalar_mul` by the binary digits of the number.
use native.Mathlib.Nat.{zero-mod, pow-suc, div-div-eq-div-mul}
use libsmx.Base.{
  ℕ, zero, suc, ◌+◌, ◌*◌, ◌/◌, ◌%◌, ◌^◌, ◌<◌, ◌==◌, if◌then◌else◌, true, ◌≡◌, refl, sym, ap, ap₂,
  ◌∙◌, [], ◌∷◌, length, replicate, arith,
}
use libsmx.Base.Bits.{bit}
use libsmx.Base.Places.{shift-bit, bit-mod}
use libsmx.Base.Words.{
  Bytes, AreBytes, from_be_bytes, to_be_bytes, length-to_be_bytes, to_be_bytes-AreBytes,
  from_be_bytes-to_be_bytes,
}
use libsmx.Base.Bytes.{bytes_eq}
use libsmx.Monty.{Monty}
use libsmx.Sm2.Ec.{JacobianPoint, infinity, double, add, ct_is_infinity}
use libsmx.Sm2.Ec.Multiply.{mul_bits, mul_bytes, scalar_mul}

half_of_shift : (m b : ℕ) → m / 2 ^ suc b ≡ m / 2 ^ b / 2
half_of_shift m b =
    let e : 2 ^ suc b ≡ 2 ^ b * 2 = omega (arith, pow-suc 2 b) in
    ap (λ (t : ℕ). m / t) e ∙ sym (div-div-eq-div-mul m (2 ^ b) 2)

-- The digits of the lowest byte of a number are the number's.
digits_of_byte : (m byte j : ℕ) → m % 256 ≡ byte → j < 8 → (byte / 2 ^ j) % 2 ≡ (m / 2 ^ j) % 2
digits_of_byte m byte j h l =
    shift-bit j byte ∙ ap (bit j) (sym h) ∙ bit-mod 8 j m l ∙ sym (shift-bit j m)

zero_bytes : bytes_eq (to_be_bytes 32 0) (replicate 32 0) ≡ true
unfolding to_be_bytes
zero_bytes = refl

module _ (f : Monty) (p : JacobianPoint f) where
  -- One digit more of the number.
  abbrev with_digit : ℕ → JacobianPoint f → JacobianPoint f
  with_digit digit half = if digit == 1 then add f (double f half) p else double f half

  -- The multiple by the lowest `n` binary digits of a number, from the lowest one up.
  multiple : ℕ → ℕ → JacobianPoint f
  multiple zero k = infinity f
  multiple (suc n) k = with_digit (k % 2) (multiple n (k / 2))

  mul_bits-multiple :
      (b n m byte : ℕ)
      → ((j : ℕ) → j < b → (byte / 2 ^ j) % 2 ≡ (m / 2 ^ j) % 2)
      → mul_bits f b byte p (multiple n (m / 2 ^ b)) ≡ multiple (b + n) m
  unfolding mul_bits multiple
  mul_bits-multiple zero n m byte h =
      let none_left : n ≡ 0 + n = omega arith in
      let e : m / 2 ^ zero ≡ m = omega arith in ap₂ multiple none_left e
  mul_bits-multiple (suc b) n m byte h =
      rw (h b (omega arith), half_of_shift m b)
        (mul_bits-multiple b (suc n) m byte (λ j l. h j (omega (arith, l)))
          ∙ ap (λ t. multiple t m) (omega arith))

  mul_bytes-multiple :
      (bytes : Bytes) (n k : ℕ)
      → AreBytes bytes
      → mul_bytes f bytes p (multiple n k) ≡ multiple (8 * length bytes + n) (from_be_bytes k bytes)
  unfolding mul_bytes from_be_bytes
  mul_bytes-multiple [] n k h = ap (λ t. multiple t k) (omega arith)
  mul_bytes-multiple (byte ∷ bytes) n k h =
      let m = k * 256 + byte in
      let shifted : m / 2 ^ 8 ≡ k = omega (arith, h.0) in
      let low : m % 256 ≡ byte = omega (arith, h.0) in
      let more : 8 * length bytes + (8 + n) ≡ 8 * length (byte ∷ bytes) + n = omega arith in
      ap (λ t. mul_bytes f bytes p (mul_bits f 8 byte p (multiple n t))) (sym shifted)
      ∙ ap (λ r. mul_bytes f bytes p r)
          (mul_bits-multiple 8 n m byte (λ j l. digits_of_byte m byte j low l))
      ∙ mul_bytes-multiple bytes (8 + n) m h.1
      ∙ ap (λ t. multiple t (from_be_bytes m bytes)) more

  multiple_start : infinity f ≡ multiple 0 0
  unfolding multiple
  multiple_start = refl

  multiple_step :
      (n k digit : ℕ)
      → digit < 2
      → multiple (suc n) (2 * k + digit) ≡ with_digit digit (multiple n k)
  unfolding multiple
  multiple_step n k digit h =
      let last : (2 * k + digit) % 2 ≡ digit = omega (arith, h) in
      let half : (2 * k + digit) / 2 ≡ k = omega (arith, h) in rw (last, half) refl

  scalar_mul-multiple : (k : ℕ) → k < 2 ^ 256 → scalar_mul f k p ≡ multiple 256 k
  unfolding scalar_mul
  scalar_mul-multiple k h =
      let bytes = to_be_bytes 32 k in
      let digits : 8 * length bytes + 0 ≡ 256 = omega (arith, length-to_be_bytes 32 k) in
      ap (λ r. mul_bytes f bytes p r) multiple_start
      ∙ mul_bytes-multiple bytes 0 0 (to_be_bytes-AreBytes 32 k)
      ∙ ap₂ multiple digits (from_be_bytes-to_be_bytes 32 k (omega (arith, h)))

  double-infinity : double f (infinity f) ≡ infinity f
  unfolding double
  double-infinity =
      let zero_residue : f.retrieve f.ring.nought ≡ 0 =
        ap f.retrieve (sym f.new-zero) ∙ f.retrieve-new 0 ∙ zero-mod f.modulus in
      let at_infinity : ct_is_infinity f (infinity f) ≡ true =
        ap (λ (v : ℕ). bytes_eq (to_be_bytes 32 v) (replicate 32 0)) zero_residue ∙ zero_bytes in
      rw at_infinity refl

  multiple-zero : (n : ℕ) → multiple n 0 ≡ infinity f
  unfolding multiple
  multiple-zero zero = refl
  multiple-zero (suc n) = ap (double f) (multiple-zero n) ∙ double-infinity

  -- Digits above the highest one of the number change nothing.
  multiple-suc : (n k : ℕ) → k < 2 ^ n → multiple (suc n) k ≡ multiple n k
  unfolding multiple
  multiple-suc zero k h = let e : k ≡ 0 = omega arith in rw e (multiple-zero 1)
  multiple-suc (suc n) k h =
      ap (with_digit (k % 2)) (multiple-suc n (k / 2) (omega (arith, h, pow-suc 2 n)))

  scalar_mul_step :
      (k digit : ℕ)
      → k < 2 ^ 255
      → digit < 2
      → scalar_mul f (2 * k + digit) p ≡ with_digit digit (scalar_mul f k p)
  scalar_mul_step k digit h d =
      scalar_mul-multiple (2 * k + digit) (omega (arith, h, d))
      ∙ multiple_step 255 k digit d
      ∙ ap (with_digit digit)
          (sym (scalar_mul-multiple k (omega (arith, h)) ∙ multiple-suc 255 k h))

  -- For every point and every k below 2 ^ 255, `scalar_mul` by zero is the point at infinity, by
  -- 2 k the `double` of the multiple by k, and by 2 k + 1 the `add` of that double and the point.
  pub scalar_mul_lem :
      (k : ℕ)
      → k < 2 ^ 255
      → (scalar_mul f 0 p ≡ infinity f)
        × (scalar_mul f (2 * k) p ≡ double f (scalar_mul f k p))
        × (scalar_mul f (2 * k + 1) p ≡ add f (double f (scalar_mul f k p)) p)
  scalar_mul_lem k h =
      let even : 2 * k ≡ 2 * k + 0 = omega arith in
      (
        scalar_mul-multiple 0 (omega arith) ∙ multiple-zero 256,
        ap (λ t. scalar_mul f t p) even ∙ scalar_mul_step k 0 h (omega arith),
        scalar_mul_step k 1 h (omega arith),
      )
