-- ===== src/Examples/Sm9.antt =====
-- src/sm9/fields: the field of two elements in place of Fp, and the theorems on the tower over it.
use libsmx.Base.{
  ℕ, zero, suc, sym, ◌∙◌, ◌+◌, ◌*◌, ◌%◌, ◌==◌, ◌<◌, ◌≡◌, refl, Bool, true, false, ◌&&◌, not, Option,
  none, some, arith,
}
use native.Mathlib.Nat.{mod-eq_of_lt}
use libsmx.Algebra.{CommRing}
use libsmx.Examples.Residues.{mul-mod_left, mul-mod_right}
use libsmx.Monty.{Monty}
use libsmx.Sm9.Fields.Fp2.{fp2_zero, fp2_one, fp2_mul, fp2_inv, fp2_norm, fp2_sub, fp2_mul_u}
use libsmx.Sm9.Fields.Fp12.{
  Fp12, fp12_mul, fp12_inv, fp12_norm, fp6_inv, fp6_norm, fp6_cofactors, fp6_mul, fp6_mul_v,
  fp6_sub,
}
use libsmx.Sm9.Fields.Products.{fp12_ring, fp12_mul_lem}
use libsmx.Sm9.Fields.Inverses.{fp12_mul-fp12_inv}

abbrev xor : Bool → Bool → Bool
xor true b = not b
xor false b = b

xor_assoc : (a b c : Bool) → xor (xor a b) c ≡ xor a (xor b c)
xor_assoc true true true = refl
xor_assoc true true false = refl
xor_assoc true false true = refl
xor_assoc true false false = refl
xor_assoc false true true = refl
xor_assoc false true false = refl
xor_assoc false false true = refl
xor_assoc false false false = refl

xor_comm : (a b : Bool) → xor a b ≡ xor b a
xor_comm true true = refl
xor_comm true false = refl
xor_comm false true = refl
xor_comm false false = refl

xor-false : (a : Bool) → xor a false ≡ a
xor-false true = refl
xor-false false = refl

xor_self : (a : Bool) → xor a a ≡ false
xor_self true = refl
xor_self false = refl

and_assoc : (a b c : Bool) → ((a && b) && c) ≡ (a && (b && c))
and_assoc true true true = refl
and_assoc true true false = refl
and_assoc true false true = refl
and_assoc true false false = refl
and_assoc false true true = refl
and_assoc false true false = refl
and_assoc false false true = refl
and_assoc false false false = refl

and_comm : (a b : Bool) → (a && b) ≡ (b && a)
and_comm true true = refl
and_comm true false = refl
and_comm false true = refl
and_comm false false = refl

and_true : (a : Bool) → (a && true) ≡ a
and_true true = refl
and_true false = refl

and_xor : (a b c : Bool) → (a && xor b c) ≡ xor (a && b) (a && c)
and_xor true true true = refl
and_xor true true false = refl
and_xor true false true = refl
and_xor true false false = refl
and_xor false true true = refl
and_xor false true false = refl
and_xor false false true = refl
and_xor false false false = refl

and_self : (a : Bool) → a ≡ (a && a)
and_self true = refl
and_self false = refl

abbrev two : CommRing
two = record {
  Carrier = Bool;
  nought = false;
  unit = true;
  plus = xor;
  times = ◌&&◌;
  minus = λ a. a;
  plus_assoc = xor_assoc;
  plus_comm = xor_comm;
  plus_nought = xor-false;
  plus_minus = xor_self;
  times_assoc = and_assoc;
  times_comm = and_comm;
  times_unit = and_true;
  times_plus = and_xor;
}

abbrev invert_bit : Bool → Option Bool
invert_bit true = some true
invert_bit false = none

invert_bit_lem : (a b : Bool) → invert_bit a ≡ some b → (a && b) ≡ true
invert_bit_lem true b h = ground arith
invert_bit_lem false b h = cc

abbrev bit_value : Bool → ℕ
bit_value true = 1
bit_value false = 0

bit_value_small : (a : Bool) → bit_value a < 2
bit_value_small true = omega arith
bit_value_small false = omega arith

bit_value_back : (a : Bool) → (bit_value a % 2 == 1) ≡ a
bit_value_back true = refl
bit_value_back false = refl

bit_value_new : (n : ℕ) → bit_value (n % 2 == 1) ≡ n % 2
bit_value_new n = ground arith

parity-add : (m n : ℕ) → ((m + n) % 2 == 1) ≡ xor (m % 2 == 1) (n % 2 == 1)
parity-add m n = ground arith

product_parity : (m n : ℕ) → m * n % 2 ≡ (m % 2) * (n % 2)
product_parity m n =
    sym (mul-mod_left m n 2)
    ∙ sym (mul-mod_right (m % 2) n 2)
    ∙ mod-eq_of_lt (small (m % 2) (n % 2) (omega arith) (omega arith))
  where
    small : (a b : ℕ) → a < 2 → b < 2 → a * b < 2
    small zero b p q = omega arith
    small (suc zero) b p q = omega arith
    small (suc (suc a)) b p q = absurd (omega arith)

parity-mul : (m n : ℕ) → (m * n % 2 == 1) ≡ (m % 2 == 1) && (n % 2 == 1)
parity-mul m n = ground (arith, product_parity m n)

abbrev bits : Monty
bits = record {
  ring = two;
  sub = xor;
  sub_law = λ a b. refl;
  square = λ a. a;
  square_law = and_self;
  invert = invert_bit;
  invert_law = invert_bit_lem;
  pow = λ a e. a;
  modulus = 2;
  modulus_law = omega arith;
  new = λ n. n % 2 == 1;
  retrieve = bit_value;
  new_law = bit_value_back;
  retrieve_law = bit_value_small;
  retrieve-new = bit_value_new;
  new-zero = refl;
  new-one = refl;
  new-add = parity-add;
  new-mul = parity-mul;
}

-- One, which is its own inverse.
abbrev sample : Fp12 bits
sample = record {
  c0 = record { c0 = fp2_one bits; c1 = fp2_zero bits; c2 = fp2_zero bits };
  c1 = record { c0 = fp2_zero bits; c1 = fp2_zero bits; c2 = fp2_zero bits };
}

fp12_inv-sample : fp12_inv bits sample ≡ some sample
unfolding fp12_inv fp12_norm fp6_inv fp6_norm fp6_cofactors fp6_mul fp6_mul_v fp6_sub fp2_mul
    fp2_inv fp2_norm fp2_sub fp2_mul_u
fp12_inv-sample = refl

fp12_mul_example : fp12_mul bits sample sample ≡ (fp12_ring bits).times sample sample
fp12_mul_example = fp12_mul_lem bits sample sample

fp12_mul-fp12_inv_example : fp12_mul bits sample sample ≡ (fp12_ring bits).unit
fp12_mul-fp12_inv_example = fp12_mul-fp12_inv bits sample sample fp12_inv-sample
