-- ===== src/Sm2/Ec/Constants.antt =====
-- src/sm2/field.rs: over the field of the standard the coefficient a is -3, and G is on the curve.
use libsmx.Base.{ℕ, zero, suc, ◌+◌, ◌-◌, ◌*◌, ◌%◌, ◌≡◌, refl, sym, ap, ap₂, ◌∙◌, arith}
use libsmx.Algebra.Laws.{minus_unique}
use libsmx.Algebra.Numeric.{num}
use libsmx.Monty.{Monty}
use libsmx.Sm2.Field.{field_modulus, curve_a, curve_b, gx, gy}
use libsmx.Sm2.Ec.{from_affine}
use libsmx.Sm2.Ec.Multiply.{generator}
use libsmx.Sm2.Ec.Identities.{curve_gap, gap_one, difference_zero}
use libsmx.Sm2.Ec.OnCurve.{IsMinusThree, IsOnCurve}

module _ (f : Monty) where
  pub new-mod : (n : ℕ) → f.new (n % f.modulus) ≡ f.new n
  new-mod n = ap f.new (sym (f.retrieve-new n)) ∙ f.new_law (f.new n)

  -- Numbers with one remainder are one residue.
  pub new_congr : (m n : ℕ) → m % f.modulus ≡ n % f.modulus → f.new m ≡ f.new n
  new_congr m n e = sym (new-mod m) ∙ ap f.new e ∙ new-mod n

  num-new : (n : ℕ) → num f.ring n ≡ f.new n
  num-new zero = sym f.new-zero
  num-new (suc n) =
      let e : n + 1 ≡ suc n = omega arith in
      ap₂ f.ring.plus (num-new n) (sym f.new-one) ∙ sym (f.new-add n 1) ∙ ap f.new e

  pub gap-new :
      (a b x y : ℕ)
      → y * y % f.modulus ≡ (x * x * x + a * x + b) % f.modulus
      → curve_gap f.ring (f.new a) (f.new b) (f.new x) (f.new y) f.ring.unit ≡ f.ring.nought
  gap-new a b x y e =
      let cube = f.new-mul (x * x) x ∙ ap (λ t. f.ring.times t (f.new x)) (f.new-mul x x) in
      let rhs =
        f.new-add (x * x * x + a * x) b
        ∙ ap (λ t. f.ring.plus t (f.new b))
            (f.new-add (x * x * x) (a * x) ∙ ap₂ f.ring.plus cube (f.new-mul a x)) in
      gap_one f.ring _ _ _ _
      ∙ difference_zero f.ring _ _
          (sym (f.new-mul y y) ∙ new_congr (y * y) (x * x * x + a * x + b) e ∙ rhs)

  module _ (standard : f.modulus ≡ field_modulus) where
    pub curve_a-IsMinusThree : IsMinusThree f
    unfolding curve_a
    curve_a-IsMinusThree =
        let a : ℕ = field_modulus - 3 in
        minus_unique f.ring (num f.ring 3) (f.new a) (
          ap (λ t. f.ring.plus t (f.new a)) (num-new 3)
          ∙ sym (f.new-add 3 a)
          ∙ new_congr (3 + a) 0 (rw standard refl)
          ∙ f.new-zero)

    pub generator-IsOnCurve : IsOnCurve f (from_affine f (generator f))
    unfolding curve_a curve_b gx gy
    generator-IsOnCurve = gap-new _ _ _ _ (rw standard refl)
