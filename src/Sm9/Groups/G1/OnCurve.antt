-- ===== src/Sm9/Groups/G1/OnCurve.antt =====
-- src/sm9/groups/g1.rs: `double`, `add` and the multiplications stay on the curve.
use libsmx.Base.{
  ℕ, zero, suc, ◌%◌, ◌/◌, ◌^◌, ◌==◌, [], ◌∷◌, Bool, true, false, if◌then◌else◌, ◌≡◌, refl, ap,
  subst, ◌∙◌,
}
use libsmx.Base.Words.{Bytes, to_be_bytes}
use libsmx.Base.Bytes.{all_zero}
use libsmx.Algebra.Laws.{times_nought}
use libsmx.Algebra.Polynomial.{insert_var}
use libsmx.Algebra.Term.{Term, ◌⊕◌, ◌⊗◌, ◌⊖◌, reduced}
use libsmx.Algebra.Numeric.{by_ring}
use libsmx.Monty.{Monty}
use libsmx.Sm2.Ec.Identities.{curve_gap, gap, v, chord_identity, combination_vanishes, infinity_gap}
use libsmx.Sm2.Ec.OnCurve.{sub_fn, square_fn}
use libsmx.Sm2.Ec.Constants.{gap-new}
use libsmx.Sm9.Fields.Fp.{fp_to_bytes}
use libsmx.Sm9.Groups.G1.{
  sm9_modulus, G1Jacobian, g1_b, g1x, g1y, g1_infinity, g1_from_affine, g1_is_infinity, g1_tangent,
  g1_double, g1_chord, g1_add, g1_mul_bits, g1_mul_bytes, g1_scalar_mul, g1_generator,
  scalar_mul_g1,
}

-- The terms of `g1_tangent`.
abbrev d : Term → Term → Term
d x y = let b = y ⊗ y in let t = (x ⊕ b) ⊗ (x ⊕ b) ⊖ x ⊗ x ⊖ b ⊗ b in t ⊕ t

abbrev e : Term → Term
e x = x ⊗ x ⊕ x ⊗ x ⊕ x ⊗ x

abbrev double_x : Term → Term → Term
double_x x y = e x ⊗ e x ⊖ (d x y ⊕ d x y)

abbrev double_y : Term → Term → Term
double_y x y =
    let c = y ⊗ y ⊗ (y ⊗ y) in let c4 = c ⊕ c ⊕ (c ⊕ c) in e x ⊗ (d x y ⊖ double_x x y) ⊖ (c4 ⊕ c4)

double_identity :
    let x = v 0 in
    let y = v 1 in
    let z = v 2 in
    reduced (gap (Term.lit 0) (v 3) (double_x x y) (double_y x y) (y ⊗ z ⊕ y ⊗ z))
    ≡ reduced (Term.lit 64 ⊗ (y ⊗ y ⊗ (y ⊗ y) ⊗ (y ⊗ y)) ⊗ gap (Term.lit 0) (v 3) x y z)
unfolding reduced insert_var
double_identity = refl

module _ (f : Monty) where
  abbrev pub IsOnG1 : G1Jacobian f → Type 0
  IsOnG1 p = curve_gap f.ring f.ring.nought (g1_b f) p.x p.y p.z ≡ f.ring.nought

  chosen-IsOnG1 :
      (choice : Bool) (a b : G1Jacobian f) → IsOnG1 a → IsOnG1 b → IsOnG1 (if choice then a else b)
  chosen-IsOnG1 true a b ha hb = ha
  chosen-IsOnG1 false a b ha hb = hb

  infinity-IsOnG1 : IsOnG1 (g1_infinity f)
  infinity-IsOnG1 = infinity_gap f.ring f.ring.nought (g1_b f)

  tangent-IsOnG1 : (p : G1Jacobian f) → IsOnG1 p → IsOnG1 (g1_tangent f p)
  unfolding g1_tangent
  tangent-IsOnG1 p h =
      rw (sub_fn f, square_fn f)
        (by_ring f.ring (p.x ∷ p.y ∷ p.z ∷ g1_b f ∷ []) _ _ double_identity
          ∙ ap (f.ring.times _) h
          ∙ times_nought f.ring _)

  double-IsOnG1 : (p : G1Jacobian f) → IsOnG1 p → IsOnG1 (g1_double f p)
  unfolding g1_double
  double-IsOnG1 p h = chosen-IsOnG1 (g1_is_infinity f p) p (g1_tangent f p) h (tangent-IsOnG1 p h)

  chord-IsOnG1 :
      (p q : G1Jacobian f)
      → IsOnG1 p
      → IsOnG1 q
      → let z1sq = f.square p.z in
        let z2sq = f.square q.z in
        let u1 = f.ring.times p.x z2sq in
        let s1 = f.ring.times p.y (f.ring.times q.z z2sq) in
        let h = f.sub (f.ring.times q.x z1sq) u1 in
        let r = f.sub (f.ring.times q.y (f.ring.times p.z z1sq)) s1 in
        IsOnG1 (g1_chord f u1 s1 h r (f.ring.times (f.ring.times h p.z) q.z))
  unfolding g1_chord
  chord-IsOnG1 p q hp hq =
      rw (sub_fn f, square_fn f)
        (by_ring f.ring (p.x ∷ p.y ∷ p.z ∷ q.x ∷ q.y ∷ q.z ∷ f.ring.nought ∷ g1_b f ∷ []) _ _
            chord_identity
          ∙ combination_vanishes f.ring _ _ _ _ _ _ hp hq)

  -- Every branch of the addition, the early returns included.
  pub g1_add-IsOnG1 : (p q : G1Jacobian f) → IsOnG1 p → IsOnG1 q → IsOnG1 (g1_add f p q)
  unfolding g1_add
  g1_add-IsOnG1 p q hp hq =
      let u1 = f.ring.times p.x (f.square q.z) in
      let s1 = f.ring.times p.y (f.ring.times q.z (f.square q.z)) in
      let h = f.sub (f.ring.times q.x (f.square p.z)) u1 in
      let r = f.sub (f.ring.times q.y (f.ring.times p.z (f.square p.z))) s1 in
      let normal = g1_chord f u1 s1 h r (f.ring.times (f.ring.times h p.z) q.z) in
      let zero_h = all_zero (fp_to_bytes f h) in
      let zero_r = all_zero (fp_to_bytes f r) in
      let degenerate = if zero_r then g1_double f p else g1_infinity f in
      let on_degenerate =
        chosen-IsOnG1 zero_r (g1_double f p) (g1_infinity f) (double-IsOnG1 p hp) infinity-IsOnG1 in
      chosen-IsOnG1 (g1_is_infinity f p) q _ hq (
        chosen-IsOnG1 (g1_is_infinity f q) p _ hp
          (chosen-IsOnG1 zero_h degenerate normal on_degenerate (chord-IsOnG1 p q hp hq)))

  mul_bits-IsOnG1 :
      (b byte : ℕ) (p r : G1Jacobian f) → IsOnG1 p → IsOnG1 r → IsOnG1 (g1_mul_bits f b byte p r)
  unfolding g1_mul_bits
  mul_bits-IsOnG1 zero byte p r hp hr = hr
  mul_bits-IsOnG1 (suc b) byte p r hp hr =
      let hd = double-IsOnG1 r hr in
      mul_bits-IsOnG1 b byte p _ hp (
        chosen-IsOnG1 ((byte / 2 ^ b) % 2 == 1) _ (g1_double f r)
          (g1_add-IsOnG1 (g1_double f r) p hd hp) hd)

  mul_bytes-IsOnG1 :
      (bytes : Bytes) (p r : G1Jacobian f) → IsOnG1 p → IsOnG1 r → IsOnG1 (g1_mul_bytes f bytes p r)
  unfolding g1_mul_bytes
  mul_bytes-IsOnG1 [] p r hp hr = hr
  mul_bytes-IsOnG1 (byte ∷ bytes) p r hp hr =
      mul_bytes-IsOnG1 bytes p _ hp (mul_bits-IsOnG1 8 byte p r hp hr)

  pub g1_scalar_mul-IsOnG1 : (k : ℕ) (p : G1Jacobian f) → IsOnG1 p → IsOnG1 (g1_scalar_mul f k p)
  unfolding g1_scalar_mul
  g1_scalar_mul-IsOnG1 k p h =
      mul_bytes-IsOnG1 (to_be_bytes 32 k) p (g1_infinity f) h infinity-IsOnG1

  module _ (standard : f.modulus ≡ sm9_modulus) where
    generator-IsOnG1 : IsOnG1 (g1_from_affine f (g1_generator f))
    unfolding g1_b g1x g1y
    generator-IsOnG1 =
        subst (λ a. curve_gap f.ring a (g1_b f) (g1x f) (g1y f) f.ring.unit ≡ f.ring.nought)
          f.new-zero (gap-new f 0 _ _ _ (rw standard refl))

    -- Every multiple of the generator is on the curve.
    pub scalar_mul_g1-IsOnG1 : (k : ℕ) → IsOnG1 (scalar_mul_g1 f k)
    unfolding scalar_mul_g1
    scalar_mul_g1-IsOnG1 k = g1_scalar_mul-IsOnG1 k _ generator-IsOnG1
