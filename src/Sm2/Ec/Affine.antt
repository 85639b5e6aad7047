-- ===== src/Sm2/Ec/Affine.antt =====
-- src/sm2/ec.rs: the affine points that the operations give are accepted when they are read back.
use libsmx.Base.{
  ◌≤◌, ◌==◌, ◌≡◌, refl, sym, ap, subst, ◌∙◌, inl, inr, true, false, Bool-cases, some, Option-cases,
  length, take-append, drop-append, take-ge, ==_refl, arith,
}
use libsmx.Base.Words.{from_be_bytes, length-to_be_bytes, from_be_bytes-to_be_bytes}
use libsmx.Base.Outcome.{ok}
use libsmx.Monty.{Monty, same_residue}
use libsmx.Sm2.Field.{Fp, field_modulus, curve_a, curve_b, fp_inv, fp_to_bytes, fp_from_bytes}
use libsmx.Sm2.Ec.{AffinePoint, JacobianPoint, to_affine, ct_is_infinity}
use libsmx.Sm2.Ec.Encode.{curve_rhs, is_on_curve, too_large, from_bytes, to_bytes}
use libsmx.Sm2.Ec.Identities.{affine_gap, affine_rhs}
use libsmx.Sm2.Ec.OnCurve.{IsOnCurve, square_fn}

module _ (f : Monty) where
  pub fp_inv_lem : (a i : Fp f) → fp_inv f a ≡ some i → f.ring.times a i ≡ f.ring.unit
  fp_inv_lem a i h = elim (Option-cases (f.invert a)) [
    | inl e ↦ ground (arith, h, e)
    | inr (j, e) ↦
        let same : j ≡ i = ground (arith, h, e) in
        subst (λ t. f.ring.times a t ≡ f.ring.unit) same (f.invert_law a j e)
  ]

  curve_rhs_lem : (x : Fp f) → curve_rhs f x ≡ affine_rhs f.ring (curve_a f) (curve_b f) x
  unfolding curve_rhs
  curve_rhs_lem x = rw (square_fn f) refl

  same_residue_refl : (a b : Fp f) → a ≡ b → same_residue f a b ≡ true
  same_residue_refl a b e = ap (λ t. f.retrieve a == f.retrieve t) (sym e) ∙ ==_refl (f.retrieve a)

  -- What `to_affine` makes of a point of the curve passes the test of `is_on_curve`.
  pub to_affine-IsOnCurve :
      (p : JacobianPoint f) (a : AffinePoint f)
      → IsOnCurve f p
      → to_affine f p ≡ ok a
      → is_on_curve f a ≡ true
  unfolding to_affine is_on_curve
  to_affine-IsOnCurve p a h e = elim (Bool-cases (ct_is_infinity f p)) [
    | inl t ↦ ground (arith, e, t)
    | inr t ↦ elim (Option-cases (fp_inv f p.z)) [
      | inl n ↦ ground (arith, e, t, n)
      | inr (i, n) ↦
          let i2 = f.square i in
          let b : AffinePoint f = record {
            x = f.ring.times p.x i2;
            y = f.ring.times p.y (f.ring.times i2 i);
          } in
          let same : b ≡ a = ground (arith, e, t, n) in
          let at = λ (s : Fp f).
            let y = f.ring.times p.y (f.ring.times s i) in
            f.ring.times y y ≡ affine_rhs f.ring (curve_a f) (curve_b f) (f.ring.times p.x s) in
          let on : at i2 =
            subst at (sym (f.square_law i))
              (affine_gap f.ring (curve_a f) (curve_b f) p.x p.y p.z i (fp_inv_lem p.z i n) h) in
          subst (λ q. is_on_curve f q ≡ true) same
            (same_residue_refl _ _ (f.square_law b.y ∙ on ∙ sym (curve_rhs_lem b.x)))
    ]
  ]

  module _ (standard : f.modulus ≡ field_modulus) where
    below_modulus : (a : Fp f) → too_large (f.retrieve a) ≡ false
    below_modulus a = ground (arith, f.retrieve_law a, standard)

    retrieved : (a : Fp f) → from_be_bytes 0 (fp_to_bytes f a) ≡ f.retrieve a
    retrieved a =
        from_be_bytes-to_be_bytes 32 (f.retrieve a) (omega (arith, f.retrieve_law a, f.modulus_law))

    fp_from_bytes-fp_to_bytes : (a : Fp f) → fp_from_bytes f (fp_to_bytes f a) ≡ a
    fp_from_bytes-fp_to_bytes a = ap f.new (retrieved a) ∙ f.new_law a

    -- A point of the curve is read back from its encoding.
    pub from_bytes-to_bytes :
        (a : AffinePoint f) → is_on_curve f a ≡ true → from_bytes f (to_bytes f a) ≡ ok a
    unfolding from_bytes to_bytes
    from_bytes-to_bytes a h =
        let xs = fp_to_bytes f a.x in
        let ys = fp_to_bytes f a.y in
        let nx : length xs ≡ 32 = length-to_be_bytes 32 (f.retrieve a.x) in
        let ny : length ys ≤ 32 = omega (arith, length-to_be_bytes 32 (f.retrieve a.y)) in
        rw
          (
            take-append 32 xs ys nx,
            drop-append 32 xs ys nx,
            take-ge 32 ys ny,
            retrieved a.x,
            retrieved a.y,
            below_modulus a.x,
            below_modulus a.y,
            fp_from_bytes-fp_to_bytes a.x,
            fp_from_bytes-fp_to_bytes a.y,
            h,
          )
          refl
