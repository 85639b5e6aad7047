-- ===== src/Sm2/Ec.antt =====
-- src/sm2/ec.rs: points of the curve in affine and in Jacobian coordinates.
pub mod Multiply
pub mod Encode
pub mod Identities
pub mod OnCurve
pub mod Constants
pub mod Multiples
pub mod Digits
pub mod Affine
use libsmx.Base.{
  ℕ, zero, suc, ◌+◌, ◌*◌, ◌/◌, ◌%◌, ◌^◌, ◌==◌, ltb, if◌then◌else◌, ◌&&◌, ◌||◌, not, Bool, List, [],
  ◌∷◌, ◌++◌, take, drop, replicate, get_or, Option, none, some,
}
use libsmx.Base.Words.{Bytes, from_be_bytes, to_be_bytes}
use libsmx.Base.Bytes.{bytes_eq}
use libsmx.Base.Outcome.{Outcome, ok, err, invalid_public_key, point_at_infinity, ok_or, ◌>>=◌}
use libsmx.Monty.{Monty, same_residue}
use libsmx.Sm2.Field.{
  Fp, field_modulus, curve_a, curve_b, gx, gy, fp_add, fp_sub, fp_mul, fp_neg, fp_square, fp_inv,
  fp_from_bytes, fp_to_bytes, fp_sqrt,
}

module _ (f : Monty) where
  pub record AffinePoint : Type 0 where
    pub x : Fp f
    pub y : Fp f

  pub record JacobianPoint : Type 0 where
    pub x : Fp f
    pub y : Fp f
    pub z : Fp f

  abbrev pub conditional_select : JacobianPoint → JacobianPoint → Bool → JacobianPoint
  conditional_select a b choice = if choice then b else a

  abbrev pub infinity : JacobianPoint
  infinity = record { x = f.ring.unit; y = f.ring.unit; z = f.ring.nought }

  abbrev pub from_affine : AffinePoint → JacobianPoint
  from_affine p = record { x = p.x; y = p.y; z = f.ring.unit }

  abbrev pub ct_is_zero : Fp f → Bool
  ct_is_zero a = bytes_eq (fp_to_bytes f a) (replicate 32 0)

  abbrev pub ct_is_infinity : JacobianPoint → Bool
  ct_is_infinity p = ct_is_zero p.z

  unfoldable pub to_affine : JacobianPoint → Outcome AffinePoint
  to_affine p =
      if ct_is_infinity p
      then err point_at_infinity
      else ok_or (fp_inv f p.z) point_at_infinity >>= λ z_inv.
          let z_inv2 = fp_square f z_inv in
          let z_inv3 = fp_mul f z_inv2 z_inv in
          ok (record { x = fp_mul f p.x z_inv2; y = fp_mul f p.y z_inv3 })

  abbrev pub double1 : Fp f → Fp f
  double1 a = fp_add f a a

  abbrev pub double2 : Fp f → Fp f
  double2 a = double1 (double1 a)

  -- The formula of `double`, for a point that is not at infinity.
  unfoldable pub tangent : JacobianPoint → JacobianPoint
  tangent p =
      let delta = fp_square f p.z in
      let gamma = fp_square f p.y in
      let beta = fp_mul f p.x gamma in
      let alpha = fp_mul f (fp_sub f p.x delta) (fp_add f p.x delta) in
      let alpha' = fp_add f (fp_add f alpha alpha) alpha in
      let x3 = fp_sub f (fp_square f alpha') (double2 (double1 beta)) in
      let z3 = fp_sub f (fp_sub f (fp_square f (fp_add f p.y p.z)) gamma) delta in
      let gamma2 = fp_square f gamma in
      let y3 = fp_sub f (fp_mul f alpha' (fp_sub f (double2 beta) x3)) (double2 (double1 gamma2)) in
      record { x = x3; y = y3; z = z3 }

  unfoldable pub double : JacobianPoint → JacobianPoint
  double p = conditional_select (tangent p) p (ct_is_infinity p)

  -- The formula of `add`, for points that differ in their abscissae, from `u1`, `s1`, `h`, `r` and
  -- the product of the two `z`.
  unfoldable pub chord : Fp f → Fp f → Fp f → Fp f → Fp f → JacobianPoint
  chord u1 s1 h r z3 =
      let h2 = fp_square f h in
      let h3 = fp_mul f h h2 in
      let u1h2 = fp_mul f u1 h2 in
      let x3 = fp_sub f (fp_sub f (fp_square f r) h3) (double1 u1h2) in
      let y3 = fp_sub f (fp_mul f r (fp_sub f u1h2 x3)) (fp_mul f s1 h3) in
      record { x = x3; y = y3; z = z3 }

  unfoldable pub add : JacobianPoint → JacobianPoint → JacobianPoint
  add p q =
      let z1sq = fp_square f p.z in
      let z2sq = fp_square f q.z in
      let u1 = fp_mul f p.x z2sq in
      let u2 = fp_mul f q.x z1sq in
      let s1 = fp_mul f p.y (fp_mul f q.z z2sq) in
      let s2 = fp_mul f q.y (fp_mul f p.z z1sq) in
      let h = fp_sub f u2 u1 in
      let r = fp_sub f s2 s1 in
      let normal = chord u1 s1 h r (fp_mul f (fp_mul f h p.z) q.z) in
      let result1 = conditional_select normal infinity (ct_is_zero h && not (ct_is_zero r)) in
      let result2 = conditional_select result1 (double p) (ct_is_zero h && ct_is_zero r) in
      let result3 = conditional_select result2 p (ct_is_infinity q) in
      conditional_select result3 q (ct_is_infinity p)

  unfoldable pub add_mixed : JacobianPoint → AffinePoint → JacobianPoint
  add_mixed p q =
      let z1sq = fp_square f p.z in
      let z1cu = fp_mul f p.z z1sq in
      let u2 = fp_mul f q.x z1sq in
      let s2 = fp_mul f q.y z1cu in
      let h = fp_sub f u2 p.x in
      let r = fp_sub f s2 p.y in
      let normal = chord p.x p.y h r (fp_mul f h p.z) in
      let result1 = conditional_select normal infinity (ct_is_zero h && not (ct_is_zero r)) in
      let result2 = conditional_select result1 (double p) (ct_is_zero h && ct_is_zero r) in
      conditional_select result2 (from_affine q) (ct_is_infinity p)
