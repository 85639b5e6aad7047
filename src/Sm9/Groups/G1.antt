-- ===== src/Sm9/Groups/G1.antt =====
-- src/sm9/groups/g1.rs: the curve y² = x³ + 5 over Fp, and the constants of src/sm9/fields/fp.rs.
pub mod OnCurve
use libsmx.Base.{
  ℕ, zero, suc, ◌/◌, ◌%◌, ◌^◌, ◌==◌, ltb, if◌then◌else◌, not, ◌||◌, Bool, [], ◌∷◌, ◌++◌, take, drop,
  get_or,
}
use libsmx.Base.Words.{Bytes, from_be_bytes, to_be_bytes}
use libsmx.Base.Bytes.{all_zero}
use libsmx.Base.Outcome.{Outcome, ok, err, invalid_public_key, point_at_infinity, ok_or, ◌>>=◌}
use libsmx.Monty.{Monty, same_residue}
use libsmx.Sm9.Fields.Fp.{Fp, fp_add, fp_sub, fp_mul, fp_square, fp_inv, fp_from_bytes, fp_to_bytes}

abbrev pub sm9_modulus : ℕ
sm9_modulus = 0xb640000002a3a6f1d603ab4ff58ec74521f2934b1a7aeedbe56f9b27e351457d

module _ (f : Monty) where
  pub record G1Affine : Type 0 where
    pub x : Fp f
    pub y : Fp f

  pub record G1Jacobian : Type 0 where
    pub x : Fp f
    pub y : Fp f
    pub z : Fp f

  unfoldable pub g1_b : Fp f
  g1_b = f.new 5

  unfoldable pub g1x : Fp f
  g1x = f.new 0x93de051d62bf718ff5ed0704487d01d6e1e4086909dc3280e8c4e4817c66dddd

  unfoldable pub g1y : Fp f
  g1y = f.new 0x21fe8dda4f21e607631065125c395bbc1c1c00cbfa6024350c464cd70a3ea616

  abbrev pub g1_infinity : G1Jacobian
  g1_infinity = record { x = f.ring.unit; y = f.ring.unit; z = f.ring.nought }

  abbrev pub g1_from_affine : G1Affine → G1Jacobian
  g1_from_affine p = record { x = p.x; y = p.y; z = f.ring.unit }

  abbrev pub g1_select : G1Jacobian → G1Jacobian → Bool → G1Jacobian
  g1_select a b choice = if choice then b else a

  abbrev pub g1_is_infinity : G1Jacobian → Bool
  g1_is_infinity p = all_zero (fp_to_bytes f p.z)

  unfoldable pub g1_to_affine : G1Jacobian → Outcome G1Affine
  g1_to_affine p =
      if g1_is_infinity p
      then err point_at_infinity
      else ok_or (fp_inv f p.z) point_at_infinity >>= λ z_inv.
          let z_inv2 = fp_square f z_inv in
          let z_inv3 = fp_mul f z_inv2 z_inv in
          ok (record { x = fp_mul f p.x z_inv2; y = fp_mul f p.y z_inv3 })

  -- The formula of `double`, for a point that is not at infinity.
  unfoldable pub g1_tangent : G1Jacobian → G1Jacobian
  g1_tangent p =
      let a = fp_square f p.x in
      let b = fp_square f p.y in
      let c = fp_square f b in
      let tmp = fp_sub f (fp_sub f (fp_square f (fp_add f p.x b)) a) c in
      let d = fp_add f tmp tmp in
      let e = fp_add f (fp_add f a a) a in
      let x3 = fp_sub f (fp_square f e) (fp_add f d d) in
      let z3 = fp_add f (fp_mul f p.y p.z) (fp_mul f p.y p.z) in
      let four_c = fp_add f (fp_add f c c) (fp_add f c c) in
      let y3 = fp_sub f (fp_mul f e (fp_sub f d x3)) (fp_add f four_c four_c) in
      record { x = x3; y = y3; z = z3 }

  unfoldable pub g1_double : G1Jacobian → G1Jacobian
  g1_double p = if g1_is_infinity p then p else g1_tangent p

  -- The formula of `add`, from `u1`, `s1`, `h`, `r` and the product of the two `z`.
  unfoldable pub g1_chord : Fp f → Fp f → Fp f → Fp f → Fp f → G1Jacobian
  g1_chord u1 s1 h r z3 =
      let h2 = fp_square f h in
      let h3 = fp_mul f h h2 in
      let u1h2 = fp_mul f u1 h2 in
      let x3 = fp_sub f (fp_sub f (fp_square f r) h3) (fp_add f u1h2 u1h2) in
      let y3 = fp_sub f (fp_mul f r (fp_sub f u1h2 x3)) (fp_mul f s1 h3) in
      record { x = x3; y = y3; z = z3 }

  unfoldable pub g1_add : G1Jacobian → G1Jacobian → G1Jacobian
  g1_add p q =
      let z1sq = fp_square f p.z in
      let z2sq = fp_square f q.z in
      let u1 = fp_mul f p.x z2sq in
      let u2 = fp_mul f q.x z1sq in
      let s1 = fp_mul f p.y (fp_mul f q.z z2sq) in
      let s2 = fp_mul f q.y (fp_mul f p.z z1sq) in
      let h = fp_sub f u2 u1 in
      let r = fp_sub f s2 s1 in
      if g1_is_infinity p
      then q
      else if g1_is_infinity q
      then p
      else if all_zero (fp_to_bytes f h)
      then (if all_zero (fp_to_bytes f r) then g1_double p else g1_infinity)
      else g1_chord u1 s1 h r (fp_mul f (fp_mul f h p.z) q.z)

  unfoldable pub g1_mul_bits : ℕ → ℕ → G1Jacobian → G1Jacobian → G1Jacobian
  g1_mul_bits zero byte p result = result
  g1_mul_bits (suc b) byte p result =
      let doubled = g1_double result in
      let sum = g1_add doubled p in
      g1_mul_bits b byte p (g1_select doubled sum ((byte / 2 ^ b) % 2 == 1))

  unfoldable pub g1_mul_bytes : Bytes → G1Jacobian → G1Jacobian → G1Jacobian
  g1_mul_bytes [] p result = result
  g1_mul_bytes (byte ∷ bytes) p result = g1_mul_bytes bytes p (g1_mul_bits 8 byte p result)

  unfoldable pub g1_scalar_mul : ℕ → G1Jacobian → G1Jacobian
  g1_scalar_mul k p = g1_mul_bytes (to_be_bytes 32 k) p g1_infinity

  abbrev pub g1_generator : G1Affine
  g1_generator = record { x = g1x; y = g1y }

  unfoldable pub scalar_mul_g1 : ℕ → G1Jacobian
  scalar_mul_g1 k = g1_scalar_mul k (g1_from_affine g1_generator)

  unfoldable pub g1_is_on_curve : G1Affine → Bool
  g1_is_on_curve p =
      let x3 = fp_mul f (fp_square f p.x) p.x in same_residue f (fp_square f p.y) (fp_add f x3 g1_b)

  unfoldable pub g1_from_bytes : Bytes → Outcome G1Affine
  g1_from_bytes bytes =
      let x_bytes = take 32 (drop 1 bytes) in
      let y_bytes = take 32 (drop 33 bytes) in
      let x_val = from_be_bytes 0 x_bytes in
      let y_val = from_be_bytes 0 y_bytes in
      let p : G1Affine = record { x = fp_from_bytes f x_bytes; y = fp_from_bytes f y_bytes } in
      if not (get_or bytes 0 0 == 0x04)
      then err invalid_public_key
      else if ltb sm9_modulus x_val
          || x_val == sm9_modulus
          || ltb sm9_modulus y_val
          || y_val == sm9_modulus
      then err invalid_public_key
      else if not (g1_is_on_curve p)
      then err invalid_public_key
      else ok p

  unfoldable pub g1_to_bytes : G1Affine → Bytes
  g1_to_bytes p = 0x04 ∷ (fp_to_bytes f p.x ++ fp_to_bytes f p.y)
