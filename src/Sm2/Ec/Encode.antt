-- ===== src/Sm2/Ec/Encode.antt =====
-- src/sm2/ec.rs: the test that a point is on the curve, and the encodings of points.
use libsmx.Base.{
  ℕ, ◌%◌, ◌==◌, ltb, if◌then◌else◌, ◌||◌, ◌&&◌, not, ◌∷◌, ◌++◌, take, drop, get_or, Bool,
}
use libsmx.Base.Words.{Bytes, from_be_bytes}
use libsmx.Base.Outcome.{Outcome, ok, err, invalid_public_key, ok_or, ◌>>=◌}
use libsmx.Monty.{Monty, same_residue}
use libsmx.Sm2.Field.{
  Fp, field_modulus, curve_a, curve_b, fp_add, fp_mul, fp_neg, fp_square, fp_from_bytes,
  fp_to_bytes, fp_sqrt,
}
use libsmx.Sm2.Ec.{AffinePoint}

abbrev pub too_large : ℕ → Bool
too_large v = ltb field_modulus v || v == field_modulus

module _ (f : Monty) where
  -- x³ + a x + b
  unfoldable pub curve_rhs : Fp f → Fp f
  curve_rhs x =
      let x2 = fp_square f x in
      let x3 = fp_mul f x2 x in
      let ax = fp_mul f (curve_a f) x in fp_add f (fp_add f x3 ax) (curve_b f)

  unfoldable pub is_on_curve : AffinePoint f → Bool
  is_on_curve p = same_residue f (fp_square f p.y) (curve_rhs p.x)

  unfoldable pub from_bytes : Bytes → Outcome (AffinePoint f)
  from_bytes bytes =
      let x_bytes = take 32 (drop 1 bytes) in
      let y_bytes = take 32 (drop 33 bytes) in
      let x_val = from_be_bytes 0 x_bytes in
      let y_val = from_be_bytes 0 y_bytes in
      let p : AffinePoint f = record { x = fp_from_bytes f x_bytes; y = fp_from_bytes f y_bytes } in
      if not (get_or bytes 0 0 == 0x04)
      then err invalid_public_key
      else if too_large x_val || too_large y_val
      then err invalid_public_key
      else if not (is_on_curve p)
      then err invalid_public_key
      else ok p

  unfoldable pub to_bytes : AffinePoint f → Bytes
  to_bytes p = 0x04 ∷ (fp_to_bytes f p.x ++ fp_to_bytes f p.y)

  unfoldable pub decompress : Bytes → Outcome (AffinePoint f)
  decompress bytes =
      let prefix = get_or bytes 0 0 in
      let x_bytes = take 32 (drop 1 bytes) in
      let x = fp_from_bytes f x_bytes in
      if not (prefix == 0x02) && not (prefix == 0x03)
      then err invalid_public_key
      else if too_large (from_be_bytes 0 x_bytes)
      then err invalid_public_key
      else ok_or (fp_sqrt f (curve_rhs x)) invalid_public_key >>= λ y.
          let y_lsb = get_or (fp_to_bytes f y) 31 0 % 2 in
          ok (record { x = x; y = if y_lsb == prefix % 2 then y else fp_neg f y })
