-- ===== src/Sm2/Public.antt =====
-- src/sm2/mod.rs: `PublicKey`. Array types fix lengths: `from_compressed` is given 33 bytes.
pub mod Laws
use libsmx.Base.{
  ℕ, ◌%◌, ◌==◌, if◌then◌else◌, ◌||◌, ◌&&◌, not, Bool, true, false, [], ◌∷◌, ◌++◌, length, take,
  drop, get_or,
}
use libsmx.Base.Words.{Bytes}
use libsmx.Base.Outcome.{Outcome, ok, err, invalid_public_key, ok_or, ◌>>=◌}
use libsmx.Sm3.Hash.{digest}
use libsmx.Monty.{Monty}
use libsmx.Sm2.Field.{
  Fp, curve_a, curve_b, fp_add, fp_mul, fp_neg, fp_from_bytes, fp_to_bytes, fp_sqrt,
}

pub record PublicKey : Type 0 where
  pub bytes : Bytes

unfoldable pub x : PublicKey → Bytes
x key = take 32 (drop 1 key.bytes)

unfoldable pub y : PublicKey → Bytes
y key = take 32 (drop 33 key.bytes)

unfoldable pub to_compressed : PublicKey → Outcome Bytes
to_compressed key =
    let y_is_odd = get_or (y key) 31 0 % 2 in
    let prefix = if not (y_is_odd == 0) then 0x03 else 0x02 in ok (prefix ∷ x key)

unfoldable pub fingerprint : PublicKey → Bytes
fingerprint key = digest key.bytes

-- Whether two tests differ, `!=` of Booleans.
abbrev pub differ : Bool → Bool → Bool
differ true b = not b
differ false b = b

module _ (f : Monty) where
  -- The right side of the equation of the curve, as `from_compressed` computes it.
  unfoldable pub y_squared : Fp f → Fp f
  y_squared x =
      let x3 = fp_mul f x (fp_mul f x x) in
      let ax = fp_mul f (curve_a f) x in fp_add f (fp_add f x3 ax) (curve_b f)

  abbrev pub y_odd : Fp f → Bool
  y_odd y = not (get_or (fp_to_bytes f y) 31 0 % 2 == 0)

  unfoldable pub from_compressed : Bytes → Outcome PublicKey
  from_compressed compressed =
      let prefix = get_or compressed 0 0 in
      let x_bytes = take 32 (drop 1 compressed) in
      if not (prefix == 0x02) && not (prefix == 0x03)
      then err invalid_public_key
      else ok_or (fp_sqrt f (y_squared (fp_from_bytes f x_bytes))) invalid_public_key >>= λ y.
          let final_y = if differ (y_odd y) (prefix == 0x03) then fp_neg f y else y in
          ok (record { bytes = 0x04 ∷ (x_bytes ++ fp_to_bytes f final_y) })

  unfoldable pub from_bytes : Bytes → Outcome PublicKey
  from_bytes bytes =
      let first = get_or bytes 0 0 in
      if length bytes == 65 && first == 0x04
      then ok (record { bytes = bytes })
      else if length bytes == 33 && (first == 0x02 || first == 0x03)
      then from_compressed bytes
      else err invalid_public_key
