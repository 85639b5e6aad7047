-- ===== src/Examples/Messages.antt =====
-- src/sm2/mod.rs: an instance of the theorem on whole messages.
use libsmx.Base.{◌≡◌, ◌<◌, All, ◌++◌, List, refl, [], ◌∷◌, replicate, arith, some}
use libsmx.Base.Words.{Bytes, from_be_bytes, to_be_bytes}
use libsmx.Base.Outcome.{ok}
use libsmx.Examples.Residues.{residues, pow_loop}
use libsmx.Examples.Curve.{
  fp, fn, key, draw, k, public_point, public_bytes, public_point_runs, or_nothing, same_points_lem,
}
use libsmx.Sm2.Field.{group_order, gx, gy, curve_a, curve_b}
use libsmx.Sm2.Ec.{to_affine, double, add, add_mixed, tangent, chord}
use libsmx.Sm2.Ec.Multiply.{
  window_bytes, window_step, window_table, table_from, select_entry, scalar_mul_g, multi_scalar_mul,
  multi_bytes, multi_bits, add_one_of,
}
use libsmx.Sm2.Private.{public_key}
use libsmx.Sm3.Hash.{update, absorb_all, absorb, keep, fill, flush, finalize, finalize_words}
use libsmx.Sm3.Compress.{
  compress, compress_rounds, compress_round, extend_words, load_words, p0, p1, round_constant,
}
use libsmx.Sm2.Ec.Encode
use libsmx.Sm2.Sign.{get_z, get_e, sign, try_sign, sign_with_k, sign_message, verify_message}
use libsmx.Sm2.Sign.Messages.{IsSamePoint, encoded, public_key-encoded, verify_message-sign_message}

abbrev message : Bytes
message = 1 ∷ 2 ∷ 3 ∷ []

abbrev id : Bytes
id = 4 ∷ 5 ∷ []

abbrev digest : Bytes
digest =
    105 ∷ 142 ∷ 7 ∷ 122 ∷ 188 ∷ 195 ∷ 1 ∷ 130 ∷ 175 ∷ 153 ∷ 185 ∷ 179 ∷ 191 ∷ 0 ∷ 43 ∷ 22 ∷ 23 ∷ 193
    ∷ 196 ∷ 118 ∷ 178 ∷ 253 ∷ 19 ∷ 28 ∷ 213 ∷ 52 ∷ 112 ∷ 211 ∷ 206 ∷ 1 ∷ 77 ∷ 2 ∷ []

digest_runs : get_e (get_z fp fn id public_bytes) message ≡ digest
unfolding get_z get_e curve_a curve_b Encode.to_bytes residues pow_loop scalar_mul_g to_affine
    window_bytes window_step window_table table_from select_entry add add_mixed double tangent chord
    to_be_bytes gx gy from_be_bytes update absorb_all absorb keep fill flush finalize finalize_words
    compress compress_rounds compress_round extend_words load_words p0 p1 round_constant
digest_runs = refl

abbrev sig : Bytes
sig = or_nothing (sign_with_k fp fn digest key k)

abbrev zeros : Bytes
zeros = replicate 32 0

signed : sign fp fn digest key (zeros ∷ draw ∷ []) ≡ some sig
unfolding sign try_sign sign_with_k residues pow_loop scalar_mul_g to_affine window_bytes
    window_step window_table table_from select_entry add add_mixed double tangent chord to_be_bytes
    gx gy from_be_bytes
signed = refl

made : sign_message fp fn message id key (zeros ∷ draw ∷ []) ≡ ok (some sig)
unfolding sign_message
made = rw (public_key-encoded fp fn key public_point public_point_runs, digest_runs, signed) refl

same_point : IsSamePoint fp fn public_point sig k
unfolding sign_with_k multi_scalar_mul multi_bytes multi_bits add_one_of residues pow_loop
    scalar_mul_g to_affine window_bytes window_step window_table table_from select_entry add
    add_mixed double tangent chord to_be_bytes gx gy from_be_bytes
same_point = same_points_lem fp _ _ refl

no_draw : 0 < from_be_bytes 0 zeros → ⊥
unfolding from_be_bytes
no_draw h = omega (arith, h)

same_points_of_draws :
    All
      (λ used.
        0 < from_be_bytes 0 used
        → from_be_bytes 0 used < group_order
        → sign_with_k fp fn (get_e (get_z fp fn id public_bytes) message) key (from_be_bytes 0 used)
          ≡ ok sig
        → IsSamePoint fp fn public_point sig (from_be_bytes 0 used))
      (zeros ∷ draw ∷ [])
same_points_of_draws =
    ((λ positive below same. absurd (no_draw positive)), ((λ positive below same. same_point), tt))

verify_message-sign_message_example :
    (public_key fp key ≡ ok (encoded fp fn public_point))
    × (verify_message fp fn message id public_bytes sig ≡ ok tt)
    × ((before : List Bytes) × (used : Bytes) × (after : List Bytes) × (zeros ∷ draw ∷ []
          ≡ before ++ (used ∷ after))
        × (0 < from_be_bytes 0 used)
        × (from_be_bytes 0 used < group_order)
        × (sign_with_k fp fn
              (get_e (get_z fp fn id public_bytes) message)
              key
              (from_be_bytes 0 used)
            ≡ ok sig))
unfolding residues
verify_message-sign_message_example =
    verify_message-sign_message fp fn refl refl message id key public_point (zeros ∷ draw ∷ []) sig
      public_point_runs made same_points_of_draws
