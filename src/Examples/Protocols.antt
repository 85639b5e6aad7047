-- ===== src/Examples/Protocols.antt =====
-- src/sm2: instances of the theorems on encryption, key exchange and compressed keys.
use libsmx.Base.{◌==◌, ◌≡◌, refl, false, none, some, [], ◌∷◌, arith}
use libsmx.Base.Words.{Bytes, length-to_be_bytes, from_be_bytes, to_be_bytes}
use libsmx.Base.Outcome.{ok, err, panic}
use libsmx.Examples.Residues.{residues, pow_loop}
use libsmx.Examples.Curve.{
  fp, fn, key, draw, k, kg, kg_runs, public_point, public_bytes, public_runs, or_none,
  same_points_lem,
}
use libsmx.Sm2.Field.{gx, gy, curve_a, curve_b, fp_sqrt}
use libsmx.Sm2.Public.{PublicKey, y, y_squared, from_compressed, to_compressed}
use libsmx.Sm2.Public.Laws.{to_compressed-from_compressed}
use libsmx.Sm2.KeyExchange.{EphemeralKey, exponent, shared_point, x_bar, exchange_a, exchange_b}
use libsmx.Sm2.KeyExchange.Agreement.{swapped, exchange_b-exchange_a}
use libsmx.Sm2.Ec.{from_affine, to_affine, double, add, add_mixed, tangent, chord}
use libsmx.Sm2.Ec.Multiply.{
  window_bytes, window_step, window_table, table_from, select_entry, scalar_mul, scalar_mul_g,
  mul_bytes, mul_bits,
}
use libsmx.Sm2.Private.{PrivateKey, secret}
use libsmx.Kdf.{kdf, kdf_with_info, kdf_loop, kdf_block}
use libsmx.Sm3.Hash.{update, absorb_all, absorb, keep, fill, flush, finalize, finalize_words}
use libsmx.Sm3.Compress.{
  compress, compress_rounds, compress_round, extend_words, load_words, p0, p1, round_constant,
}
use libsmx.Sm2.Ec.Encode
use libsmx.Sm2.Encrypt.{
  try_encrypt, or_continue, or_bytes, decrypt, zip_xor, try_kem, kem_decrypt, check_hash,
}
use libsmx.Sm2.Encrypt.RoundTrip.{from_bytes-scalar_mul_g, decrypt-try_encrypt, kem_decrypt-try_kem}

abbrev message : Bytes
message = 1 ∷ 2 ∷ 3 ∷ []

abbrev ciphertext : Bytes
ciphertext = or_none (try_encrypt fp public_point message draw)

encrypts : try_encrypt fp public_point message draw ≡ some ciphertext
unfolding residues pow_loop scalar_mul_g to_affine window_bytes window_step window_table table_from
    select_entry add add_mixed double tangent chord to_be_bytes gx gy from_be_bytes try_encrypt
    or_continue scalar_mul mul_bytes mul_bits kdf kdf_with_info kdf_loop kdf_block update absorb_all
    absorb keep fill flush finalize finalize_words compress or_bytes compress_rounds compress_round
    Encode.to_bytes check_hash zip_xor extend_words load_words p0 p1 round_constant
encrypts = refl

shared :
    to_affine fp (scalar_mul fp (secret key) (from_affine fp kg))
    ≡ to_affine fp (scalar_mul fp (from_be_bytes 0 draw) (from_affine fp public_point))
unfolding residues pow_loop scalar_mul_g to_affine window_bytes window_step window_table table_from
    select_entry add add_mixed double tangent chord to_be_bytes gx gy from_be_bytes scalar_mul
    mul_bytes mul_bits
shared = same_points_lem fp _ _ refl

decrypt-try_encrypt_example : decrypt fp key ciphertext ≡ ok message
unfolding residues
decrypt-try_encrypt_example =
    decrypt-try_encrypt fp refl public_point kg message draw ciphertext key (omega arith) encrypts
      kg_runs shared

abbrev capsule : Bytes
capsule = Encode.to_bytes fp kg

abbrev agreed : Bytes
agreed = elim (try_kem fp public_point 16 draw) [ none ↦ [] | some (c, shared) ↦ shared ]

encapsulates : try_kem fp public_point 16 draw ≡ some (capsule, agreed)
unfolding residues pow_loop scalar_mul_g to_affine window_bytes window_step window_table table_from
    select_entry add add_mixed double tangent chord to_be_bytes gx gy from_be_bytes scalar_mul
    mul_bytes mul_bits try_kem or_continue kdf kdf_with_info kdf_loop kdf_block update absorb_all
    absorb keep fill flush finalize finalize_words compress or_bytes compress_rounds compress_round
    extend_words load_words p0 p1 round_constant Encode.to_bytes
encapsulates = refl

kem_decrypt-try_kem_example : kem_decrypt fp key capsule 16 ≡ ok agreed
unfolding residues
kem_decrypt-try_kem_example =
    kem_decrypt-try_kem fp refl public_point kg 16 draw capsule agreed key (omega arith)
      encapsulates kg_runs shared

-- The private number of one side is the ephemeral one of the other.
abbrev eph_a : EphemeralKey
eph_a = record { r_bytes = draw; r_point = capsule }

abbrev key_b : PrivateKey
key_b = record { bytes = draw }

abbrev eph_b : EphemeralKey
eph_b = record { r_bytes = key.bytes; r_point = public_bytes }

exchanged :
    to_affine fp (shared_point fp fn (exponent fp fn key eph_a.r_bytes kg) kg public_point)
    ≡ to_affine fp
        (shared_point fp fn (exponent fp fn key_b eph_b.r_bytes public_point) public_point kg)
unfolding residues pow_loop scalar_mul_g to_affine window_bytes window_step window_table table_from
    select_entry add add_mixed double tangent chord to_be_bytes gx gy from_be_bytes scalar_mul
    mul_bytes mul_bits shared_point exponent x_bar
exchanged = same_points_lem fp _ _ refl

capsule_runs : Encode.from_bytes fp capsule ≡ ok kg
unfolding residues
capsule_runs = from_bytes-scalar_mul_g fp refl k kg kg_runs

exchange_b-exchange_a_example :
    exchange_b fp fn 16 message [] key_b public_bytes capsule eph_b capsule
    ≡ swapped (exchange_a fp fn 16 message [] key public_bytes capsule eph_a public_bytes)
exchange_b-exchange_a_example =
    exchange_b-exchange_a fp fn 16 message [] public_bytes capsule key key_b eph_a eph_b
      public_point kg kg public_point public_runs capsule_runs capsule_runs public_runs exchanged

abbrev abscissa : Bytes
abscissa =
    to_be_bytes 32 22963146547237050559479531362550074578802567295341616970375194840604139615431

abbrev decompressed : PublicKey
decompressed = elim (from_compressed fp (0x03 ∷ abscissa)) [
  | ok p ↦ p
  | err e ↦ record { bytes = [] }
  | panic ↦ record { bytes = [] }
]

decompresses : from_compressed fp (0x03 ∷ abscissa) ≡ ok decompressed
unfolding from_compressed fp_sqrt y_squared curve_a curve_b residues pow_loop to_be_bytes
    from_be_bytes
decompresses = refl

has_ordinate : (from_be_bytes 0 (y decompressed) == 0) ≡ false
unfolding y from_compressed fp_sqrt y_squared curve_a curve_b residues pow_loop to_be_bytes
    from_be_bytes
has_ordinate = refl

to_compressed-from_compressed_example : to_compressed decompressed ≡ ok (0x03 ∷ abscissa)
unfolding residues
to_compressed-from_compressed_example =
    to_compressed-from_compressed fp refl 0x03 abscissa decompressed (length-to_be_bytes 32 _)
      decompresses has_ordinate
