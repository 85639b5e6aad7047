-- ===== src/Sm2/Encrypt.antt =====
-- src/sm2/mod.rs: encryption, and the encapsulation of keys. `draws` is what `fill_bytes` gives,
-- call after call; the inner `none` of `encrypt` and `kem_encrypt` is a loop that has used it up.
pub mod RoundTrip
use libsmx.Base.{
  ℕ, ◌==◌, ltb, not, ◌&&◌, if◌then◌else◌, bit_or, bit_xor, List, [], ◌∷◌, ◌++◌, length, take, drop,
  Option, none, some,
}
use libsmx.Base.Words.{Bytes, from_be_bytes}
use libsmx.Base.Bytes.{bytes_eq}
use libsmx.Base.Outcome.{Outcome, ok, err, panic, decrypt_failed, invalid_input_length, ◌>>=◌}
use libsmx.Sm3.Hash.{hasher_new, update, finalize}
use libsmx.Kdf.{kdf}
use libsmx.Monty.{Monty}
use libsmx.Sm2.Field.{fp_to_bytes}
use libsmx.Sm2.Ec.{AffinePoint, from_affine, to_affine}
use libsmx.Sm2.Ec.Multiply.{scalar_mul, scalar_mul_g}
use libsmx.Sm2.Ec.Encode
use libsmx.Sm2.Public.{PublicKey}
use libsmx.Sm2.Private.{PrivateKey, secret}
use libsmx.Sm2.Sign.{not_a_scalar}

-- The bytes of `kdf`, whose fuel suffices.
abbrev pub or_empty : Option Bytes → Bytes
or_empty none = []
or_empty (some t) = t

abbrev pub kdf_bytes : Bytes → ℕ → Bytes
kdf_bytes z klen = or_empty (kdf z klen)

-- `for &b in t { all_zero |= b }`
unfoldable pub or_bytes : ℕ → Bytes → ℕ
or_bytes acc [] = acc
or_bytes acc (b ∷ bs) = or_bytes (bit_or acc b) bs

-- `a.iter().zip(b.iter()).map(|(&x, &y)| x ^ y)`
unfoldable pub zip_xor : Bytes → Bytes → Bytes
zip_xor [] ys = []
zip_xor (x ∷ xs) [] = []
zip_xor (x ∷ xs) (y ∷ ys) = bit_xor x y ∷ zip_xor xs ys

-- The hash in a ciphertext, SM3(x2 ∥ M ∥ y2).
unfoldable pub check_hash : Bytes → Bytes → Bytes → Bytes
check_hash x2 message y2 = finalize (update (update (update hasher_new x2) message) y2)

module _ (f : Monty) where
  -- `match … { Ok(p) => p, Err(_) => continue }`, which ends in `none`.
  unfoldable pub or_continue {ℓ} :
      {B : Type ℓ} → Outcome (AffinePoint f) → (AffinePoint f → Option B) → Option B
  or_continue (ok p) rest = rest p
  or_continue (err e) rest = none
  or_continue panic rest = none

  abbrev pub z_input : AffinePoint f → Bytes
  z_input p = fp_to_bytes f p.x ++ fp_to_bytes f p.y

  -- One round of the loop of `encrypt`; `none` is `continue`.
  unfoldable pub try_encrypt : AffinePoint f → Bytes → Bytes → Option Bytes
  try_encrypt pa message k_bytes =
      let k = from_be_bytes 0 k_bytes in
      if not_a_scalar k
      then none
      else or_continue (to_affine f (scalar_mul_g f k)) (λ c1_aff.
        or_continue (to_affine f (scalar_mul f k (from_affine f pa))) (λ kpa_aff.
          let t = kdf_bytes (z_input kpa_aff) (length message) in
          let c2 = zip_xor message t in
          let c3 = check_hash (fp_to_bytes f kpa_aff.x) message (fp_to_bytes f kpa_aff.y) in
          if not (length t == 0) && or_bytes 0 t == 0
          then none
          else some (Encode.to_bytes f c1_aff ++ (c3 ++ c2))))

  unfoldable pub encrypt_loop : AffinePoint f → Bytes → List Bytes → Option Bytes
  encrypt_loop pa message [] = none
  encrypt_loop pa message (k_bytes ∷ draws) =
      let rest = encrypt_loop pa message draws in
      elim (try_encrypt pa message k_bytes) [ none ↦ rest | some output ↦ some output ]

  unfoldable pub encrypt : PublicKey → Bytes → List Bytes → Outcome (Option Bytes)
  encrypt pub_key message draws =
      Encode.from_bytes f pub_key.bytes >>= λ pa. ok (encrypt_loop pa message draws)

  -- `decrypt` from the shared point on.
  unfoldable pub open_with : AffinePoint f → Bytes → Bytes → Outcome Bytes
  open_with dc1_aff c3_expected c2 =
      let t = kdf_bytes (z_input dc1_aff) (length c2) in
      let m = zip_xor c2 t in
      let c3_computed = check_hash (fp_to_bytes f dc1_aff.x) m (fp_to_bytes f dc1_aff.y) in
      if not (length t == 0) && or_bytes 0 t == 0
      then err decrypt_failed
      else if not (bytes_eq c3_expected c3_computed)
      then err decrypt_failed
      else ok m

  unfoldable pub decrypt : PrivateKey → Bytes → Outcome Bytes
  decrypt pri_key ciphertext =
      if ltb (length ciphertext) 97
      then err invalid_input_length
      else Encode.from_bytes f (take 65 ciphertext) >>= λ c1.
          to_affine f (scalar_mul f (secret pri_key) (from_affine f c1)) >>= λ dc1_aff.
          open_with dc1_aff (take 32 (drop 65 ciphertext)) (drop 97 ciphertext)

  -- One round of the loop of `kem_encrypt`.
  unfoldable pub try_kem : AffinePoint f → ℕ → Bytes → Option (Bytes × Bytes)
  try_kem pa key_len k_bytes =
      let k = from_be_bytes 0 k_bytes in
      if not_a_scalar k
      then none
      else or_continue (to_affine f (scalar_mul_g f k)) (λ c1_aff.
        or_continue (to_affine f (scalar_mul f k (from_affine f pa))) (λ kpa_aff.
          let k_key = kdf_bytes (z_input kpa_aff) key_len in
          if or_bytes 0 k_key == 0 then none else some (Encode.to_bytes f c1_aff, k_key)))

  unfoldable pub kem_loop : AffinePoint f → ℕ → List Bytes → Option (Bytes × Bytes)
  kem_loop pa key_len [] = none
  kem_loop pa key_len (k_bytes ∷ draws) =
      let rest = kem_loop pa key_len draws in
      elim (try_kem pa key_len k_bytes) [ none ↦ rest | some output ↦ some output ]

  unfoldable pub kem_encrypt : PublicKey → ℕ → List Bytes → Outcome (Option (Bytes × Bytes))
  kem_encrypt pub_key key_len draws =
      if key_len == 0
      then err invalid_input_length
      else Encode.from_bytes f pub_key.bytes >>= λ pa. ok (kem_loop pa key_len draws)

  unfoldable pub kem_decrypt : PrivateKey → Bytes → ℕ → Outcome Bytes
  kem_decrypt pri_key ciphertext key_len =
      if key_len == 0
      then err invalid_input_length
      else if not (length ciphertext == 65)
      then err invalid_input_length
      else Encode.from_bytes f ciphertext >>= λ c1.
          to_affine f (scalar_mul f (secret pri_key) (from_affine f c1)) >>= λ dc1_aff.
          let k_key = kdf_bytes (z_input dc1_aff) key_len in
          if or_bytes 0 k_key == 0 then err decrypt_failed else ok k_key
