-- ===== src/Sm4/Modes/Gcm.antt =====
-- src/sm4/modes.rs: GCM, with `gf128_mul`, `ghash` and the combined form of ciphertext and tag.
-- A block in the field is two `u64`; a mask of all ones is `0.wrapping_sub(1)`.
pub mod Laws
use libsmx.Base.{
  ℕ, zero, suc, ◌+◌, ◌-◌, ◌*◌, ◌/◌, ◌%◌, ◌^◌, bit_and, bit_or, bit_xor, ltb, if◌then◌else◌, not,
  List, [], ◌∷◌, ◌++◌, length, take, drop, replicate, set, flatten, copy_at,
}
use libsmx.Base.Words.{Bytes, u64, word_of_be, to_be_bytes}
use libsmx.Base.Bytes.{xor_bytes, bytes_eq}
use libsmx.Base.Chunks.{chunks}
use libsmx.Base.Outcome.{Outcome, ok, err, auth_tag_mismatch, invalid_input_length}
use libsmx.Sm4.Cipher.{Sm4Key, new, encrypt_block, encrypt_block_raw}
use libsmx.Sm4.Modes.Basic.{ctr_chunks, inc_down, zero_padded}

pub record Mul : Type 0 where
  pub z0 : ℕ
  pub z1 : ℕ
  pub v0 : ℕ
  pub v1 : ℕ

-- `0u64.wrapping_sub(b)`
abbrev pub mask_of : ℕ → ℕ
mask_of b = u64 (2 ^ 64 - b)

-- The body of the inner loop, at bit `bit_idx` of the byte `x`.
unfoldable pub mul_bit : ℕ → ℕ → Mul → Mul
mul_bit x bit_idx s =
    let mask = mask_of (bit_and (x / 2 ^ bit_idx) 1) in
    let lsb = bit_and s.v1 1 in
    let carry = bit_and s.v0 1 in
    record {
      z0 = bit_xor s.z0 (bit_and s.v0 mask);
      z1 = bit_xor s.z1 (bit_and s.v1 mask);
      v0 = bit_xor (s.v0 / 2) (bit_and 0xe100_0000_0000_0000 (mask_of lsb));
      v1 = bit_or (s.v1 / 2) (u64 (carry * 2 ^ 63));
    }

-- `for bit_idx in (0..8).rev()`, with the rounds left.
unfoldable pub mul_byte : ℕ → ℕ → Mul → Mul
mul_byte zero x s = s
mul_byte (suc left) x s = mul_byte left x (mul_bit x left s)

unfoldable pub mul_bytes : Bytes → Mul → Mul
mul_bytes [] s = s
mul_bytes (x ∷ xs) s = mul_bytes xs (mul_byte 8 x s)

unfoldable pub gf128_mul : Bytes → Bytes → Bytes
gf128_mul x y =
    let s = mul_bytes x (record {
      z0 = 0;
      z1 = 0;
      v0 = word_of_be (take 8 y);
      v1 = word_of_be (take 8 (drop 8 y));
    }) in
    to_be_bytes 8 s.z0 ++ to_be_bytes 8 s.z1

-- The loops of `ghash` over the chunks of the associated text and of the ciphertext.
unfoldable pub ghash_chunks : Bytes → Bytes → List Bytes → Bytes
ghash_chunks h y [] = y
ghash_chunks h y (chunk ∷ rest) =
    ghash_chunks h (gf128_mul (xor_bytes y (zero_padded chunk)) h) rest

unfoldable pub ghash : Bytes → Bytes → Bytes → Bytes
ghash h aad ciphertext =
    let y =
      ghash_chunks h (ghash_chunks h (replicate 16 0) (chunks 16 aad)) (chunks 16 ciphertext) in
    let len_block =
      to_be_bytes 8 (u64 (length aad * 8)) ++ to_be_bytes 8 (u64 (length ciphertext * 8)) in
    gf128_mul (xor_bytes y len_block) h

unfoldable pub gcm_ctr_inc : Bytes → Bytes
gcm_ctr_inc counter = inc_down 4 12 counter

-- `j0` and the tag, as both directions compute them.
unfoldable pub gcm_j0 : Bytes → Bytes
gcm_j0 nonce = set (copy_at (replicate 16 0) 0 nonce) 15 1

unfoldable pub gcm_tag : Sm4Key → Bytes → Bytes → Bytes → Bytes
gcm_tag sm4 nonce aad ciphertext =
    let h = encrypt_block_raw sm4.rk (replicate 16 0) in
    xor_bytes (ghash h aad ciphertext) (encrypt_block_raw sm4.rk (gcm_j0 nonce))

unfoldable pub gcm_stream : Sm4Key → Bytes → Bytes → Bytes
gcm_stream sm4 nonce input =
    flatten (ctr_chunks gcm_ctr_inc sm4 (gcm_ctr_inc (gcm_j0 nonce)) (chunks 16 input))

unfoldable pub sm4_encrypt_gcm : Bytes → Bytes → Bytes → Bytes → Bytes × Bytes
sm4_encrypt_gcm key nonce aad plaintext =
    let sm4 = new key in
    let ciphertext = gcm_stream sm4 nonce plaintext in
    (ciphertext, gcm_tag sm4 nonce aad ciphertext)

unfoldable pub sm4_decrypt_gcm : Bytes → Bytes → Bytes → Bytes → Bytes → Outcome Bytes
sm4_decrypt_gcm key nonce aad ciphertext tag =
    let sm4 = new key in
    if not (bytes_eq (gcm_tag sm4 nonce aad ciphertext) tag)
    then err auth_tag_mismatch
    else ok (gcm_stream sm4 nonce ciphertext)

unfoldable pub sm4_encrypt_gcm_combined : Bytes → Bytes → Bytes → Bytes → Bytes
sm4_encrypt_gcm_combined key nonce aad plaintext =
    let (ct, tag) = sm4_encrypt_gcm key nonce aad plaintext in ct ++ tag

unfoldable pub sm4_decrypt_gcm_combined : Bytes → Bytes → Bytes → Bytes → Outcome Bytes
sm4_decrypt_gcm_combined key nonce aad ciphertext_with_tag =
    if ltb (length ciphertext_with_tag) 16
    then err invalid_input_length
    else let ct_len = length ciphertext_with_tag - 16 in
      sm4_decrypt_gcm key nonce aad (take ct_len ciphertext_with_tag)
        (drop ct_len ciphertext_with_tag)
