-- ===== src/Sm4/Modes/Eax.antt =====
-- src/sm4/modes.rs: doubling (`gf128_mul_u`), OMAC and EAX. `omac` takes a key block that it does not
-- read, as in the code; `encrypt_block` of the constants is kept where the code computes it.
pub mod Laws
pub mod Doubling
use libsmx.Base.{
  ℕ, zero, suc, ◌+◌, ◌-◌, ◌*◌, ◌/◌, ◌%◌, ◌^◌, ◌==◌, bit_and, bit_or, bit_xor, if◌then◌else◌, not,
  List, [], ◌∷◌, ◌++◌, length, take, drop, replicate, set, get_or, copy_at,
}
use libsmx.Base.Words.{Bytes, u8}
use libsmx.Base.Bytes.{xor_bytes, bytes_eq}
use libsmx.Base.Outcome.{Outcome, ok, err, invalid_tag}
use libsmx.Sm4.Cipher.{Sm4Key, new, encrypt_block}
use libsmx.Sm4.Modes.Basic.{sm4_crypt_ctr}

-- The loop `for byte in result.iter_mut()`, from the first byte to the last.
unfoldable pub shift_bytes : ℕ → Bytes → Bytes
shift_bytes carry [] = []
shift_bytes carry (b ∷ bs) = bit_or (u8 (b * 2)) carry ∷ shift_bytes (b / 2 ^ 7) bs

unfoldable pub gf128_mul_u : Bytes → Bytes
gf128_mul_u block =
    let result = shift_bytes 0 block in
    if not (bit_and (get_or block 0 0) 0x80 == 0)
    then set result 15 (bit_xor (get_or result 15 0) 0x87)
    else result

-- `num_blocks` full blocks, one after the other.
unfoldable pub omac_blocks : Sm4Key → ℕ → Bytes → Bytes → Bytes
omac_blocks sm4 zero state input = state
omac_blocks sm4 (suc left) state input =
    omac_blocks sm4 left (encrypt_block sm4 (xor_bytes state (take 16 input))) (drop 16 input)

unfoldable pub omac : Sm4Key → Bytes → Bytes → Bytes
omac sm4 key input =
    let l = encrypt_block sm4 (replicate 16 0) in
    let k1 = gf128_mul_u l in
    let k2 = gf128_mul_u k1 in
    let zeros = replicate 16 0 in
    if length input == 0
    then encrypt_block sm4 (xor_bytes zeros k2)
    else let num_blocks = length input / 16 in
      let remaining = length input % 16 in
      let state = omac_blocks sm4 num_blocks zeros input in
      let last_block = set (copy_at zeros 0 (drop (num_blocks * 16) input)) remaining 0x80 in
      encrypt_block sm4
        (if remaining == 0 then xor_bytes state k1 else xor_bytes (xor_bytes state last_block) k2)

unfoldable pub eax_key : Sm4Key → ℕ → Bytes
eax_key sm4 i = encrypt_block sm4 (set (replicate 16 0) 15 i)

unfoldable pub sm4_encrypt_eax : Bytes → Bytes → Bytes → Bytes → Outcome (Bytes × Bytes)
sm4_encrypt_eax key nonce aad plaintext =
    let sm4 = new key in
    let iv = omac sm4 (eax_key sm4 1) nonce in
    let auth = omac sm4 (eax_key sm4 2) aad in
    let ciphertext = sm4_crypt_ctr key iv plaintext in
    ok (ciphertext, xor_bytes auth (omac sm4 (eax_key sm4 0) ciphertext))

unfoldable pub sm4_decrypt_eax : Bytes → Bytes → Bytes → Bytes → Bytes → Outcome Bytes
sm4_decrypt_eax key nonce aad ciphertext tag =
    let sm4 = new key in
    let iv = omac sm4 (eax_key sm4 1) nonce in
    let auth = xor_bytes (omac sm4 (eax_key sm4 2) aad) (omac sm4 (eax_key sm4 0) ciphertext) in
    if not (bytes_eq auth tag) then err invalid_tag else ok (sm4_crypt_ctr key iv ciphertext)
