-- ===== src/Sm4/Modes/Ccm.antt =====
-- src/sm4/modes.rs: CCM with nonces of twelve bytes. Of the arrays `aad_buf` and `enc_tag` only the
-- bytes in use are written out. An arithmetic overflow and an index out of range are panics.
pub mod Laws
use libsmx.Base.{
  ℕ, ◌+◌, ◌-◌, ◌*◌, ◌/◌, ◌%◌, ◌^◌, ◌==◌, bit_or, ltb, leb, if◌then◌else◌, not, ◌&&◌, List, [], ◌∷◌,
  ◌++◌, length, take, drop, replicate, flatten,
}
use libsmx.Base.Words.{Bytes, u8, u32, to_be_bytes}
use libsmx.Base.Bytes.{xor_bytes, bytes_eq}
use libsmx.Base.Chunks.{chunks}
use libsmx.Base.Outcome.{Outcome, ok, err, panic, auth_tag_mismatch, invalid_input_length, ◌>>=◌}
use libsmx.Sm4.Cipher.{new, encrypt_block_raw}
use libsmx.Sm4.Modes.Basic.{zero_padded}

-- The last three bytes of a block that holds a number, `msg_len` or `ctr_val`.
abbrev pub low_bytes : ℕ → Bytes
low_bytes v = u8 (v / 2 ^ 16) ∷ u8 (v / 2 ^ 8) ∷ u8 v ∷ []

unfoldable pub mac_chunks : List ℕ → Bytes → List Bytes → Bytes
mac_chunks rk x [] = x
mac_chunks rk x (chunk ∷ rest) =
    mac_chunks rk (encrypt_block_raw rk (xor_bytes x (zero_padded chunk))) rest

-- The blocks of a non-empty `aad`, with its length before it and zeros behind it.
unfoldable pub aad_blocks : Bytes → Bytes
aad_blocks aad =
    let padded_len = (2 + length aad + 15) / 16 * 16 in
    take padded_len (to_be_bytes 2 (length aad % 2 ^ 16) ++ (aad ++ replicate 512 0))

-- The first block: flags, nonce and length.
unfoldable pub ccm_b0 : Bytes → Bytes → Bytes → ℕ → Bytes
ccm_b0 nonce aad message tag_len =
    let flags =
      bit_or
        (bit_or (if not (length aad == 0) then 64 else 0) (u8 (u8 ((tag_len - 2) / 2) * 2 ^ 3)))
        2 in
    flags ∷ (nonce ++ low_bytes (u32 (length message)))

-- `tag_len - 2` overflows below 2.
unfoldable pub ccm_cbc_mac : List ℕ → Bytes → Bytes → Bytes → ℕ → Outcome Bytes
ccm_cbc_mac rk nonce aad message tag_len =
    let has_aad = not (length aad == 0) in
    let x = encrypt_block_raw rk (ccm_b0 nonce aad message tag_len) in
    if ltb tag_len 2
    then panic
    else if has_aad && ltb 512 (2 + length aad)
    then err invalid_input_length
    else ok (
        mac_chunks rk (if has_aad then mac_chunks rk x (chunks 16 (aad_blocks aad)) else x)
          (chunks 16 message))

-- The block `a0` with the number of a block in it.
unfoldable pub ccm_counter : Bytes → ℕ → Bytes
ccm_counter nonce v = 2 ∷ (nonce ++ low_bytes v)

unfoldable pub ccm_chunks : List ℕ → Bytes → ℕ → List Bytes → List Bytes
ccm_chunks rk nonce block_idx [] = []
ccm_chunks rk nonce block_idx (chunk ∷ rest) =
    xor_bytes chunk (encrypt_block_raw rk (ccm_counter nonce (u32 (u32 block_idx + 1))))
    ∷ ccm_chunks rk nonce (block_idx + 1) rest

unfoldable pub ccm_stream : List ℕ → Bytes → Bytes → Bytes
ccm_stream rk nonce input = flatten (ccm_chunks rk nonce 0 (chunks 16 input))

-- The tag as it is sent: `enc_tag[..tag_len]`.
unfoldable pub ccm_tag : List ℕ → Bytes → Bytes → ℕ → Bytes
ccm_tag rk nonce t tag_len = take tag_len (xor_bytes t (encrypt_block_raw rk (ccm_counter nonce 0)))

unfoldable pub sm4_encrypt_ccm : Bytes → Bytes → Bytes → Bytes → ℕ → Outcome Bytes
sm4_encrypt_ccm key nonce aad plaintext tag_len =
    if leb 4 tag_len && (leb tag_len 16 && tag_len % 2 == 0)
    then (let rk = (new key).rk in
        ccm_cbc_mac rk nonce aad plaintext tag_len >>= λ t.
        ok (ccm_stream rk nonce plaintext ++ ccm_tag rk nonce t tag_len))
    else panic

unfoldable pub sm4_decrypt_ccm : Bytes → Bytes → Bytes → Bytes → ℕ → Outcome Bytes
sm4_decrypt_ccm key nonce aad ciphertext_with_tag tag_len =
    if ltb (length ciphertext_with_tag) tag_len
    then err invalid_input_length
    else (let ct_len = length ciphertext_with_tag - tag_len in
        let rk = (new key).rk in
        let plaintext = ccm_stream rk nonce (take ct_len ciphertext_with_tag) in
        ccm_cbc_mac rk nonce aad plaintext tag_len >>= λ t.
        if ltb 16 tag_len
        then panic
        else if not (bytes_eq (ccm_tag rk nonce t tag_len) (drop ct_len ciphertext_with_tag))
        then err auth_tag_mismatch
        else ok plaintext)

unfoldable pub sm4_encrypt_ccm_combined : Bytes → Bytes → Bytes → Bytes → Outcome Bytes
sm4_encrypt_ccm_combined key nonce aad plaintext = sm4_encrypt_ccm key nonce aad plaintext 16

unfoldable pub sm4_decrypt_ccm_combined : Bytes → Bytes → Bytes → Bytes → Outcome Bytes
sm4_decrypt_ccm_combined key nonce aad ciphertext_with_tag =
    sm4_decrypt_ccm key nonce aad ciphertext_with_tag 16
