-- ===== src/Sm4/Modes/Xts.antt =====
-- src/sm4/modes.rs: XTS on whole blocks. The tweak is stepped after each block.
pub mod RoundTrip
use libsmx.Base.{
  ℕ, ◌*◌, ◌/◌, ◌%◌, ◌^◌, ◌==◌, bit_and, bit_or, bit_xor, if◌then◌else◌, not, ◌||◌, List, [], ◌∷◌,
  length, get_or, flatten,
}
use libsmx.Base.Words.{Bytes, u8}
use libsmx.Base.Bytes.{xor_bytes}
use libsmx.Base.Chunks.{chunks}
use libsmx.Base.Outcome.{Outcome, ok, err, invalid_input_length}
use libsmx.Sm4.Cipher.{Sm4Key, new, encrypt_block, decrypt_block}

-- The loop `for i in (1..16).rev()`: each byte takes in the low bit of the byte before it, `prev`.
unfoldable pub shift_right : ℕ → Bytes → Bytes
shift_right prev [] = []
shift_right prev (b ∷ bs) = bit_or (b / 2) (u8 (bit_and prev 1 * 2 ^ 7)) ∷ shift_right b bs

unfoldable pub xts_mul_alpha : Bytes → Bytes
xts_mul_alpha [] = []
xts_mul_alpha (t ∷ ts) =
    let carry = bit_and (get_or (t ∷ ts) 15 0) 1 in
    (if carry == 1 then bit_xor (t / 2) 0xe1 else t / 2) ∷ shift_right t ts

-- The loop of both directions, over the block function.
unfoldable pub xts_chunks : (Bytes → Bytes) → Bytes → List Bytes → List Bytes
xts_chunks block_fn tweak [] = []
xts_chunks block_fn tweak (chunk ∷ rest) =
    xor_bytes (block_fn (xor_bytes chunk tweak)) tweak
    ∷ xts_chunks block_fn (xts_mul_alpha tweak) rest

unfoldable pub sm4_encrypt_xts : Bytes → Bytes → Bytes → Bytes → Outcome Bytes
sm4_encrypt_xts key1 key2 tweak_sector input =
    if length input == 0 || not (length input % 16 == 0)
    then err invalid_input_length
    else let tweak = encrypt_block (new key2) tweak_sector in
      ok (flatten (xts_chunks (encrypt_block (new key1)) tweak (chunks 16 input)))

unfoldable pub sm4_decrypt_xts : Bytes → Bytes → Bytes → Bytes → Outcome Bytes
sm4_decrypt_xts key1 key2 tweak_sector input =
    if length input == 0 || not (length input % 16 == 0)
    then err invalid_input_length
    else let tweak = encrypt_block (new key2) tweak_sector in
      ok (flatten (xts_chunks (decrypt_block (new key1)) tweak (chunks 16 input)))
