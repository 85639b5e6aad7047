-- ===== src/Sm4/Modes/Xts/RoundTrip.antt =====
-- XTS decryption undoes XTS encryption (src/sm4/modes.rs).
use libsmx.Base.{
  ℕ, ◌/◌, ◌%◌, ◌^◌, ◌*◌, ◌<◌, ◌≡◌, refl, ap, ap₂, ◌∙◌, List, [], ◌∷◌, map, length, bit_and, bit_xor,
  All, arith,
}
use libsmx.Base.Bits.{or-lt, xor-lt}
use libsmx.Base.Words.{Bytes, AreBytes, u8}
use libsmx.Base.Bytes.{xor_bytes, xor_bytes_cancel, length-xor_bytes, xor_bytes-AreBytes}
use libsmx.Base.Chunks.{chunks}
use libsmx.Base.Outcome.{ok, ◌>>=◌}
use libsmx.Sm4.Cipher.{Sm4Key, new, encrypt_block, decrypt_block}
use libsmx.Sm4.Cipher.RoundTrip.{IsBlock, encrypt_block-IsBlock, decrypt_block-encrypt_block}
use libsmx.Sm4.Modes.Shape.{length-pass, pass_undone, chunks-AreBlocks}
use libsmx.Sm4.Modes.Xts.{shift_right, xts_mul_alpha, xts_chunks, sm4_encrypt_xts, sm4_decrypt_xts}

shift_right-AreBytes : (prev : ℕ) (bs : Bytes) → AreBytes bs → AreBytes (shift_right prev bs)
unfolding shift_right
shift_right-AreBytes prev [] h = tt
shift_right-AreBytes prev (b ∷ bs) (hb, hs) = (
  or-lt 8 (b / 2) (u8 (bit_and prev 1 * 2 ^ 7)) (omega arith) (omega arith),
  shift_right-AreBytes b bs hs,
)

xts_mul_alpha-AreBytes : (t : Bytes) → AreBytes t → AreBytes (xts_mul_alpha t)
unfolding xts_mul_alpha
xts_mul_alpha-AreBytes [] h = tt
xts_mul_alpha-AreBytes (t ∷ ts) (ht, hs) =
    let folded : bit_xor (t / 2) 0xe1 < 256 = xor-lt 8 (t / 2) 0xe1 (omega arith) (omega arith) in
    (ground arith, shift_right-AreBytes t ts hs)

module _ (sm4 : Sm4Key) where
  xts_shape :
      (tweak : Bytes) (cs : List Bytes)
      → All IsBlock cs
      → map length (xts_chunks (encrypt_block sm4) tweak cs) ≡ map length cs
  unfolding xts_chunks
  xts_shape tweak [] h = refl
  xts_shape tweak (c ∷ cs) (hc, hs) =
      ap₂ ◌∷◌
        (omega (
          arith,
          length-xor_bytes (encrypt_block sm4 (xor_bytes c tweak)) tweak,
          (encrypt_block-IsBlock sm4 (xor_bytes c tweak)).0,
          hc.0,
        ))
        (xts_shape (xts_mul_alpha tweak) cs hs)

  xts_undone :
      (tweak : Bytes) (cs : List Bytes)
      → AreBytes tweak
      → All IsBlock cs
      → xts_chunks (decrypt_block sm4) tweak (xts_chunks (encrypt_block sm4) tweak cs) ≡ cs
  unfolding xts_chunks
  xts_undone tweak [] t h = refl
  xts_undone tweak (c ∷ cs) t (hc, hs) =
      let mixed : IsBlock (xor_bytes c tweak) =
        (length-xor_bytes c tweak ∙ hc.0, xor_bytes-AreBytes c tweak hc.1 t) in
      ap₂ ◌∷◌
        (ap (λ (b : Bytes). xor_bytes (decrypt_block sm4 b) tweak)
            (xor_bytes_cancel (encrypt_block sm4 (xor_bytes c tweak)) tweak)
          ∙ ap (λ (b : Bytes). xor_bytes b tweak)
              (decrypt_block-encrypt_block sm4 (xor_bytes c tweak) mixed)
          ∙ xor_bytes_cancel c tweak)
        (xts_undone (xts_mul_alpha tweak) cs (xts_mul_alpha-AreBytes tweak t) hs)

-- XTS decryption, with the same two keys and sector, gives back every byte string of one or more
-- whole blocks; neither call refuses it.
pub sm4_decrypt_xts-sm4_encrypt_xts :
    (key1 key2 sector xs : Bytes)
    → 0 < length xs
    → length xs % 16 ≡ 0
    → AreBytes xs
    → (sm4_encrypt_xts key1 key2 sector xs >>= sm4_decrypt_xts key1 key2 sector) ≡ ok xs
unfolding sm4_encrypt_xts sm4_decrypt_xts
sm4_decrypt_xts-sm4_encrypt_xts key1 key2 sector xs some whole bytes =
    let start = encrypt_block (new key2) sector in
    let there = xts_chunks (encrypt_block (new key1)) start in
    let back = xts_chunks (decrypt_block (new key1)) start in
    let blocks = chunks-AreBlocks xs whole bytes in
    let shape = xts_shape (new key1) start (chunks 16 xs) blocks in
    let len = length-pass there back xs shape in
    let undone = pass_undone there back xs shape (
      xts_undone (new key1) start (chunks 16 xs) (encrypt_block-IsBlock (new key2) sector).1
        blocks) in
    ground (arith, len, undone)
