-- ===== src/Sm3/Reference.antt =====
-- The hash as GB/T 32905 states it, for src/sm3/mod.rs to be compared with: the whole message is
-- padded, and its blocks are folded with the compression function.
use libsmx.Base.{
  ℕ, zero, suc, ◌-◌, ◌*◌, ◌/◌, ◌%◌, ◌≡◌, ap, ap₂, ◌∙◌, ltb, if◌then◌else◌, List, [], ◌∷◌, ◌++◌,
  length, take, drop, replicate, flatten, map, bit_xor, arith, length-drop, take-append_le,
  drop-append_le, take-ge,
}
use libsmx.Base.Words.{Bytes, u64, to_be_bytes}
use libsmx.Sm3.Compress.{iv, compress}

-- The first `n` blocks.
unfoldable pub fold_blocks : ℕ → List ℕ → Bytes → List ℕ
fold_blocks zero state message = state
fold_blocks (suc n) state message =
    fold_blocks n (compress state (take 64 message)) (drop 64 message)

-- A one bit, zeros up to 56 modulo 64 bytes, and the length in bits, modulo 2 ^ 64.
unfoldable pub pad_message : Bytes → Bytes
pad_message message =
    let r = length message % 64 in
    message
    ++ (0x80 ∷ replicate (if ltb r 56 then 55 - r else 119 - r) 0
        ++ to_be_bytes 8 (u64 (length message * 8)))

unfoldable pub sm3_words : Bytes → List ℕ
sm3_words message = fold_blocks (length (pad_message message) / 64) iv (pad_message message)

unfoldable pub sm3 : Bytes → Bytes
sm3 message = flatten (map (to_be_bytes 4) (sm3_words message))

-- A block behind whole blocks is compressed last.
pub fold_blocks-append :
    (n : ℕ) (state : List ℕ) (whole block : Bytes)
    → length whole ≡ 64 * n
    → length block ≡ 64
    → fold_blocks (suc n) state (whole ++ block) ≡ compress (fold_blocks n state whole) block
unfolding fold_blocks
fold_blocks-append zero state [] block h k = ap (compress state) (take-ge 64 block (omega arith))
fold_blocks-append zero state (x ∷ xs) block h k = absurd (omega arith)
fold_blocks-append (suc n) state whole block h k =
    let ld = length-drop 64 whole in
    ap₂ (λ (b : Bytes) (r : Bytes). fold_blocks (suc n) (compress state b) r)
      (take-append_le 64 whole block (omega arith)) (drop-append_le 64 whole block (omega arith))
    ∙ fold_blocks-append n (compress state (take 64 whole)) (drop 64 whole) block (omega arith) k

-- HMAC (RFC 2104) with blocks of sixty-four bytes.
unfoldable pub hmac_key : Bytes → Bytes
hmac_key key =
    let k = if ltb 64 (length key) then sm3 key else key in k ++ replicate (64 - length k) 0

unfoldable pub hmac : Bytes → Bytes → Bytes
hmac key message = sm3 (
    map (λ x. bit_xor x 0x5c) (hmac_key key)
    ++ sm3 (map (λ x. bit_xor x 0x36) (hmac_key key) ++ message))
