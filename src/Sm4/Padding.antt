-- ===== src/Sm4/Padding.antt =====
-- src/sm4/padding.rs: PKCS#7 and no padding. `pkcs7_pad` is for a block size from 1 to 255, as its
-- `debug_assert!` says; `% 256` is the cast `as u8`.
pub mod Laws
use libsmx.Base.{
  ℕ, zero, suc, ◌-◌, ◌%◌, ltb, ◌==◌, if◌then◌else◌, Bool, true, false, ◌&&◌, ◌||◌, not, ◌++◌, [],
  ◌∷◌, length, get_or, take, replicate,
}
use libsmx.Base.Words.{Bytes, u8}
use libsmx.Base.Outcome.{Outcome, ok, err, invalid_padding, invalid_input_length}

abbrev pub sm4_block_size : ℕ
sm4_block_size = 16

pub data PaddingType : Type 0 where
  no_padding pkcs5_padding pkcs7_padding : PaddingType

unfoldable pub pkcs7_pad : Bytes → ℕ → Bytes
pkcs7_pad input block_size =
    let padding_len = block_size - length input % block_size in
    input ++ replicate padding_len (u8 padding_len)

-- The loop `for i in 0..padding_len`, with `left` rounds to go: byte `len - 1 - i` is `value`.
unfoldable pub padding_matches : ℕ → ℕ → Bytes → ℕ → Bool
padding_matches zero i input value = true
padding_matches (suc left) i input value =
    let rest = padding_matches left (suc i) input value in
    if get_or input (length input - 1 - i) 0 == value then rest else false

unfoldable pub pkcs7_unpad : Bytes → Outcome Bytes
pkcs7_unpad [] = err invalid_padding
pkcs7_unpad (b ∷ bs) =
    let input = b ∷ bs in
    let padding_len = get_or input (length input - 1) 0 in
    if padding_len == 0 || ltb sm4_block_size padding_len
    then err invalid_padding
    else if ltb (length input) padding_len
    then err invalid_padding
    else if not (padding_matches padding_len 0 input (u8 padding_len))
    then err invalid_padding
    else ok (take (length input - padding_len) input)

unfoldable pub pkcs5_pad : Bytes → Bytes
pkcs5_pad input = pkcs7_pad input sm4_block_size

unfoldable pub pkcs5_unpad : Bytes → Outcome Bytes
pkcs5_unpad input = pkcs7_unpad input

unfoldable pub no_padding_pad : Bytes → Outcome Bytes
no_padding_pad input =
    if not (length input % sm4_block_size == 0) then err invalid_input_length else ok input

unfoldable pub no_padding_unpad : Bytes → Outcome Bytes
no_padding_unpad input =
    if not (length input % sm4_block_size == 0) then err invalid_input_length else ok input

unfoldable pub pad : Bytes → PaddingType → Outcome Bytes
unfolding no_padding_pad pkcs5_pad
pad input no_padding = no_padding_pad input
pad input pkcs5_padding = ok (pkcs5_pad input)
pad input pkcs7_padding = ok (pkcs7_pad input sm4_block_size)

unfoldable pub unpad : Bytes → PaddingType → Outcome Bytes
unfolding no_padding_unpad pkcs5_unpad
unpad input no_padding = no_padding_unpad input
unpad input pkcs5_padding = pkcs5_unpad input
unpad input pkcs7_padding = pkcs7_unpad input
