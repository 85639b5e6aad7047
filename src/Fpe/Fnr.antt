-- ===== src/Fpe/Fnr.antt =====
-- src/fpe/fnr.rs: the seven-round Feistel network on the first bits of a block, highest bit first.
use libsmx.Base.{
  ℕ, zero, suc, ◌+◌, ◌-◌, ◌*◌, ◌/◌, ◌%◌, ◌^◌, min, ◌==◌, if◌then◌else◌, bit_and, bit_or, bit_xor,
  [], ◌∷◌, ◌++◌, take, replicate, get_or, set,
}
use libsmx.Base.Words.{Bytes, u8}
use libsmx.Base.Bytes.{xor_bytes}
use libsmx.Sm4.Cipher.{Sm4Key, encrypt_block}

unfoldable pub get_bit : Bytes → ℕ → ℕ
get_bit buf i = (get_or buf (i / 8) 0 / 2 ^ (7 - i % 8)) % 2

-- `(byte & !(1 << bit)) | (val << bit)`.
unfoldable pub put_bit : ℕ → ℕ → ℕ → ℕ
put_bit byte bit val = bit_or (bit_and byte (255 - 2 ^ bit)) (val * 2 ^ bit)

unfoldable pub set_bit : Bytes → ℕ → ℕ → Bytes
set_bit buf i val = set buf (i / 8) (put_bit (get_or buf (i / 8) 0) (7 - i % 8) val)

-- The loop over `count` bits from place `i` on.
unfoldable pub clear_bits : ℕ → Bytes → ℕ → Bytes
clear_bits zero buf i = buf
clear_bits (suc count) buf i = clear_bits count (set_bit buf i 0) (i + 1)

unfoldable pub clear_high_bits : Bytes → ℕ → Bytes
clear_high_bits buf n = clear_bits (128 - n) buf n

unfoldable pub xor_loop : ℕ → Bytes → Bytes → Bytes → ℕ → Bytes
xor_loop zero out a b i = out
xor_loop (suc count) out a b i =
    xor_loop count (set out i (bit_xor (get_or a i 0) (get_or b i 0))) a b (i + 1)

unfoldable pub xor_bits : Bytes → Bytes → ℕ → Bytes
xor_bits a b n =
    let full = n / 8 in
    let out = xor_loop full (replicate 16 0) a b 0 in
    if n % 8 == 0
    then out
    else (let mask = u8 (255 * 2 ^ (8 - n % 8)) in
        set out full (bit_and (bit_xor (get_or a full 0) (get_or b full 0)) mask))

unfoldable pub round_fn : Sm4Key → Bytes → Bytes → ℕ → ℕ → ℕ → Bytes
round_fn key tweak half half_bits out_bits round =
    let block = tweak ++ (u8 round ∷ []) in
    let half_bytes = (half_bits + 7) / 8 in
    let mixed = xor_bytes block (take (min half_bytes 16) half) in
    clear_high_bits (encrypt_block key mixed) out_bits

-- `for i in 0..count { set_bit(data, to + i, get_bit(source, from + i)) }`.
unfoldable pub copy_bits : ℕ → Bytes → ℕ → Bytes → ℕ → Bytes
copy_bits zero buf to source from = buf
copy_bits (suc count) buf to source from =
    copy_bits count (set_bit buf to (get_bit source from)) (to + 1) source (from + 1)

-- The two halves of the state.
pub record Halves : Type 0 where
  pub l : Bytes
  pub r : Bytes

unfoldable pub split_halves : Bytes → ℕ → ℕ → Halves
split_halves buf left_bits right_bits = record {
  l = copy_bits left_bits (replicate 16 0) 0 buf 0;
  r = copy_bits right_bits (replicate 16 0) 0 buf left_bits;
}

unfoldable pub join_halves : Bytes → Halves → ℕ → ℕ → Bytes
join_halves buf s left_bits right_bits =
    copy_bits right_bits (copy_bits left_bits buf 0 s.l 0) left_bits s.r 0

unfoldable pub encrypt_round : Sm4Key → Bytes → ℕ → ℕ → ℕ → Halves → Halves
encrypt_round key tweak left_bits right_bits round s =
    let f = round_fn key tweak s.r right_bits left_bits round in
    record { l = clear_high_bits s.r left_bits; r = xor_bits s.l f left_bits }

unfoldable pub decrypt_round : Sm4Key → Bytes → ℕ → ℕ → ℕ → Halves → Halves
decrypt_round key tweak left_bits right_bits round s =
    let f = round_fn key tweak s.l left_bits right_bits round in
    record { l = xor_bits s.r f right_bits; r = clear_high_bits s.l right_bits }

-- The rounds below `n`, upwards and downwards.
unfoldable pub feistel_encrypt : Sm4Key → Bytes → ℕ → ℕ → ℕ → Halves → Halves
feistel_encrypt key tweak left_bits right_bits zero s = s
feistel_encrypt key tweak left_bits right_bits (suc n) s =
    encrypt_round key tweak left_bits right_bits n
      (feistel_encrypt key tweak left_bits right_bits n s)

unfoldable pub feistel_decrypt : Sm4Key → Bytes → ℕ → ℕ → ℕ → Halves → Halves
feistel_decrypt key tweak left_bits right_bits zero s = s
feistel_decrypt key tweak left_bits right_bits (suc n) s =
    feistel_decrypt key tweak left_bits right_bits n
      (decrypt_round key tweak left_bits right_bits n s)

-- One bit: flipped or not, as the tweak says. Its own inverse.
unfoldable pub fnr_1bit : Sm4Key → Bytes → Bytes → Bytes
fnr_1bit key tweak buf =
    let block = encrypt_block key (tweak ++ (255 ∷ [])) in
    let perm_bit = (get_or block 0 0 / 2 ^ 7) % 2 in
    set_bit buf 0 (bit_xor (get_bit buf 0) perm_bit)

unfoldable pub fnr_encrypt : Sm4Key → Bytes → Bytes → ℕ → Bytes
fnr_encrypt key tweak buf num_bits =
    if num_bits == 1
    then fnr_1bit key tweak buf
    else (let left_bits = num_bits / 2 in
        let right_bits = num_bits - left_bits in
        let start = split_halves buf left_bits right_bits in
        let s = feistel_encrypt key tweak left_bits right_bits 7 start in
        join_halves buf s left_bits right_bits)

unfoldable pub fnr_decrypt : Sm4Key → Bytes → Bytes → ℕ → Bytes
fnr_decrypt key tweak buf num_bits =
    if num_bits == 1
    then fnr_1bit key tweak buf
    else (let left_bits = num_bits / 2 in
        let right_bits = num_bits - left_bits in
        let start = split_halves buf left_bits right_bits in
        let s = feistel_decrypt key tweak left_bits right_bits 7 start in
        join_halves buf s left_bits right_bits)
