-- ===== src/Sm4/Modes/Ocb.antt =====
-- src/sm4/modes.rs: OCB. The steps that both directions repeat (the table `l`, HASH(K, A), the first
-- offset) are written once; the tail of a string is what is left behind its whole blocks.
pub mod Bounds
pub mod RoundTrip
use libsmx.Base.{
  ℕ, zero, suc, ◌+◌, ◌-◌, ◌*◌, ◌/◌, ◌%◌, ◌^◌, ◌==◌, bit_and, bit_or, bit_xor, ltb, if◌then◌else◌,
  ◌||◌, List, [], ◌∷◌, ◌++◌, length, take, drop, replicate, get_or, set, copy_at,
}
use libsmx.Base.Words.{Bytes, u8}
use libsmx.Base.Bytes.{xor_bytes, bytes_eq}
use libsmx.Base.Outcome.{Outcome, ok, err, panic, invalid_nonce_length, invalid_tag}
use libsmx.Sm4.Cipher.{Sm4Key, new, encrypt_block, decrypt_block}
use libsmx.Sm4.Modes.Eax.{gf128_mul_u}

-- `n.trailing_zeros()` of a number with at most `fuel` digits.
unfoldable pub trailing_zeros : ℕ → ℕ → ℕ
trailing_zeros zero n = 0
trailing_zeros (suc fuel) n =
    let rest = trailing_zeros fuel (n / 2) in if n % 2 == 0 then suc rest else 0

unfoldable pub ntz : ℕ → ℕ
ntz n = if n == 0 then 128 else trailing_zeros 64 n

-- Entry `i` of the table `l`.
unfoldable pub l_at : Bytes → ℕ → Bytes
l_at l_0 zero = l_0
l_at l_0 (suc i) = gf128_mul_u (l_at l_0 i)

pub record Keys : Type 0 where
  pub l_star : Bytes
  pub l_dollar : Bytes
  pub l_0 : Bytes

unfoldable pub ocb_keys : Sm4Key → Keys
ocb_keys sm4 =
    let l_star = encrypt_block sm4 (replicate 16 0) in
    let l_dollar = gf128_mul_u l_star in
    record { l_star = l_star; l_dollar = l_dollar; l_0 = gf128_mul_u l_dollar }

-- The offset of block `i`, counted from 0.
unfoldable pub next_offset : Keys → ℕ → Bytes → Bytes
next_offset k i offset =
    let ntz_i = ntz (i + 1) in if ltb ntz_i 128 then xor_bytes offset (l_at k.l_0 ntz_i) else offset

-- A tail with its padding bit.
abbrev pub padded_tail : Bytes → Bytes
padded_tail tail = set (copy_at (replicate 16 0) 0 tail) (length tail) 0x80

unfoldable pub hash_blocks : Sm4Key → Keys → ℕ → ℕ → Bytes → Bytes → Bytes → Bytes
hash_blocks sm4 k zero i sum offset aad =
    if length aad == 0
    then sum
    else (let offset' = xor_bytes offset k.l_star in
        xor_bytes sum (encrypt_block sm4 (xor_bytes (padded_tail aad) offset')))
hash_blocks sm4 k (suc left) i sum offset aad =
    let offset' = next_offset k i offset in
    hash_blocks sm4 k left (i + 1)
      (xor_bytes sum (encrypt_block sm4 (xor_bytes (take 16 aad) offset'))) offset' (drop 16 aad)

unfoldable pub ocb_hash : Sm4Key → Keys → Bytes → Bytes
ocb_hash sm4 k aad = hash_blocks sm4 k (length aad / 16) 0 (replicate 16 0) (replicate 16 0) aad

-- `TAGLEN % 128` is 0. The nonce has at most fifteen bytes here.
unfoldable pub ocb_nonce_block : Bytes → Bytes
ocb_nonce_block nonce =
    let nonce_start = 16 - length nonce in
    set (copy_at (replicate 16 0) nonce_start nonce) (nonce_start - 1) 1

-- Byte `i` of the first offset, which starts at bit `bottom` of `stretch`.
unfoldable pub stretch_byte : Bytes → ℕ → ℕ → ℕ
stretch_byte stretch bottom i =
    let start_byte = bottom / 8 in
    let start_bit = bottom % 8 in
    if start_bit == 0
    then get_or stretch (start_byte + i) 0
    else (bit_or (u8 (get_or stretch (start_byte + i) 0 * 2 ^ start_bit))
        (get_or stretch (start_byte + i + 1) 0 / 2 ^ (8 - start_bit)))

-- `for i in 0..16`, with the rounds left.
unfoldable pub stretch_bytes : Bytes → ℕ → ℕ → ℕ → Bytes
stretch_bytes stretch bottom zero i = []
stretch_bytes stretch bottom (suc left) i =
    stretch_byte stretch bottom i ∷ stretch_bytes stretch bottom left (i + 1)

unfoldable pub ocb_offset : Sm4Key → Bytes → Bytes
ocb_offset sm4 nonce =
    let nonce_block = ocb_nonce_block nonce in
    let bottom = bit_and (get_or nonce_block 15 0) 0x3f in
    let ktop = encrypt_block sm4 (set nonce_block 15 (bit_and (get_or nonce_block 15 0) 0xc0)) in
    let stretch = ktop ++ xor_bytes (take 8 ktop) (take 8 (drop 1 ktop)) in
    stretch_bytes stretch bottom 16 0

-- The state of a pass: the offset, the checksum, and what is written.
pub record Pass : Type 0 where
  pub offset : Bytes
  pub checksum : Bytes
  pub out : Bytes

unfoldable pub encrypt_blocks : Sm4Key → Keys → ℕ → ℕ → Bytes → Pass → Pass
encrypt_blocks sm4 k zero i input s =
    if length input == 0
    then s
    else (let offset' = xor_bytes s.offset k.l_star in
        let pad = encrypt_block sm4 offset' in
        let checksum' = xor_bytes s.checksum input in
        record {
          offset = offset';
          checksum =
              set checksum' (length input) (bit_xor (get_or checksum' (length input) 0) 0x80);
          out = s.out ++ xor_bytes input pad;
        })
encrypt_blocks sm4 k (suc left) i input s =
    let offset' = next_offset k i s.offset in
    let block = take 16 input in
    encrypt_blocks sm4 k left (i + 1) (drop 16 input) (record {
      offset = offset';
      checksum = xor_bytes s.checksum block;
      out = s.out ++ xor_bytes (encrypt_block sm4 (xor_bytes block offset')) offset';
    })

unfoldable pub decrypt_blocks : Sm4Key → Keys → ℕ → ℕ → Bytes → Pass → Pass
decrypt_blocks sm4 k zero i input s =
    if length input == 0
    then s
    else (let offset' = xor_bytes s.offset k.l_star in
        let pad = encrypt_block sm4 offset' in
        let plain = xor_bytes input pad in
        let checksum' = xor_bytes s.checksum plain in
        record {
          offset = offset';
          checksum =
              set checksum' (length input) (bit_xor (get_or checksum' (length input) 0) 0x80);
          out = s.out ++ plain;
        })
decrypt_blocks sm4 k (suc left) i input s =
    let offset' = next_offset k i s.offset in
    let block = xor_bytes (decrypt_block sm4 (xor_bytes (take 16 input) offset')) offset' in
    decrypt_blocks sm4 k left (i + 1) (drop 16 input)
      (record { offset = offset'; checksum = xor_bytes s.checksum block; out = s.out ++ block })

unfoldable pub ocb_start : Sm4Key → Bytes → Pass
ocb_start sm4 nonce = record { offset = ocb_offset sm4 nonce; checksum = replicate 16 0; out = [] }

unfoldable pub ocb_tag : Sm4Key → Keys → Bytes → Pass → Bytes
ocb_tag sm4 k aad s =
    xor_bytes (encrypt_block sm4 (xor_bytes (xor_bytes s.checksum s.offset) k.l_dollar))
      (ocb_hash sm4 k aad)

unfoldable pub sm4_encrypt_ocb : Bytes → Bytes → Bytes → Bytes → Outcome (Bytes × Bytes)
sm4_encrypt_ocb key nonce aad plaintext =
    if length nonce == 0 || ltb 15 (length nonce)
    then err invalid_nonce_length
    else (let sm4 = new key in
        let k = ocb_keys sm4 in
        let s = encrypt_blocks sm4 k (length plaintext / 16) 0 plaintext (ocb_start sm4 nonce) in
        ok (s.out, ocb_tag sm4 k aad s))

-- The nonce is not checked: beyond fifteen bytes `nonce_start - 1` overflows.
unfoldable pub sm4_decrypt_ocb : Bytes → Bytes → Bytes → Bytes → Bytes → Outcome Bytes
sm4_decrypt_ocb key nonce aad ciphertext tag =
    if ltb 15 (length nonce)
    then panic
    else (let sm4 = new key in
        let k = ocb_keys sm4 in
        let s = decrypt_blocks sm4 k (length ciphertext / 16) 0 ciphertext (ocb_start sm4 nonce) in
        if bytes_eq (ocb_tag sm4 k aad s) tag then ok s.out else err invalid_tag)
