-- ===== src/Fpe/Key.antt =====
-- src/fpe/mod.rs: the key with its number of bits, the tweak, and the calls that keep the bits
-- after the first `num_bits`.
use libsmx.Base.{
  ℕ, ◌+◌, ◌-◌, ◌/◌, ◌%◌, ◌^◌, ◌==◌, ltb, if◌then◌else◌, ◌&&◌, ◌||◌, not, bit_and, bit_or, List, [],
  ◌∷◌, take, drop, replicate, get_or, set, copy_at,
}
use libsmx.Base.Words.{Bytes, u8}
use libsmx.Base.Bytes.{xor_bytes}
use libsmx.Base.Chunks.{chunks}
use libsmx.Base.Outcome.{Outcome, ok, err, invalid_input_length}
use libsmx.Sm4.Cipher.{Sm4Key, encrypt_block}
use libsmx.Sm4.Cipher
use libsmx.Fpe.Fnr.{clear_high_bits, fnr_encrypt, fnr_decrypt}

pub record FpeKey : Type 0 where
  pub key : Sm4Key
  pub num_bits : ℕ

unfoldable pub fpe_new : Bytes → ℕ → Outcome FpeKey
fpe_new key num_bits =
    if num_bits == 0 || ltb 128 num_bits
    then err invalid_input_length
    else ok (record { key = Cipher.new key; num_bits = num_bits })

unfoldable pub absorb_tweak : Sm4Key → Bytes → List Bytes → Bytes
absorb_tweak key state [] = state
absorb_tweak key state (chunk ∷ rest) =
    absorb_tweak key (encrypt_block key (xor_bytes state chunk)) rest

unfoldable pub expand_tweak : FpeKey → Bytes → Bytes
expand_tweak k tweak =
    let state = u8 (k.num_bits / 2 ^ 8) ∷ u8 k.num_bits ∷ replicate 14 0 in
    take 15 (encrypt_block k.key (absorb_tweak k.key state (chunks 16 tweak)))

unfoldable pub save_high_bits : Bytes → ℕ → Bytes
save_high_bits buf n =
    let saved = replicate 16 0 in
    let full_bytes = n / 8 in
    let rem = n % 8 in
    let mask = 255 / 2 ^ rem in
    let kept =
      if not (rem == 0) && ltb full_bytes 16
      then set saved full_bytes (bit_and (get_or buf full_bytes 0) mask)
      else saved in
    let start = full_bytes + (if ltb 0 rem then 1 else 0) in copy_at kept start (drop start buf)

unfoldable pub restore_high_bits : Bytes → Bytes → ℕ → Bytes
restore_high_bits buf saved n =
    let full_bytes = n / 8 in
    let rem = n % 8 in
    let mask = 255 / 2 ^ rem in
    let front = bit_and (get_or buf full_bytes 0) (255 - mask) in
    let mixed =
      if not (rem == 0) && ltb full_bytes 16
      then set buf full_bytes (bit_or front (bit_and (get_or saved full_bytes 0) mask))
      else buf in
    let start = full_bytes + (if ltb 0 rem then 1 else 0) in copy_at mixed start (drop start saved)

unfoldable pub fpe_encrypt : FpeKey → Bytes → Bytes → Bytes
fpe_encrypt k tweak buf =
    let saved = save_high_bits buf k.num_bits in
    let cleared = clear_high_bits buf k.num_bits in
    restore_high_bits (fnr_encrypt k.key tweak cleared k.num_bits) saved k.num_bits

unfoldable pub fpe_decrypt : FpeKey → Bytes → Bytes → Bytes
fpe_decrypt k tweak buf =
    let saved = save_high_bits buf k.num_bits in
    let cleared = clear_high_bits buf k.num_bits in
    restore_high_bits (fnr_decrypt k.key tweak cleared k.num_bits) saved k.num_bits
