-- ===== src/Sm4/Modes/Basic.antt =====
-- src/sm4/modes.rs: ECB, CBC, OFB, CFB and CTR. A loop over `data.chunks(16)` recurs on the list of
-- chunks, and gives the chunks that it writes. An input that fails an `assert!` is a panic.
pub mod RoundTrip
use libsmx.Base.{
  ℕ, zero, suc, set, get_or, ◌+◌, ◌%◌, ◌==◌, if◌then◌else◌, List, [], ◌∷◌, ◌++◌, length, take, drop,
  replicate, flatten, map, copy_at,
}
use libsmx.Base.Words.{Bytes, u8}
use libsmx.Base.Bytes.{xor_bytes}
use libsmx.Base.Chunks.{chunks}
use libsmx.Base.Outcome.{Outcome, ok, panic, ◌>>=◌}
use libsmx.Sm4.Cipher.{Sm4Key, new, encrypt_block, decrypt_block}
use libsmx.Sm4.Padding.{pkcs5_pad, pkcs5_unpad, pkcs7_pad, pkcs7_unpad}

unfoldable pub sm4_encrypt_ecb : Bytes → Bytes → Outcome Bytes
sm4_encrypt_ecb key input =
    if length input % 16 == 0
    then (let sm4 = new key in ok (flatten (map (encrypt_block sm4) (chunks 16 input))))
    else panic

unfoldable pub sm4_decrypt_ecb : Bytes → Bytes → Outcome Bytes
sm4_decrypt_ecb key input =
    if length input % 16 == 0
    then (let sm4 = new key in ok (flatten (map (decrypt_block sm4) (chunks 16 input))))
    else panic

unfoldable pub sm4_encrypt_ecb_pkcs5 : Bytes → Bytes → Outcome Bytes
sm4_encrypt_ecb_pkcs5 key plaintext = sm4_encrypt_ecb key (pkcs5_pad plaintext)

unfoldable pub sm4_decrypt_ecb_pkcs5 : Bytes → Bytes → Outcome Bytes
sm4_decrypt_ecb_pkcs5 key ciphertext = sm4_decrypt_ecb key ciphertext >>= pkcs5_unpad

unfoldable pub sm4_encrypt_ecb_pkcs7 : Bytes → Bytes → Outcome Bytes
sm4_encrypt_ecb_pkcs7 key plaintext = sm4_encrypt_ecb key (pkcs7_pad plaintext 16)

unfoldable pub sm4_decrypt_ecb_pkcs7 : Bytes → Bytes → Outcome Bytes
sm4_decrypt_ecb_pkcs7 key ciphertext = sm4_decrypt_ecb key ciphertext >>= pkcs7_unpad

-- `prev` is the last block written (CBC encryption) or read (CBC decryption).
unfoldable pub cbc_encrypt_chunks : Sm4Key → Bytes → List Bytes → List Bytes
cbc_encrypt_chunks sm4 prev [] = []
cbc_encrypt_chunks sm4 prev (chunk ∷ rest) =
    let block = encrypt_block sm4 (xor_bytes chunk prev) in
    block ∷ cbc_encrypt_chunks sm4 block rest

unfoldable pub cbc_decrypt_chunks : Sm4Key → Bytes → List Bytes → List Bytes
cbc_decrypt_chunks sm4 prev [] = []
cbc_decrypt_chunks sm4 prev (chunk ∷ rest) =
    xor_bytes (decrypt_block sm4 chunk) prev ∷ cbc_decrypt_chunks sm4 chunk rest

unfoldable pub sm4_encrypt_cbc : Bytes → Bytes → Bytes → Outcome Bytes
sm4_encrypt_cbc key iv plaintext =
    if length plaintext % 16 == 0
    then ok (flatten (cbc_encrypt_chunks (new key) iv (chunks 16 plaintext)))
    else panic

unfoldable pub sm4_decrypt_cbc : Bytes → Bytes → Bytes → Outcome Bytes
sm4_decrypt_cbc key iv ciphertext =
    if length ciphertext % 16 == 0
    then ok (flatten (cbc_decrypt_chunks (new key) iv (chunks 16 ciphertext)))
    else panic

unfoldable pub sm4_encrypt_cbc_pkcs5 : Bytes → Bytes → Bytes → Outcome Bytes
sm4_encrypt_cbc_pkcs5 key iv plaintext = sm4_encrypt_cbc key iv (pkcs5_pad plaintext)

unfoldable pub sm4_decrypt_cbc_pkcs5 : Bytes → Bytes → Bytes → Outcome Bytes
sm4_decrypt_cbc_pkcs5 key iv ciphertext = sm4_decrypt_cbc key iv ciphertext >>= pkcs5_unpad

unfoldable pub sm4_encrypt_cbc_pkcs7 : Bytes → Bytes → Bytes → Outcome Bytes
sm4_encrypt_cbc_pkcs7 key iv plaintext = sm4_encrypt_cbc key iv (pkcs7_pad plaintext 16)

unfoldable pub sm4_decrypt_cbc_pkcs7 : Bytes → Bytes → Bytes → Outcome Bytes
sm4_decrypt_cbc_pkcs7 key iv ciphertext = sm4_decrypt_cbc key iv ciphertext >>= pkcs7_unpad

unfoldable pub ofb_chunks : Sm4Key → Bytes → List Bytes → List Bytes
ofb_chunks sm4 feedback [] = []
ofb_chunks sm4 feedback (chunk ∷ rest) =
    let next = encrypt_block sm4 feedback in xor_bytes chunk next ∷ ofb_chunks sm4 next rest

unfoldable pub sm4_crypt_ofb : Bytes → Bytes → Bytes → Bytes
sm4_crypt_ofb key iv input = flatten (ofb_chunks (new key) iv (chunks 16 input))

-- `let mut block = [0u8; 16]; block[..chunk.len()].copy_from_slice(chunk)`
abbrev pub zero_padded : Bytes → Bytes
zero_padded chunk = copy_at (replicate 16 0) 0 chunk

unfoldable pub cfb_encrypt_chunks : Sm4Key → Bytes → List Bytes → List Bytes
cfb_encrypt_chunks sm4 feedback [] = []
cfb_encrypt_chunks sm4 feedback (chunk ∷ rest) =
    let ct = xor_bytes chunk (encrypt_block sm4 feedback) in
    ct ∷ cfb_encrypt_chunks sm4 (zero_padded ct) rest

unfoldable pub sm4_encrypt_cfb : Bytes → Bytes → Bytes → Bytes
sm4_encrypt_cfb key iv input = flatten (cfb_encrypt_chunks (new key) iv (chunks 16 input))

unfoldable pub cfb_decrypt_chunks : Sm4Key → Bytes → List Bytes → List Bytes
cfb_decrypt_chunks sm4 feedback [] = []
cfb_decrypt_chunks sm4 feedback (chunk ∷ rest) =
    xor_bytes chunk (encrypt_block sm4 feedback) ∷ cfb_decrypt_chunks sm4 (zero_padded chunk) rest

unfoldable pub sm4_decrypt_cfb : Bytes → Bytes → Bytes → Bytes
sm4_decrypt_cfb key iv input = flatten (cfb_decrypt_chunks (new key) iv (chunks 16 input))

-- The loops `for i in (lo..lo + left).rev()` of `ctr_inc` and `gcm_ctr_inc`: add one to a byte, and
-- go on to the byte before it only if it became 0.
unfoldable pub inc_down : ℕ → ℕ → Bytes → Bytes
inc_down zero lo counter = counter
inc_down (suc left) lo counter =
    let i = lo + left in
    let counter' = set counter i (u8 (get_or counter i 0 + 1)) in
    let rest = inc_down left lo counter' in if get_or counter' i 0 == 0 then rest else counter'

unfoldable pub ctr_inc : Bytes → Bytes
unfolding inc_down
ctr_inc counter = inc_down 16 0 counter

-- A key stream from a counter and the way to step it: the loop of CTR, and of both ways of GCM.
unfoldable pub ctr_chunks : (Bytes → Bytes) → Sm4Key → Bytes → List Bytes → List Bytes
ctr_chunks inc sm4 counter [] = []
ctr_chunks inc sm4 counter (chunk ∷ rest) =
    xor_bytes chunk (encrypt_block sm4 counter) ∷ ctr_chunks inc sm4 (inc counter) rest

unfoldable pub sm4_crypt_ctr : Bytes → Bytes → Bytes → Bytes
sm4_crypt_ctr key nonce input = flatten (ctr_chunks ctr_inc (new key) nonce (chunks 16 input))
