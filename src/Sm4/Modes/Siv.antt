-- ===== src/Sm4/Modes/Siv.antt =====
-- src/sm4/modes.rs: SIV. `compute_s2v` ends on the very steps of `xor_and_cmac`, which are written
-- once.
pub mod Laws
use libsmx.Base.{
  ℕ, ◌-◌, ◌*◌, ◌==◌, leb, if◌then◌else◌, not, List, [], ◌∷◌, ◌++◌, length, take, drop, replicate,
  Option, none, some,
}
use libsmx.Base.Words.{Bytes, u64, to_be_bytes}
use libsmx.Base.Bytes.{xor_bytes, bytes_eq}
use libsmx.Base.Chunks.{chunks}
use libsmx.Base.Outcome.{Outcome, ok, err, invalid_tag, ◌>>=◌}
use libsmx.Sm4.Cipher.{Sm4Key, new, encrypt_block}
use libsmx.Sm4.Modes.Basic.{sm4_crypt_ctr}

-- The loop over the chunks before the last sixteen bytes.
unfoldable pub cmac_chunks : Sm4Key → Bytes → List Bytes → Bytes
cmac_chunks sm4 result [] = result
cmac_chunks sm4 result (chunk ∷ rest) =
    cmac_chunks sm4 (encrypt_block sm4 (xor_bytes result chunk)) rest

unfoldable pub xor_and_cmac : Sm4Key → Bytes → Bytes → Bytes
xor_and_cmac sm4 state input =
    if length input == 0
    then encrypt_block sm4 state
    else if leb 16 (length input)
    then (let front = length input - 16 in
        cmac_chunks sm4 (encrypt_block sm4 (xor_bytes state (drop front input)))
          (chunks 16 (take front input)))
    else encrypt_block sm4 (xor_bytes state input)

unfoldable pub cmac_all : Sm4Key → Bytes → List Bytes → Bytes
cmac_all sm4 d [] = d
cmac_all sm4 d (aad_item ∷ rest) = cmac_all sm4 (xor_and_cmac sm4 d aad_item) rest

unfoldable pub with_nonce : Sm4Key → Bytes → Option Bytes → Bytes
with_nonce sm4 d none = d
with_nonce sm4 d (some n) = xor_and_cmac sm4 d n

unfoldable pub compute_s2v : Bytes → Option Bytes → List Bytes → Bytes → Outcome Bytes
compute_s2v mac_key nonce aad input =
    let sm4 = new mac_key in
    let d = with_nonce sm4 (cmac_all sm4 (encrypt_block sm4 (replicate 16 0)) aad) nonce in
    let len_bytes = to_be_bytes 8 (u64 (length input * 8)) in
    ok (xor_and_cmac sm4 (take 8 d ++ xor_bytes (drop 8 d) len_bytes) input)

unfoldable pub sm4_encrypt_siv : Bytes → Option Bytes → List Bytes → Bytes → Outcome (Bytes × Bytes)
sm4_encrypt_siv key nonce aad plaintext = compute_s2v (take 16 key) nonce aad plaintext >>= λ siv.
    ok (sm4_crypt_ctr (drop 16 key) siv plaintext, siv)

unfoldable pub sm4_decrypt_siv : Bytes → Option Bytes → List Bytes → Bytes → Bytes → Outcome Bytes
sm4_decrypt_siv key nonce aad ciphertext siv =
    let plaintext = sm4_crypt_ctr (drop 16 key) siv ciphertext in
    compute_s2v (take 16 key) nonce aad plaintext >>= λ expected_siv.
    if not (bytes_eq expected_siv siv) then err invalid_tag else ok plaintext
