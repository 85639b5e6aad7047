-- ===== src/Examples/Modes.antt =====
-- src/sm4/modes.rs: instances of the theorems on GCM, key wrap and EAX.
use libsmx.Base.{◌≡◌, refl, ◌↔◌, [], ◌∷◌, replicate, arith}
use libsmx.Base.Words.{Bytes}
use libsmx.Base.Bytes.{xor_bytes}
use libsmx.Base.Outcome.{ok, ◌>>=◌}
use libsmx.Sm4.Cipher.{new}
use libsmx.Sm4.Modes.Basic.{sm4_crypt_ctr}
use libsmx.Sm4.Modes.Gcm.{sm4_encrypt_gcm, sm4_decrypt_gcm}
use libsmx.Sm4.Modes.Gcm.Laws.{sm4_decrypt_gcm_iff}
use libsmx.Sm4.Modes.KeyWrap.{sm4_key_wrap, sm4_key_unwrap}
use libsmx.Sm4.Modes.KeyWrap.RoundTrip.{sm4_key_unwrap-sm4_key_wrap}
use libsmx.Sm4.Modes.Eax.{omac, eax_key, sm4_encrypt_eax, sm4_decrypt_eax}
use libsmx.Sm4.Modes.Eax.Laws.{
  sm4_decrypt_eax_iff, sm4_decrypt_eax_any_nonce, sm4_decrypt_eax_swapped,
}

abbrev key : Bytes
key = replicate 16 0x42

abbrev nonce : Bytes
nonce = replicate 12 7

abbrev text : Bytes
text = 1 ∷ 2 ∷ 3 ∷ []

sm4_decrypt_gcm_iff_example :
    let r = sm4_encrypt_gcm key nonce [] text in
    (sm4_decrypt_gcm key nonce [] r.0 r.1 ≡ ok text)
    ↔ (sm4_encrypt_gcm key nonce [] text ≡ (r.0, r.1))
sm4_decrypt_gcm_iff_example =
    sm4_decrypt_gcm_iff key nonce [] (sm4_encrypt_gcm key nonce [] text).0
      (sm4_encrypt_gcm key nonce [] text).1 text

sm4_key_unwrap_example :
    (sm4_key_wrap key (replicate 24 9) >>= sm4_key_unwrap key) ≡ ok (replicate 24 9)
sm4_key_unwrap_example =
    sm4_key_unwrap-sm4_key_wrap key (replicate 24 9) (omega arith) (omega arith) refl

abbrev eax_ct : Bytes
eax_ct = sm4_crypt_ctr key (omac (new key) (eax_key (new key) 1) nonce) text

sm4_decrypt_eax_iff_example :
    (sm4_decrypt_eax key nonce [] text nonce ≡ ok eax_ct)
    ↔ (sm4_encrypt_eax key nonce [] eax_ct ≡ ok (text, nonce))
sm4_decrypt_eax_iff_example = sm4_decrypt_eax_iff key nonce [] text nonce eax_ct

-- The ciphertext and the tag that encryption makes of `text`.
abbrev eax_tag : Bytes
eax_tag =
    xor_bytes (omac (new key) (eax_key (new key) 2) [])
      (omac (new key) (eax_key (new key) 0) eax_ct)

eax_accepted : sm4_decrypt_eax key nonce [] eax_ct eax_tag ≡ ok text
eax_accepted =
    (sm4_decrypt_eax_iff key nonce [] eax_ct eax_tag text).1 (unfold sm4_encrypt_eax in refl)

sm4_decrypt_eax_any_nonce_example :
    (ys : Bytes) × (sm4_decrypt_eax key (8 ∷ []) [] eax_ct eax_tag ≡ ok ys)
sm4_decrypt_eax_any_nonce_example =
    sm4_decrypt_eax_any_nonce key nonce (8 ∷ []) [] eax_ct eax_tag text eax_accepted

sm4_decrypt_eax_swapped_example :
    sm4_decrypt_eax key nonce eax_ct [] eax_tag
    ≡ ok (sm4_crypt_ctr key (omac (new key) (eax_key (new key) 1) nonce) [])
sm4_decrypt_eax_swapped_example =
    sm4_decrypt_eax_swapped key nonce [] eax_ct eax_tag text eax_accepted
