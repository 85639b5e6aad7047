-- ===== src/Examples/Aead.antt =====
-- src/sm4/modes.rs: instances of the theorems on XTS, CCM, SIV and OCB, and runs of `ntz`.
use libsmx.Base.{◌≡◌, refl, ◌↔◌, [], ◌∷◌, ◌++◌, replicate, none, some, arith}
use libsmx.Base.Words.{Bytes}
use libsmx.Base.Outcome.{ok, ◌>>=◌}
use libsmx.Sm4.Modes.Xts.{sm4_encrypt_xts, sm4_decrypt_xts}
use libsmx.Sm4.Modes.Xts.RoundTrip.{sm4_decrypt_xts-sm4_encrypt_xts}
use libsmx.Sm4.Modes.Ccm.{sm4_encrypt_ccm, sm4_decrypt_ccm}
use libsmx.Sm4.Modes.Ccm.Laws.{sm4_decrypt_ccm_iff}
use libsmx.Sm4.Modes.Siv.{sm4_encrypt_siv, sm4_decrypt_siv}
use libsmx.Sm4.Modes.Siv.Laws.{sm4_decrypt_siv_iff, sm4_decrypt_siv_padded}
use libsmx.Sm4.Modes.Ocb.{ntz, trailing_zeros, sm4_encrypt_ocb, sm4_decrypt_ocb}
use libsmx.Sm4.Modes.Ocb.RoundTrip.{sm4_decrypt_ocb-sm4_encrypt_ocb}

abbrev aead_key : Bytes
aead_key = replicate 16 0x5a

abbrev aead_nonce : Bytes
aead_nonce = replicate 12 3

abbrev block_pair : Bytes
block_pair = replicate 16 1 ++ replicate 16 2

abbrev odd_text : Bytes
odd_text = replicate 16 1 ++ (7 ∷ 8 ∷ 9 ∷ [])

ntz_twelve : ntz 12 ≡ 2
unfolding ntz trailing_zeros
ntz_twelve = refl

sm4_decrypt_xts_example :
    (sm4_encrypt_xts aead_key aead_key aead_key block_pair
      >>= sm4_decrypt_xts aead_key aead_key aead_key)
    ≡ ok block_pair
sm4_decrypt_xts_example =
    sm4_decrypt_xts-sm4_encrypt_xts aead_key aead_key aead_key block_pair (omega arith)
      (omega arith) (omega arith)

sm4_decrypt_ccm_iff_example :
    (sm4_decrypt_ccm aead_key aead_nonce odd_text block_pair 8 ≡ ok odd_text)
    ↔ (sm4_encrypt_ccm aead_key aead_nonce odd_text odd_text 8 ≡ ok block_pair)
sm4_decrypt_ccm_iff_example =
    sm4_decrypt_ccm_iff aead_key aead_nonce odd_text block_pair odd_text 8 (omega arith)

sm4_decrypt_siv_iff_example :
    (sm4_decrypt_siv block_pair (some aead_nonce) (odd_text ∷ []) odd_text aead_key ≡ ok odd_text)
    ↔ (sm4_encrypt_siv block_pair (some aead_nonce) (odd_text ∷ []) odd_text
        ≡ ok (odd_text, aead_key))
sm4_decrypt_siv_iff_example =
    sm4_decrypt_siv_iff block_pair (some aead_nonce) (odd_text ∷ []) odd_text aead_key odd_text

sm4_decrypt_siv_padded_example :
    sm4_decrypt_siv block_pair none ((aead_nonce ++ (0 ∷ [])) ∷ []) odd_text aead_key
    ≡ sm4_decrypt_siv block_pair none (aead_nonce ∷ []) odd_text aead_key
sm4_decrypt_siv_padded_example =
    sm4_decrypt_siv_padded block_pair none aead_nonce [] odd_text aead_key (omega arith)

sm4_decrypt_ocb_example :
    (sm4_encrypt_ocb aead_key aead_nonce block_pair odd_text >>= λ r.
    sm4_decrypt_ocb aead_key aead_nonce block_pair r.0 r.1)
    ≡ ok odd_text
sm4_decrypt_ocb_example =
    sm4_decrypt_ocb-sm4_encrypt_ocb aead_key aead_nonce block_pair odd_text (omega arith)
      (omega arith) (omega arith)
