-- ===== src/Sm4/Modes/Siv/Laws.antt =====
-- SIV (src/sm4/modes.rs): decryption accepts exactly what encryption makes; and what the synthetic
-- vector does not distinguish.
use libsmx.Base.{
  ◌≡◌, refl, ap, true, bit_xor, ◌∙◌, ◌↔◌, ◌<◌, List, [], ◌∷◌, ◌++◌, length, take, drop, Option,
  arith, Bool-cases, inl, inr, ap₂, length-append,
}
use libsmx.Base.Words.{Bytes}
use libsmx.Base.Bits.{xor-zero}
use libsmx.Base.Bytes.{bytes_eq, bytes_eq_refl, bytes_eq→eq, xor_bytes}
use libsmx.Base.Outcome.{ok}
use libsmx.Sm4.Cipher.{Sm4Key, new, encrypt_block}
use libsmx.Sm4.Cipher.RoundTrip.{encrypt_block-IsBlock}
use libsmx.Sm4.Modes.Basic.{sm4_crypt_ctr}
use libsmx.Sm4.Modes.Basic.RoundTrip.{sm4_crypt_ctr_involutive}
use libsmx.Sm4.Modes.Siv.{xor_and_cmac, cmac_all, compute_s2v, sm4_encrypt_siv, sm4_decrypt_siv}

-- Decryption gives a plaintext exactly when encrypting that plaintext, under the same key, nonce and
-- associated texts, makes this ciphertext and this synthetic vector.
pub sm4_decrypt_siv_iff :
    (key : Bytes) (nonce_opt : Option Bytes) (aad : List Bytes) (ct siv xs : Bytes)
    → (sm4_decrypt_siv key nonce_opt aad ct siv ≡ ok xs)
      ↔ (sm4_encrypt_siv key nonce_opt aad xs ≡ ok (ct, siv))
unfolding sm4_decrypt_siv sm4_encrypt_siv compute_s2v
sm4_decrypt_siv_iff key nonce_opt aad ct siv xs = (accepted, made)
  where
    ctr : Bytes → Bytes → Bytes
    ctr = sm4_crypt_ctr (drop 16 key)

    s2v : Bytes → Bytes
    s2v p = elim (compute_s2v (take 16 key) nonce_opt aad p) [ ok r ↦ r | _ ↦ [] ]

    accepted :
        sm4_decrypt_siv key nonce_opt aad ct siv ≡ ok xs
        → sm4_encrypt_siv key nonce_opt aad xs ≡ ok (ct, siv)
    accepted e = elim (Bool-cases (bytes_eq (s2v (ctr siv ct)) siv)) [
      | inl good ↦
          let dec : ctr siv ct ≡ xs = ground (arith, e, good) in
          let same : s2v xs ≡ siv = rw (← dec) (bytes_eq→eq _ _ good) in
          let back : ctr (s2v xs) xs ≡ ct =
            rw same (rw (← dec) ((sm4_crypt_ctr_involutive (drop 16 key) siv ct).0)) in
          λ i. ok (back i, same i)
      | inr bad ↦ ground (arith, e, bad)
    ]

    made :
        sm4_encrypt_siv key nonce_opt aad xs ≡ ok (ct, siv)
        → sm4_decrypt_siv key nonce_opt aad ct siv ≡ ok xs
    made e =
        let c : ctr (s2v xs) xs ≡ ct = cc in
        let s : s2v xs ≡ siv = cc in
        let back : ctr siv ct ≡ xs =
          rw (← c, ← s) ((sm4_crypt_ctr_involutive (drop 16 key) (s2v xs) xs).0) in
        let good : bytes_eq (s2v (ctr siv ct)) siv ≡ true = rw (back, s) (bytes_eq_refl siv) in
        ground (arith, good, back)

xor_bytes-nil : (xs : Bytes) → xor_bytes xs [] ≡ xs
xor_bytes-nil [] = refl
xor_bytes-nil (x ∷ xs) = refl

xor_bytes_padded :
    (xs ys : Bytes) → length ys < length xs → xor_bytes xs (ys ++ 0 ∷ []) ≡ xor_bytes xs ys
xor_bytes_padded [] ys h = refl
xor_bytes_padded (x ∷ xs) [] h = ap₂ ◌∷◌ (xor-zero x) (xor_bytes-nil xs)
xor_bytes_padded (x ∷ xs) (y ∷ ys) h =
    ap (λ (t : Bytes). bit_xor x y ∷ t) (xor_bytes_padded xs ys (omega arith))

xor_and_cmac_padded :
    (sm4 : Sm4Key) (state a : Bytes)
    → length state ≡ 16
    → length a < 15
    → xor_and_cmac sm4 state (a ++ 0 ∷ []) ≡ xor_and_cmac sm4 state a
unfolding xor_and_cmac
xor_and_cmac_padded sm4 state [] e h =
    ap (encrypt_block sm4) (xor_bytes_padded state [] (omega arith) ∙ xor_bytes-nil state)
xor_and_cmac_padded sm4 state (x ∷ xs) e h =
    let same = xor_bytes_padded state (x ∷ xs) (omega arith) in
    let la = length-append (x ∷ xs) (0 ∷ []) in ground arith

-- A first associated text of less than fifteen bytes, and the same text with a zero byte at its end,
-- are accepted alike: what was made for the one is accepted for the other.
pub sm4_decrypt_siv_padded :
    (key : Bytes) (nonce_opt : Option Bytes) (a : Bytes) (rest : List Bytes) (ct siv : Bytes)
    → length a < 15
    → sm4_decrypt_siv key nonce_opt ((a ++ 0 ∷ []) ∷ rest) ct siv
      ≡ sm4_decrypt_siv key nonce_opt (a ∷ rest) ct siv
unfolding sm4_decrypt_siv compute_s2v cmac_all
sm4_decrypt_siv_padded key nonce_opt a rest ct siv h =
    rw (xor_and_cmac_padded (new (take 16 key)) _ a (encrypt_block-IsBlock _ _).0 h) refl
