-- ===== src/Sm4/Modes/Eax/Laws.antt =====
-- EAX (src/sm4/modes.rs): decryption accepts exactly what encryption makes; and two things that the
-- tag does not protect.
use libsmx.Base.{◌==◌, ◌≡◌, refl, ap, ap₂, sym, ◌∙◌, ◌↔◌, length, arith, Bool-cases, inl, inr}
use libsmx.Base.Words.{Bytes}
use libsmx.Base.Bytes.{bytes_eq, bytes_eq_refl, bytes_eq→eq, xor_bytes, xor_bytes_comm}
use libsmx.Base.Outcome.{ok}
use libsmx.Sm4.Cipher.{Sm4Key, new}
use libsmx.Sm4.Cipher.RoundTrip.{encrypt_block-IsBlock}
use libsmx.Sm4.Modes.Basic.{sm4_crypt_ctr}
use libsmx.Sm4.Modes.Basic.RoundTrip.{sm4_crypt_ctr_involutive}
use libsmx.Sm4.Modes.Eax.{omac, eax_key, sm4_encrypt_eax, sm4_decrypt_eax}

-- Decryption gives a plaintext exactly when encrypting that plaintext, under the same key, nonce and
-- associated text, makes this ciphertext and this tag.
pub sm4_decrypt_eax_iff :
    (key nonce aad ct tag xs : Bytes)
    → (sm4_decrypt_eax key nonce aad ct tag ≡ ok xs)
      ↔ (sm4_encrypt_eax key nonce aad xs ≡ ok (ct, tag))
unfolding sm4_decrypt_eax sm4_encrypt_eax
sm4_decrypt_eax_iff key nonce aad ct tag xs = (accepted, made)
  where
    iv : Bytes
    iv = omac (new key) (eax_key (new key) 1) nonce

    tag_of : Bytes → Bytes
    tag_of c =
        xor_bytes (omac (new key) (eax_key (new key) 2) aad)
          (omac (new key) (eax_key (new key) 0) c)

    accepted :
        sm4_decrypt_eax key nonce aad ct tag ≡ ok xs
        → sm4_encrypt_eax key nonce aad xs ≡ ok (ct, tag)
    accepted e = elim (Bool-cases (bytes_eq (tag_of ct) tag)) [
      | inl good ↦
          let dec : sm4_crypt_ctr key iv ct ≡ xs = ground (arith, e, good) in
          let back : sm4_crypt_ctr key iv xs ≡ ct =
            rw (← dec) ((sm4_crypt_ctr_involutive key iv ct).0) in
          λ i. ok (back i, (ap tag_of back ∙ bytes_eq→eq _ _ good) i)
      | inr bad ↦ ground (arith, e, bad)
    ]

    made :
        sm4_encrypt_eax key nonce aad xs ≡ ok (ct, tag)
        → sm4_decrypt_eax key nonce aad ct tag ≡ ok xs
    made e =
        let c : sm4_crypt_ctr key iv xs ≡ ct = cc in
        let t : tag_of (sm4_crypt_ctr key iv xs) ≡ tag = cc in
        rw (← t, ← c, bytes_eq_refl (tag_of (sm4_crypt_ctr key iv xs)))
          (ap ok (sm4_crypt_ctr_involutive key iv xs).0)

-- The tag does not depend on the nonce: a ciphertext and tag that are accepted under one nonce are
-- accepted under every other.
pub sm4_decrypt_eax_any_nonce :
    (key nonce nonce' aad ct tag xs : Bytes)
    → sm4_decrypt_eax key nonce aad ct tag ≡ ok xs
    → (ys : Bytes) × (sm4_decrypt_eax key nonce' aad ct tag ≡ ok ys)
unfolding sm4_decrypt_eax
sm4_decrypt_eax_any_nonce key nonce nonce' aad ct tag xs e =
    let sm4 = new key in
    let auth = xor_bytes (omac sm4 (eax_key sm4 2) aad) (omac sm4 (eax_key sm4 0) ct) in
    elim (Bool-cases (bytes_eq auth tag)) [
      | inl good ↦ (sm4_crypt_ctr key (omac sm4 (eax_key sm4 1) nonce') ct, rw good refl)
      | inr bad ↦ ground (arith, e, bad)
    ]

omac_key_free : (sm4 : Sm4Key) (k k' input : Bytes) → omac sm4 k input ≡ omac sm4 k' input
unfolding omac
omac_key_free sm4 k k' input = refl

length-omac : (sm4 : Sm4Key) (k input : Bytes) → length (omac sm4 k input) ≡ 16
unfolding omac
length-omac sm4 k input = elim (Bool-cases (length input == 0)) [
  | inl e ↦ rw e ((encrypt_block-IsBlock sm4 _).0)
  | inr e ↦ rw e ((encrypt_block-IsBlock sm4 _).0)
]

-- Associated text and ciphertext can be exchanged under one tag: whatever is accepted with the one
-- is accepted with the other.
pub sm4_decrypt_eax_swapped :
    (key nonce aad ct tag xs : Bytes)
    → sm4_decrypt_eax key nonce aad ct tag ≡ ok xs
    → sm4_decrypt_eax key nonce ct aad tag
      ≡ ok (sm4_crypt_ctr key (omac (new key) (eax_key (new key) 1) nonce) aad)
unfolding sm4_decrypt_eax
sm4_decrypt_eax_swapped key nonce aad ct tag xs e =
    let sm4 = new key in
    let auth = xor_bytes (omac sm4 (eax_key sm4 2) aad) (omac sm4 (eax_key sm4 0) ct) in
    let same : xor_bytes (omac sm4 (eax_key sm4 2) ct) (omac sm4 (eax_key sm4 0) aad) ≡ auth =
      xor_bytes_comm (omac sm4 (eax_key sm4 2) ct) (omac sm4 (eax_key sm4 0) aad)
        (length-omac sm4 _ ct ∙ sym (length-omac sm4 _ aad))
      ∙ ap₂ xor_bytes (omac_key_free sm4 (eax_key sm4 0) (eax_key sm4 2) aad)
          (omac_key_free sm4 (eax_key sm4 2) (eax_key sm4 0) ct) in
    elim (Bool-cases (bytes_eq auth tag)) [
      | inl good ↦ rw (same, good) refl
      | inr bad ↦ ground (arith, e, bad)
    ]
