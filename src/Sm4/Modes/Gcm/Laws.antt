-- ===== src/Sm4/Modes/Gcm/Laws.antt =====
-- GCM decryption accepts exactly what encryption makes (src/sm4/modes.rs).
use libsmx.Base.{
  ◌-◌, ◌≡◌, refl, ap, ◌∙◌, ◌↔◌, le→ltb, ◌++◌, length, arith, Bool-cases, inl, inr, length-append,
  take-append, drop-append,
}
use libsmx.Base.Words.{Bytes, to_be_bytes}
use libsmx.Base.Bytes.{bytes_eq, bytes_eq_refl, bytes_eq→eq, length-xor_bytes}
use libsmx.Base.Chunks.{chunks}
use libsmx.Base.Outcome.{ok}
use libsmx.Sm4.Cipher.{Sm4Key, new}
use libsmx.Sm4.Modes.Shape.{pass_undone}
use libsmx.Sm4.Modes.Basic.{ctr_chunks}
use libsmx.Sm4.Modes.Basic.RoundTrip.{ctr_shape, ctr_undone}
use libsmx.Sm4.Modes.Gcm.{
  gcm_j0, gcm_ctr_inc, gcm_stream, gcm_tag, ghash, gf128_mul, sm4_encrypt_gcm, sm4_decrypt_gcm,
  sm4_encrypt_gcm_combined, sm4_decrypt_gcm_combined,
}

gcm_stream_undone :
    (sm4 : Sm4Key) (nonce xs : Bytes) → gcm_stream sm4 nonce (gcm_stream sm4 nonce xs) ≡ xs
unfolding gcm_stream
gcm_stream_undone sm4 nonce xs =
    let start = gcm_ctr_inc (gcm_j0 nonce) in
    let pass = ctr_chunks gcm_ctr_inc sm4 start in
    pass_undone pass pass xs (ctr_shape sm4 gcm_ctr_inc start (chunks 16 xs))
      (ctr_undone sm4 gcm_ctr_inc start (chunks 16 xs))

length-gf128_mul : (x y : Bytes) → length (gf128_mul x y) ≡ 16
unfolding gf128_mul to_be_bytes
length-gf128_mul x y = refl

length-gcm_tag : (sm4 : Sm4Key) (nonce aad ct : Bytes) → length (gcm_tag sm4 nonce aad ct) ≡ 16
unfolding gcm_tag ghash
length-gcm_tag sm4 nonce aad ct = length-xor_bytes _ _ ∙ length-gf128_mul _ _

-- Decryption gives a plaintext exactly when encrypting that plaintext, under the same key, nonce and
-- associated text, makes this ciphertext and this tag: nothing else is accepted.
pub sm4_decrypt_gcm_iff :
    (key nonce aad ct tag xs : Bytes)
    → (sm4_decrypt_gcm key nonce aad ct tag ≡ ok xs)
      ↔ (sm4_encrypt_gcm key nonce aad xs ≡ (ct, tag))
unfolding sm4_decrypt_gcm sm4_encrypt_gcm
sm4_decrypt_gcm_iff key nonce aad ct tag xs = (accepted, made)
  where
    accepted :
        sm4_decrypt_gcm key nonce aad ct tag ≡ ok xs → sm4_encrypt_gcm key nonce aad xs ≡ (ct, tag)
    accepted e = elim (Bool-cases (bytes_eq (gcm_tag (new key) nonce aad ct) tag)) [
      | inl good ↦
          let dec : gcm_stream (new key) nonce ct ≡ xs = ground (arith, e, good) in
          let same = bytes_eq→eq _ _ good in
          let back : gcm_stream (new key) nonce xs ≡ ct =
            rw (← dec) (gcm_stream_undone (new key) nonce ct) in
          λ i. (back i, (ap (λ (c : Bytes). gcm_tag (new key) nonce aad c) back ∙ same) i)
      | inr bad ↦ ground (arith, e, bad)
    ]

    made :
        sm4_encrypt_gcm key nonce aad xs ≡ (ct, tag) → sm4_decrypt_gcm key nonce aad ct tag ≡ ok xs
    made e =
        let c : gcm_stream (new key) nonce xs ≡ ct = ap (λ (r : Bytes × Bytes). r.0) e in
        let t : gcm_tag (new key) nonce aad (gcm_stream (new key) nonce xs) ≡ tag =
          ap (λ (r : Bytes × Bytes). r.1) e in
        rw (← t, ← c, bytes_eq_refl (gcm_tag (new key) nonce aad (gcm_stream (new key) nonce xs)))
          (ap ok (gcm_stream_undone (new key) nonce xs))

-- The combined form is read back: splitting off the last sixteen bytes finds the tag.
pub sm4_decrypt_gcm_combined-sm4_encrypt_gcm_combined :
    (key nonce aad xs : Bytes)
    → sm4_decrypt_gcm_combined key nonce aad (sm4_encrypt_gcm_combined key nonce aad xs) ≡ ok xs
unfolding sm4_decrypt_gcm_combined sm4_encrypt_gcm_combined sm4_encrypt_gcm
sm4_decrypt_gcm_combined-sm4_encrypt_gcm_combined key nonce aad xs =
    let ct = gcm_stream (new key) nonce xs in
    let tag = gcm_tag (new key) nonce aad ct in
    let lt = length-gcm_tag (new key) nonce aad ct in
    let la = length-append ct tag in
    let whole : length (ct ++ tag) - 16 ≡ length ct = omega (arith, la, lt) in
    let fits = le→ltb (length (ct ++ tag)) 16 (omega (arith, la, lt)) in
    rw (fits, whole, take-append (length ct) ct tag refl, drop-append (length ct) ct tag refl)
      ((sm4_decrypt_gcm_iff key nonce aad ct tag xs).1 (unfold sm4_encrypt_gcm in refl))
