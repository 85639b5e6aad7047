-- ===== src/Sm4/Modes/Ccm/Laws.antt =====
-- CCM decryption accepts exactly what encryption makes (src/sm4/modes.rs).
use libsmx.Base.{
  ℕ, ◌+◌, ◌-◌, ◌%◌, ◌≤◌, ltb, leb, ◌&&◌, ◌==◌, not, true, false, ◌≡◌, refl, ap, ap₂, ◌∙◌, ◌↔◌,
  le→ltb, ◌++◌, length, take, drop, arith, Bool, Bool-cases, inl, inr, length-append, take-append,
  drop-append, List, [], ◌∷◌, map, length-take_le, take-append-drop, if◌then◌else◌,
}
use libsmx.Base.Words.{Bytes}
use libsmx.Base.Bytes.{bytes_eq, bytes_eq_refl, bytes_eq→eq, length-xor_bytes, xor_bytes_cancel}
use libsmx.Base.Chunks.{chunks}
use libsmx.Base.Outcome.{ok, ok-bind}
use libsmx.Sm4.Cipher.{new, encrypt_block_raw}
use libsmx.Sm4.Cipher.RoundTrip.{store_block-IsBlock}
use libsmx.Sm4.Modes.Shape.{pass_undone}
use libsmx.Sm4.Modes.Ccm.{
  mac_chunks, aad_blocks, ccm_b0, ccm_cbc_mac, ccm_counter, ccm_chunks, ccm_stream, ccm_tag,
  sm4_encrypt_ccm, sm4_decrypt_ccm,
}

length-encrypt_block_raw : (rk : List ℕ) (b : Bytes) → length (encrypt_block_raw rk b) ≡ 16
unfolding encrypt_block_raw
length-encrypt_block_raw rk b = (store_block-IsBlock _).0

module _ (rk : List ℕ) (nonce : Bytes) where
  ccm_shape : (i : ℕ) (cs : List Bytes) → map length (ccm_chunks rk nonce i cs) ≡ map length cs
  unfolding ccm_chunks
  ccm_shape i [] = refl
  ccm_shape i (c ∷ cs) = ap₂ ◌∷◌ (length-xor_bytes c _) (ccm_shape (i + 1) cs)

  ccm_undone : (i : ℕ) (cs : List Bytes) → ccm_chunks rk nonce i (ccm_chunks rk nonce i cs) ≡ cs
  unfolding ccm_chunks
  ccm_undone i [] = refl
  ccm_undone i (c ∷ cs) = ap₂ ◌∷◌ (xor_bytes_cancel c _) (ccm_undone (i + 1) cs)

  ccm_stream_undone : (xs : Bytes) → ccm_stream rk nonce (ccm_stream rk nonce xs) ≡ xs
  unfolding ccm_stream
  ccm_stream_undone xs =
      let pass = ccm_chunks rk nonce 0 in
      pass_undone pass pass xs (ccm_shape 0 (chunks 16 xs)) (ccm_undone 0 (chunks 16 xs))

  length-mac_chunks :
      (cs : List Bytes) (x : Bytes) → length x ≡ 16 → length (mac_chunks rk x cs) ≡ 16
  unfolding mac_chunks
  length-mac_chunks [] x h = h
  length-mac_chunks (c ∷ cs) x h = length-mac_chunks cs _ (length-encrypt_block_raw rk _)

  -- Whether or not there is associated text.
  length-either :
      (b : Bool) (cs ds : List Bytes) (x : Bytes)
      → length x ≡ 16
      → length (mac_chunks rk (if b then mac_chunks rk x cs else x) ds) ≡ 16
  length-either true cs ds x h = length-mac_chunks ds _ (length-mac_chunks cs x h)
  length-either false cs ds x h = length-mac_chunks ds x h

  -- A tag that the MAC gives has sixteen bytes.
  length-ccm_cbc_mac :
      (aad message : Bytes) (tag_len : ℕ) {t : Bytes}
      → ccm_cbc_mac rk nonce aad message tag_len ≡ ok t
      → length t ≡ 16
  unfolding ccm_cbc_mac
  length-ccm_cbc_mac aad message tag_len h =
      let l =
        length-either (not (length aad == 0)) (chunks 16 (aad_blocks aad)) (chunks 16 message) _
          (length-encrypt_block_raw rk (ccm_b0 nonce aad message tag_len)) in
      ground (arith, h, l)

  length-ccm_tag : (t : Bytes) (n : ℕ) → length t ≡ 16 → n ≤ 16 → length (ccm_tag rk nonce t n) ≡ n
  unfolding ccm_tag
  length-ccm_tag t n h k =
      length-take_le n _
        (omega (arith, length-xor_bytes t (encrypt_block_raw rk (ccm_counter nonce 0))))

-- The tag length is one that encryption takes.
abbrev pub IsTagLen : ℕ → Type 0
IsTagLen n = (4 ≤ n) × (n ≤ 16) × (n % 2 ≡ 0)

valid_tag_len : (n : ℕ) → IsTagLen n → (leb 4 n && (leb n 16 && n % 2 == 0)) ≡ true
valid_tag_len n h = ground (arith, h.0, h.1, h.2)

-- For a tag length that encryption takes, decryption gives a plaintext exactly when encrypting that
-- plaintext, under the same key, nonce and associated text, makes this text with its tag.
pub sm4_decrypt_ccm_iff :
    (key nonce aad c xs : Bytes) (n : ℕ)
    → IsTagLen n
    → (sm4_decrypt_ccm key nonce aad c n ≡ ok xs) ↔ (sm4_encrypt_ccm key nonce aad xs n ≡ ok c)
unfolding sm4_decrypt_ccm sm4_encrypt_ccm
sm4_decrypt_ccm_iff key nonce aad c xs n h = (accepted, made)
  where
    rk : List ℕ
    rk = (new key).rk

    encrypted :
        (t : Bytes)
        → ccm_cbc_mac rk nonce aad xs n ≡ ok t
        → sm4_encrypt_ccm key nonce aad xs n ≡ ok (ccm_stream rk nonce xs ++ ccm_tag rk nonce t n)
    encrypted t m = rw (valid_tag_len n h, m) refl

    accepted : sm4_decrypt_ccm key nonce aad c n ≡ ok xs → sm4_encrypt_ccm key nonce aad xs n ≡ ok c
    accepted e = elim (Bool-cases (ltb (length c) n)) [
      | inl short ↦ ground (arith, e, short)
      | inr long ↦
          let ct = take (length c - n) c in
          let (t, m, r) =
            ok-bind _ (ccm_cbc_mac rk nonce aad (ccm_stream rk nonce ct) n) (rw long at e) in
          elim (Bool-cases (bytes_eq (ccm_tag rk nonce t n) (drop (length c - n) c))) [
            | inl good ↦
                let dec : ccm_stream rk nonce ct ≡ xs = ground (arith, r, good) in
                let back : ccm_stream rk nonce xs ≡ ct =
                  rw (← dec) (ccm_stream_undone rk nonce ct) in
                encrypted t (rw (← dec) m)
                ∙ ap ok (ap₂ ◌++◌ back (bytes_eq→eq _ _ good) ∙ take-append-drop (length c - n) c)
            | inr bad ↦ ground (arith, r, bad)
          ]
    ]

    made : sm4_encrypt_ccm key nonce aad xs n ≡ ok c → sm4_decrypt_ccm key nonce aad c n ≡ ok xs
    made e =
        let (t, m, r) = ok-bind _ (ccm_cbc_mac rk nonce aad xs n) (rw (valid_tag_len n h) at e) in
        let ct = ccm_stream rk nonce xs in
        let tag = ccm_tag rk nonce t n in
        let same : ct ++ tag ≡ c = cc in
        let lt = length-ccm_tag rk nonce t n (length-ccm_cbc_mac rk nonce aad xs n m) h.1 in
        let la = length-append ct tag in
        let fits = le→ltb (length (ct ++ tag)) n (omega arith) in
        let whole : length (ct ++ tag) - n ≡ length ct = omega arith in
        let small = le→ltb 16 n h.1 in
        rw
          (
            ← same,
            fits,
            whole,
            take-append (length ct) ct tag refl,
            drop-append (length ct) ct tag refl,
            ccm_stream_undone rk nonce xs,
            m,
            small,
            bytes_eq_refl tag,
          )
          refl
