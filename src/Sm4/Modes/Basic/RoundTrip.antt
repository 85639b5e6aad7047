-- ===== src/Sm4/Modes/Basic/RoundTrip.antt =====
-- ECB, CBC, OFB, CFB and CTR undo themselves (src/sm4/modes.rs).
use libsmx.Base.{ℕ, ◌%◌, ==_iff, ◌≡◌, refl, ap, ap₂, ◌∙◌, List, [], ◌∷◌, map, length, All, arith}
use libsmx.Base.Words.{Bytes, AreBytes}
use libsmx.Base.Bytes.{xor_bytes, xor_bytes_cancel, length-xor_bytes, xor_bytes-AreBytes}
use libsmx.Base.Chunks.{chunks}
use libsmx.Base.Outcome.{Outcome, ok, ◌>>=◌, >>=_assoc}
use libsmx.Sm4.Cipher.{Sm4Key, new, encrypt_block, decrypt_block}
use libsmx.Sm4.Cipher.RoundTrip.{IsBlock, encrypt_block-IsBlock, decrypt_block-encrypt_block}
use libsmx.Sm4.Padding.{pkcs7_pad, pkcs7_unpad}
use libsmx.Sm4.Padding.Laws.{pkcs7_unpad-pkcs7_pad, length-pkcs7_pad, pkcs7_pad-AreBytes}
use libsmx.Sm4.Modes.Shape.{length-pass, pass_undone, chunks-AreBlocks}
use libsmx.Sm4.Modes.Basic.{
  sm4_encrypt_ecb, sm4_decrypt_ecb, cbc_encrypt_chunks, cbc_decrypt_chunks, sm4_encrypt_cbc,
  sm4_decrypt_cbc, sm4_encrypt_cbc_pkcs7, sm4_decrypt_cbc_pkcs7, sm4_encrypt_ecb_pkcs7,
  sm4_decrypt_ecb_pkcs7, ofb_chunks, sm4_crypt_ofb, cfb_encrypt_chunks, cfb_decrypt_chunks,
  sm4_encrypt_cfb, sm4_decrypt_cfb, ctr_chunks, sm4_crypt_ctr, ctr_inc, zero_padded,
}

module _ (sm4 : Sm4Key) where
  ecb_shape :
      (cs : List Bytes) → All IsBlock cs → map length (map (encrypt_block sm4) cs) ≡ map length cs
  ecb_shape [] h = refl
  ecb_shape (c ∷ cs) (hc, hs) =
      let (e, _) = encrypt_block-IsBlock sm4 c in
      let (f, _) = hc in ap₂ ◌∷◌ (omega arith) (ecb_shape cs hs)

  ecb_undone :
      (cs : List Bytes) → All IsBlock cs → map (decrypt_block sm4) (map (encrypt_block sm4) cs) ≡ cs
  ecb_undone [] h = refl
  ecb_undone (c ∷ cs) (hc, hs) = ap₂ ◌∷◌ (decrypt_block-encrypt_block sm4 c hc) (ecb_undone cs hs)

  cbc_shape :
      (prev : Bytes) (cs : List Bytes)
      → All IsBlock cs
      → map length (cbc_encrypt_chunks sm4 prev cs) ≡ map length cs
  unfolding cbc_encrypt_chunks
  cbc_shape prev [] h = refl
  cbc_shape prev (c ∷ cs) (hc, hs) =
      let (e, _) = encrypt_block-IsBlock sm4 (xor_bytes c prev) in
      let (f, _) = hc in
      ap₂ ◌∷◌ (omega arith) (cbc_shape (encrypt_block sm4 (xor_bytes c prev)) cs hs)

  cbc_undone :
      (prev : Bytes) (cs : List Bytes)
      → AreBytes prev
      → All IsBlock cs
      → cbc_decrypt_chunks sm4 prev (cbc_encrypt_chunks sm4 prev cs) ≡ cs
  unfolding cbc_encrypt_chunks cbc_decrypt_chunks
  cbc_undone prev [] p h = refl
  cbc_undone prev (c ∷ cs) p (hc, hs) =
      let mixed : IsBlock (xor_bytes c prev) =
        (length-xor_bytes c prev ∙ hc.0, xor_bytes-AreBytes c prev hc.1 p) in
      let block = encrypt_block sm4 (xor_bytes c prev) in
      ap₂ ◌∷◌
        (ap (λ (t : Bytes). xor_bytes t prev)
            (decrypt_block-encrypt_block sm4 (xor_bytes c prev) mixed)
          ∙ xor_bytes_cancel c prev)
        (cbc_undone block cs (encrypt_block-IsBlock sm4 (xor_bytes c prev)).1 hs)

  ofb_shape : (f : Bytes) (cs : List Bytes) → map length (ofb_chunks sm4 f cs) ≡ map length cs
  unfolding ofb_chunks
  ofb_shape f [] = refl
  ofb_shape f (c ∷ cs) = ap₂ ◌∷◌ (length-xor_bytes c _) (ofb_shape (encrypt_block sm4 f) cs)

  ofb_undone : (f : Bytes) (cs : List Bytes) → ofb_chunks sm4 f (ofb_chunks sm4 f cs) ≡ cs
  unfolding ofb_chunks
  ofb_undone f [] = refl
  ofb_undone f (c ∷ cs) = ap₂ ◌∷◌ (xor_bytes_cancel c _) (ofb_undone (encrypt_block sm4 f) cs)

  cfb_shape :
      (f : Bytes) (cs : List Bytes) → map length (cfb_encrypt_chunks sm4 f cs) ≡ map length cs
  unfolding cfb_encrypt_chunks
  cfb_shape f [] = refl
  cfb_shape f (c ∷ cs) =
      ap₂ ◌∷◌ (length-xor_bytes c _)
        (cfb_shape (zero_padded (xor_bytes c (encrypt_block sm4 f))) cs)

  cfb_undone :
      (f : Bytes) (cs : List Bytes) → cfb_decrypt_chunks sm4 f (cfb_encrypt_chunks sm4 f cs) ≡ cs
  unfolding cfb_encrypt_chunks cfb_decrypt_chunks
  cfb_undone f [] = refl
  cfb_undone f (c ∷ cs) =
      ap₂ ◌∷◌ (xor_bytes_cancel c _)
        (cfb_undone (zero_padded (xor_bytes c (encrypt_block sm4 f))) cs)

  pub ctr_shape :
      (inc : Bytes → Bytes) (n : Bytes) (cs : List Bytes)
      → map length (ctr_chunks inc sm4 n cs) ≡ map length cs
  unfolding ctr_chunks
  ctr_shape inc n [] = refl
  ctr_shape inc n (c ∷ cs) = ap₂ ◌∷◌ (length-xor_bytes c _) (ctr_shape inc (inc n) cs)

  pub ctr_undone :
      (inc : Bytes → Bytes) (n : Bytes) (cs : List Bytes)
      → ctr_chunks inc sm4 n (ctr_chunks inc sm4 n cs) ≡ cs
  unfolding ctr_chunks
  ctr_undone inc n [] = refl
  ctr_undone inc n (c ∷ cs) = ap₂ ◌∷◌ (xor_bytes_cancel c _) (ctr_undone inc (inc n) cs)

-- ECB decryption gives back every byte string of whole blocks that ECB encrypted, without a panic.
pub sm4_decrypt_ecb-sm4_encrypt_ecb :
    (key xs : Bytes)
    → AreBytes xs
    → length xs % 16 ≡ 0
    → (sm4_encrypt_ecb key xs >>= sm4_decrypt_ecb key) ≡ ok xs
unfolding sm4_encrypt_ecb sm4_decrypt_ecb
sm4_decrypt_ecb-sm4_encrypt_ecb key xs b e =
    let sm4 = new key in
    let blocks = chunks-AreBlocks xs e b in
    let shape = ecb_shape sm4 (chunks 16 xs) blocks in
    let len = length-pass (map (encrypt_block sm4)) (map (decrypt_block sm4)) xs shape in
    let aligned = (==_iff _ _).1 e in
    let aligned' = (==_iff _ _).1 (ap (λ (t : ℕ). t % 16) len ∙ e) in
    rw (
      aligned,
      aligned',
      pass_undone (map (encrypt_block sm4)) (map (decrypt_block sm4)) xs shape
          (ecb_undone sm4 (chunks 16 xs) blocks),
    )

-- CBC decryption gives back every byte string of whole blocks that CBC encrypted under the same
-- initialisation vector, without a panic.
pub sm4_decrypt_cbc-sm4_encrypt_cbc :
    (key iv xs : Bytes)
    → AreBytes iv
    → AreBytes xs
    → length xs % 16 ≡ 0
    → (sm4_encrypt_cbc key iv xs >>= sm4_decrypt_cbc key iv) ≡ ok xs
unfolding sm4_encrypt_cbc sm4_decrypt_cbc
sm4_decrypt_cbc-sm4_encrypt_cbc key iv xs v b e =
    let sm4 = new key in
    let blocks = chunks-AreBlocks xs e b in
    let shape = cbc_shape sm4 iv (chunks 16 xs) blocks in
    let len = length-pass (cbc_encrypt_chunks sm4 iv) (cbc_decrypt_chunks sm4 iv) xs shape in
    let aligned = (==_iff _ _).1 e in
    let aligned' = (==_iff _ _).1 (ap (λ (t : ℕ). t % 16) len ∙ e) in
    rw (
      aligned,
      aligned',
      pass_undone (cbc_encrypt_chunks sm4 iv) (cbc_decrypt_chunks sm4 iv) xs shape
          (cbc_undone sm4 iv (chunks 16 xs) v blocks),
    )

-- CBC with PKCS#7 padding gives back every byte string, of any length.
pub sm4_decrypt_cbc_pkcs7-sm4_encrypt_cbc_pkcs7 :
    (key iv xs : Bytes)
    → AreBytes iv
    → AreBytes xs
    → (sm4_encrypt_cbc_pkcs7 key iv xs >>= sm4_decrypt_cbc_pkcs7 key iv) ≡ ok xs
unfolding sm4_encrypt_cbc_pkcs7 sm4_decrypt_cbc_pkcs7
sm4_decrypt_cbc_pkcs7-sm4_encrypt_cbc_pkcs7 key iv xs v b =
    >>=_assoc (sm4_encrypt_cbc key iv (pkcs7_pad xs 16)) (sm4_decrypt_cbc key iv) pkcs7_unpad
    ∙ ap (λ (r : Outcome Bytes). r >>= pkcs7_unpad)
        (sm4_decrypt_cbc-sm4_encrypt_cbc key iv (pkcs7_pad xs 16) v (pkcs7_pad-AreBytes xs b)
          (length-pkcs7_pad xs).0)
    ∙ pkcs7_unpad-pkcs7_pad xs

-- ECB with PKCS#7 padding gives back every byte string, of any length.
pub sm4_decrypt_ecb_pkcs7-sm4_encrypt_ecb_pkcs7 :
    (key xs : Bytes)
    → AreBytes xs
    → (sm4_encrypt_ecb_pkcs7 key xs >>= sm4_decrypt_ecb_pkcs7 key) ≡ ok xs
unfolding sm4_encrypt_ecb_pkcs7 sm4_decrypt_ecb_pkcs7
sm4_decrypt_ecb_pkcs7-sm4_encrypt_ecb_pkcs7 key xs b =
    >>=_assoc (sm4_encrypt_ecb key (pkcs7_pad xs 16)) (sm4_decrypt_ecb key) pkcs7_unpad
    ∙ ap (λ (r : Outcome Bytes). r >>= pkcs7_unpad)
        (sm4_decrypt_ecb-sm4_encrypt_ecb key (pkcs7_pad xs 16) (pkcs7_pad-AreBytes xs b)
          (length-pkcs7_pad xs).0)
    ∙ pkcs7_unpad-pkcs7_pad xs

-- A second OFB pass under the same key and vector gives the input back, at any length, and the
-- output of a pass has the length of its input.
pub sm4_crypt_ofb_involutive :
    (key iv xs : Bytes)
    → (sm4_crypt_ofb key iv (sm4_crypt_ofb key iv xs) ≡ xs)
      × (length (sm4_crypt_ofb key iv xs) ≡ length xs)
unfolding sm4_crypt_ofb
sm4_crypt_ofb_involutive key iv xs =
    let pass = ofb_chunks (new key) iv in
    let shape = ofb_shape (new key) iv (chunks 16 xs) in
    (
      pass_undone pass pass xs shape (ofb_undone (new key) iv (chunks 16 xs)),
      length-pass pass pass xs shape,
    )

-- A second CTR pass under the same key and nonce gives the input back, at any length, and the
-- output of a pass has the length of its input.
pub sm4_crypt_ctr_involutive :
    (key nonce xs : Bytes)
    → (sm4_crypt_ctr key nonce (sm4_crypt_ctr key nonce xs) ≡ xs)
      × (length (sm4_crypt_ctr key nonce xs) ≡ length xs)
unfolding sm4_crypt_ctr
sm4_crypt_ctr_involutive key nonce xs =
    let pass = ctr_chunks ctr_inc (new key) nonce in
    let shape = ctr_shape (new key) ctr_inc nonce (chunks 16 xs) in
    (
      pass_undone pass pass xs shape (ctr_undone (new key) ctr_inc nonce (chunks 16 xs)),
      length-pass pass pass xs shape,
    )

-- CFB decryption undoes CFB encryption at any length, and the length is kept.
pub sm4_decrypt_cfb-sm4_encrypt_cfb :
    (key iv xs : Bytes)
    → (sm4_decrypt_cfb key iv (sm4_encrypt_cfb key iv xs) ≡ xs)
      × (length (sm4_encrypt_cfb key iv xs) ≡ length xs)
unfolding sm4_decrypt_cfb sm4_encrypt_cfb
sm4_decrypt_cfb-sm4_encrypt_cfb key iv xs =
    let there = cfb_encrypt_chunks (new key) iv in
    let back = cfb_decrypt_chunks (new key) iv in
    let shape = cfb_shape (new key) iv (chunks 16 xs) in
    (
      pass_undone there back xs shape (cfb_undone (new key) iv (chunks 16 xs)),
      length-pass there back xs shape,
    )
