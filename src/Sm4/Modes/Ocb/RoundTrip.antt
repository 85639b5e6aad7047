-- ===== src/Sm4/Modes/Ocb/RoundTrip.antt =====
-- OCB decryption undoes OCB encryption (src/sm4/modes.rs). What encryption adds to its output is
-- `ciphertext`, a function of the offset and the input.
use libsmx.Base.{
  ℕ, zero, suc, ◌+◌, ◌||◌, ◌/◌, ◌≤◌, ◌<◌, ◌==◌, ◌≡◌, refl, sym, ap, ◌∙◌, true, false, [], ◌∷◌, ◌++◌,
  append_assoc, append-nil, length, length-append, length-take_le, length-drop, take, drop,
  take-append, drop-append, take-append-drop, All-take, All-drop, ltb, Bool-cases, inl, inr, le→ltb,
  arith,
}
use libsmx.Base.Words.{Bytes, AreBytes, IsByte}
use libsmx.Base.Bytes.{
  xor_bytes, xor_bytes_cancel, length-xor_bytes, xor_bytes-AreBytes, bytes_eq_refl,
}
use libsmx.Base.Outcome.{ok, ◌>>=◌}
use libsmx.Sm4.Cipher.{Sm4Key, new, encrypt_block, decrypt_block}
use libsmx.Sm4.Cipher.RoundTrip.{IsBlock, encrypt_block-IsBlock, decrypt_block-encrypt_block}
use libsmx.Sm4.Modes.Ocb.Bounds.{
  AreKeys, ocb_keys-AreKeys, next_offset-AreBytes, ocb_offset-AreBytes,
}
use libsmx.Sm4.Modes.Ocb.{
  Keys, ocb_keys, next_offset, Pass, encrypt_blocks, decrypt_blocks, ocb_start, ocb_tag,
  sm4_encrypt_ocb, sm4_decrypt_ocb,
}

-- What a pass writes.
ciphertext : Sm4Key → Keys → ℕ → ℕ → Bytes → Bytes → Bytes
ciphertext sm4 k zero i input offset =
    xor_bytes input (encrypt_block sm4 (xor_bytes offset k.l_star))
ciphertext sm4 k (suc left) i input offset =
    let offset' = next_offset k i offset in
    xor_bytes (encrypt_block sm4 (xor_bytes (take 16 input) offset')) offset'
    ++ ciphertext sm4 k left (i + 1) (drop 16 input) offset'

nil_of_length : (xs : Bytes) → (length xs == 0) ≡ true → xs ≡ []
nil_of_length [] h = refl
nil_of_length (x ∷ xs) h = ground arith

module _ (sm4 : Sm4Key) (k : Keys) where
  out-encrypt_blocks :
      (left i : ℕ) (input : Bytes) (s : Pass)
      → (encrypt_blocks sm4 k left i input s).out ≡ s.out ++ ciphertext sm4 k left i input s.offset
  unfolding encrypt_blocks ciphertext
  out-encrypt_blocks zero i input s = elim (Bool-cases (length input == 0)) [
    | inl p ↦ rw (p, nil_of_length input p) (sym (append-nil s.out))
    | inr p ↦ rw p refl
  ]
  out-encrypt_blocks (suc left) i input s =
      let offset' = next_offset k i s.offset in
      let c = xor_bytes (encrypt_block sm4 (xor_bytes (take 16 input) offset')) offset' in
      out-encrypt_blocks left (i + 1) (drop 16 input) (record {
        offset = offset';
        checksum = xor_bytes s.checksum (take 16 input);
        out = s.out ++ c;
      })
      ∙ append_assoc s.out c (ciphertext sm4 k left (i + 1) (drop 16 input) offset')

  length-masked : (b offset : Bytes) → length (xor_bytes (encrypt_block sm4 b) offset) ≡ 16
  length-masked b offset =
      length-xor_bytes (encrypt_block sm4 b) offset ∙ (encrypt_block-IsBlock sm4 b).0

  length-ciphertext :
      (left i : ℕ) (input offset : Bytes)
      → length input / 16 ≡ left
      → length (ciphertext sm4 k left i input offset) ≡ length input
  unfolding ciphertext
  length-ciphertext zero i input offset h = length-xor_bytes input _
  length-ciphertext (suc left) i input offset h =
      let offset' = next_offset k i offset in
      let c = xor_bytes (encrypt_block sm4 (xor_bytes (take 16 input) offset')) offset' in
      let ld = length-drop 16 input in
      omega (
        arith,
        length-append c (ciphertext sm4 k left (i + 1) (drop 16 input) offset'),
        length-masked (xor_bytes (take 16 input) offset') offset',
        length-ciphertext left (i + 1) (drop 16 input) offset' (omega arith),
      )

  -- The block under its offset is taken back out.
  block_undone :
      (b offset : Bytes)
      → IsBlock b
      → AreBytes offset
      → xor_bytes
          (decrypt_block sm4
            (xor_bytes (xor_bytes (encrypt_block sm4 (xor_bytes b offset)) offset) offset))
          offset
        ≡ b
  block_undone b offset hb ho =
      ap (λ (t : Bytes). xor_bytes (decrypt_block sm4 t) offset)
        (xor_bytes_cancel (encrypt_block sm4 (xor_bytes b offset)) offset)
      ∙ ap (λ (t : Bytes). xor_bytes t offset)
          (decrypt_block-encrypt_block sm4 (xor_bytes b offset)
            (length-xor_bytes b offset ∙ hb.0, xor_bytes-AreBytes b offset hb.1 ho))
      ∙ xor_bytes_cancel b offset

  -- Decryption retraces the offsets and checksums of encryption, and writes its input.
  decrypt_blocks_undone :
      (left i : ℕ) (input : Bytes) (s : Pass) (before : Bytes)
      → AreKeys k
      → length input / 16 ≡ left
      → AreBytes input
      → AreBytes s.offset
      → decrypt_blocks sm4 k left i
          (ciphertext sm4 k left i input s.offset)
          (record s { out = before })
        ≡ record (encrypt_blocks sm4 k left i input s) { out = before ++ input }
  unfolding decrypt_blocks encrypt_blocks ciphertext
  decrypt_blocks_undone zero i input s before hk h b o =
      let pad = encrypt_block sm4 (xor_bytes s.offset k.l_star) in
      elim (Bool-cases (length input == 0)) [
        | inl p ↦
            rw (length-xor_bytes input pad, p)
              (λ j. record s {
                out =
                    (sym (append-nil before)
                        ∙ ap (λ (t : Bytes). before ++ t) (sym (nil_of_length input p)))
                      j;
              })
        | inr p ↦ rw (length-xor_bytes input pad, p, xor_bytes_cancel input pad) refl
      ]
  decrypt_blocks_undone (suc left) i input s before hk h b o =
      let offset' = next_offset k i s.offset in
      let block = take 16 input in
      let c = xor_bytes (encrypt_block sm4 (xor_bytes block offset')) offset' in
      let rest = ciphertext sm4 k left (i + 1) (drop 16 input) offset' in
      let lc = length-masked (xor_bytes block offset') offset' in
      let ld = length-drop 16 input in
      let ho = next_offset-AreBytes k i s.offset hk o in
      let hb : IsBlock block =
        (length-take_le 16 input (omega arith), All-take IsByte 16 input b) in
      let there : Pass = record {
        offset = offset';
        checksum = xor_bytes s.checksum block;
        out = s.out ++ c;
      } in
      rw (take-append 16 c rest lc, drop-append 16 c rest lc, block_undone block offset' hb ho)
        (decrypt_blocks_undone left (i + 1) (drop 16 input) there (before ++ block) hk (omega arith)
            (All-drop IsByte 16 input b) ho
          ∙ ap
              (λ (t : Bytes). record (encrypt_blocks sm4 k left (i + 1) (drop 16 input) there) {
                out = t;
              })
              (append_assoc before block (drop 16 input)
                ∙ ap (λ (t : Bytes). before ++ t) (take-append-drop 16 input)))

-- For a nonce that encryption takes, decryption accepts what it makes of any byte string and
-- gives the string back.
pub sm4_decrypt_ocb-sm4_encrypt_ocb :
    (key nonce aad xs : Bytes)
    → 0 < length nonce
    → length nonce ≤ 15
    → AreBytes xs
    → (sm4_encrypt_ocb key nonce aad xs >>= λ r. sm4_decrypt_ocb key nonce aad r.0 r.1) ≡ ok xs
unfolding sm4_encrypt_ocb sm4_decrypt_ocb ocb_start ocb_tag
sm4_decrypt_ocb-sm4_encrypt_ocb key nonce aad xs some few bytes =
    let sm4 = new key in
    let k = ocb_keys sm4 in
    let start = ocb_start sm4 nonce in
    let out = out-encrypt_blocks sm4 k (length xs / 16) 0 xs start in
    let len = length-ciphertext sm4 k (length xs / 16) 0 xs start.offset refl in
    let undone =
      decrypt_blocks_undone sm4 k (length xs / 16) 0 xs start [] (ocb_keys-AreKeys sm4) refl bytes
        (ocb_offset-AreBytes sm4 nonce) in
    let guard : (length nonce == 0 || ltb 15 (length nonce)) ≡ false = ground arith in
    let fits = le→ltb 15 (length nonce) few in
    let tag = ocb_tag sm4 k aad (encrypt_blocks sm4 k (length xs / 16) 0 xs start) in
    rw (guard, fits, out, len, undone, bytes_eq_refl tag) refl
