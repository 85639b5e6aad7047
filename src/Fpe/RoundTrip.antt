-- ===== src/Fpe/RoundTrip.antt =====
-- src/fpe/fnr.rs: the rounds of decryption undo those of encryption.
use libsmx.Base.{
  ℕ, zero, suc, ◌+◌, ◌-◌, ◌/◌, ◌%◌, ◌≤◌, ◌<◌, ◌==◌, ltb, if◌then◌else◌, ◌≡◌, refl, sym, ap, subst,
  ◌∙◌, arith, ◌⊎◌, inl, inr, [], ◌∷◌, replicate, get_or, Bool-cases, true, false, ◌++◌, ◌^◌,
  bit_xor,
}
use libsmx.Base.Words.{Bytes, AreBytes}
use libsmx.Base.Bits.{xor-lt, xor_cancel_right}
use libsmx.Base.Places.{lt_or_ge}
use libsmx.Sm4.Cipher.{Sm4Key, encrypt_block}
use libsmx.Sm4.Cipher.RoundTrip.{IsBlock, encrypt_block-IsBlock}
use libsmx.Fpe.Fnr.{
  get_bit, clear_high_bits, round_fn, copy_bits, Halves, split_halves, join_halves, encrypt_round,
  decrypt_round, feistel_encrypt, feistel_decrypt, fnr_encrypt, fnr_decrypt, fnr_1bit, set_bit,
}
use libsmx.Fpe.Bits.{
  get_bit-lt, get_bit-copy_bits, copy_bits-IsBlock, clear_bits-IsBlock, set_bit-IsBlock,
  get_bit-set_bit, get_bit-zeros, zeros-IsBlock,
}
use libsmx.Fpe.Xor.{get_bit-xor_bits}
use libsmx.Fpe.Halves.{block_ext, IsHalf, clear_high_bits-IsHalf, xor_bits-IsHalf, xor_bits_twice}

round_fn-AreBytes :
    (key : Sm4Key) (tweak half : Bytes) (half_bits out_bits round : ℕ)
    → AreBytes (round_fn key tweak half half_bits out_bits round)
unfolding round_fn clear_high_bits
round_fn-AreBytes key tweak half half_bits out_bits round =
    (clear_bits-IsBlock (128 - out_bits) _ out_bits (encrypt_block-IsBlock key _)).1

abbrev pub AreHalves : ℕ → Halves → Type 0
AreHalves n s = IsHalf n s.l × IsHalf n s.r

module _ (key : Sm4Key) (tweak : Bytes) (n : ℕ) (small : n ≤ 64) where
  round_bytes : (half : Bytes) (round : ℕ) → AreBytes (round_fn key tweak half n n round)
  round_bytes half round = round_fn-AreBytes key tweak half n n round

  encrypt_round-AreHalves :
      (round : ℕ) (s : Halves) → AreHalves n s → AreHalves n (encrypt_round key tweak n n round s)
  unfolding encrypt_round
  encrypt_round-AreHalves round s (hl, hr) = (
    subst (IsHalf n) (sym (clear_high_bits-IsHalf n s.r (omega arith) hr)) hr,
    xor_bits-IsHalf n s.l _ (omega arith) hl (round_bytes s.r round),
  )

  feistel_encrypt-AreHalves :
      (rounds : ℕ) (s : Halves)
      → AreHalves n s
      → AreHalves n (feistel_encrypt key tweak n n rounds s)
  unfolding feistel_encrypt
  feistel_encrypt-AreHalves zero s h = h
  feistel_encrypt-AreHalves (suc rounds) s h =
      encrypt_round-AreHalves rounds _ (feistel_encrypt-AreHalves rounds s h)

  decrypt_round-encrypt_round :
      (round : ℕ) (s : Halves)
      → AreHalves n s
      → decrypt_round key tweak n n round (encrypt_round key tweak n n round s) ≡ s
  unfolding encrypt_round decrypt_round
  decrypt_round-encrypt_round round s (hl, hr) =
      let same = clear_high_bits-IsHalf n s.r (omega arith) hr in
      let undone = xor_bits_twice n s.l _ (omega arith) hl (round_bytes s.r round) in
      rw same (λ i. record { l = undone i; r = same i })

  feistel_decrypt-feistel_encrypt :
      (rounds : ℕ) (s : Halves)
      → AreHalves n s
      → feistel_decrypt key tweak n n rounds (feistel_encrypt key tweak n n rounds s) ≡ s
  unfolding feistel_encrypt feistel_decrypt
  feistel_decrypt-feistel_encrypt zero s h = refl
  feistel_decrypt-feistel_encrypt (suc rounds) s h =
      ap (feistel_decrypt key tweak n n rounds)
        (decrypt_round-encrypt_round rounds _ (feistel_encrypt-AreHalves rounds s h))
      ∙ feistel_decrypt-feistel_encrypt rounds s h

module _ (n : ℕ) (small : n ≤ 64) where
  get_bit-extracted :
      (buf : Bytes) (from j : ℕ)
      → get_bit (copy_bits n (replicate 16 0) 0 buf from) j
        ≡ (if ltb j n then get_bit buf (from + j) else 0)
  get_bit-extracted buf from j =
      let copied = get_bit-copy_bits n (replicate 16 0) 0 buf from j zeros-IsBlock (omega arith) in
      let e : from + (j - 0) ≡ from + j = omega arith in
      ground (arith, copied, get_bit-zeros j, ap (get_bit buf) e)

  extracted-IsHalf : (buf : Bytes) (from : ℕ) → IsHalf n (copy_bits n (replicate 16 0) 0 buf from)
  extracted-IsHalf buf from = (
    copy_bits-IsBlock n (replicate 16 0) 0 buf from zeros-IsBlock,
    λ j g s. ground (arith, get_bit-extracted buf from j),
  )

  split_halves-AreHalves : (buf : Bytes) → AreHalves n (split_halves buf n n)
  unfolding split_halves
  split_halves-AreHalves buf = (extracted-IsHalf buf 0, extracted-IsHalf buf n)

  pub join_halves-IsBlock :
      (buf : Bytes) (s : Halves) → IsBlock buf → IsBlock (join_halves buf s n n)
  unfolding join_halves
  join_halves-IsBlock buf s h = copy_bits-IsBlock n _ n s.r 0 (copy_bits-IsBlock n buf 0 s.l 0 h)

  pub get_bit-join_halves :
      (buf : Bytes) (s : Halves) (j : ℕ)
      → IsBlock buf
      → get_bit (join_halves buf s n n) j ≡ (
          if ltb j n
          then get_bit s.l j
          else if ltb j (n + n)
          then get_bit s.r (j - n)
          else get_bit buf j)
  unfolding join_halves
  get_bit-join_halves buf s j h =
      let left = copy_bits-IsBlock n buf 0 s.l 0 h in
      let a = get_bit-copy_bits n (copy_bits n buf 0 s.l 0) n s.r 0 j left (omega arith) in
      let b = get_bit-copy_bits n buf 0 s.l 0 j h (omega arith) in
      let p : 0 + (j - 0) ≡ j = omega arith in
      let q : 0 + (j - n) ≡ j - n = omega arith in
      ground (arith, a, b, ap (get_bit s.l) p, ap (get_bit s.r) q)

  split_halves-join_halves :
      (buf : Bytes) (s : Halves)
      → IsBlock buf
      → AreHalves n s
      → split_halves (join_halves buf s n n) n n ≡ s
  unfolding split_halves
  split_halves-join_halves buf s h (hl, hr) = λ i. record { l = left i; r = right i }
    where
      zero_plus : (j : ℕ) → 0 + j ≡ j
      zero_plus j = omega arith

      left : copy_bits n (replicate 16 0) 0 (join_halves buf s n n) 0 ≡ s.l
      left = block_ext _ s.l (extracted-IsHalf _ 0).0 hl.0 λ j g.
          let a = get_bit-extracted (join_halves buf s n n) 0 j in
          let b = get_bit-join_halves buf s j h in
          let c = ap (get_bit (join_halves buf s n n)) (zero_plus j) in
          elim (lt_or_ge j n) [
            | inl k ↦ ground (arith, a, b, c)
            | inr k ↦ ground (arith, a, hl.1 j g k)
          ]

      right : copy_bits n (replicate 16 0) 0 (join_halves buf s n n) n ≡ s.r
      right = block_ext _ s.r (extracted-IsHalf _ n).0 hr.0 λ j g.
          let a = get_bit-extracted (join_halves buf s n n) n j in
          let b = get_bit-join_halves buf s (n + j) h in
          let e : n + j - n ≡ j = omega arith in
          elim (lt_or_ge j n) [
            | inl k ↦ ground (arith, a, b, ap (get_bit s.r) e)
            | inr k ↦ ground (arith, a, hr.1 j g k)
          ]

  join_halves-split_halves :
      (buf : Bytes) (s : Halves)
      → IsBlock buf
      → join_halves (join_halves buf s n n) (split_halves buf n n) n n ≡ buf
  unfolding split_halves
  join_halves-split_halves buf s h =
      block_ext _ buf (join_halves-IsBlock _ _ (join_halves-IsBlock buf s h)) h λ j g.
        let a = get_bit-join_halves _ (split_halves buf n n) j (join_halves-IsBlock buf s h) in
        let b = get_bit-join_halves buf s j h in
        let l = get_bit-extracted buf 0 j in
        let r = get_bit-extracted buf n (j - n) in
        let e : 0 + j ≡ j = omega arith in
        elim (lt_or_ge j n) [
          | inl k ↦ ground (arith, a, l, ap (get_bit buf) e)
          | inr k ↦ elim (lt_or_ge j (n + n)) [
            | inl m ↦
                let q : n + (j - n) ≡ j = omega arith in ground (arith, a, r, ap (get_bit buf) q)
            | inr m ↦ ground (arith, a, b)
          ]
        ]

fnr_1bit_twice :
    (key : Sm4Key) (tweak buf : Bytes)
    → IsBlock buf
    → fnr_1bit key tweak (fnr_1bit key tweak buf) ≡ buf
unfolding fnr_1bit
fnr_1bit_twice key tweak buf h =
    let p = (get_or (encrypt_block key (tweak ++ (255 ∷ []))) 0 0 / 2 ^ 7) % 2 in
    let flipped = bit_xor (get_bit buf 0) p in
    let v : flipped < 2 = xor-lt 1 (get_bit buf 0) p (get_bit-lt buf 0) (omega arith) in
    let once = set_bit-IsBlock buf 0 flipped h v in
    let read : get_bit (set_bit buf 0 flipped) 0 ≡ flipped =
      get_bit-set_bit buf 0 0 flipped h.0 (omega arith) v in
    let back = xor_cancel_right (get_bit buf 0) p in
    let w = get_bit-lt buf 0 in
    rw (read, back)
      (block_ext _ buf (set_bit-IsBlock _ 0 (get_bit buf 0) once w) h λ j g.
        let a =
          get_bit-set_bit (set_bit buf 0 flipped) 0 j (get_bit buf 0) once.0 (omega arith) w in
        let b = get_bit-set_bit buf 0 j flipped h.0 (omega arith) v in
        elim (Bool-cases (0 == j)) [
          | inl e ↦
              let same : 0 ≡ j = ground (arith, e) in ground (arith, a, e, ap (get_bit buf) same)
          | inr e ↦ ground (arith, a, b, e)
        ])

-- For an even number of bits, or one bit, decryption under the same key and tweak gives every block back.
pub fnr_decrypt-fnr_encrypt :
    (key : Sm4Key) (tweak buf : Bytes) (num_bits : ℕ)
    → (num_bits ≡ 1) ⊎ (num_bits % 2 ≡ 0)
    → num_bits ≤ 128
    → IsBlock buf
    → fnr_decrypt key tweak (fnr_encrypt key tweak buf num_bits) num_bits ≡ buf
unfolding fnr_encrypt fnr_decrypt
fnr_decrypt-fnr_encrypt key tweak buf num_bits (inl e) k h =
    let one : (num_bits == 1) ≡ true = ground arith in rw one (fnr_1bit_twice key tweak buf h)
fnr_decrypt-fnr_encrypt key tweak buf num_bits (inr even) k h =
    let n = num_bits / 2 in
    let same : num_bits - n ≡ n = omega arith in
    let one : (num_bits == 1) ≡ false = ground arith in
    let start = split_halves buf n n in
    let hs = split_halves-AreHalves n (omega arith) buf in
    let s = feistel_encrypt key tweak n n 7 start in
    let hr = feistel_encrypt-AreHalves key tweak n (omega arith) 7 start hs in
    let split = split_halves-join_halves n (omega arith) buf s h hr in
    let undone = feistel_decrypt-feistel_encrypt key tweak n (omega arith) 7 start hs in
    rw (one, same, split, undone) (join_halves-split_halves n (omega arith) buf s h)

-- For an odd number of bits above one, the last bit of every ciphertext is zero, whatever the
-- plaintext: the map is then no permutation.
pub get_bit-fnr_encrypt_odd :
    (key : Sm4Key) (tweak buf : Bytes) (num_bits : ℕ)
    → num_bits % 2 ≡ 1
    → 1 < num_bits
    → num_bits ≤ 128
    → IsBlock buf
    → get_bit (fnr_encrypt key tweak buf num_bits) (num_bits - 1) ≡ 0
unfolding fnr_encrypt join_halves feistel_encrypt encrypt_round
get_bit-fnr_encrypt_odd key tweak buf num_bits odd big k h =
    let n = num_bits / 2 in
    let m = num_bits - n in
    let one : (num_bits == 1) ≡ false = ground arith in
    let before = feistel_encrypt key tweak n m 6 (split_halves buf n m) in
    let s = encrypt_round key tweak n m 6 before in
    let left = copy_bits-IsBlock n buf 0 s.l 0 h in
    let a =
      get_bit-copy_bits m (copy_bits n buf 0 s.l 0) n s.r 0 (num_bits - 1) left (omega arith) in
    let e : 0 + (num_bits - 1 - n) ≡ n = omega arith in
    let f = round_fn key tweak before.r m n 6 in
    let z = get_bit-xor_bits before.l f n n (omega arith) in rw one (a ∙ rw e (ground (arith, z)))
