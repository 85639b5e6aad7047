-- ===== src/Fpe/Calls.antt =====
-- src/fpe/mod.rs: decryption on a key undoes encryption, the bits behind the first `num_bits`
-- included.
use libsmx.Base.{
  ℕ, ◌+◌, ◌-◌, ◌/◌, ◌%◌, ◌^◌, ◌≤◌, ◌<◌, ◌==◌, ltb, if◌then◌else◌, ◌≡◌, sym, ◌∙◌, arith, ◌⊎◌, inl,
  inr, Bool-cases, true, false, take, drop, set, copy_at, replicate, get_or, length-set,
  length-append, length-take_le, length-drop, All-append, All-take, All-drop, bit_xor, ◌++◌, ◌∷◌,
  [],
}
use libsmx.Base.Words.{Bytes, IsByte}
use libsmx.Base.Bytes.{get_or-lt, set-AreBytes}
use libsmx.Base.Bits.{and-lt, or-lt, xor-lt}
use libsmx.Base.Places.{lt_or_ge}
use libsmx.Sm4.Cipher.{Sm4Key, encrypt_block}
use libsmx.Sm4.Cipher.RoundTrip.{IsBlock}
use libsmx.Fpe.Fnr.{get_bit, clear_high_bits, split_halves, feistel_encrypt, fnr_1bit, fnr_encrypt}
use libsmx.Fpe.Key.{FpeKey, fpe_encrypt, fpe_decrypt, save_high_bits, restore_high_bits}
use libsmx.Fpe.Bits.{
  clear_bits-IsBlock, get_bit-clear_high_bits, get_bit-lt, get_bit-set_bit, set_bit-IsBlock,
  zeros-IsBlock,
}
use libsmx.Fpe.Halves.{block_ext}
use libsmx.Fpe.RoundTrip.{fnr_decrypt-fnr_encrypt, join_halves-IsBlock, get_bit-join_halves}
use libsmx.Fpe.Saved.{copy_at-tail, get_bit-restore_high_bits, get_bit-save_high_bits}

copy_at-IsBlock :
    (n : ℕ) (xs ys : Bytes) → IsBlock xs → IsBlock ys → n ≤ 16 → IsBlock (copy_at xs n (drop n ys))
copy_at-IsBlock n xs ys (xl, xb) (yl, yb) h =
    rw (copy_at-tail n xs ys (xl ∙ sym yl) (omega (arith, xl))) (
      omega (
        arith,
        xl,
        yl,
        length-append (take n xs) (drop n ys),
        length-drop n ys,
        length-take_le n xs (omega (arith, xl)),
      ),
      All-append IsByte (take n xs) (drop n ys) (All-take IsByte n xs xb) (All-drop IsByte n ys yb),
    )

set-IsBlock : (xs : Bytes) (i v : ℕ) → IsBlock xs → v < 256 → IsBlock (set xs i v)
set-IsBlock xs i v h g = (length-set xs i v ∙ h.0, set-AreBytes xs i v h.1 g)

restore_high_bits-IsBlock :
    (buf saved : Bytes) (n : ℕ)
    → n ≤ 128
    → IsBlock buf
    → IsBlock saved
    → IsBlock (restore_high_bits buf saved n)
unfolding restore_high_bits
restore_high_bits-IsBlock buf saved n k h g = elim (Bool-cases (n % 8 == 0)) [
  | inl e ↦
      let t : ltb 0 (n % 8) ≡ false = ground (arith, e) in
      rw (e, t) (copy_at-IsBlock (n / 8 + 0) buf saved h g (omega arith))
  | inr e ↦
      let t : ltb 0 (n % 8) ≡ true = ground (arith, e) in
      let u : ltb (n / 8) 16 ≡ true = ground (arith, e, k) in
      let m : n / 8 + 1 ≤ 16 = ground (arith, e, k) in
      let byte =
        or-lt 8 _ _ (and-lt 8 _ (255 - 255 / 2 ^ (n % 8)) (get_or-lt buf (n / 8) h.1))
          (and-lt 8 _ (255 / 2 ^ (n % 8)) (get_or-lt saved (n / 8) g.1)) in
      let mixed = set-IsBlock buf (n / 8) _ h byte in
      rw (e, t, u) (copy_at-IsBlock (n / 8 + 1) _ saved mixed g m)
]

save_high_bits-IsBlock :
    (buf : Bytes) (n : ℕ) → n ≤ 128 → IsBlock buf → IsBlock (save_high_bits buf n)
unfolding save_high_bits
save_high_bits-IsBlock buf n k h = elim (Bool-cases (n % 8 == 0)) [
  | inl e ↦
      let t : ltb 0 (n % 8) ≡ false = ground (arith, e) in
      rw (e, t) (copy_at-IsBlock (n / 8 + 0) (replicate 16 0) buf zeros-IsBlock h (omega arith))
  | inr e ↦
      let t : ltb 0 (n % 8) ≡ true = ground (arith, e) in
      let u : ltb (n / 8) 16 ≡ true = ground (arith, e, k) in
      let m : n / 8 + 1 ≤ 16 = ground (arith, e, k) in
      let byte = and-lt 8 _ (255 / 2 ^ (n % 8)) (get_or-lt buf (n / 8) h.1) in
      let mixed = set-IsBlock (replicate 16 0) (n / 8) _ zeros-IsBlock byte in
      rw (e, t, u) (copy_at-IsBlock (n / 8 + 1) _ buf mixed h m)
]

clear_high_bits-IsBlock : (buf : Bytes) (n : ℕ) → IsBlock buf → IsBlock (clear_high_bits buf n)
unfolding clear_high_bits
clear_high_bits-IsBlock buf n h = clear_bits-IsBlock (128 - n) buf n h

-- The network yields a block, with the bits behind the first `n` as they were.
fnr_encrypt_lem :
    (key : Sm4Key) (tweak buf : Bytes) (n : ℕ)
    → (n ≡ 1) ⊎ (n % 2 ≡ 0)
    → n ≤ 128
    → IsBlock buf
    → IsBlock (fnr_encrypt key tweak buf n)
      × ((j : ℕ) → n ≤ j → get_bit (fnr_encrypt key tweak buf n) j ≡ get_bit buf j)
unfolding fnr_encrypt fnr_1bit
fnr_encrypt_lem key tweak buf n (inl e) k h =
    let one : (n == 1) ≡ true = ground arith in
    let p = (get_or (encrypt_block key (tweak ++ (255 ∷ []))) 0 0 / 2 ^ 7) % 2 in
    let v = bit_xor (get_bit buf 0) p in
    let flipped : v < 2 = xor-lt 1 (get_bit buf 0) p (get_bit-lt buf 0) (omega arith) in
    rw one (
      set_bit-IsBlock buf 0 v h flipped,
      λ j g. ground (arith, get_bit-set_bit buf 0 j v h.0 (omega arith) flipped),
    )
fnr_encrypt_lem key tweak buf n (inr even) k h =
    let m = n / 2 in
    let one : (n == 1) ≡ false = ground arith in
    let same : n - m ≡ m = omega arith in
    let s = feistel_encrypt key tweak m m 7 (split_halves buf m m) in
    rw (one, same)
      (
        join_halves-IsBlock m (omega arith) buf s h,
        λ j g. ground (arith, get_bit-join_halves m (omega arith) buf s j h),
      )

-- For an even number of bits, or one bit, `decrypt` under the same tweak gives back every block
-- that `encrypt` changed, the bits that are not encrypted included.
pub fpe_decrypt-fpe_encrypt :
    (k : FpeKey) (tweak buf : Bytes)
    → (k.num_bits ≡ 1) ⊎ (k.num_bits % 2 ≡ 0)
    → k.num_bits ≤ 128
    → IsBlock buf
    → fpe_decrypt k tweak (fpe_encrypt k tweak buf) ≡ buf
unfolding fpe_encrypt fpe_decrypt
fpe_decrypt-fpe_encrypt k tweak buf even small h =
    let n = k.num_bits in
    let c = clear_high_bits buf n in
    let hc = clear_high_bits-IsBlock buf n h in
    let e = fnr_encrypt k.key tweak c n in
    let (he, behind) = fnr_encrypt_lem k.key tweak c n even small hc in
    let saved = save_high_bits buf n in
    let hs = save_high_bits-IsBlock buf n small h in
    let all = restore_high_bits e saved n in
    let ha = restore_high_bits-IsBlock e saved n small he hs in
    let restored : (j : ℕ) → get_bit all j ≡ (if ltb j n then get_bit e j else get_bit saved j) =
      λ j. get_bit-restore_high_bits e saved n j he.0 hs.0 small in
    let cleared : clear_high_bits all n ≡ e =
      block_ext (clear_high_bits all n) e (clear_high_bits-IsBlock all n ha) he λ j g.
        let a = get_bit-clear_high_bits all n j ha small g in
        let b = get_bit-clear_high_bits buf n j h small g in
        elim (lt_or_ge j n) [
          | inl q ↦ ground (arith, a, restored j, q)
          | inr q ↦ ground (arith, a, b, behind j q, q)
        ] in
    let again = save_high_bits all n in
    let hg = save_high_bits-IsBlock all n small ha in
    rw (cleared, fnr_decrypt-fnr_encrypt k.key tweak c n even small hc)
      (block_ext (restore_high_bits c again n) buf (restore_high_bits-IsBlock c again n small hc hg)
        h
        λ j g.
          let a = get_bit-restore_high_bits c again n j hc.0 hg.0 small in
          elim (lt_or_ge j n) [
            | inl q ↦ ground (arith, a, get_bit-clear_high_bits buf n j h small g, q)
            | inr q ↦
                let b = get_bit-save_high_bits all n j ha.0 small q in
                let d = get_bit-save_high_bits buf n j h.0 small q in
                ground (arith, a, b, d, restored j, q)
          ])
