-- ===== src/Sm4/Modes/Ocb/Bounds.antt =====
-- The blocks and offsets of OCB hold bytes (src/sm4/modes.rs).
use libsmx.Base.{
  ℕ, zero, suc, ◌+◌, ◌*◌, ◌-◌, ◌/◌, ◌%◌, ◌^◌, ◌<◌, ◌==◌, [], ◌∷◌, take, drop, All-append, All-take,
  All-drop, get_or, set, bit_and, ltb, Bool-cases, inl, inr, replicate, arith,
}
use native.Mathlib.Nat.{div-le_self}
use libsmx.Base.Bits.{or-lt, xor-lt}
use libsmx.Base.Words.{Bytes, AreBytes, IsByte, u8}
use libsmx.Base.Bytes.{xor_bytes-AreBytes}
use libsmx.Base.Bytes.{get_or-lt, set-AreBytes}
use libsmx.Sm4.Cipher.{Sm4Key, encrypt_block}
use libsmx.Sm4.Cipher.RoundTrip.{encrypt_block-IsBlock}
use libsmx.Sm4.Modes.Eax.{shift_bytes, gf128_mul_u}
use libsmx.Sm4.Modes.Ocb.{
  l_at, Keys, ocb_keys, next_offset, ntz, stretch_byte, stretch_bytes, ocb_offset, ocb_nonce_block,
}

shift_bytes-AreBytes :
    (carry : ℕ) (bs : Bytes) → carry < 256 → AreBytes bs → AreBytes (shift_bytes carry bs)
unfolding shift_bytes
shift_bytes-AreBytes carry [] k h = tt
shift_bytes-AreBytes carry (b ∷ bs) k (hb, hs) = (
  or-lt 8 (u8 (b * 2)) carry (omega arith) k,
  shift_bytes-AreBytes (b / 2 ^ 7) bs (omega arith) hs,
)

gf128_mul_u-AreBytes : (b : Bytes) → AreBytes b → AreBytes (gf128_mul_u b)
unfolding gf128_mul_u
gf128_mul_u-AreBytes b h =
    let shifted = shift_bytes-AreBytes 0 b (omega arith) h in
    let top =
      xor-lt 8 (get_or (shift_bytes 0 b) 15 0) 0x87 (get_or-lt (shift_bytes 0 b) 15 shifted)
        (omega arith) in
    let folded = set-AreBytes (shift_bytes 0 b) 15 _ shifted top in
    elim (Bool-cases (bit_and (get_or b 0 0) 0x80 == 0)) [
      | inl p ↦ rw p shifted
      | inr p ↦ rw p folded
    ]

l_at-AreBytes : (l_0 : Bytes) (i : ℕ) → AreBytes l_0 → AreBytes (l_at l_0 i)
unfolding l_at
l_at-AreBytes l_0 zero h = h
l_at-AreBytes l_0 (suc i) h = gf128_mul_u-AreBytes (l_at l_0 i) (l_at-AreBytes l_0 i h)

abbrev pub AreKeys : Keys → Type 0
AreKeys k = AreBytes k.l_star × AreBytes k.l_0

pub ocb_keys-AreKeys : (sm4 : Sm4Key) → AreKeys (ocb_keys sm4)
unfolding ocb_keys
ocb_keys-AreKeys sm4 =
    let star = (encrypt_block-IsBlock sm4 (replicate 16 0)).1 in
    (star, gf128_mul_u-AreBytes _ (gf128_mul_u-AreBytes _ star))

pub next_offset-AreBytes :
    (k : Keys) (i : ℕ) (o : Bytes) → AreKeys k → AreBytes o → AreBytes (next_offset k i o)
unfolding next_offset
next_offset-AreBytes k i o hk h = elim (Bool-cases (ltb (ntz (i + 1)) 128)) [
  | inl p ↦ rw p (xor_bytes-AreBytes o _ h (l_at-AreBytes k.l_0 (ntz (i + 1)) hk.1))
  | inr p ↦ rw p h
]

stretch_byte-IsByte : (s : Bytes) (b i : ℕ) → AreBytes s → stretch_byte s b i < 256
unfolding stretch_byte
stretch_byte-IsByte s b i h =
    let lo = get_or-lt s (b / 8 + i) h in
    let hi = get_or-lt s (b / 8 + i + 1) h in
    let down = div-le_self (get_or s (b / 8 + i + 1) 0) (2 ^ (8 - b % 8)) in
    let joined =
      or-lt 8 (u8 (get_or s (b / 8 + i) 0 * 2 ^ (b % 8)))
        (get_or s (b / 8 + i + 1) 0 / 2 ^ (8 - b % 8)) (omega arith) (omega arith) in
    ground arith

stretch_bytes-AreBytes :
    (s : Bytes) (b left i : ℕ) → AreBytes s → AreBytes (stretch_bytes s b left i)
unfolding stretch_bytes
stretch_bytes-AreBytes s b zero i h = tt
stretch_bytes-AreBytes s b (suc left) i h =
    (stretch_byte-IsByte s b i h, stretch_bytes-AreBytes s b left (i + 1) h)

pub ocb_offset-AreBytes : (sm4 : Sm4Key) (nonce : Bytes) → AreBytes (ocb_offset sm4 nonce)
unfolding ocb_offset
ocb_offset-AreBytes sm4 nonce =
    let nonce_block = ocb_nonce_block nonce in
    let ktop = set nonce_block 15 (bit_and (get_or nonce_block 15 0) 0xc0) in
    let h = (encrypt_block-IsBlock sm4 ktop).1 in
    stretch_bytes-AreBytes _ _ 16 0 (
      All-append IsByte (encrypt_block sm4 ktop) _ h (
        xor_bytes-AreBytes (take 8 (encrypt_block sm4 ktop)) _
          (All-take IsByte 8 (encrypt_block sm4 ktop) h)
          (All-take IsByte 8 (drop 1 (encrypt_block sm4 ktop))
            (All-drop IsByte 1 (encrypt_block sm4 ktop) h))))
