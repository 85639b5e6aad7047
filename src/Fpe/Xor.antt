-- ===== src/Fpe/Xor.antt =====
-- src/fpe/fnr.rs: the bits that `xor_bits` gives.
use libsmx.Base.{
  ℕ, zero, suc, ◌+◌, ◌-◌, ◌*◌, ◌/◌, ◌%◌, ◌^◌, ◌≤◌, ◌<◌, ◌==◌, ltb, leb, ◌&&◌, if◌then◌else◌,
  bit_and, bit_xor, ◌≡◌, ◌≢◌, Bool-cases, refl, ap, ◌∙◌, arith, ◌⊎◌, inl, inr, length, replicate,
  get_or, set, length-set,
}
use libsmx.Base.Words.{Bytes, AreBytes}
use libsmx.Base.Bytes.{get_or-lt, set-AreBytes}
use libsmx.Base.Bits.{bit, bit-zero, bit-xor, and-lt, xor-lt}
use Prim.Native.Nat.{differ}
use libsmx.Base.Places.{lt_or_ge, bit-masked}
use libsmx.Sm4.Cipher.RoundTrip.{IsBlock}
use libsmx.Fpe.Fnr.{get_bit, xor_loop, xor_bits}
use libsmx.Fpe.Bits.{get_or-set, get_bit_place, zeros-IsBlock, get_or-zeros}

-- The exclusive or of the first `n` bits; the bits behind them are zero.
xor_loop-IsBlock :
    (count : ℕ) (out a b : Bytes) (i : ℕ)
    → IsBlock out
    → AreBytes a
    → AreBytes b
    → IsBlock (xor_loop count out a b i)
unfolding xor_loop
xor_loop-IsBlock zero out a b i h p q = h
xor_loop-IsBlock (suc count) out a b i (hl, hb) p q =
    let byte = xor-lt 8 _ _ (get_or-lt a i p) (get_or-lt b i q) in
    xor_loop-IsBlock count _ a b (i + 1) (length-set out i _ ∙ hl, set-AreBytes out i _ hb byte) p q

pub xor_bits-IsBlock : (a b : Bytes) (n : ℕ) → AreBytes a → AreBytes b → IsBlock (xor_bits a b n)
unfolding xor_bits
xor_bits-IsBlock a b n p q =
    let (hl, hb) = xor_loop-IsBlock (n / 8) (replicate 16 0) a b 0 zeros-IsBlock p q in
    let byte =
      and-lt 8 _ (255 * 2 ^ (8 - n % 8) % 256)
        (xor-lt 8 _ _ (get_or-lt a (n / 8) p) (get_or-lt b (n / 8) q)) in
    elim (Bool-cases (n % 8 == 0)) [
      | inl e ↦ rw e (hl, hb)
      | inr e ↦ rw e (length-set _ (n / 8) _ ∙ hl, set-AreBytes _ (n / 8) _ hb byte)
    ]

get_or-xor_loop :
    (count : ℕ) (out a b : Bytes) (i q : ℕ)
    → i + count ≤ length out
    → get_or (xor_loop count out a b i) q 0 ≡ (
        if leb i q && ltb q (i + count)
        then bit_xor (get_or a q 0) (get_or b q 0)
        else get_or out q 0)
unfolding xor_loop
get_or-xor_loop zero out a b i q h = ground arith
get_or-xor_loop (suc count) out a b i q h =
    let x = bit_xor (get_or a i 0) (get_or b i 0) in
    let rec =
      get_or-xor_loop count (set out i x) a b (i + 1) q (omega (arith, length-set out i x)) in
    let put = get_or-set out i q x (omega arith) in
    elim (Bool-cases (i == q)) [
      | inl e ↦
          let same : i ≡ q = ground (arith, e) in
          let byte = ap (λ (t : ℕ). bit_xor (get_or a t 0) (get_or b t 0)) same in
          ground (arith, rec, put, e, same, byte)
      | inr e ↦ ground (arith, rec, put, e)
    ]

module _ (a b : Bytes) where
  abbrev mixed : ℕ → ℕ
  mixed q = bit_xor (get_or a q 0) (get_or b q 0)

  bit-mixed : (j : ℕ) → bit (7 - j % 8) (mixed (j / 8)) ≡ differ (get_bit a j) (get_bit b j)
  bit-mixed j =
      rw (get_bit_place a j, get_bit_place b j)
        (bit-xor (7 - j % 8) (get_or a (j / 8) 0) (get_or b (j / 8) 0))

  xor_loop_item :
      (n q : ℕ)
      → n ≤ 128
      → get_or (xor_loop (n / 8) (replicate 16 0) a b 0) q 0
        ≡ (if ltb q (n / 8) then mixed q else 0)
  xor_loop_item n q h =
      let all = get_or-xor_loop (n / 8) (replicate 16 0) a b 0 q (omega arith) in
      ground (arith, all, get_or-zeros 16 q)

  -- What the bits of `out` are, by its item.
  item_mixed :
      (out : Bytes) (j : ℕ)
      → get_or out (j / 8) 0 ≡ mixed (j / 8)
      → get_bit out j ≡ differ (get_bit a j) (get_bit b j)
  item_mixed out j e = rw (get_bit_place out j, e) (bit-mixed j)

  item_zero : (out : Bytes) (j : ℕ) → get_or out (j / 8) 0 ≡ 0 → get_bit out j ≡ 0
  item_zero out j e = rw (get_bit_place out j, e) (bit-zero (7 - j % 8))

  -- Where the item is not the masked one, it is whole.
  item_whole :
      (out : Bytes) (n j : ℕ)
      → (j / 8 < n / 8) ⊎ ((n / 8 ≤ j / 8) × (n ≤ j))
      → get_or out (j / 8) 0 ≡ (if ltb (j / 8) (n / 8) then mixed (j / 8) else 0)
      → get_bit out j ≡ (if ltb j n then differ (get_bit a j) (get_bit b j) else 0)
  item_whole out n j (inl g) e = ground (arith, item_mixed out j (e ∙ ground arith), the_place)
    where
      the_place : j < n
      the_place = omega arith
  item_whole out n j (inr (g, k)) e = ground (arith, item_zero out j (e ∙ ground arith))

  item_masked :
      (out : Bytes) (n j : ℕ)
      → n / 8 ≡ j / 8
      → get_or out (j / 8) 0 ≡ bit_and (mixed (j / 8)) (255 * 2 ^ (8 - n % 8) % 256)
      → get_bit out j ≡ (if ltb j n then differ (get_bit a j) (get_bit b j) else 0)
  item_masked out n j s e =
      let m = bit-masked (7 - j % 8) (8 - n % 8) (mixed (j / 8)) (omega arith) in
      rw (get_bit_place out j, e, m, bit-mixed j)
        elim (lt_or_ge j n) [
          | inl g ↦ let k : 8 - n % 8 ≤ 7 - j % 8 = omega arith in ground (arith, g, k)
          | inr g ↦ let k : 7 - j % 8 < 8 - n % 8 = omega arith in ground (arith, g, k)
        ]

length-xor_loop :
    (count : ℕ) (out a b : Bytes) (i : ℕ) → length (xor_loop count out a b i) ≡ length out
unfolding xor_loop
length-xor_loop zero out a b i = refl
length-xor_loop (suc count) out a b i =
    length-xor_loop count (set out i _) a b (i + 1) ∙ length-set out i _

-- The item of bit `j` lies before the masked one, or bit `j` behind the first `n`.
not_masked :
    (n j : ℕ) → (n % 8 ≡ 0) ⊎ (n / 8 ≢ j / 8) → (j / 8 < n / 8) ⊎ ((n / 8 ≤ j / 8) × (n ≤ j))
not_masked n j c = elim (lt_or_ge (j / 8) (n / 8)) [
  | inl g ↦ inl g
  | inr g ↦ inr (g, elim c [ inl k ↦ omega arith | inr k ↦ omega arith ])
]

pub get_bit-xor_bits :
    (a b : Bytes) (n j : ℕ)
    → n ≤ 128
    → get_bit (xor_bits a b n) j ≡ (if ltb j n then differ (get_bit a j) (get_bit b j) else 0)
unfolding xor_bits
get_bit-xor_bits a b n j h =
    let full = n / 8 in
    let out = xor_loop full (replicate 16 0) a b 0 in
    let byte = bit_and (mixed a b full) (255 * 2 ^ (8 - n % 8) % 256) in
    let item = xor_loop_item a b n (j / 8) h in
    elim (Bool-cases (n % 8 == 0)) [
      | inl e ↦
          let k : n % 8 ≡ 0 = ground (arith, e) in
          rw e (item_whole a b out n j (not_masked n j (inl k)) item)
      | inr e ↦
          let k : n % 8 ≢ 0 = λ s. ground (arith, e, s) in
          let size : full < length out =
            omega (arith, k, length-xor_loop full (replicate 16 0) a b 0) in
          let put = get_or-set out full (j / 8) byte size in
          rw e elim (Bool-cases (full == j / 8)) [
            | inl s ↦
                let same : n / 8 ≡ j / 8 = ground (arith, s) in
                let mask = 255 * 2 ^ (8 - n % 8) % 256 in
                let moved = ap (λ (t : ℕ). bit_and (mixed a b t) mask) same in
                item_masked a b (set out full byte) n j same (put ∙ ground (arith, s, moved))
            | inr s ↦
                let other : n / 8 ≢ j / 8 = λ q. ground (arith, s, q) in
                item_whole a b (set out full byte) n j (not_masked n j (inr other))
                  (put ∙ ground (arith, s, item))
          ]
    ]
