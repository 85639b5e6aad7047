-- ===== src/Fpe/Halves.antt =====
-- src/fpe/fnr.rs: halves of the state, blocks with zeros behind their bits, are known by their bits.
use libsmx.Base.{
  ℕ, zero, suc, ◌+◌, ◌-◌, ◌*◌, ◌/◌, ◌%◌, ◌≤◌, ◌<◌, ◌≡◌, refl, sym, ap₂, ◌∙◌, arith, inl, inr, [],
  ◌∷◌, length, get_or,
}
use Prim.Native.Nat.{differ}
use libsmx.Base.Words.{Bytes, AreBytes}
use libsmx.Base.Bytes.{get_or-lt}
use libsmx.Base.Bits.{bit}
use libsmx.Base.Places.{lt_or_ge, byte_ext}
use libsmx.Sm4.Cipher.RoundTrip.{IsBlock}
use libsmx.Fpe.Fnr.{get_bit, clear_high_bits, xor_bits}
use libsmx.Fpe.Bits.{get_bit_place, get_bit-lt, clear_bits-IsBlock, get_bit-clear_high_bits}
use libsmx.Fpe.Xor.{xor_bits-IsBlock, get_bit-xor_bits}

-- Two blocks with the same bits are one.
items_ext :
    (xs ys : Bytes)
    → length xs ≡ length ys
    → ((i : ℕ) → i < length xs → get_or xs i 0 ≡ get_or ys i 0)
    → xs ≡ ys
items_ext [] [] h e = refl
items_ext [] (y ∷ ys) h e = absurd (omega arith)
items_ext (x ∷ xs) [] h e = absurd (omega arith)
items_ext (x ∷ xs) (y ∷ ys) h e =
    ap₂ ◌∷◌ (e 0 (omega arith)) (items_ext xs ys (omega arith) λ i k. e (suc i) (omega arith))

pub block_ext :
    (a b : Bytes) → IsBlock a → IsBlock b → ((j : ℕ) → j < 128 → get_bit a j ≡ get_bit b j) → a ≡ b
block_ext a b (al, ab) (bl, bb) e = items_ext a b (al ∙ sym bl) λ i k.
    byte_ext (get_or a i 0) (get_or b i 0) (get_or-lt a i ab) (get_or-lt b i bb)
      λ m g. same_digit i m (omega (arith, al, k)) g
  where
    same_digit : (i m : ℕ) → i < 16 → m < 8 → bit m (get_or a i 0) ≡ bit m (get_or b i 0)
    same_digit i m k g =
        let q : (8 * i + (7 - m)) / 8 ≡ i = omega arith in
        let r : 7 - (8 * i + (7 - m)) % 8 ≡ m = omega arith in
        let place : (x : Bytes) → get_bit x (8 * i + (7 - m)) ≡ bit m (get_or x i 0) = λ x.
          get_bit_place x (8 * i + (7 - m)) ∙ ap₂ (λ (s : ℕ) (t : ℕ). bit s (get_or x t 0)) r q in
        sym (place a) ∙ e (8 * i + (7 - m)) (omega arith) ∙ place b

-- A half of `n` bits: the bits behind them are zero.
abbrev pub IsHalf : ℕ → Bytes → Type 0
IsHalf n x = IsBlock x × ((j : ℕ) → j < 128 → n ≤ j → get_bit x j ≡ 0)

pub clear_high_bits-IsHalf : (n : ℕ) (x : Bytes) → n ≤ 128 → IsHalf n x → clear_high_bits x n ≡ x
unfolding clear_high_bits
clear_high_bits-IsHalf n x k (hb, hz) =
    block_ext (clear_high_bits x n) x (clear_bits-IsBlock (128 - n) x n hb) hb λ j g.
      elim (lt_or_ge j n) [
        | inl s ↦ ground (arith, get_bit-clear_high_bits x n j hb k g)
        | inr s ↦ ground (arith, get_bit-clear_high_bits x n j hb k g, hz j g s)
      ]

pub xor_bits-IsHalf :
    (n : ℕ) (x f : Bytes) → n ≤ 128 → IsHalf n x → AreBytes f → IsHalf n (xor_bits x f n)
xor_bits-IsHalf n x f k (hb, hz) h =
    (xor_bits-IsBlock x f n hb.1 h, λ j g s. ground (arith, get_bit-xor_bits x f n j k))

differ_twice : (x y : ℕ) → x < 2 → y < 2 → differ (differ x y) y ≡ x
differ_twice zero zero p q = refl
differ_twice zero (suc zero) p q = refl
differ_twice (suc zero) zero p q = refl
differ_twice (suc zero) (suc zero) p q = refl
differ_twice (suc (suc x)) y p q = absurd (omega arith)
differ_twice x (suc (suc y)) p q = absurd (omega arith)

pub xor_bits_twice :
    (n : ℕ) (x f : Bytes) → n ≤ 128 → IsHalf n x → AreBytes f → xor_bits (xor_bits x f n) f n ≡ x
xor_bits_twice n x f k (hb, hz) h =
    let once = xor_bits-IsBlock x f n hb.1 h in
    block_ext (xor_bits (xor_bits x f n) f n) x (xor_bits-IsBlock (xor_bits x f n) f n once.1 h) hb
      λ j g.
        let a = get_bit-xor_bits (xor_bits x f n) f n j k in
        let b = get_bit-xor_bits x f n j k in
        let c = differ_twice (get_bit x j) (get_bit f j) (get_bit-lt x j) (get_bit-lt f j) in
        a
        ∙ rw b
            (elim (lt_or_ge j n) [ inl s ↦ ground (arith, c) | inr s ↦ ground (arith, hz j g s) ])
