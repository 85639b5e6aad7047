-- ===== src/Fpe/Bits.antt =====
-- src/fpe/fnr.rs: what the bit operations of the network do to the single bits of a block.
use libsmx.Base.{
  ℕ, zero, suc, ◌+◌, ◌-◌, ◌*◌, ◌/◌, ◌%◌, ◌^◌, ◌≤◌, ◌<◌, ◌==◌, ltb, leb, ◌&&◌, if◌then◌else◌, ◌≡◌,
  ◌≢◌, Bool-cases, refl, sym, ap, ◌∙◌, arith, inl, inr, [], ◌∷◌, length, replicate, get_or, set,
  length-set,
}
use libsmx.Base.Words.{Bytes}
use libsmx.Base.Bytes.{get_or-lt, set-AreBytes}
use libsmx.Base.Bits.{bit, bit-zero, or-lt, and-lt}
use native.Mathlib.Nat.{pow-le-pow_right}
use libsmx.Base.Places.{lt_or_ge, shift-bit, bit-write}
use libsmx.Sm4.Cipher.RoundTrip.{IsBlock}
use libsmx.Fpe.Fnr.{get_bit, put_bit, set_bit, clear_bits, clear_high_bits, copy_bits}

-- An item of a list in which one is replaced.
pub get_or-set :
    (xs : Bytes) (i j v : ℕ)
    → i < length xs
    → get_or (set xs i v) j 0 ≡ (if i == j then v else get_or xs j 0)
get_or-set [] i j v h = absurd (omega arith)
get_or-set (x ∷ xs) zero zero v h = refl
get_or-set (x ∷ xs) zero (suc j) v h = ground arith
get_or-set (x ∷ xs) (suc i) zero v h = ground arith
get_or-set (x ∷ xs) (suc i) (suc j) v h = ground (arith, get_or-set xs i j v (omega arith))

pub get_bit_place : (buf : Bytes) (i : ℕ) → get_bit buf i ≡ bit (7 - i % 8) (get_or buf (i / 8) 0)
unfolding get_bit
get_bit_place buf i = shift-bit (7 - i % 8) (get_or buf (i / 8) 0)

pub get_bit-lt : (buf : Bytes) (i : ℕ) → get_bit buf i < 2
unfolding get_bit
get_bit-lt buf i = omega arith

pub length-set_bit : (buf : Bytes) (i v : ℕ) → length (set_bit buf i v) ≡ length buf
unfolding set_bit
length-set_bit buf i v = length-set buf (i / 8) _

put_bit-lt : (x b v : ℕ) → x < 256 → b < 8 → v < 2 → put_bit x b v < 256
unfolding put_bit
put_bit-lt x b v hx hb hv =
    let p : 2 ^ b ≤ 2 ^ 7 = pow-le-pow_right (omega arith) {j = 7} (omega arith) in
    let q : v * 2 ^ b < 256 = digit v hv p in or-lt 8 _ _ (and-lt 8 x (255 - 2 ^ b) hx) q
  where
    digit : (v : ℕ) → v < 2 → 2 ^ b ≤ 2 ^ 7 → v * 2 ^ b < 256
    digit zero h p = omega (arith, p)
    digit (suc zero) h p = omega (arith, p)
    digit (suc (suc v)) h p = absurd (omega arith)

pub set_bit-IsBlock : (buf : Bytes) (i v : ℕ) → IsBlock buf → v < 2 → IsBlock (set_bit buf i v)
unfolding set_bit
set_bit-IsBlock buf i v (hl, hb) hv = (
  length-set_bit buf i v ∙ hl,
  set-AreBytes buf (i / 8) _ hb
      (put_bit-lt _ (7 - i % 8) v (get_or-lt buf (i / 8) hb) (omega arith) hv),
)

-- A written bit is read back, and no other bit changes.
pub get_bit-set_bit :
    (buf : Bytes) (i j v : ℕ)
    → length buf ≡ 16
    → i < 128
    → v < 2
    → get_bit (set_bit buf i v) j ≡ (if i == j then v else get_bit buf j)
unfolding set_bit put_bit
get_bit-set_bit buf i j v hl hi hv =
    let x = get_or buf (i / 8) 0 in
    let w = put_bit x (7 - i % 8) v in
    let g = get_or-set buf (i / 8) (j / 8) w (omega arith) in
    let b = bit-write (7 - j % 8) (7 - i % 8) x v (omega arith) (omega arith) hv in
    rw (get_bit_place (set_bit buf i v) j, get_bit_place buf j, g)
      elim (Bool-cases (i / 8 == j / 8)) [
        | inl e ↦
            let same : i / 8 ≡ j / 8 = ground (arith, e) in
            let item : get_or buf (j / 8) 0 ≡ x = ap (λ (t : ℕ). get_or buf t 0) (sym same) in
            rw (e, item, b) (ground (arith, same))
        | inr e ↦
            let differ : i / 8 ≢ j / 8 = λ s. ground (arith, e, s) in
            rw e (ground (arith, e, differ))
      ]

pub zeros-IsBlock : IsBlock (replicate 16 0)
zeros-IsBlock = (refl, omega arith)

pub get_or-zeros : (n i : ℕ) → ◌≡◌ {A = ℕ} (get_or (replicate n 0) i 0) 0
get_or-zeros zero i = refl
get_or-zeros (suc n) zero = refl
get_or-zeros (suc n) (suc i) = get_or-zeros n i

pub get_bit-zeros : (j : ℕ) → get_bit (replicate 16 0) j ≡ 0
get_bit-zeros j =
    get_bit_place (replicate 16 0) j
    ∙ ap (bit (7 - j % 8)) (get_or-zeros 16 (j / 8))
    ∙ bit-zero (7 - j % 8)

-- Copied bits.
pub copy_bits-IsBlock :
    (count : ℕ) (buf : Bytes) (to : ℕ) (source : Bytes) (from : ℕ)
    → IsBlock buf
    → IsBlock (copy_bits count buf to source from)
unfolding copy_bits
copy_bits-IsBlock zero buf to source from h = h
copy_bits-IsBlock (suc count) buf to source from h =
    copy_bits-IsBlock count _ (to + 1) source (from + 1)
      (set_bit-IsBlock buf to _ h (get_bit-lt source from))

pub get_bit-copy_bits :
    (count : ℕ) (buf : Bytes) (to : ℕ) (source : Bytes) (from j : ℕ)
    → IsBlock buf
    → to + count ≤ 128
    → get_bit (copy_bits count buf to source from) j
      ≡ (if leb to j && ltb j (to + count) then get_bit source (from + (j - to)) else get_bit buf j)
unfolding copy_bits
get_bit-copy_bits zero buf to source from j h k = ground arith
get_bit-copy_bits (suc count) buf to source from j h k =
    let b = get_bit source from in
    let next = set_bit-IsBlock buf to b h (get_bit-lt source from) in
    let rec =
      get_bit-copy_bits count (set_bit buf to b) (to + 1) source (from + 1) j next (omega arith) in
    let put = get_bit-set_bit buf to j b h.0 (omega arith) (get_bit-lt source from) in
    elim (lt_or_ge to j) [
      | inl g ↦
          let e : from + 1 + (j - (to + 1)) ≡ from + (j - to) = omega arith in
          let same = ap (λ (t : ℕ). get_bit source t) e in ground (arith, rec, put, same)
      | inr g ↦
          let e : from + (j - to) ≡ from = omega arith in
          let same = ap (λ (t : ℕ). get_bit source t) e in ground (arith, rec, put, same)
    ]

-- Cleared bits.
pub clear_bits-IsBlock :
    (count : ℕ) (buf : Bytes) (i : ℕ) → IsBlock buf → IsBlock (clear_bits count buf i)
unfolding clear_bits
clear_bits-IsBlock zero buf i h = h
clear_bits-IsBlock (suc count) buf i h =
    clear_bits-IsBlock count _ (i + 1) (set_bit-IsBlock buf i 0 h (omega arith))

get_bit-clear_bits :
    (count : ℕ) (buf : Bytes) (i j : ℕ)
    → IsBlock buf
    → i + count ≤ 128
    → get_bit (clear_bits count buf i) j
      ≡ (if leb i j && ltb j (i + count) then 0 else get_bit buf j)
unfolding clear_bits
get_bit-clear_bits zero buf i j h k = ground arith
get_bit-clear_bits (suc count) buf i j h k =
    let next = set_bit-IsBlock buf i 0 h (omega arith) in
    let rec = get_bit-clear_bits count (set_bit buf i 0) (i + 1) j next (omega arith) in
    let put = get_bit-set_bit buf i j 0 h.0 (omega arith) (omega arith) in ground (arith, rec, put)

pub get_bit-clear_high_bits :
    (buf : Bytes) (n j : ℕ)
    → IsBlock buf
    → n ≤ 128
    → j < 128
    → get_bit (clear_high_bits buf n) j ≡ (if ltb j n then get_bit buf j else 0)
unfolding clear_high_bits
get_bit-clear_high_bits buf n j h k g =
    ground (arith, get_bit-clear_bits (128 - n) buf n j h (omega arith))
