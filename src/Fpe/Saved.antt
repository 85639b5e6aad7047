-- ===== src/Fpe/Saved.antt =====
-- src/fpe/mod.rs: the bits behind the first `num_bits` are kept, and the calls on a key undo each
-- other.
use libsmx.Base.{
  ℕ, zero, suc, ◌+◌, ◌-◌, ◌/◌, ◌%◌, ◌^◌, ◌≤◌, ◌<◌, ◌==◌, ltb, if◌then◌else◌, ◌≡◌, ◌≢◌, refl, sym,
  ap, ap₂, ◌∙◌, arith, inl, inr, [], ◌∷◌, ◌++◌, length, take, drop, replicate, get_or, set, copy_at,
  bit_and, bit_or, min, Bool-cases, true, false, length-set, length-drop, drop-ge, append-nil,
}
use libsmx.Base.Words.{Bytes}
use libsmx.Base.Bits.{bit, bit_cases, bit-and, bit-or}
use libsmx.Base.Places.{lt_or_ge, bit-ones, bit-lt}
use native.Mathlib.Nat.{pow-suc, div-div-eq-div-mul, div-le_self}
use libsmx.Fpe.Fnr.{get_bit}
use libsmx.Fpe.Key.{save_high_bits, restore_high_bits}
use libsmx.Fpe.Bits.{get_bit_place, get_bit-lt, get_or-set}

-- `data[n..].copy_from_slice(&other[n..])`, of two lists of the same length.
take-drop_item :
    (n i : ℕ) (xs ys : Bytes)
    → length xs ≡ length ys
    → get_or (take n xs ++ drop n ys) i 0 ≡ (if ltb i n then get_or xs i 0 else get_or ys i 0)
take-drop_item zero i xs ys h = ground arith
take-drop_item (suc n) i [] [] h = ground arith
take-drop_item (suc n) i [] (y ∷ ys) h = absurd (omega arith)
take-drop_item (suc n) i (x ∷ xs) [] h = absurd (omega arith)
take-drop_item (suc n) zero (x ∷ xs) (y ∷ ys) h = ground arith
take-drop_item (suc n) (suc i) (x ∷ xs) (y ∷ ys) h =
    ground (arith, take-drop_item n i xs ys (omega arith))

pub copy_at-tail :
    (n : ℕ) (xs ys : Bytes)
    → length xs ≡ length ys
    → n ≤ length xs
    → copy_at xs n (drop n ys) ≡ take n xs ++ drop n ys
copy_at-tail n xs ys h k =
    let past = drop-ge (n + length (drop n ys)) xs (omega (arith, length-drop n ys)) in
    ap (λ (t : Bytes). take n xs ++ (drop n ys ++ t)) past
    ∙ ap (λ (t : Bytes). take n xs ++ t) (append-nil (drop n ys))

-- A shift down.
bit-down : (i r x : ℕ) → bit i (x / 2 ^ r) ≡ bit (r + i) x
unfolding bit
bit-down i zero x = ap₂ bit (the_same i) (omega arith)
  where
    the_same : (j : ℕ) → j ≡ 0 + j
    the_same j = omega arith
bit-down i (suc r) x =
    let e : x / 2 ^ suc r ≡ x / 2 / 2 ^ r =
      ap (λ (t : ℕ). x / t) (omega (arith, pow-suc 2 r)) ∙ sym (div-div-eq-div-mul x 2 (2 ^ r)) in
    let f : suc r + i ≡ suc (r + i) = omega arith in rw (e, f) (bit-down i r (x / 2))

-- The mask `0xFF >> rem` has the digits below place `8 - rem`.
bit-low_mask : (i r : ℕ) → bit i (255 / 2 ^ r) ≡ (if ltb i (8 - r) then 1 else 0)
bit-low_mask i r = bit-down i r 255 ∙ elim (lt_or_ge (r + i) 8) [
  | inl g ↦ ground (arith, bit-ones 8 (r + i) g)
  | inr g ↦ ground (arith, bit-lt 8 (r + i) 255 (omega arith) g)
]

bit-not : (k i m : ℕ) → m < 2 ^ k → i < k → bit i (2 ^ k - 1 - m) ≡ 1 - bit i m
unfolding bit
bit-not zero i m h g = absurd (omega arith)
bit-not (suc k) zero m h g = omega (arith, pow-suc 2 k)
bit-not (suc k) (suc i) m h g =
    let e : (2 ^ suc k - 1 - m) / 2 ≡ 2 ^ k - 1 - m / 2 = omega (arith, pow-suc 2 k) in
    rw e (bit-not k i (m / 2) (omega (arith, pow-suc 2 k)) (omega arith))

-- The complement of that mask, within a byte.
bit-high_mask : (i r : ℕ) → i < 8 → bit i (255 - 255 / 2 ^ r) ≡ (if ltb i (8 - r) then 0 else 1)
bit-high_mask i r h =
    bit-not 8 i (255 / 2 ^ r) (omega (arith, div-le_self 255 (2 ^ r))) h
    ∙ rw (bit-low_mask i r) (ground arith)

-- What the masked write makes of the digits.
bit-merge :
    (i r x y : ℕ)
    → i < 8
    → bit i (bit_or (bit_and x (255 - 255 / 2 ^ r)) (bit_and y (255 / 2 ^ r)))
      ≡ (if ltb i (8 - r) then bit i y else bit i x)
bit-merge i r x y h =
    let m = 255 / 2 ^ r in
    rw
      (
        bit-or i (bit_and x (255 - m)) (bit_and y m),
        bit-and i x (255 - m),
        bit-and i y m,
        bit-high_mask i r h,
        bit-low_mask i r,
      )
      elim (bit_cases i x) [
        | inl e ↦ elim (bit_cases i y) [ inl g ↦ ground arith | inr g ↦ ground arith ]
        | inr e ↦ elim (bit_cases i y) [ inl g ↦ ground arith | inr g ↦ ground arith ]
      ]

-- The bits of a block whose items from `start` on are those of another.
joined_bit :
    (start : ℕ) (xs ys : Bytes) (j : ℕ)
    → length xs ≡ 16
    → length ys ≡ 16
    → start ≤ 16
    → get_bit (copy_at xs start (drop start ys)) j
      ≡ (if ltb (j / 8) start then get_bit xs j else get_bit ys j)
joined_bit start xs ys j hx hy k =
    let tail = copy_at-tail start xs ys (hx ∙ sym hy) (omega (arith, hx)) in
    let item = take-drop_item start (j / 8) xs ys (hx ∙ sym hy) in
    rw
      (
        tail,
        get_bit_place (take start xs ++ drop start ys) j,
        item,
        get_bit_place xs j,
        get_bit_place ys j,
      )
      (elim (lt_or_ge (j / 8) start) [ inl g ↦ ground (arith, g) | inr g ↦ ground (arith, g) ])

-- The bits of a block in which one item is replaced.
replaced_bit :
    (xs : Bytes) (i v j : ℕ)
    → i < length xs
    → get_bit (set xs i v) j ≡ (if i == j / 8 then bit (7 - j % 8) v else get_bit xs j)
replaced_bit xs i v j h =
    rw (get_bit_place (set xs i v) j, get_or-set xs i (j / 8) v h, get_bit_place xs j)
      (elim (Bool-cases (i == j / 8)) [ inl e ↦ rw e refl | inr e ↦ rw e refl ])

item_bit : (xs : Bytes) (i j : ℕ) → i ≡ j / 8 → bit (7 - j % 8) (get_or xs i 0) ≡ get_bit xs j
item_bit xs i j e = ap (λ (t : ℕ). bit (7 - j % 8) (get_or xs t 0)) e ∙ sym (get_bit_place xs j)

pub get_bit-restore_high_bits :
    (buf saved : Bytes) (n j : ℕ)
    → length buf ≡ 16
    → length saved ≡ 16
    → n ≤ 128
    → get_bit (restore_high_bits buf saved n) j
      ≡ (if ltb j n then get_bit buf j else get_bit saved j)
unfolding restore_high_bits
get_bit-restore_high_bits buf saved n j hb hs k = elim (Bool-cases (n % 8 == 0)) [
  | inl e ↦
      let z : n % 8 ≡ 0 = ground (arith, e) in
      let t : ltb 0 (n % 8) ≡ false = ground (arith, z) in
      rw (e, t) (joined_bit (n / 8 + 0) buf saved j hb hs (omega arith) ∙ whole z)
  | inr e ↦
      let z : n % 8 ≢ 0 = λ s. ground (arith, e, s) in
      let t : ltb 0 (n % 8) ≡ true = ground (arith, z) in
      let u : ltb (n / 8) 16 ≡ true = ground (arith, z, k) in
      rw (e, t, u)
        (joined_bit (n / 8 + 1) _ saved j (length-set buf (n / 8) _ ∙ hb) hs (omega (arith, z, k))
          ∙ merged z)
]
  where
    whole :
        n % 8 ≡ 0
        → (if ltb (j / 8) (n / 8 + 0) then get_bit buf j else get_bit saved j)
          ≡ (if ltb j n then get_bit buf j else get_bit saved j)
    whole z = elim (lt_or_ge j n) [
      | inl g ↦ let q : j / 8 < n / 8 + 0 = omega arith in ground (arith, g, q)
      | inr g ↦ let q : n / 8 + 0 ≤ j / 8 = omega arith in ground (arith, g, q)
    ]

    both : ℕ
    both =
        bit_or (bit_and (get_or buf (n / 8) 0) (255 - 255 / 2 ^ (n % 8)))
          (bit_and (get_or saved (n / 8) 0) (255 / 2 ^ (n % 8)))

    merged :
        n % 8 ≢ 0
        → (if ltb (j / 8) (n / 8 + 1) then get_bit (set buf (n / 8) both) j else get_bit saved j)
          ≡ (if ltb j n then get_bit buf j else get_bit saved j)
    merged z =
        let full = n / 8 in
        let size : full < length buf = omega (arith, z, k, hb) in
        let put = replaced_bit buf full both j size in
        elim (Bool-cases (full == j / 8)) [
          | inl e ↦
              let same : n / 8 ≡ j / 8 = ground (arith, e) in
              let p : j / 8 < full + 1 = omega (arith, same) in
              let m =
                bit-merge (7 - j % 8) (n % 8) (get_or buf full 0) (get_or saved full 0)
                  (omega arith) in
              let x = item_bit buf full j same in
              let y = item_bit saved full j same in
              elim (lt_or_ge j n) [
                | inl g ↦
                    let q : 8 - n % 8 ≤ 7 - j % 8 = omega arith in
                    ground (arith, put, e, m, x, g, p, q)
                | inr g ↦
                    let q : 7 - j % 8 < 8 - n % 8 = omega arith in
                    ground (arith, put, e, m, y, g, p, q)
              ]
          | inr e ↦
              let other : n / 8 ≢ j / 8 = λ s. ground (arith, e, s) in
              elim (lt_or_ge j n) [
                | inl g ↦ let q : j / 8 < full + 1 = omega arith in ground (arith, put, e, g, q)
                | inr g ↦ let q : full + 1 ≤ j / 8 = omega (arith, other) in ground (arith, e, g, q)
              ]
        ]

pub get_bit-save_high_bits :
    (buf : Bytes) (n j : ℕ)
    → length buf ≡ 16
    → n ≤ 128
    → n ≤ j
    → get_bit (save_high_bits buf n) j ≡ get_bit buf j
unfolding save_high_bits
get_bit-save_high_bits buf n j hb k g = elim (Bool-cases (n % 8 == 0)) [
  | inl e ↦
      let z : n % 8 ≡ 0 = ground (arith, e) in
      let t : ltb 0 (n % 8) ≡ false = ground (arith, z) in
      let q : n / 8 + 0 ≤ j / 8 = omega arith in
      rw (e, t)
        (joined_bit (n / 8 + 0) (replicate 16 0) buf j refl hb (omega arith) ∙ ground (arith, q))
  | inr e ↦
      let z : n % 8 ≢ 0 = λ s. ground (arith, e, s) in
      let t : ltb 0 (n % 8) ≡ true = ground (arith, z) in
      let u : ltb (n / 8) 16 ≡ true = ground (arith, z, k) in
      rw (e, t, u)
        (joined_bit (n / 8 + 1) _ buf j (length-set (replicate 16 0) (n / 8) _) hb
            (omega (arith, z, k))
          ∙ kept z)
]
  where
    low : ℕ
    low = bit_and (get_or buf (n / 8) 0) (255 / 2 ^ (n % 8))

    kept :
        n % 8 ≢ 0
        → (if ltb (j / 8) (n / 8 + 1)
            then get_bit (set (replicate 16 0) (n / 8) low) j
            else get_bit buf j)
          ≡ get_bit buf j
    kept z = elim (Bool-cases (n / 8 == j / 8)) [
      | inl e ↦
          let same : n / 8 ≡ j / 8 = ground (arith, e) in
          let p : j / 8 < n / 8 + 1 = omega (arith, same) in
          let put = replaced_bit (replicate 16 0) (n / 8) low j (omega (arith, z, k)) in
          let q : 7 - j % 8 < 8 - n % 8 = omega arith in
          let digit = bit-and (7 - j % 8) (get_or buf (n / 8) 0) (255 / 2 ^ (n % 8)) in
          let mask = bit-low_mask (7 - j % 8) (n % 8) in
          let x = item_bit buf (n / 8) j same in
          let one : min (get_bit buf j) 1 ≡ get_bit buf j = omega (arith, get_bit-lt buf j) in
          ground (arith, put, e, digit, mask, x, p, q, one)
      | inr e ↦
          let other : n / 8 ≢ j / 8 = λ s. ground (arith, e, s) in
          let q : n / 8 + 1 ≤ j / 8 = omega (arith, other) in ground (arith, q)
    ]
