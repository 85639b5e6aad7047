-- ===== src/Sm4/Cipher/Lanes.antt =====
-- The bit-sliced S-box is four S-boxes side by side (src/sm4/cipher.rs, `tau` and `sbox_ct`): each
-- gate acts on every digit of its planes alone.
use Prim.Native.Nat.{differ, max}
use libsmx.Base.{
  ℕ, ◌*◌, ◌/◌, ◌%◌, ◌^◌, min, ◌≡◌, refl, ap, ap₂, ◌∙◌, map, inl, inr, ◌⊎◌, bit_and, bit_or, bit_xor,
  [], ◌∷◌, arith,
}
use libsmx.Base.Bits.{bit, bit_cases, bit-xor, bit-and, bit-or, and_mask}
use libsmx.Base.Words.{to_be_bytes, word_of_be}
use libsmx.Sm4.Cipher.{tau, pack, unpack}
use libsmx.Sm4.Cipher.Sbox.{
  Planes, Linear, Top, Middle, Bottom, input_layer, top_layer, middle_layer, bottom_layer,
  output_layer, sbox_circuit, sbox_ct, bit_at, join_bits,
}

abbrev IsDigit : ℕ → Type 0
IsDigit x = (x ≡ 0) ⊎ (x ≡ 1)

digit_xor : (x y : ℕ) → IsDigit x → IsDigit y → differ x y ≡ bit_xor x y
digit_xor x y (inl p) (inl q) = rw (p, q)
digit_xor x y (inl p) (inr q) = rw (p, q)
digit_xor x y (inr p) (inl q) = rw (p, q)
digit_xor x y (inr p) (inr q) = rw (p, q)

digit_and : (x y : ℕ) → IsDigit x → IsDigit y → min x y ≡ bit_and x y
digit_and x y (inl p) (inl q) = rw (p, q)
digit_and x y (inl p) (inr q) = rw (p, q)
digit_and x y (inr p) (inl q) = rw (p, q)
digit_and x y (inr p) (inr q) = rw (p, q)

digit_or : (x y : ℕ) → IsDigit x → IsDigit y → max x y ≡ bit_or x y
digit_or x y (inl p) (inl q) = rw (p, q)
digit_or x y (inl p) (inr q) = rw (p, q)
digit_or x y (inr p) (inl q) = rw (p, q)
digit_or x y (inr p) (inr q) = rw (p, q)

lane-xor : (j a b : ℕ) → bit j (bit_xor a b) ≡ bit_xor (bit j a) (bit j b)
lane-xor j a b = bit-xor j a b ∙ digit_xor _ _ (bit_cases j a) (bit_cases j b)

lane-and : (j a b : ℕ) → bit j (bit_and a b) ≡ bit_and (bit j a) (bit j b)
lane-and j a b = bit-and j a b ∙ digit_and _ _ (bit_cases j a) (bit_cases j b)

lane-or : (j a b : ℕ) → bit j (bit_or a b) ≡ bit_or (bit j a) (bit j b)
lane-or j a b = bit-or j a b ∙ digit_or _ _ (bit_cases j a) (bit_cases j b)

ruleset lanes = (lane-xor, lane-and, lane-or)

-- Digit `j` of every plane.
abbrev planes_at : ℕ → Planes → Planes
planes_at j x = record {
  b0 = bit j x.b0;
  b1 = bit j x.b1;
  b2 = bit j x.b2;
  b3 = bit j x.b3;
  b4 = bit j x.b4;
  b5 = bit j x.b5;
  b6 = bit j x.b6;
  b7 = bit j x.b7;
}

abbrev linear_at : ℕ → Linear → Linear
linear_at j x = record {
  g0 = bit j x.g0;
  g1 = bit j x.g1;
  g2 = bit j x.g2;
  g3 = bit j x.g3;
  g4 = bit j x.g4;
  g5 = bit j x.g5;
  g6 = bit j x.g6;
  g7 = bit j x.g7;
  m0 = bit j x.m0;
  m1 = bit j x.m1;
  m2 = bit j x.m2;
  m3 = bit j x.m3;
  m4 = bit j x.m4;
  m5 = bit j x.m5;
  m6 = bit j x.m6;
  m7 = bit j x.m7;
  m8 = bit j x.m8;
  m9 = bit j x.m9;
}

abbrev top_at : ℕ → Top → Top
top_at j x = record { p0 = bit j x.p0; p1 = bit j x.p1; p2 = bit j x.p2; p3 = bit j x.p3 }

abbrev middle_at : ℕ → Middle → Middle
middle_at j x = record { l0 = bit j x.l0; l1 = bit j x.l1; l2 = bit j x.l2; l3 = bit j x.l3 }

abbrev bottom_at : ℕ → Bottom → Bottom
bottom_at j x = record {
  r0 = bit j x.r0;
  r1 = bit j x.r1;
  r2 = bit j x.r2;
  r3 = bit j x.r3;
  r4 = bit j x.r4;
  r5 = bit j x.r5;
  r6 = bit j x.r6;
  r7 = bit j x.r7;
  r8 = bit j x.r8;
  r9 = bit j x.r9;
  r10 = bit j x.r10;
  r11 = bit j x.r11;
}

input_layer-at :
    (j one : ℕ) (x : Planes)
    → linear_at j (input_layer one x) ≡ input_layer (bit j one) (planes_at j x)
unfolding input_layer
input_layer-at j one x = simp lanes

top_layer-at : (j : ℕ) (x : Linear) → top_at j (top_layer x) ≡ top_layer (linear_at j x)
unfolding top_layer
top_layer-at j x = simp lanes

middle_layer-at : (j : ℕ) (x : Top) → middle_at j (middle_layer x) ≡ middle_layer (top_at j x)
unfolding middle_layer
middle_layer-at j x = simp lanes

bottom_layer-at :
    (j : ℕ) (x : Linear) (y : Middle)
    → bottom_at j (bottom_layer x y) ≡ bottom_layer (linear_at j x) (middle_at j y)
unfolding bottom_layer
bottom_layer-at j x y = simp lanes

output_layer-at :
    (j one : ℕ) (x : Bottom)
    → planes_at j (output_layer one x) ≡ output_layer (bit j one) (bottom_at j x)
unfolding output_layer
output_layer-at j one x = simp lanes

sbox_circuit-at :
    (j one : ℕ) (x : Planes)
    → planes_at j (sbox_circuit one x) ≡ sbox_circuit (bit j one) (planes_at j x)
unfolding sbox_circuit
sbox_circuit-at j one x =
    let y = input_layer one x in
    let e = input_layer-at j one x in
    output_layer-at j one (bottom_layer y (middle_layer (top_layer y)))
    ∙ ap (output_layer (bit j one)) (
        bottom_layer-at j y (middle_layer (top_layer y))
        ∙ ap₂ bottom_layer e
            (middle_layer-at j (top_layer y) ∙ ap middle_layer (top_layer-at j y ∙ ap top_layer e)))

abbrev join_planes : Planes → ℕ
join_planes y = join_bits y.b0 y.b1 y.b2 y.b3 y.b4 y.b5 y.b6 y.b7

-- The bits of one byte, as planes of one digit.
abbrev bits_of : ℕ → Planes
bits_of x = record {
  b0 = bit_at x 0;
  b1 = bit_at x 1;
  b2 = bit_at x 2;
  b3 = bit_at x 3;
  b4 = bit_at x 4;
  b5 = bit_at x 5;
  b6 = bit_at x 6;
  b7 = bit_at x 7;
}

sbox_ct_lem : (x : ℕ) → join_planes (sbox_circuit 1 (bits_of x)) ≡ sbox_ct x
unfolding sbox_ct
sbox_ct_lem x = let e : x / 2 ^ 0 ≡ x = omega arith in rw e refl

bit_at-IsDigit : (x i : ℕ) → IsDigit (bit_at x i)
bit_at-IsDigit x i = omega (arith, and_mask 1 (x / 2 ^ i))

-- Four digits side by side, and each of them again.
abbrev side_by_side : ℕ → ℕ → ℕ → ℕ → ℕ
side_by_side w x y z = bit_or (bit_or (bit_or w (x * 2)) (y * 4)) (z * 8)

four_digits :
    (w x y z : ℕ)
    → IsDigit w
    → IsDigit x
    → IsDigit y
    → IsDigit z
    → (bit 0 (side_by_side w x y z) ≡ w)
      × (bit 1 (side_by_side w x y z) ≡ x)
      × (bit 2 (side_by_side w x y z) ≡ y)
      × (bit 3 (side_by_side w x y z) ≡ z)
unfolding bit
four_digits w x y z (inl p) (inl q) (inl r) (inl t) = rw (p, q, r, t) (refl, refl, refl, refl)
four_digits w x y z (inl p) (inl q) (inl r) (inr t) = rw (p, q, r, t) (refl, refl, refl, refl)
four_digits w x y z (inl p) (inl q) (inr r) (inl t) = rw (p, q, r, t) (refl, refl, refl, refl)
four_digits w x y z (inl p) (inl q) (inr r) (inr t) = rw (p, q, r, t) (refl, refl, refl, refl)
four_digits w x y z (inl p) (inr q) (inl r) (inl t) = rw (p, q, r, t) (refl, refl, refl, refl)
four_digits w x y z (inl p) (inr q) (inl r) (inr t) = rw (p, q, r, t) (refl, refl, refl, refl)
four_digits w x y z (inl p) (inr q) (inr r) (inl t) = rw (p, q, r, t) (refl, refl, refl, refl)
four_digits w x y z (inl p) (inr q) (inr r) (inr t) = rw (p, q, r, t) (refl, refl, refl, refl)
four_digits w x y z (inr p) (inl q) (inl r) (inl t) = rw (p, q, r, t) (refl, refl, refl, refl)
four_digits w x y z (inr p) (inl q) (inl r) (inr t) = rw (p, q, r, t) (refl, refl, refl, refl)
four_digits w x y z (inr p) (inl q) (inr r) (inl t) = rw (p, q, r, t) (refl, refl, refl, refl)
four_digits w x y z (inr p) (inl q) (inr r) (inr t) = rw (p, q, r, t) (refl, refl, refl, refl)
four_digits w x y z (inr p) (inr q) (inl r) (inl t) = rw (p, q, r, t) (refl, refl, refl, refl)
four_digits w x y z (inr p) (inr q) (inl r) (inr t) = rw (p, q, r, t) (refl, refl, refl, refl)
four_digits w x y z (inr p) (inr q) (inr r) (inl t) = rw (p, q, r, t) (refl, refl, refl, refl)
four_digits w x y z (inr p) (inr q) (inr r) (inr t) = rw (p, q, r, t) (refl, refl, refl, refl)

-- What lane `j` of the packed planes holds, and what `unpack` reads of lane `j`.
module _ (a b c d : ℕ) where
  abbrev packed : Planes
  packed = record {
    b0 = pack (a ∷ b ∷ c ∷ d ∷ []) 0;
    b1 = pack (a ∷ b ∷ c ∷ d ∷ []) 1;
    b2 = pack (a ∷ b ∷ c ∷ d ∷ []) 2;
    b3 = pack (a ∷ b ∷ c ∷ d ∷ []) 3;
    b4 = pack (a ∷ b ∷ c ∷ d ∷ []) 4;
    b5 = pack (a ∷ b ∷ c ∷ d ∷ []) 5;
    b6 = pack (a ∷ b ∷ c ∷ d ∷ []) 6;
    b7 = pack (a ∷ b ∷ c ∷ d ∷ []) 7;
  }

  digits :
      (i : ℕ)
      → (bit 0 (pack (a ∷ b ∷ c ∷ d ∷ []) i) ≡ bit_at a i)
        × (bit 1 (pack (a ∷ b ∷ c ∷ d ∷ []) i) ≡ bit_at b i)
        × (bit 2 (pack (a ∷ b ∷ c ∷ d ∷ []) i) ≡ bit_at c i)
        × (bit 3 (pack (a ∷ b ∷ c ∷ d ∷ []) i) ≡ bit_at d i)
  digits i =
      four_digits (bit_at a i) (bit_at b i) (bit_at c i) (bit_at d i) (bit_at-IsDigit a i)
        (bit_at-IsDigit b i) (bit_at-IsDigit c i) (bit_at-IsDigit d i)

  lane_a : planes_at 0 packed ≡ bits_of a
  lane_a = λ i. record {
    b0 = (digits 0).0 i;
    b1 = (digits 1).0 i;
    b2 = (digits 2).0 i;
    b3 = (digits 3).0 i;
    b4 = (digits 4).0 i;
    b5 = (digits 5).0 i;
    b6 = (digits 6).0 i;
    b7 = (digits 7).0 i;
  }

  lane_b : planes_at 1 packed ≡ bits_of b
  lane_b = λ i. record {
    b0 = (digits 0).1 i;
    b1 = (digits 1).1 i;
    b2 = (digits 2).1 i;
    b3 = (digits 3).1 i;
    b4 = (digits 4).1 i;
    b5 = (digits 5).1 i;
    b6 = (digits 6).1 i;
    b7 = (digits 7).1 i;
  }

  lane_c : planes_at 2 packed ≡ bits_of c
  lane_c = λ i. record {
    b0 = (digits 0).2 i;
    b1 = (digits 1).2 i;
    b2 = (digits 2).2 i;
    b3 = (digits 3).2 i;
    b4 = (digits 4).2 i;
    b5 = (digits 5).2 i;
    b6 = (digits 6).2 i;
    b7 = (digits 7).2 i;
  }

  lane_d : planes_at 3 packed ≡ bits_of d
  lane_d = λ i. record {
    b0 = (digits 0).3 i;
    b1 = (digits 1).3 i;
    b2 = (digits 2).3 i;
    b3 = (digits 3).3 i;
    b4 = (digits 4).3 i;
    b5 = (digits 5).3 i;
    b6 = (digits 6).3 i;
    b7 = (digits 7).3 i;
  }

-- Reading digit `j` of every plane, where the shift and mask of the code give that digit.
unpack_lem :
    (y : Planes) (j : ℕ)
    → ((v : ℕ) → bit_at v j ≡ bit j v)
    → unpack y j ≡ join_planes (planes_at j y)
unpack_lem y j e = rw (e y.b0, e y.b1, e y.b2, e y.b3, e y.b4, e y.b5, e y.b6, e y.b7) refl

lane_sbox :
    (y : Planes) (j x : ℕ)
    → ((v : ℕ) → bit_at v j ≡ bit j v)
    → bit j 0xf ≡ 1
    → planes_at j y ≡ bits_of x
    → unpack (sbox_circuit 0xf y) j ≡ sbox_ct x
lane_sbox y j x e one lane =
    unpack_lem (sbox_circuit 0xf y) j e
    ∙ ap join_planes (sbox_circuit-at j 0xf y ∙ ap₂ sbox_circuit one lane)
    ∙ sbox_ct_lem x

digit_at : (j : ℕ) → (j ≡ 0) ⊎ ((j ≡ 1) ⊎ ((j ≡ 2) ⊎ (j ≡ 3))) → (v : ℕ) → bit_at v j ≡ bit j v
unfolding bit
digit_at j (inl p) v = rw p (omega (arith, and_mask 1 (v / 2 ^ 0)))
digit_at j (inr (inl p)) v = rw p (omega (arith, and_mask 1 (v / 2 ^ 1)))
digit_at j (inr (inr (inl p))) v = rw p (omega (arith, and_mask 1 (v / 2 ^ 2)))
digit_at j (inr (inr (inr p))) v = rw p (omega (arith, and_mask 1 (v / 2 ^ 3)))

-- The bit-sliced substitution is the byte S-box applied to each of the four bytes of the word.
pub tau-eq-sbox_ct : (a : ℕ) → tau a ≡ word_of_be (map sbox_ct (to_be_bytes 4 a))
unfolding tau to_be_bytes bit
tau-eq-sbox_ct a =
    let b0 = a / 256 / 256 / 256 % 256 in
    let b1 = a / 256 / 256 % 256 in
    let b2 = a / 256 % 256 in
    let b3 = a % 256 in
    let y = packed b0 b1 b2 b3 in
    let e0 = lane_sbox y 0 b0 (digit_at 0 (inl refl)) refl (lane_a b0 b1 b2 b3) in
    let e1 = lane_sbox y 1 b1 (digit_at 1 (inr (inl refl))) refl (lane_b b0 b1 b2 b3) in
    let e2 = lane_sbox y 2 b2 (digit_at 2 (inr (inr (inl refl)))) refl (lane_c b0 b1 b2 b3) in
    let e3 = lane_sbox y 3 b3 (digit_at 3 (inr (inr (inr refl)))) refl (lane_d b0 b1 b2 b3) in
    λ i. word_of_be (e0 i ∷ e1 i ∷ e2 i ∷ e3 i ∷ [])
