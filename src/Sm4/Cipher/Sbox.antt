-- ===== src/Sm4/Cipher/Sbox.antt =====
-- src/sm4/cipher.rs: the S-box as a Boolean circuit, on single bits (`sbox_ct`) and on four bytes at
-- once (`tau`, whose planes hold one bit of each byte). The two functions have the same gates, and
-- NOT is `one ^ x` with `one` = 1 in `sbox_ct` and 0xF in `tau`; so the circuit is written once, in
-- the five layers that the comments of the code name, with `one` as an argument.
use libsmx.Base.{ℕ, ◌*◌, ◌/◌, ◌^◌, bit_and, bit_or, bit_xor}

-- The eight bit planes of the input or the output, lowest first.
pub record Planes : Type 0 where
  pub b0 : ℕ
  pub b1 : ℕ
  pub b2 : ℕ
  pub b3 : ℕ
  pub b4 : ℕ
  pub b5 : ℕ
  pub b6 : ℕ
  pub b7 : ℕ

-- What the input layer hands on.
pub record Linear : Type 0 where
  pub g0 : ℕ
  pub g1 : ℕ
  pub g2 : ℕ
  pub g3 : ℕ
  pub g4 : ℕ
  pub g5 : ℕ
  pub g6 : ℕ
  pub g7 : ℕ
  pub m0 : ℕ
  pub m1 : ℕ
  pub m2 : ℕ
  pub m3 : ℕ
  pub m4 : ℕ
  pub m5 : ℕ
  pub m6 : ℕ
  pub m7 : ℕ
  pub m8 : ℕ
  pub m9 : ℕ

pub record Top : Type 0 where
  pub p0 : ℕ
  pub p1 : ℕ
  pub p2 : ℕ
  pub p3 : ℕ

pub record Middle : Type 0 where
  pub l0 : ℕ
  pub l1 : ℕ
  pub l2 : ℕ
  pub l3 : ℕ

pub record Bottom : Type 0 where
  pub r0 : ℕ
  pub r1 : ℕ
  pub r2 : ℕ
  pub r3 : ℕ
  pub r4 : ℕ
  pub r5 : ℕ
  pub r6 : ℕ
  pub r7 : ℕ
  pub r8 : ℕ
  pub r9 : ℕ
  pub r10 : ℕ
  pub r11 : ℕ

unfoldable pub input_layer : ℕ → Planes → Linear
input_layer one x =
    let t1 = bit_xor b7 b5 in
    let t2 = bit_xor one (bit_xor b5 b1) in
    let g5 = bit_xor one b0 in
    let t3 = bit_xor one (bit_xor b0 t2) in
    let t4 = bit_xor b6 b2 in
    let t5 = bit_xor b3 t3 in
    let t6 = bit_xor b4 t1 in
    let t7 = bit_xor b1 t5 in
    let t8 = bit_xor b1 t4 in
    let t9 = bit_xor t6 t8 in
    let t10 = bit_xor t6 t7 in
    let t11 = bit_xor one (bit_xor b3 t1) in
    let t12 = bit_xor one (bit_xor b6 t9) in
    let g0 = t10 in
    let g1 = t7 in
    let g2 = bit_xor t4 t10 in
    let g3 = t5 in
    let g4 = t2 in
    let g6 = bit_xor t11 t2 in
    let g7 = bit_xor t12 (bit_xor t11 t2) in
    let m0 = t6 in
    let m1 = t3 in
    let m2 = t8 in
    let m3 = bit_xor t3 t12 in
    let m4 = t4 in
    let m5 = t11 in
    let m6 = b1 in
    let m7 = bit_xor t11 m3 in
    let m8 = t9 in
    let m9 = t12 in
    record {
      g0 = g0;
      g1 = g1;
      g2 = g2;
      g3 = g3;
      g4 = g4;
      g5 = g5;
      g6 = g6;
      g7 = g7;
      m0 = m0;
      m1 = m1;
      m2 = m2;
      m3 = m3;
      m4 = m4;
      m5 = m5;
      m6 = m6;
      m7 = m7;
      m8 = m8;
      m9 = m9;
    }
  where
    open x use {b0, b1, b2, b3, b4, b5, b6, b7}

unfoldable pub top_layer : Linear → Top
top_layer x =
    let t2t = bit_and m0 m1 in
    let t3t = bit_and g0 g4 in
    let t4t = bit_and g3 g7 in
    let t7t = bit_or g3 g7 in
    let t11t = bit_and m4 m5 in
    let t10t = bit_and m3 m2 in
    let t12t = bit_or m3 m2 in
    let t6t = bit_or g6 g2 in
    let t9t = bit_or m6 m7 in
    let t5t = bit_and m8 m9 in
    let t8t = bit_or m8 m9 in
    let t14t = bit_xor t3t t2t in
    let t16t = bit_xor t5t t14t in
    let t20t = bit_xor t16t t7t in
    let t17t = bit_xor t9t t10t in
    let t18t = bit_xor t11t t12t in
    let p2 = bit_xor t20t t18t in
    let p0 = bit_xor t6t t16t in
    let t1t = bit_and g5 g1 in
    let t13t = bit_xor t1t t2t in
    let t15t = bit_xor t13t t4t in
    let p3 = bit_xor (bit_xor t6t t15t) t17t in
    let p1 = bit_xor t8t t15t in record { p0 = p0; p1 = p1; p2 = p2; p3 = p3 }
  where
    open x use {g0, g1, g2, g3, g4, g5, g6, g7, m0, m1, m2, m3, m4, m5, m6, m7, m8, m9}

unfoldable pub middle_layer : Top → Middle
middle_layer x =
    let t0m = bit_and p1 p2 in
    let t1m = bit_and p3 p0 in
    let t2m = bit_and p0 p2 in
    let t3m = bit_and p1 p3 in
    let t4m = bit_and t0m t2m in
    let t5m = bit_xor t1m t3m in
    let t6m = bit_or t5m p0 in
    let t7m = bit_or t2m p3 in
    let l3 = bit_xor t4m t6m in
    let t9m = bit_xor t7m t3m in
    let l0 = bit_xor t0m t9m in
    let t11m = bit_or p2 t5m in
    let l1 = bit_xor t11m t1m in
    let t12m = bit_or p1 t2m in
    let l2 = bit_xor t12m t5m in record { l0 = l0; l1 = l1; l2 = l2; l3 = l3 }
  where
    open x use {p0, p1, p2, p3}

unfoldable pub bottom_layer : Linear → Middle → Bottom
bottom_layer x y =
    let k4 = bit_xor l2 l3 in
    let k3 = bit_xor l1 l3 in
    let k2 = bit_xor l0 l2 in
    let k0 = bit_xor l0 l1 in
    let k1 = bit_xor k2 k3 in
    let e0 = bit_and m1 k0 in
    let e1 = bit_and g5 l1 in
    let r0 = bit_xor e0 e1 in
    let e2 = bit_and g4 l0 in
    let r1 = bit_xor e2 e1 in
    let e3 = bit_and m7 k3 in
    let e4 = bit_and m5 k2 in
    let r2 = bit_xor e3 e4 in
    let e5 = bit_and m3 k1 in
    let r3 = bit_xor e5 e4 in
    let e6 = bit_and m9 k4 in
    let e7 = bit_and g7 l3 in
    let r4 = bit_xor e6 e7 in
    let e8 = bit_and g6 l2 in
    let r5 = bit_xor e8 e7 in
    let e9 = bit_and m0 k0 in
    let e10 = bit_and g1 l1 in
    let r6 = bit_xor e9 e10 in
    let e11 = bit_and g0 l0 in
    let r7 = bit_xor e11 e10 in
    let e12 = bit_and m6 k3 in
    let e13 = bit_and m4 k2 in
    let r8 = bit_xor e12 e13 in
    let e14 = bit_and m2 k1 in
    let r9 = bit_xor e14 e13 in
    let e15 = bit_and m8 k4 in
    let e16 = bit_and g3 l3 in
    let r10 = bit_xor e15 e16 in
    let e17 = bit_and g2 l2 in
    let r11 = bit_xor e17 e16 in
    record {
      r0 = r0;
      r1 = r1;
      r2 = r2;
      r3 = r3;
      r4 = r4;
      r5 = r5;
      r6 = r6;
      r7 = r7;
      r8 = r8;
      r9 = r9;
      r10 = r10;
      r11 = r11;
    }
  where
    open x use {g0, g1, g2, g3, g4, g5, g6, g7, m0, m1, m2, m3, m4, m5, m6, m7, m8, m9}
    open y use {l0, l1, l2, l3}

unfoldable pub output_layer : ℕ → Bottom → Planes
output_layer one x =
    let t1o = bit_xor r7 r9 in
    let t2o = bit_xor r1 t1o in
    let t3o = bit_xor r3 t2o in
    let t4o = bit_xor r5 r3 in
    let t5o = bit_xor r4 t4o in
    let t6o = bit_xor r0 r4 in
    let t7o = bit_xor r11 r7 in
    let b5o = bit_xor t1o t4o in
    let b2o = bit_xor t1o t6o in
    let t10o = bit_xor r2 t5o in
    let b3o = bit_xor r10 r8 in
    let b1o = bit_xor one (bit_xor t3o b3o) in
    let b6o = bit_xor t10o b1o in
    let b4o = bit_xor one (bit_xor t3o t7o) in
    let b0o = bit_xor t6o b4o in
    let b7o = bit_xor one (bit_xor r10 r6) in
    record { b0 = b0o; b1 = b1o; b2 = b2o; b3 = b3o; b4 = b4o; b5 = b5o; b6 = b6o; b7 = b7o }
  where
    open x use {r0, r1, r2, r3, r4, r5, r6, r7, r8, r9, r10, r11}

unfoldable pub sbox_circuit : ℕ → Planes → Planes
sbox_circuit one x =
    let y = input_layer one x in output_layer one (bottom_layer y (middle_layer (top_layer y)))

-- `(x >> i) & 1`
abbrev pub bit_at : ℕ → ℕ → ℕ
bit_at x i = bit_and (x / 2 ^ i) 1

-- `b0 | (b1 << 1) | … | (b7 << 7)`
abbrev pub join_bits : ℕ → ℕ → ℕ → ℕ → ℕ → ℕ → ℕ → ℕ → ℕ
join_bits b0 b1 b2 b3 b4 b5 b6 b7 =
    bit_or
      (bit_or
        (bit_or (bit_or (bit_or (bit_or (bit_or b0 (b1 * 2)) (b2 * 4)) (b3 * 8)) (b4 * 16))
          (b5 * 32))
        (b6 * 64))
      (b7 * 128)

unfoldable pub sbox_ct : ℕ → ℕ
unfolding sbox_circuit input_layer top_layer middle_layer bottom_layer output_layer
sbox_ct x =
    let y = sbox_circuit 1 (record {
      b0 = bit_and x 1;
      b1 = bit_at x 1;
      b2 = bit_at x 2;
      b3 = bit_at x 3;
      b4 = bit_at x 4;
      b5 = bit_at x 5;
      b6 = bit_at x 6;
      b7 = bit_at x 7;
    }) in
    join_bits y.b0 y.b1 y.b2 y.b3 y.b4 y.b5 y.b6 y.b7
