-- ===== src/Sm4/Cipher.antt =====
-- src/sm4/cipher.rs: key schedule and rounds of SM4. A `u32` is a number, an array a list, and the
-- state of four words a record; `Sm4Key` is the record of its round keys.
pub mod Sbox
pub mod RoundTrip
pub mod Lanes
pub mod Table
use mathlib.Core.List.{reverse}
use libsmx.Base.{
  ℕ, ◌+◌, ◌*◌, ◌/◌, ◌%◌, ◌^◌, bit_and, bit_or, bit_xor, List, [], ◌∷◌, ◌++◌, take, drop, get_or,
  set,
}
use libsmx.Base.Words.{Bytes, rotate_left, word_of_be, from_be_bytes, to_be_bytes}
use Sbox.{Planes, bit_at, join_bits, sbox_circuit}

abbrev pub fk : List ℕ
fk = 0xa3b1bac6 ∷ 0x56aa3350 ∷ 0x677d9197 ∷ 0xb27022dc ∷ []

abbrev pub ck : List ℕ
ck =
    0x00070e15 ∷ 0x1c232a31 ∷ 0x383f464d ∷ 0x545b6269 ∷ 0x70777e85 ∷ 0x8c939aa1 ∷ 0xa8afb6bd
    ∷ 0xc4cbd2d9 ∷ 0xe0e7eef5 ∷ 0xfc030a11 ∷ 0x181f262d ∷ 0x343b4249 ∷ 0x50575e65 ∷ 0x6c737a81
    ∷ 0x888f969d ∷ 0xa4abb2b9 ∷ 0xc0c7ced5 ∷ 0xdce3eaf1 ∷ 0xf8ff060d ∷ 0x141b2229 ∷ 0x30373e45
    ∷ 0x4c535a61 ∷ 0x686f767d ∷ 0x848b9299 ∷ 0xa0a7aeb5 ∷ 0xbcc3cad1 ∷ 0xd8dfe6ed ∷ 0xf4fb0209
    ∷ 0x10171e25 ∷ 0x2c333a41 ∷ 0x484f565d ∷ 0x646b7279 ∷ []

-- Plane `i` of the four bytes of a word.
abbrev pub pack : Bytes → ℕ → ℕ
pack bytes i =
    bit_or
      (bit_or (bit_or (bit_at (get_or bytes 0 0) i) (bit_at (get_or bytes 1 0) i * 2))
        (bit_at (get_or bytes 2 0) i * 4))
      (bit_at (get_or bytes 3 0) i * 8)

-- Byte `j` of the output, from the eight planes.
abbrev pub unpack : Planes → ℕ → ℕ
unpack y j =
    join_bits (bit_at y.b0 j) (bit_at y.b1 j) (bit_at y.b2 j) (bit_at y.b3 j) (bit_at y.b4 j)
      (bit_at y.b5 j) (bit_at y.b6 j) (bit_at y.b7 j)

unfoldable pub tau : ℕ → ℕ
tau a =
    let bytes = to_be_bytes 4 a in
    let y = sbox_circuit 0xf (record {
      b0 = pack bytes 0;
      b1 = pack bytes 1;
      b2 = pack bytes 2;
      b3 = pack bytes 3;
      b4 = pack bytes 4;
      b5 = pack bytes 5;
      b6 = pack bytes 6;
      b7 = pack bytes 7;
    }) in
    word_of_be (unpack y 0 ∷ unpack y 1 ∷ unpack y 2 ∷ unpack y 3 ∷ [])

unfoldable pub t_enc : ℕ → ℕ
t_enc a =
    let b = tau a in
    bit_xor (bit_xor (bit_xor (bit_xor b (rotate_left b 2)) (rotate_left b 10)) (rotate_left b 18))
      (rotate_left b 24)

unfoldable pub t_key : ℕ → ℕ
t_key a = let b = tau a in bit_xor (bit_xor b (rotate_left b 13)) (rotate_left b 23)

pub record Sm4Key : Type 0 where
  pub rk : List ℕ

-- `k` is the window of four words, `i` the round; the round constants left are the rounds left.
unfoldable pub expand_rounds : ℕ → List ℕ → List ℕ → List ℕ
expand_rounds i k [] = []
expand_rounds i k (c ∷ cs) =
    let tmp =
      bit_xor
        (bit_xor (bit_xor (get_or k ((i + 1) % 4) 0) (get_or k ((i + 2) % 4) 0))
          (get_or k ((i + 3) % 4) 0))
        c in
    let rk = bit_xor (get_or k (i % 4) 0) (t_key tmp) in
    rk ∷ expand_rounds (i + 1) (set k (i % 4) rk) cs

unfoldable pub expand_key : Bytes → List ℕ
expand_key key =
    expand_rounds 0
      (bit_xor (word_of_be (take 4 key)) (get_or fk 0 0)
        ∷ bit_xor (word_of_be (take 4 (drop 4 key))) (get_or fk 1 0)
        ∷ bit_xor (word_of_be (take 4 (drop 8 key))) (get_or fk 2 0)
        ∷ bit_xor (word_of_be (take 4 (drop 12 key))) (get_or fk 3 0)
        ∷ [])
      ck

-- `Sm4Key::new`
unfoldable pub new : Bytes → Sm4Key
new key = record { rk = expand_key key }

pub record State : Type 0 where
  pub x0 : ℕ
  pub x1 : ℕ
  pub x2 : ℕ
  pub x3 : ℕ

unfoldable pub load_block : Bytes → State
load_block b = record {
  x0 = word_of_be (take 4 b);
  x1 = word_of_be (take 4 (drop 4 b));
  x2 = word_of_be (take 4 (drop 8 b));
  x3 = word_of_be (take 4 (drop 12 b));
}

unfoldable pub store_block : State → Bytes
store_block x =
    to_be_bytes 4 x.x0 ++ (to_be_bytes 4 x.x1 ++ (to_be_bytes 4 x.x2 ++ to_be_bytes 4 x.x3))

-- One pass of the loop body of `encrypt_rounds` and `decrypt_rounds`.
unfoldable pub round : ℕ → State → State
round rk x = record {
  x0 = x.x1;
  x1 = x.x2;
  x2 = x.x3;
  x3 = bit_xor x.x0 (t_enc (bit_xor (bit_xor (bit_xor x.x1 x.x2) x.x3) rk));
}

unfoldable pub rounds : List ℕ → State → State
rounds [] x = x
rounds (rk ∷ rks) x = rounds rks (round rk x)

-- `x.reverse()`
unfoldable pub reverse_state : State → State
reverse_state x = record { x0 = x.x3; x1 = x.x2; x2 = x.x1; x3 = x.x0 }

unfoldable pub encrypt_rounds : State → List ℕ → State
encrypt_rounds x rk = reverse_state (rounds rk x)

-- The loop `for i in (0..32).rev()` reads the round keys last to first.
unfoldable pub decrypt_rounds : State → List ℕ → State
decrypt_rounds x rk = reverse_state (rounds (reverse rk) x)

unfoldable pub encrypt_block_raw : List ℕ → Bytes → Bytes
encrypt_block_raw rk block = store_block (encrypt_rounds (load_block block) rk)

unfoldable pub encrypt_block : Sm4Key → Bytes → Bytes
encrypt_block key block = store_block (encrypt_rounds (load_block block) key.rk)

unfoldable pub decrypt_block : Sm4Key → Bytes → Bytes
decrypt_block key block = store_block (decrypt_rounds (load_block block) key.rk)
