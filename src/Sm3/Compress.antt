-- ===== src/Sm3/Compress.antt =====
-- src/sm3/compress.rs: the compression function. The eight working words are a record; a loop over
-- `j` recurs on the rounds left.
use libsmx.Base.{
  ℕ, zero, suc, ◌+◌, ◌-◌, ◌%◌, bit_and, bit_or, bit_xor, ltb, if◌then◌else◌, List, [], ◌∷◌, ◌++◌,
  take, drop, get_or,
}
use libsmx.Base.Words.{Bytes, rotate_left, wrapping_add, word_of_be}

abbrev pub iv : List ℕ
iv =
    0x7380166f ∷ 0x4914b2b9 ∷ 0x172442d7 ∷ 0xda8a0600 ∷ 0xa96f30bc ∷ 0x163138aa ∷ 0xe38dee4d
    ∷ 0xb0fb0e4e ∷ []

-- Entry `j` of the table `T`.
unfoldable pub round_constant : ℕ → ℕ
round_constant j = if ltb j 16 then rotate_left 0x79cc4519 j else rotate_left 0x7a879d8a (j % 32)

unfoldable pub p0 : ℕ → ℕ
p0 x = bit_xor (bit_xor x (rotate_left x 9)) (rotate_left x 17)

unfoldable pub p1 : ℕ → ℕ
p1 x = bit_xor (bit_xor x (rotate_left x 15)) (rotate_left x 23)

unfoldable pub load_words : ℕ → Bytes → List ℕ
load_words zero block = []
load_words (suc n) block = word_of_be (take 4 block) ∷ load_words n (drop 4 block)

-- `w` holds the `i` words that are there; `n` are left.
unfoldable pub extend_words : ℕ → ℕ → List ℕ → List ℕ
extend_words zero i w = w
extend_words (suc n) i w =
    let v =
      bit_xor (bit_xor (get_or w (i - 16) 0) (get_or w (i - 9) 0))
        (rotate_left (get_or w (i - 3) 0) 15) in
    let next =
      bit_xor (bit_xor (p1 v) (rotate_left (get_or w (i - 13) 0) 7)) (get_or w (i - 6) 0) in
    extend_words n (i + 1) (w ++ next ∷ [])

pub record Working : Type 0 where
  pub a : ℕ
  pub b : ℕ
  pub c : ℕ
  pub d : ℕ
  pub e : ℕ
  pub f : ℕ
  pub g : ℕ
  pub h : ℕ

abbrev pub xor3 : ℕ → ℕ → ℕ → ℕ
xor3 x y z = bit_xor (bit_xor x y) z

abbrev pub majority : ℕ → ℕ → ℕ → ℕ
majority x y z = bit_or (bit_or (bit_and x y) (bit_and x z)) (bit_and y z)

-- `!x` of a `u32` is the exclusive or with all ones.
abbrev pub choose : ℕ → ℕ → ℕ → ℕ
choose x y z = bit_or (bit_and x y) (bit_and (bit_xor x 0xffffffff) z)

-- One round; the two loops differ in the Boolean functions `ff` and `gg`.
unfoldable pub compress_round : (ℕ → ℕ → ℕ → ℕ) → (ℕ → ℕ → ℕ → ℕ) → List ℕ → ℕ → Working → Working
compress_round ff gg w j s =
    let ss1 =
      rotate_left (wrapping_add (wrapping_add (rotate_left s.a 12) s.e) (round_constant j)) 7 in
    let ss2 = bit_xor ss1 (rotate_left s.a 12) in
    let tt1 =
      wrapping_add (wrapping_add (wrapping_add (ff s.a s.b s.c) s.d) ss2)
        (bit_xor (get_or w j 0) (get_or w (j + 4) 0)) in
    let tt2 = wrapping_add (wrapping_add (wrapping_add (gg s.e s.f s.g) s.h) ss1) (get_or w j 0) in
    record {
      a = tt1;
      b = s.a;
      c = rotate_left s.b 9;
      d = s.c;
      e = p0 tt2;
      f = s.e;
      g = rotate_left s.f 19;
      h = s.g;
    }

unfoldable pub compress_rounds :
    (ℕ → ℕ → ℕ → ℕ) → (ℕ → ℕ → ℕ → ℕ) → List ℕ → ℕ → ℕ → Working → Working
compress_rounds ff gg w zero j s = s
compress_rounds ff gg w (suc n) j s = compress_rounds ff gg w n (j + 1) (compress_round ff gg w j s)

unfoldable pub compress : List ℕ → Bytes → List ℕ
compress state block =
    let w = extend_words 52 16 (load_words 16 block) in
    let start : Working = record {
      a = get_or state 0 0;
      b = get_or state 1 0;
      c = get_or state 2 0;
      d = get_or state 3 0;
      e = get_or state 4 0;
      f = get_or state 5 0;
      g = get_or state 6 0;
      h = get_or state 7 0;
    } in
    let s = compress_rounds majority choose w 48 16 (compress_rounds xor3 xor3 w 16 0 start) in
    bit_xor (get_or state 0 0) s.a
    ∷ bit_xor (get_or state 1 0) s.b
    ∷ bit_xor (get_or state 2 0) s.c
    ∷ bit_xor (get_or state 3 0) s.d
    ∷ bit_xor (get_or state 4 0) s.e
    ∷ bit_xor (get_or state 5 0) s.f
    ∷ bit_xor (get_or state 6 0) s.g
    ∷ bit_xor (get_or state 7 0) s.h
    ∷ []
