-- ===== src/Sm4/Cipher/RoundTrip.antt =====
-- The block cipher undoes itself, and keeps to blocks of 16 bytes (src/sm4/cipher.rs).
use mathlib.Core.List.{reverse, reverse-append}
use native.Mathlib.Nat.{zero-add, suc-add}
use libsmx.Base.{
  ℕ, zero, suc, ◌+◌, ◌/◌, ◌^◌, ◌<◌, ◌≤◌, bit_xor, ◌≡◌, refl, sym, ap, ◌∙◌, List, [], ◌∷◌, ◌++◌,
  take, drop, length, arith, All-take, All-drop, length-take, length-drop, take-append-drop,
  take-ge,
}
use libsmx.Base.Bits.{xor-lt, or-lt, and_mask, xor_comm, xor_assoc, xor_cancel_right}
use libsmx.Base.Words.{
  Bytes, IsByte, AreBytes, IsWord, word_of_be, to_be_bytes, from_be_bytes,
  from_be_bytes-to_be_bytes, word_bytes, rotate_left,
}
use libsmx.Sm4.Cipher.{
  State, Sm4Key, tau, t_enc, round, rounds, reverse_state, load_block, store_block, encrypt_rounds,
  decrypt_rounds, encrypt_block, decrypt_block, unpack,
}
use libsmx.Sm4.Cipher.Sbox.{Planes, bit_at, join_bits}

-- A block, `[u8; 16]`.
abbrev pub IsBlock : Bytes → Type 0
IsBlock b = (length b ≡ 16) × AreBytes b

abbrev AreWords : State → Type 0
AreWords x = IsWord x.x0 × IsWord x.x1 × IsWord x.x2 × IsWord x.x3

-- The words inside `round`: the order of the three words does not matter.
xor_three :
    (a b c d : ℕ) → bit_xor (bit_xor (bit_xor a b) c) d ≡ bit_xor (bit_xor (bit_xor c b) a) d
xor_three a b c d =
    ap (λ (t : ℕ). bit_xor t d)
      (xor_comm (bit_xor a b) c
        ∙ ap (λ (t : ℕ). bit_xor c t) (xor_comm a b)
        ∙ sym (xor_assoc c b a))

round_undone : (k : ℕ) (x : State) → round k (reverse_state (round k x)) ≡ reverse_state x
unfolding round reverse_state
round_undone k x = rw (xor_three x.x3 x.x2 x.x1 k, xor_cancel_right x.x0 _)

rounds-append : (ks js : List ℕ) (x : State) → rounds (ks ++ js) x ≡ rounds js (rounds ks x)
unfolding rounds
rounds-append [] js x = refl
rounds-append (k ∷ ks) js x = rounds-append ks js (round k x)

rounds_undone :
    (ks : List ℕ) (x : State) → rounds (reverse ks) (reverse_state (rounds ks x)) ≡ reverse_state x
unfolding rounds
rounds_undone [] x = refl
rounds_undone (k ∷ ks) x =
    rw
      (
        reverse-append (k ∷ []) ks,
        rounds-append (reverse ks) (k ∷ []),
        rounds_undone ks (round k x),
      )
      (round_undone k x)

decrypt_rounds-encrypt_rounds :
    (x : State) (rk : List ℕ) → decrypt_rounds (encrypt_rounds x rk) rk ≡ x
unfolding decrypt_rounds encrypt_rounds
decrypt_rounds-encrypt_rounds x rk = rw (rounds_undone rk x) (unfold reverse_state in refl)

-- Words stay words.
bit_at-lt : (x i : ℕ) → bit_at x i < 2
bit_at-lt x i = omega (arith, and_mask 1 (x / 2 ^ i))

join_bits-lt :
    (b0 b1 b2 b3 b4 b5 b6 b7 : ℕ)
    → b0 < 2
    → b1 < 2
    → b2 < 2
    → b3 < 2
    → b4 < 2
    → b5 < 2
    → b6 < 2
    → b7 < 2
    → join_bits b0 b1 b2 b3 b4 b5 b6 b7 < 256
join_bits-lt b0 b1 b2 b3 b4 b5 b6 b7 h0 h1 h2 h3 h4 h5 h6 h7 =
    or-lt 8 _ _
      (or-lt 8 _ _
        (or-lt 8 _ _
          (or-lt 8 _ _
            (or-lt 8 _ _ (or-lt 8 _ _ (or-lt 8 _ _ (omega arith) (omega arith)) (omega arith))
              (omega arith))
            (omega arith))
          (omega arith))
        (omega arith))
      (omega arith)

pub unpack-IsByte : (y : Planes) (j : ℕ) → unpack y j < 256
unpack-IsByte y j =
    join_bits-lt _ _ _ _ _ _ _ _ (bit_at-lt y.b0 j) (bit_at-lt y.b1 j) (bit_at-lt y.b2 j)
      (bit_at-lt y.b3 j) (bit_at-lt y.b4 j) (bit_at-lt y.b5 j) (bit_at-lt y.b6 j) (bit_at-lt y.b7 j)

word_of_be-lt :
    (a b c d : ℕ) → a < 256 → b < 256 → c < 256 → d < 256 → word_of_be (a ∷ b ∷ c ∷ d ∷ []) < 2 ^ 32
unfolding from_be_bytes
word_of_be-lt a b c d p q r s = omega arith

tau-IsWord : (a : ℕ) → tau a < 2 ^ 32
unfolding tau
tau-IsWord a =
    word_of_be-lt _ _ _ _ (unpack-IsByte _ 0) (unpack-IsByte _ 1) (unpack-IsByte _ 2)
      (unpack-IsByte _ 3)

t_enc-IsWord : (a : ℕ) → t_enc a < 2 ^ 32
unfolding t_enc
t_enc-IsWord a =
    let w = tau-IsWord a in
    xor-lt 32 _ _
      (xor-lt 32 _ _
        (xor-lt 32 _ _ (xor-lt 32 (tau a) (rotate_left (tau a) 2) w (omega arith)) (omega arith))
        (omega arith))
      (omega arith)

rounds-AreWords : (ks : List ℕ) (x : State) → AreWords x → AreWords (rounds ks x)
unfolding rounds round
rounds-AreWords [] x h = h
rounds-AreWords (k ∷ ks) x (h0, h1, h2, h3) =
    rounds-AreWords ks _ (h1, h2, h3, xor-lt 32 _ _ h0 (t_enc-IsWord _))

-- A word and its four bytes.
piece : (b : Bytes) → length b ≡ 4 → AreBytes b → to_be_bytes 4 (word_of_be b) ≡ b
piece [] e h = absurd (omega arith)
piece (a ∷ []) e h = absurd (omega arith)
piece (a ∷ b ∷ []) e h = absurd (omega arith)
piece (a ∷ b ∷ c ∷ []) e h = absurd (omega arith)
piece (a ∷ b ∷ c ∷ d ∷ []) e (p, (q, (r, (s, _)))) = word_bytes a b c d p q r s
piece (a ∷ b ∷ c ∷ d ∷ x ∷ xs) e h = absurd (omega arith)

piece-IsWord : (b : Bytes) → length b ≡ 4 → AreBytes b → IsWord (word_of_be b)
piece-IsWord [] e h = absurd (omega arith)
piece-IsWord (a ∷ []) e h = absurd (omega arith)
piece-IsWord (a ∷ b ∷ []) e h = absurd (omega arith)
piece-IsWord (a ∷ b ∷ c ∷ []) e h = absurd (omega arith)
piece-IsWord (a ∷ b ∷ c ∷ d ∷ []) e (p, (q, (r, (s, _)))) = word_of_be-lt a b c d p q r s
piece-IsWord (a ∷ b ∷ c ∷ d ∷ x ∷ xs) e h = absurd (omega arith)

-- A block falls into four pieces of four bytes.
module _ (b : Bytes) (h : IsBlock b) (k : ℕ) (fits : k + 4 ≤ 16) where
  length-piece_at : length (take 4 (drop k b)) ≡ 4
  length-piece_at = let (e, _) = h in omega (arith, length-take 4 (drop k b), length-drop k b)

  piece_at-AreBytes : AreBytes (take 4 (drop k b))
  piece_at-AreBytes = All-take IsByte 4 (drop k b) (All-drop IsByte k b h.1)

  piece_at_lem : to_be_bytes 4 (word_of_be (take 4 (drop k b))) ≡ take 4 (drop k b)
  piece_at_lem = piece _ length-piece_at piece_at-AreBytes

  piece_at-IsWord : IsWord (word_of_be (take 4 (drop k b)))
  piece_at-IsWord = piece-IsWord _ length-piece_at piece_at-AreBytes

drop-nil : (n : ℕ) → ◌≡◌ {A = Bytes} (drop n []) []
drop-nil zero = refl
drop-nil (suc n) = refl

drop-drop : (b : Bytes) (i k : ℕ) → drop i (drop k b) ≡ drop (k + i) b
drop-drop b i zero = rw (zero-add i)
drop-drop [] i (suc k) = drop-nil i ∙ sym (drop-nil (suc k + i))
drop-drop (x ∷ b) i (suc k) = rw (suc-add k i) (drop-drop b i k)

four_pieces :
    (b : Bytes)
    → length b ≡ 16
    → take 4 b ++ (take 4 (drop 4 b) ++ (take 4 (drop 8 b) ++ take 4 (drop 12 b))) ≡ b
four_pieces b h =
    let last = take-ge 4 (drop 12 b) (omega (arith, length-drop 12 b)) in
    let third : take 4 (drop 8 b) ++ take 4 (drop 12 b) ≡ drop 8 b =
      ap (λ (t : Bytes). take 4 (drop 8 b) ++ t) (last ∙ sym (drop-drop b 4 8))
      ∙ take-append-drop 4 (drop 8 b) in
    let second : take 4 (drop 4 b) ++ (take 4 (drop 8 b) ++ take 4 (drop 12 b)) ≡ drop 4 b =
      ap (λ (t : Bytes). take 4 (drop 4 b) ++ t) (third ∙ sym (drop-drop b 4 4))
      ∙ take-append-drop 4 (drop 4 b) in
    ap (λ (t : Bytes). take 4 b ++ t) second ∙ take-append-drop 4 b

store_block-load_block : (b : Bytes) → IsBlock b → store_block (load_block b) ≡ b
unfolding store_block load_block
store_block-load_block b h =
    rw
      (
        piece_at_lem b h 0 (omega arith),
        piece_at_lem b h 4 (omega arith),
        piece_at_lem b h 8 (omega arith),
        piece_at_lem b h 12 (omega arith),
      )
      (four_pieces b h.0)

load_block-AreWords : (b : Bytes) → IsBlock b → AreWords (load_block b)
unfolding load_block
load_block-AreWords b h = (
  piece_at-IsWord b h 0 (omega arith),
  piece_at-IsWord b h 4 (omega arith),
  piece_at-IsWord b h 8 (omega arith),
  piece_at-IsWord b h 12 (omega arith),
)

load_block-store_block : (x : State) → AreWords x → load_block (store_block x) ≡ x
unfolding store_block load_block to_be_bytes
load_block-store_block x (h0, h1, h2, h3) = λ i. record {
  x0 = from_be_bytes-to_be_bytes 4 x.x0 h0 i;
  x1 = from_be_bytes-to_be_bytes 4 x.x1 h1 i;
  x2 = from_be_bytes-to_be_bytes 4 x.x2 h2 i;
  x3 = from_be_bytes-to_be_bytes 4 x.x3 h3 i;
}

pub store_block-IsBlock : (x : State) → IsBlock (store_block x)
unfolding store_block to_be_bytes
store_block-IsBlock x = (refl, omega arith)

pub encrypt_block-IsBlock : (key : Sm4Key) (b : Bytes) → IsBlock (encrypt_block key b)
unfolding encrypt_block
encrypt_block-IsBlock key b = store_block-IsBlock _

pub decrypt_block-IsBlock : (key : Sm4Key) (b : Bytes) → IsBlock (decrypt_block key b)
unfolding decrypt_block
decrypt_block-IsBlock key b = store_block-IsBlock _

encrypt_rounds-AreWords : (x : State) (rk : List ℕ) → AreWords x → AreWords (encrypt_rounds x rk)
unfolding encrypt_rounds reverse_state
encrypt_rounds-AreWords x rk h = let (h0, h1, h2, h3) = rounds-AreWords rk x h in (h3, h2, h1, h0)

-- Decrypting an encrypted block gives the block back, under the same key schedule, for every
-- 16-byte block of bytes.
pub decrypt_block-encrypt_block :
    (key : Sm4Key) (b : Bytes) → IsBlock b → decrypt_block key (encrypt_block key b) ≡ b
unfolding decrypt_block encrypt_block
decrypt_block-encrypt_block key b h =
    ap (λ (s : State). store_block (decrypt_rounds s key.rk))
      (load_block-store_block (encrypt_rounds (load_block b) key.rk)
        (encrypt_rounds-AreWords (load_block b) key.rk (load_block-AreWords b h)))
    ∙ ap store_block (decrypt_rounds-encrypt_rounds (load_block b) key.rk)
    ∙ store_block-load_block b h
