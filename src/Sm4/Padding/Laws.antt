-- ===== src/Sm4/Padding/Laws.antt =====
-- Removing what was added, for every kind of padding (src/sm4/padding.rs).
use native.Mathlib.Nat.{zero-add, suc-add, sub-zero}
use libsmx.Base.{
  ℕ, zero, suc, ◌+◌, ◌-◌, ◌%◌, ◌≤◌, ◌<◌, ◌≡◌, refl, ap, ◌∙◌, ==_refl, true, ◌++◌, [], ◌∷◌, length,
  get_or, take, replicate, arith, length-append, length-replicate, take-append, All-append,
  All-replicate,
}
use libsmx.Base.Words.{Bytes, u8, IsByte, AreBytes}
use libsmx.Base.Outcome.{ok}
use libsmx.Sm4.Padding.{
  PaddingType, no_padding, pkcs5_padding, pkcs7_padding, pkcs7_pad, pkcs7_unpad, padding_matches,
  pkcs5_pad, pkcs5_unpad, no_padding_pad, no_padding_unpad, pad, unpad,
}

get_or-append : (xs ys : Bytes) (i d : ℕ) → get_or (xs ++ ys) (length xs + i) d ≡ get_or ys i d
get_or-append [] ys i d = rw zero-add
get_or-append (x ∷ xs) ys i d = rw (suc-add (length xs) i) (get_or-append xs ys i d)

get_or-replicate : (n i v d : ℕ) → i < n → get_or (replicate n v) i d ≡ v
get_or-replicate zero i v d h = absurd (omega arith)
get_or-replicate (suc n) zero v d h = refl
get_or-replicate (suc n) (suc i) v d h = get_or-replicate n i v d (omega arith)

-- In a string that ends in `n` bytes `v`, each of the last `n` bytes is `v`.
get_or_tail :
    (xs : Bytes) (n i v : ℕ)
    → i < n
    → get_or (xs ++ replicate n v) (length (xs ++ replicate n v) - 1 - i) 0 ≡ v
get_or_tail xs n i v h =
    let e : length (xs ++ replicate n v) - 1 - i ≡ length xs + (n - 1 - i) =
      omega (arith, length-append xs (replicate n v), length-replicate n v) in
    ap (λ (t : ℕ). get_or (xs ++ replicate n v) t 0) e
    ∙ get_or-append xs (replicate n v) (n - 1 - i) 0
    ∙ get_or-replicate n (n - 1 - i) v 0 (omega arith)

padding_matches_all :
    (left i : ℕ) (xs : Bytes) (n v : ℕ)
    → left + i ≤ n
    → padding_matches left i (xs ++ replicate n v) v ≡ true
unfolding padding_matches
padding_matches_all zero i xs n v h = refl
padding_matches_all (suc left) i xs n v h =
    rw (get_or_tail xs n i v (omega arith), ==_refl v)
      (padding_matches_all left (suc i) xs n v (omega arith))

pkcs7_unpad_accepts :
    (input xs : Bytes) (n : ℕ)
    → 0 < n
    → n ≤ 16
    → n ≤ length input
    → get_or input (length input - 1) 0 ≡ n
    → padding_matches n 0 input n ≡ true
    → take (length input - n) input ≡ xs
    → pkcs7_unpad input ≡ ok xs
unfolding pkcs7_unpad
pkcs7_unpad_accepts [] xs n h k l last m t = absurd (omega arith)
pkcs7_unpad_accepts (b ∷ bs) xs n h k l last m t =
    let cast : u8 n ≡ n = omega arith in rw (last, cast, m, t) (ground arith)

pub pkcs7_unpad-append :
    (xs : Bytes) (n : ℕ) → 0 < n → n ≤ 16 → pkcs7_unpad (xs ++ replicate n n) ≡ ok xs
pkcs7_unpad-append xs n h k =
    let len : length (xs ++ replicate n n) ≡ length xs + n =
      length-append xs (replicate n n) ∙ ap (λ (t : ℕ). length xs + t) (length-replicate n n) in
    let kept : length (xs ++ replicate n n) - n ≡ length xs = omega (arith, len) in
    pkcs7_unpad_accepts (xs ++ replicate n n) xs n h k (omega (arith, len))
      (rw sub-zero at (get_or_tail xs n 0 n h)) (padding_matches_all n 0 xs n n (omega arith))
      (ap (λ (t : ℕ). take t (xs ++ replicate n n)) kept ∙ take-append (length xs) xs _ refl)

-- A string padded for 16-byte blocks is unpadded to itself.
pub pkcs7_unpad-pkcs7_pad : (xs : Bytes) → pkcs7_unpad (pkcs7_pad xs 16) ≡ ok xs
unfolding pkcs7_pad
pkcs7_unpad-pkcs7_pad xs =
    let n = 16 - length xs % 16 in
    let cast : u8 n ≡ n = omega arith in
    rw cast (pkcs7_unpad-append xs n (omega arith) (omega arith))

-- Padding for 16-byte blocks gives whole blocks, and adds one byte at least and sixteen at most.
pub length-pkcs7_pad :
    (xs : Bytes)
    → (length (pkcs7_pad xs 16) % 16 ≡ 0)
      × (length xs < length (pkcs7_pad xs 16))
      × (length (pkcs7_pad xs 16) ≤ length xs + 16)
unfolding pkcs7_pad
length-pkcs7_pad xs =
    let n = 16 - length xs % 16 in
    let len : length (xs ++ replicate n (u8 n)) ≡ length xs + n =
      length-append xs (replicate n (u8 n))
      ∙ ap (λ (t : ℕ). length xs + t) (length-replicate n (u8 n)) in
    (omega (arith, len), omega (arith, len), omega (arith, len))

pub pkcs7_pad-AreBytes : (xs : Bytes) → AreBytes xs → AreBytes (pkcs7_pad xs 16)
unfolding pkcs7_pad
pkcs7_pad-AreBytes xs h =
    All-append IsByte xs _ h (All-replicate IsByte (16 - length xs % 16) _ (omega arith))

-- For each kind of padding, what `pad` accepts `unpad` gives back.
pub unpad-pad : (xs ys : Bytes) (p : PaddingType) → pad xs p ≡ ok ys → unpad ys p ≡ ok xs
unfolding pad unpad pkcs5_pad pkcs5_unpad no_padding_pad no_padding_unpad
unpad-pad xs ys no_padding e = ground arith
unpad-pad xs ys pkcs5_padding e =
    let same : pkcs7_pad xs 16 ≡ ys = cc in rw (← same) (pkcs7_unpad-pkcs7_pad xs)
unpad-pad xs ys pkcs7_padding e =
    let same : pkcs7_pad xs 16 ≡ ys = cc in rw (← same) (pkcs7_unpad-pkcs7_pad xs)
