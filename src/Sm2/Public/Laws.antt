-- ===== src/Sm2/Public/Laws.antt =====
-- src/sm2/mod.rs: the compressed form of public keys.
use native.Mathlib.Nat.{zero-mod}
use libsmx.Base.{
  ℕ, zero, suc, ◌+◌, ◌%◌, ◌/◌, ◌<◌, ◌≤◌, take-append, drop-append, take-ge, ◌==◌, if◌then◌else◌,
  ◌&&◌, not, Bool, true, false, Bool-cases, inl, inr, Option-cases, ◌≡◌, refl, sym, ap, ap₂, ◌∙◌,
  subst, [], ◌∷◌, ◌++◌, length, take, get_or, arith,
}
use libsmx.Base.Words.{
  Bytes, from_be_bytes-to_be_bytes, length-to_be_bytes, to_be_bytes, from_be_bytes,
}
use libsmx.Base.Outcome.{ok}
use libsmx.Monty.{Monty}
use libsmx.Sm2.Field.{Fp, field_modulus, fp_to_bytes, fp_from_bytes, fp_sqrt}
use libsmx.Sm2.Public.{
  PublicKey, x, y, to_compressed, differ, y_squared, y_odd, from_compressed, from_bytes,
}

-- Whatever its 65 bytes, a key that starts with 4 is taken: no coordinate is checked.
pub from_bytes_unchecked :
    (f : Monty) (rest : Bytes)
    → length rest ≡ 64
    → from_bytes f (0x04 ∷ rest) ≡ ok (record { bytes = 0x04 ∷ rest })
unfolding from_bytes
from_bytes_unchecked f rest h = rw h refl

get_or-append : (xs bs : Bytes) (n : ℕ) → length xs ≡ n → get_or (xs ++ bs) n 0 ≡ get_or bs 0 0
get_or-append [] bs zero h = refl
get_or-append [] bs (suc n) h = absurd (omega arith)
get_or-append (x0 ∷ xs) bs zero h = absurd (omega arith)
get_or-append (x0 ∷ xs) bs (suc n) h = get_or-append xs bs n (omega arith)

-- Two numbers below an odd modulus that sum to it differ in parity.
parity :
    (a b : ℕ)
    → (a + b) % field_modulus ≡ 0
    → a < field_modulus
    → b < field_modulus
    → (b == 0) ≡ false
    → not (b % 2 == 0) ≡ not (not (a % 2 == 0))
parity a b h ha hb nonzero = ground (arith, h, ha, hb, nonzero)

module _ (f : Monty) (standard : f.modulus ≡ field_modulus) where
  retrieve-minus : (a : Fp f) → (f.retrieve a + f.retrieve (f.ring.minus a)) % f.modulus ≡ 0
  retrieve-minus a =
      let b = f.ring.minus a in
      sym (f.retrieve-new (f.retrieve a + f.retrieve b))
      ∙ ap f.retrieve (
          f.new-add (f.retrieve a) (f.retrieve b)
          ∙ ap₂ f.ring.plus (f.new_law a) (f.new_law b)
          ∙ f.ring.plus_minus a
          ∙ sym f.new-zero)
      ∙ f.retrieve-new 0
      ∙ zero-mod f.modulus

  last_byte : (a : Fp f) → get_or (fp_to_bytes f a) 31 0 % 2 ≡ f.retrieve a % 2
  unfolding to_be_bytes
  last_byte a =
      let v = f.retrieve a in
      ap (λ (t : ℕ). t % 2)
        (get_or-append (to_be_bytes 31 (v / 256)) (v % 256 ∷ []) 31
          (length-to_be_bytes 31 (v / 256)))
      ∙ omega arith

  -- The negative of a residue has the other parity, unless it is zero: the modulus is odd.
  y_odd-minus :
      (a : Fp f)
      → (f.retrieve (f.ring.minus a) == 0) ≡ false
      → y_odd f (f.ring.minus a) ≡ not (y_odd f a)
  y_odd-minus a h =
      let sum : (f.retrieve a + f.retrieve (f.ring.minus a)) % field_modulus ≡ 0 =
        ap (λ m. (f.retrieve a + f.retrieve (f.ring.minus a)) % m) (sym standard)
        ∙ retrieve-minus a in
      rw (last_byte a, last_byte (f.ring.minus a))
        (parity (f.retrieve a) (f.retrieve (f.ring.minus a)) sum
          (subst (λ m. f.retrieve a < m) standard (f.retrieve_law a))
          (subst (λ m. f.retrieve (f.ring.minus a) < m) standard (f.retrieve_law (f.ring.minus a)))
          h)

  -- The key that `from_compressed` puts together compresses to the prefix of its ordinate.
  compressed_again :
      (prefix : ℕ) (xs : Bytes) (final_y : Fp f)
      → length xs ≡ 32
      → (not (prefix == 0x02) && not (prefix == 0x03)) ≡ false
      → y_odd f final_y ≡ (prefix == 0x03)
      → to_compressed (record { bytes = 0x04 ∷ (take 32 xs ++ fp_to_bytes f final_y) })
        ≡ ok (prefix ∷ xs)
  unfolding to_compressed x y
  compressed_again prefix xs final_y nx known parity =
      let ys = fp_to_bytes f final_y in
      let ny : length ys ≤ 32 = omega (arith, length-to_be_bytes 32 (f.retrieve final_y)) in
      let whole : take 32 xs ≡ xs = take-ge 32 xs (omega (arith, nx)) in
      let chosen : (if prefix == 0x03 then 0x03 else 0x02) ≡ prefix = ground (arith, known) in
      rw (whole, take-append 32 xs ys nx, drop-append 32 xs ys nx, take-ge 32 ys ny, parity)
        (ap (λ (t : ℕ). ok (t ∷ xs)) chosen)

  ordinate :
      (xs : Bytes) (a : Fp f)
      → length xs ≡ 32
      → from_be_bytes 0 (y (record { bytes = 0x04 ∷ (take 32 xs ++ fp_to_bytes f a) }))
        ≡ f.retrieve a
  unfolding y
  ordinate xs a nx =
      let ys = fp_to_bytes f a in
      let n : length (take 32 xs) ≡ 32 = ap length (take-ge 32 xs (omega (arith, nx))) ∙ nx in
      let ny : length ys ≤ 32 = omega (arith, length-to_be_bytes 32 (f.retrieve a)) in
      rw (drop-append 32 (take 32 xs) ys n, take-ge 32 ys ny)
        (from_be_bytes-to_be_bytes 32 (f.retrieve a)
          (omega (arith, f.retrieve_law a, f.modulus_law)))

  -- Decompression gives a key that compresses to the same bytes, unless its ordinate is zero.
  pub to_compressed-from_compressed :
      (prefix : ℕ) (xs : Bytes) (key : PublicKey)
      → length xs ≡ 32
      → from_compressed f (prefix ∷ xs) ≡ ok key
      → (from_be_bytes 0 (y key) == 0) ≡ false
      → to_compressed key ≡ ok (prefix ∷ xs)
  unfolding from_compressed
  to_compressed-from_compressed prefix xs key nx h nonzero =
      elim (Bool-cases (not (prefix == 0x02) && not (prefix == 0x03))) [
        | inl unknown ↦ ground (arith, h, unknown)
        | inr known ↦
            let root = fp_sqrt f (y_squared f (fp_from_bytes f (take 32 xs))) in
            elim (Option-cases root) [
              | inl n ↦ ground (arith, h, known, n)
              | inr (a, n) ↦ elim (Bool-cases (differ (y_odd f a) (prefix == 0x03))) [
                | inl t ↦
                    again (f.ring.minus a) (ground (arith, h, known, n, t))
                      (λ nz. y_odd-minus a nz ∙ other (y_odd f a) (prefix == 0x03) t) known
                | inr t ↦
                    again a (ground (arith, h, known, n, t))
                      (λ nz. one (y_odd f a) (prefix == 0x03) t) known
              ]
            ]
      ]
    where
      other : (p q : Bool) → differ p q ≡ true → not p ≡ q
      other true true t = cc
      other true false t = refl
      other false true t = refl
      other false false t = cc

      one : (p q : Bool) → differ p q ≡ false → p ≡ q
      one true true t = refl
      one true false t = cc
      one false true t = cc
      one false false t = refl

      again :
          (b : Fp f)
          → record { bytes = 0x04 ∷ (take 32 xs ++ fp_to_bytes f b) } ≡ key
          → ((f.retrieve b == 0) ≡ false → y_odd f b ≡ (prefix == 0x03))
          → (not (prefix == 0x02) && not (prefix == 0x03)) ≡ false
          → to_compressed key ≡ ok (prefix ∷ xs)
      again b same odd known =
          let is_b : (f.retrieve b == 0) ≡ false =
            ap (λ (v : ℕ). v == 0) (sym (ordinate xs b nx))
            ∙ ap (λ (k : PublicKey). from_be_bytes 0 (y k) == 0) same
            ∙ nonzero in
          subst (λ (k : PublicKey). to_compressed k ≡ ok (prefix ∷ xs)) same
            (compressed_again prefix xs b nx known (odd is_b))
