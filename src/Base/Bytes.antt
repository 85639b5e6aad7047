-- ===== src/Base/Bytes.antt =====
-- Byte strings: exclusive or of two strings, as the loops over blocks do it, and slice equality.
use Prim.Native.Nat.{ℕ, zero, suc, ◌<◌, bit_xor}
use mathlib.Core.Path.{◌≡◌, refl, ap, ap₂}
use mathlib.Core.Bool.{Bool, true, false, ◌&&◌}
use mathlib.Core.List.{[], ◌∷◌}
use native.Mathlib.Omega.{arith}
use libsmx.Base.Tests.{◌==◌, if◌then◌else◌}
use libsmx.Base.Lists.{length, get_or, set}
use libsmx.Base.Words.{Bytes, AreBytes}
use libsmx.Base.Bits.{xor-lt, xor_cancel_right, xor_comm}

-- `for i in 0..n { a[i] ^= b[i] }`, where `n` is the shorter length: a string that runs out of `b`
-- keeps the rest of `a`.
abbrev pub xor_bytes : Bytes → Bytes → Bytes
xor_bytes [] ys = []
xor_bytes (x ∷ xs) [] = x ∷ xs
xor_bytes (x ∷ xs) (y ∷ ys) = bit_xor x y ∷ xor_bytes xs ys

pub length-xor_bytes : (xs ys : Bytes) → length (xor_bytes xs ys) ≡ length xs
length-xor_bytes [] ys = refl
length-xor_bytes (x ∷ xs) [] = refl
length-xor_bytes (x ∷ xs) (y ∷ ys) = ap suc (length-xor_bytes xs ys)

pub xor_bytes-AreBytes : (xs ys : Bytes) → AreBytes xs → AreBytes ys → AreBytes (xor_bytes xs ys)
xor_bytes-AreBytes [] ys p q = tt
xor_bytes-AreBytes (x ∷ xs) [] p q = p
xor_bytes-AreBytes (x ∷ xs) (y ∷ ys) (pa, ps) (qb, qs) =
    (xor-lt 8 x y pa qb, xor_bytes-AreBytes xs ys ps qs)

-- A second pass with the same key stream undoes the first.
pub xor_bytes_cancel : (xs ys : Bytes) → xor_bytes (xor_bytes xs ys) ys ≡ xs
xor_bytes_cancel [] ys = refl
xor_bytes_cancel (x ∷ xs) [] = refl
xor_bytes_cancel (x ∷ xs) (y ∷ ys) = ap₂ ◌∷◌ (xor_cancel_right x y) (xor_bytes_cancel xs ys)

pub xor_bytes_comm : (xs ys : Bytes) → length xs ≡ length ys → xor_bytes xs ys ≡ xor_bytes ys xs
xor_bytes_comm [] [] h = refl
xor_bytes_comm [] (y ∷ ys) h = absurd (omega arith)
xor_bytes_comm (x ∷ xs) [] h = absurd (omega arith)
xor_bytes_comm (x ∷ xs) (y ∷ ys) h = ap₂ ◌∷◌ (xor_comm x y) (xor_bytes_comm xs ys (omega arith))

-- `==` and `ct_eq` on slices and arrays of bytes.
abbrev pub bytes_eq : Bytes → Bytes → Bool
bytes_eq [] [] = true
bytes_eq [] (y ∷ ys) = false
bytes_eq (x ∷ xs) [] = false
bytes_eq (x ∷ xs) (y ∷ ys) = x == y && bytes_eq xs ys

pub bytes_eq_refl : (xs : Bytes) → bytes_eq xs xs ≡ true
bytes_eq_refl [] = refl
bytes_eq_refl (x ∷ xs) = ground (arith, bytes_eq_refl xs)

pub bytes_eq→eq : (xs ys : Bytes) → bytes_eq xs ys ≡ true → xs ≡ ys
bytes_eq→eq [] [] h = refl
bytes_eq→eq [] (y ∷ ys) h = ground arith
bytes_eq→eq (x ∷ xs) [] h = ground arith
bytes_eq→eq (x ∷ xs) (y ∷ ys) h = ground (arith, bytes_eq→eq xs ys)

pub get_or-lt : (bs : Bytes) (i : ℕ) → AreBytes bs → get_or bs i 0 < 256
get_or-lt [] i h = omega arith
get_or-lt (b ∷ bs) zero h = h.0
get_or-lt (b ∷ bs) (suc i) h = get_or-lt bs i h.1

pub set-AreBytes : (bs : Bytes) (i v : ℕ) → AreBytes bs → v < 256 → AreBytes (set bs i v)
set-AreBytes [] i v h k = tt
set-AreBytes (b ∷ bs) zero v h k = (k, h.1)
set-AreBytes (b ∷ bs) (suc i) v h k = (h.0, set-AreBytes bs i v h.1 k)

-- `bytes.iter().all(|&b| b == 0)`
unfoldable pub all_zero : Bytes → Bool
all_zero [] = true
all_zero (b ∷ bs) = let rest = all_zero bs in if b == 0 then rest else false
