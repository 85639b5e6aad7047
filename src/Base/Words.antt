-- ===== src/Base/Words.antt =====
-- Machine words: `u32` values are numbers below 2 ^ 32, with the wrap-around written out, and
-- `to_be_bytes` / `from_be_bytes` of any width.
use Prim.Native.Nat.{ℕ, zero, suc, ◌+◌, ◌-◌, ◌*◌, ◌/◌, ◌%◌, ◌^◌, ◌<◌}
use mathlib.Core.Path.{◌≡◌, refl, ◌∙◌}
use mathlib.Core.List.{List, [], ◌∷◌, ◌++◌}
use native.Mathlib.Nat.{pow-suc}
use native.Mathlib.Omega.{arith}
use libsmx.Base.Lists.{length, length-append, All, All-append}

abbrev pub Bytes : Type 0
Bytes = List ℕ

abbrev pub IsByte : ℕ → Type 0
IsByte b = b < 256

abbrev pub AreBytes : Bytes → Type 0
AreBytes = All IsByte

abbrev pub IsWord : ℕ → Type 0
IsWord w = w < 2 ^ 32

abbrev pub u8 : ℕ → ℕ
u8 n = n % 2 ^ 8

abbrev pub u32 : ℕ → ℕ
u32 n = n % 2 ^ 32

abbrev pub u64 : ℕ → ℕ
u64 n = n % 2 ^ 64

-- `u32::wrapping_add`.
abbrev pub wrapping_add : ℕ → ℕ → ℕ
wrapping_add a b = u32 (a + b)

-- `u32::rotate_left` by `n` below 32.
abbrev pub rotate_left : ℕ → ℕ → ℕ
rotate_left x n = u32 (x * 2 ^ n) + x / 2 ^ (32 - n)

-- `from_be_bytes`: the highest byte first.
unfoldable pub from_be_bytes : ℕ → Bytes → ℕ
from_be_bytes acc [] = acc
from_be_bytes acc (b ∷ bs) = from_be_bytes (acc * 256 + b) bs

-- `to_be_bytes` of an integer of `n` bytes.
unfoldable pub to_be_bytes : ℕ → ℕ → Bytes
to_be_bytes zero v = []
to_be_bytes (suc n) v = to_be_bytes n (v / 256) ++ (v % 256 ∷ [])

abbrev pub word_of_be : Bytes → ℕ
word_of_be bs = from_be_bytes 0 bs

pub length-to_be_bytes : (n v : ℕ) → length (to_be_bytes n v) ≡ n
unfolding to_be_bytes
length-to_be_bytes zero v = refl
length-to_be_bytes (suc n) v =
    length-append (to_be_bytes n (v / 256)) (v % 256 ∷ [])
    ∙ omega (arith, length-to_be_bytes n (v / 256))

pub to_be_bytes-AreBytes : (n v : ℕ) → AreBytes (to_be_bytes n v)
unfolding to_be_bytes
to_be_bytes-AreBytes zero v = tt
to_be_bytes-AreBytes (suc n) v =
    All-append IsByte (to_be_bytes n (v / 256)) (v % 256 ∷ []) (to_be_bytes-AreBytes n (v / 256))
      (omega arith, tt)

pub from_be_bytes-append :
    (acc : ℕ) (xs ys : Bytes)
    → from_be_bytes acc (xs ++ ys) ≡ from_be_bytes (from_be_bytes acc xs) ys
unfolding from_be_bytes
from_be_bytes-append acc [] ys = refl
from_be_bytes-append acc (x ∷ xs) ys = from_be_bytes-append (acc * 256 + x) xs ys

pub from_be_bytes-to_be_bytes : (n v : ℕ) → v < 256 ^ n → from_be_bytes 0 (to_be_bytes n v) ≡ v
unfolding to_be_bytes
from_be_bytes-to_be_bytes zero v h = unfold from_be_bytes in omega arith
from_be_bytes-to_be_bytes (suc n) v h =
    from_be_bytes-append 0 (to_be_bytes n (v / 256)) (v % 256 ∷ [])
    ∙ rw (from_be_bytes-to_be_bytes n (v / 256) (omega (arith, pow-suc 256 n)))
        (unfold from_be_bytes in omega arith)

pub word_bytes :
    (a b c d : ℕ)
    → IsByte a
    → IsByte b
    → IsByte c
    → IsByte d
    → to_be_bytes 4 (word_of_be (a ∷ b ∷ c ∷ d ∷ [])) ≡ a ∷ b ∷ c ∷ d ∷ []
unfolding to_be_bytes from_be_bytes
word_bytes a b c d p q r s = ground arith

pub long_bytes :
    (a b c d e f g h : ℕ)
    → IsByte a
    → IsByte b
    → IsByte c
    → IsByte d
    → IsByte e
    → IsByte f
    → IsByte g
    → IsByte h
    → to_be_bytes 8 (word_of_be (a ∷ b ∷ c ∷ d ∷ e ∷ f ∷ g ∷ h ∷ []))
      ≡ a ∷ b ∷ c ∷ d ∷ e ∷ f ∷ g ∷ h ∷ []
unfolding to_be_bytes from_be_bytes
long_bytes a b c d e f g h p q r s p' q' r' s' = ground arith
