-- ===== src/Sm4/Modes/Eax/Doubling.antt =====
-- `gf128_mul_u` (src/sm4/modes.rs), which is meant to double in GF(2^128).
use libsmx.Base.{ℕ, ◌+◌, ◌*◌, ◌/◌, ◌^◌, ◌≡◌, refl, ap, [], ◌∷◌, ◌++◌, arith, bit_or}
use libsmx.Base.Words.{Bytes, u8}
use libsmx.Sm4.Modes.Eax.{shift_bytes, gf128_mul_u}

shift_bytes_forgets :
    (carry b : ℕ) (xs : Bytes)
    → shift_bytes carry (xs ++ ((b + 128) ∷ [])) ≡ shift_bytes carry (xs ++ (b ∷ []))
unfolding shift_bytes
shift_bytes_forgets carry b [] =
    let same : u8 ((b + 128) * 2) ≡ u8 (b * 2) = omega arith in
    ap (λ (t : ℕ). bit_or t carry ∷ []) same
shift_bytes_forgets carry b (x ∷ xs) =
    ap (λ (t : Bytes). bit_or (u8 (x * 2)) carry ∷ t) (shift_bytes_forgets (x / 2 ^ 7) b xs)

-- The doubled block does not depend on the top bit of the last byte, where another byte stands
-- before it: two blocks that differ in that bit have one double, so the map is not the doubling of
-- a field.
pub gf128_mul_u_forgets :
    (x b : ℕ) (xs : Bytes)
    → gf128_mul_u (x ∷ xs ++ ((b + 128) ∷ [])) ≡ gf128_mul_u (x ∷ xs ++ (b ∷ []))
unfolding gf128_mul_u
gf128_mul_u_forgets x b xs = rw (shift_bytes_forgets 0 b (x ∷ xs)) refl
