-- ===== src/Sm3/Hkdf.antt =====
-- src/sm3/hkdf.rs: HKDF-SM3. The `for` loop of `hkdf_expand` recurs on the rounds left, with `T`
-- of the round before and the counter, a byte, counted along; `input` holds only the bytes in use.
use libsmx.Base.{
  ℕ, zero, suc, ◌+◌, ◌*◌, ◌/◌, ◌≤◌, ◌≡◌, ltb, le→ltb, if◌then◌else◌, length-append, length-take_le,
  ap, refl, ◌∙◌, List, [], ◌∷◌, ◌++◌, length, take, replicate, flatten, map, Option, none, some,
  arith,
}
use libsmx.Base.Words.{Bytes, u8, to_be_bytes, length-to_be_bytes}
use libsmx.Base.Outcome.{Outcome, ok, err, invalid_input_length}
use libsmx.Sm3.Compress.{compress}
use libsmx.Sm3.Hash.{Sm3Hasher, finalize, finalize_words}
use libsmx.Sm3.Hmac.{hmac_sm3}

unfoldable pub hkdf_extract : Option Bytes → Bytes → Bytes
hkdf_extract none ikm = hmac_sm3 (replicate 32 0) ikm
hkdf_extract (some salt) ikm = hmac_sm3 salt ikm

unfoldable pub expand_loop : Bytes → Bytes → ℕ → ℕ → Bytes → Bytes
expand_loop prk info zero i t_prev = []
expand_loop prk info (suc n) i t_prev =
    let t_i = hmac_sm3 prk (t_prev ++ take 255 info ++ i ∷ []) in
    t_i ++ expand_loop prk info n (i + 1) t_i

unfoldable pub hkdf_expand : Bytes → Bytes → ℕ → Outcome Bytes
hkdf_expand prk info len =
    if ltb 8160 len
    then err invalid_input_length
    else ok (take len (expand_loop prk info (u8 ((len + 31) / 32)) 1 []))

unfoldable pub hkdf : Option Bytes → Bytes → Bytes → ℕ → Outcome Bytes
hkdf salt ikm info len = hkdf_expand (hkdf_extract salt ikm) info len

length-words : (ws : List ℕ) → length (flatten (map (to_be_bytes 4) ws)) ≡ 4 * length ws
length-words [] = omega arith
length-words (w ∷ ws) =
    length-append (to_be_bytes 4 w) (flatten (map (to_be_bytes 4) ws))
    ∙ omega (arith, length-to_be_bytes 4 w, length-words ws)

length-finalize_words : (h : Sm3Hasher) → length (finalize_words h) ≡ 8
unfolding finalize_words compress
length-finalize_words h = ground arith

pub length-finalize : (h : Sm3Hasher) → length (finalize h) ≡ 32
unfolding finalize
length-finalize h = omega (arith, length-words (finalize_words h), length-finalize_words h)

pub length-hmac_sm3 : (key message : Bytes) → length (hmac_sm3 key message) ≡ 32
unfolding hmac_sm3
length-hmac_sm3 key message = length-finalize _

length-expand_loop :
    (prk info : Bytes) (n i : ℕ) (t : Bytes) → length (expand_loop prk info n i t) ≡ 32 * n
unfolding expand_loop
length-expand_loop prk info zero i t = omega arith
length-expand_loop prk info (suc n) i t =
    let t_i = hmac_sm3 prk (t ++ take 255 info ++ i ∷ []) in
    length-append t_i (expand_loop prk info n (i + 1) t_i)
    ∙ omega (
      arith,
      length-hmac_sm3 prk (t ++ take 255 info ++ i ∷ []),
      length-expand_loop prk info n (i + 1) t_i,
    )

-- Up to 8160 bytes the expansion succeeds, with exactly the bytes asked for: the cast of the
-- number of rounds to a byte loses nothing.
pub length-hkdf_expand :
    (prk info : Bytes) (len : ℕ)
    → len ≤ 8160
    → (okm : Bytes) × (hkdf_expand prk info len ≡ ok okm) × (length okm ≡ len)
unfolding hkdf_expand
length-hkdf_expand prk info len h = (
  take len (expand_loop prk info (u8 ((len + 31) / 32)) 1 []),
  ap
      (λ b.
        if b
        then err invalid_input_length
        else ok (take len (expand_loop prk info (u8 ((len + 31) / 32)) 1 [])))
      (le→ltb 8160 len h),
  length-take_le len _ (omega (arith, length-expand_loop prk info (u8 ((len + 31) / 32)) 1 [])),
)

pub take_again : (n : ℕ) (xs : Bytes) → take n (take n xs) ≡ take n xs
take_again zero xs = refl
take_again (suc n) [] = refl
take_again (suc n) (x ∷ xs) = ap (λ ys. x ∷ ys) (take_again n xs)

expand_loop-take :
    (prk info : Bytes) (n i : ℕ) (t : Bytes)
    → expand_loop prk (take 255 info) n i t ≡ expand_loop prk info n i t
unfolding expand_loop
expand_loop-take prk info zero i t = refl
expand_loop-take prk info (suc n) i t = rw (take_again 255 info) (
    ap (λ r. hmac_sm3 prk (t ++ take 255 info ++ i ∷ []) ++ r)
      (expand_loop-take prk info n (i + 1) (hmac_sm3 prk (t ++ take 255 info ++ i ∷ []))))

-- The expansion depends on the first 255 bytes of `info` alone, whatever follows them.
pub hkdf_expand-take :
    (prk info : Bytes) (len : ℕ) → hkdf_expand prk info len ≡ hkdf_expand prk (take 255 info) len
unfolding hkdf_expand
hkdf_expand-take prk info len = rw (expand_loop-take prk info (u8 ((len + 31) / 32)) 1 []) refl
