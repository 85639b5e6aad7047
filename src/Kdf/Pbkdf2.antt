-- ===== src/Kdf/Pbkdf2.antt =====
-- PBKDF2 (src/kdf.rs): its loop ends, with a key of the length asked for; and what it does not read.
use libsmx.Base.{
  ℕ, zero, suc, ◌+◌, ◌-◌, ◌*◌, ◌/◌, ◌≤◌, ◌<◌, ◌==◌, ==_iff, ◌≡◌, refl, ap, ◌∙◌, false, ltb, lt→ltb,
  ltb→lt, ltb→le, ◌↔◌, ◌⊎◌, le→ltb, Bool-cases, inl, inr, [], ◌∷◌, ◌++◌, length, length-append,
  length-take_le, take, some, arith,
}
use libsmx.Base.Words.{Bytes, u32}
use libsmx.Base.Bytes.{xor_bytes, length-xor_bytes}
use libsmx.Base.Outcome.{Error, ok, err, invalid_input, invalid_input_length}
use libsmx.Sm3.Hmac.{hmac_sm3}
use libsmx.Sm3.Hkdf.{length-hmac_sm3}
use libsmx.Kdf.{pbkdf2_rounds, pbkdf2_block, pbkdf2_loop, pbkdf2}

length-pbkdf2_rounds :
    (n : ℕ) (password u t : Bytes) → length (pbkdf2_rounds n password u t) ≡ length t
unfolding pbkdf2_rounds
length-pbkdf2_rounds zero password u t = refl
length-pbkdf2_rounds (suc n) password u t =
    length-pbkdf2_rounds n password (hmac_sm3 password u) (xor_bytes t (hmac_sm3 password u))
    ∙ length-xor_bytes t (hmac_sm3 password u)

length-pbkdf2_block :
    (password salt : Bytes) (iterations i : ℕ)
    → length (pbkdf2_block password salt iterations i) ≡ 32
unfolding pbkdf2_block
length-pbkdf2_block password salt iterations i =
    length-pbkdf2_rounds (iterations - 1) password _ _ ∙ length-hmac_sm3 password _

-- With more fuel than blocks to go the loop ends, and the result is long enough.
pbkdf2_loop_ends :
    (n fuel iterations dklen i : ℕ) (password salt result : Bytes)
    → n < fuel
    → dklen ≤ length result + 32 * n
    → (r : Bytes) × (pbkdf2_loop fuel password salt iterations dklen i result ≡ some r)
      × (dklen ≤ length r)
unfolding pbkdf2_loop
pbkdf2_loop_ends n zero iterations dklen i password salt result f lo = absurd (omega arith)
pbkdf2_loop_ends zero (suc fuel) iterations dklen i password salt result f lo =
    (result, rw (le→ltb (length result) dklen (omega arith)) refl, omega arith)
pbkdf2_loop_ends (suc n) (suc fuel) iterations dklen i password salt result f lo =
    let block = pbkdf2_block password salt iterations i in
    let longer = length-append result block in
    let lb = length-pbkdf2_block password salt iterations i in
    let (r, e, l) =
      pbkdf2_loop_ends n fuel iterations dklen (u32 (i + 1)) password salt (result ++ block)
        (omega arith) (omega arith) in
    elim (Bool-cases (ltb (length result) dklen)) [
      | inl more ↦ (r, rw more e, l)
      | inr done ↦ (result, rw done refl, ground arith)
    ]

-- With at least one iteration and a length within the bound of RFC 2898 the call ends, and gives a
-- key of exactly that length.
pub pbkdf2_lem :
    (password salt : Bytes) (iterations dklen : ℕ)
    → 0 < iterations
    → dklen ≤ 0xffff_ffff * 32
    → (key : Bytes) × (pbkdf2 password salt iterations dklen ≡ some (ok key)) × (length key ≡ dklen)
unfolding pbkdf2
pbkdf2_lem password salt iterations dklen some_rounds few =
    let (r, e, l) =
      pbkdf2_loop_ends (dklen / 32 + 1) (dklen / 32 + 2) iterations dklen 1 password salt []
        (omega arith) (omega arith) in
    let rounds : (iterations == 0) ≡ false = ground arith in
    let fits = le→ltb (0xffff_ffff * 32) dklen few in
    elim (Bool-cases (dklen == 0)) [
      | inl p ↦ ([], rw (rounds, fits, p) refl, ground arith)
      | inr p ↦ (take dklen r, rw (rounds, fits, p, e) refl, length-take_le dklen r l)
    ]

take_twice : (n : ℕ) (xs : Bytes) → take n (take n xs) ≡ take n xs
take_twice zero xs = refl
take_twice (suc n) [] = refl
take_twice (suc n) (x ∷ xs) = ap (λ (t : Bytes). x ∷ t) (take_twice n xs)

pbkdf2_loop-take :
    (fuel iterations dklen i : ℕ) (password salt result : Bytes)
    → pbkdf2_loop fuel password (take 64 salt) iterations dklen i result
      ≡ pbkdf2_loop fuel password salt iterations dklen i result
unfolding pbkdf2_loop pbkdf2_block
pbkdf2_loop-take zero iterations dklen i password salt result = refl
pbkdf2_loop-take (suc fuel) iterations dklen i password salt result =
    rw
      (
        take_twice 64 salt,
        pbkdf2_loop-take fuel iterations dklen (u32 (i + 1)) password salt
            (result ++ pbkdf2_block password salt iterations i),
      )
      refl

-- The key depends on the first sixty-four bytes of the salt alone, whatever follows them.
pub pbkdf2-take :
    (password salt : Bytes) (iterations dklen : ℕ)
    → pbkdf2 password salt iterations dklen ≡ pbkdf2 password (take 64 salt) iterations dklen
unfolding pbkdf2
pbkdf2-take password salt iterations dklen =
    rw (pbkdf2_loop-take (dklen / 32 + 2) iterations dklen 1 password salt []) refl

-- The call reports an error in two cases and no other: no iterations, or a length out of bounds.
pub pbkdf2_error_iff :
    (password salt : Bytes) (iterations dklen : ℕ) (e : Error)
    → (pbkdf2 password salt iterations dklen ≡ some (err e)) ↔ (
        ((iterations ≡ 0) × (e ≡ invalid_input))
        ⊎ ((0 < iterations) × (0xffff_ffff * 32 < dklen) × (e ≡ invalid_input_length)))
unfolding pbkdf2
pbkdf2_error_iff password salt iterations dklen e = (reported, refused)
  where
    reported :
        pbkdf2 password salt iterations dklen ≡ some (err e)
        → ((iterations ≡ 0) × (e ≡ invalid_input))
          ⊎ ((0 < iterations) × (0xffff_ffff * 32 < dklen) × (e ≡ invalid_input_length))
    reported h = elim (Bool-cases (iterations == 0)) [
      | inl p ↦ inl ((==_iff iterations 0).0 p, ground (arith, rw p at h))
      | inr p ↦ elim (Bool-cases (ltb (0xffff_ffff * 32) dklen)) [
        | inl q ↦
            inr (ground arith, ltb→lt (0xffff_ffff * 32) dklen q, ground (arith, rw (p, q) at h))
        | inr q ↦
            let (key, made, l) =
              pbkdf2_lem password salt iterations dklen (ground arith)
                (ltb→le (0xffff_ffff * 32) dklen q) in
            cc
      ]
    ]

    refused :
        ((iterations ≡ 0) × (e ≡ invalid_input))
          ⊎ ((0 < iterations) × (0xffff_ffff * 32 < dklen) × (e ≡ invalid_input_length))
        → pbkdf2 password salt iterations dklen ≡ some (err e)
    refused (inl (z, w)) = rw (z, w) refl
    refused (inr (s, l, w)) =
        let rounds : (iterations == 0) ≡ false = ground arith in
        rw (rounds, lt→ltb (0xffff_ffff * 32) dklen l, w) refl
