-- ===== src/Kdf/Laws.antt =====
-- The derivation of SM2 and SM9 (src/kdf.rs) ends, and gives what GB/T 32918.4 states.
use libsmx.Base.{
  ℕ, zero, suc, ◌+◌, ◌-◌, ◌*◌, ◌/◌, ◌^◌, ◌≤◌, ◌<◌, ◌==◌, ◌≡◌, refl, sym, ap, ◌∙◌, false, lt→ltb,
  le→ltb, ==_iff, Bool-cases, inl, inr, [], ◌∷◌, ◌++◌, append_assoc, append-nil, length,
  length-append, length-take_le, take, some, arith,
}
use libsmx.Base.Words.{Bytes, u32, to_be_bytes}
use libsmx.Sm3.Hash.{digest}
use libsmx.Sm3.Hkdf.{length-finalize}
use libsmx.Sm3.Reference.{sm3}
use libsmx.Sm3.Streaming.{updates, finalize-updates, digest-eq-sm3}
use libsmx.Kdf.{truncate, kdf_block, kdf_loop, kdf_with_info}

-- `n` blocks of the standard's key stream, SM3(Z ‖ CT ‖ info), from the counter `i`.
unfoldable pub key_stream : Bytes → Bytes → ℕ → ℕ → Bytes
key_stream z info zero i = []
key_stream z info (suc n) i = sm3 (z ++ (to_be_bytes 4 i ++ info)) ++ key_stream z info n (i + 1)

length-sm3 : (m : Bytes) → length (sm3 m) ≡ 32
unfolding digest
length-sm3 m = rw (← digest-eq-sm3 m) (length-finalize _)

kdf_block-eq-sm3 :
    (z info : Bytes) (i : ℕ) → kdf_block z info i ≡ sm3 (z ++ (to_be_bytes 4 i ++ info))
unfolding kdf_block updates
kdf_block-eq-sm3 z [] i = finalize-updates (z ∷ to_be_bytes 4 i ∷ [])
kdf_block-eq-sm3 z (x ∷ xs) i =
    let more : (length (x ∷ xs) == 0) ≡ false = ground arith in
    rw more (
      finalize-updates (z ∷ to_be_bytes 4 i ∷ (x ∷ xs) ∷ [])
      ∙ ap (λ (t : Bytes). sm3 (z ++ (to_be_bytes 4 i ++ t))) (append-nil (x ∷ xs)))

length-key_stream : (z info : Bytes) (n i : ℕ) → length (key_stream z info n i) ≡ 32 * n
unfolding key_stream
length-key_stream z info zero i = omega arith
length-key_stream z info (suc n) i =
    let block = sm3 (z ++ (to_be_bytes 4 i ++ info)) in
    omega (
      arith,
      length-append block (key_stream z info n (i + 1)),
      length-sm3 (z ++ (to_be_bytes 4 i ++ info)),
      length-key_stream z info n (i + 1),
    )

-- With `n` blocks to go and more fuel than that, the loop ends, and adds just those blocks.
kdf_loop_ends :
    (n fuel klen i : ℕ) (z info result : Bytes)
    → n < fuel
    → klen ≤ length result + 32 * n
    → length result + 32 * n < klen + 32
    → i + n < 2 ^ 32
    → kdf_loop fuel z klen info i result ≡ some (result ++ key_stream z info n i)
unfolding kdf_loop key_stream
kdf_loop_ends n zero klen i z info result f lo hi c = absurd (omega arith)
kdf_loop_ends zero (suc fuel) klen i z info result f lo hi c =
    rw (le→ltb (length result) klen (omega arith)) (ap some (sym (append-nil result)))
kdf_loop_ends (suc n) (suc fuel) klen i z info result f lo hi c =
    let block = sm3 (z ++ (to_be_bytes 4 i ++ info)) in
    let counter : u32 (i + 1) ≡ i + 1 = omega arith in
    let longer = length-append result block in
    let lb = length-sm3 (z ++ (to_be_bytes 4 i ++ info)) in
    rw (lt→ltb (length result) klen (omega arith), counter, kdf_block-eq-sm3 z info i)
      (kdf_loop_ends n fuel klen (i + 1) z info (result ++ block) (omega arith) (omega arith)
          (omega arith) (omega arith)
        ∙ ap some (append_assoc result block (key_stream z info n (i + 1))))

-- For every length below 32 * (2 ^ 32 - 2) the loop ends within its fuel, and the derived key is
-- the first `klen` bytes of the standard's key stream, `klen` of them.
pub kdf_with_info_lem :
    (z info : Bytes) (klen : ℕ)
    → klen < 32 * (2 ^ 32 - 2)
    → (kdf_with_info z klen info ≡ some (take klen (key_stream z info ((klen + 31) / 32) 1)))
      × (length (take klen (key_stream z info ((klen + 31) / 32) 1)) ≡ klen)
unfolding kdf_with_info
kdf_with_info_lem z info klen h =
    let n = (klen + 31) / 32 in
    let stream = key_stream z info n 1 in
    let long : length stream ≡ 32 * n = length-key_stream z info n 1 in
    (
      elim (Bool-cases (klen == 0)) [
        | inl p ↦ rw ((==_iff klen 0).0 p) refl
        | inr p ↦ rw p (
            ap (truncate klen) (
              kdf_loop_ends n (klen / 32 + 2) klen 1 z info [] (omega arith) (omega arith)
                (omega arith) (omega arith)))
      ],
      length-take_le klen stream (omega arith),
    )
