-- ===== src/Sm4/Modes/KeyWrap/RoundTrip.antt =====
-- Unwrapping undoes wrapping (src/sm4/modes.rs).
use libsmx.Base.{
  ℕ, zero, suc, ◌+◌, ◌-◌, ◌*◌, ◌/◌, ◌%◌, ◌^◌, ◌<◌, ◌≤◌, ◌==◌, ltb, ==_iff, bit_xor, true, false,
  ◌≡◌, refl, ap, sym, ◌∙◌, List, [], ◌∷◌, ◌++◌, length, take, drop, flatten, arith, All, All-take,
  All-drop, All-append, length-append, length-take, length-drop, take-append-drop, take-append,
  drop-append,
}
use libsmx.Base.Bits.{xor-lt, xor_cancel_right}
use libsmx.Base.Words.{
  Bytes, IsByte, AreBytes, u64, word_of_be, to_be_bytes, from_be_bytes, length-to_be_bytes,
  to_be_bytes-AreBytes, from_be_bytes-to_be_bytes, long_bytes,
}
use libsmx.Base.Chunks.{chunks, chunks-cons, chunks-nil, chunks-flatten, flatten-chunks, AreChunks}
use libsmx.Base.Outcome.{ok, ◌>>=◌}
use libsmx.Sm4.Cipher.{Sm4Key, new, encrypt_block, decrypt_block}
use libsmx.Sm4.Cipher.RoundTrip.{IsBlock, encrypt_block-IsBlock, decrypt_block-encrypt_block}
use libsmx.Sm4.Modes.KeyWrap.{
  Register, icv, wrap_pass, wrap_rounds, unwrap_pass, unwrap_rounds, sm4_key_wrap, sm4_key_unwrap,
}

-- Half a block, `[u8; 8]`.
abbrev IsHalf : Bytes → Type 0
IsHalf h = (length h ≡ 8) × AreBytes h

half_lem : (h : Bytes) → length h ≡ 8 → AreBytes h → to_be_bytes 8 (word_of_be h) ≡ h
half_lem [] e p = absurd (omega arith)
half_lem (a ∷ []) e p = absurd (omega arith)
half_lem (a ∷ b ∷ []) e p = absurd (omega arith)
half_lem (a ∷ b ∷ c ∷ []) e p = absurd (omega arith)
half_lem (a ∷ b ∷ c ∷ d ∷ []) e p = absurd (omega arith)
half_lem (a ∷ b ∷ c ∷ d ∷ e' ∷ []) e p = absurd (omega arith)
half_lem (a ∷ b ∷ c ∷ d ∷ e' ∷ f ∷ []) e p = absurd (omega arith)
half_lem (a ∷ b ∷ c ∷ d ∷ e' ∷ f ∷ g ∷ []) e p = absurd (omega arith)
half_lem (a ∷ b ∷ c ∷ d ∷ e' ∷ f ∷ g ∷ h ∷ []) e (pa, (pb, (pc, (pd, (pe, (pf, (pg, (ph, _)))))))) =
    long_bytes a b c d e' f g h pa pb pc pd pe pf pg ph
half_lem (a ∷ b ∷ c ∷ d ∷ e' ∷ f ∷ g ∷ h ∷ x ∷ xs) e p = absurd (omega arith)

half-lt : (h : Bytes) → length h ≡ 8 → AreBytes h → word_of_be h < 2 ^ 64
unfolding from_be_bytes
half-lt [] e p = absurd (omega arith)
half-lt (a ∷ []) e p = absurd (omega arith)
half-lt (a ∷ b ∷ []) e p = absurd (omega arith)
half-lt (a ∷ b ∷ c ∷ []) e p = absurd (omega arith)
half-lt (a ∷ b ∷ c ∷ d ∷ []) e p = absurd (omega arith)
half-lt (a ∷ b ∷ c ∷ d ∷ e' ∷ []) e p = absurd (omega arith)
half-lt (a ∷ b ∷ c ∷ d ∷ e' ∷ f ∷ []) e p = absurd (omega arith)
half-lt (a ∷ b ∷ c ∷ d ∷ e' ∷ f ∷ g ∷ []) e p = absurd (omega arith)
half-lt (a ∷ b ∷ c ∷ d ∷ e' ∷ f ∷ g ∷ h ∷ []) e (pa, (pb, (pc, (pd, (pe, (pf, (pg, (ph, _)))))))) =
    omega arith
half-lt (a ∷ b ∷ c ∷ d ∷ e' ∷ f ∷ g ∷ h ∷ x ∷ xs) e p = absurd (omega arith)

to_be_bytes-IsHalf : (w : ℕ) → IsHalf (to_be_bytes 8 w)
to_be_bytes-IsHalf w = (length-to_be_bytes 8 w, to_be_bytes-AreBytes 8 w)

module _ (b : Bytes) (h : IsBlock b) where
  high-IsHalf : IsHalf (take 8 b)
  high-IsHalf = let (e, _) = h in (omega (arith, length-take 8 b), All-take IsByte 8 b h.1)

  low-IsHalf : IsHalf (drop 8 b)
  low-IsHalf = let (e, _) = h in (omega (arith, length-drop 8 b), All-drop IsByte 8 b h.1)

join-IsBlock : (a r : Bytes) → IsHalf a → IsHalf r → IsBlock (a ++ r)
join-IsBlock a r (ea, pa) (er, pr) = (omega (arith, length-append a r), All-append IsByte a r pa pr)

-- One step taken back: from the new `A` and the low half, the old `A` and `R[i]`.
module _ (sm4 : Sm4Key) (t : ℕ) (a r : Bytes) (ha : IsHalf a) (hr : IsHalf r) where
  block_lem :
      let block = encrypt_block sm4 (a ++ r) in
      decrypt_block sm4 (
        to_be_bytes 8 (
          bit_xor
            (word_of_be (to_be_bytes 8 (bit_xor (word_of_be (take 8 block)) (u64 t))))
            (u64 t))
        ++ drop 8 block)
      ≡ a ++ r
  block_lem =
      let block = encrypt_block sm4 (a ++ r) in
      let isb = encrypt_block-IsBlock sm4 (a ++ r) in
      let (e, p) = high-IsHalf block isb in
      let bound =
        xor-lt 64 (word_of_be (take 8 block)) (u64 t) (half-lt (take 8 block) e p) (omega arith) in
      rw
        (
          from_be_bytes-to_be_bytes 8 (bit_xor (word_of_be (take 8 block)) (u64 t)) bound,
          xor_cancel_right (word_of_be (take 8 block)) (u64 t),
          half_lem (take 8 block) e p,
          take-append-drop 8 block,
        )
        (decrypt_block-encrypt_block sm4 (a ++ r) (join-IsBlock a r ha hr))

IsRegister : Register → Type 0
IsRegister s = IsHalf s.a × All IsHalf s.r

wrap_pass-IsRegister :
    (sm4 : Sm4Key) (t : ℕ) (a : Bytes) (rs : List Bytes)
    → IsHalf a
    → All IsHalf rs
    → IsRegister (wrap_pass sm4 t a rs)
unfolding wrap_pass IsRegister
wrap_pass-IsRegister sm4 t a [] ha hr = (ha, tt)
wrap_pass-IsRegister sm4 t a (r ∷ rs) ha (hr, hrs) =
    let (x, y) = wrap_pass-IsRegister sm4 (t + 1) _ rs (to_be_bytes-IsHalf _) hrs in
    (x, (low-IsHalf _ (encrypt_block-IsBlock sm4 (a ++ r)), y))

unwrap_pass-wrap_pass :
    (sm4 : Sm4Key) (t : ℕ) (a : Bytes) (rs : List Bytes)
    → IsHalf a
    → All IsHalf rs
    → unwrap_pass sm4 t (wrap_pass sm4 t a rs).a (wrap_pass sm4 t a rs).r ≡ record { a = a; r = rs }
unfolding wrap_pass unwrap_pass
unwrap_pass-wrap_pass sm4 t a [] ha hr = refl
unwrap_pass-wrap_pass sm4 t a (r ∷ rs) ha (hr, hrs) =
    let a' = to_be_bytes 8 (bit_xor (word_of_be (take 8 (encrypt_block sm4 (a ++ r)))) (u64 t)) in
    rw (
      unwrap_pass-wrap_pass sm4 (t + 1) a' rs (to_be_bytes-IsHalf _) hrs,
      block_lem sm4 t a r ha hr,
      take-append 8 a r ha.0,
      drop-append 8 a r ha.0,
    )

wrap_rounds-IsRegister :
    (sm4 : Sm4Key) (n left j : ℕ) (s : Register)
    → IsRegister s
    → IsRegister (wrap_rounds sm4 n left j s)
unfolding wrap_rounds IsRegister
wrap_rounds-IsRegister sm4 n zero j s h = h
wrap_rounds-IsRegister sm4 n (suc left) j s h =
    wrap_rounds-IsRegister sm4 n left (j + 1) _
      (wrap_pass-IsRegister sm4 (n * j + 1) s.a s.r h.0 h.1)

unwrap_rounds-wrap_rounds :
    (sm4 : Sm4Key) (n left j : ℕ) (s : Register)
    → IsRegister s
    → unwrap_rounds sm4 n left j (wrap_rounds sm4 n left j s) ≡ s
unfolding wrap_rounds unwrap_rounds IsRegister
unwrap_rounds-wrap_rounds sm4 n zero j s h = refl
unwrap_rounds-wrap_rounds sm4 n (suc left) j s h =
    rw
      (unwrap_rounds-wrap_rounds sm4 n left (j + 1) (wrap_pass sm4 (n * j + 1) s.a s.r)
        (wrap_pass-IsRegister sm4 (n * j + 1) s.a s.r h.0 h.1))
      (unwrap_pass-wrap_pass sm4 (n * j + 1) s.a s.r h.0 h.1)

-- The pieces of the plaintext, and how many there are.
halves_below :
    (fuel : ℕ) (xs : Bytes)
    → length xs ≤ fuel
    → length xs % 8 ≡ 0
    → AreBytes xs
    → All IsHalf (chunks 8 xs)
halves_below fuel [] h e b = rw (chunks-nil {A = ℕ} 8) tt
halves_below zero (x ∷ xs) h e b = absurd (omega arith)
halves_below (suc fuel) (x ∷ xs) h e b =
    let lt = length-take 8 (x ∷ xs) in
    let ld = length-drop 8 (x ∷ xs) in
    rw (chunks-cons 8 x xs (omega arith)) (
      (omega arith, All-take IsByte 8 (x ∷ xs) b),
      halves_below fuel (drop 8 (x ∷ xs)) (omega arith) (omega arith)
          (All-drop IsByte 8 (x ∷ xs) b),
    )

length-flatten_halves : (rs : List Bytes) → All IsHalf rs → length (flatten rs) ≡ 8 * length rs
length-flatten_halves [] h = refl
length-flatten_halves (r ∷ rs) (hr, hrs) =
    let (e, _) = hr in omega (arith, length-append r (flatten rs), length-flatten_halves rs hrs)

halves-AreChunks : (rs : List Bytes) → All IsHalf rs → AreChunks 8 rs
halves-AreChunks [] h = tt
halves-AreChunks (r ∷ []) (hr, _) = let (e, _) = hr in (omega arith, omega arith)
halves-AreChunks (r ∷ r' ∷ rs) (hr, hrs) = (hr.0, halves-AreChunks (r' ∷ rs) hrs)

length-wrap_pass :
    (sm4 : Sm4Key) (t : ℕ) (a : Bytes) (rs : List Bytes)
    → length (wrap_pass sm4 t a rs).r ≡ length rs
unfolding wrap_pass
length-wrap_pass sm4 t a [] = refl
length-wrap_pass sm4 t a (r ∷ rs) = ap suc (
    length-wrap_pass sm4 (t + 1)
      (to_be_bytes 8 (bit_xor (word_of_be (take 8 (encrypt_block sm4 (a ++ r)))) (u64 t))) rs)

length-wrap_rounds :
    (sm4 : Sm4Key) (n left j : ℕ) (s : Register)
    → length (wrap_rounds sm4 n left j s).r ≡ length s.r
unfolding wrap_rounds
length-wrap_rounds sm4 n zero j s = refl
length-wrap_rounds sm4 n (suc left) j s =
    length-wrap_rounds sm4 n left (j + 1) (wrap_pass sm4 (n * j + 1) s.a s.r)
    ∙ length-wrap_pass sm4 (n * j + 1) s.a s.r

-- What `sm4_key_unwrap` reads of the output of the rounds: the register itself.
module _ (s : Register) (h : IsRegister s) where
  read_length : length (s.a ++ flatten s.r) ≡ 8 + 8 * length s.r
  unfolding IsRegister
  read_length =
      let (ha, _) = h in
      let (e, _) = ha in
      omega (arith, length-append s.a (flatten s.r), length-flatten_halves s.r h.1)

  read_a : take 8 (s.a ++ flatten s.r) ≡ s.a
  unfolding IsRegister
  read_a = take-append 8 s.a (flatten s.r) h.0.0

  read_r : chunks 8 (drop 8 (s.a ++ flatten s.r)) ≡ s.r
  unfolding IsRegister
  read_r =
      ap (chunks 8) (drop-append 8 s.a (flatten s.r) h.0.0)
      ∙ chunks-flatten 8 s.r (omega arith) (halves-AreChunks s.r h.1)

sm4_key_unwrap_of_rounds :
    (key : Bytes) (s s0 : Register)
    → IsRegister s
    → 0 < length s.r
    → unwrap_rounds (new key) (length s.r) 6 0 s ≡ s0
    → s0.a ≡ icv
    → sm4_key_unwrap key (s.a ++ flatten s.r) ≡ ok (flatten s0.r)
unfolding sm4_key_unwrap
sm4_key_unwrap_of_rounds key s s0 h pos back a0 =
    let len = read_length s h in
    let long : ltb (length (s.a ++ flatten s.r)) 16 ≡ false = ground (arith, len) in
    let aligned : (length (s.a ++ flatten s.r) % 8 == 0) ≡ true =
      (==_iff _ _).1 (omega (arith, len)) in
    let count : (length (s.a ++ flatten s.r) - 8) / 8 ≡ length s.r = omega (arith, len) in
    rw (long, aligned, count, read_a s h, read_r s h, back, a0) refl

-- For every plaintext of a positive number of whole 64-bit pieces, `sm4_key_wrap` succeeds and
-- `sm4_key_unwrap` under the same key gives the plaintext back.
pub sm4_key_unwrap-sm4_key_wrap :
    (key xs : Bytes)
    → AreBytes xs
    → 0 < length xs
    → length xs % 8 ≡ 0
    → (sm4_key_wrap key xs >>= sm4_key_unwrap key) ≡ ok xs
unfolding sm4_key_wrap
sm4_key_unwrap-sm4_key_wrap key xs b pos e =
    let halves = halves_below (length xs) xs (omega arith) e b in
    let back = flatten-chunks 8 xs (omega arith) in
    let total : length xs ≡ 8 * length (chunks 8 xs) =
      sym (ap length back) ∙ length-flatten_halves (chunks 8 xs) halves in
    let count : length xs / 8 ≡ length (chunks 8 xs) = omega (arith, total) in
    let some_bytes : (length xs == 0) ≡ false = ground arith in
    let aligned : (length xs % 8 == 0) ≡ true = (==_iff _ _).1 e in
    let s0 : Register = record { a = icv; r = chunks 8 xs } in
    let h0 : IsRegister s0 = unfold IsRegister in ((refl, omega arith), halves) in
    let n = length (chunks 8 xs) in
    let s = wrap_rounds (new key) n 6 0 s0 in
    let same : length s.r ≡ n = length-wrap_rounds (new key) n 6 0 s0 in
    rw (some_bytes, aligned, count)
      (sm4_key_unwrap_of_rounds key s s0 (wrap_rounds-IsRegister (new key) n 6 0 s0 h0)
          (omega (arith, total, same))
          (ap (λ (m : ℕ). unwrap_rounds (new key) m 6 0 s) same
            ∙ unwrap_rounds-wrap_rounds (new key) n 6 0 s0 h0)
          refl
        ∙ ap ok back)
