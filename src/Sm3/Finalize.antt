-- ===== src/Sm3/Finalize.antt =====
-- `finalize` (src/sm3/mod.rs) gives the hash of the message that the hasher holds.
use libsmx.Base.{
  ℕ, suc, ◌+◌, ◌-◌, ◌*◌, ◌/◌, ◌%◌, ◌≡◌, refl, sym, ap, ap₂, ◌∙◌, true, false, ltb, ltb→lt, ltb→le,
  if◌then◌else◌, Bool-cases, inl, inr, List, [], ◌∷◌, ◌++◌, append_assoc, length, length-append,
  length-replicate, drop, replicate, set, copy_at, flatten, map, arith, length-drop,
}
use libsmx.Base.Slices.{set-append, copy_at-append, copy_at-append_all, replicate-add}
use libsmx.Base.Words.{Bytes, u64, to_be_bytes, length-to_be_bytes}
use libsmx.Sm3.Compress.{iv, compress}
use libsmx.Sm3.Hash.{Sm3Hasher, finalize_words, finalize}
use libsmx.Sm3.Reference.{fold_blocks-append, pad_message, sm3_words, sm3}
use libsmx.Sm3.Refines.{Holds}

module _ (h : Sm3Hasher) (message : Bytes) (held : Holds h message) where
  abbrev len_bytes : Bytes
  len_bytes = to_be_bytes 8 (u64 (length message * 8))

  marked_tail : Bytes
  marked_tail = held.tail ++ (0x80 ∷ [])

  -- The buffer with the one bit written behind the tail.
  marked :
      (rest : Bytes) × (set h.buffer h.buf_len 0x80 ≡ marked_tail ++ rest)
      × (length rest + (h.buf_len + 1) ≡ 64)
  unfolding marked_tail
  marked = split held.unused held.buffered held.buffer_full
    where
      split :
          (unused : Bytes)
          → h.buffer ≡ held.tail ++ unused
          → length held.tail + length unused ≡ 64
          → (rest : Bytes) × (set h.buffer h.buf_len 0x80 ≡ marked_tail ++ rest)
            × (length rest + (h.buf_len + 1) ≡ 64)
      split [] b f = absurd (omega (arith, held.short))
      split (y ∷ ys) b f = (
        ys,
        ap (λ (t : Bytes). set t h.buf_len 0x80) b
            ∙ set-append held.tail y ys h.buf_len 0x80 (sym held.counted)
            ∙ sym (append_assoc held.tail (0x80 ∷ []) ys),
        omega (arith, held.counted),
      )

  length-marked_tail : length marked_tail ≡ h.buf_len + 1
  unfolding marked_tail
  length-marked_tail = omega (arith, length-append held.tail (0x80 ∷ []), held.counted)

  length-message : length message ≡ 64 * held.n + h.buf_len
  length-message =
      ap length held.divided
      ∙ length-append held.whole held.tail
      ∙ omega (arith, held.whole_full, held.counted)

  -- The padded message: the whole blocks, the tail with its bit, zeros, the length.
  padded :
      pad_message message
      ≡ held.whole
        ++ (marked_tail
            ++ (replicate (if ltb h.buf_len 56 then 55 - h.buf_len else 119 - h.buf_len) 0
                ++ to_be_bytes 8 (u64 (length message * 8))))
  unfolding pad_message marked_tail
  padded =
      let r : length message % 64 ≡ h.buf_len =
        omega (arith, length-message, held.counted, held.short) in
      let z = replicate (if ltb h.buf_len 56 then 55 - h.buf_len else 119 - h.buf_len) 0 in
      rw r (
        ap (λ (t : Bytes). t ++ (0x80 ∷ z ++ len_bytes)) held.divided
        ∙ append_assoc held.whole held.tail (0x80 ∷ z ++ len_bytes)
        ∙ ap (λ (t : Bytes). held.whole ++ t)
            (sym (append_assoc held.tail (0x80 ∷ []) (z ++ len_bytes))))

  total_bits : u64 (h.bit_len + u64 (h.buf_len * 8)) ≡ u64 (length message * 8)
  total_bits = omega (arith, held.measured, length-message)

  one_block :
      (block : Bytes)
      → pad_message message ≡ held.whole ++ block
      → length block ≡ 64
      → sm3_words message ≡ compress h.state block
  unfolding sm3_words
  one_block block e l =
      let n : length (held.whole ++ block) / 64 ≡ suc held.n =
        omega (arith, length-append held.whole block, held.whole_full) in
      rw (e, n)
        (fold_blocks-append held.n iv held.whole block held.whole_full l
          ∙ ap (λ (t : List ℕ). compress t block) (sym held.folded))

  two_blocks :
      (first second : Bytes)
      → pad_message message ≡ held.whole ++ (first ++ second)
      → length first ≡ 64
      → length second ≡ 64
      → sm3_words message ≡ compress (compress h.state first) second
  unfolding sm3_words
  two_blocks first second e l l' =
      let wider : length (held.whole ++ first) ≡ 64 * suc held.n =
        length-append held.whole first ∙ omega (arith, held.whole_full) in
      let n : length ((held.whole ++ first) ++ second) / 64 ≡ suc (suc held.n) =
        omega (arith, length-append (held.whole ++ first) second) in
      rw (e, ← append_assoc held.whole first second, n)
        (fold_blocks-append (suc held.n) iv (held.whole ++ first) second wider l'
          ∙ ap (λ (t : List ℕ). compress t second)
              (fold_blocks-append held.n iv held.whole first held.whole_full l
                ∙ ap (λ (t : List ℕ). compress t first) (sym held.folded)))

  -- The length still fits behind the one bit.
  ends_in_block : ltb 56 (h.buf_len + 1) ≡ false → finalize_words h ≡ sm3_words message
  unfolding finalize_words
  ends_in_block e =
      let (rest, mk, lr) = marked in
      let used = h.buf_len + 1 in
      let zs = replicate {A = ℕ} (56 - used) 0 in
      let lz : length zs ≡ 56 - used = length-replicate (56 - used) 0 in
      let few = ltb→le 56 used e in
      let r : ltb h.buf_len 56 ≡ true = ground arith in
      let same : 55 - h.buf_len ≡ 56 - used = omega arith in
      let l8 = length-to_be_bytes 8 (u64 (length message * 8)) in
      let lm = length-marked_tail in
      let front : length (marked_tail ++ zs) ≡ 56 = length-append marked_tail zs ∙ omega arith in
      let written : copy_at (copy_at (set h.buffer h.buf_len 0x80) used zs) 56 len_bytes
          ≡ (marked_tail ++ zs) ++ len_bytes =
        ap (λ (t : Bytes). copy_at (copy_at t used zs) 56 len_bytes) mk
        ∙ ap (λ (t : Bytes). copy_at t 56 len_bytes)
            (copy_at-append marked_tail rest used zs lm
              ∙ sym (append_assoc marked_tail zs (drop (length zs) rest)))
        ∙ copy_at-append_all (marked_tail ++ zs) (drop (length zs) rest) 56 len_bytes front
            (omega (arith, length-drop (length zs) rest)) in
      let whole_pad : pad_message message ≡ held.whole ++ ((marked_tail ++ zs) ++ len_bytes) =
        padded
        ∙ rw (r, same)
            (ap (λ (t : Bytes). held.whole ++ t) (sym (append_assoc marked_tail zs len_bytes))) in
      rw (e, total_bits)
        (ap (compress h.state) written
          ∙ sym (
              one_block ((marked_tail ++ zs) ++ len_bytes) whole_pad
                (length-append (marked_tail ++ zs) len_bytes ∙ omega arith)))

  -- The length goes into a block of its own.
  ends_in_next : ltb 56 (h.buf_len + 1) ≡ true → finalize_words h ≡ sm3_words message
  unfolding finalize_words
  ends_in_next e =
      let (rest, mk, lr) = marked in
      let used = h.buf_len + 1 in
      let zs = replicate {A = ℕ} (64 - used) 0 in
      let lz : length zs ≡ 64 - used = length-replicate (64 - used) 0 in
      let many = ltb→lt 56 used e in
      let r : ltb h.buf_len 56 ≡ false = ground arith in
      let l8 = length-to_be_bytes 8 (u64 (length message * 8)) in
      let lm = length-marked_tail in
      let c = held.counted in
      let s = held.short in
      let same : 119 - h.buf_len ≡ (64 - used) + 56 = omega arith in
      let first = marked_tail ++ zs in
      let second = replicate {A = ℕ} 56 0 ++ len_bytes in
      let written : copy_at (set h.buffer h.buf_len 0x80) used zs ≡ first =
        ap (λ (t : Bytes). copy_at t used zs) mk
        ∙ copy_at-append_all marked_tail rest used zs lm (omega arith) in
      let last : copy_at (replicate 64 0) 56 len_bytes ≡ second =
        copy_at-append_all (replicate 56 0) (replicate 8 0) 56 len_bytes refl (omega arith) in
      let whole_pad : pad_message message ≡ held.whole ++ (first ++ second) =
        padded
        ∙ rw (r, same, replicate-add {A = ℕ} (64 - used) 56 0)
            (ap (λ (t : Bytes). held.whole ++ (marked_tail ++ t))
                (append_assoc zs (replicate 56 0) len_bytes)
              ∙ ap (λ (t : Bytes). held.whole ++ t) (sym (append_assoc marked_tail zs second))) in
      rw (e, total_bits)
        (ap₂ (λ (x : Bytes) (y : Bytes). compress (compress h.state x) y) written last
          ∙ sym (
              two_blocks first second whole_pad (length-append marked_tail zs ∙ omega arith)
                (length-append (replicate 56 0) len_bytes ∙ omega arith)))

  -- `finalize` gives the reference hash of the message that the hasher holds.
  pub finalize-Holds : finalize h ≡ sm3 message
  unfolding finalize sm3
  finalize-Holds =
      ap (λ (t : List ℕ). flatten (map (to_be_bytes 4) t))
        (elim (Bool-cases (ltb 56 (h.buf_len + 1))) [
          | inl next ↦ ends_in_next next
          | inr here ↦ ends_in_block here
        ])
