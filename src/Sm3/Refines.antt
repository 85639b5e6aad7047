-- ===== src/Sm3/Refines.antt =====
-- The streaming hasher (src/sm3/mod.rs) stands for the bytes that it was given, however these were
-- divided among the calls of `update`.
use libsmx.Base.{
  ℕ, zero, suc, ◌+◌, ◌*◌, ◌/◌, ◌≤◌, ◌<◌, ◌≡◌, refl, sym, ap, ◌∙◌, subst, ◌⊎◌, inl, inr, List, [],
  ◌∷◌, ◌++◌, append_assoc, append-nil, length, length-append, length-take_le, length-drop, take,
  drop, replicate, take-append-drop, arith,
}
use libsmx.Base.Slices.{take-add, copy_at-append}
use libsmx.Base.Words.{Bytes, u64}
use libsmx.Sm3.Compress.{iv, compress}
use libsmx.Sm3.Hash.{Sm3Hasher, hasher_new, absorb, keep, absorb_all}
use libsmx.Sm3.Reference.{fold_blocks, fold_blocks-append}

-- The hasher holds a message: its state is the fold over the message's whole blocks, of which there
-- are `n`, the buffer begins with the bytes behind them, and `bit_len` counts those of the blocks.
pub record Holds (h : Sm3Hasher) (message : Bytes) : Type 0 where
  pub n : ℕ
  pub whole : Bytes
  pub tail : Bytes
  pub unused : Bytes
  pub divided : message ≡ whole ++ tail
  pub whole_full : length whole ≡ 64 * n
  pub buffered : h.buffer ≡ tail ++ unused
  pub buffer_full : length tail + length unused ≡ 64
  pub counted : h.buf_len ≡ length tail
  pub short : length tail < 64
  pub folded : h.state ≡ fold_blocks n iv whole
  pub measured : h.bit_len ≡ u64 (n * 512)

pub hasher_new-Holds : Holds hasher_new []
unfolding fold_blocks
hasher_new-Holds = record {
  n = 0;
  whole = [];
  tail = [];
  unused = replicate 64 0;
  divided = refl;
  whole_full = omega arith;
  buffered = refl;
  buffer_full = refl;
  counted = refl;
  short = omega arith;
  folded = refl;
  measured = refl;
}

-- A block compressed where no tail waits; the buffer keeps its sixty-four bytes.
pub compress-Holds :
    (h : Sm3Hasher) (message block buffer' : Bytes) (held : Holds h message)
    → length (held.tail ++ block) ≡ 64
    → length buffer' ≡ 64
    → Holds
        (record {
          state = compress h.state (held.tail ++ block);
          buffer = buffer';
          buf_len = 0;
          bit_len = u64 (h.bit_len + 512);
        })
        (message ++ block)
compress-Holds h message block buffer' held full room = record {
  n = suc held.n;
  whole = held.whole ++ (held.tail ++ block);
  tail = [];
  unused = buffer';
  divided =
      ap (λ (t : Bytes). t ++ block) held.divided
      ∙ append_assoc held.whole held.tail block
      ∙ sym (append-nil (held.whole ++ (held.tail ++ block)));
  whole_full = length-append held.whole (held.tail ++ block) ∙ omega (arith, held.whole_full);
  buffered = refl;
  buffer_full = omega arith;
  counted = refl;
  short = omega arith;
  folded =
      ap (λ (t : List ℕ). compress t (held.tail ++ block)) held.folded
      ∙ sym (fold_blocks-append held.n iv held.whole (held.tail ++ block) held.whole_full full);
  measured = omega (arith, held.measured);
}

nil_of_length : (xs : Bytes) → length xs ≡ 0 → xs ≡ []
nil_of_length [] h = refl
nil_of_length (x ∷ xs) h = absurd (omega arith)

module _ (h : Sm3Hasher) (message : Bytes) (held : Holds h message) (e : h.buf_len ≡ 0) where
  tail_nil : held.tail ≡ []
  tail_nil = nil_of_length held.tail (sym held.counted ∙ e)

  length-buffer : length h.buffer ≡ 64
  length-buffer = ap length held.buffered ∙ length-append held.tail held.unused ∙ held.buffer_full

  block-Holds :
      (block : Bytes)
      → length block ≡ 64
      → Holds
          (record {
            state = compress h.state block;
            buffer = h.buffer;
            buf_len = h.buf_len;
            bit_len = u64 (h.bit_len + 512);
          })
          (message ++ block)
  block-Holds block full =
      subst
        (λ (k : ℕ).
          Holds
            (record {
              state = compress h.state block;
              buffer = h.buffer;
              buf_len = k;
              bit_len = u64 (h.bit_len + 512);
            })
            (message ++ block))
        (sym e)
        (subst
          (λ (t : Bytes).
            Holds
              (record {
                state = compress h.state (t ++ block);
                buffer = h.buffer;
                buf_len = 0;
                bit_len = u64 (h.bit_len + 512);
              })
              (message ++ block))
          tail_nil
          (compress-Holds h message block h.buffer held
            (length-append held.tail block ∙ omega (arith, ap length tail_nil)) length-buffer))

  keep-Holds : (xs : Bytes) → length xs < 64 → Holds (keep h xs) (message ++ xs)
  unfolding keep
  keep-Holds [] l = subst (Holds h) (sym (append-nil message)) held
  keep-Holds (x ∷ xs) l = record {
    n = held.n;
    whole = held.whole;
    tail = x ∷ xs;
    unused = drop (length (x ∷ xs)) h.buffer;
    divided =
        ap (λ (t : Bytes). t ++ (x ∷ xs))
          (held.divided ∙ ap (λ (t : Bytes). held.whole ++ t) tail_nil ∙ append-nil held.whole);
    whole_full = held.whole_full;
    buffered = copy_at-append [] h.buffer 0 (x ∷ xs) refl;
    buffer_full = omega (arith, length-drop (length (x ∷ xs)) h.buffer, length-buffer);
    counted = refl;
    short = l;
    folded = held.folded;
    measured = held.measured;
  }

absorb-Holds :
    (n : ℕ) (h : Sm3Hasher) (message remaining : Bytes)
    → Holds h message
    → h.buf_len ≡ 0
    → n * 64 ≤ length remaining
    → Holds (absorb n h remaining) (message ++ take (n * 64) remaining)
      × ((absorb n h remaining).buf_len ≡ 0)
unfolding absorb
absorb-Holds zero h message remaining held e l =
    (subst (Holds h) (sym (append-nil message)) held, e)
absorb-Holds (suc n) h message remaining held e l =
    let ld = length-drop 64 remaining in
    let whole = length-take_le 64 remaining (omega arith) in
    let (rest, done) =
      absorb-Holds n _ (message ++ take 64 remaining) (drop 64 remaining)
        (block-Holds h message held e (take 64 remaining) whole) e (omega arith) in
    let count : 64 + n * 64 ≡ suc n * 64 = omega arith in
    (
      subst (Holds _)
          (append_assoc message (take 64 remaining) (take (n * 64) (drop 64 remaining))
            ∙ ap (λ (t : Bytes). message ++ t) (sym (take-add 64 (n * 64) remaining))
            ∙ ap (λ (k : ℕ). message ++ take k remaining) count)
          rest,
      done,
    )

-- The loop and what it leaves, where no tail waits or nothing is left to take in.
pub absorb_all-Holds :
    (h : Sm3Hasher) (message remaining : Bytes)
    → Holds h message
    → (h.buf_len ≡ 0) ⊎ (remaining ≡ [])
    → Holds (absorb_all h remaining) (message ++ remaining)
unfolding absorb_all keep absorb
absorb_all-Holds h message remaining held (inr e) =
    rw e (subst (Holds h) (sym (append-nil message)) held)
absorb_all-Holds h message remaining held (inl e) =
    let n = length remaining / 64 in
    let (rest, done) = absorb-Holds n h message remaining held e (omega arith) in
    subst (Holds _)
      (append_assoc message (take (n * 64) remaining) (drop (n * 64) remaining)
        ∙ ap (λ (t : Bytes). message ++ t) (take-append-drop (n * 64) remaining))
      (keep-Holds _ _ rest done (drop (n * 64) remaining)
        (omega (arith, length-drop (n * 64) remaining)))
