-- ===== src/Sm3/Hash.antt =====
-- src/sm3/mod.rs: the streaming hasher. Its `&mut self` methods return the hasher after the call.
use libsmx.Base.{
  ℕ, zero, suc, ◌+◌, ◌-◌, ◌*◌, ◌/◌, min, ltb, ◌==◌, if◌then◌else◌, List, [], ◌∷◌, length, take,
  drop, replicate, set, copy_at, flatten, map,
}
use libsmx.Base.Words.{Bytes, u64, to_be_bytes}
use libsmx.Sm3.Compress.{iv, compress}

pub record Sm3Hasher : Type 0 where
  pub state : List ℕ
  pub buffer : Bytes
  pub buf_len : ℕ
  pub bit_len : ℕ

abbrev pub hasher_new : Sm3Hasher
hasher_new = record { state = iv; buffer = replicate 64 0; buf_len = 0; bit_len = 0 }

abbrev pub reset : Sm3Hasher → Sm3Hasher
reset h = record { state = iv; buffer = replicate 64 0; buf_len = 0; bit_len = 0 }

-- The buffer's block, once it is full.
unfoldable pub flush : Sm3Hasher → Sm3Hasher
flush h =
    if h.buf_len == 64
    then record {
      state = compress h.state h.buffer;
      buffer = h.buffer;
      buf_len = 0;
      bit_len = u64 (h.bit_len + 512);
    }
    else h

-- The first branch of `update`: `count` bytes of `bytes` go behind those of the buffer.
unfoldable pub fill : Sm3Hasher → ℕ → Bytes → Sm3Hasher
fill h count bytes = flush (record {
  state = h.state;
  buffer = copy_at h.buffer h.buf_len (take count bytes);
  buf_len = h.buf_len + count;
  bit_len = h.bit_len;
})

-- The loop on whole blocks, `n` of which are left.
unfoldable pub absorb : ℕ → Sm3Hasher → Bytes → Sm3Hasher
absorb zero h remaining = h
absorb (suc n) h remaining =
    absorb n
      (record {
        state = compress h.state (take 64 remaining);
        buffer = h.buffer;
        buf_len = h.buf_len;
        bit_len = u64 (h.bit_len + 512);
      })
      (drop 64 remaining)

-- What is left, less than a block.
unfoldable pub keep : Sm3Hasher → Bytes → Sm3Hasher
keep h [] = h
keep h (x ∷ xs) = record {
  state = h.state;
  buffer = copy_at h.buffer 0 (x ∷ xs);
  buf_len = length (x ∷ xs);
  bit_len = h.bit_len;
}

unfoldable pub absorb_all : Sm3Hasher → Bytes → Sm3Hasher
absorb_all h remaining =
    let n = length remaining / 64 in keep (absorb n h remaining) (drop (n * 64) remaining)

unfoldable pub update : Sm3Hasher → Bytes → Sm3Hasher
update h bytes =
    let count = min (64 - h.buf_len) (length bytes) in
    if ltb 0 h.buf_len
    then absorb_all (fill h count bytes) (drop count bytes)
    else absorb_all h bytes

-- The words of the digest; the hasher is not used again, or reset.
unfoldable pub finalize_words : Sm3Hasher → List ℕ
finalize_words h =
    let total_bits = u64 (h.bit_len + u64 (h.buf_len * 8)) in
    let marked = set h.buffer h.buf_len 0x80 in
    let used = h.buf_len + 1 in
    if ltb 56 used
    then (compress (compress h.state (copy_at marked used (replicate (64 - used) 0)))
        (copy_at (replicate 64 0) 56 (to_be_bytes 8 total_bits)))
    else (compress h.state
        (copy_at (copy_at marked used (replicate (56 - used) 0)) 56 (to_be_bytes 8 total_bits)))

unfoldable pub finalize : Sm3Hasher → Bytes
finalize h = flatten (map (to_be_bytes 4) (finalize_words h))

unfoldable pub digest : Bytes → Bytes
digest bytes = finalize (update hasher_new bytes)

abbrev pub finalize_reset : Sm3Hasher → Bytes × Sm3Hasher
finalize_reset h = (finalize h, reset h)
