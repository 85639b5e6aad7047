-- ===== src/Sm3/Updates.antt =====
-- `update` (src/sm3/mod.rs) adds its bytes to the message that the hasher holds.
use libsmx.Base.{
  ℕ, ◌+◌, ◌-◌, ◌≤◌, ◌<◌, ◌==◌, min, ◌≡◌, refl, sym, ap, ap₂, ◌∙◌, subst, ◌⊎◌, ltb, ltb→le, ==_iff,
  true, false, Bool-cases, inl, inr, [], ◌++◌, append_assoc, append-nil, length, length-append,
  length-take, length-drop, take, drop, copy_at, take-append-drop, drop-ge, arith,
}
use libsmx.Base.Slices.{copy_at-append}
use libsmx.Base.Words.{Bytes, u64}
use libsmx.Sm3.Compress.{compress}
use libsmx.Sm3.Hash.{Sm3Hasher, flush, fill, absorb_all, update}
use libsmx.Sm3.Refines.{Holds, compress-Holds, absorb_all-Holds}

module _ (h : Sm3Hasher) (message bytes : Bytes) (held : Holds h message) where
  abbrev taken : ℕ
  taken = min (64 - h.buf_len) (length bytes)

  abbrev part : Bytes
  part = take taken bytes

  length-part : length part ≡ taken
  length-part = omega (arith, length-take taken bytes)

  -- The bytes that go into the buffer, behind the tail.
  filled : copy_at h.buffer h.buf_len part ≡ held.tail ++ (part ++ drop (length part) held.unused)
  filled =
      ap₂ (λ (b : Bytes) (k : ℕ). copy_at b k part) held.buffered held.counted
      ∙ copy_at-append held.tail held.unused (length held.tail) part refl

  part_full : (h.buf_len + taken == 64) ≡ true → length held.unused ≤ length part
  part_full e =
      omega
        (arith, (==_iff (h.buf_len + taken) 64).0 e, held.counted, held.buffer_full, length-part)

  full-Holds : (h.buf_len + taken == 64) ≡ true → Holds (fill h taken bytes) (message ++ part)
  unfolding fill flush
  full-Holds e =
      let all : copy_at h.buffer h.buf_len part ≡ held.tail ++ part =
        filled
        ∙ ap (λ (t : Bytes). held.tail ++ (part ++ t))
            (drop-ge (length part) held.unused (part_full e))
        ∙ ap (λ (t : Bytes). held.tail ++ t) (append-nil part) in
      let size : length (held.tail ++ part) ≡ 64 =
        length-append held.tail part
        ∙ omega (arith, (==_iff (h.buf_len + taken) 64).0 e, held.counted, length-part) in
      rw e (
        subst
          (λ (b : Bytes).
            Holds
              (record {
                state = compress h.state b;
                buffer = b;
                buf_len = 0;
                bit_len = u64 (h.bit_len + 512);
              })
              (message ++ part))
          (sym all) (compress-Holds h message part (held.tail ++ part) held size size))

  -- Short of a block, all the bytes are in the buffer.
  room_left : (h.buf_len + taken == 64) ≡ false → (h.buf_len + taken < 64) × (length bytes ≤ taken)
  room_left e = let c = held.counted in let s = held.short in (ground arith, ground arith)

  room-Holds : (h.buf_len + taken == 64) ≡ false → Holds (fill h taken bytes) (message ++ part)
  unfolding fill flush
  room-Holds e = rw e (record {
    n = held.n;
    whole = held.whole;
    tail = held.tail ++ part;
    unused = drop (length part) held.unused;
    divided = ap (λ (t : Bytes). t ++ part) held.divided ∙ append_assoc held.whole held.tail part;
    whole_full = held.whole_full;
    buffered = filled ∙ sym (append_assoc held.tail part (drop (length part) held.unused));
    buffer_full = omega (
      arith,
      length-append held.tail part,
      length-drop (length part) held.unused,
      length-part,
      held.buffer_full,
      held.counted,
      (room_left e).0,
    );
    counted = omega (arith, length-append held.tail part, length-part, held.counted);
    short = omega (arith, length-append held.tail part, length-part, held.counted, (room_left e).0);
    folded = held.folded;
    measured = held.measured;
  })

  fill_ends : ((fill h taken bytes).buf_len ≡ 0) ⊎ (drop taken bytes ≡ [])
  unfolding fill flush
  fill_ends = elim (Bool-cases (h.buf_len + taken == 64)) [
    | inl full ↦ inl (rw full refl)
    | inr room ↦ inr (drop-ge taken bytes (room_left room).1)
  ]

  fill-Holds : Holds (fill h taken bytes) (message ++ part)
  fill-Holds = elim (Bool-cases (h.buf_len + taken == 64)) [
    | inl full ↦ full-Holds full
    | inr room ↦ room-Holds room
  ]

  -- `update` adds its bytes to the message that the hasher holds.
  pub update-Holds : Holds (update h bytes) (message ++ bytes)
  unfolding update
  update-Holds = elim (Bool-cases (ltb 0 h.buf_len)) [
    | inl waits ↦ rw waits (
        subst (Holds (absorb_all (fill h taken bytes) (drop taken bytes)))
          (append_assoc message part (drop taken bytes)
            ∙ ap (λ (t : Bytes). message ++ t) (take-append-drop taken bytes))
          (absorb_all-Holds _ _ (drop taken bytes) fill-Holds fill_ends))
    | inr none_wait ↦
        rw none_wait (
          absorb_all-Holds h message bytes held (inl (omega (arith, ltb→le 0 h.buf_len none_wait))))
  ]
