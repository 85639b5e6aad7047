-- ===== src/Sm2/Der/Tlv.antt =====
-- Reading a TLV that `wrap_sequence` or `wrap_set` wrote (src/sm2/der.rs).
use libsmx.Base.{
  ℕ, ◌*◌, ◌/◌, ◌%◌, ◌^◌, ◌≤◌, ◌<◌, ltb, ltb→lt, le→ltb, false, some, ◌≡◌, refl, ap, ◌∙◌, inl, inr,
  ◌∷◌, ◌++◌, length, take, drop, arith, Bool-cases, bit_and, bit_or, take-append, drop-append,
  length-append, length-take, append_assoc, ==_refl,
}
use libsmx.Base.Bits.{or_disjoint, and_mask}
use libsmx.Base.Words.{Bytes, u8}
use libsmx.Sm2.Der.{parse_length, parse_tlv, push_length, wrap_sequence, wrap_set}

two_bytes : (n : ℕ) → bit_or (u8 (n / 2 ^ 8) * 2 ^ 8) (u8 (bit_and n 0xff)) ≡ n % 65536
two_bytes n =
    let low : u8 (bit_and n 0xff) ≡ n % 256 = omega (arith, and_mask 8 n) in
    ap (λ (t : ℕ). bit_or (u8 (n / 2 ^ 8) * 2 ^ 8) t) low
    ∙ or_disjoint 8 (u8 (n / 2 ^ 8)) (n % 256) (omega arith)
    ∙ omega arith

-- The length that is read is the one written, modulo 2 ^ 16.
parse_length-push_length :
    (n : ℕ) (xs : Bytes) → parse_length (push_length n ++ xs) ≡ some (n % 65536, xs)
unfolding parse_length push_length
parse_length-push_length n xs = elim (Bool-cases (ltb n 128)) [
  | inl p ↦
      let h = ltb→lt n 128 p in
      let e : u8 n ≡ n = omega arith in
      let e' : n % 65536 ≡ n = omega arith in rw (p, e, p, e') refl
  | inr p ↦ elim (Bool-cases (ltb n 256)) [
    | inl q ↦ let h = ltb→lt n 256 q in let e : u8 n ≡ n % 65536 = omega arith in rw (p, q, e) refl
    | inr q ↦ rw (p, q, two_bytes n) refl
  ]
]

tlv_lem :
    (tag : ℕ) (content rest : Bytes)
    → length content < 65536
    → parse_tlv (tag ∷ (push_length (length content) ++ (content ++ rest))) tag
      ≡ some (content, rest)
unfolding parse_tlv
tlv_lem tag content rest h =
    let n : length content % 65536 ≡ length content = omega arith in
    let fits : ltb (length (content ++ rest)) (length content) ≡ false =
      le→ltb _ _ (omega (arith, length-append content rest)) in
    rw
      (
        ==_refl tag,
        parse_length-push_length (length content) (content ++ rest),
        n,
        fits,
        take-append (length content) content rest refl,
        drop-append (length content) content rest refl,
      )
      refl

-- A SEQUENCE or SET of less than 2 ^ 16 bytes of content, with any bytes after it, is read back as
-- that content and those bytes.
pub parse_tlv-wrap :
    (content rest : Bytes)
    → length content < 65536
    → (parse_tlv (wrap_sequence content ++ rest) 0x30 ≡ some (content, rest))
      × (parse_tlv (wrap_set content ++ rest) 0x31 ≡ some (content, rest))
unfolding wrap_sequence wrap_set
parse_tlv-wrap content rest h = (
  ap (λ (t : Bytes). parse_tlv (0x30 ∷ t) 0x30)
        (append_assoc (push_length (length content)) content rest)
      ∙ tlv_lem 0x30 content rest h,
  ap (λ (t : Bytes). parse_tlv (0x31 ∷ t) 0x31)
        (append_assoc (push_length (length content)) content rest)
      ∙ tlv_lem 0x31 content rest h,
)

-- Of a longer content, the SEQUENCE that is written is read back with only its first bytes, as many
-- as the length modulo 2 ^ 16, and the others are left over.
pub parse_tlv-wrap_sequence_long :
    (content : Bytes)
    → 65536 ≤ length content
    → (parse_tlv (wrap_sequence content) 0x30
        ≡ some (take (length content % 65536) content, drop (length content % 65536) content))
      × (length (take (length content % 65536) content) < length content)
unfolding wrap_sequence parse_tlv
parse_tlv-wrap_sequence_long content h =
    let fits : ltb (length content) (length content % 65536) ≡ false = le→ltb _ _ (omega arith) in
    (
      rw (parse_length-push_length (length content) content, fits) refl,
      omega (arith, length-take (length content % 65536) content),
    )
