-- ===== src/Sm2/Der/Tags/RoundTrip.antt =====
-- src/sm2/der.rs: reading what `wrap_explicit_tag` and `wrap_implicit_tag` wrote.
use libsmx.Base.{
  ℕ, ◌+◌, ◌*◌, ◌/◌, ◌%◌, ◌^◌, ◌≤◌, ◌<◌, ◌==◌, ltb, ltb→lt, le→ltb, true, false, some, ◌≡◌, refl, ap,
  ◌∙◌, inl, inr, [], ◌∷◌, ◌++◌, length, arith, Bool-cases, bit_and, bit_or, take-append,
  drop-append, length-append, append_assoc, ==_refl,
}
use libsmx.Base.Bits.{or_disjoint, and_mask}
use libsmx.Base.Words.{Bytes, u8}
use libsmx.Base.Outcome.{ok}
use libsmx.Sm2.Der.{parse_length, read_one, read_two, read_three, parse_tlv}
use libsmx.Sm2.Der.Tags.{length_bytes, encode_length, wrap_explicit_tag, wrap_implicit_tag}

low : (n : ℕ) → u8 (bit_and n 0xff) ≡ n % 256
low n = omega (arith, and_mask 8 n)

-- The bytes of a length, as they are written, and as they are read.
pub record Form (n : ℕ) : Type 0 where
  pub form : Bytes
  pub written : (out : Bytes) → encode_length out n ≡ ok (out ++ form)
  pub read : (xs : Bytes) → parse_length (form ++ xs) ≡ some (n, xs)

short-Form : (n : ℕ) → n < 128 → Form n
unfolding encode_length parse_length
short-Form n h =
    let e : u8 n ≡ n = omega (arith, h) in
    let small : ltb n 128 ≡ true = ground (arith, h) in
    record { form = n ∷ []; written = λ out. rw (small, e) refl; read = λ xs. rw small refl }

one_byte : (n : ℕ) → 128 ≤ n → n < 256 → Form n
unfolding encode_length parse_length length_bytes read_one
one_byte n l h =
    let big : ltb n 128 ≡ false = ground (arith, l) in
    let some_left : (n == 0) ≡ false = ground (arith, l) in
    let done : n / 256 ≡ 0 = omega (arith, h) in
    let value : n % 256 ≡ n = omega (arith, h) in
    record {
      form = 0x81 ∷ n ∷ [];
      written = λ out. rw (big, some_left, done, low n, value) refl;
      read = λ xs. refl;
    }

two_bytes : (n : ℕ) → 256 ≤ n → n < 65536 → Form n
unfolding encode_length parse_length length_bytes read_two
two_bytes n l h =
    let big : ltb n 128 ≡ false = ground (arith, l) in
    let some_left : (n == 0) ≡ false = ground (arith, l) in
    let more : (n / 256 == 0) ≡ false = ground (arith, l) in
    let done : n / 256 / 256 ≡ 0 = omega (arith, h) in
    let value : bit_or (n / 256 % 256 * 2 ^ 8) (n % 256) ≡ n =
      or_disjoint 8 (n / 256 % 256) (n % 256) (omega arith) ∙ omega (arith, h) in
    record {
      form = 0x82 ∷ (n / 256 % 256) ∷ (n % 256) ∷ [];
      written = λ out. rw (big, some_left, more, done, low n, low (n / 256)) refl;
      read = λ xs. ap (λ (t : ℕ). some (t, xs)) value;
    }

three_bytes : (n : ℕ) → 65536 ≤ n → n < 2 ^ 24 → Form n
unfolding encode_length parse_length length_bytes read_three
three_bytes n l h =
    let big : ltb n 128 ≡ false = ground (arith, l) in
    let some_left : (n == 0) ≡ false = ground (arith, l) in
    let more : (n / 256 == 0) ≡ false = ground (arith, l) in
    let more' : (n / 256 / 256 == 0) ≡ false = ground (arith, l) in
    let done : n / 256 / 256 / 256 ≡ 0 = omega (arith, h) in
    let upper : bit_or (n / 256 / 256 % 256 * 2 ^ 16) (n / 256 % 256 * 2 ^ 8)
        ≡ n / 256 / 256 % 256 * 2 ^ 16 + n / 256 % 256 * 2 ^ 8 =
      or_disjoint 16 (n / 256 / 256 % 256) (n / 256 % 256 * 2 ^ 8) (omega arith) in
    let value : bit_or (bit_or (n / 256 / 256 % 256 * 2 ^ 16) (n / 256 % 256 * 2 ^ 8)) (n % 256)
        ≡ n =
      ap (λ (t : ℕ). bit_or t (n % 256)) (upper ∙ omega (arith, h))
      ∙ or_disjoint 8 (n / 256) (n % 256) (omega arith)
      ∙ omega (arith, h) in
    record {
      form = 0x83 ∷ (n / 256 / 256 % 256) ∷ (n / 256 % 256) ∷ (n % 256) ∷ [];
      written = λ out.
          rw (big, some_left, more, more', done, low n, low (n / 256), low (n / 256 / 256)) refl;
      read = λ xs. ap (λ (t : ℕ). some (t, xs)) value;
    }

length-Form : (n : ℕ) → n < 2 ^ 24 → Form n
length-Form n h = elim (Bool-cases (ltb n 128)) [
  | inl p ↦ short-Form n (ltb→lt n 128 p)
  | inr p ↦ elim (Bool-cases (ltb n 256)) [
    | inl q ↦ one_byte n (ground (arith, p)) (ltb→lt n 256 q)
    | inr q ↦ elim (Bool-cases (ltb n 65536)) [
      | inl r ↦ two_bytes n (ground (arith, q)) (ltb→lt n 65536 r)
      | inr r ↦ three_bytes n (ground (arith, r)) h
    ]
  ]
]

tagged :
    (tag : ℕ) (content rest : Bytes) (w : Form (length content))
    → parse_tlv ((tag ∷ (w.form ++ content)) ++ rest) tag ≡ some (content, rest)
unfolding parse_tlv
tagged tag content rest w =
    let fits : ltb (length (content ++ rest)) (length content) ≡ false =
      le→ltb _ _ (omega (arith, length-append content rest)) in
    rw
      (
        ==_refl tag,
        append_assoc w.form content rest,
        w.read (content ++ rest),
        fits,
        take-append (length content) content rest refl,
        drop-append (length content) content rest refl,
      )
      refl

-- A content of less than 2 ^ 24 bytes is wrapped, without an error or a panic, in a TLV that is read
-- back under its tag as that content, whatever stands behind it.
pub parse_tlv-wrap_tag :
    (tag : ℕ) (content rest : Bytes)
    → length content < 2 ^ 24
    → ((out : Bytes) × (wrap_explicit_tag tag content ≡ ok out)
        × (parse_tlv (out ++ rest) (bit_or 0xa0 tag) ≡ some (content, rest)))
      × ((out : Bytes) × (wrap_implicit_tag tag content ≡ ok out)
          × (parse_tlv (out ++ rest) (bit_or 0x80 tag) ≡ some (content, rest)))
unfolding wrap_explicit_tag wrap_implicit_tag
parse_tlv-wrap_tag tag content rest h =
    let w = length-Form (length content) h in
    (
      (
        bit_or 0xa0 tag ∷ (w.form ++ content),
        rw (w.written (bit_or 0xa0 tag ∷ [])) refl,
        tagged (bit_or 0xa0 tag) content rest w,
      ),
      (
        bit_or 0x80 tag ∷ (w.form ++ content),
        rw (w.written (bit_or 0x80 tag ∷ [])) refl,
        tagged (bit_or 0x80 tag) content rest w,
      ),
    )
