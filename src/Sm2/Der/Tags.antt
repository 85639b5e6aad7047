-- ===== src/Sm2/Der/Tags.antt =====
-- src/sm2/der.rs: lengths of any size, tagged values, small integers, and whole TLVs. The `while`
-- loop of `encode_length` has fuel for the eight bytes of a `usize`.
pub mod RoundTrip
use libsmx.Base.{
  ℕ, zero, suc, ◌+◌, ◌/◌, ◌==◌, ltb, bit_and, bit_or, if◌then◌else◌, Option, none, some, [], ◌∷◌,
  ◌++◌, length, take, drop,
}
use libsmx.Base.Words.{Bytes, u8}
use libsmx.Base.Outcome.{Outcome, ok, err, invalid_input, ◌>>=◌}
use libsmx.Sm2.Der.{parse_length}
use libsmx.Sm2.Private.{expect}

unfoldable pub encode_integer : ℕ → Outcome Bytes
encode_integer val = ok (0x02 ∷ 0x01 ∷ val ∷ [])

-- The bytes of the loop, in the order after `reverse`.
unfoldable pub length_bytes : ℕ → ℕ → Bytes → Bytes
length_bytes zero n bytes = bytes
length_bytes (suc fuel) n bytes =
    let rest = length_bytes fuel (n / 256) (u8 (bit_and n 0xff) ∷ bytes) in
    if n == 0 then bytes else rest

unfoldable pub encode_length : Bytes → ℕ → Outcome Bytes
encode_length out len =
    let bytes = length_bytes 8 len [] in
    let num_bytes = length bytes in
    if ltb len 128
    then ok (out ++ (u8 len ∷ []))
    else if ltb 126 num_bytes
    then err invalid_input
    else ok (out ++ (bit_or 0x80 (u8 num_bytes) ∷ bytes))

unfoldable pub wrap_explicit_tag : ℕ → Bytes → Outcome Bytes
wrap_explicit_tag tag content =
    expect (encode_length (bit_or 0xa0 tag ∷ []) (length content)) >>= λ result.
    ok (result ++ content)

unfoldable pub wrap_implicit_tag : ℕ → Bytes → Outcome Bytes
wrap_implicit_tag tag content =
    expect (encode_length (bit_or 0x80 tag ∷ []) (length content)) >>= λ result.
    ok (result ++ content)

-- How many bytes the length takes, by its first byte.
unfoldable pub length_of_length : ℕ → Option ℕ
length_of_length first =
    if ltb first 0x80
    then some 1
    else if first == 0x81
    then some 2
    else if first == 0x82
    then some 3
    else if first == 0x83
    then some 4
    else none

unfoldable pub parse_tlv_any_full : Bytes → Option (Bytes × Bytes)
parse_tlv_any_full [] = none
parse_tlv_any_full (tag ∷ []) = none
parse_tlv_any_full (tag ∷ first ∷ rest) = elim (length_of_length first) [
  | none ↦ none
  | some len_len ↦ elim (parse_length (first ∷ rest)) [
    | none ↦ none
    | some (len, rest') ↦
        let data' = tag ∷ first ∷ rest in
        let total_len = 1 + len_len + len in
        if ltb (length data') total_len
        then none
        else some (take total_len data', drop total_len data')
  ]
]
