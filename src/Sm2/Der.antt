-- ===== src/Sm2/Der.antt =====
-- src/sm2/der.rs: DER encodings of signatures and private keys, and the reading of lengths and TLVs.
-- `as u8` is `% 256`; `split_first` is a match on the list.
pub mod Signature
pub mod Tlv
pub mod Keys
pub mod Tags
use libsmx.Base.{
  ℕ, zero, suc, ◌+◌, ◌-◌, ◌*◌, ◌/◌, ◌%◌, ◌^◌, ◌==◌, ltb, bit_and, bit_or, if◌then◌else◌, not, ◌||◌,
  Bool, true, false, Option, none, some, List, [], ◌∷◌, ◌++◌, length, take, drop, replicate,
  copy_at, get_or,
}
use libsmx.Base.Words.{Bytes, u8}
use libsmx.Base.Outcome.{Outcome, ok, err, invalid_signature, ◌>>=◌, ok_or}

-- `bytes.iter().position(|&b| b != 0)`
unfoldable pub position_nonzero : Bytes → Option ℕ
position_nonzero [] = none
position_nonzero (b ∷ bs) =
    let rest : Option ℕ = elim (position_nonzero bs) [ none ↦ none | some i ↦ some (suc i) ] in
    if b == 0 then rest else some 0

unfoldable pub unwrap_or : Option ℕ → ℕ → ℕ
unwrap_or none d = d
unwrap_or (some i) d = i

unfoldable pub encode_integer32 : Bytes → Bytes
unfolding unwrap_or position_nonzero
encode_integer32 bytes =
    let start = unwrap_or (position_nonzero bytes) (length bytes - 1) in
    let val = drop start bytes in
    let needs_pad = not (bit_and (get_or val 0 0) 0x80 == 0) in
    let val_len = length val + (if needs_pad then 1 else 0) in
    0x02 ∷ u8 val_len ∷ ((if needs_pad then 0x00 ∷ [] else []) ++ val)

unfoldable pub sig_to_der : Bytes → Bytes
sig_to_der raw =
    let r_enc = encode_integer32 (take 32 raw) in
    let s_enc = encode_integer32 (drop 32 raw) in
    0x30 ∷ u8 (length r_enc + length s_enc) ∷ (r_enc ++ s_enc)

unfoldable pub decode_integer32 : Bytes → Option (Bytes × Bytes)
decode_integer32 [] = none
decode_integer32 (tag ∷ []) = none
decode_integer32 (tag ∷ len ∷ rest) =
    if not (tag == 0x02)
    then none
    else if ltb (length rest) len
    then none
    else some (take len rest, drop len rest)

-- `saturating_sub` is the subtraction of ℕ.
unfoldable pub strip_leading_zero : Bytes → Bytes
unfolding position_nonzero unwrap_or
strip_leading_zero bytes = drop (unwrap_or (position_nonzero bytes) (length bytes - 1)) bytes

-- The checks and copies behind the parsing of `r` and `s`.
unfoldable pub assemble : Bytes → Bytes → Outcome Bytes
assemble r_bytes s_bytes =
    if length r_bytes == 0
      || (ltb 33 (length r_bytes) || (length s_bytes == 0 || ltb 33 (length s_bytes)))
    then err invalid_signature
    else let r_stripped = strip_leading_zero r_bytes in
      let s_stripped = strip_leading_zero s_bytes in
      if ltb 32 (length r_stripped) || ltb 32 (length s_stripped)
      then err invalid_signature
      else let raw = copy_at (replicate 64 0) (32 - length r_stripped) r_stripped in
        ok (copy_at raw (32 + (32 - length s_stripped)) s_stripped)

unfoldable pub sig_body : Bytes → Outcome Bytes
sig_body body = do
  (r_bytes, body') ← ok_or (decode_integer32 body) invalid_signature
  (s_bytes, rest) ← ok_or (decode_integer32 body') invalid_signature
  if not (length rest == 0) then err invalid_signature else assemble r_bytes s_bytes

unfoldable pub sig_from_der : Bytes → Outcome Bytes
sig_from_der [] = err invalid_signature
sig_from_der (tag ∷ []) = err invalid_signature
sig_from_der (tag ∷ seq_len ∷ rest) =
    if not (tag == 0x30)
    then err invalid_signature
    else if ltb (length rest) seq_len
    then err invalid_signature
    else sig_body (take seq_len rest)

-- The long forms: one, two or three bytes of length.
unfoldable pub read_one : Bytes → Option (ℕ × Bytes)
read_one [] = none
read_one (len ∷ rest) = some (len, rest)

unfoldable pub read_two : Bytes → Option (ℕ × Bytes)
read_two [] = none
read_two (x ∷ []) = none
read_two (x ∷ y ∷ rest) = some (bit_or (x * 2 ^ 8) y, rest)

unfoldable pub read_three : Bytes → Option (ℕ × Bytes)
read_three [] = none
read_three (x ∷ []) = none
read_three (x ∷ y ∷ []) = none
read_three (x ∷ y ∷ z ∷ rest) = some (bit_or (bit_or (x * 2 ^ 16) (y * 2 ^ 8)) z, rest)

unfoldable pub parse_length : Bytes → Option (ℕ × Bytes)
unfolding read_one read_two read_three
parse_length [] = none
parse_length (first ∷ rest) =
    if ltb first 0x80
    then some (first, rest)
    else if first == 0x81
    then read_one rest
    else if first == 0x82
    then read_two rest
    else if first == 0x83
    then read_three rest
    else none

unfoldable pub parse_tlv : Bytes → ℕ → Option (Bytes × Bytes)
parse_tlv [] expected_tag = none
parse_tlv (tag ∷ rest) expected_tag =
    if not (tag == expected_tag) then none else elim (parse_length rest) [
      | none ↦ none
      | some (len, rest') ↦
          if ltb (length rest') len then none else some (take len rest', drop len rest')
    ]

-- The length bytes that `wrap_sequence` and `wrap_set` push.
unfoldable pub push_length : ℕ → Bytes
push_length len =
    if ltb len 128
    then u8 len ∷ []
    else if ltb len 256
    then 0x81 ∷ u8 len ∷ []
    else 0x82 ∷ u8 (len / 2 ^ 8) ∷ u8 (bit_and len 0xff) ∷ []

unfoldable pub wrap_sequence : Bytes → Bytes
wrap_sequence content = 0x30 ∷ (push_length (length content) ++ content)

unfoldable pub wrap_set : Bytes → Bytes
wrap_set content = 0x31 ∷ (push_length (length content) ++ content)
