-- ===== src/Examples/Sm2.antt =====
-- src/sm2: instances of the theorems on DER.
use libsmx.Base.{
  ℕ, bit_or, ◌%◌, ◌<◌, ◌≡◌, refl, some, [], ◌∷◌, ◌++◌, length, length-replicate, take, drop,
  replicate, arith,
}
use libsmx.Base.Words.{Bytes, from_be_bytes}
use libsmx.Base.Outcome.{ok}
use libsmx.Sm2.Der.{sig_to_der, sig_from_der, wrap_sequence, wrap_set, parse_tlv}
use libsmx.Sm2.Der.Signature.{sig_from_der-sig_to_der}
use libsmx.Sm2.Private
use libsmx.Sm2.Private.{PrivateKey}
use libsmx.Sm2.Der.Keys.{
  private_key_to_pkcs8_der, private_key_from_pkcs8_der, parse_tlv-short,
  private_key_from_pkcs8_der-private_key_to_pkcs8_der,
}
use libsmx.Sm2.Der.Tags.{wrap_explicit_tag, wrap_implicit_tag}
use libsmx.Sm2.Der.Tags.RoundTrip.{parse_tlv-wrap_tag}
use libsmx.Sm2.Der.Tlv.{parse_tlv-wrap, parse_tlv-wrap_sequence_long}

-- `r` has leading zeros, `s` its top bit set.
abbrev raw : Bytes
raw = replicate 31 0 ++ (0x42 ∷ (0xff ∷ replicate 31 7))

sig_from_der-sig_to_der_example : sig_from_der (sig_to_der raw) ≡ ok raw
sig_from_der-sig_to_der_example = sig_from_der-sig_to_der raw refl

parse_tlv-wrap_example :
    (parse_tlv (wrap_sequence raw ++ (5 ∷ [])) 0x30 ≡ some (raw, 5 ∷ []))
    × (parse_tlv (wrap_set raw ++ (5 ∷ [])) 0x31 ≡ some (raw, 5 ∷ []))
parse_tlv-wrap_example = parse_tlv-wrap raw (5 ∷ []) (omega arith)

unfoldable long_content : Bytes
long_content = replicate 65536 0

length-long_content : length long_content ≡ 65536
unfolding long_content
length-long_content = length-replicate {A = ℕ} 65536 0

parse_tlv-wrap_sequence_long_example :
    (parse_tlv (wrap_sequence long_content) 0x30
      ≡ some (
        take (length long_content % 65536) long_content,
        drop (length long_content % 65536) long_content,
      ))
    × (length (take (length long_content % 65536) long_content) < length long_content)
parse_tlv-wrap_sequence_long_example =
    parse_tlv-wrap_sequence_long long_content (omega (arith, length-long_content))

-- The algorithm identifier of an elliptic curve key over the curve of SM2.
abbrev algorithm : Bytes
algorithm =
    0x06 ∷ 0x07 ∷ 0x2a ∷ 0x86 ∷ 0x48 ∷ 0xce ∷ 0x3d ∷ 0x02 ∷ 0x01 ∷ 0x06 ∷ 0x08 ∷ 0x2a ∷ 0x81 ∷ 0x1c
    ∷ 0xcf ∷ 0x55 ∷ 0x01 ∷ 0x82 ∷ 0x2d ∷ []

abbrev some_key : PrivateKey
some_key = record { bytes = replicate 31 0 ++ (0x42 ∷ []) }

valid_key : Private.from_bytes some_key.bytes ≡ ok some_key
unfolding Private.from_bytes from_be_bytes
valid_key = refl

private_key_from_pkcs8_der-private_key_to_pkcs8_der_example :
    private_key_from_pkcs8_der (private_key_to_pkcs8_der (0x30 ∷ 19 ∷ algorithm) some_key)
    ≡ ok some_key
private_key_from_pkcs8_der-private_key_to_pkcs8_der_example =
    private_key_from_pkcs8_der-private_key_to_pkcs8_der (0x30 ∷ 19 ∷ algorithm) algorithm some_key
      (λ rest. parse_tlv-short 0x30 19 algorithm rest refl (omega arith)) (omega arith) refl
      valid_key

parse_tlv-wrap_tag_example :
    ((out : Bytes) × (wrap_explicit_tag 3 (replicate 300 1) ≡ ok out)
      × (parse_tlv (out ++ (5 ∷ [])) (bit_or 0xa0 3) ≡ some (replicate 300 1, 5 ∷ [])))
    × ((out : Bytes) × (wrap_implicit_tag 3 (replicate 300 1) ≡ ok out)
        × (parse_tlv (out ++ (5 ∷ [])) (bit_or 0x80 3) ≡ some (replicate 300 1, 5 ∷ [])))
parse_tlv-wrap_tag_example =
    parse_tlv-wrap_tag 3 (replicate 300 1) (5 ∷ []) (omega (arith, length-replicate {A = ℕ} 300 1))
