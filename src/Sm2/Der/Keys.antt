-- ===== src/Sm2/Der/Keys.antt =====
-- src/sm2/der.rs: private keys in the forms of SEC1 and PKCS#8. `alg_id` is the DER form of the
-- algorithm identifier, which the crate x509-cert encodes.
use libsmx.Base.{
  ℕ, ◌+◌, ◌<◌, ◌==◌, ltb, le→ltb, false, true, not, if◌then◌else◌, ◌≡◌, refl, sym, ==_refl, ap, ◌∙◌,
  some, [], ◌∷◌, ◌++◌, length, length-append, take-append, drop-append, append-nil, arith,
}
use libsmx.Base.Words.{Bytes, u8}
use libsmx.Base.Bytes.{bytes_eq}
use libsmx.Base.Outcome.{Outcome, ok, err, invalid_private_key, ok_or, ◌>>=◌}
use libsmx.Sm2.Der.{parse_length, parse_tlv}
use libsmx.Sm2.Private
use libsmx.Sm2.Private.{PrivateKey}

unfoldable pub private_key_from_sec1_der : Bytes → Outcome PrivateKey
private_key_from_sec1_der der = do
  (seq_body, after) ← ok_or (parse_tlv der 0x30) invalid_private_key
  (ver_bytes, rest) ← ok_or (parse_tlv seq_body 0x02) invalid_private_key
  if not (bytes_eq ver_bytes (0x01 ∷ [])) then err invalid_private_key else do
    (key_bytes, rest') ← ok_or (parse_tlv rest 0x04) invalid_private_key
    if not (length key_bytes == 32) then err invalid_private_key else Private.from_bytes key_bytes

unfoldable pub private_key_to_sec1_der : PrivateKey → Bytes
private_key_to_sec1_der priv_key = 0x30 ∷ 0x25 ∷ 0x02 ∷ 0x01 ∷ 0x01 ∷ 0x04 ∷ 0x20 ∷ priv_key.bytes

unfoldable pub private_key_to_pkcs8_der : Bytes → PrivateKey → Bytes
private_key_to_pkcs8_der alg_id priv_key =
    let sec1 = private_key_to_sec1_der priv_key in
    let version = 0x02 ∷ 0x01 ∷ 0x00 ∷ [] in
    let priv_oct = 0x04 ∷ u8 (length sec1) ∷ sec1 in
    let inner_len = length version + length alg_id + length priv_oct in
    0x30 ∷ u8 inner_len ∷ (version ++ (alg_id ++ priv_oct))

unfoldable pub private_key_from_pkcs8_der : Bytes → Outcome PrivateKey
private_key_from_pkcs8_der der = do
  (seq_body, after) ← ok_or (parse_tlv der 0x30) invalid_private_key
  (ver_bytes, rest) ← ok_or (parse_tlv seq_body 0x02) invalid_private_key
  if not (bytes_eq ver_bytes (0x00 ∷ [])) then err invalid_private_key else do
    (algorithm, rest') ← ok_or (parse_tlv rest 0x30) invalid_private_key
    (sec1_der, rest'') ← ok_or (parse_tlv rest' 0x04) invalid_private_key
    private_key_from_sec1_der sec1_der

-- A TLV with a short length, and what stands behind it.
pub parse_tlv-short :
    (tag n : ℕ) (content rest : Bytes)
    → length content ≡ n
    → n < 128
    → parse_tlv (tag ∷ n ∷ (content ++ rest)) tag ≡ some (content, rest)
unfolding parse_tlv parse_length
parse_tlv-short tag n content rest h small =
    let fits : ltb (length (content ++ rest)) n ≡ false =
      le→ltb _ _ (omega (arith, length-append content rest)) in
    let short : ltb n 0x80 ≡ true = ground (arith, small) in
    rw (==_refl tag, short, fits, take-append n content rest h, drop-append n content rest h) refl

parse_tlv-whole :
    (tag n : ℕ) (content : Bytes)
    → length content ≡ n
    → n < 128
    → parse_tlv (tag ∷ n ∷ content) tag ≡ some (content, [])
parse_tlv-whole tag n content h small =
    ap (λ (t : Bytes). parse_tlv (tag ∷ n ∷ t) tag) (sym (append-nil content))
    ∙ parse_tlv-short tag n content [] h small

-- A private key of 32 bytes that `from_bytes` takes is read back from its SEC1 form.
pub private_key_from_sec1_der-private_key_to_sec1_der :
    (key : PrivateKey)
    → length key.bytes ≡ 32
    → Private.from_bytes key.bytes ≡ ok key
    → private_key_from_sec1_der (private_key_to_sec1_der key) ≡ ok key
unfolding private_key_from_sec1_der private_key_to_sec1_der
private_key_from_sec1_der-private_key_to_sec1_der key n valid =
    let oct = 0x04 ∷ 0x20 ∷ key.bytes in
    rw
      (
        parse_tlv-whole 0x30 0x25 (0x02 ∷ 0x01 ∷ 0x01 ∷ oct) (omega (arith, n)) (omega arith),
        parse_tlv-short 0x02 1 (0x01 ∷ []) oct refl (omega arith),
        parse_tlv-whole 0x04 0x20 key.bytes n (omega arith),
        n,
      )
      valid

-- And from its PKCS#8 form, where the algorithm identifier is a TLV of less than 84 bytes.
pub private_key_from_pkcs8_der-private_key_to_pkcs8_der :
    (alg_id algorithm : Bytes) (key : PrivateKey)
    → ((rest : Bytes) → parse_tlv (alg_id ++ rest) 0x30 ≡ some (algorithm, rest))
    → length alg_id < 84
    → length key.bytes ≡ 32
    → Private.from_bytes key.bytes ≡ ok key
    → private_key_from_pkcs8_der (private_key_to_pkcs8_der alg_id key) ≡ ok key
unfolding private_key_from_pkcs8_der private_key_to_pkcs8_der
private_key_from_pkcs8_der-private_key_to_pkcs8_der alg_id algorithm key reads small n valid =
    let sec1 = private_key_to_sec1_der key in
    let n39 : length sec1 ≡ 39 = unfold private_key_to_sec1_der in omega (arith, n) in
    let oct = 0x04 ∷ 39 ∷ sec1 in
    let inner = u8 (3 + length alg_id + 41) in
    let body = 0x02 ∷ 0x01 ∷ 0x00 ∷ (alg_id ++ oct) in
    let size : length body ≡ inner = omega (arith, length-append alg_id oct, n39, small) in
    rw
      (
        n39,
        parse_tlv-whole 0x30 inner body size (omega (arith, small)),
        parse_tlv-short 0x02 1 (0x00 ∷ []) (alg_id ++ oct) refl (omega arith),
        reads oct,
        parse_tlv-whole 0x04 39 sec1 n39 (omega arith),
      )
      (private_key_from_sec1_der-private_key_to_sec1_der key n valid)
