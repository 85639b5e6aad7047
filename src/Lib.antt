-- ===== src/Lib.antt =====
-- Verification library of libsmx, a Rust library of the Chinese commercial cryptography standards.
--
-- The program's parts, with the file that models each:
-- - src/sm4/cipher.rs, the SM4 block cipher: Sm4/Cipher.antt, with the S-box circuit in
--   Sm4/Cipher/Sbox.antt. `Sm4Key` is the record of round keys, `[u32; 4]` the record `State`;
--   `tau`, `t_enc`, `t_key`, `expand_key`, `encrypt_block`, `decrypt_block` keep their names. The
--   gates of `sbox_ct` and `tau` are the same, and are written once. Proofs: Sm4/Cipher/RoundTrip,
--   Sm4/Cipher/Lanes (the four lanes of `tau`) and Sm4/Cipher/Table (the standard's table).
-- - src/sm4/padding.rs: Sm4/Padding.antt, laws in Sm4/Padding/Laws.antt.
-- - src/sm4/modes.rs: Sm4/Modes.antt and its children; Sm4/Modes/Basic.antt has ECB, CBC, OFB, CFB
--   and CTR, over the block cipher and the padding; Gcm, Ccm, Ocb, Siv, Eax, Xts and KeyWrap have a
--   module each.
--   Fuel-free counted loops: `inc_down`, `mul_byte`, `wrap_rounds`.
-- - src/sm2/der.rs: Sm2/Der.antt has the signature codec, `parse_length`, `parse_tlv`,
--   `wrap_sequence` and `wrap_set`, proofs in Sm2/Der/Signature.antt and Sm2/Der/Tlv.antt;
--   Sm2/Der/Keys.antt private keys in SEC1 and PKCS#8 form, Sm2/Der/Tags.antt tagged values and long
--   lengths, whose loop has fuel for the eight bytes of a `usize`, with a proof in Sm2/Der/Tags/RoundTrip.antt.
-- - src/sm2/field.rs: Sm2/Field.antt, the functions on Fp and Fn over a `Monty` (Monty.antt), the record
--   that stands for `ConstMontyForm` of the crate crypto-bigint, with what its documentation promises.
-- - src/sm2/ec.rs: Sm2/Ec.antt has the points and `double`, `add`, `add_mixed`; Sm2/Ec/Multiply.antt the
--   multiplications by a number, Sm2/Ec/Encode.antt the encodings. A loop over the bits of a byte
--   recurs on the bits left. Proofs: Sm2/Ec/Identities (identities of polynomials, by the solver of
--   Algebra/Numeric), OnCurve, Constants, Multiples, Digits and
--   Affine.
-- - src/sm2/mod.rs: Sm2/Public.antt and Sm2/Private.antt have the keys, Sm2/Sign.antt signatures,
--   Sm2/Encrypt.antt encryption and KEM; proofs in Sm2/Public/Laws, Sm2/Sign/Equation, Accepted,
--   Messages and Digests, and Sm2/Encrypt/RoundTrip. A loop that draws random bytes recurs on the list of draws.
--   That the points form a group of order n is not proved; the theorems on `verify`, `decrypt` and the
--   key exchange name the equation of two points that they need as a hypothesis.
-- - src/sm2/key_exchange.rs: Sm2/KeyExchange.antt, proofs in Sm2/KeyExchange/Agreement.antt.
-- - src/sm3: Sm3/Compress.antt has the compression function, Sm3/Hash.antt the streaming hasher
--   `Sm3Hasher`, Sm3/Hmac.antt HMAC at once and streaming, and Sm3/Hkdf.antt HKDF; a method that
--   changes its hasher returns the changed one. Sm3/Reference.antt states the hash and HMAC as the standards do; proofs
--   in Sm3/Refines, Sm3/Updates, Sm3/Finalize and Sm3/Streaming.
-- - src/kdf.rs: Kdf.antt has the SM2/SM9 derivation and PBKDF2. Their `while` loops have fuel, more
--   than the blocks that the length needs; Kdf/Laws.antt and Kdf/Pbkdf2.antt prove that it suffices.
-- - src/sm9/fields: Sm9/Fields/Fp.antt, Fp2.antt, Fp12.antt and Frobenius.antt have the base field
--   (`ConstMontyForm` of crypto-bigint, a parameter), and the tower over it; proofs in
--   Sm9/Fields/Products and Inverses. Algebra has commutative rings, a solver for their equations
--   and the rings of polynomials that the tower is compared with.
-- - src/sm9/groups/g1.rs: Sm9/Groups/G1.antt, proofs in Sm9/Groups/G1/OnCurve.antt.
-- - src/fpe: Fpe/Fnr.antt has the seven-round network on the first bits of a block, Fpe/Key.antt
--   `FpeKey`; proofs in Fpe/Bits, Fpe/Xor, Fpe/Halves and Fpe/RoundTrip for the network, Fpe/Saved
--   and Fpe/Calls for the calls on a key.
-- - src/error.rs: `Error` in Base/Outcome.antt.
--
-- Base holds what all parts share: lists over the native numbers, the laws of the bitwise
-- operations at every width (Base/Bits), single digits of bytes (Base/Places), words and their bytes (Base/Words), exclusive or of byte
-- strings (Base/Bytes), `chunks(n)` (Base/Chunks) and results with errors and panics (Base/Outcome).
--
-- Modelling. A byte or a word is a natural number; that it is below 2 ^ 8 or 2 ^ 32 is a hypothesis
-- where a statement needs it, and every wrap-around and cast is written out. Arrays and slices are
-- lists. A function that asserts or returns a `Result` gives an `Outcome`: a value, an `Error` or a
-- panic. A loop over `chunks(16)` recurs on the list of chunks; `chunks` itself recurs on the
-- length of its input as fuel, which suffices since each piece has an item. Loops that count recur
-- on the rounds left. Zeroizing, allocation and constant-time execution have no value, and are not
-- modelled.
--
-- Not modelled: the PEM and SPKI forms of SM2 keys, the rest of SM9 (square roots, G2, the
-- pairing, keys), BLS, certificates and the rustls provider.
pub mod Base
pub mod Sm4
pub mod Sm2
pub mod Sm3
pub mod Kdf
pub mod Algebra
pub mod Monty
pub mod Sm9
pub mod Fpe
mod Examples
