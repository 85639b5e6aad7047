-- ===== src/Sm4/Modes/KeyWrap.antt =====
-- src/sm4/modes.rs: RFC 3394 key wrapping. The inner loops over `i` recur on the list of 64-bit
-- pieces with `t = n * j + i` counted along; unwrapping, which runs from the last piece to the first,
-- does the pieces behind a piece before it.
pub mod RoundTrip
use libsmx.Base.{
  ℕ, zero, suc, ◌+◌, ◌-◌, ◌*◌, ◌/◌, ◌%◌, ◌==◌, ltb, bit_xor, if◌then◌else◌, not, ◌||◌, List, [],
  ◌∷◌, ◌++◌, length, take, drop, replicate, flatten,
}
use libsmx.Base.Words.{Bytes, u64, word_of_be, to_be_bytes}
use libsmx.Base.Bytes.{bytes_eq}
use libsmx.Base.Chunks.{chunks}
use libsmx.Base.Outcome.{Outcome, ok, err, invalid_tag, invalid_input_length}
use libsmx.Sm4.Cipher.{Sm4Key, new, encrypt_block, decrypt_block}

-- `A` and `R[1] … R[n]`.
pub record Register : Type 0 where
  pub a : Bytes
  pub r : List Bytes

abbrev pub icv : Bytes
icv = replicate 8 0xa6

unfoldable pub wrap_pass : Sm4Key → ℕ → Bytes → List Bytes → Register
wrap_pass sm4 t a [] = record { a = a; r = [] }
wrap_pass sm4 t a (r ∷ rs) =
    let block = encrypt_block sm4 (a ++ r) in
    let rest =
      wrap_pass sm4 (t + 1) (to_be_bytes 8 (bit_xor (word_of_be (take 8 block)) (u64 t))) rs in
    record { a = rest.a; r = drop 8 block ∷ rest.r }

-- The rounds `j` up to the sixth, with the rounds left.
unfoldable pub wrap_rounds : Sm4Key → ℕ → ℕ → ℕ → Register → Register
wrap_rounds sm4 n zero j s = s
wrap_rounds sm4 n (suc left) j s =
    wrap_rounds sm4 n left (j + 1) (wrap_pass sm4 (n * j + 1) s.a s.r)

unfoldable pub sm4_key_wrap : Bytes → Bytes → Outcome Bytes
sm4_key_wrap key plaintext =
    if length plaintext == 0 || not (length plaintext % 8 == 0)
    then err invalid_input_length
    else let n = length plaintext / 8 in
      let s = wrap_rounds (new key) n 6 0 (record { a = icv; r = chunks 8 plaintext }) in
      ok (s.a ++ flatten s.r)

unfoldable pub unwrap_pass : Sm4Key → ℕ → Bytes → List Bytes → Register
unwrap_pass sm4 t a [] = record { a = a; r = [] }
unwrap_pass sm4 t a (r ∷ rs) =
    let rest = unwrap_pass sm4 (t + 1) a rs in
    let a_xor = bit_xor (word_of_be rest.a) (u64 t) in
    let block = decrypt_block sm4 (to_be_bytes 8 a_xor ++ r) in
    record { a = take 8 block; r = drop 8 block ∷ rest.r }

-- The rounds `j` from the sixth down: `left` rounds, of which the first is `j + left - 1`.
unfoldable pub unwrap_rounds : Sm4Key → ℕ → ℕ → ℕ → Register → Register
unwrap_rounds sm4 n zero j s = s
unwrap_rounds sm4 n (suc left) j s =
    let s' = unwrap_rounds sm4 n left (j + 1) s in unwrap_pass sm4 (n * j + 1) s'.a s'.r

unfoldable pub sm4_key_unwrap : Bytes → Bytes → Outcome Bytes
sm4_key_unwrap key ciphertext =
    if ltb (length ciphertext) 16 || not (length ciphertext % 8 == 0)
    then err invalid_input_length
    else let n = (length ciphertext - 8) / 8 in
      let s =
        unwrap_rounds (new key) n 6 0
          (record { a = take 8 ciphertext; r = chunks 8 (drop 8 ciphertext) }) in
      if not (bytes_eq s.a icv) then err invalid_tag else ok (flatten s.r)
