-- ===== src/Kdf.antt =====
-- src/kdf.rs: the key derivations. A `while` loop has fuel, and is `none` when it runs out. The block
-- counters are `u32` that wrap around, as in a build without overflow checks.
pub mod Laws
pub mod Pbkdf2
use libsmx.Base.{
  ℕ, zero, suc, ◌+◌, ◌-◌, ◌*◌, ◌/◌, ◌==◌, ltb, if◌then◌else◌, List, [], ◌∷◌, ◌++◌, length, take,
  Option, none, some,
}
use libsmx.Base.Words.{Bytes, u32, to_be_bytes}
use libsmx.Base.Bytes.{xor_bytes}
use libsmx.Base.Outcome.{Outcome, ok, err, invalid_input, invalid_input_length}
use libsmx.Sm3.Hash.{hasher_new, update, finalize}
use libsmx.Sm3.Hmac.{hmac_sm3}

-- `result.truncate(len)` of what a loop gives.
abbrev pub truncate : ℕ → Option Bytes → Option Bytes
truncate len none = none
truncate len (some result) = some (take len result)

unfoldable pub kdf_block : Bytes → Bytes → ℕ → Bytes
kdf_block z shared_info counter =
    let h = update (update hasher_new z) (to_be_bytes 4 counter) in
    finalize (if length shared_info == 0 then h else update h shared_info)

unfoldable pub kdf_loop : ℕ → Bytes → ℕ → Bytes → ℕ → Bytes → Option Bytes
kdf_loop zero z klen shared_info counter result = none
kdf_loop (suc fuel) z klen shared_info counter result =
    let rest =
      kdf_loop fuel z klen shared_info (u32 (counter + 1))
        (result ++ kdf_block z shared_info counter) in
    if ltb (length result) klen then rest else some result

unfoldable pub kdf_with_info : Bytes → ℕ → Bytes → Option Bytes
kdf_with_info z klen shared_info =
    if klen == 0 then some [] else truncate klen (kdf_loop (klen / 32 + 2) z klen shared_info 1 [])

unfoldable pub kdf : Bytes → ℕ → Option Bytes
kdf z klen = kdf_with_info z klen []

-- `for _ in 1..iterations`, with the rounds left.
unfoldable pub pbkdf2_rounds : ℕ → Bytes → Bytes → Bytes → Bytes
pbkdf2_rounds zero password u t = t
pbkdf2_rounds (suc left) password u t =
    let u' = hmac_sm3 password u in pbkdf2_rounds left password u' (xor_bytes t u')

unfoldable pub pbkdf2_block : Bytes → Bytes → ℕ → ℕ → Bytes
pbkdf2_block password salt iterations block_index =
    let u = hmac_sm3 password (take 64 salt ++ to_be_bytes 4 block_index) in
    pbkdf2_rounds (iterations - 1) password u u

unfoldable pub pbkdf2_loop : ℕ → Bytes → Bytes → ℕ → ℕ → ℕ → Bytes → Option Bytes
pbkdf2_loop zero password salt iterations dklen block_index result = none
pbkdf2_loop (suc fuel) password salt iterations dklen block_index result =
    let rest =
      pbkdf2_loop fuel password salt iterations dklen (u32 (block_index + 1))
        (result ++ pbkdf2_block password salt iterations block_index) in
    if ltb (length result) dklen then rest else some result

abbrev pub ok_some : Option Bytes → Option (Outcome Bytes)
ok_some none = none
ok_some (some result) = some (ok result)

unfoldable pub pbkdf2 : Bytes → Bytes → ℕ → ℕ → Option (Outcome Bytes)
pbkdf2 password salt iterations dklen =
    if iterations == 0
    then some (err invalid_input)
    else if ltb (0xffff_ffff * 32) dklen
    then some (err invalid_input_length)
    else if dklen == 0
    then some (ok [])
    else (ok_some
        (truncate dklen (pbkdf2_loop (dklen / 32 + 2) password salt iterations dklen 1 [])))
