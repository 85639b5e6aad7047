-- ===== src/Examples/Kdf.antt =====
-- src/kdf.rs: instances of the theorems.
use libsmx.Base.{ℕ, ◌≡◌, ◌<◌, ◌⊎◌, ◌↔◌, ◌*◌, [], length, take, replicate, some, arith}
use libsmx.Base.Words.{Bytes}
use libsmx.Base.Outcome.{err, invalid_input, invalid_input_length}
use libsmx.Kdf.{kdf_with_info, pbkdf2}
use libsmx.Kdf.Laws.{key_stream, kdf_with_info_lem}
use libsmx.Kdf.Pbkdf2.{pbkdf2_error_iff}

abbrev secret : Bytes
secret = replicate 20 0x61

kdf_with_info_example :
    (kdf_with_info secret 48 [] ≡ some (take 48 (key_stream secret [] 2 1)))
    × (length (take 48 (key_stream secret [] 2 1)) ≡ 48)
kdf_with_info_example = kdf_with_info_lem secret [] 48 (omega arith)

pbkdf2_error_iff_example : (pbkdf2 secret secret 0 16 ≡ some (err invalid_input)) ↔ (
    ((◌≡◌ {A = ℕ} 0 0) × (◌≡◌ invalid_input invalid_input))
    ⊎ ((0 < 0) × (0xffff_ffff * 32 < 16) × (◌≡◌ invalid_input invalid_input_length)))
pbkdf2_error_iff_example = pbkdf2_error_iff secret secret 0 16 invalid_input
