-- ===== src/Sm2/Private.antt =====
-- src/sm2/mod.rs: `PrivateKey`, and the key pairs from a source of random bytes: the list of what
-- `fill_bytes` gives, call after call. `none` is a loop that has used up the list.
use libsmx.Base.{ℕ, ◌==◌, ltb, not, ◌||◌, if◌then◌else◌, Bool, List, [], ◌∷◌, Option, none, some}
use libsmx.Base.Words.{Bytes, from_be_bytes}
use libsmx.Base.Outcome.{Error, Outcome, ok, err, panic, invalid_private_key, ◌>>=◌}
use libsmx.Monty.{Monty}
use libsmx.Sm2.Field.{group_order_minus_1}
use libsmx.Sm2.Ec.{to_affine}
use libsmx.Sm2.Ec.Multiply.{scalar_mul_g}
use libsmx.Sm2.Ec.Encode.{to_bytes}
use libsmx.Sm2.Public
use libsmx.Sm2.Public.{PublicKey}

-- `expect`, `unwrap`
abbrev pub expect {ℓ} : {A : Type ℓ} → Outcome A → Outcome A
expect (ok a) = ok a
expect (err e) = panic
expect panic = panic

-- `map_err` with one error for all
abbrev pub map_err {ℓ} : {A : Type ℓ} → Outcome A → Error → Outcome A
map_err (ok a) why = ok a
map_err (err e) why = err why
map_err panic why = panic

pub record PrivateKey : Type 0 where
  pub bytes : Bytes

abbrev pub secret : PrivateKey → ℕ
secret key = from_be_bytes 0 key.bytes

abbrev pub not_a_secret : ℕ → Bool
not_a_secret d = d == 0 || not (ltb d group_order_minus_1)

unfoldable pub from_bytes : Bytes → Outcome PrivateKey
from_bytes bytes =
    if not_a_secret (from_be_bytes 0 bytes)
    then err invalid_private_key
    else ok (record { bytes = bytes })

module _ (f : Monty) where
  unfoldable pub public_key : PrivateKey → Outcome PublicKey
  public_key key = expect (to_affine f (scalar_mul_g f (secret key))) >>= λ pub_aff.
      expect (Public.from_bytes f (to_bytes f pub_aff))

  unfoldable pub generate_keypair : List Bytes → Option (PrivateKey × Outcome PublicKey)
  generate_keypair [] = none
  generate_keypair (d_bytes ∷ draws) =
      let rest = generate_keypair draws in
      let priv_key : PrivateKey = record { bytes = d_bytes } in
      if not_a_secret (from_be_bytes 0 d_bytes) then rest else some (priv_key, public_key priv_key)
