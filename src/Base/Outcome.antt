-- ===== src/Base/Outcome.antt =====
-- What a call of the library comes to: a value, an `Error`, or a panic (a failed `assert!`, an
-- index out of range, an arithmetic overflow under checks). Only the errors that the modelled
-- modules construct are listed.
use mathlib.Core.Path.{◌≡◌, refl}
use mathlib.Core.Option.{Option, none, some}

-- Code: src/error.rs, `Error`.
pub data Error : Type 0 where
  invalid_private_key : Error
  invalid_public_key : Error
  invalid_signature : Error
  verify_failed : Error
  decrypt_failed : Error
  point_at_infinity : Error
  invalid_input_length : Error
  key_exchange_failed : Error
  auth_tag_mismatch : Error
  invalid_padding : Error
  invalid_nonce_length : Error
  invalid_tag : Error
  not_on_curve : Error
  zero_scalar : Error
  integer_out_of_range : Error
  invalid_input : Error

pub data Outcome {ℓ} (A : Type ℓ) : Type ℓ where
  ok : A → Outcome A
  err : Error → Outcome A
  panic : Outcome A

infixl 5 ◌>>=◌ ◌>>◌
abbrev pub ◌>>=◌ {ℓ κ} : {A : Type ℓ} {B : Type κ} → Outcome A → (A → Outcome B) → Outcome B
ok a >>= f = f a
err e >>= f = err e
panic >>= f = panic

abbrev pub ◌>>◌ {ℓ} : {B : Type ℓ} → Outcome (Unit {0}) → Outcome B → Outcome B
m >> k = m >>= λ _. k

-- `opt.ok_or_else(err)?`
abbrev pub ok_or {ℓ} : {A : Type ℓ} → Option A → Error → Outcome A
ok_or none e = err e
ok_or (some a) e = ok a

pub >>=_assoc {ℓ κ} :
    {A : Type ℓ} {B : Type κ} (m : Outcome A) (f : A → Outcome A) (g : A → Outcome B)
    → (m >>= λ a. f a >>= g) ≡ (m >>= f >>= g)
>>=_assoc (ok a) f g = refl
>>=_assoc (err e) f g = refl
>>=_assoc panic f g = refl

-- A chain that came to a value: its first step did, and so did the rest.
pub ok-bind {ℓ κ} :
    {V : Type ℓ} {W : Type κ} {w : W} (rest : V → Outcome W) (first : Outcome V)
    → (first >>= rest) ≡ ok w
    → (v : V) × (first ≡ ok v) × (rest v ≡ ok w)
ok-bind rest panic e = cc
ok-bind rest (err why) e = cc
ok-bind rest (ok v) e = (v, refl, e)
