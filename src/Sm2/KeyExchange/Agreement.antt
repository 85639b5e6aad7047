-- ===== src/Sm2/KeyExchange/Agreement.antt =====
-- src/sm2/key_exchange.rs: both sides of an exchange come to one key, and each confirms the other.
use libsmx.Base.{ℕ, true, false, ◌≡◌, refl, arith}
use libsmx.Base.Words.{Bytes}
use libsmx.Base.Outcome.{Outcome, ok, err, panic, key_exchange_failed, ◌>>=◌}
use libsmx.Monty.{Monty}
use libsmx.Sm2.Ec.{AffinePoint, to_affine}
use libsmx.Sm2.Ec.Encode
use libsmx.Sm2.Private.{PrivateKey, map_err}
use libsmx.Sm2.KeyExchange.{
  EphemeralKey, ExchangeResult, exponent, shared_point, derive, compute_shared, exchange_a,
  exchange_b,
}

-- What the other side has: the confirmations exchanged.
abbrev pub swap : ExchangeResult → ExchangeResult
swap result = record { key = result.key; s_self = result.s_peer; s_peer = result.s_self }

abbrev pub swapped : Outcome ExchangeResult → Outcome ExchangeResult
swapped m = m >>= λ result. ok (swap result)

module _ (f g : Monty) where
  derive-swapped :
      (klen : ℕ) (z_a z_b : Bytes) (v ra rb : AffinePoint f)
      → derive f g false klen z_a z_b v rb ra ≡ swapped (derive f g true klen z_a z_b v ra rb)
  unfolding derive
  derive-swapped klen z_a z_b v ra rb = ground arith

  completed :
      (klen : ℕ) (z_a z_b : Bytes) (ra rb : AffinePoint f) (m : Outcome (AffinePoint f))
      → (map_err m key_exchange_failed >>= λ v. derive f g false klen z_a z_b v rb ra)
        ≡ swapped (map_err m key_exchange_failed >>= λ v. derive f g true klen z_a z_b v ra rb)
  completed klen z_a z_b ra rb (ok v) = derive-swapped klen z_a z_b v ra rb
  completed klen z_a z_b ra rb (err e) = refl
  completed klen z_a z_b ra rb panic = refl

  -- When the two shared points are one, the sides come to one key, or both fail alike, and what
  -- one has sent as its confirmation is what the other expects.
  pub exchange_b-exchange_a :
      (klen : ℕ) (id_a id_b pub_a pub_b : Bytes) (d_a d_b : PrivateKey) (eph_a eph_b : EphemeralKey)
      (pa pb ra rb : AffinePoint f)
      → Encode.from_bytes f pub_a ≡ ok pa
      → Encode.from_bytes f pub_b ≡ ok pb
      → Encode.from_bytes f eph_a.r_point ≡ ok ra
      → Encode.from_bytes f eph_b.r_point ≡ ok rb
      → to_affine f (shared_point f g (exponent f g d_a eph_a.r_bytes ra) pb rb)
        ≡ to_affine f (shared_point f g (exponent f g d_b eph_b.r_bytes rb) pa ra)
      → exchange_b f g klen id_a id_b d_b pub_a pub_b eph_b eph_a.r_point
        ≡ swapped (exchange_a f g klen id_a id_b d_a pub_a pub_b eph_a eph_b.r_point)
  unfolding exchange_a exchange_b compute_shared
  exchange_b-exchange_a klen id_a id_b pub_a pub_b d_a d_b eph_a eph_b pa pb ra rb ha hb ka kb
        same =
      rw (kb, ka, ha, hb, same) (completed klen _ _ ra rb _)
