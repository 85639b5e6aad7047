-- ===== src/Sm2/KeyExchange.antt =====
-- src/sm2/key_exchange.rs: ephemeral keys, ECDH and the exchange with confirmations.
pub mod Agreement
use libsmx.Base.{
  ℕ, ◌+◌, ◌%◌, ◌^◌, ◌==◌, not, Bool, true, false, if◌then◌else◌, bit_or, List, [], ◌∷◌, ◌++◌,
  length, take, drop, replicate, get_or, Option, none, some,
}
use libsmx.Base.Bytes.{all_zero}
use libsmx.Base.Words.{Bytes, from_be_bytes, to_be_bytes}
use libsmx.Base.Outcome.{
  Outcome, ok, err, invalid_private_key, invalid_input_length, key_exchange_failed, ◌>>=◌,
}
use libsmx.Sm3.Hash.{Sm3Hasher, hasher_new, update, finalize}
use libsmx.Monty.{Monty}
use libsmx.Sm2.Field.{fp_to_bytes, Fn, fn_add, fn_mul}
use libsmx.Sm2.Ec.{AffinePoint, JacobianPoint, from_affine, to_affine, add}
use libsmx.Sm2.Ec.Multiply.{scalar_mul, scalar_mul_g}
use libsmx.Sm2.Ec.Encode
use libsmx.Sm2.Private.{PrivateKey, secret, not_a_secret, expect, map_err}
use libsmx.Sm2.Sign.{get_z}
use libsmx.Sm2.Encrypt.{kdf_bytes}

unfoldable pub x_bar : Bytes → ℕ
x_bar x_bytes =
    let low = take 16 (drop 16 x_bytes) in
    from_be_bytes 0 (replicate 16 0 ++ (bit_or (get_or low 0 0) 0x80 ∷ drop 1 low))

pub record EphemeralKey : Type 0 where
  pub r_bytes : Bytes
  pub r_point : Bytes

pub record ExchangeResult : Type 0 where
  pub key : Bytes
  pub s_self : Bytes
  pub s_peer : Bytes

-- The updates of one hasher, and its digest.
unfoldable pub hash_updates : List Bytes → Bytes
hash_updates pieces = finalize (absorbed hasher_new pieces)
  where
    absorbed : Sm3Hasher → List Bytes → Sm3Hasher
    absorbed h [] = h
    absorbed h (piece ∷ rest) = absorbed (update h piece) rest

module _ (f g : Monty) where
  -- `EphemeralKey::generate`, with what `fill_bytes` gives, call after call.
  unfoldable pub generate : List Bytes → Option (Outcome EphemeralKey)
  generate [] = none
  generate (r_bytes ∷ draws) =
      let rest = generate draws in
      let r = from_be_bytes 0 r_bytes in
      if not_a_secret r
      then rest
      else some (
          expect (to_affine f (scalar_mul_g f r)) >>= λ r_aff.
          ok (record { r_bytes = r_bytes; r_point = Encode.to_bytes f r_aff }))

  unfoldable pub from_scalar : ℕ → Outcome EphemeralKey
  from_scalar r =
      if not_a_secret r
      then err invalid_private_key
      else map_err (to_affine f (scalar_mul_g f r)) invalid_private_key >>= λ r_aff.
          ok (record { r_bytes = to_be_bytes 32 r; r_point = Encode.to_bytes f r_aff })

  unfoldable pub ecdh : PrivateKey → Bytes → Outcome Bytes
  ecdh my_priv peer_pub = Encode.from_bytes f peer_pub >>= λ peer.
      to_affine f (scalar_mul f (secret my_priv) (from_affine f peer)) >>= λ shared_aff.
      ok (fp_to_bytes f shared_aff.x)

  unfoldable pub ecdh_from_slice : PrivateKey → Bytes → Outcome Bytes
  ecdh_from_slice my_priv peer_pub =
      if length peer_pub == 65 then ecdh my_priv peer_pub else err invalid_input_length

  -- t of one side: d + x̄ r modulo n.
  unfoldable pub exponent : PrivateKey → Bytes → AffinePoint f → ℕ
  exponent pri_key_self r_bytes r_self_aff =
      let x_bar_self = x_bar (fp_to_bytes f r_self_aff.x) in
      g.retrieve (
        fn_add g (g.new (secret pri_key_self))
          (fn_mul g (g.new x_bar_self) (g.new (from_be_bytes 0 r_bytes))))

  -- The point of one side, t (P + x̄ R), for the other's P and R.
  unfoldable pub shared_point : ℕ → AffinePoint f → AffinePoint f → JacobianPoint f
  shared_point t peer_pub_aff r_peer_aff =
      let x_bar_peer = x_bar (fp_to_bytes f r_peer_aff.x) in
      let x_bar_peer_r = scalar_mul f x_bar_peer (from_affine f r_peer_aff) in
      scalar_mul f t (add f (from_affine f peer_pub_aff) x_bar_peer_r)

  -- The key and the confirmations S1 and SA from the shared point, and from RA and RB.
  unfoldable pub derive :
      Bool
      → ℕ
      → Bytes
      → Bytes
      → AffinePoint f
      → AffinePoint f
      → AffinePoint f
      → Outcome ExchangeResult
  derive is_initiator klen z_a z_b v_aff r_self_aff r_peer_aff =
      let xv = fp_to_bytes f v_aff.x in
      let yv = fp_to_bytes f v_aff.y in
      let key = kdf_bytes (xv ++ (yv ++ (z_a ++ z_b))) klen in
      let ra = if is_initiator then r_self_aff else r_peer_aff in
      let rb = if is_initiator then r_peer_aff else r_self_aff in
      let hash_v = hash_updates (
        xv
        ∷ z_a
        ∷ z_b
        ∷ fp_to_bytes f ra.x
        ∷ fp_to_bytes f ra.y
        ∷ fp_to_bytes f rb.x
        ∷ fp_to_bytes f rb.y
        ∷ []) in
      let s1 = hash_updates ((0x02 ∷ []) ∷ yv ∷ hash_v ∷ []) in
      let sa = hash_updates ((0x03 ∷ []) ∷ yv ∷ hash_v ∷ []) in
      if all_zero key
      then err key_exchange_failed
      else if is_initiator
      then ok (record { key = key; s_self = sa; s_peer = s1 })
      else ok (record { key = key; s_self = s1; s_peer = sa })

  unfoldable pub compute_shared :
      Bool
      → ℕ
      → Bytes
      → Bytes
      → PrivateKey
      → Bytes
      → Bytes
      → EphemeralKey
      → Bytes
      → Outcome ExchangeResult
  compute_shared is_initiator klen id_a id_b pri_key_self pub_key_a pub_key_b eph_key_self r_peer =
      let z_a = get_z f g id_a pub_key_a in
      let z_b = get_z f g id_b pub_key_b in
      let peer_pub_bytes = if is_initiator then pub_key_b else pub_key_a in
      Encode.from_bytes f eph_key_self.r_point >>= λ r_self_aff.
      Encode.from_bytes f r_peer >>= λ r_peer_aff.
      let t = exponent pri_key_self eph_key_self.r_bytes r_self_aff in
      Encode.from_bytes f peer_pub_bytes >>= λ peer_pub_aff.
      map_err (to_affine f (shared_point t peer_pub_aff r_peer_aff)) key_exchange_failed
      >>= λ v_aff. derive is_initiator klen z_a z_b v_aff r_self_aff r_peer_aff

  unfoldable pub exchange_a :
      ℕ → Bytes → Bytes → PrivateKey → Bytes → Bytes → EphemeralKey → Bytes → Outcome ExchangeResult
  exchange_a klen id_a id_b pri_key_a pub_key_a pub_key_b eph_key_a r_b =
      compute_shared true klen id_a id_b pri_key_a pub_key_a pub_key_b eph_key_a r_b

  unfoldable pub exchange_b :
      ℕ → Bytes → Bytes → PrivateKey → Bytes → Bytes → EphemeralKey → Bytes → Outcome ExchangeResult
  exchange_b klen id_a id_b pri_key_b pub_key_a pub_key_b eph_key_b r_a =
      compute_shared false klen id_a id_b pri_key_b pub_key_a pub_key_b eph_key_b r_a
