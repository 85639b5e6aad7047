-- ===== src/Sm2/Sign.antt =====
-- src/sm2/mod.rs: signatures. `draws` is what `fill_bytes` gives, call after call, and `none` a loop
-- that has used it up. `sign_with_k` never panics.
pub mod Equation
pub mod Accepted
pub mod Messages
pub mod Digests
use libsmx.Base.{
  ℕ, ◌*◌, ◌%◌, ◌^◌, ◌==◌, ltb, not, ◌||◌, if◌then◌else◌, Bool, List, [], ◌∷◌, ◌++◌, length, take,
  drop, Option, none, some,
}
use libsmx.Base.Words.{Bytes, from_be_bytes, to_be_bytes}
use libsmx.Base.Bytes.{bytes_eq}
use libsmx.Base.Outcome.{
  Outcome, ok, err, panic, invalid_signature, invalid_private_key, verify_failed, ok_or, ◌>>=◌,
}
use libsmx.Sm3.Hash.{hasher_new, update, finalize}
use libsmx.Monty.{Monty}
use libsmx.Sm2.Field.{
  curve_a, curve_b, gx, gy, fp_to_bytes, Fn, group_order, fn_add, fn_sub, fn_mul, fn_inv,
}
use libsmx.Sm2.Ec.{to_affine}
use libsmx.Sm2.Ec.Multiply.{scalar_mul_g, multi_scalar_mul}
use libsmx.Sm2.Ec.Encode
use libsmx.Sm2.Private.{PrivateKey, secret, public_key, map_err}

unfoldable pub get_e : Bytes → Bytes → Bytes
get_e z msg = finalize (update (update hasher_new z) msg)

abbrev pub not_a_scalar : ℕ → Bool
not_a_scalar k = k == 0 || not (ltb k group_order)

module _ (f g : Monty) where
  unfoldable pub get_z : Bytes → Bytes → Bytes
  get_z id pub_key =
      let entl = length id * 8 % 2 ^ 16 in
      let h0 = update (update hasher_new (to_be_bytes 2 entl)) id in
      let h1 = update (update h0 (fp_to_bytes f (curve_a f))) (fp_to_bytes f (curve_b f)) in
      let h2 = update (update h1 (fp_to_bytes f (gx f))) (fp_to_bytes f (gy f)) in
      let h3 = update h2 (take 32 (drop 1 pub_key)) in
      finalize (update h3 (take 32 (drop 33 pub_key)))

  -- r, from the digest and the abscissa of k G.
  abbrev pub challenge : Bytes → Bytes → Fn g
  challenge e x1 = fn_add g (g.new (from_be_bytes 0 e)) (g.new (from_be_bytes 0 x1))

  unfoldable pub sign_with_k : Bytes → PrivateKey → ℕ → Outcome Bytes
  sign_with_k e pri_key k = map_err (to_affine f (scalar_mul_g f k)) invalid_signature >>= λ kg_aff.
      let r_fn = challenge e (fp_to_bytes f kg_aff.x) in
      let d_fn = g.new (secret pri_key) in
      if g.retrieve r_fn == 0
      then err invalid_signature
      else if g.retrieve (fn_add g r_fn (g.new k)) == 0
      then err invalid_signature
      else ok_or (fn_inv g (fn_add g g.ring.unit d_fn)) invalid_private_key >>= λ inv.
          let s_fn = fn_mul g inv (fn_sub g (g.new k) (fn_mul g r_fn d_fn)) in
          if g.retrieve s_fn == 0
          then err invalid_signature
          else ok (to_be_bytes 32 (g.retrieve r_fn) ++ to_be_bytes 32 (g.retrieve s_fn))

  -- One round of the loop of `sign`; `none` is `continue`.
  unfoldable pub try_sign : Bytes → PrivateKey → Bytes → Option Bytes
  try_sign e pri_key k_bytes =
      let k = from_be_bytes 0 k_bytes in
      if not_a_scalar k
      then none
      else elim (sign_with_k e pri_key k) [ ok sig ↦ some sig | err why ↦ none | panic ↦ none ]

  unfoldable pub sign : Bytes → PrivateKey → List Bytes → Option Bytes
  sign e pri_key [] = none
  sign e pri_key (k_bytes ∷ draws) =
      let rest = sign e pri_key draws in
      elim (try_sign e pri_key k_bytes) [ none ↦ rest | some sig ↦ some sig ]

  unfoldable pub verify : Bytes → Bytes → Bytes → Outcome (Unit {0})
  verify e pub_key sig =
      let r = from_be_bytes 0 (take 32 sig) in
      let s = from_be_bytes 0 (drop 32 sig) in
      let t = g.retrieve (fn_add g (g.new r) (g.new s)) in
      if not_a_scalar r || not_a_scalar s
      then err invalid_signature
      else if t == 0
      then err verify_failed
      else Encode.from_bytes f pub_key >>= λ pa. multi_scalar_mul f s t pa >>= λ point.
          let r_check = g.retrieve (challenge e (fp_to_bytes f point.x)) in
          if not (bytes_eq (to_be_bytes 32 r) (to_be_bytes 32 r_check))
          then err verify_failed
          else ok tt

  unfoldable pub sign_message : Bytes → Bytes → PrivateKey → List Bytes → Outcome (Option Bytes)
  sign_message msg id pri_key draws = public_key f pri_key >>= λ pub_key.
      ok (sign (get_e (get_z id pub_key.bytes) msg) pri_key draws)

  unfoldable pub verify_message : Bytes → Bytes → Bytes → Bytes → Outcome (Unit {0})
  verify_message msg id pub_key sig = verify (get_e (get_z id pub_key) msg) pub_key sig
