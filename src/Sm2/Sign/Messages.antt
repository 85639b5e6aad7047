-- ===== src/Sm2/Sign/Messages.antt =====
-- src/sm2/mod.rs: `verify_message` takes what `sign_message` gives, with the key pair's public key.
use libsmx.Base.{
  ℕ, ◌<◌, All, some, ◌≡◌, refl, sym, ap, subst, ◌∙◌, List, [], ◌∷◌, ◌++◌, length, length-append,
  arith,
}
use libsmx.Base.Words.{Bytes, from_be_bytes, length-to_be_bytes}
use libsmx.Base.Outcome.{ok, ◌>>=◌}
use libsmx.Monty.{Monty}
use libsmx.Sm2.Field.{field_modulus, group_order, fp_to_bytes}
use libsmx.Sm2.Ec.{AffinePoint, to_affine}
use libsmx.Sm2.Ec.Multiply.{scalar_mul_g, multi_scalar_mul}
use libsmx.Sm2.Ec.Encode
use libsmx.Sm2.Encrypt.RoundTrip.{from_bytes-scalar_mul_g}
use libsmx.Sm2.Public
use libsmx.Sm2.Public.{PublicKey}
use libsmx.Sm2.Private.{PrivateKey, secret, public_key}
use libsmx.Sm2.Sign.{sign_with_k, sign, get_z, get_e, sign_message, verify_message}
use libsmx.Sm2.Sign.Accepted.{r_of, s_of, verify-sign_with_k, sign-Some}

All-middle :
    {A : Type 0} (P : A → Type 0) (before : List A) (x : A) (after : List A)
    → All P (before ++ (x ∷ after))
    → P x
All-middle P [] x after h = h.0
All-middle P (y ∷ before) x after h = All-middle P before x after h.1

module _ (f g : Monty) where
  -- s G + (r + s) P and k G are one point.
  abbrev pub IsSamePoint : AffinePoint f → Bytes → ℕ → Type 0
  IsSamePoint pa sig k =
      multi_scalar_mul f (s_of sig) (g.retrieve (g.ring.plus (g.new (r_of sig)) (g.new (s_of sig))))
        pa
      ≡ to_affine f (scalar_mul_g f k)

  abbrev pub encoded : AffinePoint f → PublicKey
  encoded pa = record { bytes = Encode.to_bytes f pa }

  pub public_key-encoded :
      (key : PrivateKey) (pa : AffinePoint f)
      → to_affine f (scalar_mul_g f (secret key)) ≡ ok pa
      → public_key f key ≡ ok (encoded pa)
  unfolding public_key Public.from_bytes Encode.to_bytes
  public_key-encoded key pa h =
      let size : length (fp_to_bytes f pa.x ++ fp_to_bytes f pa.y) ≡ 64 = omega (
        arith,
        length-append (fp_to_bytes f pa.x) (fp_to_bytes f pa.y),
        length-to_be_bytes 32 (f.retrieve pa.x),
        length-to_be_bytes 32 (f.retrieve pa.y),
      ) in
      rw (h, size) refl

  -- With the standard's modulus and order, let d G be the point P. Then P, encoded, is the public key, and `verify_message` takes a
  -- signature that `sign_message` gives, if s G + (r + s) P and k G are one point for each draw k
  -- that is from 1 to n - 1 and has this signature. There is such a draw.
  pub verify_message-sign_message :
      f.modulus ≡ field_modulus
      → g.modulus ≡ group_order
      → (msg id : Bytes) (key : PrivateKey) (pa : AffinePoint f) (draws : List Bytes) (sig : Bytes)
      → to_affine f (scalar_mul_g f (secret key)) ≡ ok pa
      → sign_message f g msg id key draws ≡ ok (some sig)
      → let e = get_e (get_z f g id (Encode.to_bytes f pa)) msg in
        All
          (λ draw.
            let k = from_be_bytes 0 draw in
            0 < k → k < group_order → sign_with_k f g e key k ≡ ok sig → IsSamePoint pa sig k)
          draws
        → (public_key f key ≡ ok (encoded pa))
          × (verify_message f g msg id (Encode.to_bytes f pa) sig ≡ ok tt)
          × ((before : List Bytes) × (draw : Bytes) × (after : List Bytes) × (draws
                ≡ before ++ (draw ∷ after))
              × (0 < from_be_bytes 0 draw)
              × (from_be_bytes 0 draw < group_order)
              × (sign_with_k f g e key (from_be_bytes 0 draw) ≡ ok sig))
  unfolding sign_message verify_message
  verify_message-sign_message hf hg msg id key pa draws sig is_pa h same =
      let e = get_e (get_z f g id (Encode.to_bytes f pa)) msg in
      let public = public_key-encoded key pa is_pa in
      let run : ok (sign f g e key draws) ≡ ok (some sig) =
        sym (
          ap
            (λ r. r >>= λ pub_key. ok (sign f g (get_e (get_z f g id pub_key.bytes) msg) key draws))
            public)
        ∙ h in
      let signed : sign f g e key draws ≡ some sig = cc in
      let (before, draw, after, split, rejected, range, made) =
        sign-Some f g e key draws sig signed in
      let positive : 0 < from_be_bytes 0 draw = ground (arith, range) in
      let below : from_be_bytes 0 draw < group_order = ground (arith, range) in
      let same_here =
        All-middle _ before draw after (subst (All _) split same) positive below made in
      (
        public,
        verify-sign_with_k f g hg e key (from_be_bytes 0 draw) sig (Encode.to_bytes f pa) pa
            (from_bytes-scalar_mul_g f hf (secret key) pa is_pa) made same_here,
        (before, draw, after, split, positive, below, made),
      )
