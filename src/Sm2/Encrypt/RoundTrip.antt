-- ===== src/Sm2/Encrypt/RoundTrip.antt =====
-- src/sm2/mod.rs: what is encrypted is decrypted, and an encapsulated key is recovered.
use libsmx.Base.{
  ℕ, suc, ◌-◌, ◌*◌, ◌^◌, ◌<◌, ◌≤◌, ltb, if◌then◌else◌, not, ◌&&◌, ◌==◌, Bool, true, false, Option,
  none, some, ◌≡◌, refl, sym, ap, ap₂, subst, ◌∙◌, [], ◌∷◌, ◌++◌, length, length-append, take, drop,
  take-append, drop-append, append_assoc, arith,
}
use libsmx.Base.Words.{Bytes, from_be_bytes, length-to_be_bytes}
use libsmx.Base.Bytes.{bytes_eq_refl}
use libsmx.Base.Bits.{xor_cancel_right}
use libsmx.Base.Outcome.{Outcome, ok, err, panic}
use libsmx.Monty.{Monty}
use libsmx.Kdf.{kdf}
use libsmx.Sm3.Hkdf.{length-finalize}
use libsmx.Sm2.Sign.{not_a_scalar}
use libsmx.Kdf.Laws.{kdf_with_info_lem}
use libsmx.Sm2.Field.{field_modulus, fp_to_bytes}
use libsmx.Sm2.Ec.{AffinePoint, from_affine, to_affine}
use libsmx.Sm2.Ec.Multiply.{scalar_mul, scalar_mul_g}
use libsmx.Sm2.Ec.Encode
use libsmx.Sm2.Ec.Multiples.{scalar_mul_g-IsOnCurve}
use libsmx.Sm2.Ec.Affine.{to_affine-IsOnCurve, from_bytes-to_bytes}
use libsmx.Sm2.Private.{PrivateKey, secret}
use libsmx.Sm2.Encrypt.{
  or_empty, kdf_bytes, or_bytes, zip_xor, check_hash, or_continue, z_input, try_encrypt, open_with,
  decrypt, try_kem, kem_decrypt,
}

zip_xor_cancel : (xs ys : Bytes) → length xs ≤ length ys → zip_xor (zip_xor xs ys) ys ≡ xs
unfolding zip_xor
zip_xor_cancel [] ys h = refl
zip_xor_cancel (x ∷ xs) [] h = absurd (omega arith)
zip_xor_cancel (x ∷ xs) (y ∷ ys) h =
    ap₂ ◌∷◌ (xor_cancel_right x y) (zip_xor_cancel xs ys (omega (arith, h)))

length-zip_xor : (xs ys : Bytes) → length xs ≤ length ys → length (zip_xor xs ys) ≡ length xs
unfolding zip_xor
length-zip_xor [] ys h = refl
length-zip_xor (x ∷ xs) [] h = absurd (omega arith)
length-zip_xor (x ∷ xs) (y ∷ ys) h = ap suc (length-zip_xor xs ys (omega (arith, h)))

length-kdf_bytes : (z : Bytes) (n : ℕ) → n < 32 * (2 ^ 32 - 2) → length (kdf_bytes z n) ≡ n
unfolding kdf
length-kdf_bytes z n h =
    let (value, size) = kdf_with_info_lem z [] n h in ap (λ t. length (or_empty t)) value ∙ size

length-check_hash : (x2 m y2 : Bytes) → length (check_hash x2 m y2) ≡ 32
unfolding check_hash
length-check_hash x2 m y2 = length-finalize _

not_taken :
    {A : Type 0} (b : Bool) (x : Option A) (a : A)
    → (if b then none else x) ≡ some a
    → (b ≡ false) × (x ≡ some a)
not_taken true x a h = cc
not_taken false x a h = (refl, h)

module _ (f : Monty) where
  or_continue-Some :
      {B : Type 0} (m : Outcome (AffinePoint f)) (rest : AffinePoint f → Option B) (b : B)
      → or_continue f m rest ≡ some b
      → (p : AffinePoint f) × (m ≡ ok p) × (rest p ≡ some b)
  unfolding or_continue
  or_continue-Some (ok p) rest b h = (p, refl, h)
  or_continue-Some (err e) rest b h = cc
  or_continue-Some panic rest b h = cc

  same_output :
      {B : Type 0} {m : Outcome (AffinePoint f)} {p q : AffinePoint f} {c : B}
      (out : AffinePoint f → B)
      → m ≡ ok p
      → m ≡ ok q
      → some (out q) ≡ some c
      → out p ≡ c
  same_output out hp hq hc = cc

  length-to_bytes : (a : AffinePoint f) → length (Encode.to_bytes f a) ≡ 65
  unfolding Encode.to_bytes
  length-to_bytes a =
      let nx = length-to_be_bytes 32 (f.retrieve a.x) in
      let ny = length-to_be_bytes 32 (f.retrieve a.y) in
      omega (arith, length-append (fp_to_bytes f a.x) (fp_to_bytes f a.y), nx, ny)

  module _ (standard : f.modulus ≡ field_modulus) where
    -- The point k G that a draw gives is read back from its encoding.
    pub from_bytes-scalar_mul_g :
        (k : ℕ) (a : AffinePoint f)
        → to_affine f (scalar_mul_g f k) ≡ ok a
        → Encode.from_bytes f (Encode.to_bytes f a) ≡ ok a
    from_bytes-scalar_mul_g k a h =
        from_bytes-to_bytes f standard a
          (to_affine-IsOnCurve f (scalar_mul_g f k) a (scalar_mul_g-IsOnCurve f standard k) h)

    -- A ciphertext of the three parts is opened with the point that the secret number makes of its first part.
    decrypt-append :
        (c1 p : AffinePoint f) (c3 c2 : Bytes) (key : PrivateKey)
        → Encode.from_bytes f (Encode.to_bytes f c1) ≡ ok c1
        → length c3 ≡ 32
        → to_affine f (scalar_mul f (secret key) (from_affine f c1)) ≡ ok p
        → decrypt f key (Encode.to_bytes f c1 ++ (c3 ++ c2)) ≡ open_with f p c3 c2
    unfolding decrypt
    decrypt-append c1 p c3 c2 key back n3 shared =
        let b = Encode.to_bytes f c1 in
        let nb = length-to_bytes c1 in
        let n97 : length (b ++ c3) ≡ 97 = length-append b c3 ∙ omega (arith, nb, n3) in
        let long : ltb (length (b ++ (c3 ++ c2))) 97 ≡ false =
          ground (arith, append_assoc b c3 c2, length-append (b ++ c3) c2, n97) in
        let rest : drop 97 (b ++ (c3 ++ c2)) ≡ c2 =
          ap (drop 97) (sym (append_assoc b c3 c2)) ∙ drop-append 97 (b ++ c3) c2 n97 in
        let hash : take 32 (drop 65 (b ++ (c3 ++ c2))) ≡ c3 =
          ap (take 32) (drop-append 65 b (c3 ++ c2) nb) ∙ take-append 32 c3 c2 n3 in
        rw (long, take-append 65 b (c3 ++ c2) nb, back, shared, rest, hash) refl

    open_with_lem :
        (p : AffinePoint f) (message : Bytes)
        → length message < 32 * (2 ^ 32 - 2)
        → let t = kdf_bytes (z_input f p) (length message) in
          (not (length t == 0) && or_bytes 0 t == 0) ≡ false
          → open_with f p
              (check_hash (fp_to_bytes f p.x) message (fp_to_bytes f p.y))
              (zip_xor message t)
            ≡ ok message
    unfolding open_with
    open_with_lem p message small guard =
        let t = kdf_bytes (z_input f p) (length message) in
        let nt : length t ≡ length message =
          length-kdf_bytes (z_input f p) (length message) small in
        let fits : length message ≤ length t = omega (arith, nt) in
        let hash = check_hash (fp_to_bytes f p.x) message (fp_to_bytes f p.y) in
        rw (length-zip_xor message t fits, guard, zip_xor_cancel message t fits, bytes_eq_refl hash)
          refl

    -- `decrypt` gives the message back, if d (k G) and k P are one point.
    pub decrypt-try_encrypt :
        (pa c1 : AffinePoint f) (message draw c : Bytes) (key : PrivateKey)
        → length message < 32 * (2 ^ 32 - 2)
        → try_encrypt f pa message draw ≡ some c
        → to_affine f (scalar_mul_g f (from_be_bytes 0 draw)) ≡ ok c1
        → to_affine f (scalar_mul f (secret key) (from_affine f c1))
          ≡ to_affine f (scalar_mul f (from_be_bytes 0 draw) (from_affine f pa))
        → decrypt f key c ≡ ok message
    unfolding decrypt try_encrypt open_with
    decrypt-try_encrypt pa c1 message draw c key small h is_c1 same =
        let (range, h1) = not_taken (not_a_scalar (from_be_bytes 0 draw)) _ c h in
        let (p1, is_p1, h2) = or_continue-Some _ _ c h1 in
        let (p, is_p, h3) = or_continue-Some _ _ c h2 in
        let t = kdf_bytes (z_input f p) (length message) in
        let c3 = check_hash (fp_to_bytes f p.x) message (fp_to_bytes f p.y) in
        let (guard, made) = not_taken (not (length t == 0) && or_bytes 0 t == 0) _ c h3 in
        let is_c : Encode.to_bytes f c1 ++ (c3 ++ zip_xor message t) ≡ c =
          same_output (λ q. Encode.to_bytes f q ++ (c3 ++ zip_xor message t)) is_c1 is_p1 made in
        subst (λ (s : Bytes). decrypt f key s ≡ ok message) is_c
          (decrypt-append c1 p c3 (zip_xor message t) key
              (from_bytes-scalar_mul_g (from_be_bytes 0 draw) c1 is_c1) (length-check_hash _ _ _)
              (same ∙ is_p)
            ∙ open_with_lem p message small guard)

    pub kem_decrypt-try_kem :
        (pa c1 : AffinePoint f) (n : ℕ) (draw c shared : Bytes) (key : PrivateKey)
        → 0 < n
        → try_kem f pa n draw ≡ some (c, shared)
        → to_affine f (scalar_mul_g f (from_be_bytes 0 draw)) ≡ ok c1
        → to_affine f (scalar_mul f (secret key) (from_affine f c1))
          ≡ to_affine f (scalar_mul f (from_be_bytes 0 draw) (from_affine f pa))
        → kem_decrypt f key c n ≡ ok shared
    unfolding kem_decrypt try_kem
    kem_decrypt-try_kem pa c1 n draw c shared key small h is_c1 same =
        let (range, h1) = not_taken (not_a_scalar (from_be_bytes 0 draw)) _ (c, shared) h in
        let (p1, is_p1, h2) = or_continue-Some _ _ (c, shared) h1 in
        let (p, is_p, h3) = or_continue-Some _ _ (c, shared) h2 in
        let t = kdf_bytes (z_input f p) n in
        let (guard, made) = not_taken (or_bytes 0 t == 0) _ (c, shared) h3 in
        let pair = same_output (λ q. (Encode.to_bytes f q, t)) is_c1 is_p1 made in
        let is_c : Encode.to_bytes f c1 ≡ c = ap (λ r. r.0) pair in
        let is_t : t ≡ shared = ap (λ r. r.1) pair in
        let nonempty : (n == 0) ≡ false = ground (arith, small) in
        subst (λ (s : Bytes). kem_decrypt f key s n ≡ ok shared) is_c
          (rw
            (
              nonempty,
              length-to_bytes c1,
              from_bytes-scalar_mul_g (from_be_bytes 0 draw) c1 is_c1,
              same,
              is_p,
              guard,
            )
            (ap ok is_t))
