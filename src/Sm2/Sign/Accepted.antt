-- ===== src/Sm2/Sign/Accepted.antt =====
-- src/sm2/mod.rs: `verify` takes what `sign_with_k`, and so `sign`, gives.
use native.Mathlib.Nat.{zero-mod}
use libsmx.Base.{
  All, ℕ, ◌==◌, false, Bool-cases, none, some, Option-cases, inl, inr, ◌≡◌, refl, sym, ap, ap₂, ◌∙◌,
  ◌++◌, List, [], ◌∷◌, take, drop, take-append, drop-append, arith, ==_iff,
}
use libsmx.Base.Words.{
  Bytes, from_be_bytes, to_be_bytes, length-to_be_bytes, from_be_bytes-to_be_bytes,
}
use libsmx.Base.Bytes.{bytes_eq, bytes_eq_refl}
use libsmx.Base.Outcome.{Outcome, ok, err, panic}
use libsmx.Monty.{Monty}
use libsmx.Sm2.Field.{Fn, fp_to_bytes, group_order}
use libsmx.Sm2.Ec.{AffinePoint, to_affine}
use libsmx.Sm2.Ec.Multiply.{scalar_mul_g, multi_scalar_mul}
use libsmx.Sm2.Ec.Encode
use libsmx.Sm2.Private.{PrivateKey, secret}
use libsmx.Sm2.Sign.{challenge, sign_with_k, not_a_scalar, try_sign, sign, verify}
use libsmx.Sm2.Sign.Equation.{zero_sum, Parts, sign_with_k-Parts}

-- The two numbers of a signature.
abbrev pub r_of : Bytes → ℕ
r_of sig = from_be_bytes 0 (take 32 sig)

abbrev pub s_of : Bytes → ℕ
s_of sig = from_be_bytes 0 (drop 32 sig)

module _ (f g : Monty) where
  pub retrieved : (a : Fn g) → from_be_bytes 0 (to_be_bytes 32 (g.retrieve a)) ≡ g.retrieve a
  retrieved a =
      from_be_bytes-to_be_bytes 32 (g.retrieve a) (omega (arith, g.retrieve_law a, g.modulus_law))

  pub r_of-append :
      (a b : Fn g)
      → r_of (to_be_bytes 32 (g.retrieve a) ++ to_be_bytes 32 (g.retrieve b)) ≡ g.retrieve a
  r_of-append a b =
      ap (from_be_bytes 0) (take-append 32 _ _ (length-to_be_bytes 32 _)) ∙ retrieved a

  pub s_of-append :
      (a b : Fn g)
      → s_of (to_be_bytes 32 (g.retrieve a) ++ to_be_bytes 32 (g.retrieve b)) ≡ g.retrieve b
  s_of-append a b =
      ap (from_be_bytes 0) (drop-append 32 _ _ (length-to_be_bytes 32 _)) ∙ retrieved b

  nonzero : (a : Fn g) → (g.retrieve a == 0) ≡ false → a ≡ g.ring.nought → ⊥
  nonzero a h e =
      let z : g.retrieve a ≡ 0 =
        ap g.retrieve (e ∙ sym g.new-zero) ∙ g.retrieve-new 0 ∙ zero-mod g.modulus in
      ground (arith, h, z)

  module _ {e : Bytes} {key : PrivateKey} {k : ℕ} {sig : Bytes} (q : Parts f g e key k sig) where
    abbrev r_part : Fn g
    r_part = challenge f g e (fp_to_bytes f q.point.x)

    r_of-Parts : r_of sig ≡ g.retrieve r_part
    r_of-Parts = ap r_of q.is_signature ∙ r_of-append r_part q.s

    s_of-Parts : s_of sig ≡ g.retrieve q.s
    s_of-Parts = ap s_of q.is_signature ∙ s_of-append r_part q.s

    new-r_of : g.new (r_of sig) ≡ r_part
    new-r_of = ap g.new r_of-Parts ∙ g.new_law r_part

    new-s_of : g.new (s_of sig) ≡ q.s
    new-s_of = ap g.new s_of-Parts ∙ g.new_law q.s

    sum_nonzero : (g.retrieve (g.ring.plus (g.new (r_of sig)) (g.new (s_of sig))) == 0) ≡ false
    sum_nonzero = elim (Bool-cases (g.retrieve (g.ring.plus r_part q.s) == 0)) [
      | inl zero ↦
          let vanishes : g.ring.plus r_part q.s ≡ g.ring.nought =
            sym (g.new_law _) ∙ ap g.new ((==_iff _ 0).0 zero) ∙ g.new-zero in
          absurd (
            nonzero _ q.nonzero_sum
              (zero_sum g.ring (g.new (secret key)) r_part (g.new k) q.s q.equation vanishes))
      | inr nonzero ↦ ap₂ (λ a b. g.retrieve (g.ring.plus a b) == 0) new-r_of new-s_of ∙ nonzero
    ]

  module _ (standard : g.modulus ≡ group_order) where
    in_range : (a : Fn g) → (g.retrieve a == 0) ≡ false → not_a_scalar (g.retrieve a) ≡ false
    in_range a h = ground (arith, h, g.retrieve_law a, standard)

    -- What `sign_with_k` gives for the private number d are r and s, neither zero nor above n - 1, and
    -- s + (r + s) d is k modulo n.
    pub sign_with_k-eq :
        (e : Bytes) (key : PrivateKey) (k : ℕ) (sig : Bytes)
        → sign_with_k f g e key k ≡ ok sig
        → let r = g.new (r_of sig) in
          let s = g.new (s_of sig) in
          (not_a_scalar (r_of sig) ≡ false)
          × (not_a_scalar (s_of sig) ≡ false)
          × (g.ring.plus s (g.ring.times (g.ring.plus r s) (g.new (secret key))) ≡ g.new k)
    sign_with_k-eq e key k sig h =
        let q = sign_with_k-Parts f g e key k sig h in
        let d = g.new (secret key) in
        (
          ap not_a_scalar (r_of-Parts q) ∙ in_range (r_part q) q.nonzero_r,
          ap not_a_scalar (s_of-Parts q) ∙ in_range q.s q.nonzero_s,
          ap₂ (λ a b. g.ring.plus b (g.ring.times (g.ring.plus a b) d)) (new-r_of q) (new-s_of q)
              ∙ q.equation,
        )

    -- `verify` takes what `sign_with_k` gives, if s G + (r + s) P and k G are one point.
    pub verify-sign_with_k :
        (e : Bytes) (key : PrivateKey) (k : ℕ) (sig pub_key : Bytes) (pa : AffinePoint f)
        → Encode.from_bytes f pub_key ≡ ok pa
        → sign_with_k f g e key k ≡ ok sig
        → multi_scalar_mul f
            (s_of sig)
            (g.retrieve (g.ring.plus (g.new (r_of sig)) (g.new (s_of sig))))
            pa
          ≡ to_affine f (scalar_mul_g f k)
        → verify f g e pub_key sig ≡ ok tt
    unfolding verify
    verify-sign_with_k e key k sig pub_key pa hp h same =
        let q = sign_with_k-Parts f g e key k sig h in
        let (range_r, range_s, solved) = sign_with_k-eq e key k sig h in
        let is_r =
          ap (λ n. bytes_eq (to_be_bytes 32 n) (to_be_bytes 32 (g.retrieve (r_part q))))
            (r_of-Parts q)
          ∙ bytes_eq_refl (to_be_bytes 32 (g.retrieve (r_part q))) in
        rw (range_r, range_s, sum_nonzero q, hp, same, q.is_point, is_r) refl

  try_sign-Some :
      (e : Bytes) (key : PrivateKey) (draw sig : Bytes)
      → try_sign f g e key draw ≡ some sig
      → (not_a_scalar (from_be_bytes 0 draw) ≡ false)
        × (sign_with_k f g e key (from_be_bytes 0 draw) ≡ ok sig)
  unfolding try_sign
  try_sign-Some e key draw sig h = elim (Bool-cases (not_a_scalar (from_be_bytes 0 draw))) [
    | inl t ↦ ground (arith, h, t)
    | inr t ↦ (t, found (sign_with_k f g e key (from_be_bytes 0 draw)) (ground (arith, h, t)))
  ]
    where
      found :
          (m : Outcome Bytes)
          → (elim m [ ok sig ↦ some sig | err why ↦ none | panic ↦ none ]) ≡ some sig
          → m ≡ ok sig
      found (ok a) h' = cc
      found (err a) h' = cc
      found panic h' = cc

  -- What `sign` gives is the signature with the first draw that `try_sign` takes, a scalar.
  pub sign-Some :
      (e : Bytes) (key : PrivateKey) (draws : List Bytes) (sig : Bytes)
      → sign f g e key draws ≡ some sig
      → (before : List Bytes) × (draw : Bytes) × (after : List Bytes) × (draws
          ≡ before ++ (draw ∷ after))
        × All (λ b. try_sign f g e key b ≡ none) before
        × (not_a_scalar (from_be_bytes 0 draw) ≡ false)
        × (sign_with_k f g e key (from_be_bytes 0 draw) ≡ ok sig)
  unfolding sign
  sign-Some e key [] sig h = cc
  sign-Some e key (b ∷ draws) sig h = elim (Option-cases (try_sign f g e key b)) [
    | inl n ↦
        let later : sign f g e key draws ≡ some sig = ground (arith, h, n) in
        let (before, draw, after, split, rejected, range, made) = sign-Some e key draws sig later in
        (b ∷ before, draw, after, ap (λ t. b ∷ t) split, (n, rejected), range, made)
    | inr (found, n) ↦
        let same : try_sign f g e key b ≡ some sig = ground (arith, h, n) in
        let (range, made) = try_sign-Some e key b sig same in ([], b, draws, refl, tt, range, made)
  ]
