-- ===== src/Sm2/Sign/Equation.antt =====
-- src/sm2/mod.rs: what `sign_with_k` gives satisfies the equation of the standard, and `verify`
-- takes it when the multiples of the points agree.
use libsmx.Base.{
  ℕ, ◌==◌, false, Bool-cases, Option-cases, inl, inr, ◌≡◌, refl, sym, ap, ◌∙◌, ◌++◌, [], ◌∷◌, arith,
}
use libsmx.Base.Words.{Bytes, to_be_bytes}
use libsmx.Base.Outcome.{Outcome, ok, err, panic, ok-bind}
use libsmx.Algebra.Polynomial.{insert_var}
use libsmx.Algebra.Term.{Term, ◌⊕◌, ◌⊗◌, ◌⊖◌, reduced}
use libsmx.Algebra.Numeric.{num, by_ring}
use libsmx.Algebra.{CommRing}
use libsmx.Sm2.Ec.Identities.{num-one}
use libsmx.Monty.{Monty}
use libsmx.Sm2.Field.{Fn, fp_to_bytes, fn_inv}
use libsmx.Sm2.Ec.{AffinePoint, to_affine}
use libsmx.Sm2.Ec.Multiply.{scalar_mul_g}
use libsmx.Sm2.Ec.Affine.{fp_inv_lem}
use libsmx.Sm2.Private.{PrivateKey, secret, map_err}
use libsmx.Sm2.Sign.{challenge, sign_with_k}

abbrev v : ℕ → Term
v i = Term.var i

module _ (k : CommRing) where
  -- s = (1 + d)⁻¹ (x - r d) solves s + (r + s) d = x.
  pub solves :
      (d r x i s : k.Carrier)
      → k.times (k.plus k.unit d) i ≡ k.unit
      → k.times i (k.plus x (k.minus (k.times r d))) ≡ s
      → k.plus s (k.times (k.plus r s) d) ≡ x
  unfolding reduced insert_var
  solves d r x i s e h =
      let w = k.plus x (k.minus (k.times r d)) in
      let one = num k 1 in
      let e' : k.times (k.plus one d) i ≡ one =
        ap (λ u. k.times (k.plus u d) i) (num-one k) ∙ e ∙ sym (num-one k) in
      let value = v 3 ⊗ (v 2 ⊖ v 1 ⊗ v 0) in
      ap (λ t. k.plus t (k.times (k.plus r t) d)) (sym h)
      ∙ by_ring k (d ∷ r ∷ x ∷ i ∷ []) (value ⊕ (v 1 ⊕ value) ⊗ v 0)
          ((Term.lit 1 ⊕ v 0) ⊗ v 3 ⊗ (v 2 ⊖ v 1 ⊗ v 0) ⊕ v 1 ⊗ v 0) refl
      ∙ ap (λ t. k.plus (k.times t w) (k.times r d)) e'
      ∙ by_ring k (d ∷ r ∷ x ∷ i ∷ []) (Term.lit 1 ⊗ (v 2 ⊖ v 1 ⊗ v 0) ⊕ v 1 ⊗ v 0) (v 2) refl

  -- Were r + s zero, so were r + x.
  pub zero_sum :
      (d r x s : k.Carrier)
      → k.plus s (k.times (k.plus r s) d) ≡ x
      → k.plus r s ≡ k.nought
      → k.plus r x ≡ k.nought
  unfolding reduced insert_var
  zero_sum d r x s e h =
      ap (k.plus r) (sym e)
      ∙ by_ring k (d ∷ r ∷ s ∷ []) (v 1 ⊕ (v 2 ⊕ (v 1 ⊕ v 2) ⊗ v 0))
          ((v 1 ⊕ v 2) ⊗ (Term.lit 1 ⊕ v 0)) refl
      ∙ ap (λ t. k.times t (k.plus (num k 1) d)) h
      ∙ by_ring k (d ∷ []) (Term.lit 0 ⊗ (Term.lit 1 ⊕ v 0)) (Term.lit 0) refl

module _ (f g : Monty) where
  -- What a signature is made of.
  pub record Parts (e : Bytes) (key : PrivateKey) (k : ℕ) (sig : Bytes) : Type 0 where
    pub point : AffinePoint f
    pub s : Fn g
    pub is_point : to_affine f (scalar_mul_g f k) ≡ ok point
    pub is_signature :
        sig
        ≡ to_be_bytes 32 (g.retrieve (challenge f g e (fp_to_bytes f point.x)))
          ++ to_be_bytes 32 (g.retrieve s)
    pub nonzero_r : (g.retrieve (challenge f g e (fp_to_bytes f point.x)) == 0) ≡ false
    pub nonzero_s : (g.retrieve s == 0) ≡ false
    pub nonzero_sum :
        (g.retrieve (g.ring.plus (challenge f g e (fp_to_bytes f point.x)) (g.new k)) == 0) ≡ false
    pub equation :
        g.ring.plus s (
          g.ring.times
            (g.ring.plus (challenge f g e (fp_to_bytes f point.x)) s)
            (g.new (secret key)))
        ≡ g.new k

  map_err-ok :
      (m : Outcome (AffinePoint f)) (p : AffinePoint f) (why : _) → map_err m why ≡ ok p → m ≡ ok p
  map_err-ok (ok a) p why e = e
  map_err-ok (err a) p why e = cc
  map_err-ok panic p why e = cc

  pub sign_with_k-Parts :
      (e : Bytes) (key : PrivateKey) (k : ℕ) (sig : Bytes)
      → sign_with_k f g e key k ≡ ok sig
      → Parts e key k sig
  unfolding sign_with_k
  sign_with_k-Parts e key k sig h =
      let (kg, h1, rest) = ok-bind _ (map_err (to_affine f (scalar_mul_g f k)) _) h in
      let is_point : to_affine f (scalar_mul_g f k) ≡ ok kg = map_err-ok _ kg _ h1 in
      let r = challenge f g e (fp_to_bytes f kg.x) in
      elim (Bool-cases (g.retrieve r == 0)) [
        | inl z ↦ ground (arith, rest, z)
        | inr nr ↦ elim (Bool-cases (g.retrieve (g.ring.plus r (g.new k)) == 0)) [
          | inl z ↦ ground (arith, rest, nr, z)
          | inr ns ↦ elim (Option-cases (fn_inv g (g.ring.plus g.ring.unit (g.new (secret key))))) [
            | inl z ↦ ground (arith, rest, nr, ns, z)
            | inr (i, hi) ↦
                let s = g.ring.times i (g.sub (g.new k) (g.ring.times r (g.new (secret key)))) in
                elim (Bool-cases (g.retrieve s == 0)) [
                  | inl z ↦ ground (arith, rest, nr, ns, hi, z)
                  | inr nz ↦ record {
                    point = kg;
                    s = s;
                    is_point = is_point;
                    is_signature = ground (arith, rest, nr, ns, hi, nz);
                    nonzero_r = nr;
                    nonzero_s = nz;
                    nonzero_sum = ns;
                    equation =
                        solves g.ring (g.new (secret key)) r (g.new k) i s (fp_inv_lem g _ i hi)
                          (sym (ap (g.ring.times i) (g.sub_law _ _)));
                  }
                ]
          ]
        ]
      ]
