-- ===== src/Sm9/Fields/Inverses.antt =====
-- The inverses of src/sm9/fields: what they return is an inverse for the product of the code.
use libsmx.Base.{ℕ, arith, [], ◌∷◌, ◌≡◌, refl, sym, ap₂, ◌∙◌, some, Option-cases, inl, inr}
use libsmx.Algebra.Polynomial.{Expr, normal}
use libsmx.Algebra.Solver.{same_value}
use libsmx.Monty.{Monty}
use libsmx.Sm9.Fields.Fp.{Fp}
use libsmx.Sm9.Fields.Fp2.{Fp2, fp2_mul, fp2_inv, fp2_norm}
use libsmx.Sm9.Fields.Fp12.{
  Fp6, Fp12, fp6_mul, fp6_cofactors, fp6_norm, fp6_inv, fp12_mul, fp12_norm, fp12_inv,
}
use libsmx.Sm9.Fields.Products.{
  fp2_ring, fp6_ring, fp12_ring, elem_u, elem_v, fp2_mul_fn, fp2_sub_fn, fp2_mul_u_fn, fp6_mul_fn,
  fp6_sub_fn, fp6_mul_v_fn, fp12_mul_lem,
}

module _ (f : Monty) where
  abbrev minus_two_expr : Expr
  minus_two_expr = Expr.neg (Expr.add Expr.one Expr.one)

  -- The product with the conjugate, scaled.
  fp2_scaled :
      (a : Fp2 f) (n : Fp f)
      → f.ring.times (fp2_norm f a) n ≡ f.ring.unit
      → (fp2_ring f).times a
          (record { c0 = f.ring.times a.c0 n; c1 = f.ring.minus (f.ring.times a.c1 n) })
        ≡ (fp2_ring f).unit
  unfolding normal fp2_norm
  fp2_scaled a n e =
      let x : ℕ → Expr = Expr.var in
      let env = a.c0 ∷ a.c1 ∷ n ∷ [] in
      let low =
        same_value f.ring env
          (Expr.add (Expr.mul (x 0) (Expr.mul (x 0) (x 2)))
            (Expr.mul minus_two_expr (Expr.mul (x 1) (Expr.neg (Expr.mul (x 1) (x 2))))))
          (Expr.mul
            (Expr.add (Expr.mul (x 0) (x 0))
              (Expr.add (Expr.mul (x 1) (x 1)) (Expr.mul (x 1) (x 1))))
            (x 2))
          refl in
      let high =
        same_value f.ring env
          (Expr.add (Expr.mul (x 0) (Expr.neg (Expr.mul (x 1) (x 2))))
            (Expr.mul (x 1) (Expr.mul (x 0) (x 2))))
          Expr.nil refl in
      let whole =
        ap₂ (λ s t. f.ring.times (f.ring.plus s (f.ring.plus t t)) n) (sym (f.square_law a.c0))
          (sym (f.square_law a.c1)) in
      λ i. record { c0 = (low ∙ whole ∙ e) i; c1 = high i }

  fp2_inv_ring : (a b : Fp2 f) → fp2_inv f a ≡ some b → (fp2_ring f).times a b ≡ (fp2_ring f).unit
  unfolding fp2_inv
  fp2_inv_ring a b h = elim (Option-cases (f.invert (fp2_norm f a))) [
    | inl e ↦ ground (arith, h, e)
    | inr (n, e) ↦
        let same : record { c0 = f.ring.times a.c0 n; c1 = f.ring.minus (f.ring.times a.c1 n) }
            ≡ b =
          ground (arith, h, e) in
        rw (← same) (fp2_scaled a n (f.invert_law _ n e))
  ]

  -- The cofactors as expressions, `x0` being `u` and the coefficients `x1`, `x2`, `x3`.
  abbrev cofactor_a : Expr
  cofactor_a =
      Expr.add (Expr.mul (Expr.var 1) (Expr.var 1))
        (Expr.neg (Expr.mul (Expr.var 0) (Expr.mul (Expr.var 2) (Expr.var 3))))

  abbrev cofactor_b : Expr
  cofactor_b =
      Expr.add (Expr.mul (Expr.var 0) (Expr.mul (Expr.var 3) (Expr.var 3)))
        (Expr.neg (Expr.mul (Expr.var 1) (Expr.var 2)))

  abbrev cofactor_c : Expr
  cofactor_c =
      Expr.add (Expr.mul (Expr.var 2) (Expr.var 2)) (Expr.neg (Expr.mul (Expr.var 1) (Expr.var 3)))

  fp6_scaled :
      (a : Fp6 f) (n : Fp2 f)
      → (fp2_ring f).times (fp6_norm f a) n ≡ (fp2_ring f).unit
      → (fp6_ring f).times a (record {
        c0 = fp2_mul f (fp6_cofactors f a).c0 n;
        c1 = fp2_mul f (fp6_cofactors f a).c1 n;
        c2 = fp2_mul f (fp6_cofactors f a).c2 n;
      })
        ≡ (fp6_ring f).unit
  unfolding normal fp6_norm fp6_cofactors
  fp6_scaled a n e =
      let x : ℕ → Expr = Expr.var in
      let env = elem_u f ∷ a.c0 ∷ a.c1 ∷ a.c2 ∷ n ∷ [] in
      let sa = Expr.mul cofactor_a (x 4) in
      let sb = Expr.mul cofactor_b (x 4) in
      let sc = Expr.mul cofactor_c (x 4) in
      let norm =
        same_value (fp2_ring f) env
          (Expr.add (Expr.mul (x 1) sa)
            (Expr.mul (x 0) (Expr.add (Expr.mul (x 2) sc) (Expr.mul (x 3) sb))))
          (Expr.mul
            (Expr.add (Expr.mul (x 1) cofactor_a)
              (Expr.mul (x 0) (Expr.add (Expr.mul (x 2) cofactor_c) (Expr.mul (x 3) cofactor_b))))
            (x 4))
          refl in
      let one =
        same_value (fp2_ring f) env
          (Expr.add (Expr.add (Expr.mul (x 1) sb) (Expr.mul (x 2) sa))
            (Expr.mul (x 0) (Expr.mul (x 3) sc)))
          Expr.nil refl in
      let two =
        same_value (fp2_ring f) env
          (Expr.add (Expr.add (Expr.mul (x 1) sc) (Expr.mul (x 2) sb)) (Expr.mul (x 3) sa)) Expr.nil
          refl in
      rw (fp2_mul_fn f, fp2_sub_fn f, fp2_mul_u_fn f)
        (λ i. record {
          c0 = (norm ∙ rw (fp2_mul_fn f, fp2_sub_fn f, fp2_mul_u_fn f) at e) i;
          c1 = one i;
          c2 = two i;
        })

  fp6_inv_ring : (a b : Fp6 f) → fp6_inv f a ≡ some b → (fp6_ring f).times a b ≡ (fp6_ring f).unit
  unfolding fp6_inv
  fp6_inv_ring a b h = elim (Option-cases (fp2_inv f (fp6_norm f a))) [
    | inl e ↦ ground (arith, h, e)
    | inr (n, e) ↦
        let same : record {
          c0 = fp2_mul f (fp6_cofactors f a).c0 n;
          c1 = fp2_mul f (fp6_cofactors f a).c1 n;
          c2 = fp2_mul f (fp6_cofactors f a).c2 n;
        }
            ≡ b =
          ground (arith, h, e) in
        rw (← same) (fp6_scaled a n (fp2_inv_ring (fp6_norm f a) n e))
  ]

  fp12_scaled :
      (a : Fp12 f) (n : Fp6 f)
      → (fp6_ring f).times (fp12_norm f a) n ≡ (fp6_ring f).unit
      → (fp12_ring f).times a
          (record { c0 = fp6_mul f a.c0 n; c1 = (fp6_ring f).minus (fp6_mul f a.c1 n) })
        ≡ (fp12_ring f).unit
  unfolding normal fp12_norm
  fp12_scaled a n e =
      let x : ℕ → Expr = Expr.var in
      let env = elem_v f ∷ a.c0 ∷ a.c1 ∷ n ∷ [] in
      let low =
        same_value (fp6_ring f) env
          (Expr.add (Expr.mul (x 1) (Expr.mul (x 1) (x 3)))
            (Expr.mul (x 0) (Expr.mul (x 2) (Expr.neg (Expr.mul (x 2) (x 3))))))
          (Expr.mul
            (Expr.add (Expr.mul (x 1) (x 1)) (Expr.neg (Expr.mul (x 0) (Expr.mul (x 2) (x 2)))))
            (x 3))
          refl in
      let high =
        same_value (fp6_ring f) env
          (Expr.add (Expr.mul (x 1) (Expr.neg (Expr.mul (x 2) (x 3))))
            (Expr.mul (x 2) (Expr.mul (x 1) (x 3))))
          Expr.nil refl in
      rw (fp6_mul_fn f) (λ i. record {
        c0 = (low ∙ rw (fp6_mul_fn f, fp6_sub_fn f, fp6_mul_v_fn f) at e) i;
        c1 = high i;
      })

  fp12_inv_ring :
      (a b : Fp12 f) → fp12_inv f a ≡ some b → (fp12_ring f).times a b ≡ (fp12_ring f).unit
  unfolding fp12_inv
  fp12_inv_ring a b h = elim (Option-cases (fp6_inv f (fp12_norm f a))) [
    | inl e ↦ ground (arith, h, e)
    | inr (n, e) ↦
        let same : record { c0 = fp6_mul f a.c0 n; c1 = (fp6_ring f).minus (fp6_mul f a.c1 n) }
            ≡ b =
          ground (arith, h, e) in
        rw (← same) (fp12_scaled a n (fp6_inv_ring (fp12_norm f a) n e))
  ]

  -- An inverse that `fp12_inv` returns is one: the product of the code gives one.
  pub fp12_mul-fp12_inv :
      (a b : Fp12 f) → fp12_inv f a ≡ some b → fp12_mul f a b ≡ (fp12_ring f).unit
  fp12_mul-fp12_inv a b h = fp12_mul_lem f a b ∙ fp12_inv_ring a b h
