-- ===== src/Sm9/Fields/Products.antt =====
-- The products of src/sm9/fields are those of the polynomial rings that the tower is built from.
use libsmx.Base.{ℕ, [], ◌∷◌, ◌≡◌, refl}
use mathlib.Core.Path.{fun_ext}
use libsmx.Algebra.{CommRing}
use libsmx.Algebra.Polynomial.{Expr, normal}
use libsmx.Algebra.Solver.{same_value}
use libsmx.Algebra.Quadratic.{quadratic_ring}
use libsmx.Algebra.Cubic.{cubic_ring}
use libsmx.Monty.{Monty}
use libsmx.Sm9.Fields.Fp.{Fp}
use libsmx.Sm9.Fields.Fp2.{Fp2, fp2_zero, fp2_one, fp2_sub, fp2_mul, fp2_square, fp2_mul_u}
use libsmx.Sm9.Fields.Fp12.{Fp6, Fp12, fp6_sub, fp6_mul, fp6_mul_v, fp12_mul}

module _ (f : Monty) where
  -- -2, of which `u` is the root.
  abbrev pub minus_two : Fp f
  minus_two = f.ring.minus (f.ring.plus f.ring.unit f.ring.unit)

  abbrev pub fp2_ring : CommRing
  fp2_ring = quadratic_ring f.ring minus_two

  abbrev pub elem_u : Fp2 f
  elem_u = record { c0 = f.ring.nought; c1 = f.ring.unit }

  abbrev pub fp6_ring : CommRing
  fp6_ring = cubic_ring fp2_ring elem_u

  abbrev pub elem_v : Fp6 f
  elem_v = record { c0 = fp2_zero f; c1 = fp2_one f; c2 = fp2_zero f }

  abbrev pub fp12_ring : CommRing
  fp12_ring = quadratic_ring fp6_ring elem_v

  pub fp2_mul_lem : (a b : Fp2 f) → fp2_mul f a b ≡ fp2_ring.times a b
  unfolding fp2_mul normal
  fp2_mul_lem a b = rw (f.sub_law _ _) (λ i. record {
    c0 =
        same_value f.ring (a.c0 ∷ a.c1 ∷ b.c0 ∷ b.c1 ∷ [])
          (Expr.add (Expr.mul (Expr.var 0) (Expr.var 2)) (
            Expr.neg
              (Expr.add (Expr.mul (Expr.var 1) (Expr.var 3)) (Expr.mul (Expr.var 1) (Expr.var 3)))))
          (Expr.add (Expr.mul (Expr.var 0) (Expr.var 2))
            (Expr.mul (Expr.neg (Expr.add Expr.one Expr.one)) (Expr.mul (Expr.var 1) (Expr.var 3))))
          refl i;
    c1 = f.ring.plus (f.ring.times a.c0 b.c1) (f.ring.times a.c1 b.c0);
  })

  pub fp2_sub_lem : (a b : Fp2 f) → fp2_sub f a b ≡ fp2_ring.plus a (fp2_ring.minus b)
  unfolding fp2_sub
  fp2_sub_lem a b i = record { c0 = f.sub_law a.c0 b.c0 i; c1 = f.sub_law a.c1 b.c1 i }

  pub fp2_square_lem : (a : Fp2 f) → fp2_square f a ≡ fp2_mul f a a
  unfolding fp2_square fp2_mul
  fp2_square_lem a i = record {
    c0 = f.sub (f.square_law a.c0 i) (f.ring.plus (f.square_law a.c1 i) (f.square_law a.c1 i));
    c1 = f.ring.plus (f.ring.times a.c0 a.c1) (f.ring.times_comm a.c0 a.c1 i);
  }

  pub fp2_mul_u_lem : (a : Fp2 f) → fp2_mul_u f a ≡ fp2_ring.times elem_u a
  unfolding fp2_mul_u normal
  fp2_mul_u_lem a i = record {
    c0 =
        same_value f.ring (a.c0 ∷ a.c1 ∷ []) (Expr.neg (Expr.add (Expr.var 1) (Expr.var 1)))
          (Expr.add (Expr.mul Expr.nil (Expr.var 0))
            (Expr.mul (Expr.neg (Expr.add Expr.one Expr.one)) (Expr.mul Expr.one (Expr.var 1))))
          refl i;
    c1 =
        same_value f.ring (a.c0 ∷ a.c1 ∷ []) (Expr.var 0)
          (Expr.add (Expr.mul Expr.nil (Expr.var 1)) (Expr.mul Expr.one (Expr.var 0))) refl i;
  }

  -- The same as equations between functions, to rewrite by.
  pub fp2_mul_fn : fp2_mul f ≡ fp2_ring.times
  fp2_mul_fn = fun_ext (λ a. fun_ext (λ b. fp2_mul_lem a b))

  pub fp2_sub_fn : fp2_sub f ≡ (λ a b. fp2_ring.plus a (fp2_ring.minus b))
  fp2_sub_fn = fun_ext (λ a. fun_ext (λ b. fp2_sub_lem a b))

  pub fp2_mul_u_fn : fp2_mul_u f ≡ (λ a. fp2_ring.times elem_u a)
  fp2_mul_u_fn = fun_ext (λ a. fp2_mul_u_lem a)

  abbrev diff : Expr → Expr → Expr
  diff a b = Expr.add a (Expr.neg b)

  -- (a + b)(c + d) less ac and bd.
  abbrev crossed : Expr → Expr → Expr → Expr → Expr
  crossed a b c d =
      diff (diff (Expr.mul (Expr.add a b) (Expr.add c d)) (Expr.mul a c)) (Expr.mul b d)

  abbrev straight : Expr → Expr → Expr → Expr → Expr
  straight a b c d = Expr.add (Expr.mul a d) (Expr.mul b c)

  pub fp6_mul_lem : (a b : Fp6 f) → fp6_mul f a b ≡ fp6_ring.times a b
  unfolding fp6_mul normal
  fp6_mul_lem a b =
      let x : ℕ → Expr = Expr.var in
      let env = elem_u ∷ a.c0 ∷ a.c1 ∷ a.c2 ∷ b.c0 ∷ b.c1 ∷ b.c2 ∷ [] in
      rw (fp2_mul_fn, fp2_sub_fn, fp2_mul_u_fn)
        (λ i. record {
          c0 =
              same_value fp2_ring env
                (Expr.add (Expr.mul (x 1) (x 4)) (Expr.mul (x 0) (crossed (x 2) (x 3) (x 5) (x 6))))
                (Expr.add (Expr.mul (x 1) (x 4))
                  (Expr.mul (x 0) (straight (x 2) (x 3) (x 5) (x 6))))
                refl i;
          c1 =
              same_value fp2_ring env
                (Expr.add (crossed (x 1) (x 2) (x 4) (x 5)) (Expr.mul (x 0) (Expr.mul (x 3) (x 6))))
                (Expr.add (straight (x 1) (x 2) (x 4) (x 5))
                  (Expr.mul (x 0) (Expr.mul (x 3) (x 6))))
                refl i;
          c2 =
              same_value fp2_ring env
                (Expr.add (crossed (x 1) (x 3) (x 4) (x 6)) (Expr.mul (x 2) (x 5)))
                (Expr.add (Expr.add (Expr.mul (x 1) (x 6)) (Expr.mul (x 2) (x 5)))
                  (Expr.mul (x 3) (x 4)))
                refl i;
        })

  pub fp6_sub_lem : (a b : Fp6 f) → fp6_sub f a b ≡ fp6_ring.plus a (fp6_ring.minus b)
  unfolding fp6_sub
  fp6_sub_lem a b i = record {
    c0 = fp2_sub_lem a.c0 b.c0 i;
    c1 = fp2_sub_lem a.c1 b.c1 i;
    c2 = fp2_sub_lem a.c2 b.c2 i;
  }

  pub fp6_mul_v_lem : (a : Fp6 f) → fp6_mul_v f a ≡ fp6_ring.times elem_v a
  unfolding fp6_mul_v normal
  fp6_mul_v_lem a =
      let x : ℕ → Expr = Expr.var in
      let env = elem_u ∷ a.c0 ∷ a.c1 ∷ a.c2 ∷ [] in
      let o = Expr.nil in
      let e = Expr.one in
      rw fp2_mul_u_fn (λ i. record {
        c0 =
            same_value fp2_ring env (Expr.mul (x 0) (x 3))
              (Expr.add (Expr.mul o (x 1))
                (Expr.mul (x 0) (Expr.add (Expr.mul e (x 3)) (Expr.mul o (x 2)))))
              refl i;
        c1 =
            same_value fp2_ring env (x 1)
              (Expr.add (Expr.add (Expr.mul o (x 2)) (Expr.mul e (x 1)))
                (Expr.mul (x 0) (Expr.mul o (x 3))))
              refl i;
        c2 =
            same_value fp2_ring env (x 2)
              (Expr.add (Expr.add (Expr.mul o (x 3)) (Expr.mul e (x 2))) (Expr.mul o (x 1))) refl i;
      })

  pub fp6_mul_fn : fp6_mul f ≡ fp6_ring.times
  fp6_mul_fn = fun_ext (λ a. fun_ext (λ b. fp6_mul_lem a b))

  pub fp6_sub_fn : fp6_sub f ≡ (λ a b. fp6_ring.plus a (fp6_ring.minus b))
  fp6_sub_fn = fun_ext (λ a. fun_ext (λ b. fp6_sub_lem a b))

  pub fp6_mul_v_fn : fp6_mul_v f ≡ (λ a. fp6_ring.times elem_v a)
  fp6_mul_v_fn = fun_ext (λ a. fp6_mul_v_lem a)

  -- The product of Fp12, three products of Fp6 each made of six of Fp2, is the schoolbook product
  -- of the polynomials in `w` over those in `v` over those in `u`, reduced by u² = -2, v³ = u and
  -- w² = v.
  pub fp12_mul_lem : (a b : Fp12 f) → fp12_mul f a b ≡ fp12_ring.times a b
  unfolding fp12_mul normal
  fp12_mul_lem a b =
      let x : ℕ → Expr = Expr.var in
      let env = elem_v ∷ a.c0 ∷ a.c1 ∷ b.c0 ∷ b.c1 ∷ [] in
      rw (fp6_mul_fn, fp6_sub_fn, fp6_mul_v_fn)
        (λ i. record {
          c0 =
              same_value fp6_ring env
                (Expr.add (Expr.mul (x 1) (x 3)) (Expr.mul (x 0) (Expr.mul (x 2) (x 4))))
                (Expr.add (Expr.mul (x 1) (x 3)) (Expr.mul (x 0) (Expr.mul (x 2) (x 4)))) refl i;
          c1 =
              same_value fp6_ring env (crossed (x 1) (x 2) (x 3) (x 4))
                (straight (x 1) (x 2) (x 3) (x 4)) refl i;
        })
