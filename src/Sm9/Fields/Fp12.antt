-- ===== src/Sm9/Fields/Fp12.antt =====
-- src/sm9/fields/fp12.rs: arithmetic of Fp6 and Fp12.
use libsmx.Base.{◌++◌, Option, none, some}
use libsmx.Base.Words.{Bytes}
use libsmx.Algebra.Quadratic.{Quadratic}
use libsmx.Algebra.Cubic.{Cubic}
use libsmx.Monty.{Monty}
use libsmx.Sm9.Fields.Fp2.{
  Fp2, fp2_zero, fp2_add, fp2_sub, fp2_neg, fp2_mul, fp2_mul_u, fp2_inv, fp2_to_bytes,
}

abbrev pub Fp6 : Monty → Type 0
Fp6 f = Cubic (Fp2 f)

abbrev pub Fp12 : Monty → Type 0
Fp12 f = Quadratic (Fp6 f)

module _ (f : Monty) where
  abbrev pub fp6_add : Fp6 f → Fp6 f → Fp6 f
  fp6_add a b = record {
    c0 = fp2_add f a.c0 b.c0;
    c1 = fp2_add f a.c1 b.c1;
    c2 = fp2_add f a.c2 b.c2;
  }

  unfoldable pub fp6_sub : Fp6 f → Fp6 f → Fp6 f
  fp6_sub a b = record {
    c0 = fp2_sub f a.c0 b.c0;
    c1 = fp2_sub f a.c1 b.c1;
    c2 = fp2_sub f a.c2 b.c2;
  }

  abbrev pub fp6_neg : Fp6 f → Fp6 f
  fp6_neg a = record { c0 = fp2_neg f a.c0; c1 = fp2_neg f a.c1; c2 = fp2_neg f a.c2 }

  unfoldable pub fp6_mul : Fp6 f → Fp6 f → Fp6 f
  fp6_mul a b =
      let t0 = fp2_mul f a.c0 b.c0 in
      let t1 = fp2_mul f a.c1 b.c1 in
      let t2 = fp2_mul f a.c2 b.c2 in
      let m01 = fp2_mul f (fp2_add f a.c0 a.c1) (fp2_add f b.c0 b.c1) in
      let m12 = fp2_mul f (fp2_add f a.c1 a.c2) (fp2_add f b.c1 b.c2) in
      let m02 = fp2_mul f (fp2_add f a.c0 a.c2) (fp2_add f b.c0 b.c2) in
      let c01 = fp2_sub f (fp2_sub f m01 t0) t1 in
      let c12 = fp2_sub f (fp2_sub f m12 t1) t2 in
      let c02 = fp2_sub f (fp2_sub f m02 t0) t2 in
      record {
        c0 = fp2_add f t0 (fp2_mul_u f c12);
        c1 = fp2_add f c01 (fp2_mul_u f t2);
        c2 = fp2_add f c02 t1;
      }

  unfoldable pub fp6_square : Fp6 f → Fp6 f
  fp6_square a = fp6_mul a a

  unfoldable pub fp6_mul_v : Fp6 f → Fp6 f
  fp6_mul_v a = record { c0 = fp2_mul_u f a.c2; c1 = a.c0; c2 = a.c1 }

  unfoldable pub fp6_mul_fp2 : Fp6 f → Fp2 f → Fp6 f
  fp6_mul_fp2 a b = record { c0 = fp2_mul f a.c0 b; c1 = fp2_mul f a.c1 b; c2 = fp2_mul f a.c2 b }

  -- The cofactors `ca`, `cb` and `cc`.
  unfoldable pub fp6_cofactors : Fp6 f → Cubic (Fp2 f)
  fp6_cofactors a = record {
    c0 = fp2_sub f (fp2_mul f a.c0 a.c0) (fp2_mul_u f (fp2_mul f a.c1 a.c2));
    c1 = fp2_sub f (fp2_mul_u f (fp2_mul f a.c2 a.c2)) (fp2_mul f a.c0 a.c1);
    c2 = fp2_sub f (fp2_mul f a.c1 a.c1) (fp2_mul f a.c0 a.c2);
  }

  unfoldable pub fp6_norm : Fp6 f → Fp2 f
  fp6_norm a =
      let k = fp6_cofactors a in
      let inner = fp2_add f (fp2_mul f a.c1 k.c2) (fp2_mul f a.c2 k.c1) in
      fp2_add f (fp2_mul f a.c0 k.c0) (fp2_mul_u f inner)

  unfoldable pub fp6_inv : Fp6 f → Option (Fp6 f)
  fp6_inv a = elim (fp2_inv f (fp6_norm a)) [
    | none ↦ none
    | some norm_inv ↦
        let k = fp6_cofactors a in
        some (record {
          c0 = fp2_mul f k.c0 norm_inv;
          c1 = fp2_mul f k.c1 norm_inv;
          c2 = fp2_mul f k.c2 norm_inv;
        })
  ]

  abbrev pub fp12_add : Fp12 f → Fp12 f → Fp12 f
  fp12_add a b = record { c0 = fp6_add a.c0 b.c0; c1 = fp6_add a.c1 b.c1 }

  unfoldable pub fp12_sub : Fp12 f → Fp12 f → Fp12 f
  fp12_sub a b = record { c0 = fp6_sub a.c0 b.c0; c1 = fp6_sub a.c1 b.c1 }

  abbrev pub fp12_neg : Fp12 f → Fp12 f
  fp12_neg a = record { c0 = fp6_neg a.c0; c1 = fp6_neg a.c1 }

  unfoldable pub fp12_mul : Fp12 f → Fp12 f → Fp12 f
  fp12_mul a b =
      let t0 = fp6_mul a.c0 b.c0 in
      let t1 = fp6_mul a.c1 b.c1 in
      let a01 = fp6_add a.c0 a.c1 in
      let b01 = fp6_add b.c0 b.c1 in
      record { c0 = fp6_add t0 (fp6_mul_v t1); c1 = fp6_sub (fp6_sub (fp6_mul a01 b01) t0) t1 }

  unfoldable pub fp12_square : Fp12 f → Fp12 f
  fp12_square a = fp12_mul a a

  unfoldable pub fp12_norm : Fp12 f → Fp6 f
  fp12_norm a =
      let norm0 = fp6_mul a.c0 a.c0 in
      let norm1 = fp6_mul_v (fp6_mul a.c1 a.c1) in fp6_sub norm0 norm1

  unfoldable pub fp12_inv : Fp12 f → Option (Fp12 f)
  fp12_inv a = elim (fp6_inv (fp12_norm a)) [
    | none ↦ none
    | some norm_inv ↦
        some (record { c0 = fp6_mul a.c0 norm_inv; c1 = fp6_neg (fp6_mul a.c1 norm_inv) })
  ]

  unfoldable pub fp12_conjugate : Fp12 f → Fp12 f
  fp12_conjugate a = record { c0 = a.c0; c1 = fp6_neg a.c1 }

  unfoldable pub fp12_to_bytes : Fp12 f → Bytes
  fp12_to_bytes a =
      fp2_to_bytes f a.c0.c0
      ++ (fp2_to_bytes f a.c0.c1
          ++ (fp2_to_bytes f a.c0.c2
              ++ (fp2_to_bytes f a.c1.c0 ++ (fp2_to_bytes f a.c1.c1 ++ fp2_to_bytes f a.c1.c2))))

  -- A line through two points, at the sparse places of Fp12.
  pub record LineEval : Type 0 where
    pub a : Fp2 f
    pub b : Fp2 f
    pub c : Fp2 f

  unfoldable pub fp12_mul_by_line : Fp12 f → LineEval → Fp12 f
  fp12_mul_by_line x l = fp12_mul x (record {
    c0 = record { c0 = l.a; c1 = fp2_zero f; c2 = fp2_zero f };
    c1 = record { c0 = fp2_zero f; c1 = l.b; c2 = l.c };
  })
