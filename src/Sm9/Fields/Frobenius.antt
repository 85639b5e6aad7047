-- ===== src/Sm9/Fields/Frobenius.antt =====
-- src/sm9/fields/fp12.rs: the Frobenius maps, with their constants, and the cyclotomic square.
use libsmx.Monty.{Monty}
use libsmx.Sm9.Fields.Fp2.{Fp2, fp2_add, fp2_sub, fp2_mul, fp2_mul_u, fp2_square, fp2_frobenius}
use libsmx.Sm9.Fields.Fp12.{Fp6, Fp12, fp6_mul_fp2}
use libsmx.Algebra.Quadratic.{Quadratic}

module _ (f : Monty) where
  unfoldable frob_v1_0 : Fp2 f
  frob_v1_0 = record {
    c0 = f.new 5958342662901643427453578939755302545063035311436308304692;
    c1 = f.ring.nought;
  }

  unfoldable frob_v1_1 : Fp2 f
  frob_v1_1 = record {
    c0 = f.new 5958342662901643427453578939755302545063035311436308304691;
    c1 = f.ring.nought;
  }

  unfoldable frob_w1 : Fp2 f
  frob_w1 = record {
    c0 = f.new 28559166513296912346466834407128128229200165862230698399494071135560376478091;
    c1 = f.ring.nought;
  }

  unfoldable fp6_frobenius_p : Fp6 f → Fp6 f
  fp6_frobenius_p a = record {
    c0 = fp2_frobenius f a.c0;
    c1 = fp2_mul f (fp2_frobenius f a.c1) frob_v1_0;
    c2 = fp2_mul f (fp2_frobenius f a.c2) frob_v1_1;
  }

  abbrev fp6_frobenius_p2 : Fp6 f → Fp6 f
  fp6_frobenius_p2 a = fp6_frobenius_p (fp6_frobenius_p a)

  abbrev fp6_frobenius_p3 : Fp6 f → Fp6 f
  fp6_frobenius_p3 a = fp6_frobenius_p (fp6_frobenius_p2 a)

  unfoldable fp12_frobenius_p : Fp12 f → Fp12 f
  fp12_frobenius_p a = record {
    c0 = fp6_frobenius_p a.c0;
    c1 = fp6_mul_fp2 f (fp6_frobenius_p a.c1) frob_w1;
  }

  abbrev fp12_frobenius_p2 : Fp12 f → Fp12 f
  fp12_frobenius_p2 a = fp12_frobenius_p (fp12_frobenius_p a)

  abbrev fp12_frobenius_p3 : Fp12 f → Fp12 f
  fp12_frobenius_p3 a = fp12_frobenius_p (fp12_frobenius_p2 a)

  unfoldable fp2_pair_square : Fp2 f → Fp2 f → Quadratic (Fp2 f)
  fp2_pair_square a b =
      let a2 = fp2_square f a in
      let b2 = fp2_square f b in
      let ab = fp2_mul f a b in record { c0 = fp2_add f a2 (fp2_mul_u f b2); c1 = fp2_add f ab ab }

  -- 3 t - 2 x and 3 t + 2 x.
  unfoldable thrice_less : Fp2 f → Fp2 f → Fp2 f
  thrice_less t x = fp2_sub f (fp2_add f (fp2_add f t t) t) (fp2_add f x x)

  unfoldable thrice_more : Fp2 f → Fp2 f → Fp2 f
  thrice_more t x = fp2_add f (fp2_add f t t) (fp2_add f t (fp2_add f x x))

  unfoldable fp12_cyclotomic_square : Fp12 f → Fp12 f
  fp12_cyclotomic_square a =
      let f0 = a.c0.c0 in
      let f1 = a.c1.c0 in
      let f2 = a.c0.c1 in
      let f3 = a.c1.c1 in
      let f4 = a.c0.c2 in
      let f5 = a.c1.c2 in
      let p0 = fp2_pair_square f0 f1 in
      let p2 = fp2_pair_square f4 f2 in
      let p4 = fp2_pair_square f3 f5 in
      record {
        c0 = record {
          c0 = thrice_less p0.c0 f0;
          c1 = thrice_less p2.c1 f2;
          c2 = thrice_less p4.c0 f3;
        };
        c1 = record {
          c0 = thrice_more p0.c1 f1;
          c1 = thrice_more p2.c0 f4;
          c2 = thrice_more p4.c1 f5;
        };
      }
