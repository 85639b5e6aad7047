-- ===== src/Sm9/Fields/Fp2.antt =====
-- src/sm9/fields/fp2.rs: arithmetic of Fp2.
use libsmx.Base.{◌++◌, Option, none, some, take, drop}
use libsmx.Base.Words.{Bytes}
use libsmx.Algebra.Quadratic.{Quadratic}
use libsmx.Monty.{Monty}
use libsmx.Sm9.Fields.Fp.{
  Fp, fp_add, fp_sub, fp_mul, fp_neg, fp_square, fp_inv, fp_from_bytes, fp_to_bytes,
}

abbrev pub Fp2 : Monty → Type 0
Fp2 f = Quadratic (Fp f)

module _ (f : Monty) where
  abbrev pub fp2_zero : Fp2 f
  fp2_zero = record { c0 = f.ring.nought; c1 = f.ring.nought }

  abbrev pub fp2_one : Fp2 f
  fp2_one = record { c0 = f.ring.unit; c1 = f.ring.nought }

  unfoldable pub fp2_from_bytes : Bytes → Fp2 f
  fp2_from_bytes bytes = record {
    c0 = fp_from_bytes f (take 32 bytes);
    c1 = fp_from_bytes f (drop 32 bytes);
  }

  unfoldable pub fp2_to_bytes : Fp2 f → Bytes
  fp2_to_bytes a = fp_to_bytes f a.c0 ++ fp_to_bytes f a.c1

  abbrev pub fp2_add : Fp2 f → Fp2 f → Fp2 f
  fp2_add a b = record { c0 = fp_add f a.c0 b.c0; c1 = fp_add f a.c1 b.c1 }

  unfoldable pub fp2_sub : Fp2 f → Fp2 f → Fp2 f
  fp2_sub a b = record { c0 = fp_sub f a.c0 b.c0; c1 = fp_sub f a.c1 b.c1 }

  abbrev pub fp2_neg : Fp2 f → Fp2 f
  fp2_neg a = record { c0 = fp_neg f a.c0; c1 = fp_neg f a.c1 }

  unfoldable pub fp2_mul : Fp2 f → Fp2 f → Fp2 f
  fp2_mul a b =
      let a0b0 = fp_mul f a.c0 b.c0 in
      let a1b1 = fp_mul f a.c1 b.c1 in
      let two_a1b1 = fp_add f a1b1 a1b1 in
      let a0b1 = fp_mul f a.c0 b.c1 in
      let a1b0 = fp_mul f a.c1 b.c0 in
      record { c0 = fp_sub f a0b0 two_a1b1; c1 = fp_add f a0b1 a1b0 }

  unfoldable pub fp2_square : Fp2 f → Fp2 f
  fp2_square a =
      let a0sq = fp_square f a.c0 in
      let a1sq = fp_square f a.c1 in
      let a0a1 = fp_mul f a.c0 a.c1 in
      record { c0 = fp_sub f a0sq (fp_add f a1sq a1sq); c1 = fp_add f a0a1 a0a1 }

  unfoldable pub fp2_norm : Fp2 f → Fp f
  fp2_norm a =
      let a0sq = fp_square f a.c0 in
      let a1sq = fp_square f a.c1 in fp_add f a0sq (fp_add f a1sq a1sq)

  unfoldable pub fp2_inv : Fp2 f → Option (Fp2 f)
  fp2_inv a = elim (fp_inv f (fp2_norm a)) [
    | none ↦ none
    | some norm_inv ↦
        some (record { c0 = fp_mul f a.c0 norm_inv; c1 = fp_neg f (fp_mul f a.c1 norm_inv) })
  ]

  unfoldable pub fp2_mul_fp : Fp2 f → Fp f → Fp2 f
  fp2_mul_fp a b = record { c0 = fp_mul f a.c0 b; c1 = fp_mul f a.c1 b }

  unfoldable pub fp2_mul_u : Fp2 f → Fp2 f
  fp2_mul_u a = let two_a1 = fp_add f a.c1 a.c1 in record { c0 = fp_neg f two_a1; c1 = a.c0 }

  unfoldable pub fp2_frobenius : Fp2 f → Fp2 f
  fp2_frobenius a = record { c0 = a.c0; c1 = fp_neg f a.c1 }

  abbrev pub fp2_conjugate : Fp2 f → Fp2 f
  fp2_conjugate a = fp2_frobenius a
