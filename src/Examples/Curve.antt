-- ===== src/Examples/Curve.antt =====
-- src/sm2: instances of the theorems on the curve and the protocols, over the residues of the
-- standard's two primes.
use libsmx.Base.{
  ℕ, ◌+◌, ◌*◌, ◌≡◌, refl, sym, ap, ap₂, ◌∙◌, ==_iff, ◌&&◌, Bool, true, false, Option, none, some,
  [], ◌∷◌, ◌++◌, take, drop, replicate, flatten, arith,
}
use libsmx.Base.Words.{Bytes, from_be_bytes, to_be_bytes}
use libsmx.Base.Outcome.{Outcome, ok, err, panic}
use libsmx.Sm3.Reference.{sm3}
use libsmx.Monty.{Monty, same_residue}
use libsmx.Examples.Residues.{residues, pow_loop}
use libsmx.Sm2.Field.{field_modulus, group_order, curve_a, curve_b, gx, gy, fp_to_bytes}
use libsmx.Sm2.Ec.Digits.{scalar_mul_lem}
use libsmx.Sm2.Ec.{
  AffinePoint, infinity, from_affine, to_affine, double, add, add_mixed, tangent, chord,
}
use libsmx.Sm2.Ec.Multiply.{
  window_bytes, window_step, window_table, table_from, select_entry, multi_scalar_mul, multi_bytes,
  multi_bits, add_one_of, generator, scalar_mul, scalar_mul_g,
}
use libsmx.Sm2.Ec.Encode
use libsmx.Sm2.Ec.OnCurve.{IsOnCurve, double-IsOnCurve, add-IsOnCurve}
use libsmx.Sm2.Ec.Constants.{curve_a-IsMinusThree, generator-IsOnCurve}
use libsmx.Sm2.Ec.Multiples.{scalar_mul_g-IsOnCurve}
use libsmx.Sm2.Private.{PrivateKey, secret}
use libsmx.Sm2.Sign.{not_a_scalar, sign_with_k, verify, get_e, get_z}
use libsmx.Sm2.Sign.Accepted.{r_of, s_of, sign_with_k-eq, verify-sign_with_k}
use libsmx.Sm2.Sign.Digests.{get_e-get_z}
use libsmx.Sm2.Encrypt.RoundTrip.{from_bytes-scalar_mul_g}

abbrev pub fp : Monty
fp = residues field_modulus (omega arith) (omega arith)

abbrev pub fn : Monty
fn = residues group_order (omega arith) (omega arith)

module _ (f : Monty) where
  same_value : (a b : f.ring.Carrier) → same_residue f a b ≡ true → a ≡ b
  same_value a b h = sym (f.new_law a) ∙ ap f.new ((==_iff _ _).0 h) ∙ f.new_law b

  -- The coordinates of two points, compared as numbers.
  abbrev pub same_points : Outcome (AffinePoint f) → Outcome (AffinePoint f) → Bool
  same_points (ok a) (ok b) = same_residue f a.x b.x && same_residue f a.y b.y
  same_points (ok a) (err e) = false
  same_points (ok a) panic = false
  same_points (err e) q = false
  same_points panic q = false

  pub same_points_lem : (p q : Outcome (AffinePoint f)) → same_points p q ≡ true → p ≡ q
  same_points_lem (ok a) (ok b) h =
      let hx : same_residue f a.x b.x ≡ true = ground (arith, h) in
      let hy : same_residue f a.y b.y ≡ true = ground (arith, h) in
      ap₂ (λ s t. ok (record { x = s; y = t })) (same_value a.x b.x hx) (same_value a.y b.y hy)
  same_points_lem (ok a) (err e) h = cc
  same_points_lem (ok a) panic h = cc
  same_points_lem (err e) q h = cc
  same_points_lem panic q h = cc

abbrev pub or_generator : Outcome (AffinePoint fp) → AffinePoint fp
or_generator (ok a) = a
or_generator (err e) = generator fp
or_generator panic = generator fp

abbrev pub or_nothing : Outcome Bytes → Bytes
or_nothing (ok a) = a
or_nothing (err e) = []
or_nothing panic = []

abbrev pub or_none : Option Bytes → Bytes
or_none (some a) = a
or_none none = []

abbrev pub key : PrivateKey
key = record {
  bytes = to_be_bytes 32 0x3945208f7b2144b13f36e38ac6d39f95889393692860b51a42fb81ef4df7c5b8;
}

abbrev pub draw : Bytes
draw = to_be_bytes 32 0x59276e27d506861a16680f3ad9c02dccef3cc1fa3cdbe4ce6d54b80deac1bc21

abbrev pub k : ℕ
k = from_be_bytes 0 draw

abbrev digest : Bytes
digest = replicate 32 7

abbrev sig : Bytes
sig = or_nothing (sign_with_k fp fn digest key k)

abbrev pub public_point : AffinePoint fp
public_point = or_generator (to_affine fp (scalar_mul_g fp (from_be_bytes 0 key.bytes)))

add-IsOnCurve_example :
    IsOnCurve fp
      (add fp (from_affine fp (generator fp)) (double fp (from_affine fp (generator fp))))
unfolding residues
add-IsOnCurve_example =
    let three = curve_a-IsMinusThree fp refl in
    let g = from_affine fp (generator fp) in
    let on = generator-IsOnCurve fp refl in
    add-IsOnCurve fp three g (double fp g) on (double-IsOnCurve fp three g on)

scalar_mul_lem_example :
    (scalar_mul fp 0 (from_affine fp (generator fp)) ≡ infinity fp)
    × (scalar_mul fp (2 * 12345) (from_affine fp (generator fp))
        ≡ double fp (scalar_mul fp 12345 (from_affine fp (generator fp))))
    × (scalar_mul fp (2 * 12345 + 1) (from_affine fp (generator fp))
        ≡ add fp
            (double fp (scalar_mul fp 12345 (from_affine fp (generator fp))))
            (from_affine fp (generator fp)))
scalar_mul_lem_example = scalar_mul_lem fp (from_affine fp (generator fp)) 12345 (omega arith)

scalar_mul_g-IsOnCurve_example : IsOnCurve fp (scalar_mul_g fp k)
unfolding residues
scalar_mul_g-IsOnCurve_example = scalar_mul_g-IsOnCurve fp refl k

abbrev pub kg : AffinePoint fp
kg = or_generator (to_affine fp (scalar_mul_g fp k))

pub kg_runs : to_affine fp (scalar_mul_g fp k) ≡ ok kg
unfolding residues pow_loop scalar_mul_g to_affine window_bytes window_step window_table table_from
    select_entry add add_mixed double tangent chord to_be_bytes gx gy from_be_bytes
kg_runs = refl

from_bytes-scalar_mul_g_example : Encode.from_bytes fp (Encode.to_bytes fp kg) ≡ ok kg
unfolding residues
from_bytes-scalar_mul_g_example = from_bytes-scalar_mul_g fp refl k kg kg_runs

sign_runs : sign_with_k fp fn digest key k ≡ ok sig
unfolding sign_with_k residues pow_loop scalar_mul_g to_affine window_bytes window_step window_table
    table_from select_entry add add_mixed double tangent chord to_be_bytes gx gy from_be_bytes
sign_runs = refl

sign_with_k-eq_example :
    (not_a_scalar (r_of sig) ≡ false)
    × (not_a_scalar (s_of sig) ≡ false)
    × (fn.ring.plus (fn.new (s_of sig)) (
          fn.ring.times
            (fn.ring.plus (fn.new (r_of sig)) (fn.new (s_of sig)))
            (fn.new (secret key)))
        ≡ fn.new k)
unfolding residues
sign_with_k-eq_example = sign_with_k-eq fp fn refl digest key k sig sign_runs

abbrev pub public_bytes : Bytes
public_bytes = Encode.to_bytes fp public_point

pub public_point_runs : to_affine fp (scalar_mul_g fp (secret key)) ≡ ok public_point
unfolding residues pow_loop scalar_mul_g to_affine window_bytes window_step window_table table_from
    select_entry add add_mixed double tangent chord to_be_bytes gx gy from_be_bytes
public_point_runs = refl

pub public_runs : Encode.from_bytes fp public_bytes ≡ ok public_point
unfolding residues
public_runs = from_bytes-scalar_mul_g fp refl (secret key) public_point public_point_runs

same_point :
    multi_scalar_mul fp
      (s_of sig)
      (fn.retrieve (fn.ring.plus (fn.new (r_of sig)) (fn.new (s_of sig))))
      public_point
    ≡ to_affine fp (scalar_mul_g fp k)
unfolding sign_with_k multi_scalar_mul multi_bytes multi_bits add_one_of residues pow_loop
    scalar_mul_g to_affine window_bytes window_step window_table table_from select_entry add
    add_mixed double tangent chord to_be_bytes gx gy from_be_bytes
same_point = same_points_lem fp _ _ refl

verify-sign_with_k_example : verify fp fn digest public_bytes sig ≡ ok tt
unfolding residues
verify-sign_with_k_example =
    verify-sign_with_k fp fn refl digest key k sig public_bytes public_point public_runs sign_runs
      same_point

get_e-get_z_example :
    get_e (get_z fp fn (1 ∷ 2 ∷ 3 ∷ []) public_bytes) digest
    ≡ sm3 (
        sm3 (
          flatten (
            to_be_bytes 2 24
            ∷ (1 ∷ 2 ∷ 3 ∷ [])
            ∷ fp_to_bytes fp (curve_a fp)
            ∷ fp_to_bytes fp (curve_b fp)
            ∷ fp_to_bytes fp (gx fp)
            ∷ fp_to_bytes fp (gy fp)
            ∷ take 32 (drop 1 public_bytes)
            ∷ take 32 (drop 33 public_bytes)
            ∷ []))
        ++ digest)
get_e-get_z_example = get_e-get_z fp fn (1 ∷ 2 ∷ 3 ∷ []) public_bytes digest
