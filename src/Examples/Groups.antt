-- ===== src/Examples/Groups.antt =====
-- src/sm9/groups: instances of the theorems, over the residues of the modulus of SM9.
use libsmx.Base.{refl, arith}
use libsmx.Monty.{Monty}
use libsmx.Examples.Residues.{residues}
use libsmx.Sm9.Groups.G1.{sm9_modulus, scalar_mul_g1}
use libsmx.Sm9.Groups.G1.OnCurve.{IsOnG1, scalar_mul_g1-IsOnG1}

abbrev base_field : Monty
base_field = residues sm9_modulus (omega arith) (omega arith)

scalar_mul_g1-IsOnG1_example : IsOnG1 base_field (scalar_mul_g1 base_field 123456789)
unfolding residues
scalar_mul_g1-IsOnG1_example = scalar_mul_g1-IsOnG1 base_field refl 123456789
