-- ===== src/Sm9/Fields/Fp.antt =====
-- src/sm9/fields/fp.rs: the functions on Fp and Fn.
use libsmx.Base.{Option, none, some}
use libsmx.Base.Words.{Bytes, from_be_bytes, to_be_bytes}
use libsmx.Monty.{Monty}

abbrev pub Fp : Monty → Type 0
Fp f = f.ring.Carrier

module _ (f : Monty) where
  abbrev pub fp_add : Fp f → Fp f → Fp f
  fp_add a b = f.ring.plus a b

  abbrev pub fp_sub : Fp f → Fp f → Fp f
  fp_sub a b = f.sub a b

  abbrev pub fp_mul : Fp f → Fp f → Fp f
  fp_mul a b = f.ring.times a b

  abbrev pub fp_neg : Fp f → Fp f
  fp_neg a = f.ring.minus a

  abbrev pub fp_square : Fp f → Fp f
  fp_square a = f.square a

  abbrev pub fp_inv : Fp f → Option (Fp f)
  fp_inv a = elim (f.invert a) [ none ↦ none | some inv ↦ some inv ]

  abbrev pub fp_from_bytes : Bytes → Fp f
  fp_from_bytes bytes = f.new (from_be_bytes 0 bytes)

  abbrev pub fp_to_bytes : Fp f → Bytes
  fp_to_bytes a = to_be_bytes 32 (f.retrieve a)

-- The scalar field, the residues of the group order: another instance of the same form.
abbrev Fn : Monty → Type 0
Fn g = g.ring.Carrier

module _ (g : Monty) where
  abbrev fn_add : Fn g → Fn g → Fn g
  fn_add a b = g.ring.plus a b

  abbrev fn_sub : Fn g → Fn g → Fn g
  fn_sub a b = g.sub a b

  abbrev fn_mul : Fn g → Fn g → Fn g
  fn_mul a b = g.ring.times a b

  abbrev fn_neg : Fn g → Fn g
  fn_neg a = g.ring.minus a

  abbrev fn_inv : Fn g → Option (Fn g)
  fn_inv a = elim (g.invert a) [ none ↦ none | some inv ↦ some inv ]

  abbrev fn_from_bytes : Bytes → Fn g
  fn_from_bytes bytes = g.new (from_be_bytes 0 bytes)

  abbrev fn_to_bytes : Fn g → Bytes
  fn_to_bytes a = to_be_bytes 32 (g.retrieve a)
