-- ===== src/Sm2/Field.antt =====
-- src/sm2/field.rs: the functions on Fp and Fn, and the constants of the curve.
use libsmx.Base.{ℕ, if◌then◌else◌, Option, none, some}
use libsmx.Base.Words.{Bytes, from_be_bytes, to_be_bytes}
use libsmx.Monty.{Monty, same_residue}

abbrev pub Fp : Monty → Type 0
Fp f = f.ring.Carrier

abbrev pub Fn : Monty → Type 0
Fn g = g.ring.Carrier

abbrev pub field_modulus : ℕ
field_modulus = 115792089210356248756420345214020892766250353991924191454421193933289684991999

abbrev pub group_order : ℕ
group_order = 115792089210356248756420345214020892766061623724957744567843809356293439045923

abbrev pub group_order_minus_1 : ℕ
group_order_minus_1 = 115792089210356248756420345214020892766061623724957744567843809356293439045922

module _ (f : Monty) where
  unfoldable pub curve_a : Fp f
  curve_a = f.new 115792089210356248756420345214020892766250353991924191454421193933289684991996

  unfoldable pub curve_b : Fp f
  curve_b = f.new 18505919022281880113072981827955639221458448578012075254857346196103069175443

  unfoldable pub gx : Fp f
  gx = f.new 22963146547237050559479531362550074578802567295341616970375194840604139615431

  unfoldable pub gy : Fp f
  gy = f.new 85132369209828568825618990617112496413088388631904505083283536607588877201568

  abbrev pub fp_add : Fp f → Fp f → Fp f
  fp_add a b = f.ring.plus a b

  abbrev pub fp_sub : Fp f → Fp f → Fp f
  fp_sub a b = f.sub a b

  abbrev pub fp_mul : Fp f → Fp f → Fp f
  fp_mul a b = f.ring.times a b

  abbrev pub fp_neg : Fp f → Fp f
  fp_neg a = f.ring.minus a

  abbrev pub fp_square : Fp f → Fp f
  fp_square a = f.square a

  abbrev pub fp_inv : Fp f → Option (Fp f)
  fp_inv a = elim (f.invert a) [ none ↦ none | some inv ↦ some inv ]

  abbrev pub fp_from_bytes : Bytes → Fp f
  fp_from_bytes bytes = f.new (from_be_bytes 0 bytes)

  abbrev pub fp_to_bytes : Fp f → Bytes
  fp_to_bytes a = to_be_bytes 32 (f.retrieve a)

  unfoldable pub fp_sqrt : Fp f → Option (Fp f)
  fp_sqrt a =
      let candidate =
        f.pow a 28948022302589062189105086303505223191562588497981047863605298483322421248000 in
      if same_residue f (f.square candidate) a then some candidate else none

module _ (g : Monty) where
  abbrev pub fn_add : Fn g → Fn g → Fn g
  fn_add a b = g.ring.plus a b

  abbrev pub fn_sub : Fn g → Fn g → Fn g
  fn_sub a b = g.sub a b

  abbrev pub fn_mul : Fn g → Fn g → Fn g
  fn_mul a b = g.ring.times a b

  abbrev pub fn_neg : Fn g → Fn g
  fn_neg a = g.ring.minus a

  abbrev pub fn_inv : Fn g → Option (Fn g)
  fn_inv a = elim (g.invert a) [ none ↦ none | some inv ↦ some inv ]

  abbrev pub fn_from_bytes : Bytes → Fn g
  fn_from_bytes bytes = g.new (from_be_bytes 0 bytes)

  abbrev pub fn_to_bytes : Fn g → Bytes
  fn_to_bytes a = to_be_bytes 32 (g.retrieve a)
