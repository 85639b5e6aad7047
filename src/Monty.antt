-- ===== src/Monty.antt =====
-- `ConstMontyForm` of the crate crypto-bigint, the residues of a fixed modulus, as a parameter, with
-- what its documentation says: a commutative ring, `new` reduces a number, `retrieve` gives the
-- least residue back, `invert` gives an inverse or nothing.
use libsmx.Base.{ℕ, ◌+◌, ◌*◌, ◌%◌, ◌^◌, ◌≤◌, ◌<◌, ◌==◌, Bool, ◌≡◌, Option, some}
use libsmx.Algebra.{CommRing}

pub record Monty : Type 1 where
  pub ring : CommRing
  pub sub : ring.Carrier → ring.Carrier → ring.Carrier
  pub sub_law : (a b : ring.Carrier) → sub a b ≡ ring.plus a (ring.minus b)
  pub square : ring.Carrier → ring.Carrier
  pub square_law : (a : ring.Carrier) → square a ≡ ring.times a a
  pub invert : ring.Carrier → Option ring.Carrier
  pub invert_law : (a b : ring.Carrier) → invert a ≡ some b → ring.times a b ≡ ring.unit
  pub pow : ring.Carrier → ℕ → ring.Carrier
  pub modulus : ℕ
  pub modulus_law : modulus ≤ 256 ^ 32
  pub new : ℕ → ring.Carrier
  pub retrieve : ring.Carrier → ℕ
  pub new_law : (a : ring.Carrier) → new (retrieve a) ≡ a
  pub retrieve_law : (a : ring.Carrier) → retrieve a < modulus
  pub retrieve-new : (n : ℕ) → retrieve (new n) ≡ n % modulus
  pub new-zero : new 0 ≡ ring.nought
  pub new-one : new 1 ≡ ring.unit
  pub new-add : (m n : ℕ) → new (m + n) ≡ ring.plus (new m) (new n)
  pub new-mul : (m n : ℕ) → new (m * n) ≡ ring.times (new m) (new n)

-- `==` of two residues.
abbrev pub same_residue : (f : Monty) → f.ring.Carrier → f.ring.Carrier → Bool
same_residue f a b = f.retrieve a == f.retrieve b
