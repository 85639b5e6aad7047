-- ===== src/Algebra.antt =====
-- Commutative rings, for the field towers of src/sm9/fields: a record of operations and laws.
pub mod Laws
pub mod Polynomial
pub mod Solver
pub mod Quadratic
pub mod Cubic
pub mod Term
pub mod Numeric
use libsmx.Base.{◌≡◌}

pub record CommRing : Type 1 where
  pub Carrier : Type 0
  pub nought : Carrier
  pub unit : Carrier
  pub plus : Carrier → Carrier → Carrier
  pub times : Carrier → Carrier → Carrier
  pub minus : Carrier → Carrier
  pub plus_assoc : (a b c : Carrier) → plus (plus a b) c ≡ plus a (plus b c)
  pub plus_comm : (a b : Carrier) → plus a b ≡ plus b a
  pub plus_nought : (a : Carrier) → plus a nought ≡ a
  pub plus_minus : (a : Carrier) → plus a (minus a) ≡ nought
  pub times_assoc : (a b c : Carrier) → times (times a b) c ≡ times a (times b c)
  pub times_comm : (a b : Carrier) → times a b ≡ times b a
  pub times_unit : (a : Carrier) → times a unit ≡ a
  pub times_plus : (a b c : Carrier) → times a (plus b c) ≡ plus (times a b) (times a c)
