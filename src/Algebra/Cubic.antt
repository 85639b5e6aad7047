-- ===== src/Algebra/Cubic.antt =====
-- The ring K[x] / (x³ - ξ): triples with the schoolbook product.
use libsmx.Base.{List, [], ◌∷◌, ◌≡◌, refl}
use libsmx.Algebra.{CommRing}
use libsmx.Algebra.Polynomial.{Expr, normal}
use libsmx.Algebra.Solver.{same_value}

pub record Cubic (A : Type 0) : Type 0 where
  pub c0 : A
  pub c1 : A
  pub c2 : A

module _ (k : CommRing) (xi : k.Carrier) where
  open k use {Carrier, plus, times}

  abbrev pub cubic_times : Cubic Carrier → Cubic Carrier → Cubic Carrier
  cubic_times a b = record {
    c0 = plus (times a.c0 b.c0) (times xi (plus (times a.c1 b.c2) (times a.c2 b.c1)));
    c1 = plus (plus (times a.c0 b.c1) (times a.c1 b.c0)) (times xi (times a.c2 b.c2));
    c2 = plus (plus (times a.c0 b.c2) (times a.c1 b.c1)) (times a.c2 b.c0);
  }

abbrev x0 : Expr
x0 = Expr.var 0

abbrev x1 : Expr
x1 = Expr.var 1

abbrev x2 : Expr
x2 = Expr.var 2

abbrev x3 : Expr
x3 = Expr.var 3

abbrev x4 : Expr
x4 = Expr.var 4

abbrev x5 : Expr
x5 = Expr.var 5

abbrev x6 : Expr
x6 = Expr.var 6

abbrev x7 : Expr
x7 = Expr.var 7

abbrev x8 : Expr
x8 = Expr.var 8

abbrev x9 : Expr
x9 = Expr.var 9

-- A triple of expressions, and the product of two with `x0` for `ξ`.
record Places : Type 0 where
  p0 : Expr
  p1 : Expr
  p2 : Expr

abbrev product : Places → Places → Places
product a b = record {
  p0 =
      Expr.add (Expr.mul a.p0 b.p0)
        (Expr.mul x0 (Expr.add (Expr.mul a.p1 b.p2) (Expr.mul a.p2 b.p1)));
  p1 =
      Expr.add (Expr.add (Expr.mul a.p0 b.p1) (Expr.mul a.p1 b.p0))
        (Expr.mul x0 (Expr.mul a.p2 b.p2));
  p2 = Expr.add (Expr.add (Expr.mul a.p0 b.p2) (Expr.mul a.p1 b.p1)) (Expr.mul a.p2 b.p0);
}

abbrev sum : Places → Places → Places
sum a b = record { p0 = Expr.add a.p0 b.p0; p1 = Expr.add a.p1 b.p1; p2 = Expr.add a.p2 b.p2 }

abbrev first : Places
first = record { p0 = x1; p1 = x2; p2 = x3 }

abbrev second : Places
second = record { p0 = x4; p1 = x5; p2 = x6 }

abbrev third : Places
third = record { p0 = x7; p1 = x8; p2 = x9 }

abbrev unit_places : Places
unit_places = record { p0 = Expr.one; p1 = Expr.nil; p2 = Expr.nil }

module _ (k : CommRing) (xi : k.Carrier) (a b c : Cubic k.Carrier) where
  abbrev env : List k.Carrier
  env = xi ∷ a.c0 ∷ a.c1 ∷ a.c2 ∷ b.c0 ∷ b.c1 ∷ b.c2 ∷ c.c0 ∷ c.c1 ∷ c.c2 ∷ []

  pub cubic_assoc :
      cubic_times k xi (cubic_times k xi a b) c ≡ cubic_times k xi a (cubic_times k xi b c)
  unfolding normal
  cubic_assoc i = record {
    c0 =
        same_value k env (product (product first second) third).p0
          (product first (product second third)).p0 refl i;
    c1 =
        same_value k env (product (product first second) third).p1
          (product first (product second third)).p1 refl i;
    c2 =
        same_value k env (product (product first second) third).p2
          (product first (product second third)).p2 refl i;
  }

  pub cubic_comm : cubic_times k xi a b ≡ cubic_times k xi b a
  unfolding normal
  cubic_comm i = record {
    c0 = same_value k env (product first second).p0 (product second first).p0 refl i;
    c1 = same_value k env (product first second).p1 (product second first).p1 refl i;
    c2 = same_value k env (product first second).p2 (product second first).p2 refl i;
  }

  pub cubic_distrib :
      cubic_times k xi a
        (record { c0 = k.plus b.c0 c.c0; c1 = k.plus b.c1 c.c1; c2 = k.plus b.c2 c.c2 })
      ≡ record {
        c0 = k.plus (cubic_times k xi a b).c0 (cubic_times k xi a c).c0;
        c1 = k.plus (cubic_times k xi a b).c1 (cubic_times k xi a c).c1;
        c2 = k.plus (cubic_times k xi a b).c2 (cubic_times k xi a c).c2;
      }
  unfolding normal
  cubic_distrib i = record {
    c0 =
        same_value k env (product first (sum second third)).p0
          (sum (product first second) (product first third)).p0 refl i;
    c1 =
        same_value k env (product first (sum second third)).p1
          (sum (product first second) (product first third)).p1 refl i;
    c2 =
        same_value k env (product first (sum second third)).p2
          (sum (product first second) (product first third)).p2 refl i;
  }

  pub cubic_unit : cubic_times k xi a (record { c0 = k.unit; c1 = k.nought; c2 = k.nought }) ≡ a
  unfolding normal
  cubic_unit i = record {
    c0 = same_value k env (product first unit_places).p0 (first).p0 refl i;
    c1 = same_value k env (product first unit_places).p1 (first).p1 refl i;
    c2 = same_value k env (product first unit_places).p2 (first).p2 refl i;
  }

abbrev pub cubic_ring : (k : CommRing) → k.Carrier → CommRing
cubic_ring k xi = record {
  Carrier = Cubic k.Carrier;
  nought = record { c0 = k.nought; c1 = k.nought; c2 = k.nought };
  unit = record { c0 = k.unit; c1 = k.nought; c2 = k.nought };
  plus = λ a b. record { c0 = k.plus a.c0 b.c0; c1 = k.plus a.c1 b.c1; c2 = k.plus a.c2 b.c2 };
  times = cubic_times k xi;
  minus = λ a. record { c0 = k.minus a.c0; c1 = k.minus a.c1; c2 = k.minus a.c2 };
  plus_assoc = λ a b c i. record {
    c0 = k.plus_assoc a.c0 b.c0 c.c0 i;
    c1 = k.plus_assoc a.c1 b.c1 c.c1 i;
    c2 = k.plus_assoc a.c2 b.c2 c.c2 i;
  };
  plus_comm = λ a b i. record {
    c0 = k.plus_comm a.c0 b.c0 i;
    c1 = k.plus_comm a.c1 b.c1 i;
    c2 = k.plus_comm a.c2 b.c2 i;
  };
  plus_nought = λ a i. record {
    c0 = k.plus_nought a.c0 i;
    c1 = k.plus_nought a.c1 i;
    c2 = k.plus_nought a.c2 i;
  };
  plus_minus = λ a i. record {
    c0 = k.plus_minus a.c0 i;
    c1 = k.plus_minus a.c1 i;
    c2 = k.plus_minus a.c2 i;
  };
  times_assoc = cubic_assoc k xi;
  times_comm = λ a b. cubic_comm k xi a b b;
  times_unit = λ a. cubic_unit k xi a a a;
  times_plus = cubic_distrib k xi;
}
