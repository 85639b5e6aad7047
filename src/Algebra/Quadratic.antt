-- ===== src/Algebra/Quadratic.antt =====
-- The ring K[x] / (x² - ξ): pairs with the schoolbook product.
use libsmx.Base.{List, [], ◌∷◌, ◌≡◌, refl}
use libsmx.Algebra.{CommRing}
use libsmx.Algebra.Polynomial.{Expr, normal}
use libsmx.Algebra.Solver.{same_value}

pub record Quadratic (A : Type 0) : Type 0 where
  pub c0 : A
  pub c1 : A

module _ (k : CommRing) (xi : k.Carrier) where
  open k use {Carrier, nought, unit, plus, times, minus}

  abbrev pub quadratic_times : Quadratic Carrier → Quadratic Carrier → Quadratic Carrier
  quadratic_times a b = record {
    c0 = plus (times a.c0 b.c0) (times xi (times a.c1 b.c1));
    c1 = plus (times a.c0 b.c1) (times a.c1 b.c0);
  }

abbrev x0 : Expr
x0 = Expr.var 0

abbrev x1 : Expr
x1 = Expr.var 1

abbrev x2 : Expr
x2 = Expr.var 2

abbrev x3 : Expr
x3 = Expr.var 3

abbrev x4 : Expr
x4 = Expr.var 4

abbrev x5 : Expr
x5 = Expr.var 5

abbrev x6 : Expr
x6 = Expr.var 6

-- The two places of a product, with `x0` for `ξ`.
abbrev low : Expr → Expr → Expr → Expr → Expr
low a0 a1 b0 b1 = Expr.add (Expr.mul a0 b0) (Expr.mul x0 (Expr.mul a1 b1))

abbrev high : Expr → Expr → Expr → Expr → Expr
high a0 a1 b0 b1 = Expr.add (Expr.mul a0 b1) (Expr.mul a1 b0)

module _ (k : CommRing) (xi : k.Carrier) (a b c : Quadratic k.Carrier) where
  env : List k.Carrier
  env = xi ∷ a.c0 ∷ a.c1 ∷ b.c0 ∷ b.c1 ∷ c.c0 ∷ c.c1 ∷ []

  pub quadratic_assoc :
      quadratic_times k xi (quadratic_times k xi a b) c
      ≡ quadratic_times k xi a (quadratic_times k xi b c)
  unfolding normal env
  quadratic_assoc i = record {
    c0 =
        same_value k env (low (low x1 x2 x3 x4) (high x1 x2 x3 x4) x5 x6)
          (low x1 x2 (low x3 x4 x5 x6) (high x3 x4 x5 x6)) refl i;
    c1 =
        same_value k env (high (low x1 x2 x3 x4) (high x1 x2 x3 x4) x5 x6)
          (high x1 x2 (low x3 x4 x5 x6) (high x3 x4 x5 x6)) refl i;
  }

  pub quadratic_comm : quadratic_times k xi a b ≡ quadratic_times k xi b a
  unfolding normal env
  quadratic_comm i = record {
    c0 = same_value k env (low x1 x2 x3 x4) (low x3 x4 x1 x2) refl i;
    c1 = same_value k env (high x1 x2 x3 x4) (high x3 x4 x1 x2) refl i;
  }

  pub quadratic_distrib :
      quadratic_times k xi a (record { c0 = k.plus b.c0 c.c0; c1 = k.plus b.c1 c.c1 }) ≡ record {
        c0 = k.plus (quadratic_times k xi a b).c0 (quadratic_times k xi a c).c0;
        c1 = k.plus (quadratic_times k xi a b).c1 (quadratic_times k xi a c).c1;
      }
  unfolding normal env
  quadratic_distrib i = record {
    c0 =
        same_value k env (low x1 x2 (Expr.add x3 x5) (Expr.add x4 x6))
          (Expr.add (low x1 x2 x3 x4) (low x1 x2 x5 x6)) refl i;
    c1 =
        same_value k env (high x1 x2 (Expr.add x3 x5) (Expr.add x4 x6))
          (Expr.add (high x1 x2 x3 x4) (high x1 x2 x5 x6)) refl i;
  }

  pub quadratic_unit : quadratic_times k xi a (record { c0 = k.unit; c1 = k.nought }) ≡ a
  unfolding normal env
  quadratic_unit i = record {
    c0 = same_value k env (low x1 x2 Expr.one Expr.nil) x1 refl i;
    c1 = same_value k env (high x1 x2 Expr.one Expr.nil) x2 refl i;
  }

abbrev pub quadratic_ring : (k : CommRing) → k.Carrier → CommRing
quadratic_ring k xi = record {
  Carrier = Quadratic k.Carrier;
  nought = record { c0 = k.nought; c1 = k.nought };
  unit = record { c0 = k.unit; c1 = k.nought };
  plus = λ a b. record { c0 = k.plus a.c0 b.c0; c1 = k.plus a.c1 b.c1 };
  times = quadratic_times k xi;
  minus = λ a. record { c0 = k.minus a.c0; c1 = k.minus a.c1 };
  plus_assoc =
      λ a b c i. record { c0 = k.plus_assoc a.c0 b.c0 c.c0 i; c1 = k.plus_assoc a.c1 b.c1 c.c1 i };
  plus_comm = λ a b i. record { c0 = k.plus_comm a.c0 b.c0 i; c1 = k.plus_comm a.c1 b.c1 i };
  plus_nought = λ a i. record { c0 = k.plus_nought a.c0 i; c1 = k.plus_nought a.c1 i };
  plus_minus = λ a i. record { c0 = k.plus_minus a.c0 i; c1 = k.plus_minus a.c1 i };
  times_assoc = quadratic_assoc k xi;
  times_comm = λ a b. quadratic_comm k xi a b b;
  times_unit = λ a. quadratic_unit k xi a a a;
  times_plus = quadratic_distrib k xi;
}
