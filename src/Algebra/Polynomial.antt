-- ===== src/Algebra/Polynomial.antt =====
-- Polynomials in the variables of an environment, in normal form: a sorted list of signed monomials,
-- a monomial being the sorted list of its variables.
use libsmx.Base.{ℕ, ltb, leb, ◌==◌, if◌then◌else◌, Bool, true, false, not, List, [], ◌∷◌}
use libsmx.Base.Bytes.{bytes_eq}

abbrev pub Monomial : Type 0
Monomial = Bool × List ℕ

abbrev pub Polynomial : Type 0
Polynomial = List Monomial

abbrev pub differ_sign : Bool → Bool → Bool
differ_sign true b = not b
differ_sign false b = b

unfoldable pub insert_var : ℕ → List ℕ → List ℕ
insert_var i [] = i ∷ []
insert_var i (j ∷ js) = if leb i j then i ∷ j ∷ js else j ∷ insert_var i js

unfoldable pub join_vars : List ℕ → List ℕ → List ℕ
join_vars [] ys = ys
join_vars (x ∷ xs) ys = insert_var x (join_vars xs ys)

-- Shorter lists first, then the order of the first variables that differ.
unfoldable pub before : List ℕ → List ℕ → Bool
before [] [] = false
before [] (y ∷ ys) = true
before (x ∷ xs) [] = false
before (x ∷ xs) (y ∷ ys) = if x == y then before xs ys else ltb x y

-- A monomial and its opposite cancel.
unfoldable pub insert_term : Monomial → Polynomial → Polynomial
insert_term (s, m) [] = (s, m) ∷ []
insert_term (s, m) ((t, n) ∷ p) =
    if bytes_eq m n
    then (if differ_sign s t then p else (s, m) ∷ (t, n) ∷ p)
    else if before m n
    then (s, m) ∷ (t, n) ∷ p
    else (t, n) ∷ insert_term (s, m) p

unfoldable pub add_poly : Polynomial → Polynomial → Polynomial
add_poly [] q = q
add_poly (m ∷ p) q = insert_term m (add_poly p q)

unfoldable pub scale : Monomial → Polynomial → Polynomial
scale (s, m) [] = []
scale (s, m) ((t, n) ∷ p) = insert_term (differ_sign s t, join_vars m n) (scale (s, m) p)

unfoldable pub mul_poly : Polynomial → Polynomial → Polynomial
mul_poly [] q = []
mul_poly (m ∷ p) q = add_poly (scale m q) (mul_poly p q)

unfoldable pub neg_poly : Polynomial → Polynomial
neg_poly [] = []
neg_poly ((s, m) ∷ p) = (not s, m) ∷ neg_poly p

pub data Expr : Type 0 where
  var : ℕ → Expr
  nil : Expr
  one : Expr
  add : Expr → Expr → Expr
  mul : Expr → Expr → Expr
  neg : Expr → Expr

unfoldable pub normal : Expr → Polynomial
unfolding insert_var join_vars before insert_term add_poly scale mul_poly neg_poly
normal (var i) = (false, i ∷ []) ∷ []
normal nil = []
normal one = (false, []) ∷ []
normal (add a b) = add_poly (normal a) (normal b)
normal (mul a b) = mul_poly (normal a) (normal b)
normal (neg a) = neg_poly (normal a)
