-- ===== src/Algebra/Term.antt =====
-- Polynomials with whole coefficients in the variables of an environment, in normal form: a sorted
-- list of monomials, each with the two parts of its coefficient, one of which is zero.
use libsmx.Base.{ℕ, ◌+◌, ◌-◌, ◌*◌, ◌==◌, if◌then◌else◌, ◌&&◌, List, [], ◌∷◌}
use libsmx.Base.Bytes.{bytes_eq}
use libsmx.Algebra.Polynomial.{join_vars, before}

-- The number `c.0 - c.1`.
abbrev pub Coeff : Type 0
Coeff = ℕ × ℕ

abbrev pub Sum : Type 0
Sum = List (Coeff × List ℕ)

abbrev pub cancel : ℕ → ℕ → Coeff
cancel p q = (p - q, q - p)

abbrev pub add_coeff : Coeff → Coeff → Coeff
add_coeff c d = cancel (c.0 + d.0) (c.1 + d.1)

abbrev pub mul_coeff : Coeff → Coeff → Coeff
mul_coeff c d = cancel (c.0 * d.0 + c.1 * d.1) (c.0 * d.1 + c.1 * d.0)

abbrev pub push_term : Coeff → List ℕ → Sum → Sum
push_term c m p = if c.0 == 0 && c.1 == 0 then p else (c, m) ∷ p

unfoldable pub add_term : Coeff → List ℕ → Sum → Sum
add_term c m [] = push_term c m []
add_term c m ((d, n) ∷ p) =
    if bytes_eq m n
    then push_term (add_coeff c d) n p
    else if before m n
    then push_term c m ((d, n) ∷ p)
    else (d, n) ∷ add_term c m p

unfoldable pub add_sum : Sum → Sum → Sum
add_sum [] q = q
add_sum ((c, m) ∷ p) q = add_term c m (add_sum p q)

unfoldable pub scale_sum : Coeff → List ℕ → Sum → Sum
scale_sum c m [] = []
scale_sum c m ((d, n) ∷ p) = add_term (mul_coeff c d) (join_vars m n) (scale_sum c m p)

unfoldable pub mul_sum : Sum → Sum → Sum
mul_sum [] q = []
mul_sum ((c, m) ∷ p) q = add_sum (scale_sum c m q) (mul_sum p q)

unfoldable pub neg_sum : Sum → Sum
neg_sum [] = []
neg_sum ((c, m) ∷ p) = ((c.1, c.0), m) ∷ neg_sum p

infixl 65 ◌⊕◌ ◌⊖◌
infixl 70 ◌⊗◌
pub data Term : Type 0 where
  var : ℕ → Term
  lit : ℕ → Term
  ◌⊕◌ : Term → Term → Term
  ◌⊗◌ : Term → Term → Term
  neg : Term → Term

abbrev pub ◌⊖◌ : Term → Term → Term
a ⊖ b = a ⊕ neg b

unfoldable pub reduced : Term → Sum
unfolding add_term add_sum scale_sum mul_sum neg_sum join_vars before
reduced (var i) = ((1, 0), i ∷ []) ∷ []
reduced (lit n) = push_term (n, 0) [] []
reduced (a ⊕ b) = add_sum (reduced a) (reduced b)
reduced (a ⊗ b) = mul_sum (reduced a) (reduced b)
reduced (neg a) = neg_sum (reduced a)
