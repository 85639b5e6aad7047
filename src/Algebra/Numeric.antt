-- ===== src/Algebra/Numeric.antt =====
-- Two terms with one normal form have one value in every commutative ring.
use libsmx.Base.{
  ℕ, zero, suc, ◌+◌, ◌-◌, ◌*◌, ◌==◌, ◌&&◌, Bool-cases, inl, inr, List, [], ◌∷◌, get_or, ◌≡◌, refl,
  sym, ap, ap₂, ◌∙◌, arith,
}
use libsmx.Base.Bytes.{bytes_eq, bytes_eq→eq}
use libsmx.Algebra.{CommRing}
use libsmx.Algebra.Laws.{nought_plus, plus_swap, minus_nought, minus_plus, times_nought, plus_times}
use libsmx.Algebra.Polynomial.{join_vars, before, Expr, normal}
use libsmx.Algebra.Solver.{same_value, product, product-join_vars}
use libsmx.Algebra.Term.{
  Coeff, Sum, cancel, add_coeff, mul_coeff, push_term, add_term, add_sum, scale_sum, mul_sum,
  neg_sum, Term, reduced,
}

module _ (k : CommRing) where
  open k use {
    Carrier, nought, unit, plus, times, minus, plus_assoc, plus_comm, plus_nought, plus_minus,
    times_assoc, times_comm, times_unit, times_plus,
  }

  abbrev pub num : ℕ → Carrier
  num zero = nought
  num (suc n) = plus (num n) unit

  num-add : (m n : ℕ) → num (m + n) ≡ plus (num m) (num n)
  num-add zero n = ap num (the_sum n) ∙ sym (nought_plus k (num n))
    where
      the_sum : (n : ℕ) → 0 + n ≡ n
      the_sum n = omega arith
  num-add (suc m) n =
      let e : suc m + n ≡ suc (m + n) = omega arith in
      ap num e
      ∙ ap (λ t. plus t unit) (num-add m n)
      ∙ plus_assoc (num m) (num n) unit
      ∙ ap (plus (num m)) (plus_comm (num n) unit)
      ∙ sym (plus_assoc (num m) unit (num n))

  num-mul : (m n : ℕ) → num (m * n) ≡ times (num m) (num n)
  unfolding normal
  num-mul zero n =
      let e : 0 * n ≡ 0 = omega arith in
      ap num e ∙ sym (times_comm nought (num n) ∙ times_nought k (num n))
  num-mul (suc m) n =
      let e : suc m * n ≡ m * n + n = grind arith in
      ap num e
      ∙ num-add (m * n) n
      ∙ ap (λ t. plus t (num n)) (num-mul m n)
      ∙ same_value k (num m ∷ num n ∷ [])
          (Expr.add (Expr.mul (Expr.var 0) (Expr.var 1)) (Expr.var 1))
          (Expr.mul (Expr.add (Expr.var 0) Expr.one) (Expr.var 1)) refl

  abbrev coeff : Coeff → Carrier
  coeff c = plus (num c.0) (minus (num c.1))

  coeff-cancel : (p q : ℕ) → coeff (cancel p q) ≡ plus (num p) (minus (num q))
  unfolding normal
  coeff-cancel zero q =
      let e : 0 - q ≡ 0 = omega arith in let g : q - 0 ≡ q = omega arith in rw (e, g) refl
  coeff-cancel (suc p) zero =
      let e : suc p - 0 ≡ suc p = omega arith in
      let g : 0 - suc p ≡ 0 = omega arith in rw (e, g) refl
  coeff-cancel (suc p) (suc q) =
      let e : suc p - suc q ≡ p - q = omega arith in
      let g : suc q - suc p ≡ q - p = omega arith in
      rw (e, g)
        (coeff-cancel p q
          ∙ same_value k (num p ∷ num q ∷ []) (Expr.add (Expr.var 0) (Expr.neg (Expr.var 1)))
              (Expr.add (Expr.add (Expr.var 0) Expr.one)
                (Expr.neg (Expr.add (Expr.var 1) Expr.one)))
              refl)

  coeff-add_coeff : (c d : Coeff) → coeff (add_coeff c d) ≡ plus (coeff c) (coeff d)
  unfolding normal
  coeff-add_coeff (p, q) (r, s) =
      coeff-cancel (p + r) (q + s)
      ∙ ap₂ (λ a b. plus a (minus b)) (num-add p r) (num-add q s)
      ∙ same_value k (num p ∷ num q ∷ num r ∷ num s ∷ [])
          (Expr.add (Expr.add (Expr.var 0) (Expr.var 2))
            (Expr.neg (Expr.add (Expr.var 1) (Expr.var 3))))
          (Expr.add (Expr.add (Expr.var 0) (Expr.neg (Expr.var 1)))
            (Expr.add (Expr.var 2) (Expr.neg (Expr.var 3))))
          refl

  num-mul-add :
      (a b c d : ℕ) → num (a * b + c * d) ≡ plus (times (num a) (num b)) (times (num c) (num d))
  num-mul-add a b c d = num-add (a * b) (c * d) ∙ ap₂ plus (num-mul a b) (num-mul c d)

  coeff-mul_coeff : (c d : Coeff) → coeff (mul_coeff c d) ≡ times (coeff c) (coeff d)
  unfolding normal
  coeff-mul_coeff (p, q) (r, s) =
      coeff-cancel (p * r + q * s) (p * s + q * r)
      ∙ ap₂ (λ a b. plus a (minus b)) (num-mul-add p r q s) (num-mul-add p s q r)
      ∙ same_value k (num p ∷ num q ∷ num r ∷ num s ∷ [])
          (Expr.add
            (Expr.add (Expr.mul (Expr.var 0) (Expr.var 2)) (Expr.mul (Expr.var 1) (Expr.var 3)))
            (Expr.neg
              (Expr.add (Expr.mul (Expr.var 0) (Expr.var 3)) (Expr.mul (Expr.var 1) (Expr.var 2)))))
          (Expr.mul (Expr.add (Expr.var 0) (Expr.neg (Expr.var 1)))
            (Expr.add (Expr.var 2) (Expr.neg (Expr.var 3))))
          refl

  module _ (env : List k.Carrier) where
    abbrev pub meaning : Term → Carrier
    meaning (Term.var i) = get_or env i nought
    meaning (Term.lit n) = num n
    meaning (Term.◌⊕◌ a b) = plus (meaning a) (meaning b)
    meaning (Term.◌⊗◌ a b) = times (meaning a) (meaning b)
    meaning (Term.neg a) = minus (meaning a)

    term : Coeff → List ℕ → Carrier
    term c m = times (coeff c) (product k env m)

    sum : Sum → Carrier
    sum [] = nought
    sum ((c, m) ∷ p) = plus (term c m) (sum p)

    term_zero : (c : Coeff) (m : List ℕ) → c.0 ≡ 0 → c.1 ≡ 0 → term c m ≡ nought
    unfolding term
    term_zero c m p q =
        ap₂ (λ a b. times (plus (num a) (minus (num b))) (product k env m)) p q
        ∙ ap (λ t. times t (product k env m)) (plus_minus nought)
        ∙ times_comm nought (product k env m)
        ∙ times_nought k (product k env m)

    sum-push_term :
        (c : Coeff) (m : List ℕ) (p : Sum) → sum (push_term c m p) ≡ plus (term c m) (sum p)
    unfolding sum
    sum-push_term c m p = elim (Bool-cases (c.0 == 0 && c.1 == 0)) [
      | inl e ↦ rw e (
          sym (
            ap (λ t. plus t (sum p)) (term_zero c m (ground (arith, e)) (ground (arith, e)))
            ∙ nought_plus k (sum p)))
      | inr e ↦ rw e refl
    ]

    term-add_coeff :
        (c d : Coeff) (m : List ℕ) → term (add_coeff c d) m ≡ plus (term c m) (term d m)
    unfolding term
    term-add_coeff c d m =
        ap (λ t. times t (product k env m)) (coeff-add_coeff c d)
        ∙ plus_times k (coeff c) (coeff d) (product k env m)

    sum-add_term :
        (c : Coeff) (m : List ℕ) (p : Sum) → sum (add_term c m p) ≡ plus (term c m) (sum p)
    unfolding sum add_term
    sum-add_term c m [] = sum-push_term c m []
    sum-add_term c m ((d, n) ∷ p) = elim (Bool-cases (bytes_eq m n)) [
      | inl same ↦
          rw (same, bytes_eq→eq m n same)
            (sum-push_term (add_coeff c d) n p
              ∙ ap (λ t. plus t (sum p)) (term-add_coeff c d n)
              ∙ plus_assoc (term c n) (term d n) (sum p))
      | inr other ↦ elim (Bool-cases (before m n)) [
        | inl first ↦ rw (other, first) (sum-push_term c m ((d, n) ∷ p))
        | inr later ↦
            rw (other, later)
              (ap (λ r. plus (term d n) r) (sum-add_term c m p)
                ∙ plus_swap k (term d n) (term c m) (sum p))
      ]
    ]

    sum-add_sum : (p q : Sum) → sum (add_sum p q) ≡ plus (sum p) (sum q)
    unfolding sum add_sum
    sum-add_sum [] q = sym (nought_plus k (sum q))
    sum-add_sum ((c, m) ∷ p) q =
        sum-add_term c m (add_sum p q)
        ∙ ap (λ r. plus (term c m) r) (sum-add_sum p q)
        ∙ sym (plus_assoc (term c m) (sum p) (sum q))

    term-mul :
        (c d : Coeff) (m n : List ℕ)
        → term (mul_coeff c d) (join_vars m n) ≡ times (term c m) (term d n)
    unfolding term normal
    term-mul c d m n =
        ap₂ times (coeff-mul_coeff c d) (product-join_vars k env m n)
        ∙ same_value k (coeff c ∷ coeff d ∷ product k env m ∷ product k env n ∷ [])
            (Expr.mul (Expr.mul (Expr.var 0) (Expr.var 1)) (Expr.mul (Expr.var 2) (Expr.var 3)))
            (Expr.mul (Expr.mul (Expr.var 0) (Expr.var 2)) (Expr.mul (Expr.var 1) (Expr.var 3)))
            refl

    sum-scale_sum :
        (c : Coeff) (m : List ℕ) (p : Sum) → sum (scale_sum c m p) ≡ times (term c m) (sum p)
    unfolding sum scale_sum
    sum-scale_sum c m [] = sym (times_nought k _)
    sum-scale_sum c m ((d, n) ∷ p) =
        sum-add_term (mul_coeff c d) (join_vars m n) (scale_sum c m p)
        ∙ ap₂ plus (term-mul c d m n) (sum-scale_sum c m p)
        ∙ sym (times_plus (term c m) (term d n) (sum p))

    sum-mul_sum : (p q : Sum) → sum (mul_sum p q) ≡ times (sum p) (sum q)
    unfolding sum mul_sum
    sum-mul_sum [] q = sym (times_comm nought (sum q) ∙ times_nought k (sum q))
    sum-mul_sum ((c, m) ∷ p) q =
        sum-add_sum (scale_sum c m q) (mul_sum p q)
        ∙ ap₂ plus (sum-scale_sum c m q) (sum-mul_sum p q)
        ∙ sym (plus_times k (term c m) (sum p) (sum q))

    term-neg : (c : Coeff) (m : List ℕ) → term (c.1, c.0) m ≡ minus (term c m)
    unfolding term normal
    term-neg c m =
        same_value k (num c.0 ∷ num c.1 ∷ product k env m ∷ [])
          (Expr.mul (Expr.add (Expr.var 1) (Expr.neg (Expr.var 0))) (Expr.var 2))
          (Expr.neg (Expr.mul (Expr.add (Expr.var 0) (Expr.neg (Expr.var 1))) (Expr.var 2))) refl

    sum-neg_sum : (p : Sum) → sum (neg_sum p) ≡ minus (sum p)
    unfolding sum neg_sum
    sum-neg_sum [] = sym (minus_nought k)
    sum-neg_sum ((c, m) ∷ p) =
        ap₂ plus (term-neg c m) (sum-neg_sum p) ∙ sym (minus_plus k (term c m) (sum p))

    term_lit : (n : ℕ) → term (n, 0) [] ≡ num n
    unfolding term product normal
    term_lit n =
        same_value k (num n ∷ []) (Expr.mul (Expr.add (Expr.var 0) (Expr.neg Expr.nil)) Expr.one)
          (Expr.var 0) refl

    term_var : (i : ℕ) → term (1, 0) (i ∷ []) ≡ get_or env i nought
    unfolding term product normal
    term_var i =
        same_value k (get_or env i nought ∷ [])
          (Expr.mul (Expr.add (Expr.add Expr.nil Expr.one) (Expr.neg Expr.nil))
            (Expr.mul (Expr.var 0) Expr.one))
          (Expr.var 0) refl

    sum-reduced : (e : Term) → sum (reduced e) ≡ meaning e
    unfolding reduced sum
    sum-reduced (Term.var i) = plus_nought _ ∙ term_var i
    sum-reduced (Term.lit n) = sum-push_term (n, 0) [] [] ∙ plus_nought _ ∙ term_lit n
    sum-reduced (Term.◌⊕◌ a b) =
        sum-add_sum (reduced a) (reduced b) ∙ ap₂ plus (sum-reduced a) (sum-reduced b)
    sum-reduced (Term.◌⊗◌ a b) =
        sum-mul_sum (reduced a) (reduced b) ∙ ap₂ times (sum-reduced a) (sum-reduced b)
    sum-reduced (Term.neg a) = sum-neg_sum (reduced a) ∙ ap minus (sum-reduced a)

    pub by_ring : (a b : Term) → reduced a ≡ reduced b → meaning a ≡ meaning b
    by_ring a b e = sym (sum-reduced a) ∙ ap sum e ∙ sum-reduced b
