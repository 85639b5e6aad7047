-- ===== src/Algebra/Solver.antt =====
-- Two expressions with one normal form have one value in every commutative ring.
use libsmx.Base.{
  ℕ, leb, Bool, true, false, not, Bool-cases, inl, inr, List, [], ◌∷◌, get_or, ◌≡◌, refl, sym, ap,
  ap₂, ◌∙◌,
}
use libsmx.Base.Bytes.{bytes_eq, bytes_eq→eq}
use libsmx.Algebra.{CommRing}
use libsmx.Algebra.Laws.{
  nought_plus, plus_swap, times_swap, plus_cancel, minus_plus_cancel, minus_minus, minus_nought,
  minus_plus, times_nought, times_minus, minus_times, plus_times,
}
use libsmx.Algebra.Polynomial.{
  Polynomial, differ_sign, insert_var, join_vars, before, insert_term, add_poly, scale, mul_poly,
  neg_poly, Expr, normal,
}

module _ (k : CommRing) (env : List k.Carrier) where
  open k use {
    Carrier, nought, unit, plus, times, minus, plus_assoc, plus_comm, plus_nought, plus_minus,
    times_assoc, times_comm, times_unit, times_plus,
  }

  abbrev pub value : Expr → Carrier
  value (Expr.var i) = get_or env i nought
  value Expr.nil = nought
  value Expr.one = unit
  value (Expr.add a b) = plus (value a) (value b)
  value (Expr.mul a b) = times (value a) (value b)
  value (Expr.neg a) = minus (value a)

  unfoldable pub product : List ℕ → Carrier
  product [] = unit
  product (i ∷ is) = times (get_or env i nought) (product is)

  signed : Bool → Carrier → Carrier
  signed true a = minus a
  signed false a = a

  total : Polynomial → Carrier
  total [] = nought
  total ((s, m) ∷ p) = plus (signed s (product m)) (total p)

  product-insert_var :
      (i : ℕ) (is : List ℕ) → product (insert_var i is) ≡ times (get_or env i nought) (product is)
  unfolding product insert_var
  product-insert_var i [] = refl
  product-insert_var i (j ∷ js) = elim (Bool-cases (leb i j)) [
    | inl p ↦ rw p refl
    | inr p ↦
        rw p
          (ap (λ t. times (get_or env j nought) t) (product-insert_var i js) ∙ times_swap k _ _ _)
  ]

  pub product-join_vars :
      (xs ys : List ℕ) → product (join_vars xs ys) ≡ times (product xs) (product ys)
  unfolding product join_vars
  product-join_vars [] ys = sym (times_comm unit (product ys) ∙ times_unit (product ys))
  product-join_vars (x ∷ xs) ys =
      product-insert_var x (join_vars xs ys)
      ∙ ap (λ t. times (get_or env x nought) t) (product-join_vars xs ys)
      ∙ sym (times_assoc (get_or env x nought) (product xs) (product ys))

  -- Opposite signs cancel.
  signed_cancel :
      (s t : Bool) (a b : Carrier)
      → differ_sign s t ≡ true
      → plus (signed s a) (plus (signed t a) b) ≡ b
  unfolding signed
  signed_cancel true true a b e = cc
  signed_cancel true false a b e = minus_plus_cancel k a b
  signed_cancel false true a b e = plus_cancel k a b
  signed_cancel false false a b e = cc

  total-insert_term :
      (s : Bool) (m : List ℕ) (p : Polynomial)
      → total (insert_term (s, m) p) ≡ plus (signed s (product m)) (total p)
  unfolding total insert_term
  total-insert_term s m [] = refl
  total-insert_term s m ((t, n) ∷ p) = elim (Bool-cases (bytes_eq m n)) [
    | inl same ↦ elim (Bool-cases (differ_sign s t)) [
      | inl opposite ↦
          rw (same, opposite)
            (sym (rw (bytes_eq→eq m n same) (signed_cancel s t (product n) (total p) opposite)))
      | inr alike ↦ rw (same, alike) refl
    ]
    | inr other ↦ elim (Bool-cases (before m n)) [
      | inl first ↦ rw (other, first) refl
      | inr later ↦
          rw (other, later)
            (ap (λ r. plus (signed t (product n)) r) (total-insert_term s m p) ∙ plus_swap k _ _ _)
    ]
  ]

  total-add_poly : (p q : Polynomial) → total (add_poly p q) ≡ plus (total p) (total q)
  unfolding total add_poly
  total-add_poly [] q = sym (nought_plus k (total q))
  total-add_poly ((s, m) ∷ p) q =
      total-insert_term s m (add_poly p q)
      ∙ ap (λ r. plus (signed s (product m)) r) (total-add_poly p q)
      ∙ sym (plus_assoc (signed s (product m)) (total p) (total q))

  signed_times :
      (s t : Bool) (a b : Carrier)
      → signed (differ_sign s t) (times a b) ≡ times (signed s a) (signed t b)
  unfolding signed
  signed_times true true a b =
      sym (minus_times k a (minus b) ∙ ap minus (times_minus k a b) ∙ minus_minus k (times a b))
  signed_times true false a b = sym (minus_times k a b)
  signed_times false true a b = sym (times_minus k a b)
  signed_times false false a b = refl

  total-scale :
      (s : Bool) (m : List ℕ) (p : Polynomial)
      → total (scale (s, m) p) ≡ times (signed s (product m)) (total p)
  unfolding total scale
  total-scale s m [] = sym (times_nought k _)
  total-scale s m ((t, n) ∷ p) =
      total-insert_term (differ_sign s t) (join_vars m n) (scale (s, m) p)
      ∙ ap₂ plus
          (ap (signed (differ_sign s t)) (product-join_vars m n)
            ∙ signed_times s t (product m) (product n))
          (total-scale s m p)
      ∙ sym (times_plus (signed s (product m)) (signed t (product n)) (total p))

  total-mul_poly : (p q : Polynomial) → total (mul_poly p q) ≡ times (total p) (total q)
  unfolding total mul_poly
  total-mul_poly [] q = sym (times_comm nought (total q) ∙ times_nought k (total q))
  total-mul_poly ((s, m) ∷ p) q =
      total-add_poly (scale (s, m) q) (mul_poly p q)
      ∙ ap₂ plus (total-scale s m q) (total-mul_poly p q)
      ∙ sym (plus_times k (signed s (product m)) (total p) (total q))

  signed-not : (s : Bool) (a : Carrier) → signed (not s) a ≡ minus (signed s a)
  unfolding signed
  signed-not true a = sym (minus_minus k a)
  signed-not false a = refl

  total-neg_poly : (p : Polynomial) → total (neg_poly p) ≡ minus (total p)
  unfolding total neg_poly
  total-neg_poly [] = sym (minus_nought k)
  total-neg_poly ((s, m) ∷ p) =
      ap₂ plus (signed-not s (product m)) (total-neg_poly p) ∙ sym (minus_plus k _ _)

  total-normal : (e : Expr) → total (normal e) ≡ value e
  unfolding normal total product signed
  total-normal (Expr.var i) = plus_nought _ ∙ times_unit _
  total-normal Expr.nil = refl
  total-normal Expr.one = plus_nought unit
  total-normal (Expr.add a b) =
      total-add_poly (normal a) (normal b) ∙ ap₂ plus (total-normal a) (total-normal b)
  total-normal (Expr.mul a b) =
      total-mul_poly (normal a) (normal b) ∙ ap₂ times (total-normal a) (total-normal b)
  total-normal (Expr.neg a) = total-neg_poly (normal a) ∙ ap minus (total-normal a)

  pub same_value : (a b : Expr) → normal a ≡ normal b → value a ≡ value b
  same_value a b e = sym (total-normal a) ∙ ap total e ∙ total-normal b
