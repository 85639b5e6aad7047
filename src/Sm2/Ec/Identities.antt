-- ===== src/Sm2/Ec/Identities.antt =====
-- src/sm2/ec.rs: the identities of polynomials behind the formulas of `double` and `add`.
use libsmx.Base.{ℕ, [], ◌∷◌, ◌≡◌, refl, sym, ap, ap₂, subst, ◌∙◌}
use libsmx.Algebra.{CommRing}
use libsmx.Algebra.Laws.{nought_plus}
use libsmx.Algebra.Polynomial.{insert_var}
use libsmx.Algebra.Term.{Term, ◌⊕◌, ◌⊗◌, ◌⊖◌, reduced}
use libsmx.Algebra.Numeric.{num, by_ring}

module _ (k : CommRing) where
  -- y² - (x³ + a x z⁴ + b z⁶)
  abbrev pub curve_gap : k.Carrier → k.Carrier → k.Carrier → k.Carrier → k.Carrier → k.Carrier
  curve_gap a b x y z =
      let z2 = k.times z z in
      k.plus (k.times y y) (
        k.minus (
          k.plus (k.plus (k.times (k.times x x) x) (k.times (k.times a x) (k.times z2 z2)))
            (k.times b (k.times (k.times z2 z2) z2))))

abbrev pub gap : Term → Term → Term → Term → Term → Term
gap a b x y z = let z2 = z ⊗ z in y ⊗ y ⊖ (x ⊗ x ⊗ x ⊕ a ⊗ x ⊗ (z2 ⊗ z2) ⊕ b ⊗ (z2 ⊗ z2 ⊗ z2))

abbrev pub v : ℕ → Term
v i = Term.var i

-- The terms of `tangent`.
abbrev pub alpha : Term → Term → Term
alpha x z = let t = (x ⊖ z ⊗ z) ⊗ (x ⊕ z ⊗ z) in t ⊕ t ⊕ t

abbrev pub eight : Term → Term
eight t = let t2 = t ⊕ t in let t4 = t2 ⊕ t2 in t4 ⊕ t4

abbrev pub tangent_x : Term → Term → Term → Term
tangent_x x y z = alpha x z ⊗ alpha x z ⊖ eight (x ⊗ (y ⊗ y))

abbrev pub tangent_y : Term → Term → Term → Term
tangent_y x y z =
    let b2 = x ⊗ (y ⊗ y) ⊕ x ⊗ (y ⊗ y) in
    alpha x z ⊗ (b2 ⊕ b2 ⊖ tangent_x x y z) ⊖ eight (y ⊗ y ⊗ (y ⊗ y))

abbrev pub tangent_z : Term → Term → Term
tangent_z y z = (y ⊕ z) ⊗ (y ⊕ z) ⊖ y ⊗ y ⊖ z ⊗ z

pub tangent_identity :
    let x = v 0 in
    let y = v 1 in
    let z = v 2 in
    let a = Term.neg (Term.lit 3) in
    reduced (gap a (v 3) (tangent_x x y z) (tangent_y x y z) (tangent_z y z))
    ≡ reduced (Term.lit 64 ⊗ (y ⊗ y ⊗ (y ⊗ y) ⊗ (y ⊗ y)) ⊗ gap a (v 3) x y z)
unfolding reduced insert_var
tangent_identity = refl

-- The terms of `chord`.
abbrev pub chord_x : Term → Term → Term → Term
chord_x u h r = r ⊗ r ⊖ h ⊗ (h ⊗ h) ⊖ (u ⊗ (h ⊗ h) ⊕ u ⊗ (h ⊗ h))

abbrev pub chord_y : Term → Term → Term → Term → Term
chord_y u s h r = r ⊗ (u ⊗ (h ⊗ h) ⊖ chord_x u h r) ⊖ s ⊗ (h ⊗ (h ⊗ h))

abbrev pub sixth : Term → Term
sixth t = t ⊗ t ⊗ (t ⊗ t) ⊗ (t ⊗ t)

pub chord_identity :
    let x1 = v 0 in
    let y1 = v 1 in
    let z1 = v 2 in
    let x2 = v 3 in
    let y2 = v 4 in
    let z2 = v 5 in
    let u = x1 ⊗ (z2 ⊗ z2) in
    let s = y1 ⊗ (z2 ⊗ (z2 ⊗ z2)) in
    let h = x2 ⊗ (z1 ⊗ z1) ⊖ u in
    let r = y2 ⊗ (z1 ⊗ (z1 ⊗ z1)) ⊖ s in
    let e = sixth z2 ⊗ gap (v 6) (v 7) x1 y1 z1 in
    let g = sixth z1 ⊗ gap (v 6) (v 7) x2 y2 z2 in
    reduced (gap (v 6) (v 7) (chord_x u h r) (chord_y u s h r) (h ⊗ z1 ⊗ z2))
    ≡ reduced (sixth h ⊗ e ⊖ h ⊗ h ⊗ h ⊗ (h ⊗ h ⊗ u ⊖ chord_x u h r) ⊗ (g ⊖ e))
unfolding reduced insert_var
chord_identity = refl

pub mixed_identity :
    let x1 = v 0 in
    let y1 = v 1 in
    let z1 = v 2 in
    let x2 = v 3 in
    let y2 = v 4 in
    let h = x2 ⊗ (z1 ⊗ z1) ⊖ x1 in
    let r = y2 ⊗ (z1 ⊗ (z1 ⊗ z1)) ⊖ y1 in
    let e = Term.lit 1 ⊗ gap (v 5) (v 6) x1 y1 z1 in
    let g = sixth z1 ⊗ gap (v 5) (v 6) x2 y2 (Term.lit 1) in
    reduced (gap (v 5) (v 6) (chord_x x1 h r) (chord_y x1 y1 h r) (h ⊗ z1))
    ≡ reduced (sixth h ⊗ e ⊖ h ⊗ h ⊗ h ⊗ (h ⊗ h ⊗ x1 ⊖ chord_x x1 h r) ⊗ (g ⊖ e))
unfolding reduced insert_var
mixed_identity = refl

module _ (k : CommRing) where
  -- What the last two identities end in is zero where both gaps are.
  pub combination_vanishes :
      (c d m n : k.Carrier) (e g : k.Carrier)
      → e ≡ k.nought
      → g ≡ k.nought
      → k.plus
          (k.times c (k.times m e))
          (k.minus (k.times d (k.plus (k.times n g) (k.minus (k.times m e)))))
        ≡ k.nought
  unfolding reduced insert_var
  combination_vanishes c d m n e g p q =
      ap₂
        (λ s t.
          k.plus (k.times c (k.times m s))
            (k.minus (k.times d (k.plus (k.times n t) (k.minus (k.times m s))))))
        p q
      ∙ by_ring k (c ∷ d ∷ m ∷ n ∷ [])
          (v 0 ⊗ (v 2 ⊗ Term.lit 0) ⊖ v 1 ⊗ (v 3 ⊗ Term.lit 0 ⊖ v 2 ⊗ Term.lit 0)) (Term.lit 0) refl

  pub num-one : num k 1 ≡ k.unit
  num-one = nought_plus k k.unit

  pub infinity_gap : (a b : k.Carrier) → curve_gap k a b k.unit k.unit k.nought ≡ k.nought
  unfolding reduced insert_var
  infinity_gap a b =
      subst (λ u. curve_gap k a b u u k.nought ≡ k.nought) num-one
        (by_ring k (a ∷ b ∷ []) (gap (v 0) (v 1) (Term.lit 1) (Term.lit 1) (Term.lit 0))
          (Term.lit 0) refl)

  -- The curve in affine coordinates.
  abbrev pub affine_rhs : k.Carrier → k.Carrier → k.Carrier → k.Carrier
  affine_rhs a b x = k.plus (k.plus (k.times (k.times x x) x) (k.times a x)) b

  pub gap_one :
      (a b x y : k.Carrier)
      → curve_gap k a b x y k.unit ≡ k.plus (k.times y y) (k.minus (affine_rhs a b x))
  unfolding reduced insert_var
  gap_one a b x y =
      subst (λ u. curve_gap k a b x y u ≡ k.plus (k.times y y) (k.minus (affine_rhs a b x))) num-one
        (by_ring k (a ∷ b ∷ x ∷ y ∷ []) (gap (v 0) (v 1) (v 2) (v 3) (Term.lit 1))
          (v 3 ⊗ v 3 ⊖ (v 2 ⊗ v 2 ⊗ v 2 ⊕ v 0 ⊗ v 2 ⊕ v 1)) refl)

  pub difference_zero : (s t : k.Carrier) → s ≡ t → k.plus s (k.minus t) ≡ k.nought
  difference_zero s t e = ap (λ r. k.plus r (k.minus t)) e ∙ k.plus_minus t

  pub equal_of_difference : (s t : k.Carrier) → k.plus s (k.minus t) ≡ k.nought → s ≡ t
  unfolding reduced insert_var
  equal_of_difference s t e =
      by_ring k (s ∷ t ∷ []) (v 0) (v 0 ⊖ v 1 ⊕ v 1) refl ∙ ap (λ r. k.plus r t) e ∙ nought_plus k t

  -- From Jacobian to affine coordinates, where `i` is the inverse of `z`.
  pub affine_gap :
      (a b x y z i : k.Carrier)
      → k.times z i ≡ k.unit
      → curve_gap k a b x y z ≡ k.nought
      → let i2 = k.times i i in
        let y' = k.times y (k.times i2 i) in k.times y' y' ≡ affine_rhs a b (k.times x i2)
  unfolding reduced insert_var
  affine_gap a b x y z i e h =
      let i2 = k.times i i in
      let y' = k.times y (k.times i2 i) in
      let rest = λ (w : k.Carrier) (g : k.Carrier).
        let w2 = k.times w w in
        k.plus (k.times (k.times (k.times i2 i2) i2) g) (
          k.plus (k.times (k.times (k.times a x) i2) (k.plus (k.times w2 w2) (k.minus (num k 1))))
            (k.times b (k.plus (k.times (k.times w2 w2) w2) (k.minus (num k 1))))) in
      equal_of_difference (k.times y' y') (affine_rhs a b (k.times x i2)) (
        by_ring k (a ∷ b ∷ x ∷ y ∷ z ∷ i ∷ [])
          (let i2 = v 5 ⊗ v 5 in
            let y' = v 3 ⊗ (i2 ⊗ v 5) in
            let x' = v 2 ⊗ i2 in y' ⊗ y' ⊖ (x' ⊗ x' ⊗ x' ⊕ v 0 ⊗ x' ⊕ v 1))
          (let i2 = v 5 ⊗ v 5 in
            let w = v 4 ⊗ v 5 in
            let w2 = w ⊗ w in
            i2 ⊗ i2 ⊗ i2 ⊗ gap (v 0) (v 1) (v 2) (v 3) (v 4)
            ⊕ (v 0 ⊗ v 2 ⊗ i2 ⊗ (w2 ⊗ w2 ⊖ Term.lit 1) ⊕ v 1 ⊗ (w2 ⊗ w2 ⊗ w2 ⊖ Term.lit 1)))
          refl
        ∙ ap₂ rest (e ∙ sym num-one) h
        ∙ by_ring k (a ∷ b ∷ x ∷ i ∷ [])
            (let i2 = v 3 ⊗ v 3 in
              let w = Term.lit 1 in
              let w2 = w ⊗ w in
              i2 ⊗ i2 ⊗ i2 ⊗ Term.lit 0
              ⊕ (v 0 ⊗ v 2 ⊗ i2 ⊗ (w2 ⊗ w2 ⊖ Term.lit 1) ⊕ v 1 ⊗ (w2 ⊗ w2 ⊗ w2 ⊖ Term.lit 1)))
            (Term.lit 0) refl)
