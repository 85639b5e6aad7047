-- ===== src/Sm2/Ec/OnCurve.antt =====
-- src/sm2/ec.rs: `double`, `add` and `add_mixed` stay on the curve.
use mathlib.Core.Path.{fun_ext}
use libsmx.Base.{[], ◌∷◌, Bool, true, false, ◌≡◌, sym, ap, subst, ◌∙◌}
use libsmx.Algebra.Laws.{times_nought}
use libsmx.Algebra.Numeric.{num, by_ring}
use libsmx.Monty.{Monty}
use libsmx.Sm2.Field.{Fp, curve_a, curve_b}
use libsmx.Sm2.Ec.{
  AffinePoint, JacobianPoint, conditional_select, infinity, from_affine, tangent, chord, double,
  add, add_mixed,
}
use libsmx.Sm2.Ec.Identities.{
  curve_gap, tangent_identity, chord_identity, mixed_identity, combination_vanishes, num-one,
  infinity_gap,
}

module _ (f : Monty) where
  pub sub_fn : f.sub ≡ (λ a b. f.ring.plus a (f.ring.minus b))
  sub_fn = fun_ext (λ a. fun_ext (λ b. f.sub_law a b))

  pub square_fn : f.square ≡ (λ a. f.ring.times a a)
  square_fn = fun_ext (λ a. f.square_law a)

  -- The coefficient a of the curve is -3.
  abbrev pub IsMinusThree : Type 0
  IsMinusThree = curve_a f ≡ f.ring.minus (num f.ring 3)

  abbrev pub IsOnCurve : JacobianPoint f → Type 0
  IsOnCurve p = curve_gap f.ring (curve_a f) (curve_b f) p.x p.y p.z ≡ f.ring.nought

  tangent-IsOnCurve : IsMinusThree → (p : JacobianPoint f) → IsOnCurve p → IsOnCurve (tangent f p)
  unfolding tangent
  tangent-IsOnCurve three p h =
      let at = λ (a : Fp f). curve_gap f.ring a (curve_b f) p.x p.y p.z ≡ f.ring.nought in
      let h' : curve_gap f.ring (f.ring.minus (num f.ring 3)) (curve_b f) p.x p.y p.z
          ≡ f.ring.nought =
        subst at three h in
      rw (sub_fn, square_fn, three)
        (by_ring f.ring (p.x ∷ p.y ∷ p.z ∷ curve_b f ∷ []) _ _ tangent_identity
          ∙ ap (f.ring.times _) h'
          ∙ times_nought f.ring _)

  chord-IsOnCurve :
      (p q : JacobianPoint f)
      → IsOnCurve p
      → IsOnCurve q
      → let z1sq = f.square p.z in
        let z2sq = f.square q.z in
        let u1 = f.ring.times p.x z2sq in
        let s1 = f.ring.times p.y (f.ring.times q.z z2sq) in
        let h = f.sub (f.ring.times q.x z1sq) u1 in
        let r = f.sub (f.ring.times q.y (f.ring.times p.z z1sq)) s1 in
        IsOnCurve (chord f u1 s1 h r (f.ring.times (f.ring.times h p.z) q.z))
  unfolding chord
  chord-IsOnCurve p q hp hq =
      rw (sub_fn, square_fn)
        (by_ring f.ring (p.x ∷ p.y ∷ p.z ∷ q.x ∷ q.y ∷ q.z ∷ curve_a f ∷ curve_b f ∷ []) _ _
            chord_identity
          ∙ combination_vanishes f.ring _ _ _ _ _ _ hp hq)

  mixed-IsOnCurve :
      (p : JacobianPoint f) (q : AffinePoint f)
      → IsOnCurve p
      → IsOnCurve (from_affine f q)
      → let z1sq = f.square p.z in
        let h = f.sub (f.ring.times q.x z1sq) p.x in
        let r = f.sub (f.ring.times q.y (f.ring.times p.z z1sq)) p.y in
        IsOnCurve (chord f p.x p.y h r (f.ring.times h p.z))
  unfolding chord
  mixed-IsOnCurve p q hp hq =
      let at = λ (u : Fp f). curve_gap f.ring (curve_a f) (curve_b f) q.x q.y u ≡ f.ring.nought in
      rw (sub_fn, square_fn)
        (by_ring f.ring (p.x ∷ p.y ∷ p.z ∷ q.x ∷ q.y ∷ curve_a f ∷ curve_b f ∷ []) _ _
            mixed_identity
          ∙ combination_vanishes f.ring _ _ _ _ _ _ hp (subst at (sym (num-one f.ring)) hq))

  pub conditional_select-IsOnCurve :
      (a b : JacobianPoint f) (choice : Bool)
      → IsOnCurve a
      → IsOnCurve b
      → IsOnCurve (conditional_select f a b choice)
  conditional_select-IsOnCurve a b true ha hb = hb
  conditional_select-IsOnCurve a b false ha hb = ha

  pub infinity-IsOnCurve : IsOnCurve (infinity f)
  infinity-IsOnCurve = infinity_gap f.ring (curve_a f) (curve_b f)

  module _ (three : IsMinusThree) where
    pub double-IsOnCurve : (p : JacobianPoint f) → IsOnCurve p → IsOnCurve (double f p)
    unfolding double
    double-IsOnCurve p h =
        conditional_select-IsOnCurve (tangent f p) p _ (tangent-IsOnCurve three p h) h

    -- Every branch of the addition, the degenerate ones included.
    pub add-IsOnCurve : (p q : JacobianPoint f) → IsOnCurve p → IsOnCurve q → IsOnCurve (add f p q)
    unfolding add
    add-IsOnCurve p q hp hq =
        conditional_select-IsOnCurve _ q _
          (conditional_select-IsOnCurve _ p _
            (conditional_select-IsOnCurve _ (double f p) _
              (conditional_select-IsOnCurve _ (infinity f) _ (chord-IsOnCurve p q hp hq)
                infinity-IsOnCurve)
              (double-IsOnCurve p hp))
            hp)
          hq

    pub add_mixed-IsOnCurve :
        (p : JacobianPoint f) (q : AffinePoint f)
        → IsOnCurve p
        → IsOnCurve (from_affine f q)
        → IsOnCurve (add_mixed f p q)
    unfolding add_mixed
    add_mixed-IsOnCurve p q hp hq =
        conditional_select-IsOnCurve _ (from_affine f q) _
          (conditional_select-IsOnCurve _ (double f p) _
            (conditional_select-IsOnCurve _ (infinity f) _ (mixed-IsOnCurve p q hp hq)
              infinity-IsOnCurve)
            (double-IsOnCurve p hp))
          hq
