-- ===== src/Sm2/Ec/Multiples.antt =====
-- src/sm2/ec.rs: the multiples of G by the table and the windows are on the curve.
use libsmx.Base.{ℕ, zero, suc, ◌+◌, ◌/◌, ◌%◌, ◌^◌, ◌==◌, List, [], ◌∷◌, get_or, All, ◌≡◌}
use libsmx.Base.Words.{Bytes, to_be_bytes}
use libsmx.Monty.{Monty}
use libsmx.Sm2.Field.{field_modulus}
use libsmx.Sm2.Ec.{AffinePoint, JacobianPoint, infinity, from_affine, double, add, add_mixed}
use libsmx.Sm2.Ec.Multiply.{
  generator, table_from, window_table, select_entry, window_step, window_bytes, scalar_mul_g,
}
use libsmx.Sm2.Ec.OnCurve.{
  IsOnCurve, infinity-IsOnCurve, conditional_select-IsOnCurve, double-IsOnCurve, add-IsOnCurve,
  add_mixed-IsOnCurve,
}
use libsmx.Sm2.Ec.Constants.{curve_a-IsMinusThree, generator-IsOnCurve}

module _ (f : Monty) (standard : f.modulus ≡ field_modulus) where
  doubled : (p : JacobianPoint f) → IsOnCurve f p → IsOnCurve f (double f p)
  doubled = double-IsOnCurve f (curve_a-IsMinusThree f standard)

  summed : (p q : JacobianPoint f) → IsOnCurve f p → IsOnCurve f q → IsOnCurve f (add f p q)
  summed = add-IsOnCurve f (curve_a-IsMinusThree f standard)

  summed_affine :
      (p : JacobianPoint f) (q : AffinePoint f)
      → IsOnCurve f p
      → IsOnCurve f (from_affine f q)
      → IsOnCurve f (add_mixed f p q)
  summed_affine = add_mixed-IsOnCurve f (curve_a-IsMinusThree f standard)

  table_from-AreOnCurve :
      (n : ℕ) (p : JacobianPoint f) → IsOnCurve f p → All (IsOnCurve f) (table_from f n p)
  unfolding table_from
  table_from-AreOnCurve zero p h = tt
  table_from-AreOnCurve (suc n) p h = (
    h,
    table_from-AreOnCurve n _ (summed_affine p (generator f) h (generator-IsOnCurve f standard)),
  )

  get_or-IsOnCurve :
      (ps : List (JacobianPoint f)) (i : ℕ)
      → All (IsOnCurve f) ps
      → IsOnCurve f (get_or ps i (infinity f))
  get_or-IsOnCurve [] i h = infinity-IsOnCurve f
  get_or-IsOnCurve (p ∷ ps) zero h = h.0
  get_or-IsOnCurve (p ∷ ps) (suc i) h = get_or-IsOnCurve ps i h.1

  select_entry-IsOnCurve :
      (n j window : ℕ) (table : List (JacobianPoint f)) (sel : JacobianPoint f)
      → All (IsOnCurve f) table
      → IsOnCurve f sel
      → IsOnCurve f (select_entry f n j window table sel)
  unfolding select_entry
  select_entry-IsOnCurve zero j window table sel ht hs = hs
  select_entry-IsOnCurve (suc n) j window table sel ht hs =
      select_entry-IsOnCurve n (j + 1) window table _ ht
        (conditional_select-IsOnCurve f sel _ (window == j) hs (get_or-IsOnCurve table j ht))

  window_step-IsOnCurve :
      (table : List (JacobianPoint f)) (window : ℕ) (r : JacobianPoint f)
      → All (IsOnCurve f) table
      → IsOnCurve f r
      → IsOnCurve f (window_step f table window r)
  unfolding window_step
  window_step-IsOnCurve table window r ht hr =
      summed _ _ (doubled _ (doubled _ (doubled _ (doubled r hr))))
        (select_entry-IsOnCurve 15 1 window table (infinity f) ht (infinity-IsOnCurve f))

  window_bytes-IsOnCurve :
      (table : List (JacobianPoint f)) (bytes : Bytes) (r : JacobianPoint f)
      → All (IsOnCurve f) table
      → IsOnCurve f r
      → IsOnCurve f (window_bytes f table bytes r)
  unfolding window_bytes
  window_bytes-IsOnCurve table [] r ht hr = hr
  window_bytes-IsOnCurve table (byte ∷ bytes) r ht hr = window_bytes-IsOnCurve table bytes _ ht (
      window_step-IsOnCurve table (byte % 16) _ ht
        (window_step-IsOnCurve table (byte / 2 ^ 4) r ht hr))

  -- Over the standard's field, the multiplication of G by windows of four bits is on the curve, for
  -- every number, its table of multiples included.
  pub scalar_mul_g-IsOnCurve : (k : ℕ) → IsOnCurve f (scalar_mul_g f k)
  unfolding scalar_mul_g window_table
  scalar_mul_g-IsOnCurve k =
      window_bytes-IsOnCurve _ (to_be_bytes 32 k) (infinity f)
        (infinity-IsOnCurve f, table_from-AreOnCurve 15 _ (generator-IsOnCurve f standard))
        (infinity-IsOnCurve f)
