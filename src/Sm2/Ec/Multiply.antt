-- ===== src/Sm2/Ec/Multiply.antt =====
-- src/sm2/ec.rs: the multiplications of a point by a number.
use libsmx.Base.{ℕ, zero, suc, ◌+◌, ◌/◌, ◌%◌, ◌^◌, ◌==◌, Bool, true, false, List, [], ◌∷◌, get_or}
use libsmx.Base.Words.{Bytes, to_be_bytes}
use libsmx.Base.Outcome.{Outcome}
use libsmx.Monty.{Monty}
use libsmx.Sm2.Field.{gx, gy}
use libsmx.Sm2.Ec.{
  AffinePoint, JacobianPoint, conditional_select, infinity, from_affine, to_affine, double, add,
  add_mixed,
}

module _ (f : Monty) where
  abbrev pub generator : AffinePoint f
  generator = record { x = gx f; y = gy f }

  -- The rounds of `for b in (0..8).rev()` on the byte `byte`, `b` of which are left.
  unfoldable pub mul_bits : ℕ → ℕ → JacobianPoint f → JacobianPoint f → JacobianPoint f
  mul_bits zero byte p result = result
  mul_bits (suc b) byte p result =
      let doubled = double f result in
      let sum = add f doubled p in
      mul_bits b byte p (conditional_select f doubled sum ((byte / 2 ^ b) % 2 == 1))

  unfoldable pub mul_bytes : Bytes → JacobianPoint f → JacobianPoint f → JacobianPoint f
  mul_bytes [] p result = result
  mul_bytes (byte ∷ bytes) p result = mul_bytes bytes p (mul_bits 8 byte p result)

  unfoldable pub scalar_mul : ℕ → JacobianPoint f → JacobianPoint f
  scalar_mul k p = mul_bytes (to_be_bytes 32 k) p (infinity f)

  -- The entries of the table from `n` places before its end on: `p`, `p + G` and so on.
  unfoldable pub table_from : ℕ → JacobianPoint f → List (JacobianPoint f)
  table_from zero p = []
  table_from (suc n) p = p ∷ table_from n (add_mixed f p generator)

  unfoldable pub window_table : List (JacobianPoint f)
  window_table = infinity f ∷ table_from 15 (from_affine f generator)

  -- `for j in 1..=15`, `n` of which are left.
  unfoldable pub select_entry :
      ℕ → ℕ → ℕ → List (JacobianPoint f) → JacobianPoint f → JacobianPoint f
  select_entry zero j window table sel = sel
  select_entry (suc n) j window table sel =
      select_entry n (j + 1) window table
        (conditional_select f sel (get_or table j (infinity f)) (window == j))

  abbrev pub double_four : JacobianPoint f → JacobianPoint f
  double_four p = double f (double f (double f (double f p)))

  unfoldable pub window_step : List (JacobianPoint f) → ℕ → JacobianPoint f → JacobianPoint f
  window_step table window result =
      add f (double_four result) (select_entry 15 1 window table (infinity f))

  unfoldable pub window_bytes : List (JacobianPoint f) → Bytes → JacobianPoint f → JacobianPoint f
  window_bytes table [] result = result
  window_bytes table (byte ∷ bytes) result =
      window_bytes table bytes
        (window_step table (byte % 16) (window_step table (byte / 2 ^ 4) result))

  unfoldable pub scalar_mul_g : ℕ → JacobianPoint f
  scalar_mul_g k = window_bytes window_table (to_be_bytes 32 k) (infinity f)

  -- The `match (ui, vi)`.
  unfoldable pub add_one_of :
      Bool → Bool → AffinePoint f → JacobianPoint f → JacobianPoint f → JacobianPoint f
  add_one_of true true q gq result = add f result gq
  add_one_of true false q gq result = add_mixed f result generator
  add_one_of false true q gq result = add_mixed f result q
  add_one_of false false q gq result = result

  unfoldable pub multi_bits :
      ℕ → ℕ → ℕ → AffinePoint f → JacobianPoint f → JacobianPoint f → JacobianPoint f
  multi_bits zero ub vb q gq result = result
  multi_bits (suc b) ub vb q gq result =
      let ui = (ub / 2 ^ b) % 2 == 1 in
      let vi = (vb / 2 ^ b) % 2 == 1 in
      multi_bits b ub vb q gq (add_one_of ui vi q gq (double f result))

  unfoldable pub multi_bytes :
      Bytes → Bytes → AffinePoint f → JacobianPoint f → JacobianPoint f → JacobianPoint f
  multi_bytes [] v_bytes q gq result = result
  multi_bytes (ub ∷ u_bytes) [] q gq result = result
  multi_bytes (ub ∷ u_bytes) (vb ∷ v_bytes) q gq result =
      multi_bytes u_bytes v_bytes q gq (multi_bits 8 ub vb q gq result)

  unfoldable pub multi_scalar_mul : ℕ → ℕ → AffinePoint f → Outcome (AffinePoint f)
  multi_scalar_mul u v q =
      let gq = add f (from_affine f generator) (from_affine f q) in
      to_affine f (multi_bytes (to_be_bytes 32 u) (to_be_bytes 32 v) q gq (infinity f))
