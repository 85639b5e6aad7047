-- ===== src/Examples/Residues.antt =====
-- The residues of any modulus as a `Monty`, with exponentiation by squaring, for the instances of
-- the theorems on fields and curves.
use Prim.Native.Nat.{Fin}
use native.Mathlib.Fin.{val_path}
use native.Mathlib.Nat.{
  mod-lt, mod-mod, mod-add-mod, add-mod-mod, div-add-mod, mul-add-mod_self_left, mod-eq_of_lt,
  mul_assoc, mul_comm, mul-add, zero-mod,
}
use native.Mathlib.Nat
use libsmx.Base.{
  ℕ, zero, suc, ◌+◌, ◌-◌, ◌*◌, ◌/◌, ◌%◌, ◌^◌, ◌≤◌, ◌<◌, ◌==◌, if◌then◌else◌, Bool, true, false,
  ==_iff, Option, none, some, ◌≡◌, refl, sym, ap, ◌∙◌, arith,
}
use libsmx.Algebra.{CommRing}
use libsmx.Monty.{Monty}

pub mul-mod_left : (a b n : ℕ) → (a % n) * b % n ≡ a * b % n
mul-mod_left a b n =
    let q = a / n in
    let split : a * b ≡ n * (q * b) + (a % n) * b =
      ap (λ (t : ℕ). t * b) (sym (div-add-mod a n)) ∙ grind arith in
    sym (ap (λ (t : ℕ). t % n) split ∙ mul-add-mod_self_left n (q * b) ((a % n) * b))

pub mul-mod_right : (a b n : ℕ) → a * (b % n) % n ≡ a * b % n
mul-mod_right a b n =
    ap (λ (t : ℕ). t % n) (mul_comm a (b % n))
    ∙ mul-mod_left b a n
    ∙ ap (λ (t : ℕ). t % n) (mul_comm b a)

picked :
    {A : Type 0} (t : Bool) (p b : A) → (if t then some p else none) ≡ some b → (t ≡ true) × (p ≡ b)
picked true p b h = (refl, cc)
picked false p b h = cc

module _ (n : ℕ) (big : 1 < n) where
  abbrev pub reduce : ℕ → Fin n
  reduce a = (a % n, mod-lt a (omega (arith, big)))

  abbrev pub add_mod : Fin n → Fin n → Fin n
  add_mod a b = reduce (a.0 + b.0)

  abbrev pub mul_mod : Fin n → Fin n → Fin n
  mul_mod a b = reduce (a.0 * b.0)

  abbrev pub neg_mod : Fin n → Fin n
  neg_mod a = reduce (n - a.0)

  pub reduce_self : (a : Fin n) → reduce a.0 ≡ a
  reduce_self a = val_path (mod-eq_of_lt a.1)

  pub neg_mod_cancel : (a : Fin n) → add_mod a (neg_mod a) ≡ reduce 0
  neg_mod_cancel a =
      val_path (add-mod-mod a.0 (n - a.0) n ∙ ap (λ (t : ℕ). t % n) (the_sum a) ∙ self_mod)
    where
      the_sum : (a : Fin n) → a.0 + (n - a.0) ≡ n
      the_sum a = omega (arith, a.1)

      self_mod : n % n ≡ 0 % n
      self_mod = Nat.mod_self n ∙ sym (zero-mod n)

  abbrev residue_ring : CommRing
  residue_ring = record {
    Carrier = Fin n;
    nought = reduce 0;
    unit = reduce 1;
    plus = add_mod;
    times = mul_mod;
    minus = neg_mod;
    plus_assoc = λ a b c. val_path (
        mod-add-mod (a.0 + b.0) n c.0
        ∙ ap (λ (t : ℕ). t % n) (omega arith)
        ∙ sym (add-mod-mod a.0 (b.0 + c.0) n));
    plus_comm = λ a b. val_path (ap (λ (t : ℕ). t % n) (omega arith));
    plus_nought = λ a.
        val_path (add-mod-mod a.0 0 n ∙ ap (λ (t : ℕ). t % n) (omega arith) ∙ mod-eq_of_lt a.1);
    plus_minus = neg_mod_cancel;
    times_assoc = λ a b c. val_path (
        mul-mod_left (a.0 * b.0) c.0 n
        ∙ ap (λ (t : ℕ). t % n) (mul_assoc a.0 b.0 c.0)
        ∙ sym (mul-mod_right a.0 (b.0 * c.0) n));
    times_comm = λ a b. val_path (ap (λ (t : ℕ). t % n) (mul_comm a.0 b.0));
    times_unit = λ a.
        val_path (mul-mod_right a.0 1 n ∙ ap (λ (t : ℕ). t % n) (omega arith) ∙ mod-eq_of_lt a.1);
    times_plus = λ a b c. val_path (
        mul-mod_right a.0 (b.0 + c.0) n
        ∙ ap (λ (t : ℕ). t % n) (mul-add a.0 b.0 c.0)
        ∙ sym (mod-add-mod (a.0 * b.0) n (a.0 * c.0 % n) ∙ add-mod-mod (a.0 * b.0) (a.0 * c.0) n));
  }

  -- Square and multiply, from the lowest digit of the exponent on.
  unfoldable pub pow_loop : ℕ → Fin n → ℕ → Fin n → Fin n
  pow_loop zero a e acc = acc
  pow_loop (suc fuel) a e acc =
      pow_loop fuel (mul_mod a a) (e / 2) (if e % 2 == 0 then acc else mul_mod acc a)

  abbrev pub try_inverse : Fin n → Option (Fin n)
  unfolding pow_loop
  try_inverse a =
      let b = pow_loop 256 a (n - 2) (reduce 1) in if (mul_mod a b).0 == 1 then some b else none

  pub try_inverse_lem : (a b : Fin n) → try_inverse a ≡ some b → mul_mod a b ≡ reduce 1
  unfolding try_inverse pow_loop
  try_inverse_lem a b h =
      let p = pow_loop 256 a (n - 2) (reduce 1) in
      let (t, same) = picked ((mul_mod a p).0 == 1) p b h in
      let one : (mul_mod a p).0 ≡ 1 = (==_iff _ 1).0 t in
      ap (λ r. mul_mod a r) (sym same) ∙ val_path (one ∙ sym (mod-eq_of_lt big))

  unfoldable pub residues : n ≤ 256 ^ 32 → Monty
  unfolding pow_loop
  residues small = record {
    ring = residue_ring;
    sub = λ a b. add_mod a (neg_mod b);
    sub_law = λ a b. refl;
    square = λ a. mul_mod a a;
    square_law = λ a. refl;
    invert = try_inverse;
    invert_law = try_inverse_lem;
    pow = λ a e. pow_loop 256 a e (reduce 1);
    modulus = n;
    modulus_law = small;
    new = reduce;
    retrieve = λ a. a.0;
    new_law = reduce_self;
    retrieve_law = λ a. a.1;
    retrieve-new = λ m. refl;
    new-zero = refl;
    new-one = refl;
    new-add = λ a b. val_path (sym (mod-add-mod a n (b % n) ∙ add-mod-mod a b n));
    new-mul = λ a b. val_path (sym (mul-mod_left a (b % n) n ∙ mul-mod_right a b n));
  }
