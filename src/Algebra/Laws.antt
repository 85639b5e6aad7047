-- ===== src/Algebra/Laws.antt =====
-- What follows in any commutative ring.
use libsmx.Base.{◌≡◌, sym, ap, ap₂, ◌∙◌}
use libsmx.Algebra.{CommRing}

module _ (k : CommRing) where
  open k use {
    Carrier, nought, unit, plus, times, minus, plus_assoc, plus_comm, plus_nought, plus_minus,
    times_assoc, times_comm, times_plus,
  }

  pub nought_plus : (a : Carrier) → plus nought a ≡ a
  nought_plus a = plus_comm nought a ∙ plus_nought a

  pub plus_swap : (a b c : Carrier) → plus a (plus b c) ≡ plus b (plus a c)
  plus_swap a b c = sym (plus_assoc a b c) ∙ ap (λ t. plus t c) (plus_comm a b) ∙ plus_assoc b a c

  pub times_swap : (a b c : Carrier) → times a (times b c) ≡ times b (times a c)
  times_swap a b c =
      sym (times_assoc a b c) ∙ ap (λ t. times t c) (times_comm a b) ∙ times_assoc b a c

  pub plus_cancel : (a b : Carrier) → plus a (plus (minus a) b) ≡ b
  plus_cancel a b =
      sym (plus_assoc a (minus a) b) ∙ ap (λ t. plus t b) (plus_minus a) ∙ nought_plus b

  pub minus_plus_cancel : (a b : Carrier) → plus (minus a) (plus a b) ≡ b
  minus_plus_cancel a b = plus_swap (minus a) a b ∙ plus_cancel a b

  pub minus_unique : (a b : Carrier) → plus a b ≡ nought → b ≡ minus a
  minus_unique a b e =
      sym (minus_plus_cancel a b) ∙ ap (λ t. plus (minus a) t) e ∙ plus_nought (minus a)

  pub minus_minus : (a : Carrier) → minus (minus a) ≡ a
  minus_minus a = sym (minus_unique (minus a) a (plus_comm (minus a) a ∙ plus_minus a))

  pub minus_nought : minus nought ≡ nought
  minus_nought = sym (minus_unique nought nought (plus_nought nought))

  pub minus_plus : (a b : Carrier) → minus (plus a b) ≡ plus (minus a) (minus b)
  minus_plus a b = sym (
      minus_unique (plus a b) (plus (minus a) (minus b)) (
        plus_assoc a b (plus (minus a) (minus b))
        ∙ ap (λ t. plus a t)
            (plus_swap b (minus a) (minus b)
              ∙ ap (λ t. plus (minus a) t) (plus_minus b)
              ∙ plus_nought (minus a))
        ∙ plus_minus a))

  pub times_nought : (a : Carrier) → times a nought ≡ nought
  times_nought a =
      let x = times a nought in
      let twice : plus x x ≡ x =
        sym (times_plus a nought nought) ∙ ap (λ t. times a t) (plus_nought nought) in
      sym (minus_plus_cancel x x)
      ∙ ap (λ t. plus (minus x) t) twice
      ∙ plus_comm (minus x) x
      ∙ plus_minus x

  pub times_minus : (a b : Carrier) → times a (minus b) ≡ minus (times a b)
  times_minus a b =
      minus_unique (times a b) (times a (minus b))
        (sym (times_plus a b (minus b)) ∙ ap (λ t. times a t) (plus_minus b) ∙ times_nought a)

  pub minus_times : (a b : Carrier) → times (minus a) b ≡ minus (times a b)
  minus_times a b = times_comm (minus a) b ∙ times_minus b a ∙ ap minus (times_comm b a)

  pub plus_times : (a b c : Carrier) → times (plus a b) c ≡ plus (times a c) (times b c)
  plus_times a b c =
      times_comm (plus a b) c ∙ times_plus c a b ∙ ap₂ plus (times_comm c a) (times_comm c b)
