-- ===== src/Base/Slices.antt =====
-- Writes into an array that is read as a part written and a part to come.
use Prim.Native.Nat.{ℕ, zero, suc, ◌+◌, ◌-◌, ◌≤◌}
use mathlib.Core.Path.{◌≡◌, refl, ap, ap₂, ◌∙◌, sym}
use mathlib.Core.List.{List, [], ◌∷◌, ◌++◌, append-nil}
use native.Mathlib.Omega.{arith}
use libsmx.Base.Lists.{length, set, take, drop, replicate, copy_at, take-append, drop-ge}

module _ {ℓ} {A : Type ℓ} where
  -- A write at the end of the first part replaces the first item of the second.
  pub set-append :
      (xs : List A) (y : A) (ys : List A) (i : ℕ) (v : A)
      → length xs ≡ i
      → set (xs ++ (y ∷ ys)) i v ≡ xs ++ (v ∷ ys)
  set-append [] y ys zero v h = refl
  set-append [] y ys (suc i) v h = absurd (omega arith)
  set-append (x ∷ xs) y ys zero v h = absurd (omega arith)
  set-append (x ∷ xs) y ys (suc i) v h =
      ap (λ (t : List A). x ∷ t) (set-append xs y ys i v (omega arith))

  take-suc_add : (m n : ℕ) (x : A) (xs : List A) → take (suc m + n) (x ∷ xs) ≡ x ∷ take (m + n) xs
  take-suc_add m n x xs =
      let e : suc m + n ≡ suc (m + n) = omega arith in ap (λ (j : ℕ). take j (x ∷ xs)) e

  pub take-add : (m n : ℕ) (xs : List A) → take (m + n) xs ≡ take m xs ++ take n (drop m xs)
  take-add zero n xs = ap (λ (j : ℕ). take j xs) (omega arith)
  take-add (suc m) n [] = take-nil (suc m + n) ∙ sym (take-nil n)
    where
      take-nil : (j : ℕ) → ◌≡◌ {A = List A} (take j []) []
      take-nil zero = refl
      take-nil (suc j) = refl
  take-add (suc m) n (x ∷ xs) = take-suc_add m n x xs ∙ ap (λ (t : List A). x ∷ t) (take-add m n xs)

  pub drop-append_ge :
      (xs ys : List A) (i k : ℕ) → length xs + k ≡ i → drop i (xs ++ ys) ≡ drop k ys
  drop-append_ge [] ys i k h = ap (λ (j : ℕ). drop j ys) (omega arith)
  drop-append_ge (x ∷ xs) ys zero k h = absurd (omega arith)
  drop-append_ge (x ∷ xs) ys (suc i) k h = drop-append_ge xs ys i k (omega arith)

  -- A slice copied in behind the first part.
  pub copy_at-append :
      (xs ys : List A) (i : ℕ) (src : List A)
      → length xs ≡ i
      → copy_at (xs ++ ys) i src ≡ xs ++ (src ++ drop (length src) ys)
  copy_at-append xs ys i src h =
      ap₂ (λ (p : List A) (q : List A). p ++ (src ++ q)) (take-append i xs ys h)
        (drop-append_ge xs ys (i + length src) (length src) (omega arith))

  -- The copy fills the array to its end.
  pub copy_at-append_all :
      (xs ys : List A) (i : ℕ) (src : List A)
      → length xs ≡ i
      → length ys ≤ length src
      → copy_at (xs ++ ys) i src ≡ xs ++ src
  copy_at-append_all xs ys i src h k =
      copy_at-append xs ys i src h
      ∙ ap (λ (t : List A). xs ++ (src ++ t)) (drop-ge (length src) ys k)
      ∙ ap (λ (t : List A). xs ++ t) (append-nil src)

  pub replicate-add : (m n : ℕ) (a : A) → replicate (m + n) a ≡ replicate m a ++ replicate n a
  replicate-add zero n a = ap (λ (j : ℕ). replicate j a) (omega arith)
  replicate-add (suc m) n a =
      let e : suc m + n ≡ suc (m + n) = omega arith in
      ap (λ (j : ℕ). replicate j a) e ∙ ap (λ (t : List A). a ∷ t) (replicate-add m n a)

  pub drop-replicate : (k n : ℕ) (a : A) → drop k (replicate n a) ≡ replicate (n - k) a
  drop-replicate zero n a = let e : n ≡ n - 0 = omega arith in ap (λ (j : ℕ). replicate j a) e
  drop-replicate (suc k) zero a =
      let e : 0 ≡ 0 - suc k = omega arith in ap (λ (j : ℕ). replicate j a) e
  drop-replicate (suc k) (suc n) a =
      let e : n - k ≡ suc n - suc k = omega arith in
      drop-replicate k n a ∙ ap (λ (j : ℕ). replicate j a) e
