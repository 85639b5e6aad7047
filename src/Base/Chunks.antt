-- ===== src/Base/Chunks.antt =====
-- `slice.chunks(n)`: pieces of `n` items, the last one possibly shorter.
use Prim.Native.Nat.{ℕ, zero, suc, ◌≤◌, ◌<◌}
use mathlib.Core.Path.{◌≡◌, refl, ap, ap₂, ◌∙◌}
use mathlib.Core.Logic.{◌⊎◌, inl, inr}
use mathlib.Core.List.{List, [], ◌∷◌, ◌++◌, map, append-nil}
use native.Mathlib.Omega.{arith}
use libsmx.Base.Tests.{ltb, ltb→lt, ltb→le, Bool-cases}
use libsmx.Base.Lists.{
  length, length-take, length-drop, take, drop, take-append-drop, take-append, drop-append, take-ge,
  drop-ge, flatten,
}

module _ {ℓ} {A : Type ℓ} where
  -- The fuel is the length of the slice: each piece has an item at least.
  chunks_from : ℕ → ℕ → List A → List (List A)
  chunks_from zero n xs = []
  chunks_from (suc fuel) n [] = []
  chunks_from (suc fuel) n (x ∷ xs) = take n (x ∷ xs) ∷ chunks_from fuel n (drop n (x ∷ xs))

  unfoldable pub chunks : ℕ → List A → List (List A)
  unfolding chunks_from
  chunks n xs = chunks_from (length xs) n xs

  -- The shape of `chunks`: all pieces full but the last, which is not empty.
  abbrev pub AreChunks : ℕ → List (List A) → Type 0
  AreChunks n [] = Unit
  AreChunks n (c ∷ []) = (0 < length c) × (length c ≤ n)
  AreChunks n (c ∷ d ∷ cs) = (length c ≡ n) × AreChunks n (d ∷ cs)

  chunks_from-fuel :
      (fuel more n : ℕ) (xs : List A)
      → 0 < n
      → length xs ≤ fuel
      → length xs ≤ more
      → chunks_from fuel n xs ≡ chunks_from more n xs
  unfolding chunks_from
  chunks_from-fuel zero zero n xs p q r = refl
  chunks_from-fuel zero (suc more) n [] p q r = refl
  chunks_from-fuel zero (suc more) n (x ∷ xs) p q r = absurd (omega arith)
  chunks_from-fuel (suc fuel) zero n [] p q r = refl
  chunks_from-fuel (suc fuel) zero n (x ∷ xs) p q r = absurd (omega arith)
  chunks_from-fuel (suc fuel) (suc more) n [] p q r = refl
  chunks_from-fuel (suc fuel) (suc more) n (x ∷ xs) p q r =
      let e = length-drop n (x ∷ xs) in
      ap (λ (t : List (List A)). take n (x ∷ xs) ∷ t)
        (chunks_from-fuel fuel more n (drop n (x ∷ xs)) p (omega arith) (omega arith))

  pub chunks-nil : (n : ℕ) → ◌≡◌ {A = List (List A)} (chunks n []) []
  unfolding chunks chunks_from
  chunks-nil n = refl

  pub chunks-cons :
      (n : ℕ) (x : A) (xs : List A)
      → 0 < n
      → chunks n (x ∷ xs) ≡ take n (x ∷ xs) ∷ chunks n (drop n (x ∷ xs))
  unfolding chunks
  chunks-cons n x xs h =
      let e = length-drop n (x ∷ xs) in
      ap (λ (t : List (List A)). take n (x ∷ xs) ∷ t)
        (chunks_from-fuel (length xs) _ n (drop n (x ∷ xs)) h (omega arith) (omega arith))

  pub chunks-append :
      (n : ℕ) (xs ys : List A) → 0 < n → length xs ≡ n → chunks n (xs ++ ys) ≡ xs ∷ chunks n ys
  chunks-append n [] ys h e = absurd (omega arith)
  chunks-append n (x ∷ xs) ys h e =
      chunks-cons n x (xs ++ ys) h
      ∙ ap₂ (λ (c : List A) (r : List A). c ∷ chunks n r) (take-append n (x ∷ xs) ys e)
          (drop-append n (x ∷ xs) ys e)

  pub chunks-short : (n : ℕ) (xs : List A) → 0 < length xs → length xs ≤ n → chunks n xs ≡ xs ∷ []
  unfolding chunks chunks_from
  chunks-short n [] h k = absurd (omega arith)
  chunks-short n (x ∷ xs) h k =
      chunks-cons n x xs (omega arith)
      ∙ ap₂ (λ (c : List A) (r : List A). c ∷ chunks n r) (take-ge n (x ∷ xs) k)
          (drop-ge n (x ∷ xs) k)

  -- Taking apart what was put together.
  pub chunks-flatten :
      (n : ℕ) (cs : List (List A)) → 0 < n → AreChunks n cs → chunks n (flatten cs) ≡ cs
  unfolding chunks chunks_from
  chunks-flatten n [] h k = refl
  chunks-flatten n (c ∷ []) h k = rw (append-nil c) (chunks-short n c k.0 k.1)
  chunks-flatten n (c ∷ d ∷ cs) h k =
      chunks-append n c (d ++ flatten cs) h k.0
      ∙ ap (λ (t : List (List A)). c ∷ t) (chunks-flatten n (d ∷ cs) h k.1)

  flatten-chunks_from :
      (fuel n : ℕ) (xs : List A) → 0 < n → length xs ≤ fuel → flatten (chunks_from fuel n xs) ≡ xs
  unfolding chunks_from
  flatten-chunks_from zero n [] p q = refl
  flatten-chunks_from zero n (x ∷ xs) p q = absurd (omega arith)
  flatten-chunks_from (suc fuel) n [] p q = refl
  flatten-chunks_from (suc fuel) n (x ∷ xs) p q =
      let e = length-drop n (x ∷ xs) in
      ap (λ (t : List A). take n (x ∷ xs) ++ t)
        (flatten-chunks_from fuel n (drop n (x ∷ xs)) p (omega arith))
      ∙ take-append-drop n (x ∷ xs)

  pub flatten-chunks : (n : ℕ) (xs : List A) → 0 < n → flatten (chunks n xs) ≡ xs
  unfolding chunks
  flatten-chunks n xs h = flatten-chunks_from (length xs) n xs h (omega arith)

  chunks_from-nil : (fuel n : ℕ) → chunks_from fuel n [] ≡ []
  unfolding chunks_from
  chunks_from-nil zero n = refl
  chunks_from-nil (suc fuel) n = refl

  -- The piece cut off is full, or it is the last.
  chunks_from-rest :
      (fuel n : ℕ) (xs : List A) → (chunks_from fuel n (drop n xs) ≡ []) ⊎ (length (take n xs) ≡ n)
  chunks_from-rest fuel n xs = elim (Bool-cases (ltb n (length xs))) [
    | inl p ↦ inr (omega (arith, length-take n xs, ltb→lt n (length xs)))
    | inr p ↦ inl (rw (drop-ge n xs (ltb→le n (length xs) p)) (chunks_from-nil fuel n))
  ]

  AreChunks-cons :
      (n : ℕ) (c : List A) (cs : List (List A))
      → (0 < length c) × (length c ≤ n)
      → (cs ≡ []) ⊎ (length c ≡ n)
      → AreChunks n cs
      → AreChunks n (c ∷ cs)
  AreChunks-cons n c [] h k r = h
  AreChunks-cons n c (d ∷ cs) h (inl e) r = cc
  AreChunks-cons n c (d ∷ cs) h (inr e) r = (e, r)

  chunks_from-AreChunks :
      (fuel n : ℕ) (xs : List A) → 0 < n → length xs ≤ fuel → AreChunks n (chunks_from fuel n xs)
  unfolding chunks_from
  chunks_from-AreChunks zero n xs p q = tt
  chunks_from-AreChunks (suc fuel) n [] p q = tt
  chunks_from-AreChunks (suc fuel) n (x ∷ xs) p q =
      let e = length-drop n (x ∷ xs) in
      let t = length-take n (x ∷ xs) in
      AreChunks-cons n _ _ (omega arith, omega arith) (chunks_from-rest fuel n (x ∷ xs))
        (chunks_from-AreChunks fuel n (drop n (x ∷ xs)) p (omega arith))

  pub chunks-AreChunks : (n : ℕ) (xs : List A) → 0 < n → AreChunks n (chunks n xs)
  unfolding chunks
  chunks-AreChunks n xs h = chunks_from-AreChunks (length xs) n xs h (omega arith)

  -- The shape depends on the lengths alone.
  pub AreChunks-cong :
      (n : ℕ) (cs ds : List (List A))
      → map length ds ≡ map length cs
      → AreChunks n cs
      → AreChunks n ds
  AreChunks-cong n [] [] e h = tt
  AreChunks-cong n [] (d ∷ ds) e h = cc
  AreChunks-cong n (c ∷ cs) [] e h = tt
  AreChunks-cong n (c ∷ []) (d ∷ []) e h =
      let same : length d ≡ length c = cc in (omega arith, omega arith)
  AreChunks-cong n (c ∷ []) (d ∷ d' ∷ ds) e h = cc
  AreChunks-cong n (c ∷ c' ∷ cs) (d ∷ []) e h = cc
  AreChunks-cong n (c ∷ c' ∷ cs) (d ∷ d' ∷ ds) e h =
      let same : length d ≡ length c = cc in
      (omega arith, AreChunks-cong n (c' ∷ cs) (d' ∷ ds) (cc) h.1)
