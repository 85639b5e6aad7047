-- ===== src/Sm4/Modes/Shape.antt =====
-- What the modes share: a pass over `chunks(16)` that keeps the lengths of the chunks is undone by a
-- second pass that undoes it chunk by chunk; and aligned strings are strings of blocks.
use libsmx.Base.{
  ℕ, zero, suc, ◌%◌, ◌≤◌, ◌≡◌, refl, ap, ◌∙◌, List, [], ◌∷◌, map, length, drop, All, All-take,
  All-drop, length-append, length-take, length-drop, flatten, arith,
}
use libsmx.Base.Words.{Bytes, IsByte, AreBytes}
use libsmx.Base.Chunks.{
  chunks, chunks-flatten, flatten-chunks, chunks-AreChunks, AreChunks-cong, chunks-cons, chunks-nil,
}
use libsmx.Sm4.Cipher.RoundTrip.{IsBlock}

pub length-flatten_cong :
    (cs ds : List Bytes) → map length cs ≡ map length ds → length (flatten cs) ≡ length (flatten ds)
length-flatten_cong [] [] e = refl
length-flatten_cong [] (d ∷ ds) e = cc
length-flatten_cong (c ∷ cs) [] e = cc
length-flatten_cong (c ∷ cs) (d ∷ ds) e =
    let same : length c ≡ length d = cc in
    omega (
      arith,
      length-append c (flatten cs),
      length-append d (flatten ds),
      length-flatten_cong cs ds (cc),
    )

module _ (there back : List Bytes → List Bytes) (xs : Bytes)
    (shape : map length (there (chunks 16 xs)) ≡ map length (chunks 16 xs)) where
  pub length-pass : length (flatten (there (chunks 16 xs))) ≡ length xs
  length-pass = length-flatten_cong _ _ shape ∙ ap length (flatten-chunks 16 xs (omega arith))

  pub pass_undone :
      back (there (chunks 16 xs)) ≡ chunks 16 xs
      → flatten (back (chunks 16 (flatten (there (chunks 16 xs))))) ≡ xs
  pass_undone undone =
      ap (λ (cs : List Bytes). flatten (back cs))
        (chunks-flatten 16 (there (chunks 16 xs)) (omega arith)
          (AreChunks-cong 16 (chunks 16 xs) _ shape (chunks-AreChunks 16 xs (omega arith))))
      ∙ ap flatten undone
      ∙ flatten-chunks 16 xs (omega arith)

-- Without a remainder every chunk is a block.
blocks_below :
    (fuel : ℕ) (xs : Bytes)
    → length xs ≤ fuel
    → length xs % 16 ≡ 0
    → AreBytes xs
    → All IsBlock (chunks 16 xs)
blocks_below fuel [] h e b = rw (chunks-nil {A = ℕ} 16) tt
blocks_below zero (x ∷ xs) h e b = absurd (omega arith)
blocks_below (suc fuel) (x ∷ xs) h e b =
    let lt = length-take 16 (x ∷ xs) in
    let ld = length-drop 16 (x ∷ xs) in
    rw (chunks-cons 16 x xs (omega arith)) (
      (omega arith, All-take IsByte 16 (x ∷ xs) b),
      blocks_below fuel (drop 16 (x ∷ xs)) (omega arith) (omega arith)
          (All-drop IsByte 16 (x ∷ xs) b),
    )

pub chunks-AreBlocks : (xs : Bytes) → length xs % 16 ≡ 0 → AreBytes xs → All IsBlock (chunks 16 xs)
chunks-AreBlocks xs e b = blocks_below (length xs) xs (omega arith) e b
