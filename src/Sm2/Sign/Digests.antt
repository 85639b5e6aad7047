-- ===== src/Sm2/Sign/Digests.antt =====
-- src/sm2/mod.rs: the digests of `get_z` and `get_e` as the standard states them.
use libsmx.Base.{
  ◌*◌, ◌%◌, ◌^◌, ◌≡◌, ap₂, ◌∙◌, [], ◌∷◌, ◌++◌, append-nil, flatten, length, take, drop,
}
use libsmx.Base.Words.{Bytes, to_be_bytes}
use libsmx.Sm3.Reference.{sm3}
use libsmx.Sm3.Streaming.{updates, finalize-updates}
use libsmx.Monty.{Monty}
use libsmx.Sm2.Field.{curve_a, curve_b, gx, gy, fp_to_bytes}
use libsmx.Sm2.Sign.{get_z, get_e}

module _ (f g : Monty) where
  -- e = SM3(SM3(ENTL ∥ ID ∥ a ∥ b ∥ x_G ∥ y_G ∥ x_A ∥ y_A) ∥ M)
  pub get_e-get_z :
      (id pub_key message : Bytes)
      → get_e (get_z f g id pub_key) message
        ≡ sm3 (
            sm3 (
              flatten (
                to_be_bytes 2 (length id * 8 % 2 ^ 16)
                ∷ id
                ∷ fp_to_bytes f (curve_a f)
                ∷ fp_to_bytes f (curve_b f)
                ∷ fp_to_bytes f (gx f)
                ∷ fp_to_bytes f (gy f)
                ∷ take 32 (drop 1 pub_key)
                ∷ take 32 (drop 33 pub_key)
                ∷ []))
            ++ message)
  unfolding get_z get_e updates
  get_e-get_z id pub_key message =
      let pieces =
        to_be_bytes 2 (length id * 8 % 2 ^ 16)
        ∷ id
        ∷ fp_to_bytes f (curve_a f)
        ∷ fp_to_bytes f (curve_b f)
        ∷ fp_to_bytes f (gx f)
        ∷ fp_to_bytes f (gy f)
        ∷ take 32 (drop 1 pub_key)
        ∷ take 32 (drop 33 pub_key)
        ∷ [] in
      finalize-updates (get_z f g id pub_key ∷ message ∷ [])
      ∙ ap₂ (λ a b. sm3 (a ++ b)) (finalize-updates pieces) (append-nil message)
