-- ===== src/Examples/Sm3.antt =====
-- src/sm3: the vector of `test_sm3_basic`, and instances.
use libsmx.Base.{◌≡◌, refl, [], ◌∷◌, replicate, ◌++◌}
use libsmx.Base.Words.{Bytes, from_be_bytes, to_be_bytes}
use libsmx.Sm3.Compress.{
  round_constant, p0, p1, load_words, extend_words, compress_round, compress_rounds, compress,
}
use libsmx.Sm3.Hash.{hasher_new, absorb, keep, absorb_all, update, finalize_words, finalize}
use libsmx.Sm3.Hmac.{hmac_sm3, hmac_new, hmac_finalize}
use libsmx.Sm3.Reference.{sm3, hmac}
use libsmx.Sm3.Streaming.{updates, finalize-updates, hmac_updates, hmac-eq-reference}

abbrev abc : Bytes
abc = 97 ∷ 98 ∷ 99 ∷ []

digest-abc :
    finalize_words (update hasher_new abc)
    ≡ 0x66c7f0f4 ∷ 0x62eeedd9 ∷ 0xd1f2d46b ∷ 0xdc10e4e2 ∷ 0x4167c487 ∷ 0x5cf2f7a2 ∷ 0x297da02b
      ∷ 0x8f4ba8e0 ∷ []
unfolding finalize_words update absorb_all keep absorb compress compress_rounds compress_round
    extend_words load_words p0 p1 round_constant to_be_bytes from_be_bytes
digest-abc = refl

finalize-updates_example :
    finalize (updates hasher_new (abc ∷ replicate 70 9 ∷ [])) ≡ sm3 (abc ++ (replicate 70 9 ++ []))
finalize-updates_example = finalize-updates (abc ∷ replicate 70 9 ∷ [])

hmac-eq-reference_example :
    (hmac_finalize (hmac_updates (hmac_new abc) (abc ∷ abc ∷ [])) ≡ hmac abc (abc ++ (abc ++ [])))
    × (hmac_sm3 abc (abc ++ (abc ++ [])) ≡ hmac abc (abc ++ (abc ++ [])))
hmac-eq-reference_example = hmac-eq-reference abc (abc ∷ abc ∷ [])
