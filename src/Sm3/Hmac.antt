-- ===== src/Sm3/Hmac.antt =====
-- src/sm3/mod.rs: HMAC-SM3 at once and streaming. That secrets are wiped from memory is no part of
-- the values and is left out.
use libsmx.Base.{bit_xor, ltb, if◌then◌else◌, ◌≡◌, refl, length, replicate, copy_at, map}
use libsmx.Base.Words.{Bytes}
use libsmx.Sm3.Hash.{Sm3Hasher, hasher_new, update, finalize, digest}

-- `k_pad`: the key, or the digest of a long one, with zeros up to a block.
unfoldable pub pad_key : Bytes → Bytes
pad_key key =
    if ltb 64 (length key)
    then copy_at (replicate 64 0) 0 (digest key)
    else copy_at (replicate 64 0) 0 key

unfoldable pub hmac_sm3 : Bytes → Bytes → Bytes
hmac_sm3 key bytes =
    let ipad = map (λ x. bit_xor x 0x36) (pad_key key) in
    let opad = map (λ x. bit_xor x 0x5c) (pad_key key) in
    let inner_hash = finalize (update (update hasher_new ipad) bytes) in
    finalize (update (update hasher_new opad) inner_hash)

pub record HmacSm3 : Type 0 where
  pub inner : Sm3Hasher
  pub opad_key : Bytes

unfoldable pub hmac_new : Bytes → HmacSm3
hmac_new key = record {
  inner = update hasher_new (map (λ x. bit_xor x 0x36) (pad_key key));
  opad_key = map (λ x. bit_xor x 0x5c) (pad_key key);
}

unfoldable pub hmac_update : HmacSm3 → Bytes → HmacSm3
hmac_update h bytes = record { inner = update h.inner bytes; opad_key = h.opad_key }

unfoldable pub hmac_finalize : HmacSm3 → Bytes
hmac_finalize h = finalize (update (update hasher_new h.opad_key) (finalize h.inner))

-- The streaming interface, given a key and then the whole message, returns what `hmac_sm3` does.
pub hmac_finalize-hmac_update :
    (key bytes : Bytes) → hmac_finalize (hmac_update (hmac_new key) bytes) ≡ hmac_sm3 key bytes
unfolding hmac_finalize hmac_update hmac_new hmac_sm3
hmac_finalize-hmac_update key bytes = refl
