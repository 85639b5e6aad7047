-- ===== src/Sm3/Streaming.antt =====
-- What the streaming interfaces of src/sm3/mod.rs promise: the way in which a message is divided
-- does not matter, and what comes out is the reference hash, or the reference HMAC.
use libsmx.Base.{
  ℕ, ◌-◌, ◌≡◌, refl, sym, ap, ◌∙◌, subst, ltb, Bool-cases, inl, inr, List, [], ◌∷◌, ◌++◌,
  append_assoc, append-nil, length, replicate, copy_at, map, flatten, bit_xor,
}
use libsmx.Base.Slices.{copy_at-append, drop-replicate}
use libsmx.Base.Words.{Bytes}
use libsmx.Sm3.Hash.{Sm3Hasher, hasher_new, update, finalize, digest}
use libsmx.Sm3.Hmac.{HmacSm3, pad_key, hmac_sm3, hmac_new, hmac_update, hmac_finalize}
use libsmx.Sm3.Reference.{sm3, hmac_key, hmac}
use libsmx.Sm3.Refines.{Holds, hasher_new-Holds}
use libsmx.Sm3.Updates.{update-Holds}
use libsmx.Sm3.Finalize.{finalize-Holds}

-- Calls of `update`, one after the other.
unfoldable pub updates : Sm3Hasher → List Bytes → Sm3Hasher
updates h [] = h
updates h (piece ∷ pieces) = updates (update h piece) pieces

pub updates-Holds :
    (pieces : List Bytes) (h : Sm3Hasher) (message : Bytes)
    → Holds h message
    → Holds (updates h pieces) (message ++ flatten pieces)
unfolding updates
updates-Holds [] h message held = subst (Holds h) (sym (append-nil message)) held
updates-Holds (piece ∷ pieces) h message held =
    subst (Holds _) (append_assoc message piece (flatten pieces))
      (updates-Holds pieces (update h piece) (message ++ piece) (update-Holds h message piece held))

-- However a message is divided among calls of `update`, `finalize` gives the hash of the whole
-- message: its padded blocks folded with the compression function.
pub finalize-updates :
    (pieces : List Bytes) → finalize (updates hasher_new pieces) ≡ sm3 (flatten pieces)
finalize-updates pieces =
    finalize-Holds (updates hasher_new pieces) (flatten pieces)
      (updates-Holds pieces hasher_new [] hasher_new-Holds)

pub digest-eq-sm3 : (message : Bytes) → digest message ≡ sm3 message
unfolding digest
digest-eq-sm3 message =
    finalize-Holds _ message (update-Holds hasher_new [] message hasher_new-Holds)

zero_filled : (k : Bytes) → copy_at (replicate 64 0) 0 k ≡ k ++ replicate (64 - length k) 0
zero_filled k =
    copy_at-append [] (replicate 64 0) 0 k refl
    ∙ ap (λ (t : Bytes). k ++ t) (drop-replicate (length k) 64 0)

pad_key-eq-hmac_key : (key : Bytes) → pad_key key ≡ hmac_key key
unfolding pad_key hmac_key
pad_key-eq-hmac_key key = elim (Bool-cases (ltb 64 (length key))) [
  | inl long ↦
      rw long (
        ap (λ (t : Bytes). copy_at (replicate 64 0) 0 t) (digest-eq-sm3 key)
        ∙ zero_filled (sm3 key))
  | inr short ↦ rw short (zero_filled key)
]

finalize-update_twice : (a b : Bytes) → finalize (update (update hasher_new a) b) ≡ sm3 (a ++ b)
finalize-update_twice a b =
    finalize-Holds _ (a ++ b) (update-Holds _ a b (update-Holds hasher_new [] a hasher_new-Holds))

-- Calls of the streaming HMAC's `update`, one after the other.
unfoldable pub hmac_updates : HmacSm3 → List Bytes → HmacSm3
hmac_updates h [] = h
hmac_updates h (piece ∷ pieces) = hmac_updates (hmac_update h piece) pieces

hmac_updates_inner :
    (pieces : List Bytes) (h : HmacSm3)
    → hmac_updates h pieces ≡ record { inner = updates h.inner pieces; opad_key = h.opad_key }
unfolding hmac_updates hmac_update updates
hmac_updates_inner [] h = refl
hmac_updates_inner (piece ∷ pieces) h = hmac_updates_inner pieces (hmac_update h piece)

-- Both ways to compute an HMAC give that of RFC 2104: the streaming one however the message is
-- divided, and the function on the whole message.
pub hmac-eq-reference :
    (key : Bytes) (pieces : List Bytes)
    → (hmac_finalize (hmac_updates (hmac_new key) pieces) ≡ hmac key (flatten pieces))
      × (hmac_sm3 key (flatten pieces) ≡ hmac key (flatten pieces))
unfolding hmac hmac_finalize hmac_sm3 hmac_new updates
hmac-eq-reference key pieces =
    let ipad = map (λ (x : ℕ). bit_xor x 0x36) (hmac_key key) in
    let opad = map (λ (x : ℕ). bit_xor x 0x5c) (hmac_key key) in
    rw (hmac_updates_inner pieces (hmac_new key), pad_key-eq-hmac_key key)
      (
        finalize-update_twice opad _
            ∙ ap (λ (t : Bytes). sm3 (opad ++ t)) (finalize-updates (ipad ∷ pieces)),
        finalize-update_twice opad _
            ∙ ap (λ (t : Bytes). sm3 (opad ++ t)) (finalize-update_twice ipad (flatten pieces)),
      )
