-- ===== src/Sm2/Der/Signature.antt =====
-- The DER form of a signature is read back (src/sm2/der.rs).
use native.Mathlib.Nat.{zero-add, suc-add}
use libsmx.Base.{
  ==_iff, append_assoc, append-nil, drop-ge, length-replicate, le→ltb, take-append, drop-append, ℕ,
  zero, suc, ◌+◌, ◌-◌, ◌%◌, ◌^◌, ◌≤◌, ◌<◌, ◌==◌, ltb, bit_and, if◌then◌else◌, not, Bool, false,
  Option, none, some, ◌≡◌, refl, ap, ap₂, sym, take-ge, length-take, take-append-drop, ◌∙◌, inl,
  inr, [], ◌∷◌, ◌++◌, length, take, drop, replicate, copy_at, arith, Bool-cases, length-append,
  length-drop, get_or,
}
use libsmx.Base.Words.{Bytes, u8}
use libsmx.Base.Outcome.{ok}
use libsmx.Sm2.Der.{
  position_nonzero, unwrap_or, encode_integer32, sig_to_der, decode_integer32, strip_leading_zero,
  assemble, sig_body, sig_from_der,
}

-- The number of leading zero bytes that the encoding drops: all but the last byte at most.
start_of : Bytes → ℕ
start_of bs = unwrap_or (position_nonzero bs) (length bs - 1)

start_of-nonzero : (b : ℕ) (bs : Bytes) → (b == 0) ≡ false → start_of (b ∷ bs) ≡ 0
unfolding start_of unwrap_or position_nonzero
start_of-nonzero b bs e = rw e

shift_lem :
    (o : Option ℕ) (n : ℕ)
    → unwrap_or (elim o [ none ↦ none | some i ↦ some (suc i) ]) (suc (suc n) - 1)
      ≡ suc (unwrap_or o (suc n - 1))
unfolding unwrap_or
shift_lem none n = omega arith
shift_lem (some i) n = refl

start_of-zero : (c : ℕ) (cs : Bytes) → start_of (0 ∷ c ∷ cs) ≡ suc (start_of (c ∷ cs))
unfolding start_of
start_of-zero c cs = rw (position_zero c cs) (shift_lem (position_nonzero (c ∷ cs)) (length cs))
  where
    position_zero :
        (c : ℕ) (cs : Bytes)
        → position_nonzero (0 ∷ c ∷ cs)
          ≡ elim (position_nonzero (c ∷ cs)) [ none ↦ none | some i ↦ some (suc i) ]
    position_zero c cs = unfold position_nonzero in refl

start_of-last : start_of (0 ∷ []) ≡ 0
unfolding start_of unwrap_or position_nonzero
start_of-last = refl

-- The value that is encoded: it starts with a byte that is not 0, or is the one byte 0.
abbrev val_of : Bytes → Bytes
val_of bs = drop (start_of bs) bs

data IsMinimal : Bytes → Type 0 where
  nonzero : {v : ℕ} {vs : Bytes} → (v == 0) ≡ false → IsMinimal (v ∷ vs)
  only_zero : IsMinimal (0 ∷ [])

val_of-IsMinimal : (b : ℕ) (bs : Bytes) → IsMinimal (val_of (b ∷ bs))
val_of-IsMinimal b [] = elim (Bool-cases (b == 0)) [
  | inl e ↦ let z = (==_iff b 0).0 e in rw (z, start_of-last) only_zero
  | inr e ↦ rw (start_of-nonzero b [] e) (nonzero e)
]
val_of-IsMinimal b (c ∷ cs) = elim (Bool-cases (b == 0)) [
  | inl e ↦ let z = (==_iff b 0).0 e in rw (z, start_of-zero c cs) (val_of-IsMinimal c cs)
  | inr e ↦ rw (start_of-nonzero b (c ∷ cs) e) (nonzero e)
]

-- The zero bytes in front and the value make up the string.
zeros-append-val_of :
    (b : ℕ) (bs : Bytes) → replicate (start_of (b ∷ bs)) 0 ++ val_of (b ∷ bs) ≡ b ∷ bs
zeros-append-val_of b [] = elim (Bool-cases (b == 0)) [
  | inl e ↦ let z = (==_iff b 0).0 e in rw (z, start_of-last) refl
  | inr e ↦ rw (start_of-nonzero b [] e) refl
]
zeros-append-val_of b (c ∷ cs) = elim (Bool-cases (b == 0)) [
  | inl e ↦
      let z = (==_iff b 0).0 e in
      rw (z, start_of-zero c cs) (ap (λ (t : Bytes). 0 ∷ t) (zeros-append-val_of c cs))
  | inr e ↦ rw (start_of-nonzero b (c ∷ cs) e) refl
]

strip_lem : (bs : Bytes) → strip_leading_zero bs ≡ val_of bs
unfolding strip_leading_zero start_of
strip_lem bs = refl

abbrev sign_bit : Bytes → Bool
sign_bit v = not (bit_and (get_or v 0 0) 0x80 == 0)

-- The content of the INTEGER for a value.
abbrev with_pad : Bytes → Bytes
with_pad v = (if sign_bit v then 0 ∷ [] else []) ++ v

strip-with_pad : (v : Bytes) → IsMinimal v → strip_leading_zero (with_pad v) ≡ v
strip-with_pad [] h = elim h [ ]
strip-with_pad (v ∷ vs) (nonzero e) = elim (Bool-cases (sign_bit (v ∷ vs))) [
  | inl f ↦ rw f (strip_lem (0 ∷ v ∷ vs) ∙ rw (start_of-zero v vs, start_of-nonzero v vs e) refl)
  | inr f ↦ rw f (strip_lem (v ∷ vs) ∙ rw (start_of-nonzero v vs e) refl)
]
strip-with_pad (x ∷ []) only_zero = strip_lem (0 ∷ []) ∙ rw start_of-last refl

length-with_pad :
    (v : Bytes)
    → IsMinimal v
    → length v ≤ 32
    → (0 < length (with_pad v)) × (length (with_pad v) ≤ 33)
length-with_pad [] m h = elim m [ ]
length-with_pad (v ∷ vs) (nonzero e) h = elim (Bool-cases (sign_bit (v ∷ vs))) [
  | inl f ↦ rw f (omega arith, omega arith)
  | inr f ↦ rw f (omega arith, omega arith)
]
length-with_pad (x ∷ []) only_zero h = (omega arith, omega arith)

encode_integer32_lem :
    (bs : Bytes)
    → length (val_of bs) ≤ 32
    → encode_integer32 bs ≡ 0x02 ∷ length (with_pad (val_of bs)) ∷ with_pad (val_of bs)
unfolding encode_integer32 start_of
encode_integer32_lem bs h = elim (Bool-cases (sign_bit (val_of bs))) [
  | inl f ↦ rw f (
      let n : (length (val_of bs) + 1) % 2 ^ 8 ≡ suc (length (val_of bs)) = omega arith in
      ap (λ (t : ℕ). 0x02 ∷ t ∷ 0 ∷ val_of bs) n)
  | inr f ↦ rw f (
      let n : (length (val_of bs) + 0) % 2 ^ 8 ≡ length (val_of bs) = omega arith in
      ap (λ (t : ℕ). 0x02 ∷ t ∷ val_of bs) n)
]

decode_integer32-encode_integer32 :
    (v rest : Bytes) → decode_integer32 (0x02 ∷ length v ∷ (v ++ rest)) ≡ some (v, rest)
unfolding decode_integer32
decode_integer32-encode_integer32 v rest =
    let fits : ltb (length (v ++ rest)) (length v) ≡ false =
      le→ltb _ _ (omega (arith, length-append v rest)) in
    rw (fits, take-append (length v) v rest refl, drop-append (length v) v rest refl) refl

-- What is known of the value of a 32-byte integer.
record IsValue (r v : Bytes) : Type 0 where
  minimal : IsMinimal v
  fits : length v ≤ 32
  padded : replicate (32 - length v) 0 ++ v ≡ r

val_of-IsValue : (r : Bytes) → length r ≡ 32 → IsValue r (val_of r)
val_of-IsValue [] e = absurd (omega arith)
val_of-IsValue (b ∷ bs) e =
    let z = zeros-append-val_of b bs in
    let st = start_of (b ∷ bs) in
    let total : st + length (val_of (b ∷ bs)) ≡ 32 = omega (
      arith,
      e,
      ap length z,
      length-append (replicate st 0) (val_of (b ∷ bs)),
      length-replicate {A = ℕ} st 0,
    ) in
    let lead : 32 - length (val_of (b ∷ bs)) ≡ st = omega (arith, total) in
    record {
      minimal = val_of-IsMinimal b bs;
      fits = omega (arith, total);
      padded = ap (λ (n : ℕ). replicate n 0 ++ val_of (b ∷ bs)) lead ∙ z;
    }

take-replicate : (m n : ℕ) → m ≤ n → take {A = ℕ} m (replicate n 0) ≡ replicate m 0
take-replicate zero n h = refl
take-replicate (suc m) zero h = absurd (omega arith)
take-replicate (suc m) (suc n) h = ap (λ (t : Bytes). 0 ∷ t) (take-replicate m n (omega arith))

take_past : (n m : ℕ) (xs ys : Bytes) → length xs ≡ n → take (n + m) (xs ++ ys) ≡ xs ++ take m ys
take_past zero m [] ys e = rw (zero-add m) refl
take_past zero m (x ∷ xs) ys e = absurd (omega arith)
take_past (suc n) m [] ys e = absurd (omega arith)
take_past (suc n) m (x ∷ xs) ys e =
    rw (suc-add n m) (ap (λ (t : Bytes). x ∷ t) (take_past n m xs ys (omega arith)))

-- The two copies into the 64 zero bytes.
copy_first :
    (r v : Bytes) → IsValue r v → copy_at (replicate 64 0) (32 - length v) v ≡ r ++ replicate 32 0
copy_first r v h =
    let fits = h.fits in
    let behind : 32 - length v + length v ≡ 32 = omega arith in
    rw (take-replicate (32 - length v) 64 (omega arith), behind)
      (sym (append_assoc (replicate (32 - length v) 0) v (replicate 32 0))
        ∙ ap (λ (t : Bytes). t ++ replicate 32 0) h.padded)

copy_second :
    (r s v : Bytes)
    → length r ≡ 32
    → IsValue s v
    → copy_at (r ++ replicate 32 0) (32 + (32 - length v)) v ≡ r ++ s
copy_second r s v e h =
    let fits = h.fits in
    let all : length (r ++ replicate 32 0) ≤ 32 + (32 - length v) + length v =
      omega (arith, length-append r (replicate 32 0)) in
    rw
      (
        take_past 32 (32 - length v) r (replicate 32 0) e,
        take-replicate (32 - length v) 32 (omega arith),
        drop-ge (32 + (32 - length v) + length v) (r ++ replicate 32 0) all,
        append-nil v,
        append_assoc r (replicate (32 - length v) 0) v,
      )
      (ap (λ (t : Bytes). r ++ t) h.padded)

assemble-with_pad :
    (r s v w : Bytes)
    → length r ≡ 32
    → IsValue r v
    → IsValue s w
    → assemble (with_pad v) (with_pad w) ≡ ok (r ++ s)
unfolding assemble
assemble-with_pad r s v w e hv hw =
    let (v1, v2) = length-with_pad v hv.minimal hv.fits in
    let (w1, w2) = length-with_pad w hw.minimal hw.fits in
    let a : (length (with_pad v) == 0) ≡ false = ground arith in
    let b : ltb 33 (length (with_pad v)) ≡ false = le→ltb 33 _ v2 in
    let c : (length (with_pad w) == 0) ≡ false = ground arith in
    let d : ltb 33 (length (with_pad w)) ≡ false = le→ltb 33 _ w2 in
    rw
      (
        a,
        b,
        c,
        d,
        strip-with_pad v hv.minimal,
        strip-with_pad w hw.minimal,
        le→ltb 32 (length v) hv.fits,
        le→ltb 32 (length w) hw.fits,
      )
      (ap ok (
        ap (λ (t : Bytes). copy_at t (32 + (32 - length w)) w) (copy_first r v hv)
        ∙ copy_second r s w e hw))

decode_last : (v : Bytes) → decode_integer32 (0x02 ∷ length v ∷ v) ≡ some (v, [])
decode_last v =
    ap (λ (t : Bytes). decode_integer32 (0x02 ∷ length v ∷ t)) (sym (append-nil v))
    ∙ decode_integer32-encode_integer32 v []

sig_body_lem :
    (v w : Bytes) → sig_body ((0x02 ∷ length v ∷ v) ++ (0x02 ∷ length w ∷ w)) ≡ assemble v w
unfolding sig_body
sig_body_lem v w =
    rw (decode_integer32-encode_integer32 v (0x02 ∷ length w ∷ w), decode_last w) refl

-- The sequence around the two integers.
sig_from_der_lem :
    (body : Bytes)
    → length body < 256
    → sig_from_der (0x30 ∷ u8 (length body) ∷ body) ≡ sig_body body
unfolding sig_from_der
sig_from_der_lem body h =
    let small : u8 (length body) ≡ length body = omega arith in
    rw
      (
        small,
        le→ltb (length body) (length body) (omega arith),
        take-ge (length body) body (omega arith),
      )
      refl

-- Every raw signature of 64 bytes, whatever the leading zeros and sign bits of `r` and `s`, is read
-- back from its DER form.
pub sig_from_der-sig_to_der :
    (raw : Bytes) → length raw ≡ 64 → sig_from_der (sig_to_der raw) ≡ ok raw
unfolding sig_to_der
sig_from_der-sig_to_der raw e =
    let r = take 32 raw in
    let s = drop 32 raw in
    let er : length r ≡ 32 = omega (arith, length-take 32 raw, e) in
    let es : length s ≡ 32 = omega (arith, length-drop 32 raw, e) in
    let hv = val_of-IsValue r er in
    let hw = val_of-IsValue s es in
    let v = with_pad (val_of r) in
    let w = with_pad (val_of s) in
    let enc_r = encode_integer32_lem r hv.fits in
    let enc_s = encode_integer32_lem s hw.fits in
    let (v1, v2) = length-with_pad (val_of r) hv.minimal hv.fits in
    let (w1, w2) = length-with_pad (val_of s) hw.minimal hw.fits in
    let body : Bytes = (0x02 ∷ length v ∷ v) ++ (0x02 ∷ length w ∷ w) in
    let la = length-append (0x02 ∷ length v ∷ v) (0x02 ∷ length w ∷ w) in
    let total : length (encode_integer32 r) + length (encode_integer32 s) ≡ length body =
      rw (enc_r, enc_s) (sym la) in
    ap (λ (n : ℕ). sig_from_der (0x30 ∷ u8 n ∷ (encode_integer32 r ++ encode_integer32 s))) total
    ∙ ap₂ (λ (x : Bytes) (y : Bytes). sig_from_der (0x30 ∷ u8 (length body) ∷ (x ++ y))) enc_r enc_s
    ∙ sig_from_der_lem body (omega (arith, la, v2, w2))
    ∙ sig_body_lem v w
    ∙ assemble-with_pad r s (val_of r) (val_of s) er hv hw
    ∙ ap ok (take-append-drop 32 raw)
