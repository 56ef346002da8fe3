-- ===== src/Wire/RoundTrip.antt =====
-- The wire format as protobuf documents it, written as an encoder, and what DecodeMessage makes of it.
use mathlib.Core.Path.{ap₂}
use mathlib.Core.List.{append_assoc, append-nil}
use native.Mathlib.Nat.{div-add-mod, le_refl}
use codeburn_watcher.Prelude.{
  ℕ, zero, suc, ◌+◌, ◌*◌, ◌/◌, ◌%◌, ◌^◌, ◌≤◌, ◌<◌, ◌≡◌, refl, ap, ◌∙◌, some, List, [], ◌∷◌, ◌++◌,
  arith, length, length-append, take, drop, map, All, if◌then◌else◌, ltb, Bool-cases, inl, inr,
}
use codeburn_watcher.Wire.{
  Field, uvarint_loop, read_varint, done, emit, decode_bytes, decode_value, decode_round,
  decode_loop, decode_message, little_endian, varint_field, fixed64_field, bytes_field,
}

-- A number in groups of seven bits, the lowest first; at most `k` more groups follow.
pub encode_groups : ℕ → ℕ → List ℕ
encode_groups zero v = v ∷ []
encode_groups (suc k) v =
    let rest = encode_groups k (v / 128) in if ltb v 128 then v ∷ [] else (v % 128 + 128) ∷ rest

-- A 64-bit number takes ten groups at most.
abbrev pub encode_varint : ℕ → List ℕ
encode_varint = encode_groups 9

abbrev low_bytes : ℕ → ℕ → List ℕ
low_bytes zero v = []
low_bytes (suc n) v = v % 256 ∷ low_bytes n (v / 256)

pub data Value : Type 0 where
  varint : ℕ → Value
  fixed64 : ℕ → Value
  bytes : List ℕ → Value

abbrev pub encode_field : ℕ × Value → List ℕ
encode_field (n, varint v) = encode_varint (n * 8 + 0) ++ encode_varint v
encode_field (n, fixed64 v) = encode_varint (n * 8 + 1) ++ low_bytes 8 v
encode_field (n, bytes l) = encode_varint (n * 8 + 2) ++ (encode_varint (length l) ++ l)

abbrev pub encode_message : List (ℕ × Value) → List ℕ
encode_message [] = []
encode_message (f ∷ fs) = encode_field f ++ encode_message fs

abbrev pub field_of : ℕ × Value → Field
field_of (n, varint v) = varint_field n v
field_of (n, fixed64 v) = fixed64_field n v
field_of (n, bytes l) = bytes_field n l

abbrev IsInRange : Value → Type 0
IsInRange (varint v) = v < 2 ^ 64
IsInRange (fixed64 v) = v < 2 ^ 64
IsInRange (bytes l) = length l < 2 ^ 63

-- A field number of 29 bits and a value that a 64-bit machine holds.
abbrev pub IsEncodable : ℕ × Value → Type 0
IsEncodable (n, v) = (n < 2 ^ 29) × IsInRange v

split_group : (v p : ℕ) → v * p ≡ v % 128 * p + v / 128 * (128 * p)
split_group v p = omega (arith, ap (λ (t : ℕ). t * p) (div-add-mod v 128))

loop-encode_groups :
    (k i p x v : ℕ) (rest : List ℕ)
    → i + k ≡ 9
    → v < 2 * 128 ^ k
    → uvarint_loop i p x (encode_groups k v ++ rest) ≡ some (x + v * p, rest)
unfolding uvarint_loop encode_groups
loop-encode_groups zero i p x v rest hi hv = ground arith
loop-encode_groups (suc k) i p x v rest hi hv = elim (Bool-cases (ltb v 128)) [
  | inl small ↦ rw small (ground arith)
  | inr large ↦
      let next =
        loop-encode_groups k (i + 1) (128 * p) (x + v % 128 * p) (v / 128) rest (omega arith)
          (omega arith) in
      let low : (v % 128 + 128) % 128 ≡ v % 128 = omega arith in
      rw large (rw low (ground (arith, next, split_group v p)))
]

read_varint-encode :
    (v : ℕ) (rest : List ℕ) → v < 2 ^ 64 → read_varint (encode_varint v ++ rest) ≡ some (v, rest)
unfolding read_varint
read_varint-encode v rest h =
    loop-encode_groups 9 0 1 0 v rest refl (omega arith)
    ∙ ap (λ (n : ℕ). some (n, rest)) (omega arith)

length-low_bytes : (n v : ℕ) → length (low_bytes n v) ≡ n
length-low_bytes zero v = refl
length-low_bytes (suc n) v = omega (arith, length-low_bytes n (v / 256))

take-append {ℓ} : {A : Type ℓ} (l r : List A) → take (length l) (l ++ r) ≡ l
take-append [] r = refl
take-append (x ∷ l) r = ap (◌∷◌ x) (take-append l r)

drop-append {ℓ} : {A : Type ℓ} (l r : List A) → drop (length l) (l ++ r) ≡ r
drop-append [] r = refl
drop-append (x ∷ l) r = drop-append l r

low_bytes_lem : (v : ℕ) → v < 2 ^ 64 → little_endian (low_bytes 8 v) ≡ v
low_bytes_lem v h = omega arith

decode_bytes_lem :
    (n : ℕ) (l rest : List ℕ)
    → length l < 2 ^ 63
    → decode_bytes n (length l) (l ++ rest) ≡ emit (bytes_field n l) rest
unfolding decode_bytes
decode_bytes_lem n l rest h = rw (take-append, drop-append) (ground (arith, length-append l rest))

decode_tag :
    (n w : ℕ) (rest : List ℕ)
    → n < 2 ^ 29
    → w < 8
    → decode_round (encode_varint (n * 8 + w) ++ rest) ≡ decode_value n w rest
unfolding decode_round
decode_tag n w rest hn hw =
    let number : (n * 8 + w) / 8 % 2 ^ 32 ≡ n = omega arith in
    let wire_type : (n * 8 + w) % 8 ≡ w = omega arith in
    rw (read_varint-encode (n * 8 + w) rest (omega arith), decode_round)
      (ap₂ (λ (a b : ℕ). decode_value a b rest) number wire_type)

-- A field in front of the rest of a message.
decode_round-encode :
    (n : ℕ) (v : Value) (rest : List ℕ)
    → IsEncodable (n, v)
    → decode_round (encode_field (n, v) ++ rest) ≡ emit (field_of (n, v)) rest
unfolding decode_value
decode_round-encode n (varint v) rest (hn, hv) = rw (append_assoc (encode_varint (n * 8 + 0))) (
    decode_tag n 0 (encode_varint v ++ rest) hn (omega arith)
    ∙ rw (read_varint-encode v rest hv, decode_value))
decode_round-encode n (fixed64 v) rest (hn, hv) =
    let l = low_bytes 8 v in
    rw (append_assoc (encode_varint (n * 8 + 1))) (
      decode_tag n 1 (l ++ rest) hn (omega arith)
      ∙ ground (
        arith,
        take-append l rest,
        drop-append l rest,
        length-low_bytes 8 v,
        length-append l rest,
        low_bytes_lem v hv,
      ))
decode_round-encode n (bytes l) rest (hn, hl) =
    rw (append_assoc (encode_varint (n * 8 + 2)), append_assoc (encode_varint (length l)))
      (decode_tag n 2 (encode_varint (length l) ++ (l ++ rest)) hn (omega arith)
        ∙ rw (read_varint-encode (length l) (l ++ rest) (omega arith), decode_value)
            (decode_bytes_lem n l rest hl))

length-encode_groups : (k v : ℕ) → 0 < length (encode_groups k v)
unfolding encode_groups
length-encode_groups zero v = omega arith
length-encode_groups (suc k) v = ground arith

length-encode_field : (f : ℕ × Value) → 0 < length (encode_field f)
length-encode_field (n, varint v) =
    rw length-append (omega (arith, length-encode_groups 9 (n * 8 + 0)))
length-encode_field (n, fixed64 v) =
    rw length-append (omega (arith, length-encode_groups 9 (n * 8 + 1)))
length-encode_field (n, bytes l) =
    rw length-append (omega (arith, length-encode_groups 9 (n * 8 + 2)))

-- One round of the loop that emits a field.
loop_step :
    (fuel : ℕ) (fields : List Field) (buf : List ℕ) (f : Field) (rest : List ℕ)
    → 0 < length buf
    → decode_round buf ≡ emit f rest
    → decode_loop (suc fuel) fields buf ≡ decode_loop fuel (fields ++ (f ∷ [])) rest
unfolding decode_loop
loop_step fuel fields [] f rest h e = absurd (omega arith)
loop_step fuel fields (b ∷ bs) f rest h e = rw (e, decode_loop)

loop-encode_message :
    (fuel : ℕ) (fields : List Field) (fs : List (ℕ × Value))
    → All IsEncodable fs
    → length (encode_message fs) ≤ fuel
    → decode_loop fuel fields (encode_message fs) ≡ done (fields ++ map field_of fs)
loop-encode_message fuel fields [] h enough = unfold decode_loop in rw append-nil
loop-encode_message zero fields ((n, v) ∷ fs) h enough = absurd (
    omega
      (arith, length-encode_field (n, v), length-append (encode_field (n, v)) (encode_message fs)))
loop-encode_message (suc fuel) fields ((n, v) ∷ fs) h enough =
    let f = encode_field (n, v) in
    let size = length-append f (encode_message fs) in
    let some_bytes = length-encode_field (n, v) in
    loop_step fuel fields (f ++ encode_message fs) (field_of (n, v)) (encode_message fs)
      (omega arith) (decode_round-encode n v (encode_message fs) h.0)
    ∙ loop-encode_message fuel (fields ++ (field_of (n, v) ∷ [])) fs h.1 (omega arith)
    ∙ ap done (append_assoc fields (field_of (n, v) ∷ []) (map field_of fs))

-- DecodeMessage reads back, in their order, the fields of a message in protobuf's wire format whose
-- numbers have 29 bits at most and whose values are 64-bit varints, 64-bit fixed numbers and byte strings
-- of fewer than 2 ^ 63 bytes.
pub decode_message-encode :
    (fs : List (ℕ × Value))
    → All IsEncodable fs
    → decode_message (encode_message fs) ≡ done (map field_of fs)
unfolding decode_message
decode_message-encode fs h = loop-encode_message (length (encode_message fs)) [] fs h (le_refl _)
