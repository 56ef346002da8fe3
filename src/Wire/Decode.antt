-- ===== src/Wire/Decode.antt =====
-- DecodeMessage on any input: its loop ends, and when it panics.
use native.Mathlib.Nat.{le_refl}
use codeburn_watcher.Prelude.{
  ℕ, zero, suc, ◌+◌, ◌*◌, ◌/◌, ◌%◌, ◌^◌, ◌≤◌, ◌<◌, ◌≡◌, ◌≢◌, none, some, List, [], ◌∷◌, ◌++◌, arith,
  length, drop, Option-cases, inl, inr,
}
use codeburn_watcher.Wire.{
  Field, uvarint_loop, read_varint, done, panicked, stuck, Round, emit, skip, finish, crash,
  decode_bytes, decode_value, decode_round, decode_loop, decode_message, wire2, varint_field,
}

length-drop-le {ℓ} : {A : Type ℓ} (n : ℕ) (l : List A) → length (drop n l) ≤ length l
length-drop-le zero l = omega arith
length-drop-le (suc n) [] = omega arith
length-drop-le (suc n) (x ∷ l) = omega (arith, length-drop-le n l)

uvarint_loop-shorter :
    (i p x : ℕ) (buf : List ℕ) (v : ℕ) (rest : List ℕ)
    → uvarint_loop i p x buf ≡ some (v, rest)
    → length rest < length buf
unfolding uvarint_loop
uvarint_loop-shorter i p x [] v rest e = cc
uvarint_loop-shorter i p x (b ∷ bs) v rest e =
    ground (arith, uvarint_loop-shorter (i + 1) (128 * p) (x + b % 128 * p) bs v rest)

read_varint-shorter :
    (buf : List ℕ) (v : ℕ) (rest : List ℕ)
    → read_varint buf ≡ some (v, rest)
    → length rest < length buf
unfolding read_varint
read_varint-shorter buf v rest e = uvarint_loop-shorter 0 1 0 buf v rest e

-- The number of bytes that a round leaves.
abbrev left : Round → ℕ
left (emit f rest) = length rest
left (skip rest) = length rest
left finish = 0
left crash = 0

left-decode_bytes : (n l : ℕ) (rest : List ℕ) → left (decode_bytes n l rest) ≤ length rest
unfolding decode_bytes
left-decode_bytes n l rest = ground (arith, length-drop-le l rest)

-- The two cases of the switch that read a number first.
left-varint :
    (rest : List ℕ) (f : ℕ → List ℕ → Round)
    → ((v : ℕ) (rest' : List ℕ) → left (f v rest') ≤ length rest')
    → left (elim (read_varint rest) [ none ↦ finish | some (v, rest') ↦ f v rest' ]) ≤ length rest
left-varint rest f h = elim (Option-cases (read_varint rest)) [
  | inl e ↦ rw e (omega arith)
  | inr ((v, rest'), e) ↦ rw e (omega (arith, h v rest', read_varint-shorter rest v rest' e))
]

left-decode_value : (n w : ℕ) (rest : List ℕ) → left (decode_value n w rest) ≤ length rest
unfolding decode_value
left-decode_value n w rest = ground (
  arith,
  length-drop-le 8 rest,
  length-drop-le 4 rest,
  left-varint rest (λ v r. emit (varint_field n v) r) (λ v r. le_refl _),
  left-varint rest (λ l r. decode_bytes n l r) (left-decode_bytes n),
)

left-decode_round : (b : ℕ) (bs : List ℕ) → left (decode_round (b ∷ bs)) ≤ length bs
unfolding decode_round
left-decode_round b bs = elim (Option-cases (read_varint (b ∷ bs))) [
  | inl e ↦ rw (e, left, decode_round) (omega arith)
  | inr ((tag, rest), e) ↦
      rw (e, left, decode_round)
        (omega (
          arith,
          left-decode_value (tag / 8 % 2 ^ 32) (tag % 8) rest,
          read_varint-shorter (b ∷ bs) tag rest e,
        ))
]

decode_loop-ne-stuck :
    (fuel : ℕ) (fields : List Field) (buf : List ℕ)
    → length buf ≤ fuel
    → decode_loop fuel fields buf ≢ stuck
unfolding decode_loop
decode_loop-ne-stuck fuel fields [] h = λ e. cc
decode_loop-ne-stuck zero fields (b ∷ bs) h = absurd (omega arith)
decode_loop-ne-stuck (suc fuel) fields (b ∷ bs) h =
    go (decode_round (b ∷ bs)) (left-decode_round b bs)
      (λ fs rest small. decode_loop-ne-stuck fuel fs rest (omega arith))
  where
    go :
        (r : Round)
        → left r ≤ length bs
        → ((fs : List Field) (rest : List ℕ)
            → length rest ≤ length bs
            → decode_loop fuel fs rest ≢ stuck)
        → (elim r [
          | emit f rest ↦ decode_loop fuel (fields ++ (f ∷ [])) rest
          | skip rest ↦ decode_loop fuel fields rest
          | finish ↦ done fields
          | crash ↦ panicked
        ])
          ≢ stuck
    go (emit f rest) small next = next (fields ++ (f ∷ [])) rest small
    go (skip rest) small next = next fields rest small
    go finish small next = λ e. cc
    go crash small next = λ e. cc

-- DecodeMessage ends on every input.
pub decode_message-ne-stuck : (buf : List ℕ) → decode_message buf ≢ stuck
unfolding decode_message
decode_message-ne-stuck buf = decode_loop-ne-stuck (length buf) [] buf (le_refl _)

decode_round-crash :
    (buf : List ℕ) (tag l : ℕ) (rest rest' : List ℕ)
    → read_varint buf ≡ some (tag, rest)
    → tag % 8 ≡ wire2
    → read_varint rest ≡ some (l, rest')
    → 2 ^ 63 ≤ l
    → decode_round buf ≡ crash
unfolding decode_round decode_value decode_bytes
decode_round-crash buf tag l rest rest' e w e' h =
    rw (e, decode_round) (rw (w, decode_value) (rw (e', decode_value) (ground arith)))

-- A message panics if it begins with a tag of the length-delimited wire type and with a length from
-- 2 ^ 63 on, whatever follows.
pub decode_message-panics :
    (buf : List ℕ) (tag l : ℕ) (rest rest' : List ℕ)
    → read_varint buf ≡ some (tag, rest)
    → tag % 8 ≡ wire2
    → read_varint rest ≡ some (l, rest')
    → 2 ^ 63 ≤ l
    → decode_message buf ≡ panicked
unfolding decode_message decode_loop
decode_message-panics [] tag l rest rest' e w e' h = unfold read_varint in cc
decode_message-panics (b ∷ bs) tag l rest rest' e w e' h =
    rw (decode_round-crash (b ∷ bs) tag l rest rest' e w e' h, decode_loop)
